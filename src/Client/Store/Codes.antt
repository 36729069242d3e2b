-- ===== src/Client/Store/Codes.antt =====
-- The codes of the local risks and opportunities: the unique index that server_state.py must not break.
use package.text.Mathlib.TextEquality.{eq_iff}
use risk_opportunity_manager.Prelude.{
  ℕ, ◌+◌, ◌≤◌, ◌≡◌, refl, sym, subst, ◌∙◌, Bool, true, false, Option, none, some, List, [], ◌∷◌,
  ◌==◌, String, find, find-none, update, count, count-snoc, count-update, count-ext,
  count-overwrite, count-update_moved, Bool-cases, Option-cases, inl, inr, arith,
}
use risk_opportunity_manager.Protocol.{Entity}
use risk_opportunity_manager.Json.{Fields}
use risk_opportunity_manager.Client.Outbox.{Table}
use risk_opportunity_manager.Client.Store.{
  Python, Item, Items, is_item, same_code, has_code_in, holds_code, without_code, write_item,
}
use risk_opportunity_manager.Client.Store.Pull.{Copies, apply_each, apply_one, apply_pull}
use risk_opportunity_manager.Client.Store.Rounds.{
  Round, nothing, remembered, wrote, RoundOf, released, apply_one-RoundOf,
}
use risk_opportunity_manager.Client.Store.Waiting.{upsert_row-written, same_key}

-- The primary keys of the tables and the unique index of the codes.
abbrev pub IsKeyed : Items → Type 0
IsKeyed items = (e : Entity) (i : ℕ) → count (is_item e i) items ≤ 1

abbrev pub IsCoded : Items → Type 0
IsCoded items = (e : Entity) (p : ℕ) (code : String) → count (has_code_in e p (some code)) items ≤ 1

same_code-both :
    (code : String) (a b : Option String)
    → same_code (some code) a ≡ true
    → same_code (some code) b ≡ true
    → same_code a b ≡ true
same_code-both code none b h k = cc h
same_code-both code (some c) none h k = cc k
same_code-both code (some c) (some d) h k =
    (eq_iff c d).1 (sym ((eq_iff code c).0 h) ∙ (eq_iff code d).0 k)

module _ {A : Type 0} where
  count-either-le :
      (p q h : A → Bool) (either : (x : A) → p x ≡ true → q x ≡ false → h x ≡ true) (xs : List A)
      → count p xs ≤ count q xs + count h xs
  unfolding count
  count-either-le p q h either [] = omega arith
  count-either-le p q h either (x ∷ xs) = ground (arith, either x, count-either-le p q h either xs)

  count-overwritten-le :
      (p q h : A → Bool) (a : A) (either : (x : A) → p x ≡ true → q x ≡ false → h x ≡ true)
      (xs : List A)
      → count p (update q (λ _. a) xs) ≤ count q xs + count h xs
  unfolding count update
  count-overwritten-le p q h a either [] = omega arith
  count-overwritten-le p q h a either (x ∷ xs) =
      ground (arith, either x, count-overwritten-le p q h a either xs)

write_item-IsKeyed :
    (o : Option Item) (r : Item) (rows : Items)
    → find (is_item r.entity r.id) rows ≡ o
    → IsKeyed rows
    → IsKeyed (write_item o r rows)
write_item-IsKeyed none r rows new keyed d i = elim (Bool-cases (is_item d i r)) [
  | inl own ↦
      let same : count (is_item d i) rows ≡ count (is_item r.entity r.id) rows =
        count-ext (is_item d i) (is_item r.entity r.id) (λ x. ground (arith, own)) rows in
      rw (count-snoc, own) (omega (arith, same, find-none (is_item r.entity r.id) rows new))
  | inr other ↦ rw (count-snoc, other) (omega (arith, keyed d i))
]
write_item-IsKeyed (some old) r rows found keyed d i = omega (
  arith,
  keyed d i,
  count-overwrite (is_item d i) (is_item r.entity r.id) r (same_key d i r) rows,
)

write_item-IsCoded :
    (o : Option Item) (r : Item) (rows : Items)
    → find (is_item r.entity r.id) rows ≡ o
    → (count (holds_code r.entity r.project_id r.code r.id) rows == 0) ≡ true
    → IsKeyed rows
    → IsCoded rows
    → IsCoded (write_item o r rows)
write_item-IsCoded o r rows there free keyed coded d p code =
    let has = has_code_in d p (some code) in
    let own = is_item r.entity r.id in
    let held = holds_code r.entity r.project_id r.code r.id in
    elim (Bool-cases (has r)) [ inl takes ↦ taken o there takes | inr other ↦ spared o other ]
  where
    rival :
        has_code_in d p (some code) r ≡ true
        → (x : Item) → has_code_in d p (some code) x ≡ true
        → is_item r.entity r.id x ≡ false
        → holds_code r.entity r.project_id r.code r.id x ≡ true
    rival takes x has apart = ground (arith, takes, has, apart, same_code-both code r.code x.code)

    taken :
        (o : Option Item)
        → find (is_item r.entity r.id) rows ≡ o
        → has_code_in d p (some code) r ≡ true
        → count (has_code_in d p (some code)) (write_item o r rows) ≤ 1
    taken none new takes =
        rw (count-snoc, takes)
          (ground (
            arith,
            free,
            find-none (is_item r.entity r.id) rows new,
            count-either-le (has_code_in d p (some code)) (is_item r.entity r.id)
                (holds_code r.entity r.project_id r.code r.id) (rival takes) rows,
          ))
    taken (some old) found takes = ground (
      arith,
      free,
      keyed r.entity r.id,
      count-overwritten-le (has_code_in d p (some code)) (is_item r.entity r.id)
          (holds_code r.entity r.project_id r.code r.id) r (rival takes) rows,
    )

    spared :
        (o : Option Item)
        → has_code_in d p (some code) r ≡ false
        → count (has_code_in d p (some code)) (write_item o r rows) ≤ 1
    spared none other = rw (count-snoc, other) (omega (arith, coded d p code))
    spared (some old) other = omega (
      arith,
      coded d p code,
      count-update_moved (has_code_in d p (some code)) (is_item r.entity r.id) (λ _. r)
          (λ x h. other) rows,
    )

released-IsKeyed : (r : Item) (rows : Items) → IsKeyed rows → IsKeyed (released r rows)
released-IsKeyed r rows keyed d i = omega (
  arith,
  keyed d i,
  count-update (is_item d i) (holds_code r.entity r.project_id r.code r.id) without_code (λ x. refl)
      rows,
)

released-IsCoded : (r : Item) (rows : Items) → IsCoded rows → IsCoded (released r rows)
released-IsCoded r rows coded d p code = omega (
  arith,
  coded d p code,
  count-update_moved (has_code_in d p (some code)) (holds_code r.entity r.project_id r.code r.id)
      without_code (λ x h. ground arith) rows,
)

abbrev pub IsLocal : Items → Type 0
IsLocal items = IsKeyed items × IsCoded items

Round-IsLocal :
    (p : ℕ) (e : Entity) (start : Table) (c c' : Copies)
    → Round p e start c c'
    → IsLocal c.items
    → IsLocal c'.items
Round-IsLocal p e start c c' nothing h = h
Round-IsLocal p e start c c' (remembered k v raw at) h = h
Round-IsLocal p e start c c' (wrote r items own free done) (keyed, coded) =
    let rows = released r c.items in
    let (allowed, same) = upsert_row-written r rows items done in
    let o = find (is_item r.entity r.id) rows in
    let keyed1 = released-IsKeyed r c.items keyed in
    subst IsLocal same (
      write_item-IsKeyed o r rows refl keyed1,
      write_item-IsCoded o r rows refl allowed keyed1 (released-IsCoded r c.items coded),
    )

abbrev LocalAfter : Option Copies → Type 0
LocalAfter none = Unit
LocalAfter (some c) = IsLocal c.items

module _ (py : Python) where
  each-LocalAfter :
      (p : ℕ) (e : Entity) (start : Table) (ents : List Fields) (c : Copies)
      → IsLocal c.items
      → LocalAfter (apply_each (apply_one py p e start) ents c)
  unfolding apply_each
  each-LocalAfter p e start [] c h = h
  each-LocalAfter p e start (ent ∷ rest) c h = elim (Option-cases (apply_one py p e start ent c)) [
    | inl fails ↦ rw (apply_each, fails) tt
    | inr (c1, done) ↦
        rw (apply_each, done)
          (each-LocalAfter p e start rest c1 (
            Round-IsLocal p e start c c1
              (subst (RoundOf p e start c) done (apply_one-RoundOf py p e start ent c)) h))
  ]

  -- A pull that does not fail keeps the ids of each table unique, and the codes of each project's
  -- risks and of its opportunities.
  pub pull-IsLocal :
      (p : ℕ) (e : Entity) (ents : List Fields) (c c' : Copies)
      → IsLocal c.items
      → apply_pull py p e ents c ≡ some c'
      → IsLocal c'.items
  unfolding apply_pull
  pull-IsLocal p e ents c c' h done = subst LocalAfter done (each-LocalAfter p e c.outbox ents c h)
