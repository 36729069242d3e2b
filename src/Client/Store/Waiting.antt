-- ===== src/Client/Store/Waiting.antt =====
-- The pulls of server_state.py leave alone what a queued change waits for, and the queued changes.
use risk_opportunity_manager.Prelude.{
  ℕ, ℤ, ◌≡◌, refl, sym, ap, subst, ◌∙◌, ◌⊎◌, inl, inr, Bool, true, false, Option, none, some, List,
  [], ◌∷◌, if◌then◌else◌, ◌==◌, String, find, find_passes, find-append, find-update, find-overwrite,
  updated, or_else, count, Bool-cases, Option-cases, arith,
}
use risk_opportunity_manager.Protocol.{Entity, same_entity}
use risk_opportunity_manager.Json.{Fields}
use risk_opportunity_manager.Client.Outbox.{Row, Table, has_id}
use risk_opportunity_manager.Client.Store.{
  Python, Item, Items, is_item, holds_code, without_code, is_waiting, write_item, upsert_row,
  with_server_copy,
}
use risk_opportunity_manager.Client.Store.Pull.{Copies, apply_each, apply_one, apply_pull}
use risk_opportunity_manager.Client.Store.Rounds.{
  Round, nothing, remembered, wrote, RoundOf, released, apply_one-RoundOf,
}

-- the same local row, but for its code
abbrev pub SameButCode : Option Item → Option Item → Type 0
SameButCode none none = Unit
SameButCode (some a) (some b) = record b { code = a.code } ≡ a
SameButCode _ _ = ⊥

-- the same queued change, but for the outcome kept with it
abbrev pub SameEdit : Option Row → Option Row → Type 0
SameEdit none none = Unit
SameEdit (some a) (some b) = record b { result = a.result } ≡ a
SameEdit _ _ = ⊥

SameButCode-refl : (o : Option Item) → SameButCode o o
SameButCode-refl none = tt
SameButCode-refl (some a) = refl

SameButCode-trans : (o m n : Option Item) → SameButCode o m → SameButCode m n → SameButCode o n
SameButCode-trans none none none h k = tt
SameButCode-trans none none (some c) h k = k
SameButCode-trans none (some b) n h k = absurd h
SameButCode-trans (some a) none n h k = absurd h
SameButCode-trans (some a) (some b) none h k = k
SameButCode-trans (some a) (some b) (some c) h k =
    ap (λ (x : Item). record x { code = a.code }) k ∙ h

SameEdit-refl : (o : Option Row) → SameEdit o o
SameEdit-refl none = tt
SameEdit-refl (some a) = refl

SameEdit-trans : (o m n : Option Row) → SameEdit o m → SameEdit m n → SameEdit o n
SameEdit-trans none none none h k = tt
SameEdit-trans none none (some c) h k = k
SameEdit-trans none (some b) n h k = absurd h
SameEdit-trans (some a) none n h k = absurd h
SameEdit-trans (some a) (some b) none h k = k
SameEdit-trans (some a) (some b) (some c) h k =
    ap (λ (x : Row). record x { result = a.result }) k ∙ h

if_some :
    (b : Bool) (a items : Items)
    → ◌≡◌ {A = Option Items} (if b then some a else none) (some items)
    → (b ≡ true) × (a ≡ items)
if_some true a items h = (refl, cc h)
if_some false a items h = cc h

-- what an upsert that the index lets through writes
pub upsert_row-written :
    (r : Item) (rows items : Items)
    → upsert_row r rows ≡ some items
    → ((count (holds_code r.entity r.project_id r.code r.id) rows == 0) ≡ true)
      × (write_item (find (is_item r.entity r.id) rows) r rows ≡ items)
unfolding upsert_row
upsert_row-written r rows items h =
    if_some (count (holds_code r.entity r.project_id r.code r.id) rows == 0)
      (write_item (find (is_item r.entity r.id) rows) r rows) items h

or_else-none : {A : Type 0} (o : Option A) → or_else o none ≡ o
or_else-none none = refl
or_else-none (some a) = refl

pub same_key :
    (d : Entity) (i : ℕ) (r x : Item)
    → is_item r.entity r.id x ≡ true
    → is_item d i r ≡ is_item d i x
same_key d i r x h = ground (arith, h)

overwritten_apart :
    (p q : Item → Bool) (r : Item) (o : Option Item)
    → p r ≡ false
    → ((x : Item) → q x ≡ true → p r ≡ p x)
    → ((x : Item) → o ≡ some x → p x ≡ true)
    → updated q (λ _. r) o ≡ o
overwritten_apart p q r none apart alike passes = refl
overwritten_apart p q r (some x) apart alike passes = ground (arith, apart, alike x, passes x refl)

find-write_item :
    (d : Entity) (i : ℕ) (o : Option Item) (r : Item) (rows : Items)
    → is_item d i r ≡ false
    → find (is_item d i) (write_item o r rows) ≡ find (is_item d i) rows
unfolding find
find-write_item d i none r rows apart =
    find-append (is_item d i) rows (r ∷ []) ∙ rw apart (or_else-none (find (is_item d i) rows))
find-write_item d i (some old) r rows apart =
    find-overwrite (is_item d i) (is_item r.entity r.id) r (same_key d i r) rows
    ∙ overwritten_apart (is_item d i) (is_item r.entity r.id) r (find (is_item d i) rows) apart
        (same_key d i r) (λ x h. find_passes (is_item d i) x rows h)

updated-SameButCode : (q : Item → Bool) (o : Option Item) → SameButCode o (updated q without_code o)
updated-SameButCode q none = tt
updated-SameButCode q (some x) = elim (Bool-cases (q x)) [
  | inl here ↦ rw here refl
  | inr past ↦ rw past refl
]

-- a row that the pull of an entity may not overwrite
abbrev pub IsApart : ℕ → Entity → Table → Entity → ℕ → Type 0
IsApart p e start d i = (same_entity e d ≡ false) ⊎ (is_waiting p e i start ≡ true)

apart_row :
    (p : ℕ) (e : Entity) (start : Table) (d : Entity) (i : ℕ) (r : Item)
    → IsApart p e start d i
    → r.entity ≡ e
    → is_waiting p e r.id start ≡ false
    → is_item d i r ≡ false
apart_row p e start d i r (inl other) own free = rw own (ground (arith, other))
apart_row p e start d i r (inr waits) own free = elim (Bool-cases (r.id == i)) [
  | inl same ↦
      absurd
        (ground (arith, waits, free, ap (λ j. is_waiting p e j start) (same_number r.id i same)))
  | inr other ↦ ground (arith, other)
]
  where
    same_number : (j k : ℕ) → (j == k) ≡ true → j ≡ k
    same_number j k h = ground (arith, h)

Round-SameButCode :
    (p : ℕ) (e : Entity) (start : Table) (d : Entity) (i : ℕ) (c c' : Copies)
    → IsApart p e start d i
    → Round p e start c c'
    → SameButCode (find (is_item d i) c.items) (find (is_item d i) c'.items)
Round-SameButCode p e start d i c c' apart nothing = SameButCode-refl (find (is_item d i) c.items)
Round-SameButCode p e start d i c c' apart (remembered k v raw at) =
    SameButCode-refl (find (is_item d i) c.items)
Round-SameButCode p e start d i c c' apart (wrote r items own free done) =
    let (_, same) = upsert_row-written r (released r c.items) items done in
    let stays =
      find-write_item d i (find (is_item r.entity r.id) (released r c.items)) r (released r c.items)
        (apart_row p e start d i r apart own free) in
    subst (λ xs. SameButCode (find (is_item d i) c.items) (find (is_item d i) xs)) same
      (subst (SameButCode (find (is_item d i) c.items))
        (sym (
          stays
          ∙ find-update (is_item d i) (holds_code r.entity r.project_id r.code r.id) without_code
              (λ x. refl) c.items))
        (updated-SameButCode (holds_code r.entity r.project_id r.code r.id)
          (find (is_item d i) c.items)))

updated-SameEdit :
    (k : ℕ) (v : ℤ) (raw : Fields) (at : String) (o : Option Row)
    → SameEdit o (updated (has_id k) (with_server_copy v raw at) o)
updated-SameEdit k v raw at none = tt
updated-SameEdit k v raw at (some r) = elim (Bool-cases (has_id k r)) [
  | inl here ↦ rw here refl
  | inr past ↦ rw past refl
]

Round-SameEdit :
    (p : ℕ) (e : Entity) (start : Table) (k : ℕ) (c c' : Copies)
    → Round p e start c c'
    → SameEdit (find (has_id k) c.outbox) (find (has_id k) c'.outbox)
Round-SameEdit p e start k c c' nothing = SameEdit-refl (find (has_id k) c.outbox)
Round-SameEdit p e start k c c' (remembered j v raw at) =
    subst (SameEdit (find (has_id k) c.outbox))
      (sym (find-update (has_id k) (has_id j) (with_server_copy v raw at) (λ r. refl) c.outbox))
      (updated-SameEdit j v raw at (find (has_id k) c.outbox))
Round-SameEdit p e start k c c' (wrote r items own free done) =
    SameEdit-refl (find (has_id k) c.outbox)

-- what a pull keeps of the tables and the outbox
abbrev pub IsSpared : ℕ → Entity → Table → Copies → Copies → Type 0
IsSpared p e start c c' =
    ((d : Entity) (i : ℕ)
      → IsApart p e start d i
      → SameButCode (find (is_item d i) c.items) (find (is_item d i) c'.items))
    × ((k : ℕ) → SameEdit (find (has_id k) c.outbox) (find (has_id k) c'.outbox))

abbrev SparedBy : ℕ → Entity → Table → Copies → Option Copies → Type 0
SparedBy p e start c none = Unit
SparedBy p e start c (some c') = IsSpared p e start c c'

SparedBy-trans :
    (p : ℕ) (e : Entity) (start : Table) (c c1 : Copies) (o : Option Copies)
    → IsSpared p e start c c1
    → SparedBy p e start c1 o
    → SparedBy p e start c o
SparedBy-trans p e start c c1 none h k = tt
SparedBy-trans p e start c c1 (some c') (rows, edits) (rows', edits') = (
  λ d i apart.
      SameButCode-trans (find (is_item d i) c.items) (find (is_item d i) c1.items)
        (find (is_item d i) c'.items) (rows d i apart) (rows' d i apart),
  λ k.
      SameEdit-trans (find (has_id k) c.outbox) (find (has_id k) c1.outbox)
        (find (has_id k) c'.outbox) (edits k) (edits' k),
)

module _ (py : Python) where
  each-SparedBy :
      (p : ℕ) (e : Entity) (start : Table) (ents : List Fields) (c : Copies)
      → SparedBy p e start c (apply_each (apply_one py p e start) ents c)
  unfolding apply_each
  each-SparedBy p e start [] c = (
    λ d i apart. SameButCode-refl (find (is_item d i) c.items),
    λ k. SameEdit-refl (find (has_id k) c.outbox),
  )
  each-SparedBy p e start (ent ∷ rest) c = elim (Option-cases (apply_one py p e start ent c)) [
    | inl fails ↦ rw (apply_each, fails) tt
    | inr (c1, done) ↦
        let round : Round p e start c c1 =
          subst (RoundOf p e start c) done (apply_one-RoundOf py p e start ent c) in
        rw (apply_each, done)
          (SparedBy-trans p e start c c1 (apply_each (apply_one py p e start) rest c1)
            (
              λ d i apart. Round-SameButCode p e start d i c c1 apart round,
              λ k. Round-SameEdit p e start k c c1 round,
            )
            (each-SparedBy p e start rest c1))
  ]

  -- A pull of an entity that does not fail leaves, but for its code, each local row of another entity
  -- and each row for which a change of the project is queued, and every queued change with all but the
  -- outcome that is kept with it; no queued change comes or goes.
  pub pull_spares_waiting :
      (p : ℕ) (e : Entity) (ents : List Fields) (c c' : Copies) (d : Entity) (i : ℕ)
      → apply_pull py p e ents c ≡ some c'
      → IsApart p e c.outbox d i
      → SameButCode (find (is_item d i) c.items) (find (is_item d i) c'.items)
        × ((k : ℕ) → SameEdit (find (has_id k) c.outbox) (find (has_id k) c'.outbox))
  unfolding apply_pull
  pull_spares_waiting p e ents c c' d i h apart =
      let (rows, edits) = subst (SparedBy p e c.outbox c) h (each-SparedBy p e c.outbox ents c) in
      (rows d i apart, edits)
