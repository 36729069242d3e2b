-- ===== src/Server/Auth/Family.antt =====
-- _refresh_family_ids of auth/service.py finds the tokens that are linked by replacements.
use risk_opportunity_manager.Prelude.{
  ℕ, zero, suc, ◌+◌, ◌≤◌, ◌≡◌, ◌↔◌, refl, sym, ap, subst, ◌∙◌, true, false, ◌&&◌, ◌||◌, not, some,
  List, [], ◌∷◌, ◌++◌, ◌==◌, ==_refl, select, length, length-append, Bool-cases, inl, inr, arith,
}
use risk_opportunity_manager.Server.Auth.{
  Token, is_member, ids_of, is_known, neighbors, fresh, collect_family, pot_from,
  refresh_family_ids,
}
use risk_opportunity_manager.Server.Auth.Links.{
  same_id, is_member-append, or_cases, neighbors_from-known, Linked, IsToken-is_known,
  Linked-neighbor, replacement_near, replaced_near,
}

is_member-fresh :
    (i : ℕ) (family ids : List ℕ)
    → is_member i (fresh family ids) ≡ (is_member i ids && not (is_member i family))
unfolding is_member fresh select
is_member-fresh i family [] = refl
is_member-fresh i family (j ∷ ids) = elim (Bool-cases (j == i)) [
  | inl same ↦
      let equal = same_id j i same in
      rw equal (ground (arith, is_member-fresh i family ids, ==_refl i))
  | inr other ↦ ground (arith, other, is_member-fresh i family ids)
]

length-fresh-le : (family ids : List ℕ) → length (fresh family ids) ≤ length ids
unfolding fresh select
length-fresh-le family [] = omega arith
length-fresh-le family (j ∷ ids) = ground (arith, length-fresh-le family ids)

pot_from-more :
    (tokens ts : List Token) (i : ℕ) (family : List ℕ)
    → pot_from tokens ts (i ∷ family) ≤ pot_from tokens ts family
unfolding pot_from is_member
pot_from-more tokens [] i family = omega arith
pot_from-more tokens (t ∷ rest) i family = ground (arith, pot_from-more tokens rest i family)

pot_from-drop :
    (tokens ts : List Token) (i : ℕ) (family : List ℕ)
    → is_member i family ≡ false
    → is_member i (ids_of ts) ≡ true
    → pot_from tokens ts (i ∷ family) + length (neighbors tokens i) ≤ pot_from tokens ts family
unfolding pot_from is_member
pot_from-drop tokens [] i family new known = cc
pot_from-drop tokens (t ∷ rest) i family new known = elim (Bool-cases (t.id == i)) [
  | inl same ↦
      let equal = same_id t.id i same in
      ground (
        arith,
        same,
        new,
        ap (λ k. is_member k family) equal,
        ap (λ k. length (neighbors tokens k)) equal,
        pot_from-more tokens rest i family,
      )
  | inr other ↦ ground (arith, other, new, known, pot_from-drop tokens rest i family)
]

-- What the search leaves: it holds the start and the neighbors of what it holds, which is linked.
record IsSearched (tokens : List Token) (start : ℕ) (family : List ℕ) : Type 0 where
  start_in : is_member start family ≡ true
  closed :
      (i j : ℕ)
      → is_member i family ≡ true
      → is_member j (neighbors tokens i) ≡ true
      → is_member j family ≡ true
  sound : (i : ℕ) → is_member i family ≡ true → Linked tokens start i

record IsWalk (tokens : List Token) (start : ℕ) (remaining family : List ℕ) : Type 0 where
  start_in : (is_member start family || is_member start remaining) ≡ true
  known : (i : ℕ) → is_member i remaining ≡ true → is_known tokens i ≡ true
  waiting : (i : ℕ) → is_member i remaining ≡ true → Linked tokens start i
  sound : (i : ℕ) → is_member i family ≡ true → Linked tokens start i
  edges :
      (i j : ℕ)
      → is_member i family ≡ true
      → is_member j (neighbors tokens i) ≡ true
      → (is_member j family || is_member j remaining) ≡ true

eq_member : (i k : ℕ) (ids : List ℕ) → (i == k) ≡ true → is_member i ids ≡ is_member k ids
eq_member i k ids h = ap (λ j. is_member j ids) (same_id i k h)

IsWalk-seen :
    (tokens : List Token) (start i : ℕ) (remaining family : List ℕ)
    → is_member i family ≡ true
    → IsWalk tokens start (i ∷ remaining) family
    → IsWalk tokens start remaining family
unfolding is_member
IsWalk-seen tokens start i remaining family seen w = record {
  start_in = ground (arith, w.start_in, eq_member i start family, seen);
  known = λ k m. w.known k (ground (arith, m));
  waiting = λ k m. w.waiting k (ground (arith, m));
  sound = w.sound;
  edges = λ k j m n. ground (arith, w.edges k j m n, eq_member i j family, seen);
}

IsWalk-added :
    (tokens : List Token) (start i : ℕ) (remaining family : List ℕ)
    → IsWalk tokens start (i ∷ remaining) family
    → IsWalk tokens start (fresh (i ∷ family) (neighbors tokens i) ++ remaining) (i ∷ family)
unfolding is_member
IsWalk-added tokens start i remaining family w =
    let added = fresh (i ∷ family) (neighbors tokens i) in
    let self = w.waiting i (ground (arith, ==_refl i)) in
    let parts = λ (k : ℕ). is_member-append k added remaining in
    let new = λ (k : ℕ). is_member-fresh k (i ∷ family) (neighbors tokens i) in
    record {
      start_in = ground (arith, w.start_in, parts start);
      known = λ k m.
          elim (or_cases (is_member k added) (is_member k remaining) (sym (parts k) ∙ m)) [
            | inl near ↦
                neighbors_from-known tokens tokens i k (λ j h. h) (ground (arith, near, new k))
            | inr far ↦ w.known k (ground (arith, far))
          ];
      waiting = λ k m.
          elim (or_cases (is_member k added) (is_member k remaining) (sym (parts k) ∙ m)) [
            | inl near ↦ Linked-neighbor tokens start i k self (ground (arith, near, new k))
            | inr far ↦ w.waiting k (ground (arith, far))
          ];
      sound = λ k m. elim (or_cases (i == k) (is_member k family) m) [
        | inl same ↦ subst (Linked tokens start) (same_id i k same) self
        | inr old ↦ w.sound k old
      ];
      edges = λ k j m n. elim (or_cases (i == k) (is_member k family) m) [
        | inl same ↦ ground (
          arith,
          n,
          ap (λ x. is_member j (neighbors tokens x)) (same_id i k same),
          parts j,
          new j,
        )
        | inr old ↦ ground (arith, w.edges k j old n, parts j)
      ];
    }

collect_family_lem :
    (tokens : List Token) (start f : ℕ) (remaining family : List ℕ)
    → IsWalk tokens start remaining family
    → length remaining + pot_from tokens tokens family ≤ f
    → (found : List ℕ) × (collect_family tokens f remaining family ≡ some found)
      × IsSearched tokens start found
unfolding collect_family is_member
collect_family_lem tokens start f [] family w enough = (
  family,
  refl,
  record {
    start_in = ground (arith, w.start_in);
    closed = λ i j m n. ground (arith, w.edges i j m n);
    sound = w.sound;
  },
)
collect_family_lem tokens start zero (i ∷ remaining) family w enough =
    absurd (omega (arith, enough))
collect_family_lem tokens start (suc f) (i ∷ remaining) family w enough =
    elim (Bool-cases (is_member i family)) [
      | inl seen ↦
          let (found, ends, h) =
            collect_family_lem tokens start f remaining family
              (IsWalk-seen tokens start i remaining family seen w) (omega (arith, enough)) in
          (found, rw (seen, collect_family) ends, h)
      | inr new ↦
          let added = fresh (i ∷ family) (neighbors tokens i) in
          let (found, ends, h) =
            collect_family_lem tokens start f (added ++ remaining) (i ∷ family)
              (IsWalk-added tokens start i remaining family w)
              (omega (
                arith,
                enough,
                length-append {0} added remaining,
                length-fresh-le (i ∷ family) (neighbors tokens i),
                pot_from-drop tokens tokens i family new (w.known i (ground (arith, ==_refl i))),
              )) in
          (found, rw (new, collect_family) ends, h)
    ]

-- what is linked is in the family
Linked-is_member :
    (tokens : List Token) (start i : ℕ) (family : List ℕ)
    → IsSearched tokens start family
    → Linked tokens start i
    → is_member i family ≡ true
Linked-is_member tokens start i family h Linked.here = h.start_in
Linked-is_member tokens start i family h (Linked.forward {i = k} before replaced known) =
    h.closed k i (Linked-is_member tokens start k family h before)
      (replacement_near tokens tokens k i (IsToken-is_known tokens i known) replaced)
Linked-is_member tokens start i family h (Linked.backward {j = k} before replaced) =
    h.closed k i (Linked-is_member tokens start k family h before)
      (replaced_near tokens tokens i k replaced)

-- A family holds what is linked and nothing else.
abbrev pub IsFamily : List Token → ℕ → List ℕ → Type 0
IsFamily tokens start family = (i : ℕ) → (is_member i family ≡ true) ↔ Linked tokens start i

-- The search for the family of a token that is among the tokens ends: what it finds is exactly the
-- tokens that chains of replacements link to it, in both directions, among the tokens.
pub refresh_family_ids-IsFamily :
    (tokens : List Token) (start : ℕ)
    → is_known tokens start ≡ true
    → (family : List ℕ) × (refresh_family_ids tokens start ≡ some family)
      × IsFamily tokens start family
unfolding refresh_family_ids is_member
refresh_family_ids-IsFamily tokens start known =
    let (family, ends, h) =
      collect_family_lem tokens start (1 + pot_from tokens tokens []) (start ∷ []) []
        (record {
          start_in = ground (arith, ==_refl start);
          known = λ i m.
              subst (λ k. is_known tokens k ≡ true) (same_id start i (ground (arith, m))) known;
          waiting =
              λ i m. subst (Linked tokens start) (same_id start i (ground (arith, m))) Linked.here;
          sound = λ i m. cc;
          edges = λ i j m n. cc;
        })
        (omega arith) in
    (family, rw known ends, λ i. (h.sound i, Linked-is_member tokens start i family h))
