-- ===== src/Server/Auth/Tables.antt =====
-- A table of tokens, searched and updated: what the proofs about auth/service.py need of it.
use risk_opportunity_manager.Prelude.{
  ◌≤◌, ◌≡◌, Bool, true, some, List, [], ◌∷◌, if◌then◌else◌, find, find_counted, select, count,
  arith, Bool-cases, inl, inr,
}

module _ {A : Type 0} where
  -- The only row that passes a test is found by it.
  pub find_unique :
      (p q : A → Bool) (a : A) (xs : List A)
      → find p xs ≡ some a
      → q a ≡ true
      → count q xs ≤ 1
      → find q xs ≡ some a
  unfolding find count
  find_unique p q a [] h k once = cc
  find_unique p q a (x ∷ xs) h k once = elim (Bool-cases (p x)) [
    | inl here ↦ ground (arith, here, h, k)
    | inr past ↦ ground (arith, past, h, k, once, find_unique p q a xs, find_counted p q a xs)
  ]

  pub find-select_kept :
      (q s : A → Bool) (a : A) (xs : List A)
      → find q xs ≡ some a
      → s a ≡ true
      → find q (select s xs) ≡ some a
  unfolding find select
  find-select_kept q s a [] h k = cc
  find-select_kept q s a (x ∷ xs) h k = ground (arith, h, k, find-select_kept q s a xs)

  pub count_covers :
      (p q : A → Bool) (covers : (x : A) → p x ≡ true → q x ≡ true) (xs : List A)
      → count p xs ≤ count q xs
  unfolding count
  count_covers p q covers [] = omega arith
  count_covers p q covers (x ∷ xs) = ground (arith, covers x, count_covers p q covers xs)

  -- What a narrower test counts, where the wider one passes one row at most.
  pub count_found :
      (p q : A → Bool) (a : A) (covers : (x : A) → p x ≡ true → q x ≡ true) (xs : List A)
      → find q xs ≡ some a
      → count q xs ≤ 1
      → count p xs ≡ (if p a then 1 else 0)
  unfolding find count
  count_found p q a covers [] h once = cc
  count_found p q a covers (x ∷ xs) h once = elim (Bool-cases (q x)) [
    | inl here ↦ ground (arith, here, h, once, count_covers p q covers xs)
    | inr past ↦ ground (arith, past, h, once, covers x, count_found p q a covers xs)
  ]

  pub find-select_passes :
      (p s : A → Bool) (a : A) (xs : List A) → find p (select s xs) ≡ some a → s a ≡ true
  unfolding find select
  find-select_passes p s a [] h = cc
  find-select_passes p s a (x ∷ xs) h = ground (arith, h, find-select_passes p s a xs)

  -- What is found in a selection is found in the table by a test that one row passes at most.
  pub find-select_unique :
      (p s q : A → Bool) (a : A) (xs : List A)
      → find p (select s xs) ≡ some a
      → q a ≡ true
      → count q xs ≤ 1
      → find q xs ≡ some a
  unfolding find select count
  find-select_unique p s q a [] h k once = cc
  find-select_unique p s q a (x ∷ xs) h k once =
      ground (arith, h, k, once, find-select_unique p s q a xs, find_counted q q a xs)
