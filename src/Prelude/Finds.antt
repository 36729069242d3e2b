-- ===== src/Prelude/Finds.antt =====
-- `find` after the statements that change a table: the laws of a table read as a map.
use Prim.Native.Nat.{◌≤◌}
use mathlib.Core.Path.{◌≡◌, refl}
use mathlib.Core.Bool.{Bool, true, false}
use mathlib.Core.List.{List, [], ◌∷◌, ◌++◌}
use mathlib.Core.Option.{Option, none, some}
use native.Mathlib.Omega.{arith}
use risk_opportunity_manager.Prelude.Tests.{if◌then◌else◌}
use risk_opportunity_manager.Prelude.Lists.{find, find_passes, select, delete, update, count}

-- a or else b
abbrev pub or_else {ℓ} : {A : Type ℓ} → Option A → Option A → Option A
or_else none b = b
or_else (some a) b = some a

module _ {ℓ} {A : Type ℓ} where
  pub find-append :
      (p : A → Bool) (xs ys : List A) → find p (xs ++ ys) ≡ or_else (find p xs) (find p ys)
  unfolding find
  find-append p [] ys = refl
  find-append p (x ∷ xs) ys = ground (arith, find-append p xs ys)

  pub find-ext : (p q : A → Bool) (same : (x : A) → p x ≡ q x) (xs : List A) → find p xs ≡ find q xs
  unfolding find
  find-ext p q same [] = refl
  find-ext p q same (x ∷ xs) = ground (arith, same x, find-ext p q same xs)

  pub find-delete_covered :
      (p q : A → Bool) (covers : (x : A) → p x ≡ true → q x ≡ true) (xs : List A)
      → find p (delete q xs) ≡ none
  unfolding find delete
  find-delete_covered p q covers [] = refl
  find-delete_covered p q covers (x ∷ xs) =
      ground (arith, covers x, find-delete_covered p q covers xs)

  pub find-delete_apart :
      (p q : A → Bool) (apart : (x : A) → p x ≡ true → q x ≡ false) (xs : List A)
      → find p (delete q xs) ≡ find p xs
  unfolding find delete
  find-delete_apart p q apart [] = refl
  find-delete_apart p q apart (x ∷ xs) = ground (arith, apart x, find-delete_apart p q apart xs)

  -- what an UPDATE makes of the row that was found
  abbrev pub updated : (A → Bool) → (A → A) → Option A → Option A
  updated q f none = none
  updated q f (some a) = some (if q a then f a else a)

  pub find-update :
      (p q : A → Bool) (f : A → A) (same : (x : A) → p (f x) ≡ p x) (xs : List A)
      → find p (update q f xs) ≡ updated q f (find p xs)
  unfolding find update
  find-update p q f same [] = refl
  find-update p q f same (x ∷ xs) = ground (arith, same x, find-update p q f same xs)

  pub find_counted :
      (p q : A → Bool) (a : A) (xs : List A) → find p xs ≡ some a → q a ≡ true → 1 ≤ count q xs
  unfolding find count
  find_counted p q a [] h k = cc
  find_counted p q a (x ∷ xs) h k = ground (arith, find_counted p q a xs)

  -- Two rows that different searches find are two.
  pub find_two :
      (p p' q : A → Bool) (a b : A) (xs : List A)
      → find p xs ≡ some a
      → find p' xs ≡ some b
      → p b ≡ false
      → q a ≡ true
      → q b ≡ true
      → 2 ≤ count q xs
  unfolding find count
  find_two p p' q a b [] h h' n k k' = cc
  find_two p p' q a b (x ∷ xs) h h' n k k' =
      ground (arith, find_two p p' q a b xs, find_counted p q a xs, find_counted p' q b xs)

  pub select_none : (p : A → Bool) (xs : List A) → count p xs ≡ 0 → select p xs ≡ []
  unfolding count select
  select_none p [] h = refl
  select_none p (x ∷ xs) h = ground (arith, select_none p xs)

  -- A search in the rows that a selection keeps for it.
  pub find-select :
      (p q : A → Bool) (covers : (x : A) → p x ≡ true → q x ≡ true) (xs : List A)
      → find p (select q xs) ≡ find p xs
  unfolding find select
  find-select p q covers [] = refl
  find-select p q covers (x ∷ xs) = ground (arith, covers x, find-select p q covers xs)

  pub find_in_select :
      (p q : A → Bool) (xs : List A) → find p xs ≡ none → find p (select q xs) ≡ none
  unfolding find select
  find_in_select p q [] h = refl
  find_in_select p q (x ∷ xs) h = ground (arith, find_in_select p q xs)

  -- The only row that passes the wider test is the one that the narrower test finds.
  pub find_only :
      (p q : A → Bool) (a : A) (covers : (x : A) → p x ≡ true → q x ≡ true) (xs : List A)
      → count q xs ≤ 1
      → find p xs ≡ some a
      → find q xs ≡ some a
  unfolding find count
  find_only p q a covers [] once h = cc
  find_only p q a covers (x ∷ xs) once h = ground (
    arith,
    covers x,
    find_only p q a covers xs,
    find_counted p q a xs,
    covers a,
    find_passes p a xs,
  )

  -- A row that overwrites rows that the test does not tell from it.
  pub find-overwrite :
      (p q : A → Bool) (a : A) (alike : (x : A) → q x ≡ true → p a ≡ p x) (xs : List A)
      → find p (update q (λ _. a) xs) ≡ updated q (λ _. a) (find p xs)
  unfolding find update
  find-overwrite p q a alike [] = refl
  find-overwrite p q a alike (x ∷ xs) = ground (arith, alike x, find-overwrite p q a alike xs)

  pub count-overwrite :
      (p q : A → Bool) (a : A) (alike : (x : A) → q x ≡ true → p a ≡ p x) (xs : List A)
      → count p (update q (λ _. a) xs) ≡ count p xs
  unfolding count update
  count-overwrite p q a alike [] = refl
  count-overwrite p q a alike (x ∷ xs) = ground (arith, alike x, count-overwrite p q a alike xs)
