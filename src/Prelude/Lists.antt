-- ===== src/Prelude/Lists.antt =====
-- Lists read as tables: selection, deletion and update by a Boolean test, and counting.
use Prim.Native.Nat.{ℕ, zero, suc, ◌+◌, ◌≤◌}
use mathlib.Core.Path.{◌≡◌, refl, ap}
use mathlib.Core.Bool.{Bool, true, false, ◌&&◌}
use mathlib.Core.List.{List, [], ◌∷◌, ◌++◌}
use mathlib.Core.Option.{Option, none, some}
use native.Mathlib.Omega.{arith}
use mathlib.Core.Logic.{◌⊎◌, inl, inr}
use risk_opportunity_manager.Prelude.Tests.{if◌then◌else◌, Bool-cases}

-- Every element has the property.
abbrev pub All {ℓ κ} : {A : Type ℓ} → (A → Type κ) → List A → Type κ
All P [] = Unit
All P (x ∷ xs) = P x × All P xs

-- Some element has the property.
abbrev pub Any {ℓ} : {A : Type ℓ} → (A → Type 0) → List A → Type 0
Any P [] = ⊥
Any P (x ∷ xs) = P x ⊎ Any P xs

module _ {ℓ} {A : Type ℓ} where
  abbrev pub length : List A → ℕ
  length [] = 0
  length (x ∷ xs) = suc (length xs)

  abbrev pub take : ℕ → List A → List A
  take zero xs = []
  take (suc n) [] = []
  take (suc n) (x ∷ xs) = x ∷ take n xs

  -- SELECT … WHERE p
  unfoldable pub select : (A → Bool) → List A → List A
  select p [] = []
  select p (x ∷ xs) = let rest = select p xs in if p x then x ∷ rest else rest

  -- DELETE … WHERE p
  unfoldable pub delete : (A → Bool) → List A → List A
  delete p [] = []
  delete p (x ∷ xs) = let rest = delete p xs in if p x then rest else x ∷ rest

  -- UPDATE … SET f WHERE p
  unfoldable pub update : (A → Bool) → (A → A) → List A → List A
  update p f [] = []
  update p f (x ∷ xs) = (if p x then f x else x) ∷ update p f xs

  -- SELECT COUNT(*) … WHERE p
  unfoldable pub count : (A → Bool) → List A → ℕ
  count p [] = 0
  count p (x ∷ xs) = (if p x then 1 else 0) + count p xs

  -- the first row that passes, by rowid
  unfoldable pub find : (A → Bool) → List A → Option A
  find p [] = none
  find p (x ∷ xs) = let rest = find p xs in if p x then some x else rest

  pub length-append : (xs ys : List A) → length (xs ++ ys) ≡ length xs + length ys
  length-append [] ys = omega arith
  length-append (x ∷ xs) ys = omega (arith, length-append xs ys)

  pub count-append : (p : A → Bool) (xs ys : List A) → count p (xs ++ ys) ≡ count p xs + count p ys
  unfolding count
  count-append p [] ys = omega arith
  count-append p (x ∷ xs) ys = omega (arith, count-append p xs ys)

  pub count-delete-le : (p q : A → Bool) (xs : List A) → count p (delete q xs) ≤ count p xs
  unfolding count delete
  count-delete-le p q [] = omega arith
  count-delete-le p q (x ∷ xs) = ground (arith, count-delete-le p q xs)

  pub count-delete_self : (p : A → Bool) (xs : List A) → count p (delete p xs) ≡ 0
  unfolding count delete
  count-delete_self p [] = refl
  count-delete_self p (x ∷ xs) = ground (arith, count-delete_self p xs)

  pub count-delete_add :
      (p q : A → Bool) (xs : List A) → count p (delete q xs) + count p (select q xs) ≡ count p xs
  unfolding count delete select
  count-delete_add p q [] = omega arith
  count-delete_add p q (x ∷ xs) = ground (arith, count-delete_add p q xs)

  -- An update that the test does not see.
  pub count-update :
      (p q : A → Bool) (f : A → A) (same : (x : A) → p (f x) ≡ p x) (xs : List A)
      → count p (update q f xs) ≡ count p xs
  unfolding count update
  count-update p q f same [] = refl
  count-update p q f same (x ∷ xs) = ground (arith, same x, count-update p q f same xs)

  pub length-update : (q : A → Bool) (f : A → A) (xs : List A) → length (update q f xs) ≡ length xs
  unfolding update
  length-update q f [] = refl
  length-update q f (x ∷ xs) = omega (arith, length-update q f xs)

  pub length-take-le : (n : ℕ) (xs : List A) → length (take n xs) ≤ n
  length-take-le zero xs = omega arith
  length-take-le (suc n) [] = omega arith
  length-take-le (suc n) (x ∷ xs) = omega (arith, length-take-le n xs)

  pub All-select : (p : A → Bool) (xs : List A) → All (λ x. p x ≡ true) (select p xs)
  unfolding select
  All-select p [] = tt
  All-select p (x ∷ xs) = ground (arith, All-select p xs)

  pub count-delete_zero :
      (p q : A → Bool) (covers : (x : A) → p x ≡ true → q x ≡ true) (xs : List A)
      → count p (delete q xs) ≡ 0
  unfolding count delete
  count-delete_zero p q covers [] = refl
  count-delete_zero p q covers (x ∷ xs) = ground (arith, covers x, count-delete_zero p q covers xs)

  -- Deleting what the test does not see.
  pub count-delete_same :
      (p q : A → Bool) (apart : (x : A) → p x ≡ true → q x ≡ false) (xs : List A)
      → count p (delete q xs) ≡ count p xs
  unfolding count delete
  count-delete_same p q apart [] = refl
  count-delete_same p q apart (x ∷ xs) = ground (arith, apart x, count-delete_same p q apart xs)

  pub find_passes : (p : A → Bool) (a : A) (xs : List A) → find p xs ≡ some a → p a ≡ true
  unfolding find
  find_passes p a [] h = cc
  find_passes p a (x ∷ xs) h = ground (arith, find_passes p a xs)

  pub find-none : (p : A → Bool) (xs : List A) → find p xs ≡ none → count p xs ≡ 0
  unfolding find count
  find-none p [] h = refl
  find-none p (x ∷ xs) h = ground (arith, find-none p xs)

  pub count-snoc :
      (p : A → Bool) (xs : List A) (y : A)
      → count p (xs ++ y ∷ []) ≡ count p xs + (if p y then 1 else 0)
  unfolding count
  count-snoc p [] y = omega arith
  count-snoc p (x ∷ xs) y = omega (arith, count-snoc p xs y)

  -- A row that replaces all that could be like it.
  pub count-replace :
      (p q : A → Bool) (y : A) (xs : List A)
      → (p y ≡ true → (x : A) → p x ≡ true → q x ≡ true)
      → count p xs ≤ 1
      → count p (delete q xs ++ y ∷ []) ≤ 1
  count-replace p q y xs covers h = elim (Bool-cases (p y)) [
    | inl new ↦ rw (count-snoc, new) (omega (arith, count-delete_zero p q (covers new) xs))
    | inr other ↦ rw (count-snoc, other) (omega (arith, count-delete-le p q xs))
  ]

  pub count-ext :
      (p q : A → Bool) (same : (x : A) → p x ≡ q x) (xs : List A) → count p xs ≡ count q xs
  unfolding count
  count-ext p q same [] = refl
  count-ext p q same (x ∷ xs) = ground (arith, same x, count-ext p q same xs)

  abbrev pub drop : ℕ → List A → List A
  drop zero xs = xs
  drop (suc n) [] = []
  drop (suc n) (x ∷ xs) = drop n xs

  pub take-append-drop : (n : ℕ) (xs : List A) → take n xs ++ drop n xs ≡ xs
  take-append-drop zero xs = refl
  take-append-drop (suc n) [] = refl
  take-append-drop (suc n) (x ∷ xs) = ap (λ ys. x ∷ ys) (take-append-drop n xs)

  -- A prefix is everything or has the length that was asked for.
  pub length-take-full : (n : ℕ) (xs : List A) → (drop n xs ≡ []) ⊎ (length (take n xs) ≡ n)
  length-take-full zero xs = inr refl
  length-take-full (suc n) [] = inl refl
  length-take-full (suc n) (x ∷ xs) = elim (length-take-full n xs) [
    | inl all ↦ inl all
    | inr full ↦ inr (ap suc full)
  ]

  -- After an update that makes the test fail, on all rows that could pass it, none passes.
  pub count-update_none :
      (p q : A → Bool) (f : A → A) (fails : (x : A) → p (f x) ≡ false)
      (covers : (x : A) → q x ≡ false → p x ≡ false) (xs : List A)
      → count p (update q f xs) ≡ 0
  unfolding count update
  count-update_none p q f fails covers [] = refl
  count-update_none p q f fails covers (x ∷ xs) =
      ground (arith, fails x, covers x, count-update_none p q f fails covers xs)

  -- The same, where only the rows that are updated fail it afterwards.
  pub count-update_leaves :
      (p q : A → Bool) (f : A → A) (fails : (x : A) → q x ≡ true → p (f x) ≡ false)
      (covers : (x : A) → q x ≡ false → p x ≡ false) (xs : List A)
      → count p (update q f xs) ≡ 0
  unfolding count update
  count-update_leaves p q f fails covers [] = refl
  count-update_leaves p q f fails covers (x ∷ xs) =
      ground (arith, fails x, covers x, count-update_leaves p q f fails covers xs)

  -- Rows that an update moves out of a test are those that it changed.
  pub count-update_moved :
      (p q : A → Bool) (f : A → A) (moved : (x : A) → q x ≡ true → p (f x) ≡ false) (xs : List A)
      → count p (update q f xs) + count (λ x. q x && p x) xs ≡ count p xs
  unfolding count update
  count-update_moved p q f moved [] = refl
  count-update_moved p q f moved (x ∷ xs) =
      ground (arith, moved x, count-update_moved p q f moved xs)

  pub count-update_gained :
      (p q : A → Bool) (f : A → A) (gained : (x : A) → q x ≡ true → p (f x) ≡ true)
      (before : (x : A) → q x ≡ true → p x ≡ false) (xs : List A)
      → count p (update q f xs) ≡ count p xs + count q xs
  unfolding count update
  count-update_gained p q f gained before [] = refl
  count-update_gained p q f gained before (x ∷ xs) =
      ground (arith, gained x, before x, count-update_gained p q f gained before xs)

  pub count_never : (p : A → Bool) (never : (x : A) → p x ≡ false) (xs : List A) → count p xs ≡ 0
  unfolding count
  count_never p never [] = refl
  count_never p never (x ∷ xs) = ground (arith, never x, count_never p never xs)

  -- An update that a later one overwrites.
  pub update-update :
      (p q : A → Bool) (a : A) (f : A → A) (covers : (x : A) → q x ≡ true → p x ≡ true)
      (same : (x : A) → p (f x) ≡ p x) (xs : List A)
      → update p (λ _. a) (update q f xs) ≡ update p (λ _. a) xs
  unfolding update
  update-update p q a f covers same [] = refl
  update-update p q a f covers same (x ∷ xs) =
      ground (arith, covers x, same x, update-update p q a f covers same xs)
