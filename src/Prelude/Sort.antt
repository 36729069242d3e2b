-- ===== src/Prelude/Sort.antt =====
-- ORDER BY a number: a stable insertion sort, which gives a sorted permutation.
use Prim.Native.Nat.{ℕ, ◌≤◌}
use mathlib.Core.List.{List, [], ◌∷◌, Perm}
use mathlib.Core.List.Perm
use mathlib.Core.Logic.{inl, inr}
use native.Mathlib.Omega.{arith}
use risk_opportunity_manager.Prelude.Tests.{leb, if◌then◌else◌, Bool-cases}
use risk_opportunity_manager.Prelude.Lists.{All}

module _ {A : Type 0} (key : A → ℕ) where
  unfoldable pub insert_by : A → List A → List A
  insert_by r [] = r ∷ []
  insert_by r (x ∷ xs) =
      let later = insert_by r xs in if leb (key r) (key x) then r ∷ x ∷ xs else x ∷ later

  -- rows of one key stay in their order
  unfoldable pub order_by : List A → List A
  unfolding insert_by
  order_by [] = []
  order_by (x ∷ xs) = insert_by x (order_by xs)

  abbrev pub IsOrdered : List A → Type 0
  IsOrdered [] = Unit
  IsOrdered (x ∷ xs) = All (λ y. key x ≤ key y) xs × IsOrdered xs

  pub insert_by-perm : (r : A) (xs : List A) → Perm (insert_by r xs) (r ∷ xs)
  unfolding insert_by
  insert_by-perm r [] = Perm.refl _
  insert_by-perm r (x ∷ xs) = elim (Bool-cases (leb (key r) (key x))) [
    | inl first ↦ rw first (Perm.refl _)
    | inr later ↦ rw later (Perm.trans (Perm.cons x (insert_by-perm r xs)) (Perm.swap r x xs))
  ]

  pub order_by-perm : (xs : List A) → Perm (order_by xs) xs
  unfolding order_by
  order_by-perm [] = Perm.refl []
  order_by-perm (x ∷ xs) =
      Perm.trans (insert_by-perm x (order_by xs)) (Perm.cons x (order_by-perm xs))

  All-insert_by :
      (t : ℕ) (r : A) (xs : List A)
      → t ≤ key r
      → All (λ y. t ≤ key y) xs
      → All (λ y. t ≤ key y) (insert_by r xs)
  unfolding insert_by
  All-insert_by t r [] h a = (h, tt)
  All-insert_by t r (x ∷ xs) h a = ground (arith, All-insert_by t r xs h a.1)

  pub All-weaken :
      (s t : ℕ) (xs : List A) → s ≤ t → All (λ y. t ≤ key y) xs → All (λ y. s ≤ key y) xs
  All-weaken s t [] h a = tt
  All-weaken s t (x ∷ xs) h a = (omega arith, All-weaken s t xs h a.1)

  insert_by-IsOrdered : (r : A) (xs : List A) → IsOrdered xs → IsOrdered (insert_by r xs)
  unfolding insert_by
  insert_by-IsOrdered r [] h = (tt, tt)
  insert_by-IsOrdered r (x ∷ xs) h = elim (Bool-cases (leb (key r) (key x))) [
    | inl first ↦ rw first ((ground arith, All-weaken (key r) (key x) xs (ground arith) h.0), h)
    | inr later ↦
        rw later (All-insert_by (key x) r xs (ground arith) h.0, insert_by-IsOrdered r xs h.1)
  ]

  pub order_by-IsOrdered : (xs : List A) → IsOrdered (order_by xs)
  unfolding order_by
  order_by-IsOrdered [] = tt
  order_by-IsOrdered (x ∷ xs) = insert_by-IsOrdered x (order_by xs) (order_by-IsOrdered xs)
