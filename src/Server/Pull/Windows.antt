-- ===== src/Server/Pull/Windows.antt =====
-- The rows of sync/pull.py that follow a cursor, on a feed in the order of its sequence numbers.
use risk_opportunity_manager.Prelude.{
  ℕ, zero, suc, ◌≤◌, ◌<◌, ◌≡◌, refl, ap, ◌⊎◌, inl, inr, List, [], ◌∷◌, ◌++◌, arith, All, select,
  take,
}
use risk_opportunity_manager.Server.Pull.{window, last_sequence}

ltb_cases : (a b : ℕ) → (a < b) ⊎ (b ≤ a)
ltb_cases a b = omega arith

module _ {A : Type 0} (sequence : A → ℕ) where
  -- Every row has a sequence number of its own, and the rows stand in their order.
  abbrev pub IsStrict : List A → Type 0
  IsStrict [] = Unit
  IsStrict (x ∷ xs) = All (λ y. sequence x < sequence y) xs × IsStrict xs

  pub last-ge :
      (b s : ℕ) (xs : List A)
      → b ≤ s
      → All (λ y. b < sequence y) xs
      → b ≤ last_sequence sequence s xs
  unfolding last_sequence
  last-ge b s [] le h = le
  last-ge b s (x ∷ xs) le h = last-ge b (sequence x) xs (omega (arith, h.0)) h.1

  pub last-le :
      (b s : ℕ) (xs : List A)
      → s ≤ b
      → All (λ y. sequence y ≤ b) xs
      → last_sequence sequence s xs ≤ b
  unfolding last_sequence
  last-le b s [] le h = le
  last-le b s (x ∷ xs) le h = last-le b (sequence x) xs h.0 h.1

  window_keep :
      (s n : ℕ) (x : A) (xs : List A)
      → s < sequence x
      → sequence x ≤ n
      → window sequence s n (x ∷ xs) ≡ x ∷ window sequence s n xs
  unfolding window select
  window_keep s n x xs lt le = ground arith

  window_old :
      (s n : ℕ) (x : A) (xs : List A)
      → sequence x ≤ s
      → window sequence s n (x ∷ xs) ≡ window sequence s n xs
  unfolding window select
  window_old s n x xs le = ground arith

  window_new :
      (s n : ℕ) (x : A) (xs : List A)
      → n < sequence x
      → window sequence s n (x ∷ xs) ≡ window sequence s n xs
  unfolding window select
  window_new s n x xs le = ground arith

  pub window-All-after :
      (s n : ℕ) (xs : List A) → All (λ y. s < sequence y) (window sequence s n xs)
  unfolding window select
  window-All-after s n [] = tt
  window-All-after s n (x ∷ xs) = ground (arith, window-All-after s n xs)

  pub window-All-upto : (s n : ℕ) (xs : List A) → All (λ y. sequence y ≤ n) (window sequence s n xs)
  unfolding window select
  window-All-upto s n [] = tt
  window-All-upto s n (x ∷ xs) = ground (arith, window-All-upto s n xs)

  pub All-take : (P : A → Type 0) (k : ℕ) (xs : List A) → All P xs → All P (take k xs)
  All-take P zero xs h = tt
  All-take P (suc k) [] h = tt
  All-take P (suc k) (x ∷ xs) h = (h.0, All-take P k xs h.1)

  -- past rows that all come later, the start of a window can move up
  window_raise :
      (s t n : ℕ) (xs : List A)
      → s ≤ t
      → All (λ y. t < sequence y) xs
      → window sequence s n xs ≡ window sequence t n xs
  unfolding window select
  window_raise s t n [] le h = refl
  window_raise s t n (x ∷ xs) le h = ground (arith, window_raise s t n xs le h.1)

  All-weaken :
      (b c : ℕ) (xs : List A) → c ≤ b → All (λ y. b < sequence y) xs → All (λ y. c < sequence y) xs
  All-weaken b c [] le h = tt
  All-weaken b c (x ∷ xs) le h = (omega (arith, h.0), All-weaken b c xs le h.1)

  window_beyond :
      (s n : ℕ) (xs : List A) → All (λ y. n < sequence y) xs → window sequence s n xs ≡ []
  unfolding window select
  window_beyond s n [] h = refl
  window_beyond s n (x ∷ xs) h = ground (arith, window_beyond s n xs h.1)

  pub taken_last-ge :
      (s n k : ℕ) (xs : List A) → s ≤ last_sequence sequence s (take k (window sequence s n xs))
  taken_last-ge s n k xs =
      last-ge s s (take k (window sequence s n xs)) (omega arith)
        (All-take (λ y. s < sequence y) k (window sequence s n xs) (window-All-after s n xs))

  -- a page and what its cursor leaves are the whole window
  abbrev pub Splits : ℕ → ℕ → ℕ → List A → Type 0
  Splits s n k xs =
      take k (window sequence s n xs)
        ++ window sequence (last_sequence sequence s (take k (window sequence s n xs))) n xs
      ≡ window sequence s n xs

  split_skip :
      (s n k : ℕ) (x : A) (xs : List A)
      (skipped : (c : ℕ) → s ≤ c → window sequence c n (x ∷ xs) ≡ window sequence c n xs)
      → Splits s n k xs
      → Splits s n k (x ∷ xs)
  split_skip s n k x xs skipped h =
      rw
        (
          skipped s (omega arith),
          skipped (last_sequence sequence s (take k (window sequence s n xs)))
              (taken_last-ge s n k xs),
        )
        h

  split_keep :
      (s n k : ℕ) (x : A) (xs : List A)
      → s < sequence x
      → sequence x ≤ n
      → IsStrict (x ∷ xs)
      → Splits (sequence x) n k xs
      → Splits s n (suc k) (x ∷ xs)
  unfolding last_sequence
  split_keep s n k x xs lt le o h =
      rw
        (
          window_keep s n x xs lt le,
          window_raise s (sequence x) n xs (omega arith) o.0,
          window_old
              (last_sequence sequence (sequence x) (take k (window sequence (sequence x) n xs))) n x
              xs (taken_last-ge (sequence x) n k xs),
        )
        (ap (λ r. x ∷ r) h)

  pub window_split : (s n k : ℕ) (xs : List A) → IsStrict xs → Splits s n k xs
  unfolding last_sequence window select
  window_split s n zero xs o = refl
  window_split s n (suc k) [] o = refl
  window_split s n (suc k) (x ∷ xs) o = elim (ltb_cases s (sequence x)) [
    | inr old ↦
        split_skip s n (suc k) x xs (λ c le. window_old c n x xs (omega arith))
          (window_split s n (suc k) xs o.1)
    | inl lt ↦ elim (ltb_cases n (sequence x)) [
      | inl new ↦
          split_skip s n (suc k) x xs (λ c le. window_new c n x xs (omega arith))
            (window_split s n (suc k) xs o.1)
      | inr le ↦ split_keep s n k x xs lt le o (window_split (sequence x) n k xs o.1)
    ]
  ]
