-- ===== src/Server/Records/Codes/Shown.antt =====
-- Numbers as _canonical_item_code in sync/mutations.py writes them, and reads them back.
use Prim.Native.Char.{code}
use risk_opportunity_manager.Prelude.{
  ℕ, zero, suc, ◌+◌, ◌*◌, ◌/◌, ◌%◌, ◌<◌, ◌≡◌, refl, ap, ◌∙◌, true, ◌&&◌, some, List, ◌∷◌, ltb, leb,
  String, arith, inl, inr, Bool-cases,
}
use risk_opportunity_manager.Text.{codes}
use risk_opportunity_manager.Server.Records.Codes.{
  digit, show, show_padded, Digits, is_digit, all_digits, digit_value, number_from, is_nonempty,
  is_number,
}

code-digit : (d : ℕ) → d < 10 → code (digit d) ≡ 48 + d
code-digit zero h = refl
code-digit (suc zero) h = refl
code-digit (suc (suc zero)) h = refl
code-digit (suc (suc (suc zero))) h = refl
code-digit (suc (suc (suc (suc zero)))) h = refl
code-digit (suc (suc (suc (suc (suc zero))))) h = refl
code-digit (suc (suc (suc (suc (suc (suc zero)))))) h = refl
code-digit (suc (suc (suc (suc (suc (suc (suc zero))))))) h = refl
code-digit (suc (suc (suc (suc (suc (suc (suc (suc zero)))))))) h = refl
code-digit (suc (suc (suc (suc (suc (suc (suc (suc (suc d))))))))) h = omega (arith, h)

module _ (py : Digits) where
  digit-is_digit : (d : ℕ) → d < 10 → is_digit py (code (digit d)) ≡ true
  digit-is_digit d h = rw (code-digit d h) (ground arith)

  digit_value-digit : (d : ℕ) → d < 10 → digit_value py (code (digit d)) ≡ some d
  digit_value-digit d h =
      let ascii : (leb 48 (48 + d) && leb (48 + d) 57) ≡ true = ground (arith, h) in
      rw (code-digit d h, ascii) (ap some (omega arith))

  number_step :
      (n d : ℕ) (cs : List ℕ)
      → d < 10
      → number_from py n (code (digit d) ∷ cs) ≡ number_from py (n * 10 + d) cs
  unfolding number_from
  number_step n d cs h = rw (number_from, digit_value-digit d h) refl

  show-number :
      (f n : ℕ) (tail : String)
      → n < f
      → number_from py 0 (codes (show f n tail)) ≡ number_from py n (codes tail)
  unfolding show
  show-number zero n tail h = elim h [ ]
  show-number (suc f) n tail h = elim (Bool-cases (ltb n 10)) [
    | inl small ↦ rw small (
        number_step 0 n (codes tail) (ground arith)
        ∙ ap (λ k. number_from py k (codes tail)) (omega arith))
    | inr large ↦ rw large (
        show-number f (n / 10) (String.◌∷◌ (digit (n % 10)) tail) (ground arith)
        ∙ number_step (n / 10) (n % 10) (codes tail) (omega arith)
        ∙ ap (λ k. number_from py k (codes tail)) (omega arith))
  ]

  show-all_digits :
      (f n : ℕ) (tail : String)
      → n < f
      → all_digits py (codes (show f n tail)) ≡ all_digits py (codes tail)
  unfolding show all_digits
  show-all_digits zero n tail h = elim h [ ]
  show-all_digits (suc f) n tail h = elim (Bool-cases (ltb n 10)) [
    | inl small ↦ rw (small, digit-is_digit n (ground arith)) refl
    | inr large ↦ rw large (
        show-all_digits f (n / 10) (String.◌∷◌ (digit (n % 10)) tail) (ground arith)
        ∙ ap (λ b. b && all_digits py (codes tail)) (digit-is_digit (n % 10) (omega arith)))
  ]

show-is_nonempty : (f n : ℕ) (tail : String) → n < f → is_nonempty (codes (show f n tail)) ≡ true
unfolding show
show-is_nonempty zero n tail h = elim h [ ]
show-is_nonempty (suc f) n tail h = elim (Bool-cases (ltb n 10)) [
  | inl small ↦ rw small refl
  | inr large ↦
      rw large (show-is_nonempty f (n / 10) (String.◌∷◌ (digit (n % 10)) tail) (ground arith))
]

pub show_padded-number : (py : Digits) (n : ℕ) → number_from py 0 (codes (show_padded n)) ≡ some n
unfolding show_padded number_from
show_padded-number py n = elim (Bool-cases (ltb n 10)) [
  | inl small ↦ rw small (show-number py (n + 1) n "" (omega arith))
  | inr large ↦ elim (Bool-cases (ltb n 100)) [
    | inl two ↦ rw (large, two) (show-number py (n + 1) n "" (omega arith))
    | inr more ↦ rw (large, more) (show-number py (n + 1) n "" (omega arith))
  ]
]

pub show_padded-is_number : (py : Digits) (n : ℕ) → is_number py (codes (show_padded n)) ≡ true
unfolding show_padded all_digits
show_padded-is_number py n = elim (Bool-cases (ltb n 10)) [
  | inl small ↦ rw small (show-all_digits py (n + 1) n "" (omega arith))
  | inr large ↦ elim (Bool-cases (ltb n 100)) [
    | inl two ↦ rw (large, two) (show-all_digits py (n + 1) n "" (omega arith))
    | inr more ↦
        rw (large, more, show-is_nonempty (n + 1) n "" (omega arith))
          (show-all_digits py (n + 1) n "" (omega arith))
  ]
]
