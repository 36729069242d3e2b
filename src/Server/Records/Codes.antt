-- ===== src/Server/Records/Codes.antt =====
-- Item codes such as R-001: _canonical_item_code in sync/mutations.py, on the codes of the project's
-- items. Letters are the ASCII ones, LIKE ignores case, as SQLite does, and what str.isdigit and int()
-- say of the digits outside ASCII is a parameter.
pub mod Shown
pub mod Free
use Prim.Native.Char.{Char, code}
use package.text.Mathlib.Text.{◌==◌ as str_eq}
use risk_opportunity_manager.Prelude.{
  ℕ, zero, suc, ◌+◌, ◌-◌, ◌*◌, ◌/◌, ◌%◌, Bool, true, false, ◌&&◌, ◌||◌, Option, none, some, List,
  [], ◌∷◌, length, if◌then◌else◌, ◌==◌, ltb, leb, String,
}
use risk_opportunity_manager.Protocol.{Entity, risk}
use risk_opportunity_manager.Text.{codes, strip_text}

abbrev pub digit : ℕ → Char
digit zero = "0"
digit (suc zero) = "1"
digit (suc (suc zero)) = "2"
digit (suc (suc (suc zero))) = "3"
digit (suc (suc (suc (suc zero)))) = "4"
digit (suc (suc (suc (suc (suc zero))))) = "5"
digit (suc (suc (suc (suc (suc (suc zero)))))) = "6"
digit (suc (suc (suc (suc (suc (suc (suc zero))))))) = "7"
digit (suc (suc (suc (suc (suc (suc (suc (suc zero)))))))) = "8"
digit (suc (suc (suc (suc (suc (suc (suc (suc (suc d))))))))) = "9"

-- str(n) before `tail`; the fuel bounds the number of digits
unfoldable pub show : ℕ → ℕ → String → String
show zero n tail = tail
show (suc f) n tail =
    let rest = show f (n / 10) (String.◌∷◌ (digit (n % 10)) tail) in
    if ltb n 10 then String.◌∷◌ (digit n) tail else rest

-- f"{n:03d}"
unfoldable pub show_padded : ℕ → String
unfolding show
show_padded n =
    let shown = show (n + 1) n "" in
    if ltb n 10
    then String.◌∷◌ "0" (String.◌∷◌ "0" shown)
    else if ltb n 100
    then String.◌∷◌ "0" shown
    else shown

-- What Python knows of the digits outside ASCII: those that str.isdigit takes, and the values of
-- those that int() reads. A superscript two is one that isdigit takes and int() does not read.
pub record Digits : Type 0 where
  pub is_other_digit : ℕ → Bool
  pub other_digit : ℕ → Option ℕ

abbrev pub is_nonempty : List ℕ → Bool
is_nonempty [] = false
is_nonempty (c ∷ cs) = true

abbrev pub upper : ℕ → ℕ
upper c = if leb 97 c && leb c 122 then c - 32 else c

-- The number of a code: it has none, it has one, or int() raises a ValueError.
pub data CodeNumber : Type 0 where
  not_numbered : CodeNumber
  numbered : ℕ → CodeNumber
  value_error : CodeNumber

abbrev pub of_int : Option ℕ → CodeNumber
of_int none = value_error
of_int (some n) = numbered n

abbrev pub collect : CodeNumber → Option (List ℕ) → Option (List ℕ)
collect not_numbered used = used
collect value_error used = none
collect (numbered n) none = none
collect (numbered n) (some used) = some (n ∷ used)

module _ (py : Digits) where
  abbrev pub is_digit : ℕ → Bool
  is_digit c = (leb 48 c && leb c 57) || (leb 128 c && py.is_other_digit c)

  unfoldable pub all_digits : List ℕ → Bool
  all_digits [] = true
  all_digits (c ∷ cs) = is_digit c && all_digits cs

  -- suffix.isdigit()
  abbrev pub is_number : List ℕ → Bool
  is_number cs = is_nonempty cs && all_digits cs

  abbrev pub digit_value : ℕ → Option ℕ
  digit_value c =
      if leb 48 c && leb c 57 then some (c - 48) else if leb 128 c then py.other_digit c else none

  -- int(text) after what was read so far; `none` is the ValueError
  unfoldable pub number_from : ℕ → List ℕ → Option ℕ
  number_from n [] = some n
  number_from n (c ∷ cs) = elim (digit_value c) [
    | none ↦ none
    | some d ↦ number_from (n * 10 + d) cs
  ]

  -- the number of a code of a prefix: partition("-"), head.upper(), isdigit, int
  unfoldable pub code_number : ℕ → List ℕ → CodeNumber
  unfolding all_digits number_from
  code_number prefix (c ∷ d ∷ suffix) =
      if upper c == prefix && d == 45 && is_number suffix
      then of_int (number_from 0 suffix)
      else not_numbered
  code_number prefix cs = not_numbered

  -- the numbers of the existing codes; `none` is the ValueError
  unfoldable pub used_numbers : ℕ → List String → Option (List ℕ)
  unfolding code_number
  used_numbers prefix [] = some []
  used_numbers prefix (s ∷ rest) = collect (code_number prefix (codes s)) (used_numbers prefix rest)

unfoldable pub is_used : ℕ → List ℕ → Bool
is_used n [] = false
is_used n (m ∷ used) = n == m || is_used n used

-- while number in used: number += 1; `none` is the fuel used up
unfoldable pub next_number : ℕ → ℕ → List ℕ → Option ℕ
unfolding is_used
next_number zero n used = none
next_number (suc f) n used = elim (is_used n used) [
  | true ↦ next_number f (n + 1) used
  | false ↦ some n
]

unfoldable pub has_code : String → List String → Bool
has_code s [] = false
has_code s (c ∷ rest) = str_eq c s || has_code s rest

-- None, a code, the ValueError, or the fuel used up
pub data Code : Type 0 where
  no_code : Code
  code_text : String → Code
  unreadable_code : Code
  unfinished : Code

abbrev pub prefix_of : Entity → Char
prefix_of risk = "R"
prefix_of _ = "O"

unfoldable pub allocated : Char → Option ℕ → Code
unfolding show_padded
allocated prefix none = unfinished
allocated prefix (some n) = code_text (String.◌∷◌ prefix (String.◌∷◌ "-" (show_padded n)))

abbrev pub next_code : Char → Option (List ℕ) → Code
next_code prefix none = unreadable_code
next_code prefix (some used) = allocated prefix (next_number (length used + 2) 1 used)

-- _canonical_item_code, given the codes of the project's items; `requested` is "" for None
unfoldable pub canonical_item_code : Digits → List String → Entity → String → Code
unfolding has_code used_numbers next_number allocated strip_text
canonical_item_code py existing e requested =
    let wanted = strip_text requested in
    if str_eq wanted ""
    then no_code
    else if has_code wanted existing
    then next_code (prefix_of e) (used_numbers py (code (prefix_of e)) existing)
    else code_text wanted
