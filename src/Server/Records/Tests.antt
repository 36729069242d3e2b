-- ===== src/Server/Records/Tests.antt =====
-- Item codes of a small project.
use risk_opportunity_manager.Prelude.{
  ◌≡◌, ◌⊎◌, Any, ◌==◌, none, refl, true, false, List, [], ◌∷◌, String,
}
use Prim.Native.Char.{code}
use risk_opportunity_manager.Text.{codes, strip_text}
use risk_opportunity_manager.Protocol.{risk}
use risk_opportunity_manager.Server.Records.Codes.{
  show_padded, Digits, numbered, unreadable_code, code_number, has_code, no_code, code_text,
  canonical_item_code,
}
use risk_opportunity_manager.Server.Records.Codes.Free.{
  code_number-show_padded, IsUnreadable, canonical_item_code_free,
}

abbrev taken : List String
taken = "R-001" ∷ "r-002" ∷ "O-003" ∷ "R-x" ∷ []

-- a superscript two is a digit that int() does not read
abbrev python : Digits
python = record { is_other_digit = λ c. c == 178; other_digit = λ c. none }

third : canonical_item_code python taken risk " R-001" ≡ code_text "R-003"
unfolding canonical_item_code
third = refl

superscript : canonical_item_code python ("R-²" ∷ "R-001" ∷ []) risk "R-001" ≡ unreadable_code
unfolding canonical_item_code
superscript = refl

code_number-show_padded_example :
    code_number python (code "R") (codes (String.◌∷◌ "R" (String.◌∷◌ "-" (show_padded 42))))
    ≡ numbered 42
code_number-show_padded_example = code_number-show_padded python "R" 42 refl

canonical_item_code_free_example :
    ((strip_text " R-001" ≡ "") × (canonical_item_code python taken risk " R-001" ≡ no_code))
    ⊎ ((c : String) × (canonical_item_code python taken risk " R-001" ≡ code_text c)
        × (has_code c taken ≡ false)
        × ((has_code (strip_text " R-001") taken ≡ true) ⊎ (c ≡ strip_text " R-001")))
    ⊎ ((canonical_item_code python taken risk " R-001" ≡ unreadable_code)
        × (has_code (strip_text " R-001") taken ≡ true)
        × Any (λ s. IsUnreadable python (code "R") (codes s)) taken)
canonical_item_code_free_example = canonical_item_code_free python taken risk " R-001"
