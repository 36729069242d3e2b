-- ===== src/Client/Merge/Tests.antt =====
-- A conflict about a risk: the title and the status differ, and the local title is kept.
use risk_opportunity_manager.Prelude.{
  ◌≡◌, refl, pos, true, none, some, List, [], ◌∷◌, String, or_else, if◌then◌else◌,
}
use risk_opportunity_manager.Protocol.{risk, Op}
use risk_opportunity_manager.Json.{Fields, Value, get}
use risk_opportunity_manager.Text.{strip_text}
use risk_opportunity_manager.Client.Merge.{
  Checks, Conflict, Side, mine, from_server, mergeable_fields, selected_of, is_in,
}
use risk_opportunity_manager.Client.Merge.Record.{is_choice, all_valid, merged_record}
use risk_opportunity_manager.Client.Merge.Chosen.{chosen_mine, merged_record_chosen}

abbrev shown : Value → String
shown (Value.text s) = s
shown v = "None"

abbrev python_checks : Checks
python_checks = record {
  str = shown;
  is_uuid = λ s. true;
  is_datetime = λ s. true;
  max_of = λ values. none;
}

abbrev item : String → String → Fields
item title status =
    ("id", Value.text "5")
    ∷ ("title", Value.text title)
    ∷ ("status", Value.text status)
    ∷ ("probability", Value.int (pos 2))
    ∷ []

abbrev dispute : Conflict
dispute = record {
  op = Op.upsert;
  entity = some risk;
  entity_id = "5";
  local = some (item "Fire" "active");
  server = some (item "Flood" "concept");
  server_version = some (Value.int (pos 3));
}

two_differ : mergeable_fields python_checks dispute ≡ "title" ∷ "status" ∷ []
unfolding mergeable_fields
two_differ = refl

abbrev picks : List (String × Side)
picks = ("status", from_server) ∷ ("title", mine) ∷ []

abbrev merged : Fields
merged =
    ("id", Value.text "5")
    ∷ ("title", Value.text "Fire")
    ∷ ("status", Value.text "concept")
    ∷ ("probability", Value.int (pos 2))
    ∷ []

merged_run :
    merged_record python_checks dispute picks ≡ some (merged, ("title", Value.text "Fire") ∷ [])
unfolding merged_record strip_text
merged_run = refl

all_server_refused :
    merged_record python_checks dispute (("status", from_server) ∷ ("title", from_server) ∷ [])
    ≡ none
unfolding merged_record
all_server_refused = refl

merged_record_chosen_example :
    (is_choice (mergeable_fields python_checks dispute) picks ≡ true)
    × ((("title", Value.text "Fire") ∷ []) ≡ selected_of picks (item "Fire" "active"))
    × (all_valid python_checks risk (("title", Value.text "Fire") ∷ []) ≡ true)
    × (get "title" merged ≡ (
        if chosen_mine "title" picks
        then or_else (get "title" (item "Fire" "active")) (get "title" (item "Flood" "concept"))
        else get "title" (item "Flood" "concept")))
unfolding is_in
merged_record_chosen_example =
    merged_record_chosen python_checks dispute risk picks (item "Fire" "active")
      (item "Flood" "concept") merged (("title", Value.text "Fire") ∷ []) "title" refl refl refl
      merged_run refl refl
