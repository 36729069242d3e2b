-- ===== src/Client/Store/Tests.antt =====
-- A local copy with two risks: 5 has a queued edit that is a conflict, 6 has none; the server's
-- records swap their codes.
use package.text.Mathlib.TextEquality.{eq_iff}
use risk_opportunity_manager.Prelude.{
  ℕ, ◌≡◌, refl, sym, subst, inr, if◌then◌else◌, pos, negsuc, Bool, true, false, ◌==◌, Option, none,
  some, List, [], ◌∷◌, String, find, count, arith,
}
use package.text.Mathlib.Text.{◌==◌ as str_eq}
use risk_opportunity_manager.Protocol.{risk, Op, FailureKind}
use risk_opportunity_manager.Json.{Fields, Value, put}
use risk_opportunity_manager.Text.{strip_text}
use risk_opportunity_manager.Client.Outbox.{Status, Row, has_id}
use risk_opportunity_manager.Client.Store.{
  Python, Item, Items, with_server_copy, is_item, is_waiting,
}
use risk_opportunity_manager.Client.Store.Reading.{int_or, scored_record}
use risk_opportunity_manager.Client.Store.Pull.{Copies, apply_pull}
use risk_opportunity_manager.Client.Store.Acks.{
  check_ack_identity, apply_push_acknowledgement, advance_push_acknowledgement,
}
use risk_opportunity_manager.Client.Store.Waiting.{SameButCode, SameEdit, pull_spares_waiting}
use risk_opportunity_manager.Client.Store.Codes.{IsLocal}
use risk_opportunity_manager.Client.Store.Complete.{IsReadable, pull_scored_completes}
use risk_opportunity_manager.Client.Store.Confirmed.{
  IsAdvanced, advance_keeps_edit, acknowledgement_confirms,
}
use risk_opportunity_manager.Client.Store.Watermark.{
  Mark, set_sync_watermark, get_last_server_time, get_last_server_sequence, set_last_server_time,
  set_sync_watermark_lem,
}

-- ids are written in one one_digit, and their number is that one_digit
abbrev digits : String → ℕ
digits s = elim (str_eq s "5") [ true ↦ 5 | false ↦ elim (str_eq s "6") [ true ↦ 6 | false ↦ 7 ] ]

abbrev one_digit : ℕ → String
one_digit i = elim (i == 5) [ true ↦ "5" | false ↦ elim (i == 6) [ true ↦ "6" | false ↦ "7" ] ]

abbrev text_of : Value → String
text_of Value.null = "None"
text_of (Value.bool b) = "True"
text_of (Value.int n) = "1"
text_of (Value.text s) = s

abbrev cell : Value → Option String
cell (Value.text s) = some s
cell _ = none

abbrev python : Python
python = record {
  str = text_of;
  int_of = λ s. none;
  column_text = cell;
  number = digits;
  id_text = one_digit;
}

abbrev local : ℕ → Bool → String → Item
local i dirty code = record {
  entity = risk;
  id = i;
  project_id = 7;
  version = pos 1;
  dirty = dirty;
  code = some code;
  columns = [];
}

abbrev disputed : Row
disputed = record {
  change_id = 2;
  project_id = 7;
  entity = risk;
  op = Op.upsert;
  entity_id = 5;
  base_version = some (pos 1);
  fields = [];
  status = Status.blocked;
  last_error = "";
  failure_kind = some FailureKind.conflict;
  result = none;
  retry_count = 0;
  next_retry_at = none;
  last_attempt_at = some 30;
  created_at = 20;
}

abbrev copies : Copies
copies = record {
  items = local 5 true "R-001" ∷ local 6 false "R-002" ∷ [];
  outbox = disputed ∷ [];
}

abbrev server : String → String → Fields
server i code =
    ("id", Value.text i)
    ∷ ("code", Value.text code)
    ∷ ("title", Value.text "Flood")
    ∷ ("version", Value.int (pos 2))
    ∷ []

two_codes : (code : String) → str_eq code "R-001" ≡ true → str_eq code "R-002" ≡ false
two_codes code h = subst (λ c. str_eq c "R-002" ≡ false) (sym ((eq_iff code "R-001").0 h)) refl

copies-IsLocal : IsLocal copies.items
unfolding count
copies-IsLocal = (λ e i. ground arith, λ e p code. ground (arith, two_codes code))

abbrev no_meta : Fields
no_meta =
    ("description", Value.null)
    ∷ ("category", Value.null)
    ∷ ("threat", Value.null)
    ∷ ("triggers", Value.null)
    ∷ ("mitigation_plan", Value.null)
    ∷ ("document_url", Value.null)
    ∷ ("owner_user_id", Value.null)
    ∷ ("status", Value.text "concept")
    ∷ ("identified_at", Value.null)
    ∷ ("status_changed_at", Value.null)
    ∷ ("response_at", Value.null)
    ∷ ("occurred_at", Value.null)
    ∷ ("impact_cost", Value.null)
    ∷ ("impact_time", Value.null)
    ∷ ("impact_scope", Value.null)
    ∷ ("impact_quality", Value.null)
    ∷ []

abbrev flooded : Item
flooded = record (local 6 false "R-001") {
  version = pos 2;
  columns =
      ("title", Value.text "Flood")
      ∷ ("probability", Value.int (pos 1))
      ∷ ("impact", Value.int (pos 1))
      ∷ ("is_deleted", Value.int (pos 0))
      ∷ ("updated_at", Value.text "")
      ∷ no_meta;
}

-- the codes are swapped on the server: 5 is kept, its code released, and 6 takes it
abbrev pulled : Copies
pulled = record {
  items = record (local 5 true "R-001") { code = none } ∷ flooded ∷ [];
  outbox = with_server_copy (pos 2) (server "5" "R-002") "" disputed ∷ [];
}

pulled_run :
    apply_pull python 7 risk (server "5" "R-002" ∷ server "6" "R-001" ∷ []) copies ≡ some pulled
unfolding apply_pull strip_text
pulled_run = refl

pull_spares_waiting_example :
    SameButCode (find (is_item risk 5) copies.items) (find (is_item risk 5) pulled.items)
    × ((k : ℕ) → SameEdit (find (has_id k) copies.outbox) (find (has_id k) pulled.outbox))
unfolding is_waiting
pull_spares_waiting_example =
    pull_spares_waiting python 7 risk (server "5" "R-002" ∷ server "6" "R-001" ∷ []) copies pulled
      risk 5 pulled_run (inr refl)

abbrev renamed : Fields
renamed = server "5" "R-002"

renamed-IsReadable : IsReadable python 7 risk renamed
unfolding scored_record strip_text
renamed-IsReadable = record {
  id = Value.text "5";
  version = pos 2;
  row = _;
  named = refl;
  counted = refl;
  reads = refl;
}

abbrev other : Fields
other = server "6" "R-001"

other-IsReadable : IsReadable python 7 risk other
unfolding scored_record strip_text
other-IsReadable = record {
  id = Value.text "6";
  version = pos 2;
  row = flooded;
  named = refl;
  counted = refl;
  reads = refl;
}

pull_scored_completes_example :
    (left : Copies) × (apply_pull python 7 risk
        (server "5" "R-002" ∷ server "6" "R-001" ∷ [])
        copies
      ≡ some left)
    × IsLocal left.items
pull_scored_completes_example =
    pull_scored_completes python 7 risk (server "5" "R-002" ∷ server "6" "R-001" ∷ []) copies refl
      (renamed-IsReadable, (other-IsReadable, tt)) copies-IsLocal

abbrev advanced : Items
advanced = record (local 5 true "R-003") { version = pos 2 } ∷ local 6 false "R-002" ∷ []

advanced_run :
    advance_push_acknowledgement python 7 risk 5
      (some (pos 2))
      (some (server "5" "R-003"))
      copies.items
    ≡ some advanced
unfolding advance_push_acknowledgement
advanced_run = refl

advance_keeps_edit_example :
    IsAdvanced (find (is_item risk 5) copies.items) (find (is_item risk 5) advanced)
advance_keeps_edit_example =
    advance_keeps_edit python 7 risk 5 (some (pos 2)) (some (server "5" "R-003")) copies.items
      advanced advanced_run risk 5

acknowledgement_confirms_example :
    (items : Items) × (apply_push_acknowledgement python 7 risk 6
        (some (pos 2))
        (some (server "6" "R-001"))
        copies
      ≡ some (record copies { items = items }))
    × (find (is_item risk 6) items ≡ some flooded)
    × (flooded.version ≡ pos 2)
    × (flooded.dirty ≡ false)
unfolding check_ack_identity int_or is_waiting scored_record put strip_text
acknowledgement_confirms_example =
    acknowledgement_confirms python 7 risk 6 (pos 2) (server "6" "R-001") copies flooded refl refl
      refl refl refl refl

abbrev marks : List Mark
marks = record { project_id = 7; last_server_time = "then"; last_server_sequence = pos 3 } ∷ []

set_sync_watermark_lem_example :
    (left : List Mark) × (set_sync_watermark 7 "now" (some (pos 9)) marks ≡ some left)
    × ((q : ℕ)
        → get_last_server_time q left ≡ (if 7 == q then "now" else get_last_server_time q marks))
    × (get_last_server_sequence 7 left ≡ pos 9)
    × ((q : ℕ)
        → get_last_server_sequence q left
          ≡ (if 7 == q then pos 9 else get_last_server_sequence q marks))
    × (set_last_server_time 7 "later" left ≡ set_sync_watermark 7 "later" (some (pos 9)) left)
    × (set_sync_watermark 7 "now" (some (negsuc 9)) marks ≡ none)
set_sync_watermark_lem_example = set_sync_watermark_lem 7 9 "now" "later" marks
