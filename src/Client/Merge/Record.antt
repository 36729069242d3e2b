-- ===== src/Client/Merge/Record.antt =====
-- The python_checks of the chosen values, and merged_record of conflict_merge.py.
use package.text.Mathlib.Text.{◌==◌ as str_eq}
use risk_opportunity_manager.Prelude.{
  ℕ, pos, Bool, true, false, ◌&&◌, not, Option, none, some, List, [], ◌∷◌, ◌++◌, map, if◌then◌else◌,
  leb, leb_ℤ, String, length,
}
use risk_opportunity_manager.Protocol.{Entity, action, assessment, helpdesk_ticket, is_scored}
use risk_opportunity_manager.Json.{Fields, Value, null, bool, int, text, get, put}
use risk_opportunity_manager.Text.{codes, strip_text}
use risk_opportunity_manager.Client.Merge.{
  Checks, Conflict, Side, merge_fields, impact_dimensions, is_in, pick, update_all, is_mine,
  is_known_side, selected_of, any_side, key_of, all_in, mergeable_fields,
}

-- len(s) is within bounds
abbrev is_length : ℕ → ℕ → String → Bool
is_length low high s = leb low (length (codes s)) && leb (length (codes s)) high

-- the values of _CHOICES
abbrev pub choices_for : Entity → String → Option (List String)
choices_for action key =
    if str_eq key "status"
    then some ("open" ∷ "doing" ∷ "done" ∷ [])
    else if str_eq key "kind"
    then some ("mitigation" ∷ "contingency" ∷ "exploit" ∷ [])
    else none
choices_for assessment key = none
choices_for helpdesk_ticket key =
    if str_eq key "status"
    then some ("open" ∷ "in_progress" ∷ "resolved" ∷ "closed" ∷ [])
    else if str_eq key "priority"
    then some ("low" ∷ "medium" ∷ "high" ∷ "critical" ∷ [])
    else if str_eq key "category"
    then some ("bug" ∷ "question" ∷ "feature_request" ∷ "access" ∷ "other" ∷ [])
    else none
choices_for scored key =
    if str_eq key "status" then some ("concept" ∷ "active" ∷ "closed" ∷ "happened" ∷ []) else none

-- _validate_score
unfoldable pub validate_score : String → Value → Bool
unfolding is_in
validate_score key null = is_in key impact_dimensions
validate_score key (int n) = leb_ℤ (pos 1) n && leb_ℤ n (pos 5)
validate_score key v = false

-- _MAX_LENGTH.get(key, 10_000)
abbrev max_length : String → ℕ
max_length key =
    if str_eq key "category"
    then 200
    else if str_eq key "document_url"
    then 2000
    else if str_eq key "reporter_email"
    then 320
    else if str_eq key "notes"
    then 5000
    else 10000

abbrev dates : List String
dates = "identified_at" ∷ "response_at" ∷ "occurred_at" ∷ []

-- _validate_text
unfoldable pub validate_text : Checks → String → String → Bool
unfolding is_in
validate_text ck key s =
    if str_eq key "owner_user_id"
    then ck.is_uuid s
    else if is_in key dates
    then ck.is_datetime s
    else if str_eq key "code" && not (is_length 1 64 s)
    then false
    else leb (length (codes s)) (max_length key)

abbrev validate_title : Value → Bool
validate_title (text s) = not (str_eq (strip_text s) "") && leb (length (codes s)) 300
validate_title v = false

abbrev validate_other : Checks → String → Option (List String) → Value → Bool
validate_other ck key allowed (bool b) = false
validate_other ck key allowed (int n) = false
validate_other ck key (some allowed) null = false
validate_other ck key none null = true
validate_other ck key (some allowed) (text s) = is_in s allowed
validate_other ck key none (text s) = validate_text ck key s

-- _validate_selected
unfoldable pub validate_selected : Checks → Entity → String → Value → Bool
unfolding is_in validate_score validate_text strip_text
validate_selected ck e key v =
    if is_in key ("probability" ∷ "impact" ∷ impact_dimensions)
    then validate_score key v
    else if str_eq key "title"
    then validate_title v
    else validate_other ck key (choices_for e key) v

unfoldable pub all_valid : Checks → Entity → Fields → Bool
unfolding validate_selected
all_valid ck e [] = true
all_valid ck e ((k, v) ∷ rest) = validate_selected ck e k v && all_valid ck e rest

-- [value for value in impact_dimensions if value is not None]
unfoldable pub given : List String → Fields → List Value
unfolding get
given [] d = []
given (k ∷ keys) d = elim (get k d) [ none ↦ given keys d | some v ↦ if_given v (given keys d) ]
  where
    if_given : Value → List Value → List Value
    if_given null rest = rest
    if_given v rest = v ∷ rest

abbrev pub with_max : Option Value → Fields → Option Fields
with_max none d = none
with_max (some v) d = some (put "impact" v d)

abbrev pub largest : Checks → List Value → Fields → Option Fields
largest ck [] d = some d
largest ck (v ∷ values) d = with_max (ck.max_of (v ∷ values)) d

-- the impact of a scored record with impact_dimensions
unfoldable pub with_impact_of : Checks → Entity → Fields → Option Fields
unfolding given put
with_impact_of ck e d = if is_scored e then largest ck (given impact_dimensions d) d else some d

abbrev pub and_selected : Fields → Option Fields → Option (Fields × Fields)
and_selected selected none = none
and_selected selected (some d) = some (d, selected)

-- str(server["id"])
abbrev pub id_value : Checks → Option Value → Value
id_value ck none = text ""
id_value ck (some v) = text (ck.str v)

-- the record from the server's copy
unfoldable pub server_copy : Checks → Entity → Fields → Fields
unfolding pick get put
server_copy ck e server =
    put "id" (id_value ck (get "id" server))
      (pick ("id" ∷ (merge_fields e ++ "item_id" ∷ "risk_id" ∷ "opportunity_id" ∷ [])) server)

abbrev pub merged_from :
    Checks → Entity → List (String × Side) → Fields → Fields → Option (Fields × Fields)
merged_from ck e choices local server =
    let selected = selected_of choices local in
    if all_valid ck e selected
    then and_selected selected (with_impact_of ck e (update_all (server_copy ck e server) selected))
    else none

-- the copies are there when a field is mergeable
abbrev pub merged_copies :
    Checks
    → Option Entity
    → List (String × Side)
    → Option Fields
    → Option Fields
    → Option (Fields × Fields)
merged_copies ck (some e) choices (some local) (some server) = merged_from ck e choices local server
merged_copies ck e choices local server = none

-- set(choices) == set(fields), known sides, and one local field at least
abbrev pub is_choice : List String → List (String × Side) → Bool
is_choice fields choices =
    not (is_empty fields)
    && all_in (map key_of choices) fields
    && all_in fields (map key_of choices)
    && not (any_side (λ side. not (is_known_side side)) choices)
    && any_side is_mine choices
  where
    is_empty : List String → Bool
    is_empty [] = true
    is_empty (k ∷ keys) = false

-- merged_record
unfoldable pub merged_record : Checks → Conflict → List (String × Side) → Option (Fields × Fields)
unfolding mergeable_fields all_in any_side selected_of all_valid with_impact_of update_all
    server_copy
merged_record ck c choices =
    if is_choice (mergeable_fields ck c) choices
    then merged_copies ck c.entity choices c.local c.server
    else none
