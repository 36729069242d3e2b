-- ===== src/Client/Store/Reading.antt =====
-- What a server's record becomes in the local tables: action_assessment_mapper.py, norm_text and
-- norm_scored_meta of sqlite_base.py, and the records that server_state.py builds. A `none` result is
-- a KeyError or a ValueError.
use package.text.Mathlib.Text.{◌==◌ as str_eq}
use risk_opportunity_manager.Prelude.{
  ℕ, ℤ, pos, Bool, false, Option, none, some, List, [], ◌∷◌, ◌++◌, if◌then◌else◌, eqb_ℤ, String,
}
use risk_opportunity_manager.Protocol.{Entity}
use risk_opportunity_manager.Json.{Fields, Value, null, bool, int, text, get, put, truthy}
use risk_opportunity_manager.Text.{strip_text}
use risk_opportunity_manager.Client.Store.{Python, Item}

-- int(v), of a value that is not None
abbrev pub int_value : Python → Value → Option ℤ
int_value py null = none
int_value py (bool b) = some (if b then pos 1 else pos 0)
int_value py (int n) = some n
int_value py (text s) = py.int_of s

abbrev or_value : Value → Option Value → Value
or_value d none = d
or_value d (some v) = if truthy v then v else d

-- str(ent.get(k) or d)
unfoldable pub text_or : Python → String → String → Fields → String
unfolding get truthy
text_or py k d ent = py.str (or_value (text d) (get k ent))

-- int(ent.get(k) or n)
unfoldable pub int_or : Python → String → ℕ → Fields → Option ℤ
unfolding get truthy
int_or py k n ent = int_value py (or_value (int (pos n)) (get k ent))

abbrev pub is_truthy : Option Value → Bool
is_truthy none = false
is_truthy (some v) = truthy v

-- 1 if bool(ent.get(k)) else 0
unfoldable pub flag_of : String → Fields → Value
unfolding get truthy
flag_of k ent = if is_truthy (get k ent) then int (pos 1) else int (pos 0)

abbrev some_text : String → Option String
some_text s = if str_eq s "" then none else some s

-- norm_text; _opt_str without a default reads alike
abbrev pub norm_text : Python → Option Value → Option String
norm_text py none = none
norm_text py (some null) = none
norm_text py (some v) = some_text (strip_text (py.str v))

abbrev pub text_or_null : Option String → Value
text_or_null none = null
text_or_null (some s) = text s

abbrev pub text_with : Option String → String → String
text_with none d = d
text_with (some s) d = s

-- the keys of _TEXT_META_KEYS but the code, and those of _INT_META_KEYS
abbrev text_meta_keys : List String
text_meta_keys =
    "description" ∷ "category" ∷ "threat" ∷ "triggers" ∷ "mitigation_plan" ∷ "document_url"
    ∷ "owner_user_id" ∷ "status" ∷ "identified_at" ∷ "status_changed_at" ∷ "response_at"
    ∷ "occurred_at" ∷ []

abbrev int_meta_keys : List String
int_meta_keys = "impact_cost" ∷ "impact_time" ∷ "impact_scope" ∷ "impact_quality" ∷ []

unfoldable pub text_meta : Python → Fields → List String → Fields
unfolding get
text_meta py ent [] = []
text_meta py ent (k ∷ keys) = (k, text_or_null (norm_text py (get k ent))) ∷ text_meta py ent keys

abbrev int_or_null : Python → Option Value → Option Value
int_or_null py none = some null
int_or_null py (some null) = some null
int_or_null py (some v) = elim (int_value py v) [ none ↦ none | some n ↦ some (int n) ]

unfoldable pub int_meta : Python → Fields → List String → Option Fields
unfolding get
int_meta py ent [] = some []
int_meta py ent (k ∷ keys) = elim (int_or_null py (get k ent)) [
  | none ↦ none
  | some v ↦ elim (int_meta py ent keys) [ none ↦ none | some rest ↦ some ((k, v) ∷ rest) ]
]

-- a status that is missing or empty is "concept"
abbrev with_status : Fields → Fields
with_status ent = if is_truthy (get "status" ent) then ent else put "status" (text "concept") ent

-- norm_scored_meta of the record's keys, without the code
unfoldable pub norm_scored_meta : Python → Fields → Option Fields
unfolding text_meta int_meta put get truthy
norm_scored_meta py ent = elim (int_meta py ent int_meta_keys) [
  | none ↦ none
  | some numbers ↦ some (text_meta py (with_status ent) text_meta_keys ++ numbers)
]

-- the record of _apply_pull_scored_entities
unfoldable pub scored_record : Python → Entity → ℕ → ℕ → ℤ → Fields → Option Item
unfolding text_or int_or flag_of norm_scored_meta get
scored_record py e p i v ent = elim (norm_scored_meta py ent) [
  | none ↦ none
  | some meta ↦ elim (int_or py "probability" 1 ent) [
    | none ↦ none
    | some likely ↦ elim (int_or py "impact" 1 ent) [
      | none ↦ none
      | some impact ↦ some (record {
        entity = e;
        id = i;
        project_id = p;
        version = v;
        dirty = false;
        code = norm_text py (get "code" ent);
        columns =
            ("title", text (text_or py "title" "" ent))
            ∷ ("probability", int likely)
            ∷ ("impact", int impact)
            ∷ ("is_deleted", flag_of "is_deleted" ent)
            ∷ ("updated_at", text (text_or py "updated_at" "" ent))
            ∷ meta;
      })
    ]
  ]
]

-- _opt_int of a key, `or` the default
abbrev int_text : Python → String → Option ℤ
int_text py s = if str_eq s "" then none else py.int_of s

abbrev opt_int : Python → Option Value → Option ℤ
opt_int py none = none
opt_int py (some null) = none
opt_int py (some (bool b)) = none
opt_int py (some v) = int_text py (strip_text (py.str v))

abbrev pub or_number : ℕ → Option ℤ → ℤ
or_number n none = pos n
or_number n (some v) = if eqb_ℤ v (pos 0) then pos n else v

-- Action and Assessment, but for the project, which the pull sets
pub record Action : Type 0 where
  pub id : ℕ
  pub version : ℤ
  pub columns : Fields

pub record Assessment : Type 0 where
  pub id : ℕ
  pub item_id : String
  pub version : ℤ
  pub assessor_user_id : String
  pub probability : ℤ
  pub impact : ℤ
  pub notes : String
  pub is_deleted : Value
  pub updated_at : String

-- action_from_mapping and build_record: `none` is a missing id or project
unfoldable pub action_from_mapping : Python → Fields → Option Action
unfolding get text_or flag_of
action_from_mapping py ent = elim (norm_text py (get "id" ent)) [
  | none ↦ none
  | some i ↦ elim (norm_text py (get "project_id" ent)) [
    | none ↦ none
    | some p ↦ some (record {
      id = py.number i;
      version = or_number 0 (opt_int py (get "version" ent));
      columns =
          ("risk_id", text_or_null (norm_text py (get "risk_id" ent)))
          ∷ ("opportunity_id", text_or_null (norm_text py (get "opportunity_id" ent)))
          ∷ ("kind", text (text_with (norm_text py (get "kind" ent)) ""))
          ∷ ("title", text (text_with (norm_text py (get "title" ent)) ""))
          ∷ ("description", text (text_or py "description" "" ent))
          ∷ ("status", text (text_with (norm_text py (get "status" ent)) "open"))
          ∷ ("owner_user_id", text_or_null (norm_text py (get "owner_user_id" ent)))
          ∷ ("is_deleted", flag_of "is_deleted" ent)
          ∷ ("updated_at", text (text_or py "updated_at" "" ent))
          ∷ [];
    })
  ]
]

abbrev first_text : Option String → Option String → Option String
first_text none b = b
first_text (some a) b = some a

abbrev target_text : Python → Fields → Option String
target_text py ent =
    first_text (norm_text py (get "item_id" ent))
      (first_text (norm_text py (get "risk_id" ent)) (norm_text py (get "opportunity_id" ent)))

-- assessment_from_mapping: `none` is a missing id or target
unfoldable pub assessment_from_mapping : Python → Fields → Option Assessment
unfolding get text_or flag_of
assessment_from_mapping py ent = elim (target_text py ent) [
  | none ↦ none
  | some item ↦ elim (norm_text py (get "id" ent)) [
    | none ↦ none
    | some i ↦ some (record {
      id = py.number i;
      item_id = item;
      version = or_number 0 (opt_int py (get "version" ent));
      assessor_user_id = text_with (norm_text py (get "assessor_user_id" ent)) "";
      probability = or_number 1 (opt_int py (get "probability" ent));
      impact = or_number 1 (opt_int py (get "impact" ent));
      notes = text_or py "notes" "" ent;
      is_deleted = flag_of "is_deleted" ent;
      updated_at = text_or py "updated_at" "" ent;
    })
  ]
]

-- the row of apply_pull_helpdesk_tickets, with the project that it names
unfoldable pub ticket_columns : Python → Fields → Fields
unfolding text_or flag_of
ticket_columns py item =
    ("title", text (text_or py "title" "" item))
    ∷ ("description", text (text_or py "description" "" item))
    ∷ ("category", text (text_or py "category" "other" item))
    ∷ ("priority", text (text_or py "priority" "medium" item))
    ∷ ("status", text (text_or py "status" "open" item))
    ∷ ("reporter_email", text (text_or py "reporter_email" "" item))
    ∷ ("is_deleted", flag_of "is_deleted" item)
    ∷ ("created_at", text (text_or py "created_at" "" item))
    ∷ ("updated_at", text (text_or py "updated_at" "" item))
    ∷ []
