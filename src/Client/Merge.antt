-- ===== src/Client/Merge.antt =====
-- The field by field merge of a conflict: client services/conflict_merge.py and the fields of
-- domain/conflict_fields.py. A ValueError is `none`.
pub mod Record
pub mod Chosen
pub mod Apply
mod Tests
use package.text.Mathlib.Text.{◌==◌ as str_eq}
use risk_opportunity_manager.Prelude.{
  ℕ, ℤ, pos, Bool, true, false, ◌&&◌, ◌||◌, not, Option, none, some, List, [], ◌∷◌, ◌++◌, map,
  if◌then◌else◌, ◌==◌, ltb, leb, eqb_ℤ, leb_ℤ, String, length, select,
}
use risk_opportunity_manager.Protocol.{
  Entity, risk, opportunity, action, assessment, helpdesk_ticket, is_scored, Op, is_upsert,
}
use risk_opportunity_manager.Json.{Fields, Value, null, bool, int, text, get, put, truthy}
use risk_opportunity_manager.Text.{codes, lower_code, same_text, strip_text}
use risk_opportunity_manager.Client.Outbox.{is_some}

-- What Python does: str, whether uuid.UUID and datetime.fromisoformat take a text, and max of a list
-- of values (`none` is a TypeError).
pub record Checks : Type 0 where
  pub str : Value → String
  pub is_uuid : String → Bool
  pub is_datetime : String → Bool
  pub max_of : List Value → Option Value

-- A conflict as it is shown; `entity` is `none` where MERGE_FIELDS has no such key.
pub record Conflict : Type 0 where
  pub op : Op
  pub entity : Option Entity
  pub entity_id : String
  pub local : Option Fields
  pub server : Option Fields
  pub server_version : Option Value

pub data Side : Type 0 where
  mine from_server other_side : Side

abbrev scored_fields : List String
scored_fields =
    "title" ∷ "code" ∷ "description" ∷ "category" ∷ "threat" ∷ "triggers" ∷ "mitigation_plan"
    ∷ "document_url" ∷ "owner_user_id" ∷ "status" ∷ "identified_at" ∷ "response_at" ∷ "occurred_at"
    ∷ "probability" ∷ "impact" ∷ "impact_cost" ∷ "impact_time" ∷ "impact_scope" ∷ "impact_quality"
    ∷ []

-- MERGE_FIELDS
abbrev pub merge_fields : Entity → List String
merge_fields risk = scored_fields
merge_fields opportunity = scored_fields
merge_fields action = "kind" ∷ "title" ∷ "description" ∷ "status" ∷ "owner_user_id" ∷ []
merge_fields assessment = "probability" ∷ "impact" ∷ "notes" ∷ []
merge_fields helpdesk_ticket =
    "title" ∷ "description" ∷ "category" ∷ "priority" ∷ "status" ∷ "reporter_email" ∷ []

abbrev pub impact_dimensions : List String
impact_dimensions = "impact_cost" ∷ "impact_time" ∷ "impact_scope" ∷ "impact_quality" ∷ []

unfoldable pub is_in : String → List String → Bool
is_in k [] = false
is_in k (j ∷ keys) = str_eq j k || is_in k keys

abbrev as_int : Bool → ℤ
as_int b = if b then pos 1 else pos 0

-- v == w; True is 1
abbrev pub equal_value : Value → Value → Bool
equal_value null null = true
equal_value (bool a) (bool b) = eqb_ℤ (as_int a) (as_int b)
equal_value (bool a) (int n) = eqb_ℤ (as_int a) n
equal_value (int n) (bool b) = eqb_ℤ n (as_int b)
equal_value (int n) (int m) = eqb_ℤ n m
equal_value (text s) (text t) = str_eq s t
equal_value _ _ = false

abbrev differ : Option Value → Option Value → Bool
differ (some v) (some w) = not (equal_value v w)
differ _ _ = false

abbrev is_missing : Option Value → Bool
is_missing none = true
is_missing (some null) = true
is_missing _ = false

abbrev is_given : Option Value → Bool
is_given none = false
is_given (some v) = truthy v

-- _is_positive_int
abbrev pub is_positive_int : Option Value → Bool
is_positive_int (some (int n)) = leb_ℤ (pos 1) n
is_positive_int _ = false

-- any(… is not None for key in _DIMENSIONS)
unfoldable pub any_given : List String → Fields → Bool
unfolding get
any_given [] d = false
any_given (k ∷ keys) d = not (is_missing (get k d)) || any_given keys d

abbrev pub is_scored_entity : Option Entity → Bool
is_scored_entity none = false
is_scored_entity (some e) = is_scored e

-- the test of mergeable_fields for a key
unfoldable pub is_mergeable : Bool → Fields → Fields → String → Bool
unfolding get
is_mergeable active local server key =
    differ (get key local) (get key server) && not (str_eq key "impact" && active)

-- {key: server[key] for key in allowed if key in server}
unfoldable pub pick : List String → Fields → Fields
unfolding get
pick [] d = []
pick (k ∷ keys) d = elim (get k d) [ none ↦ pick keys d | some v ↦ (k, v) ∷ pick keys d ]

-- d.update(changes)
unfoldable pub update_all : Fields → Fields → Fields
unfolding put
update_all d [] = d
update_all d ((k, v) ∷ changes) = update_all (put k v d) changes

abbrev pub is_mine : Side → Bool
is_mine mine = true
is_mine _ = false

abbrev is_known_side : Side → Bool
is_known_side other_side = false
is_known_side _ = true

-- {key: local[key] for key, side in choices.items() if side == "mine"}
unfoldable pub selected_of : List (String × Side) → Fields → Fields
unfolding get
selected_of [] local = []
selected_of ((k, side) ∷ choices) local = elim (get k local) [
  | none ↦ selected_of choices local
  | some v ↦ let rest = selected_of choices local in if is_mine side then (k, v) ∷ rest else rest
]

unfoldable pub any_side : (Side → Bool) → List (String × Side) → Bool
any_side p [] = false
any_side p ((k, side) ∷ choices) = p side || any_side p choices

abbrev pub key_of : String × Side → String
key_of (k, side) = k

unfoldable pub all_in : List String → List String → Bool
unfolding is_in
all_in [] keys = true
all_in (k ∷ rest) keys = is_in k keys && all_in rest keys

-- _is_deleted
unfoldable pub is_deleted_record : Checks → Fields → Bool
unfolding get truthy lower_code same_text
is_deleted_record ck d =
    is_given (get "is_deleted" d)
    || same_text (map lower_code (codes (status_text (get "status" d)))) (codes "deleted")
  where
    status_text : Option Value → String
    status_text none = ""
    status_text (some v) = if truthy v then ck.str v else ""

-- _can_merge, with the two copies
unfoldable pub can_merge : Checks → Conflict → Fields → Fields → Bool
unfolding is_deleted_record get truthy
can_merge ck c local server =
    is_upsert c.op
    && is_some c.entity
    && not (is_deleted_record ck local)
    && not (is_deleted_record ck server)
    && is_given (get "id" server)
    && names_item (get "id" server)
    && is_positive_int c.server_version
  where
    names_item : Option Value → Bool
    names_item none = false
    names_item (some v) = str_eq (ck.str v) c.entity_id

abbrev pub fields_of : Option Entity → List String
fields_of none = []
fields_of (some e) = merge_fields e

abbrev mergeable_in : Checks → Conflict → Option Fields → Option Fields → List String
mergeable_in ck c none server = []
mergeable_in ck c (some local) none = []
mergeable_in ck c (some local) (some server) =
    let active =
      is_scored_entity c.entity
      && (any_given impact_dimensions server || any_given impact_dimensions local) in
    if can_merge ck c local server
    then select (is_mergeable active local server) (fields_of c.entity)
    else []

-- mergeable_fields; an empty server copy has no id
unfoldable pub mergeable_fields : Checks → Conflict → List String
unfolding can_merge is_mergeable any_given select
mergeable_fields ck c = mergeable_in ck c c.local c.server
