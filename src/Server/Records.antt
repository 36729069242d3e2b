-- ===== src/Server/Records.antt =====
-- The synced rows of the server: db/models.py, and reading them, sync/serialize.py and the queries of
-- sync/mutations.py. A row keeps what the server owns in typed fields and what a client may set in
-- `columns`. What pydantic, uuid and the database do is the interface `Env`.
pub mod Codes
pub mod Mutations
mod Tests
use risk_opportunity_manager.Prelude.{
  ℕ, ◌+◌, ◌*◌, ℤ, pos, pos_part, max_ℤ, leb_ℤ, Bool, true, false, ◌&&◌, ◌||◌, not, Option, none,
  some, List, [], ◌∷◌, ◌++◌, if◌then◌else◌, ◌==◌, String, find, update,
}
use risk_opportunity_manager.Protocol.{
  Entity, risk, opportunity, action, assessment, helpdesk_ticket, is_scored, same_entity,
}
use risk_opportunity_manager.Json.{Fields, Value, null, bool, int, text, get, put, truthy}
use risk_opportunity_manager.Server.Push.{Reason, Failure, unexpected, integrity_error}
use risk_opportunity_manager.Server.Records.Codes.{Digits}

-- ENTITY_MODELS
pub data Model : Type 0 where
  items actions assessments tickets : Model

abbrev pub model_of : Entity → Model
model_of risk = items
model_of opportunity = items
model_of action = actions
model_of assessment = assessments
model_of helpdesk_ticket = tickets

abbrev pub model_tag : Model → ℕ
model_tag items = 0
model_tag actions = 1
model_tag assessments = 2
model_tag tickets = 3

-- `project_id` is not read for an assessment, `kind` is Item.type, and `assessor` is the
-- assessment's assessor_user_id.
pub record Row : Type 0 where
  pub model : Model
  pub id : ℕ
  pub project_id : ℕ
  pub kind : Entity
  pub assessor : ℕ
  pub created_by : ℕ
  pub version : ℕ
  pub created_at : ℕ
  pub updated_at : ℕ
  pub status_changed_at : ℕ
  pub change_sequence : ℕ
  pub columns : Fields

-- An AuditLog row.
pub record Audit : Type 0 where
  pub user_id : ℕ
  pub project_id : ℕ
  pub change_id : ℕ
  pub entity : Entity
  pub entity_id : ℕ
  pub is_delete : Bool
  pub before : Option Row
  pub after : Row

-- SyncProjectState, the project's counter
pub record Counter : Type 0 where
  pub project_id : ℕ
  pub last_sequence : ℕ

-- `now` is the time of the transaction, which utcnow reads.
pub record Records : Type 0 where
  pub rows : List Row
  pub counters : List Counter
  pub audits : List Audit
  pub now : ℕ

pub data Validated : Type 0 where
  valid : Fields → Validated
  refused : String → Validated

-- What third-party code does: pydantic's validation of a client's record (its model_dump of the
-- fields that are set), uuid.UUID on a value, and the constraints that the database checks.
pub record Env : Type 0 where
  pub validate : Entity → Fields → Validated
  pub uuid_of : Value → Option ℕ
  pub uuid_text : ℕ → String
  pub iso_text : ℕ → String
  pub violates : List Row → Row → Bool
  pub digits : Digits

-- d.get(k)
abbrev pub or_null : Option Value → Value
or_null none = null
or_null (some v) = v

unfoldable pub value_of : String → Fields → Value
unfolding get
value_of k d = or_null (get k d)

abbrev pub is_row : Model → ℕ → Row → Bool
is_row m i r = model_tag r.model == model_tag m && r.id == i

abbrev pub is_deleted : Row → Bool
is_deleted r = truthy (value_of "is_deleted" r.columns)

unfoldable pub find_row : Model → ℕ → List Row → Option Row
find_row m i rows = find (is_row m i) rows

module _ (env : Env) where
  -- the item, if it is in the project
  unfoldable pub project_item : List Row → ℕ → Option ℕ → Option Row
  unfolding find_row
  project_item rows p none = none
  project_item rows p (some i) = find (λ r. is_row items i r && r.project_id == p) rows

  abbrev pub item_of : Row → Option ℕ
  item_of r = env.uuid_of (value_of "item_id" r.columns)

  abbrev pub some_row : Option Row → Bool
  some_row none = false
  some_row (some r) = true

  -- is the row in the project: by its item for an assessment
  abbrev pub located : Model → List Row → ℕ → Row → Bool
  located assessments rows p r = some_row (project_item rows p (item_of r))
  located _ rows p r = r.project_id == p

  unfoldable pub in_project : List Row → ℕ → Row → Bool
  unfolding project_item value_of
  in_project rows p r = located r.model rows p r

  -- fetch_obj
  unfoldable pub fetch_obj : List Row → Entity → ℕ → ℕ → Option Row
  unfolding in_project
  fetch_obj rows e i p = find (λ r. is_row (model_of e) i r && in_project rows p r) rows

  -- the conditions of _version_scope
  unfoldable pub in_scope : List Row → Entity → ℕ → ℕ → ℕ → Row → Bool
  unfolding in_project
  in_scope rows e i p u r =
      is_row (model_of e) i r
      && in_project rows p r
      && (not (is_scored e) || same_entity r.kind e)
      && (not (same_entity e assessment) || r.assessor == u)

  abbrev kind_text : Entity → String
  kind_text risk = "risk"
  kind_text _ = "opportunity"

  -- the columns that the server owns
  abbrev owned : Model → Row → Fields
  owned items r =
      ("project_id", text (env.uuid_text r.project_id))
      ∷ ("type", text (kind_text r.kind))
      ∷ ("created_by", text (env.uuid_text r.created_by))
      ∷ ("status_changed_at", text (env.iso_text r.status_changed_at))
      ∷ []
  owned assessments r = ("assessor_user_id", text (env.uuid_text r.assessor)) ∷ []
  owned _ r =
      ("project_id", text (env.uuid_text r.project_id))
      ∷ ("created_by", text (env.uuid_text r.created_by))
      ∷ []

  -- model_to_dict, before the parent aliases
  unfoldable pub model_to_dict : Row → Fields
  model_to_dict r =
      ("id", text (env.uuid_text r.id))
      ∷ ("version", int (pos r.version))
      ∷ ("created_at", text (env.iso_text r.created_at))
      ∷ ("updated_at", text (env.iso_text r.updated_at))
      ∷ (owned r.model r ++ r.columns)

  abbrev kind_is : Entity → Option Row → Value → Value
  kind_is e none v = null
  kind_is e (some item) v = if same_entity item.kind e then v else null

  abbrev has_parent : Entity → Bool
  has_parent action = true
  has_parent assessment = true
  has_parent _ = false

  -- the item of a row, in whatever project it is
  unfoldable pub parent_of : List Row → Option ℕ → Option Row
  unfolding find_row
  parent_of rows none = none
  parent_of rows (some i) = find_row items i rows

  -- model_to_sync_dict
  unfoldable pub model_to_sync_dict : List Row → Entity → Row → Fields
  unfolding model_to_dict parent_of value_of put
  model_to_sync_dict rows e r =
      let out = model_to_dict r in
      let item = value_of "item_id" r.columns in
      let parent = parent_of rows (item_of r) in
      if has_parent e
      then put "opportunity_id" (kind_is opportunity parent item)
          (put "risk_id" (kind_is risk parent item) out)
      else out

  abbrev state_of : List Row → Entity → Option Row → Option ℤ × Option Fields
  state_of rows e none = (none, none)
  state_of rows e (some r) = (some (pos r.version), some (model_to_sync_dict rows e r))

  unfoldable pub current_server_state : Records → Entity → ℕ → ℕ → ℕ → Option ℤ × Option Fields
  unfolding in_scope model_to_sync_dict
  current_server_state d e i p u = state_of d.rows e (find (in_scope d.rows e i p u) d.rows)
