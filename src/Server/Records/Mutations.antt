-- ===== src/Server/Records/Mutations.antt =====
-- One pushed upsert or delete: sync/mutations.py with core/scoring.py, change_status and soft_delete of
-- db/models.py, and the listeners that run when a row is flushed.
pub mod Validate
pub mod Claim
pub mod Flush
pub mod Create
pub mod Update
pub mod Apply
pub mod Heads
pub mod Flushed
pub mod Written
pub mod Created
pub mod Applied
pub mod Keys
pub mod Locking
pub mod Versions
pub mod Sequences
pub mod Deleted
pub mod Pushed
mod Tests
use risk_opportunity_manager.Prelude.{
  ℕ, ◌+◌, ◌*◌, ℤ, pos, pos_part, max_ℤ, leb_ℤ, eqb_ℤ, Bool, true, false, ◌&&◌, ◌||◌, not, Option,
  none, some, List, [], ◌∷◌, ◌++◌, map, if◌then◌else◌, ◌==◌, String, find, update, select, count,
  delete,
}
use package.text.Mathlib.Text.{◌==◌ as str_eq}
use risk_opportunity_manager.Protocol.{
  Entity, risk, opportunity, action, assessment, helpdesk_ticket, is_scored, same_entity,
}
use risk_opportunity_manager.Json.{Fields, Value, null, bool, int, text, get, put, truthy}
use risk_opportunity_manager.Server.Push.{
  Reason, base_version_required, version_mismatch, type_mismatch, Failure, conflict_error,
  http_exception, unexpected, integrity_error,
}
use risk_opportunity_manager.Server.Push.Engine.{status_is_deleted}
use risk_opportunity_manager.Server.Records.{
  Model, items, actions, assessments, tickets, model_of, Row, Records, Counter, Env, Validated,
  valid, refused, value_of, is_row, find_row, project_item, parent_of, in_scope, in_project,
  fetch_obj, item_of, current_server_state, model_to_sync_dict,
}
use risk_opportunity_manager.Server.Records.Codes.{
  Code, code_text, no_code, unfinished, canonical_item_code,
}

-- What an operation returns or raises.
pub data Try {ℓ} (A : Type ℓ) : Type ℓ where
  value : A → Try A
  raised : Failure → Try A

infixl 5 ◌>>=◌
abbrev pub ◌>>=◌ {ℓ κ} : {A : Type ℓ} {B : Type κ} → Try A → (A → Try B) → Try B
value a >>= f = f a
raised e >>= f = raised e

abbrev pub bad_request : {A : Type 0} → String → Try A
bad_request detail = raised (http_exception (pos 400) detail)

-- `target` is the item type that the record's parent must have, _target_type.
pub record Parsed : Type 0 where
  pub fields : Fields
  pub target : Option Entity

unfoldable pub drop_key : String → Fields → Fields
drop_key k [] = []
drop_key k ((j, v) ∷ d) = let rest = drop_key k d in if str_eq j k then rest else (j, v) ∷ rest

-- rid or oid
abbrev either : Value → Value → Value
either a b = if truthy a then a else b

abbrev target_of : Value → Value → Option Entity
target_of rid oid = if truthy rid then some risk else if truthy oid then some opportunity else none

abbrev pub is_action : Entity → Bool
is_action action = true
is_action _ = false

-- the parents of an action or an assessment
unfoldable pub parse_parents : Entity → Fields → Try Parsed
unfolding value_of drop_key put
parse_parents e d =
    let rid = value_of "risk_id" d in
    let oid = value_of "opportunity_id" d in
    let rest = drop_key "opportunity_id" (drop_key "risk_id" d) in
    let linked = truthy (value_of "item_id" d) in
    if is_action e && not linked && (if truthy rid then truthy oid else not (truthy oid))
    then bad_request "Validation error: 400: Action must have exactly one of risk_id/opportunity_id"
    else value (record {
      fields = if linked then rest else put "item_id" (either rid oid) rest;
      target = target_of rid oid;
    })

abbrev pub parse_valid : Entity → Fields → Try Parsed
parse_valid action d = parse_parents action d
parse_valid assessment d = parse_parents assessment d
parse_valid helpdesk_ticket d = value (record { fields = d; target = none })
parse_valid e d = value (record {
  fields = if status_is_deleted d then put "is_deleted" (bool true) d else d;
  target = none;
})

abbrev pub conflict_at : {A : Type 0} → Env → List Row → Entity → Reason → Row → Try A
conflict_at env rows e reason r = raised (
    conflict_error reason (some r.id) (some (pos r.version))
      (some (model_to_sync_dict env rows e r)))

-- attributes of the model among the fields of its schema; "id" already has the record's value
abbrev settable : Model → List String
settable items =
    "title" ∷ "probability" ∷ "impact" ∷ "impact_cost" ∷ "impact_time" ∷ "impact_scope"
    ∷ "impact_quality" ∷ "code" ∷ "description" ∷ "category" ∷ "threat" ∷ "triggers"
    ∷ "mitigation_plan" ∷ "document_url" ∷ "owner_user_id" ∷ "status" ∷ "identified_at"
    ∷ "response_at" ∷ "occurred_at" ∷ "is_deleted" ∷ []
settable actions =
    "item_id" ∷ "kind" ∷ "title" ∷ "description" ∷ "status" ∷ "owner_user_id" ∷ "is_deleted" ∷ []
settable assessments = "item_id" ∷ "probability" ∷ "impact" ∷ "notes" ∷ "is_deleted" ∷ []
settable tickets =
    "title" ∷ "description" ∷ "category" ∷ "priority" ∷ "status" ∷ "reporter_email" ∷ "is_deleted"
    ∷ []

unfoldable pub is_listed : String → List String → Bool
is_listed k [] = false
is_listed k (j ∷ ks) = str_eq j k || is_listed k ks

-- _client_fields
unfoldable pub client_fields : Model → Fields → Fields
unfolding select is_listed
client_fields m d = select (λ (kv : String × Value). is_listed kv.0 (settable m)) d

abbrev same_value : Value → Value → Bool
same_value null null = true
same_value (text s) (text t) = str_eq s t
same_value (int a) (int b) = eqb_ℤ a b
same_value _ _ = false

abbrev pub set_column : String → Value → Row → Row
set_column k v r = record r { columns = put k v r.columns }

module _ (env : Env) where
  abbrev occur : Value → ℕ → Row → Row
  occur status now r =
      if same_value status (text "happened")
      then set_column "occurred_at" (text (env.iso_text now)) r
      else r

  -- ItemBaseMixin.change_status
  unfoldable pub change_status : Value → ℕ → Row → Row
  unfolding value_of put
  change_status status now r =
      if same_value (value_of "status" r.columns) status
      then r
      else occur status now (record (set_column "status" status r) { status_changed_at = now })

  abbrev pub mark_status : Model → ℕ → Row → Row
  mark_status items now r = change_status (text "deleted") now r
  mark_status _ now r = r

  -- SyncMixin.soft_delete
  unfoldable pub soft_delete : ℕ → Row → Row
  unfolding change_status put
  soft_delete now r =
      mark_status r.model now (record (set_column "is_deleted" (bool true) r) {
        updated_at = now;
        version = r.version + 1;
      })

abbrev number : Value → Option ℤ
number (int n) = some n
number _ = none

abbrev higher : Option ℤ → Option ℤ → Option ℤ
higher none b = b
higher (some a) none = some a
higher (some a) (some b) = some (max_ℤ a b)

-- max over the impact dimensions that are set
abbrev dimensions : Fields → Option ℤ
dimensions d = higher (number (value_of "impact_cost" d)) (
    higher (number (value_of "impact_time" d))
      (higher (number (value_of "impact_scope" d)) (number (value_of "impact_quality" d))))

abbrev pub has_score : Model → Bool
has_score items = true
has_score assessments = true
has_score _ = false

abbrev with_impact : Option ℤ → Fields → Fields
with_impact none d = d
with_impact (some n) d = put "impact" (int n) d

-- int(v or 1)
abbrev pub or_one : Value → ℤ
or_one (int n) = if eqb_ℤ n (pos 0) then pos 1 else n
or_one _ = pos 1

-- a * b, where the score's range makes both positive
abbrev pub score_of : ℤ → ℤ → ℤ
score_of a b = pos (pos_part a * pos_part b)

-- recalculate_item_scores
unfoldable pub recalculate_item_scores : Row → Row
unfolding value_of put
recalculate_item_scores r =
    let d = with_impact (dimensions r.columns) r.columns in
    if has_score r.model
    then record r {
      columns =
          put "score"
            (int (score_of (or_one (value_of "probability" d)) (or_one (value_of "impact" d)))) d;
    }
    else r

-- target.score in _compute_score, for values in the scale
unfoldable pub compute_score : Row → Row
unfolding value_of put
compute_score r =
    if has_score r.model
    then set_column "score"
        (int (
          score_of (or_one (value_of "probability" r.columns))
            (or_one (value_of "impact" r.columns))))
        r
    else r

-- 1 <= v <= 5, as _validate_scale_1_5 checks
abbrev in_scale : Value → Bool
in_scale (int n) = leb_ℤ (pos 1) n && leb_ℤ n (pos 5)
in_scale _ = false

abbrev pub scales_ok : Row → Bool
scales_ok r =
    not (has_score r.model)
    || (in_scale (value_of "probability" r.columns) && in_scale (value_of "impact" r.columns))
