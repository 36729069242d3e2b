-- ===== src/Server/Push.antt =====
-- Push of a batch of changes: server sync/engine.py and sync/receipts.py. What the engine calls to
-- read and write records (sync/mutations.py) is the interface `Backend`.
pub mod Engine
pub mod Effects
pub mod Repeats
pub mod Batch
pub mod Replays
pub mod Idempotence
pub mod Loop
pub mod Frame
pub mod Invariants
mod Tests
use risk_opportunity_manager.Prelude.{
  ℕ, ℤ, pos, ◌+◌, Bool, true, false, ◌&&◌, ◌||◌, not, Option, none, some, List, [], ◌∷◌, ◌++◌, map,
  if◌then◌else◌, ◌==◌, String, find, select,
}
use risk_opportunity_manager.Protocol.{
  Entity, Op, is_scored, is_upsert, FailureKind, validation, permission, conflict, transient,
  classify_http_failure,
}
use risk_opportunity_manager.Json.{Fields, Value, get, truthy}
use risk_opportunity_manager.Server.Permissions.{Role, member, manager, ensure_role_at_least}

-- SyncChange; `none` is an entity that ENTITY_MODELS lacks, or an op that OPS lacks
pub record Change : Type 0 where
  pub change_id : ℕ
  pub entity : Option Entity
  pub op : Option Op
  pub base_version : Option ℤ
  pub fields : Fields

pub data Reason : Type 0 where
  unknown_entity unknown_op insufficient_permissions http_error : Reason
  constraint_violation internal_error : Reason
  base_version_required version_mismatch type_mismatch : Reason
  change_id_in_use receipt_unverifiable change_id_payload_mismatch : Reason

pub data ResultStatus : Type 0 where
  accepted conflicted error : ResultStatus

-- the optional keys of a stored response, _RESULT_KEYS
pub record Body : Type 0 where
  pub reason : Option Reason
  pub detail : Option String
  pub server_version : Option ℤ
  pub server_record : Option Fields
  pub server_updated_at : Option String
  pub failure_kind : Option FailureKind
  pub retryable : Bool

pub record Response : Type 0 where
  pub entity_id : Option ℕ
  pub body : Body

pub record Receipt : Type 0 where
  pub change_id : ℕ
  pub user_id : ℕ
  pub project_id : ℕ
  pub entity : Option Entity
  pub entity_id : Option ℕ
  pub op : Option Op
  pub status : ResultStatus
  pub response : Response
  pub payload_hash : Option ℕ

pub record Result : Type 0 where
  pub change_id : ℕ
  pub status : ResultStatus
  pub replayed : Bool
  pub entity : Option Entity
  pub op : Option Op
  pub entity_id : Option ℕ
  pub body : Body
  pub receipt_server_version : Option ℤ

-- What applying one change raises.
pub data Failure : Type 0 where
  conflict_error : Reason → Option ℕ → Option ℤ → Option Fields → Failure
  http_exception : ℤ → String → Failure
  integrity_error : Failure
  unexpected : Failure

pub data Attempt (D : Type 0) : Type 0 where
  done : ℕ → D → Attempt D
  failed : Failure → Attempt D

-- The records behind the engine. `apply` is _apply_upsert or _apply_delete up to the flush;
-- a failure leaves the records as they were, since it ends in a savepoint.
pub record Backend (D : Type 0) : Type 0 where
  pub apply : ℕ → ℕ → Entity → Op → Option ℤ → Fields → ℕ → D → Attempt D
  pub current_server_state : D → Entity → ℕ → ℕ → ℕ → Option ℤ × Option Fields
  pub is_tombstone : D → Entity → ℕ → ℕ → Bool
  pub maybe_entity_id : Fields → Option ℕ
  pub updated_at_text : Option Fields → Option String
  pub payload_hash : Change → ℕ

pub record Session (D : Type 0) : Type 0 where
  pub records : D
  pub receipts : List Receipt

-- _PushContext; the role is the one of ensure_member
pub record PushContext (D : Type 0) : Type 0 where
  pub session : Session D
  pub user_id : ℕ
  pub project_id : ℕ
  pub role : Role
  pub existing_receipts : List Receipt
  pub results : List Result
  pub batch_results : List (ℕ × Result)
  pub batch_hashes : List (ℕ × ℕ)
  pub wrote : ℕ

-- a dict keyed by change ids
unfoldable pub lookup {ℓ} : {V : Type ℓ} → ℕ → List (ℕ × V) → Option V
lookup k [] = none
lookup k ((j, v) ∷ d) = if j == k then some v else lookup k d

abbrev pub is_some {ℓ} : {A : Type ℓ} → Option A → Bool
is_some none = false
is_some (some a) = true

abbrev pub or_id : Option ℕ → Option ℕ → Option ℕ
or_id none b = b
or_id (some a) b = some a

unfoldable pub change_result :
    ℕ → ResultStatus → Option Entity → Option Op → Option ℕ → Response → Bool → Result
change_result c status entity op entity_id response replayed = record {
  change_id = c;
  status = status;
  replayed = replayed;
  entity = entity;
  op = op;
  entity_id = or_id response.entity_id entity_id;
  body = response.body;
  receipt_server_version = none;
}

unfoldable pub receipt_result : Receipt → Result
unfolding change_result
receipt_result r = change_result r.change_id r.status r.entity r.op r.entity_id r.response true

abbrev pub receipt_for : ℕ → Receipt → Bool
receipt_for c r = r.change_id == c

pub is_requested : List Change → Receipt → Bool
is_requested [] r = false
is_requested (c ∷ cs) r = receipt_for c.change_id r || is_requested cs r

-- SELECT … WHERE change_id IN (…)
unfoldable pub load_existing_receipts : List Receipt → List Change → List Receipt
unfolding is_requested
load_existing_receipts receipts changes = select (is_requested changes) receipts

pub same_hash : Option ℕ → ℕ → Bool
same_hash none h = false
same_hash (some g) h = g == h

-- duplicate_error_reason; `hash` is payload_hash(change)
unfoldable pub duplicate_error_reason : ℕ → Option Receipt → Option ℕ → ℕ → ℕ → Option Reason
unfolding same_hash
duplicate_error_reason hash none batch_hash u p =
    if same_hash batch_hash hash then none else some change_id_payload_mismatch
duplicate_error_reason hash (some r) batch_hash u p =
    if not (r.user_id == u) || not (r.project_id == p)
    then some change_id_in_use
    else if not (is_some r.payload_hash)
    then some receipt_unverifiable
    else if not (same_hash r.payload_hash hash)
    then some change_id_payload_mismatch
    else none

abbrev pub empty_body : Body
empty_body = record {
  reason = none;
  detail = none;
  server_version = none;
  server_record = none;
  server_updated_at = none;
  failure_kind = none;
  retryable = false;
}

abbrev pub failure_body : Reason → Option String → FailureKind → Bool → Body
failure_body reason detail kind retryable = record empty_body {
  reason = some reason;
  detail = detail;
  failure_kind = some kind;
  retryable = retryable;
}

-- ENTITY_REGISTRY[entity]["manager_delete"]
abbrev pub manager_delete : Entity → Bool
manager_delete Entity.assessment = false
manager_delete Entity.helpdesk_ticket = false
manager_delete _ = true

-- bool(record.get(k))
abbrev pub is_true : Option Value → Bool
is_true none = false
is_true (some v) = truthy v

abbrev pub tombstone_at : (ℕ → Bool) → Option ℕ → Bool
tombstone_at is_tombstone none = false
tombstone_at is_tombstone (some i) = is_tombstone i
