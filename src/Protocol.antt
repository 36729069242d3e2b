-- ===== src/Protocol.antt =====
-- Names and rules of the sync protocol: client domain/sync_protocol.py, and their counterparts on
-- the server, sync/engine.py and sync/registry.py.
pub mod Laws
mod Tests
use risk_opportunity_manager.Prelude.{
  ℕ, ℤ, pos, Bool, true, false, Option, none, some, if◌then◌else◌, ◌==◌, ◌||◌, eqb_ℤ, leb_ℤ,
}

-- the keys of ENTITY_REGISTRY
pub data Entity : Type 0 where
  risk opportunity action assessment helpdesk_ticket : Entity

abbrev pub entity_tag : Entity → ℕ
entity_tag risk = 0
entity_tag opportunity = 1
entity_tag action = 2
entity_tag assessment = 3
entity_tag helpdesk_ticket = 4

abbrev pub same_entity : Entity → Entity → Bool
same_entity a b = entity_tag a == entity_tag b

-- entity in {"risk", "opportunity"}
abbrev pub is_scored : Entity → Bool
is_scored risk = true
is_scored opportunity = true
is_scored _ = false

pub data Op : Type 0 where
  upsert delete : Op

abbrev pub is_upsert : Op → Bool
is_upsert upsert = true
is_upsert delete = false

pub data SyncState : Type 0 where
  complete cancelled retry_wait attention_required authentication_required : SyncState
  permission_denied : SyncState

pub data FailureKind : Type 0 where
  transient authentication permission validation conflict error : FailureKind

-- client: classify_http_status
unfoldable pub classify_http_status : ℤ → FailureKind × Bool
classify_http_status status =
    if eqb_ℤ status (pos 401)
    then (authentication, false)
    else if eqb_ℤ status (pos 403)
    then (permission, false)
    else if eqb_ℤ status (pos 0)
        || eqb_ℤ status (pos 408)
        || eqb_ℤ status (pos 425)
        || eqb_ℤ status (pos 429)
        || leb_ℤ (pos 500) status
    then (transient, true)
    else (validation, false)

-- server: classify_http_failure
unfoldable pub classify_http_failure : ℤ → FailureKind × Bool
classify_http_failure status =
    if eqb_ℤ status (pos 401)
    then (authentication, false)
    else if eqb_ℤ status (pos 403)
    then (permission, false)
    else if eqb_ℤ status (pos 408)
        || eqb_ℤ status (pos 425)
        || eqb_ℤ status (pos 429)
        || leb_ℤ (pos 500) status
    then (transient, true)
    else (validation, false)

unfoldable pub sync_state_for_failure : FailureKind → SyncState
sync_state_for_failure transient = retry_wait
sync_state_for_failure authentication = authentication_required
sync_state_for_failure permission = permission_denied
sync_state_for_failure _ = attention_required
