-- ===== src/Client/Outbox.antt =====
-- The outbox table and its queries: client adapters/local_storage/sync_outbox_queue.py.
-- A table is the list of its rows by rowid. Ids are only compared, so they are numbers; times are
-- numbers of microseconds, which isoformat text orders alike; an empty text column is `none`.
pub mod Queue
pub mod Retry
pub mod Acknowledge
pub mod Kept
pub mod Acknowledged
pub mod Unique
pub mod Squashed
pub mod View
pub mod Deletes
pub mod Schedule
pub mod Backoff
pub mod Steps
mod AcknowledgeTests
mod Tests
use risk_opportunity_manager.Prelude.{
  ℕ, ℤ, Bool, true, false, ◌&&◌, Option, none, some, List, [], ◌∷◌, if◌then◌else◌, ◌==◌, ltb, leb,
  max_ℤ, min_ℤ, pos, pos_part, select, count, take, String, order_by, not, ◌||◌,
}
use risk_opportunity_manager.Protocol.{Entity, same_entity, Op, is_upsert, FailureKind, conflict}
use risk_opportunity_manager.Json.{Fields}

pub data Status : Type 0 where
  pending retry blocked : Status

-- A push result or a saved failure, as decoded from JSON; `none` is a key that is missing or null.
pub record Outcome : Type 0 where
  pub reason : Option String
  pub message : Option String
  pub detail : Option String
  pub failure_kind : Option FailureKind
  pub server_version : Option ℤ
  pub server_record : Option Fields
  pub server_updated_at : Option String

pub record Row : Type 0 where
  pub change_id : ℕ
  pub project_id : ℕ
  pub entity : Entity
  pub op : Op
  pub entity_id : ℕ
  pub base_version : Option ℤ
  pub fields : Fields
  pub status : Status
  pub last_error : String
  pub failure_kind : Option FailureKind
  pub result : Option Outcome
  pub retry_count : ℕ
  pub next_retry_at : Option ℕ
  pub last_attempt_at : Option ℕ
  pub created_at : ℕ

abbrev pub Table : Type 0
Table = List Row

abbrev pub is_pending : Status → Bool
is_pending pending = true
is_pending _ = false

abbrev pub is_retry : Status → Bool
is_retry retry = true
is_retry _ = false

abbrev pub is_blocked : Status → Bool
is_blocked blocked = true
is_blocked _ = false

abbrev pub is_conflict : Option FailureKind → Bool
is_conflict (some conflict) = true
is_conflict _ = false

abbrev pub is_some {ℓ} : {A : Type ℓ} → Option A → Bool
is_some none = false
is_some (some a) = true

-- change_id=?
abbrev pub has_id : ℕ → Row → Bool
has_id c r = r.change_id == c

-- status IN _OPEN_STATUSES
abbrev pub is_open : Status → Bool
is_open s = is_pending s || is_retry s || is_blocked s

-- project_id=? AND entity=? AND entity_id=?
abbrev pub is_for : ℕ → Entity → ℕ → Row → Bool
is_for p e i r = r.project_id == p && same_entity r.entity e && r.entity_id == i

-- … AND status IN (pending, retry, blocked)
abbrev pub is_open_for : ℕ → Entity → ℕ → Row → Bool
is_open_for p e i r = is_for p e i r && is_open r.status

-- if project_id: … AND project_id=?
abbrev pub in_project : Option ℕ → Row → Bool
in_project none r = true
in_project (some p) r = r.project_id == p

unfoldable pub pending_count : Option ℕ → Table → ℕ
pending_count p = count (λ r. (is_pending r.status || is_retry r.status) && in_project p r)

unfoldable pub deferred_count : Option ℕ → Table → ℕ
deferred_count p = count (λ r. is_retry r.status && in_project p r)

unfoldable pub blocked_count : Option ℕ → Table → ℕ
blocked_count p = count (λ r. is_blocked r.status && in_project p r)

unfoldable pub conflict_count : Option ℕ → Table → ℕ
conflict_count p = count (λ r. is_blocked r.status && is_conflict r.failure_kind && in_project p r)

unfoldable pub error_count : Option ℕ → Table → ℕ
error_count p =
    count (λ r. is_blocked r.status && not (is_conflict r.failure_kind) && in_project p r)

-- ORDER BY created_at ASC LIMIT 1
unfoldable pub oldest : Table → Option Row
oldest [] = none
oldest (x ∷ xs) = elim (oldest xs) [
  | none ↦ some x
  | some y ↦ if ltb y.created_at x.created_at then some y else some x
]

unfoldable pub oldest_open_entry : ℕ → Entity → ℕ → Table → Option Row
unfolding oldest
oldest_open_entry p e i rows = oldest (select (is_open_for p e i) rows)

-- A sent create whose response was lost may already be version 1 remotely.
unfoldable pub create_may_exist_remotely : Option Row → Bool
create_may_exist_remotely none = false
create_may_exist_remotely (some r) =
    is_upsert r.op && (is_some r.base_version || is_some r.last_attempt_at)

unfoldable pub remote_create_may_exist : ℕ → Entity → ℕ → Table → Bool
unfolding create_may_exist_remotely
remote_create_may_exist p e i rows = create_may_exist_remotely (oldest_open_entry p e i rows)

-- max(1, min(int(limit), 1000))
unfoldable pub clamp_limit : ℤ → ℕ
clamp_limit limit = pos_part (max_ℤ (pos 1) (min_ℤ limit (pos 1000)))

-- next_retry_at='' OR next_retry_at<=?
abbrev pub is_due : Option ℕ → ℕ → Bool
is_due none now = true
is_due (some t) now = leb t now

abbrev pub is_ready : ℕ → ℕ → Row → Bool
is_ready p now r =
    r.project_id == p && (is_pending r.status || (is_retry r.status && is_due r.next_retry_at now))

-- ORDER BY created_at ASC
unfoldable pub order_by_age : Table → Table
unfolding order_by
order_by_age = order_by (λ (r : Row). r.created_at)

unfoldable pub get_pending_changes : ℕ → ℤ → ℕ → Table → Table
unfolding order_by_age clamp_limit
get_pending_changes p limit now rows =
    take (clamp_limit limit) (order_by_age (select (is_ready p now) rows))

unfoldable pub get_blocked_changes : Option ℕ → ℤ → Table → Table
unfolding order_by_age clamp_limit
get_blocked_changes p limit rows =
    take (clamp_limit limit)
      (order_by_age (select (λ r. in_project p r && is_blocked r.status) rows))

earlier : Option ℕ → Option ℕ → Option ℕ
earlier none b = b
earlier (some a) none = some a
earlier (some a) (some b) = if leb a b then some a else some b

-- SELECT MIN(next_retry_at) … WHERE status=retry AND next_retry_at<>''
unfoldable pub next_retry_at : Option ℕ → Table → Option ℕ
unfolding earlier
next_retry_at p [] = none
next_retry_at p (r ∷ rows) =
    let rest = next_retry_at p rows in
    if is_retry r.status && in_project p r then earlier r.next_retry_at rest else rest
