-- ===== src/Client/Outbox/Squashed.antt =====
-- What _replace_outbox_entry of sync_outbox_queue.py makes of a queued change and an edit.
use risk_opportunity_manager.Prelude.{
  ℕ, ℤ, pos, ◌≡◌, refl, Bool, true, false, Option, none, some, if◌then◌else◌, arith,
}
use risk_opportunity_manager.Protocol.{Op, FailureKind}
use risk_opportunity_manager.Client.Outbox.{Row, Status, pending, create_may_exist_remotely}
use risk_opportunity_manager.Client.Outbox.Queue.{
  Entry, new_row, squashed_base, refresh_mine, is_conflict_block,
}

-- A change that was never tried, for the entry.
abbrev pub first_try : ℕ → ℕ → Entry → Option ℤ → Row
first_try fresh now x base = record {
  change_id = fresh;
  project_id = x.project_id;
  entity = x.entity;
  op = x.op;
  entity_id = x.entity_id;
  base_version = base;
  fields = x.fields;
  status = pending;
  last_error = "";
  failure_kind = none;
  result = none;
  retry_count = 0;
  next_retry_at = none;
  last_attempt_at = none;
  created_at = now;
}

-- The base of an edit, from the base, the operation and the attempt of the change queued before it:
-- the first base stays, and an upsert without a base that was attempted made version 1.
unfoldable pub first_base : Option ℤ → Op → Option ℕ → Option ℤ
first_base (some b) op attempted = some b
first_base none Op.upsert (some at) = some (pos 1)
first_base none Op.upsert none = none
first_base none Op.delete attempted = none

-- the change that a user must decide about
unfoldable pub is_undecided : Status → Option FailureKind → Bool
is_undecided Status.blocked (some FailureKind.conflict) = true
is_undecided _ _ = false

-- What the queue holds for the entry's record afterwards.
unfoldable pub squashed : ℕ → ℕ → Entry → Option Row → Row
squashed fresh now x none = first_try fresh now x x.base_version
squashed fresh now x (some r) =
    if is_undecided r.status r.failure_kind
    then record {
      change_id = r.change_id;
      project_id = r.project_id;
      entity = r.entity;
      op = x.op;
      entity_id = r.entity_id;
      base_version = r.base_version;
      fields = x.fields;
      status = r.status;
      last_error = r.last_error;
      failure_kind = r.failure_kind;
      result = r.result;
      retry_count = r.retry_count;
      next_retry_at = r.next_retry_at;
      last_attempt_at = r.last_attempt_at;
      created_at = r.created_at;
    }
    else first_try fresh now x (first_base r.base_version r.op r.last_attempt_at)

pub is_conflict_block-eq-is_undecided :
    (r : Row) → is_conflict_block r ≡ is_undecided r.status r.failure_kind
unfolding is_undecided
is_conflict_block-eq-is_undecided r = ground arith

squashed_base-eq-first_base :
    (base : Option ℤ) (r : Row)
    → squashed_base base (some r) ≡ first_base r.base_version r.op r.last_attempt_at
unfolding squashed_base first_base create_may_exist_remotely
squashed_base-eq-first_base base r = ground arith

pub new_row-eq-first_try :
    (fresh now : ℕ) (x : Entry) (base : Option ℤ)
    → new_row fresh now x base ≡ first_try fresh now x base
unfolding new_row
new_row-eq-first_try fresh now x base = refl

-- what the code builds
unfoldable pub coded : ℕ → ℕ → Entry → Option Row → Row
coded fresh now x none = new_row fresh now x x.base_version
coded fresh now x (some r) =
    if is_conflict_block r
    then refresh_mine x r
    else new_row fresh now x (squashed_base x.base_version (some r))

pub coded-eq-squashed :
    (fresh now : ℕ) (x : Entry) (o : Option Row) → coded fresh now x o ≡ squashed fresh now x o
unfolding squashed coded new_row
coded-eq-squashed fresh now x none = new_row-eq-first_try fresh now x x.base_version
coded-eq-squashed fresh now x (some r) =
    rw
      (
        is_conflict_block-eq-is_undecided r,
        squashed_base-eq-first_base x.base_version r,
        new_row-eq-first_try fresh now x (first_base r.base_version r.op r.last_attempt_at),
      )
      refl
