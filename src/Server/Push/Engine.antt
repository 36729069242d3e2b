-- ===== src/Server/Push/Engine.antt =====
-- The push engine over a backend: the handlers of sync/engine.py, each as a function of the push
-- context. `_reject_push_change` and `_record_push_conflict` write their receipts here.
use risk_opportunity_manager.Prelude.{
  ℕ, ℤ, ◌+◌, Bool, true, false, ◌&&◌, ◌||◌, not, Option, none, some, List, [], ◌∷◌, ◌++◌,
  if◌then◌else◌, String, find,
}
use risk_opportunity_manager.Protocol.{
  Entity, Op, is_scored, is_upsert, FailureKind, validation, permission, conflict, transient,
  classify_http_failure,
}
use risk_opportunity_manager.Text.{reads_as}
use risk_opportunity_manager.Json.{Fields, Value, get}
use risk_opportunity_manager.Server.Permissions.{Role, member, manager, ensure_role_at_least}
use risk_opportunity_manager.Server.Push.{
  Change, Reason, unknown_entity, unknown_op, insufficient_permissions, http_error,
  constraint_violation, internal_error, ResultStatus, accepted, conflicted, error, Response,
  Receipt, Result, Failure, conflict_error, http_exception, integrity_error, unexpected, done,
  failed, Backend, Session, PushContext, lookup, is_some, change_result, receipt_result,
  receipt_for, load_existing_receipts, duplicate_error_reason, empty_body, failure_body,
  manager_delete, is_true, tombstone_at,
}

-- str(record.get("status") or "").lower().strip() == "deleted"
unfoldable pub status_is_deleted : Fields → Bool
unfolding get reads_as
status_is_deleted d = elim (get "status" d) [
  | some (Value.text s) ↦ reads_as s "deleted"
  | _ ↦ false
]

-- Receipts are keyed by the change id; the primary key refuses a second one.
unfoldable pub store_receipt :
    Change → ℕ → ℕ → ℕ → Option ℕ → ResultStatus → Response → List Receipt → List Receipt
store_receipt c hash u p entity_id status response receipts =
    receipts
    ++ record {
      change_id = c.change_id;
      user_id = u;
      project_id = p;
      entity = c.entity;
      entity_id = entity_id;
      op = c.op;
      status = status;
      response = response;
      payload_hash = some hash;
    }
      ∷ []

module _ {D : Type 0} (b : Backend D) where
  -- _PushContext.seen
  unfoldable pub seen : PushContext D → ℕ → Bool
  unfolding lookup
  seen ctx c =
      is_some (find (receipt_for c) ctx.existing_receipts) || is_some (lookup c ctx.batch_hashes)

  -- _PushContext.record; flushing and expunging the session changes nothing that is read
  unfoldable pub record_result : PushContext D → Result → Bool → PushContext D
  record_result ctx result persisted = record ctx {
    results = ctx.results ++ result ∷ [];
    batch_results = (result.change_id, result) ∷ ctx.batch_results;
    wrote = if persisted then ctx.wrote + 1 else ctx.wrote;
  }

  abbrev add_receipt :
      PushContext D → Change → Option ℕ → ResultStatus → Response → Session D → Session D
  add_receipt ctx c entity_id status response s = record s {
    receipts =
        store_receipt c (b.payload_hash c) ctx.user_id ctx.project_id entity_id status response
          s.receipts;
  }

  -- refresh_accepted_replay, for a record that is still readable
  abbrev refreshed : Option ℤ × Option Fields → Result → Result
  refreshed (v, none) r = r
  refreshed (v, some d) r = record r {
    receipt_server_version = r.body.server_version;
    body = record (r.body) {
      server_version = v;
      server_record = some d;
      server_updated_at = b.updated_at_text (some d);
    };
  }

  abbrev refresh_entity : D → ℕ → ℕ → Option Entity → Option ℕ → Result → Result
  refresh_entity d p u none i r = r
  refresh_entity d p u (some e) none r = r
  refresh_entity d p u (some e) (some i) r = refreshed (b.current_server_state d e i p u) r

  abbrev is_accepted : ResultStatus → Bool
  is_accepted accepted = true
  is_accepted _ = false

  unfoldable pub refresh_accepted_replay : D → ℕ → ℕ → Result → Result
  refresh_accepted_replay d p u r =
      if is_accepted r.status then refresh_entity d p u r.entity r.entity_id r else r

  abbrev pub add_outcome : PushContext D → Result → PushContext D
  add_outcome ctx r = record ctx { results = ctx.results ++ r ∷ [] }

  -- the replay of a receipt, or of an earlier result of this batch; `none` is a KeyError
  abbrev pub replay_of : Option Receipt → Option Result → Option Result
  replay_of (some r) o = some (receipt_result r)
  replay_of none none = none
  replay_of none (some o) = some (record o { replayed = true })

  -- the result for a repeated change id that must not replay
  abbrev pub duplicate_error : Change → Reason → Result
  duplicate_error c reason =
      change_result c.change_id error c.entity c.op (b.maybe_entity_id c.fields)
        (record { entity_id = none; body = failure_body reason none validation false }) false

  -- _record_duplicate; `none` is a KeyError
  unfoldable pub record_duplicate : PushContext D → Change → Option (PushContext D)
  unfolding duplicate_error_reason refresh_accepted_replay lookup receipt_result change_result
  record_duplicate ctx c =
      let receipt = find (receipt_for c.change_id) ctx.existing_receipts in
      elim (duplicate_error_reason (b.payload_hash c) receipt (lookup c.change_id ctx.batch_hashes)
        ctx.user_id ctx.project_id) [
          | some reason ↦ some (add_outcome ctx (duplicate_error c reason))
          | none ↦ elim (replay_of receipt (lookup c.change_id ctx.batch_results)) [
            | none ↦ none
            | some r ↦ some (
                add_outcome ctx
                  (refresh_accepted_replay ctx.session.records ctx.project_id ctx.user_id r))
          ]
        ]

  -- _reject_push_change
  unfoldable pub reject_push_change :
      PushContext D → Change → Reason → Option String → FailureKind → Bool → Bool → PushContext D
  unfolding change_result record_result store_receipt
  reject_push_change ctx c reason detail kind retryable store =
      let entity_id = b.maybe_entity_id c.fields in
      let response : Response = record {
        entity_id = none;
        body = failure_body reason detail kind retryable;
      } in
      let session =
        if store then add_receipt ctx c entity_id error response ctx.session else ctx.session in
      record_result (record ctx { session = session })
        (change_result c.change_id error c.entity c.op entity_id response false) store

  -- _requires_manager
  unfoldable pub requires_manager : PushContext D → Entity → Op → Fields → Bool
  unfolding status_is_deleted get
  requires_manager ctx e op d =
      if not (manager_delete e)
      then false
      else if not (is_upsert op)
      then true
      else if is_scored e && status_is_deleted d
      then true
      else if is_true (get "is_deleted" d)
      then true
      else if not (is_some (get "is_deleted" d))
      then false
      else tombstone_at (λ i. b.is_tombstone ctx.session.records e i ctx.project_id)
          (b.maybe_entity_id d)

  -- the test of _authorize_push_change
  unfoldable pub is_authorized : PushContext D → Entity → Op → Fields → Bool
  unfolding requires_manager ensure_role_at_least
  is_authorized ctx e op d =
      ensure_role_at_least (some ctx.role)
        (some (if requires_manager ctx e op d then manager else member))

  -- the accepting part of _apply_push_change, after the mutation is flushed
  unfoldable pub accept_change : PushContext D → Change → Entity → ℕ → D → PushContext D
  unfolding change_result record_result store_receipt
  accept_change ctx c e i d =
      let (v, r) = b.current_server_state d e i ctx.project_id ctx.user_id in
      let response : Response = record {
        entity_id = some i;
        body = record empty_body {
          server_version = v;
          server_record = r;
          server_updated_at = b.updated_at_text r;
        };
      } in
      let session : Session D = record (ctx.session) { records = d } in
      record_result (record ctx { session = add_receipt ctx c (some i) accepted response session })
        (change_result c.change_id accepted c.entity c.op (some i) response false) true

  -- _record_push_conflict
  unfoldable pub record_push_conflict :
      PushContext D → Change → Reason → Option ℕ → Option ℤ → Option Fields → PushContext D
  unfolding change_result record_result store_receipt
  record_push_conflict ctx c reason i v r =
      let response : Response = record {
        entity_id = none;
        body = record {
          reason = some reason;
          detail = none;
          server_version = v;
          server_record = r;
          server_updated_at = b.updated_at_text r;
          failure_kind = some conflict;
          retryable = false;
        };
      } in
      record_result (record ctx { session = add_receipt ctx c i conflicted response ctx.session })
        (change_result c.change_id conflicted c.entity c.op i response false) true

  -- the except clauses of _process_new_push_change
  unfoldable pub handle_failure : PushContext D → Change → Failure → PushContext D
  unfolding record_push_conflict reject_push_change classify_http_failure
  handle_failure ctx c (conflict_error reason i v r) = record_push_conflict ctx c reason i v r
  handle_failure ctx c (http_exception status detail) =
      let (kind, retryable) = classify_http_failure status in
      reject_push_change ctx c http_error (some detail) kind retryable (not retryable)
  handle_failure ctx c integrity_error =
      reject_push_change ctx c constraint_violation (some "Change violates a database constraint")
        validation false true
  handle_failure ctx c unexpected =
      reject_push_change ctx c internal_error none transient true false

  unfoldable pub apply_push_change : PushContext D → Change → Entity → Op → PushContext D
  unfolding accept_change handle_failure
  apply_push_change ctx c e op =
      elim (b.apply ctx.user_id ctx.project_id e op c.base_version c.fields c.change_id
        ctx.session.records) [
          | done i d ↦ accept_change ctx c e i d
          | failed f ↦ handle_failure ctx c f
        ]

  abbrev pub process_named : PushContext D → Change → Option Entity → Option Op → PushContext D
  process_named ctx c none o = reject_push_change ctx c unknown_entity none validation false true
  process_named ctx c (some e) none = reject_push_change ctx c unknown_op none validation false true
  process_named ctx c (some e) (some op) =
      if is_authorized ctx e op c.fields
      then apply_push_change ctx c e op
      else reject_push_change ctx c insufficient_permissions none permission false true

  -- _process_new_push_change
  unfoldable pub process_new_push_change : PushContext D → Change → PushContext D
  unfolding apply_push_change reject_push_change is_authorized
  process_new_push_change ctx c = process_named ctx c c.entity c.op

  -- one round of the loop of push_changes; `none` is a KeyError
  unfoldable pub push_change : PushContext D → Change → Option (PushContext D)
  unfolding seen record_duplicate process_new_push_change
  push_change ctx c =
      if seen ctx c.change_id
      then record_duplicate ctx c
      else some (
          process_new_push_change
            (record ctx { batch_hashes = (c.change_id, b.payload_hash c) ∷ ctx.batch_hashes }) c)

  unfoldable pub push_loop : PushContext D → List Change → Option (PushContext D)
  unfolding push_change
  push_loop ctx [] = some ctx
  push_loop ctx (c ∷ cs) = elim (push_change ctx c) [ none ↦ none | some next ↦ push_loop next cs ]

  -- the context that push_changes builds before its loop
  abbrev pub start : Session D → ℕ → ℕ → Role → List Change → PushContext D
  start s u p role changes = record {
    session = s;
    user_id = u;
    project_id = p;
    role = role;
    existing_receipts = load_existing_receipts s.receipts changes;
    results = [];
    batch_results = [];
    batch_hashes = [];
    wrote = 0;
  }

  -- push_changes for a member of a project that has its sync state, up to the commit
  unfoldable pub push_changes : Session D → ℕ → ℕ → Role → List Change → Option (PushContext D)
  unfolding push_loop load_existing_receipts
  push_changes s u p role changes = push_loop (start s u p role changes) changes
