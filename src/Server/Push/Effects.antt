-- ===== src/Server/Push/Effects.antt =====
-- What one change does to the push context, whatever the backend answers.
use risk_opportunity_manager.Prelude.{
  ℕ, ◌≡◌, refl, Bool, true, false, not, ◌⊎◌, inl, inr, Option, none, some, [], ◌∷◌, ◌++◌, String,
  arith, Bool-cases, ℤ,
}
use risk_opportunity_manager.Protocol.{Entity, Op, FailureKind, classify_http_failure}
use risk_opportunity_manager.Json.{Fields}
use risk_opportunity_manager.Server.Push.{
  Change, Reason, accepted, error, Receipt, Result, Failure, conflict_error, http_exception,
  integrity_error, unexpected, Attempt, done, failed, Backend, PushContext,
}
use risk_opportunity_manager.Server.Push.Engine.{
  reject_push_change, accept_change, record_push_conflict, handle_failure, apply_push_change,
  process_new_push_change, process_named, is_authorized,
}

stored_or_retried : (retryable : Bool) → (not retryable ≡ true) ⊎ (retryable ≡ true)
stored_or_retried true = inr refl
stored_or_retried false = inl refl

module _ {D : Type 0} (b : Backend D) where
  -- The receipt that a change leaves for its result.
  pub record IsReceiptOf (ctx : PushContext D) (c : Change) (r : Result) (q : Receipt)
      : Type 0 where
    pub id : q.change_id ≡ c.change_id
    pub user : q.user_id ≡ ctx.user_id
    pub project : q.project_id ≡ ctx.project_id
    pub hash : q.payload_hash ≡ some (b.payload_hash c)
    pub status : q.status ≡ r.status

  pub data Effect (ctx : PushContext D) (c : Change) (ctx' : PushContext D) (r : Result)
      : Type 0 where
    -- nothing is stored, and the client may try again
    deferred :
        r.body.retryable ≡ true
        → r.status ≡ error
        → ctx'.session ≡ ctx.session
        → Effect ctx c ctx' r
    -- a receipt is stored, and the records change only if the change is accepted
    stored :
        (q : Receipt)
        → IsReceiptOf ctx c r q
        → ctx'.session.receipts ≡ ctx.session.receipts ++ q ∷ []
        → (r.status ≡ accepted) ⊎ (ctx'.session.records ≡ ctx.session.records)
        → Effect ctx c ctx' r

  pub record IsProcessed (ctx : PushContext D) (c : Change) (ctx' : PushContext D) (r : Result)
      : Type 0 where
    pub results : ctx'.results ≡ ctx.results ++ r ∷ []
    pub id : r.change_id ≡ c.change_id
    pub batch : ctx'.batch_results ≡ (c.change_id, r) ∷ ctx.batch_results
    pub user : ctx'.user_id ≡ ctx.user_id
    pub project : ctx'.project_id ≡ ctx.project_id
    pub role : ctx'.role ≡ ctx.role
    pub existing : ctx'.existing_receipts ≡ ctx.existing_receipts
    pub hashes : ctx'.batch_hashes ≡ ctx.batch_hashes
    pub effect : Effect ctx c ctx' r

  abbrev pub Processed : PushContext D → Change → PushContext D → Type 0
  Processed ctx c ctx' = (r : Result) × IsProcessed ctx c ctx' r

  pub reject-Processed :
      (ctx : PushContext D) (c : Change) (reason : Reason) (detail : Option String)
      (kind : FailureKind) (retryable store : Bool)
      → (store ≡ true) ⊎ (retryable ≡ true)
      → Processed ctx c (reject_push_change b ctx c reason detail kind retryable store)
  unfolding reject_push_change
  reject-Processed ctx c reason detail kind retryable true h = (
    _,
    record {
      results = refl;
      id = refl;
      batch = refl;
      user = refl;
      project = refl;
      role = refl;
      existing = refl;
      hashes = refl;
      effect =
          Effect.stored _
            (record { id = refl; user = refl; project = refl; hash = refl; status = refl }) refl
            (inr refl);
    },
  )
  reject-Processed ctx c reason detail kind true false h = (
    _,
    record {
      results = refl;
      id = refl;
      batch = refl;
      user = refl;
      project = refl;
      role = refl;
      existing = refl;
      hashes = refl;
      effect = Effect.deferred refl refl refl;
    },
  )
  reject-Processed ctx c reason detail kind false false h = absurd (ground (arith, h))

  conflict-Processed :
      (ctx : PushContext D) (c : Change) (reason : Reason) (i : Option ℕ) (v : Option ℤ)
      (d : Option Fields)
      → Processed ctx c (record_push_conflict b ctx c reason i v d)
  unfolding record_push_conflict
  conflict-Processed ctx c reason i v d = (
    _,
    record {
      results = refl;
      id = refl;
      batch = refl;
      user = refl;
      project = refl;
      role = refl;
      existing = refl;
      hashes = refl;
      effect =
          Effect.stored _
            (record { id = refl; user = refl; project = refl; hash = refl; status = refl }) refl
            (inr refl);
    },
  )

  accept-Processed :
      (ctx : PushContext D) (c : Change) (e : Entity) (i : ℕ) (d : D)
      → Processed ctx c (accept_change b ctx c e i d)
  unfolding accept_change
  accept-Processed ctx c e i d = (
    _,
    record {
      results = refl;
      id = refl;
      batch = refl;
      user = refl;
      project = refl;
      role = refl;
      existing = refl;
      hashes = refl;
      effect =
          Effect.stored _
            (record { id = refl; user = refl; project = refl; hash = refl; status = refl }) refl
            (inl refl);
    },
  )

  failure-Processed :
      (ctx : PushContext D) (c : Change) (f : Failure) → Processed ctx c (handle_failure b ctx c f)
  unfolding handle_failure
  failure-Processed ctx c (conflict_error reason i v d) = conflict-Processed ctx c reason i v d
  failure-Processed ctx c (http_exception status detail) =
      let (kind, retryable) = classify_http_failure status in
      reject-Processed ctx c _ (some detail) kind retryable _ (stored_or_retried retryable)
  failure-Processed ctx c integrity_error = reject-Processed ctx c _ _ _ false true (inl refl)
  failure-Processed ctx c unexpected = reject-Processed ctx c _ _ _ true false (inr refl)

  apply-Processed :
      (ctx : PushContext D) (c : Change) (e : Entity) (op : Op) (a : Attempt D)
      → b.apply ctx.user_id ctx.project_id e op c.base_version c.fields c.change_id
          ctx.session.records
        ≡ a
      → Processed ctx c (apply_push_change b ctx c e op)
  unfolding apply_push_change
  apply-Processed ctx c e op (done i d) h = rw (h, apply_push_change) (accept-Processed ctx c e i d)
  apply-Processed ctx c e op (failed f) h = rw (h, apply_push_change) (failure-Processed ctx c f)

  named-Processed :
      (ctx : PushContext D) (c : Change) (e : Option Entity) (op : Option Op)
      → Processed ctx c (process_named b ctx c e op)
  named-Processed ctx c none op = reject-Processed ctx c _ _ _ false true (inl refl)
  named-Processed ctx c (some e) none = reject-Processed ctx c _ _ _ false true (inl refl)
  named-Processed ctx c (some e) (some op) = elim (Bool-cases (is_authorized b ctx e op c.fields)) [
    | inl yes_role ↦ rw yes_role (apply-Processed ctx c e op _ refl)
    | inr no_role ↦ rw no_role (reject-Processed ctx c _ _ _ false true (inl refl))
  ]

  -- Every new change gets one result under its id; either nothing is stored and it may be retried,
  -- or a receipt with its hash is stored, and only an accepted change changes the records.
  pub process_new-Processed :
      (ctx : PushContext D) (c : Change) → Processed ctx c (process_new_push_change b ctx c)
  unfolding process_new_push_change
  process_new-Processed ctx c = named-Processed ctx c c.entity c.op
