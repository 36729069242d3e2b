-- ===== src/Server/Push/Invariants.antt =====
-- Invariants of the records that a push of sync/engine.py keeps.
use risk_opportunity_manager.Prelude.{
  ℕ, ℤ, ◌≡◌, refl, sym, subst, Bool, true, false, not, ◌⊎◌, inl, inr, Option, none, some, List,
  Bool-cases, String,
}
use risk_opportunity_manager.Protocol.{Entity, Op, FailureKind, classify_http_failure}
use risk_opportunity_manager.Json.{Fields}
use risk_opportunity_manager.Server.Permissions.{Role}
use risk_opportunity_manager.Server.Push.{
  Change, Reason, http_error, Failure, conflict_error, http_exception, integrity_error, unexpected,
  Attempt, done, failed, Backend, Session, PushContext,
}
use risk_opportunity_manager.Server.Push.Engine.{
  process_new_push_change, process_named, push_changes, start, is_authorized, reject_push_change,
  apply_push_change, handle_failure, accept_change, record_push_conflict,
}
use risk_opportunity_manager.Server.Push.Idempotence.{start-IsTracked}
use risk_opportunity_manager.Server.Push.Loop.{push_loop_related}
use risk_opportunity_manager.Server.Push.Batch.{noted}

pub Attempt-cases :
    {D : Type 0} (a : Attempt D)
    → ((i : ℕ) × (d : D) × (a ≡ done i d)) ⊎ ((f : Failure) × (a ≡ failed f))
Attempt-cases (done i d) = inl (i, d, refl)
Attempt-cases (failed f) = inr (f, refl)

module _ {D : Type 0} (b : Backend D) where
  rejected_records :
      (ctx : PushContext D) (c : Change) (reason : Reason) (detail : Option String)
      (kind : FailureKind) (retryable store : Bool)
      → (reject_push_change b ctx c reason detail kind retryable store).session.records
        ≡ ctx.session.records
  unfolding reject_push_change
  rejected_records ctx c reason detail kind retryable true = refl
  rejected_records ctx c reason detail kind retryable false = refl

  failed_records :
      (ctx : PushContext D) (c : Change) (f : Failure)
      → (handle_failure b ctx c f).session.records ≡ ctx.session.records
  unfolding handle_failure reject_push_change record_push_conflict
  failed_records ctx c (conflict_error reason i v r) = refl
  failed_records ctx c (http_exception status detail) =
      let answer = classify_http_failure status in
      rejected_records ctx c http_error (some detail) answer.0 answer.1 (not answer.1)
  failed_records ctx c integrity_error = refl
  failed_records ctx c unexpected = refl

  -- A property of the records that every successful mutation keeps.
  abbrev pub IsInvariant : (D → Type 0) → Type 0
  IsInvariant Inv =
      (u p : ℕ) (e : Entity) (op : Op) (base : Option ℤ) (fields : Fields) (c : ℕ) (d : D) (i : ℕ)
      (d' : D)
      → Inv d
      → b.apply u p e op base fields c d ≡ done i d'
      → Inv d'

  abbrev IsKept : (D → Type 0) → PushContext D → PushContext D → Type 0
  IsKept Inv ctx ctx' = Inv ctx.session.records → Inv ctx'.session.records

  new-IsKept :
      (Inv : D → Type 0)
      → IsInvariant Inv
      → (ctx : PushContext D) (c : Change) (e : Option Entity) (op : Option Op)
      → IsKept Inv ctx (process_named b ctx c e op)
  unfolding apply_push_change accept_change reject_push_change
  new-IsKept Inv kept ctx c none op inv = inv
  new-IsKept Inv kept ctx c (some e) none inv = inv
  new-IsKept Inv kept ctx c (some e) (some op) inv =
      elim (Bool-cases (is_authorized b ctx e op c.fields)) [
        | inr forbidden ↦ rw forbidden inv
        | inl allowed ↦
            elim (Attempt-cases (
              b.apply ctx.user_id ctx.project_id e op c.base_version c.fields c.change_id
                ctx.session.records)) [
                  | inl (i, d, e') ↦
                      rw (allowed, apply_push_change, e')
                        (kept ctx.user_id ctx.project_id e op c.base_version c.fields c.change_id
                          ctx.session.records i d inv e')
                  | inr (f, e') ↦
                      rw (allowed, apply_push_change, e')
                        (subst Inv (sym (failed_records ctx c f)) inv)
                ]
      ]

  -- An invariant of the records that every successful mutation keeps is kept by every push: the push
  -- returns, and if the invariant held before the push, then it holds after it.
  pub push_keeps :
      (Inv : D → Type 0)
      → IsInvariant Inv
      → (s : Session D) (u p : ℕ) (role : Role) (cs : List Change) → Inv s.records
      → (end : PushContext D) × (push_changes b s u p role cs ≡ some end) × Inv end.session.records
  unfolding push_changes process_new_push_change
  push_keeps Inv kept s u p role cs inv =
      let (end, e, keeps) =
        push_loop_related b (IsKept Inv) (λ ctx h. h) (λ ctx mid end f g h. g (f h))
          (λ ctx c h. new-IsKept Inv kept (noted b ctx c) c c.entity c.op h) (λ ctx r h. h)
          (start b s u p role cs) cs (start-IsTracked b s u p role cs) in
      (end, e, keeps inv)
