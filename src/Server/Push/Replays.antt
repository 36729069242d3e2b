-- ===== src/Server/Push/Replays.antt =====
-- What a receipt answers: duplicate_error_reason and receipt_result of sync/receipts.py with
-- refresh_accepted_replay of sync/engine.py.
use risk_opportunity_manager.Prelude.{
  ℕ, ◌≡◌, refl, Bool, true, false, not, inl, inr, Option, none, some, arith, Bool-cases, ◌==◌, ◌&&◌,
  ◌⊎◌, ℤ, if◌then◌else◌,
}
use risk_opportunity_manager.Protocol.{Entity}
use risk_opportunity_manager.Json.{Fields}
use risk_opportunity_manager.Server.Push.{
  Change, Receipt, Result, Backend, PushContext, same_hash, Reason, change_id_in_use,
  receipt_unverifiable, change_id_payload_mismatch, ResultStatus, accepted, error, change_result,
  receipt_result, duplicate_error_reason,
}
use risk_opportunity_manager.Server.Push.Engine.{
  refresh_accepted_replay, duplicate_error, replay_of,
}
use risk_opportunity_manager.Server.Push.Repeats.{repeat_result}

module _ {D : Type 0} (b : Backend D) where
  -- the receipt is of this request: the same user, project and payload
  abbrev pub matches : ℕ → ℕ → Change → Receipt → Bool
  matches u p c q =
      q.user_id == u && q.project_id == p && same_hash q.payload_hash (b.payload_hash c)

  -- The entity id that the response names, or else the receipt's.
  unfoldable pub answered_id : Option ℕ → Option ℕ → Option ℕ
  answered_id (some i) i' = some i
  answered_id none i' = i'

  -- A record that the user can still read, with its version.
  abbrev pub readable : Option ℤ × Option Fields → Option (Option ℤ × Fields)
  readable (v, none) = none
  readable (v, some d) = some (v, d)

  -- What the records hold now for an accepted change.
  unfoldable pub current_copy :
      D → ℕ → ℕ → ResultStatus → Option Entity → Option ℕ → Option (Option ℤ × Fields)
  current_copy d p u accepted (some e) (some i) = readable (b.current_server_state d e i p u)
  current_copy _ _ _ _ _ _ = none

  -- The stored result; with a current copy, that copy stands in the place of the stored one.
  unfoldable pub replay_with : Receipt → Option (Option ℤ × Fields) → Result
  unfolding answered_id
  replay_with q none = record {
    change_id = q.change_id;
    status = q.status;
    replayed = true;
    entity = q.entity;
    op = q.op;
    entity_id = answered_id q.response.entity_id q.entity_id;
    body = q.response.body;
    receipt_server_version = none;
  }
  replay_with q (some (v, d)) = record {
    change_id = q.change_id;
    status = q.status;
    replayed = true;
    entity = q.entity;
    op = q.op;
    entity_id = answered_id q.response.entity_id q.entity_id;
    body = record {
      reason = q.response.body.reason;
      detail = q.response.body.detail;
      server_version = v;
      server_record = some d;
      server_updated_at = b.updated_at_text (some d);
      failure_kind = q.response.body.failure_kind;
      retryable = q.response.body.retryable;
    };
    receipt_server_version = q.response.body.server_version;
  }

  unfoldable pub replay_for : D → ℕ → ℕ → Receipt → Result
  unfolding replay_with answered_id current_copy
  replay_for d p u q =
      replay_with q
        (current_copy d p u q.status q.entity (answered_id q.response.entity_id q.entity_id))

  refresh_accepted_replay-replay_for :
      (d : D) (p u : ℕ) (q : Receipt)
      → refresh_accepted_replay b d p u (receipt_result q) ≡ replay_for d p u q
  unfolding refresh_accepted_replay receipt_result change_result replay_for
  refresh_accepted_replay-replay_for d p u q = ground arith

  -- Why a receipt of another request refuses the change: it is of another user or project, it holds
  -- no payload, or it holds another one.
  unfoldable pub refusal_for : ℕ → ℕ → Receipt → Reason
  refusal_for u p q =
      if not (q.user_id == u && q.project_id == p) then change_id_in_use else elim q.payload_hash [
        | none ↦ receipt_unverifiable
        | some hash ↦ change_id_payload_mismatch
      ]

  -- The answer to a change that has a receipt.
  abbrev pub IsAnswer : D → ℕ → ℕ → Change → Receipt → Result → Type 0
  IsAnswer d u p c q r =
      (matches u p c q ≡ true) × (r ≡ replay_for d p u q)
      ⊎ (matches u p c q ≡ false)
        × (r.change_id ≡ c.change_id)
        × (r.status ≡ error)
        × (r.replayed ≡ false)
        × (r.body.reason ≡ some (refusal_for u p q))

  refusal :
      (u p : ℕ) (c : Change) (q : Receipt) (h : Option ℕ)
      → matches u p c q ≡ false
      → duplicate_error_reason (b.payload_hash c) (some q) h u p ≡ some (refusal_for u p q)
  unfolding duplicate_error_reason same_hash refusal_for
  refusal u p c q h n = ground (arith, n)

  unrefused :
      (u p : ℕ) (c : Change) (q : Receipt) (h : Option ℕ)
      → matches u p c q ≡ true
      → duplicate_error_reason (b.payload_hash c) (some q) h u p ≡ none
  unfolding duplicate_error_reason same_hash
  unrefused u p c q h y = ground (arith, y)

  pub answer :
      (ctx : PushContext D) (c : Change) (q : Receipt) (h : Option ℕ) (w : Option Result)
      → (r : Result) × (repeat_result b ctx c
            (duplicate_error_reason (b.payload_hash c) (some q) h ctx.user_id ctx.project_id)
            (replay_of b (some q) w)
          ≡ some r)
        × IsAnswer ctx.session.records ctx.user_id ctx.project_id c q r
  unfolding repeat_result change_result
  answer ctx c q h w = elim (Bool-cases (matches ctx.user_id ctx.project_id c q)) [
    | inl same ↦
        let r =
          refresh_accepted_replay b ctx.session.records ctx.project_id ctx.user_id
            (receipt_result q) in
        (
          r,
          rw (unrefused ctx.user_id ctx.project_id c q h same),
          inl (
            same,
            refresh_accepted_replay-replay_for ctx.session.records ctx.project_id ctx.user_id q,
          ),
        )
    | inr other ↦ (
      duplicate_error b c (refusal_for ctx.user_id ctx.project_id q),
      rw (refusal ctx.user_id ctx.project_id c q h other),
      inr (other, refl, refl, refl, refl),
    )
  ]
