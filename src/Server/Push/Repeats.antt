-- ===== src/Server/Push/Repeats.antt =====
-- What a change id that was seen before does: _record_duplicate in sync/engine.py.
use risk_opportunity_manager.Prelude.{
  ℕ, ◌≡◌, refl, true, ◌⊎◌, inl, inr, Option, none, some, [], ◌∷◌, ◌++◌, arith, Bool-cases, find,
  find_passes, ==_iff, ◌∙◌,
}
use risk_opportunity_manager.Server.Push.{
  Change, Reason, Receipt, Result, Backend, PushContext, lookup, is_some, receipt_for,
  receipt_result, duplicate_error_reason, change_result,
}
use risk_opportunity_manager.Server.Push.Engine.{
  refresh_accepted_replay, record_duplicate, replay_of, duplicate_error, seen,
}

module _ {D : Type 0} (b : Backend D) where
  -- The books of the batch: every change that was hashed has a result, under its own id.
  pub record IsTracked (ctx : PushContext D) : Type 0 where
    pub tracked :
        (k : ℕ)
        → is_some (lookup k ctx.batch_hashes) ≡ true
        → is_some (lookup k ctx.batch_results) ≡ true
    pub keyed : (k : ℕ) (r : Result) → lookup k ctx.batch_results ≡ some r → r.change_id ≡ k

  pub refresh-id :
      (d : D) (p u : ℕ) (r : Result) → (refresh_accepted_replay b d p u r).change_id ≡ r.change_id
  unfolding refresh_accepted_replay
  refresh-id d p u r = ground arith

  -- The answer to a repeated change: its error, or the replay of its receipt or earlier result.
  unfoldable pub repeat_result :
      PushContext D → Change → Option Reason → Option Result → Option Result
  repeat_result ctx c (some reason) o = some (duplicate_error b c reason)
  repeat_result ctx c none none = none
  repeat_result ctx c none (some r) =
      some (refresh_accepted_replay b ctx.session.records ctx.project_id ctx.user_id r)

  abbrev pub repeat_of : PushContext D → Change → Option Result
  repeat_of ctx c =
      let receipt = find (receipt_for c.change_id) ctx.existing_receipts in
      repeat_result ctx c
        (duplicate_error_reason (b.payload_hash c) receipt (lookup c.change_id ctx.batch_hashes)
          ctx.user_id ctx.project_id)
        (replay_of b receipt (lookup c.change_id ctx.batch_results))

  abbrev added : PushContext D → Option Result → Option (PushContext D)
  added ctx none = none
  added ctx (some r) = some (record ctx { results = ctx.results ++ r ∷ [] })

  -- A repeated change adds its answer to the results and changes nothing else.
  pub record_duplicate_lem :
      (ctx : PushContext D) (c : Change) → record_duplicate b ctx c ≡ added ctx (repeat_of ctx c)
  unfolding record_duplicate repeat_result
  record_duplicate_lem ctx c = ground arith

  replay-id :
      (ctx : PushContext D) (c : Change) (o : Option Receipt) (w : Option Result)
      → IsTracked ctx
      → find (receipt_for c.change_id) ctx.existing_receipts ≡ o
      → lookup c.change_id ctx.batch_results ≡ w
      → (is_some o ≡ true) ⊎ (is_some w ≡ true)
      → (r : Result) × (replay_of b o w ≡ some r) × (r.change_id ≡ c.change_id)
  unfolding receipt_result change_result
  replay-id ctx c (some q) w t h k s = (
    receipt_result q,
    refl,
    (==_iff q.change_id c.change_id).0
        (find_passes (receipt_for c.change_id) q ctx.existing_receipts h),
  )
  replay-id ctx c none (some r) t h k s =
      (record r { replayed = true }, refl, t.keyed c.change_id r k)
  replay-id ctx c none none t h k s = absurd (ground (arith, s))

  answered :
      (ctx : PushContext D) (c : Change) (m : Option Reason) (o : Option Result) (r : Result)
      → o ≡ some r
      → r.change_id ≡ c.change_id
      → (a : Result) × (repeat_result ctx c m o ≡ some a) × (a.change_id ≡ c.change_id)
  unfolding repeat_result change_result
  answered ctx c (some reason) o r h k = (duplicate_error b c reason, refl, refl)
  answered ctx c none o r h k = (
    refresh_accepted_replay b ctx.session.records ctx.project_id ctx.user_id r,
    rw h,
    refresh-id ctx.session.records ctx.project_id ctx.user_id r ∙ k,
  )

  seen_cases :
      (ctx : PushContext D) (k : ℕ)
      → IsTracked ctx
      → seen b ctx k ≡ true
      → (is_some (find (receipt_for k) ctx.existing_receipts) ≡ true)
        ⊎ (is_some (lookup k ctx.batch_results) ≡ true)
  unfolding seen
  seen_cases ctx k t h = elim (Bool-cases (is_some (find (receipt_for k) ctx.existing_receipts))) [
    | inl receipt ↦ inl receipt
    | inr unseen ↦ inr (t.tracked k (rw unseen at h))
  ]

  -- A change that was seen has an answer under its own id: no lookup of it fails.
  pub repeat_answered :
      (ctx : PushContext D) (c : Change)
      → IsTracked ctx
      → seen b ctx c.change_id ≡ true
      → (r : Result) × (record_duplicate b ctx c
          ≡ some (record ctx { results = ctx.results ++ r ∷ [] }))
        × (r.change_id ≡ c.change_id)
  repeat_answered ctx c t h =
      let receipt = find (receipt_for c.change_id) ctx.existing_receipts in
      let (o, e, k) =
        replay-id ctx c receipt (lookup c.change_id ctx.batch_results) t refl refl
          (seen_cases ctx c.change_id t h) in
      let (r, e', k') =
        answered ctx c
          (duplicate_error_reason (b.payload_hash c) receipt (lookup c.change_id ctx.batch_hashes)
            ctx.user_id ctx.project_id)
          (replay_of b receipt (lookup c.change_id ctx.batch_results)) o e k in
      (r, record_duplicate_lem ctx c ∙ rw e', k')
