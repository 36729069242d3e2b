-- ===== src/Server/Push/Idempotence.antt =====
-- Pushes and repeated pushes of whole batches: push_changes in sync/engine.py.
use risk_opportunity_manager.Prelude.{
  ℕ, ◌≡◌, refl, sym, subst, true, false, inl, inr, some, List, [], ◌∷◌, ◌++◌, arith, Option-cases,
  find, ◌∙◌, All, find-select, find_in_select,
}
use risk_opportunity_manager.Server.Permissions.{Role}
use risk_opportunity_manager.Server.Push.{
  Change, Receipt, Result, Backend, Session, PushContext, lookup, receipt_for,
  load_existing_receipts, is_requested,
}
use risk_opportunity_manager.Server.Push.Engine.{
  seen, push_change, push_loop, push_changes, start, record_duplicate,
}
use risk_opportunity_manager.Server.Push.Repeats.{IsTracked, repeat_answered, record_duplicate_lem}
use risk_opportunity_manager.Server.Push.Batch.{
  any_retryable, has_receipt, change_ids, result_ids, push_loop-IsRun, IsRun, seen-repeated,
  IsCovered,
}
use risk_opportunity_manager.Server.Push.Replays.{IsAnswer, answer}

All-map {ℓ} :
    {A : Type ℓ} (P Q : A → Type 0) (f : (a : A) → P a → Q a) (xs : List A) → All P xs → All Q xs
All-map P Q f [] h = tt
All-map P Q f (x ∷ xs) h = (f x h.0, All-map P Q f xs h.1)

some_injective {ℓ} : {A : Type ℓ} (a c : A) → some a ≡ some c → a ≡ c
some_injective a c h = cc

-- every receipt of this change is one of those that are loaded for the batch
abbrev IsLoaded : List Change → Change → Type 0
IsLoaded cs c = (r : Receipt) → receipt_for c.change_id r ≡ true → is_requested cs r ≡ true

All-IsLoaded : (cs : List Change) → All (IsLoaded cs) cs
unfolding is_requested
All-IsLoaded [] = tt
All-IsLoaded (c ∷ cs) = (
  λ r h. rw h,
  All-map (IsLoaded cs) (IsLoaded (c ∷ cs)) (λ d h r k. ground (arith, h r k)) cs (All-IsLoaded cs),
)

module _ {D : Type 0} (b : Backend D) where
  pub start-IsTracked :
      (s : Session D) (u p : ℕ) (role : Role) (cs : List Change)
      → IsTracked b (start b s u p role cs)
  unfolding lookup
  start-IsTracked s u p role cs = record { tracked = λ k h. cc; keyed = λ k r h. cc }

  -- A push of any batch ends with one result for each change, in the order of the batch: no lookup
  -- of an earlier result fails.
  pub push_changes_answers :
      (s : Session D) (u p : ℕ) (role : Role) (cs : List Change)
      → (end : PushContext D) × (push_changes b s u p role cs ≡ some end)
        × (result_ids end.results ≡ change_ids cs)
  unfolding push_changes
  push_changes_answers s u p role cs =
      let (end, e, run) =
        push_loop-IsRun b (start b s u p role cs) cs (start-IsTracked s u p role cs) in
      (end, e, run.in_order)

  start_covered :
      (s : Session D) (u p : ℕ) (role : Role) (cs : List Change) (k : ℕ)
      → seen b (start b s u p role cs) k ≡ true
      → has_receipt k s.receipts ≡ true
  unfolding seen lookup load_existing_receipts
  start_covered s u p role cs k h = elim (Option-cases (find (receipt_for k) s.receipts)) [
    | inl absent ↦
        absurd
          (ground (arith, h, find_in_select (receipt_for k) (is_requested cs) s.receipts absent))
    | inr (q, found) ↦ rw found
  ]

  -- A batch whose changes all have receipts repeats them, and leaves the session as it is.
  repeat_loop :
      (ctx : PushContext D) (cs : List Change)
      → IsTracked b ctx
      → All (λ (c : Change). seen b ctx c.change_id ≡ true) cs
      → (end : PushContext D) × (push_loop b ctx cs ≡ some end) × (end.session ≡ ctx.session)
  unfolding push_loop push_change
  repeat_loop ctx [] t h = (ctx, refl, refl)
  repeat_loop ctx (c ∷ cs) t h =
      let (r, e, k) = repeat_answered b ctx c t h.0 in
      let next : PushContext D = record ctx { results = ctx.results ++ r ∷ [] } in
      let (end, e', same) =
        repeat_loop next cs (record { tracked = t.tracked; keyed = t.keyed })
          (All-map _ _ (λ (d : Change) s. seen-repeated b ctx r d.change_id ∙ s) cs h.1) in
      (end, rw (h.0, e, push_loop) e', same)

  start-seen :
      (s : Session D) (u p : ℕ) (role : Role) (cs : List Change) (c : Change)
      → IsLoaded cs c
      → has_receipt c.change_id s.receipts ≡ true
      → seen b (start b s u p role cs) c.change_id ≡ true
  unfolding seen load_existing_receipts
  start-seen s u p role cs c loaded h =
      rw (find-select (receipt_for c.change_id) (is_requested cs) loaded s.receipts, h)

  -- the runs of one batch are one
  IsRun-end :
      (s : Session D) (u p : ℕ) (role : Role) (cs : List Change) (first : PushContext D)
      → push_changes b s u p role cs ≡ some first
      → IsRun b (start b s u p role cs) cs first
  unfolding push_changes
  IsRun-end s u p role cs first h =
      let (end, e, run) =
        push_loop-IsRun b (start b s u p role cs) cs (start-IsTracked s u p role cs) in
      subst (λ x. IsRun b (start b s u p role cs) cs x) (some_injective _ _ (sym e ∙ h)) run

  All-receipts :
      (first : PushContext D) (cs : List Change)
      → IsCovered b first
      → any_retryable first.results ≡ false
      → All (λ (c : Change). seen b first c.change_id ≡ true) cs
      → All (λ (c : Change). has_receipt c.change_id first.session.receipts ≡ true) cs
  All-receipts first cs h n a = All-map _ _ (λ (c : Change) s. h c.change_id s n) cs a

  seen_again :
      (s : Session D) (u p : ℕ) (role : Role) (cs ds : List Change)
      → All (IsLoaded cs) ds
      → All (λ (c : Change). has_receipt c.change_id s.receipts ≡ true) ds
      → All (λ (c : Change). seen b (start b s u p role cs) c.change_id ≡ true) ds
  seen_again s u p role cs [] l h = tt
  seen_again s u p role cs (d ∷ ds) l h =
      (start-seen s u p role cs d l.0 h.0, seen_again s u p role cs ds l.1 h.1)

  -- A push whose answer was lost can be sent again: if no result of the first push was to be
  -- retried, the second push of the batch, by whatever user, ends, and leaves the records and the
  -- receipts as they are.
  pub push_again :
      (s : Session D) (u p u' : ℕ) (role role' : Role) (cs : List Change) (first : PushContext D)
      → push_changes b s u p role cs ≡ some first
      → any_retryable first.results ≡ false
      → (again : PushContext D) × (push_changes b first.session u' p role' cs ≡ some again)
        × (again.session ≡ first.session)
  unfolding push_changes
  push_again s u p u' role role' cs first h n =
      let run = IsRun-end s u p role cs first h in
      repeat_loop (start b first.session u' p role' cs) cs
        (start-IsTracked first.session u' p role' cs)
        (seen_again first.session u' p role' cs cs (All-IsLoaded cs) (
          All-receipts first cs (run.covered (λ k z _. start_covered s u p role cs k z)) n
            run.all_seen))

  duplicate_of :
      (ctx : PushContext D) (c : Change) (q : Receipt)
      → find (receipt_for c.change_id) ctx.existing_receipts ≡ some q
      → (r : Result) × (record_duplicate b ctx c
          ≡ some (record ctx { results = ctx.results ++ r ∷ [] }))
        × IsAnswer b ctx.session.records ctx.user_id ctx.project_id c q r
  duplicate_of ctx c q h =
      let (r, e, a) =
        answer b ctx c q (lookup c.change_id ctx.batch_hashes)
          (lookup c.change_id ctx.batch_results) in
      (r, record_duplicate_lem b ctx c ∙ rw (h, e), a)

  -- A change that comes again, alone, to a server that has a receipt for its id changes nothing. If
  -- the receipt is of the same user, project and payload, the answer is the stored
  -- result, marked as replayed, in which, for an accepted change of a record that the user can still
  -- read, the record and its version are the current ones; otherwise the answer is an error for
  -- the change, with the reason that tells how the receipt differs.
  pub receipt_answers :
      (s : Session D) (u p : ℕ) (role : Role) (c : Change) (q : Receipt)
      → find (receipt_for c.change_id) s.receipts ≡ some q
      → (end : PushContext D) × (r : Result) × (push_changes b s u p role (c ∷ []) ≡ some end)
        × (end.session ≡ s)
        × (end.results ≡ r ∷ [])
        × IsAnswer b s.records u p c q r
  unfolding push_changes push_loop push_change load_existing_receipts
  receipt_answers s u p role c q h =
      let ctx = start b s u p role (c ∷ []) in
      let loaded : IsLoaded (c ∷ []) c = (All-IsLoaded (c ∷ [])).0 in
      let found =
        find-select (receipt_for c.change_id) (is_requested (c ∷ [])) loaded s.receipts ∙ h in
      let (r, e, a) = duplicate_of ctx c q found in
      (
        record ctx { results = r ∷ [] },
        r,
        rw (start-seen s u p role (c ∷ []) c loaded (rw h), e, push_change, push_loop),
        refl,
        refl,
        a,
      )
