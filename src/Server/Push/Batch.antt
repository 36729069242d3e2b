-- ===== src/Server/Push/Batch.antt =====
-- A whole batch: the loop of push_changes in sync/engine.py.
use risk_opportunity_manager.Prelude.{
  ℕ, ◌≡◌, refl, sym, ap, Bool, true, false, ◌||◌, ◌⊎◌, inl, inr, some, List, [], ◌∷◌, ◌++◌, map,
  arith, Bool-cases, find, ◌==◌, ==_refl, ◌∙◌, All,
}
use mathlib.Core.List.{append-nil}
use risk_opportunity_manager.Server.Push.{
  Change, Receipt, Result, Backend, PushContext, lookup, is_some, receipt_for,
}
use risk_opportunity_manager.Server.Push.Engine.{
  seen, process_new_push_change, push_change, push_loop,
}
use risk_opportunity_manager.Server.Push.Effects.{Effect, IsProcessed, process_new-Processed}
use risk_opportunity_manager.Server.Push.Repeats.{IsTracked, repeat_answered}

-- A result that the client may retry.
abbrev pub any_retryable : List Result → Bool
any_retryable [] = false
any_retryable (r ∷ rs) = r.body.retryable || any_retryable rs

any_retryable-snoc :
    (rs : List Result) (r : Result)
    → any_retryable (rs ++ r ∷ []) ≡ (any_retryable rs || r.body.retryable)
any_retryable-snoc [] r = ground arith
any_retryable-snoc (x ∷ rs) r = ground (arith, any_retryable-snoc rs r)

abbrev pub has_receipt : ℕ → List Receipt → Bool
has_receipt k rs = is_some (find (receipt_for k) rs)

has_receipt-snoc :
    (k : ℕ) (rs : List Receipt) (q : Receipt)
    → has_receipt k (rs ++ q ∷ []) ≡ (has_receipt k rs || receipt_for k q)
unfolding find
has_receipt-snoc k [] q = ground arith
has_receipt-snoc k (x ∷ rs) q = ground (arith, has_receipt-snoc k rs q)

abbrev pub change_ids : List Change → List ℕ
change_ids cs = map (λ (c : Change). c.change_id) cs

abbrev pub result_ids : List Result → List ℕ
result_ids rs = map (λ (r : Result). r.change_id) rs

module _ {D : Type 0} (b : Backend D) where
  -- A change that was seen has its receipt, unless some result may be retried.
  abbrev pub IsCovered : PushContext D → Type 0
  IsCovered ctx =
      (k : ℕ)
      → seen b ctx k ≡ true
      → any_retryable ctx.results ≡ false
      → has_receipt k ctx.session.receipts ≡ true

  pub record IsStep (ctx : PushContext D) (c : Change) (ctx' : PushContext D) : Type 0 where
    pub answer : Result
    pub results : ctx'.results ≡ ctx.results ++ answer ∷ []
    pub id : answer.change_id ≡ c.change_id
    pub tracked : IsTracked b ctx'
    pub covered : IsCovered ctx → IsCovered ctx'
    pub seen_self : seen b ctx' c.change_id ≡ true
    pub seen_mono : (k : ℕ) → seen b ctx k ≡ true → seen b ctx' k ≡ true

  abbrev pub noted : PushContext D → Change → PushContext D
  noted ctx c = record ctx { batch_hashes = (c.change_id, b.payload_hash c) ∷ ctx.batch_hashes }

  pub IsTracked-new :
      (ctx : PushContext D) (c : Change) (ctx' : PushContext D) (r : Result)
      → IsTracked b ctx
      → IsProcessed b (noted ctx c) c ctx' r
      → IsTracked b ctx'
  unfolding lookup
  IsTracked-new ctx c ctx' r t p = record {
    tracked = λ k. rw (p.batch, p.hashes) (ground (arith, t.tracked k));
    keyed = λ k x. rw p.batch (ground (arith, t.keyed k x, p.id));
  }

  seen_new :
      (ctx : PushContext D) (c : Change) (ctx' : PushContext D) (r : Result) (k : ℕ)
      → IsProcessed b (noted ctx c) c ctx' r
      → seen b ctx' k ≡ ((c.change_id == k) || seen b ctx k)
  unfolding seen lookup
  seen_new ctx c ctx' r k p = rw (p.existing, p.hashes) (ground arith)

  covered-Effect :
      (ctx : PushContext D) (c : Change) (ctx' : PushContext D) (r : Result) (k : ℕ)
      → Effect b (noted ctx c) c ctx' r
      → (any_retryable ctx.results || r.body.retryable) ≡ false
      → (c.change_id == k) ≡ true ⊎ (has_receipt k ctx.session.receipts ≡ true)
      → has_receipt k ctx'.session.receipts ≡ true
  covered-Effect ctx c ctx' r k (Effect.deferred retry _ _) n h = absurd (ground (arith, n, retry))
  covered-Effect ctx c ctx' r k (Effect.stored q of_change e _) n h =
      rw e (rw (has_receipt-snoc k ctx.session.receipts q) (ground (arith, h, of_change.id)))

  IsCovered-new :
      (ctx : PushContext D) (c : Change) (ctx' : PushContext D) (r : Result)
      → IsProcessed b (noted ctx c) c ctx' r
      → IsCovered ctx
      → IsCovered ctx'
  IsCovered-new ctx c ctx' r p h k s n =
      let quiet = sym (any_retryable-snoc ctx.results r) ∙ (rw p.results at n) in
      let known = sym (seen_new ctx c ctx' r k p) ∙ s in
      covered-Effect ctx c ctx' r k p.effect quiet (elim (Bool-cases (c.change_id == k)) [
        | inl same ↦ inl same
        | inr other ↦ inr (h k (ground (arith, other, known)) (ground (arith, quiet)))
      ])

  new-IsStep :
      (ctx : PushContext D) (c : Change) (ctx' : PushContext D) (r : Result)
      → IsTracked b ctx
      → IsProcessed b (noted ctx c) c ctx' r
      → IsStep ctx c ctx'
  new-IsStep ctx c ctx' r t p = record {
    answer = r;
    results = p.results;
    id = p.id;
    tracked = IsTracked-new ctx c ctx' r t p;
    covered = IsCovered-new ctx c ctx' r p;
    seen_self = seen_new ctx c ctx' r c.change_id p ∙ rw (==_refl c.change_id);
    seen_mono = λ k s. seen_new ctx c ctx' r k p ∙ ground (arith, s);
  }

  abbrev pub repeated : PushContext D → Result → PushContext D
  repeated ctx r = record ctx { results = ctx.results ++ r ∷ [] }

  pub seen-repeated :
      (ctx : PushContext D) (r : Result) (k : ℕ) → seen b (repeated ctx r) k ≡ seen b ctx k
  unfolding seen
  seen-repeated ctx r k = refl

  repeat-IsStep :
      (ctx : PushContext D) (c : Change) (r : Result)
      → IsTracked b ctx
      → seen b ctx c.change_id ≡ true
      → r.change_id ≡ c.change_id
      → IsStep ctx c (repeated ctx r)
  repeat-IsStep ctx c r t s e = record {
    answer = r;
    results = refl;
    id = e;
    tracked = record { tracked = t.tracked; keyed = t.keyed };
    covered = λ h k z n.
        h k (sym (seen-repeated ctx r k) ∙ z)
          (ground (arith, sym (any_retryable-snoc ctx.results r) ∙ n));
    seen_self = seen-repeated ctx r c.change_id ∙ s;
    seen_mono = λ k z. seen-repeated ctx r k ∙ z;
  }

  pub push_change-IsStep :
      (ctx : PushContext D) (c : Change)
      → IsTracked b ctx
      → (ctx' : PushContext D) × (push_change b ctx c ≡ some ctx') × IsStep ctx c ctx'
  unfolding push_change
  push_change-IsStep ctx c t = elim (Bool-cases (seen b ctx c.change_id)) [
    | inl again ↦
        let (r, e, k) = repeat_answered b ctx c t again in
        (repeated ctx r, rw again e, repeat-IsStep ctx c r t again k)
    | inr first ↦
        let (r, p) = process_new-Processed b (noted ctx c) c in
        (
          process_new_push_change b (noted ctx c) c,
          rw first,
          new-IsStep ctx c (process_new_push_change b (noted ctx c) c) r t p,
        )
  ]

  -- What the loop has done when it is through the changes.
  pub record IsRun (ctx : PushContext D) (cs : List Change) (end : PushContext D) : Type 0 where
    pub in_order : result_ids end.results ≡ result_ids ctx.results ++ change_ids cs
    pub tracked : IsTracked b end
    pub covered : IsCovered ctx → IsCovered end
    pub all_seen : All (λ (c : Change). seen b end c.change_id ≡ true) cs
    pub seen_mono : (k : ℕ) → seen b ctx k ≡ true → seen b end k ≡ true

  join_order :
      (xs : List Result) (r : Result) (c : Change) (cs : List Change)
      → r.change_id ≡ c.change_id
      → result_ids (xs ++ r ∷ []) ++ change_ids cs ≡ result_ids xs ++ change_ids (c ∷ cs)
  join_order [] r c cs h = ap (λ (i : ℕ). i ∷ change_ids cs) h
  join_order (x ∷ xs) r c cs h = ap (λ (l : List ℕ). x.change_id ∷ l) (join_order xs r c cs h)

  pub push_loop-IsRun :
      (ctx : PushContext D) (cs : List Change)
      → IsTracked b ctx
      → (end : PushContext D) × (push_loop b ctx cs ≡ some end) × IsRun ctx cs end
  unfolding push_loop
  push_loop-IsRun ctx [] t = (
    ctx,
    refl,
    record {
      in_order = sym (append-nil (result_ids ctx.results));
      tracked = t;
      covered = λ h. h;
      all_seen = tt;
      seen_mono = λ k z. z;
    },
  )
  push_loop-IsRun ctx (c ∷ cs) t =
      let (mid, e, st) = push_change-IsStep ctx c t in
      let (end, e', run) = push_loop-IsRun mid cs st.tracked in
      (
        end,
        rw (e, push_loop) e',
        record {
          in_order = run.in_order ∙ rw st.results (join_order ctx.results st.answer c cs st.id);
          tracked = run.tracked;
          covered = λ h. run.covered (st.covered h);
          all_seen = (run.seen_mono c.change_id st.seen_self, run.all_seen);
          seen_mono = λ k z. run.seen_mono k (st.seen_mono k z);
        },
      )
