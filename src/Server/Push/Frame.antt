-- ===== src/Server/Push/Frame.antt =====
-- What a push of sync/engine.py leaves alone.
use risk_opportunity_manager.Prelude.{
  ℕ, ◌≡◌, ◌≢◌, refl, sym, Bool, true, false, ◌||◌, ◌⊎◌, inl, inr, Option, none, some, List, [], ◌∷◌,
  ◌++◌, arith, Bool-cases, ◌∙◌,
}
use risk_opportunity_manager.Protocol.{Entity, Op}
use risk_opportunity_manager.Json.{Fields}
use risk_opportunity_manager.Server.Permissions.{Role, viewer}
use risk_opportunity_manager.Server.Push.{
  Change, Result, ResultStatus, accepted, Backend, Session, PushContext,
}
use risk_opportunity_manager.Server.Push.Engine.{
  process_new_push_change, process_named, push_loop, push_changes, start, is_authorized,
  reject_push_change, requires_manager,
}
use risk_opportunity_manager.Server.Push.Effects.{Effect, IsProcessed, process_new-Processed}
use risk_opportunity_manager.Server.Push.Repeats.{IsTracked}
use risk_opportunity_manager.Server.Push.Idempotence.{start-IsTracked}
use risk_opportunity_manager.Server.Push.Loop.{push_loop_related}
use risk_opportunity_manager.Server.Push.Batch.{noted, repeated}

abbrev pub is_accepted : ResultStatus → Bool
is_accepted accepted = true
is_accepted _ = false

abbrev pub any_accepted : List Result → Bool
any_accepted [] = false
any_accepted (r ∷ rs) = is_accepted r.status || any_accepted rs

any_accepted-snoc :
    (rs : List Result) (r : Result)
    → any_accepted (rs ++ r ∷ []) ≡ (any_accepted rs || is_accepted r.status)
any_accepted-snoc [] r = ground arith
any_accepted-snoc (x ∷ rs) r = ground (arith, any_accepted-snoc rs r)

module _ {D : Type 0} (b : Backend D) where
  -- The records are as they were, or some result is accepted.
  record IsFramed (ctx ctx' : PushContext D) : Type 0 where
    role : ctx'.role ≡ ctx.role
    grows : any_accepted ctx'.results ≡ false → any_accepted ctx.results ≡ false
    records : any_accepted ctx'.results ≡ false → ctx'.session.records ≡ ctx.session.records
    viewers : ctx.role ≡ viewer → ctx'.session.records ≡ ctx.session.records

  unauthorized :
      (ctx : PushContext D) (e : Entity) (op : Op) (d : Fields)
      → ctx.role ≡ viewer
      → is_authorized b ctx e op d ≡ false
  unfolding is_authorized
  unauthorized ctx e op d h = elim (Bool-cases (requires_manager b ctx e op d)) [
    | inl managers ↦ rw (managers, h)
    | inr members ↦ rw (members, h)
  ]

  viewer_rejected :
      (ctx : PushContext D) (c : Change) (e : Option Entity) (op : Option Op)
      → ctx.role ≡ viewer
      → (process_named b ctx c e op).session.records ≡ ctx.session.records
  unfolding reject_push_change
  viewer_rejected ctx c none op h = refl
  viewer_rejected ctx c (some e) none h = refl
  viewer_rejected ctx c (some e) (some op) h = rw (unauthorized ctx e op c.fields h)

  Effect-records :
      (ctx : PushContext D) (c : Change) (ctx' : PushContext D) (r : Result)
      → Effect b ctx c ctx' r
      → is_accepted r.status ≡ false
      → ctx'.session.records ≡ ctx.session.records
  Effect-records ctx c ctx' r (Effect.deferred _ _ same) n = rw same
  Effect-records ctx c ctx' r (Effect.stored q _ _ (inl yes_status)) n = cc (yes_status, n)
  Effect-records ctx c ctx' r (Effect.stored q _ _ (inr same)) n = same

  new-IsFramed :
      (ctx : PushContext D) (c : Change) (ctx' : PushContext D) (r : Result)
      → ctx' ≡ process_new_push_change b (noted b ctx c) c
      → IsProcessed b (noted b ctx c) c ctx' r
      → IsFramed ctx ctx'
  unfolding process_new_push_change
  new-IsFramed ctx c ctx' r e p = record {
    role = p.role;
    grows = λ n. ground (arith, sym (any_accepted-snoc ctx.results r) ∙ (rw p.results at n));
    records = λ n.
        Effect-records (noted b ctx c) c ctx' r p.effect
          (ground (arith, sym (any_accepted-snoc ctx.results r) ∙ (rw p.results at n)));
    viewers = λ v. rw e (viewer_rejected (noted b ctx c) c c.entity c.op v);
  }

  repeat-IsFramed : (ctx : PushContext D) (r : Result) → IsFramed ctx (repeated b ctx r)
  repeat-IsFramed ctx r = record {
    role = refl;
    grows = λ n. ground (arith, sym (any_accepted-snoc ctx.results r) ∙ n);
    records = λ n. refl;
    viewers = λ v. refl;
  }

  loop-IsFramed :
      (ctx : PushContext D) (cs : List Change)
      → IsTracked b ctx
      → (end : PushContext D) × (push_loop b ctx cs ≡ some end) × IsFramed ctx end
  loop-IsFramed ctx cs t =
      push_loop_related b IsFramed
        (λ ctx. record { role = refl; grows = λ n. n; records = λ n. refl; viewers = λ v. refl })
        (λ ctx mid end f g. record {
          role = g.role ∙ f.role;
          grows = λ n. f.grows (g.grows n);
          records = λ n. g.records n ∙ f.records (g.grows n);
          viewers = λ v. g.viewers (f.role ∙ v) ∙ f.viewers v;
        })
        (λ ctx c.
          let (r, p) = process_new-Processed b (noted b ctx c) c in
          new-IsFramed ctx c (process_new_push_change b (noted b ctx c) c) r refl p)
        repeat-IsFramed ctx cs t

  viewer_case :
      (role : Role) (end : PushContext D) (s : Session D)
      → (role ≡ viewer → end.session.records ≡ s.records)
      → (role ≢ viewer) ⊎ (end.session.records ≡ s.records)
  viewer_case viewer end s h = inr (h refl)
  viewer_case Role.member end s h = inl (λ e. cc e)
  viewer_case Role.manager end s h = inl (λ e. cc e)
  viewer_case Role.admin end s h = inl (λ e. cc e)

  -- A push changes the records only if one of its results is accepted; and a push by a viewer never
  -- changes them, whatever it asks for.
  pub push_frame :
      (s : Session D) (u p : ℕ) (role : Role) (cs : List Change)
      → (end : PushContext D) × (push_changes b s u p role cs ≡ some end)
        × ((any_accepted end.results ≡ true) ⊎ (end.session.records ≡ s.records))
        × ((role ≢ viewer) ⊎ (end.session.records ≡ s.records))
  unfolding push_changes
  push_frame s u p role cs =
      let (end, e, f) =
        loop-IsFramed (start b s u p role cs) cs (start-IsTracked b s u p role cs) in
      (
        end,
        e,
        elim (Bool-cases (any_accepted end.results)) [
          | inl some_accepted ↦ inl some_accepted
          | inr none_accepted ↦ inr (f.records none_accepted)
        ],
        viewer_case role end s f.viewers,
      )
