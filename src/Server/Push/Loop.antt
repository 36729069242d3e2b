-- ===== src/Server/Push/Loop.antt =====
-- The loop of push_changes in sync/engine.py, for relations between the contexts before and after.
use risk_opportunity_manager.Prelude.{◌≡◌, refl, inl, inr, some, List, [], ◌∷◌, Bool-cases}
use risk_opportunity_manager.Server.Push.{Change, Result, Backend, PushContext}
use risk_opportunity_manager.Server.Push.Engine.{
  seen, process_new_push_change, push_change, push_loop,
}
use risk_opportunity_manager.Server.Push.Effects.{process_new-Processed}
use risk_opportunity_manager.Server.Push.Repeats.{IsTracked, repeat_answered}
use risk_opportunity_manager.Server.Push.Batch.{noted, repeated, IsTracked-new}

module _ {D : Type 0} (b : Backend D) (R : PushContext D → PushContext D → Type 0)
    (stays : (ctx : PushContext D) → R ctx ctx)
    (joins : (ctx mid end : PushContext D) → R ctx mid → R mid end → R ctx end)
    (new : (ctx : PushContext D) (c : Change) → R ctx (process_new_push_change b (noted b ctx c) c))
    (again : (ctx : PushContext D) (r : Result) → R ctx (repeated b ctx r)) where
  push_change_related :
      (ctx : PushContext D) (c : Change)
      → IsTracked b ctx
      → (next : PushContext D) × (push_change b ctx c ≡ some next) × IsTracked b next × R ctx next
  unfolding push_change
  push_change_related ctx c t = elim (Bool-cases (seen b ctx c.change_id)) [
    | inl before ↦
        let (r, e, _) = repeat_answered b ctx c t before in
        (
          repeated b ctx r,
          rw before e,
          record { tracked = t.tracked; keyed = t.keyed },
          again ctx r,
        )
    | inr first ↦
        let (r, p) = process_new-Processed b (noted b ctx c) c in
        let next = process_new_push_change b (noted b ctx c) c in
        (next, rw first, IsTracked-new b ctx c next r t p, new ctx c)
  ]

  pub push_loop_related :
      (ctx : PushContext D) (cs : List Change)
      → IsTracked b ctx
      → (end : PushContext D) × (push_loop b ctx cs ≡ some end) × R ctx end
  unfolding push_loop
  push_loop_related ctx [] t = (ctx, refl, stays ctx)
  push_loop_related ctx (c ∷ cs) t =
      let (mid, e, t', f) = push_change_related ctx c t in
      let (end, e', g) = push_loop_related mid cs t' in
      (end, rw (e, push_loop) e', joins ctx mid end f g)
