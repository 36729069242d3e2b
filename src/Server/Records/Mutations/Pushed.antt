-- ===== src/Server/Records/Mutations/Pushed.antt =====
-- Pushes of sync/engine.py onto the records of sync/mutations.py.
use risk_opportunity_manager.Prelude.{
  ℕ, ◌≤◌, ℤ, ◌≡◌, ap, ◌==◌, ◌&&◌, true, Bool-cases, Option, some, List, inl, inr, arith,
}
use risk_opportunity_manager.Protocol.{Entity, Op}
use risk_opportunity_manager.Json.{Fields}
use risk_opportunity_manager.Server.Permissions.{Role}
use risk_opportunity_manager.Server.Push.{Change, Session, PushContext, done}
use risk_opportunity_manager.Server.Push.Engine.{push_changes}
use risk_opportunity_manager.Server.Push.Invariants.{push_keeps, IsInvariant}
use risk_opportunity_manager.Server.Records.{Env, Records, Model, model_tag, model_of}
use risk_opportunity_manager.Server.Records.Mutations.Apply.{apply_change, records_backend}
use risk_opportunity_manager.Server.Records.Mutations.Keys.{
  IsKeyed, apply_change-IsKeyed, change_frame,
}
use risk_opportunity_manager.Server.Records.Mutations.Written.{model-injective}
use risk_opportunity_manager.Server.Records.Mutations.Versions.{
  version_at, version_of, change_versions,
}

abbrev IsAtLeast : Model → ℕ → ℕ → Records → Type 0
IsAtLeast m j v d = IsKeyed d × (v ≤ version_at d m j)

named_row :
    (m : Model) (j : ℕ) (n : Model) (i : ℕ)
    → (model_tag m == model_tag n && j == i) ≡ true
    → (m ≡ n) × (j ≡ i)
named_row m j n i h = (model-injective m n (ground (arith, h)), ground (arith, h))

module _ (env : Env) (hash : Change → ℕ) where
  change-le :
      (u p : ℕ) (e : Entity) (op : Op) (base : Option ℤ) (fields : Fields) (c : ℕ) (d : Records)
      (i : ℕ) (d' : Records) (m : Model) (j : ℕ)
      → IsKeyed d
      → apply_change env u p e op base fields c d ≡ done i d'
      → version_at d m j ≤ version_at d' m j
  unfolding version_at
  change-le u p e op base fields c d i d' m j keyed h =
      elim (Bool-cases (model_tag m == model_tag (model_of e) && j == i)) [
        | inr other ↦
            omega
              (arith, ap version_of (change_frame env u p e op base fields c d i d' m j other h))
        | inl same ↦
            let (model, id) = named_row m j (model_of e) i same in
            elim (change_versions env u p e op base fields c d i d' keyed h) [
              | inl unchanged ↦ omega (arith, ap (λ (s : Records). version_at s m j) unchanged)
              | inr (grown, _) ↦ rw (model, id) (omega (arith, grown))
            ]
      ]

  kept : (m : Model) (j v : ℕ) → IsInvariant (records_backend env hash) (IsAtLeast m j v)
  kept m j v u p e op base fields c d i d' (keyed, least) h = (
    apply_change-IsKeyed env u p e op base fields c d i d' keyed h,
    omega (arith, least, change-le u p e op base fields c d i d' m j keyed h),
  )

  -- A push on records whose keys are unique returns; afterwards the keys are unique, and no row is
  -- gone or has a smaller version than before.
  pub push_versions :
      (s : Session Records) (u p : ℕ) (role : Role) (cs : List Change) (m : Model) (j : ℕ)
      → IsKeyed s.records
      → (end : PushContext Records) × (push_changes (records_backend env hash) s u p role cs
          ≡ some end)
        × IsKeyed end.session.records
        × (version_at s.records m j ≤ version_at end.session.records m j)
  push_versions s u p role cs m j keyed =
      let (end, e, (keyed', least)) =
        push_keeps (records_backend env hash) (IsAtLeast m j (version_at s.records m j))
          (kept m j (version_at s.records m j)) s u p role cs (keyed, omega arith) in
      (end, e, keyed', least)
