-- ===== src/Server/Records/Mutations/Versions.antt =====
-- The table of rows as a map from keys to versions, and what a change does to it.
use risk_opportunity_manager.Prelude.{
  ℕ, ◌+◌, ◌≤◌, ℤ, pos, ◌≡◌, ◌≢◌, not, ◌⊎◌, refl, sym, ap, ◌∙◌, false, ◌&&◌, inl, inr, Option, none,
  some, ◌==◌, arith,
}
use risk_opportunity_manager.Protocol.{Entity, Op, upsert, assessment, is_scored, same_entity}
use risk_opportunity_manager.Json.{Fields}
use risk_opportunity_manager.Server.Push.{Failure, done, failed, conflict_error, version_mismatch}
use risk_opportunity_manager.Server.Push.Invariants.{Attempt-cases}
use risk_opportunity_manager.Server.Records.{
  Row, Records, Env, Model, model_of, value_of, model_to_sync_dict, fetch_obj, find_row,
}
use risk_opportunity_manager.Server.Records.Mutations.Apply.{
  apply_change, apply_upsert, apply_delete, entity_id_of,
}
use risk_opportunity_manager.Server.Records.Mutations.Claim.{claim_existing, check_base_version}
use risk_opportunity_manager.Server.Records.Mutations.{raised}
use risk_opportunity_manager.Server.Records.Mutations.Heads.{Head}
use risk_opportunity_manager.Server.Records.Mutations.Written.{IsWritten}
use risk_opportunity_manager.Server.Records.Mutations.Created.{IsCreated}
use risk_opportunity_manager.Server.Records.Mutations.Applied.{IsApplied, apply_change-IsApplied}
use risk_opportunity_manager.Server.Records.Mutations.Keys.{
  find_row_new, find_row_changed, IsKeyed, apply_change-IsKeyed, find_row-fetched,
}

-- the version of the row with a key, 0 where there is none
abbrev pub version_of : Option Row → ℕ
version_of none = 0
version_of (some r) = r.version

unfoldable pub version_at : Records → Model → ℕ → ℕ
unfolding find_row
version_at d m i = version_of (find_row m i d.rows)

-- A change as the map of versions sees it: nothing, a new key, or the version it names plus one.
abbrev pub IsVersioned : Records → Model → ℕ → Option ℤ → Records → Type 0
IsVersioned d m i base d' =
    (version_at d' m i ≡ version_at d m i + 1)
    × ((version_at d m i ≡ 0) ⊎ (base ≡ some (pos (version_at d m i))))

some-injective : {A : Type 0} {a b : A} → some a ≡ some b → a ≡ b
some-injective h = cc

module _ (env : Env) where
  IsVersioned-created :
      (d : Records) (e : Entity) (i p u : ℕ) (base : Option ℤ) (d' : Records)
      → IsCreated env d e i p u d'
      → IsVersioned d (model_of e) i base d'
  unfolding version_at find_row
  IsVersioned-created d e i p u base d' t = (
    ap version_of (find_row_new env d e i p u d' t)
        ∙ ap (λ (h : Head). h.version) t.kept
        ∙ ap (λ (o : Option Row). version_of o + 1) (sym t.absent),
    inl (ap version_of t.absent),
  )

  IsVersioned-written :
      (d : Records) (e : Entity) (i p : ℕ) (base : Option ℤ) (r : Row) (d' : Records)
      → IsKeyed d
      → fetch_obj env d.rows e i p ≡ some r
      → IsWritten env d base r d'
      → IsVersioned d (model_of e) i base d'
  unfolding version_at
  IsVersioned-written d e i p base r d' keyed fetched w =
      let old = ap version_of (sym (find_row-fetched env d e i p r keyed fetched)) in
      (
        ap version_of (find_row_changed env d e i p base r d' keyed fetched w)
            ∙ ap (λ (h : Head). h.version) w.kept
            ∙ ap (λ n. n + 1) old,
        inr (w.named ∙ ap (λ n. some (pos n)) old),
      )

  -- Optimistic locking. On records whose keys are unique, a change that succeeds leaves the records
  -- as they are, or raises the version at its key by one, from 0 if there was no row; a row that was
  -- there had exactly the version that the change gave as its base.
  pub change_versions :
      (u p : ℕ) (e : Entity) (op : Op) (base : Option ℤ) (fields : Fields) (c : ℕ) (d : Records)
      (i : ℕ) (d' : Records)
      → IsKeyed d
      → apply_change env u p e op base fields c d ≡ done i d'
      → (d' ≡ d) ⊎ IsVersioned d (model_of e) i base d'
  change_versions u p e op base fields c d i d' keyed h =
      let (_, applied) = apply_change-IsApplied env u p e op base fields c d i d' h in
      elim applied [
        | IsApplied.creates _ t ↦ inr (IsVersioned-created d e i p u base d' t)
        | IsApplied.skips _ same ↦ inl same
        | IsApplied.writes r fetched w ↦ inr (IsVersioned-written d e i p base r d' keyed fetched w)
      ]

  pos-injective : (a b : ℕ) → some (pos a) ≡ some (pos b) → a ≡ b
  pos-injective a b h = cc

  stale :
      (base : Option ℤ) (v w : ℕ)
      → 1 ≤ v
      → w ≡ v + 1
      → (v ≡ 0) ⊎ (base ≡ some (pos v))
      → (w ≡ 0) ⊎ (base ≡ some (pos w))
      → ⊥
  stale base v w there grown (inl gone) again = omega (arith, there, gone)
  stale base v w there grown (inr named) (inl gone) = omega (arith, grown, gone)
  stale base v w there grown (inr named) (inr again) =
      omega (arith, grown, pos-injective v w (sym named ∙ again))

  second_changes_nothing :
      (u p u2 p2 : ℕ) (e : Entity) (op op2 : Op) (base : Option ℤ) (fields fields2 : Fields)
      (c c2 : ℕ) (d : Records) (i : ℕ) (d' d2 : Records)
      → IsKeyed d
      → 1 ≤ version_at d (model_of e) i
      → apply_change env u p e op base fields c d ≡ done i d'
      → d' ≢ d
      → apply_change env u2 p2 e op2 base fields2 c2 d' ≡ done i d2
      → d2 ≡ d'
  second_changes_nothing u p u2 p2 e op op2 base fields fields2 c c2 d i d' d2 keyed there first
        wrote second =
      elim (change_versions u p e op base fields c d i d' keyed first) [
        | inl same ↦ absurd (wrote same)
        | inr (grown, named) ↦
            elim (change_versions u2 p2 e op2 base fields2 c2 d' i d2
              (apply_change-IsKeyed env u p e op base fields c d i d' keyed first) second) [
                | inl same ↦ same
                | inr (_, again) ↦ absurd (
                    stale base (version_at d (model_of e) i) (version_at d' (model_of e) i) there
                      grown named again)
              ]
      ]

  -- No lost update. The keys are unique, a row is there, and a change of it succeeds and changes the
  -- records. Then another change of the same row that names the same base version, tried on the
  -- records that the first left, fails or changes nothing.
  pub one_writer :
      (u p u2 p2 : ℕ) (e : Entity) (op op2 : Op) (base : Option ℤ) (fields fields2 : Fields)
      (c c2 : ℕ) (d : Records) (i : ℕ) (d' : Records)
      → IsKeyed d
      → 1 ≤ version_at d (model_of e) i
      → apply_change env u p e op base fields c d ≡ done i d'
      → d' ≢ d
      → env.uuid_of (value_of "id" fields2) ≡ some i
      → ((f : Failure) × (apply_change env u2 p2 e op2 base fields2 c2 d' ≡ failed f))
        ⊎ (apply_change env u2 p2 e op2 base fields2 c2 d' ≡ done i d')
  one_writer u p u2 p2 e op op2 base fields fields2 c c2 d i d' keyed there first wrote read =
      elim (Attempt-cases (apply_change env u2 p2 e op2 base fields2 c2 d')) [
        | inr failing ↦ inl failing
        | inl (j, d2, second) ↦
            let (named, _) =
              apply_change-IsApplied env u2 p2 e op2 base fields2 c2 d' j d2 second in
            let same = some-injective (sym named ∙ read) in
            let again = second ∙ ap (λ k. done k d2) same in
            inr (
              again
              ∙ ap (done i) (
                  second_changes_nothing u p u2 p2 e op op2 base fields fields2 c c2 d i d' d2 keyed
                    there first wrote again))
      ]

  claim_refused :
      (u p : ℕ) (e : Entity) (b : ℕ) (d : Records) (i : ℕ) (r : Row)
      → (is_scored e && not (same_entity r.kind e)) ≡ false
      → (same_entity e assessment && not (r.assessor == u)) ≡ false
      → 1 ≤ b
      → b ≢ r.version
      → claim_existing env d e i p u (some (pos b)) r
        ≡ raised (
            conflict_error version_mismatch
              (some r.id)
              (some (pos r.version))
              (some (model_to_sync_dict env d.rows e r)))
  unfolding claim_existing check_base_version
  claim_refused u p e b d i r typed mine positive stale =
      rw (typed, mine) (ground (arith, positive, stale))

  -- A stale base version is refused. The row that a change names is in the project, of the change's
  -- type, and not another user's assessment, and the base version is positive but not the row's: then
  -- both operations fail with a version mismatch that carries the row's version and its record.
  pub stale_refused :
      (u p : ℕ) (e : Entity) (op : Op) (b : ℕ) (fields : Fields) (c : ℕ) (d : Records) (i : ℕ)
      (r : Row)
      → env.uuid_of (value_of "id" fields) ≡ some i
      → fetch_obj env d.rows e i p ≡ some r
      → (is_scored e && not (same_entity r.kind e)) ≡ false
      → (same_entity e assessment && not (r.assessor == u)) ≡ false
      → 1 ≤ b
      → b ≢ r.version
      → apply_change env u p e op (some (pos b)) fields c d
        ≡ failed (
            conflict_error version_mismatch
              (some r.id)
              (some (pos r.version))
              (some (model_to_sync_dict env d.rows e r)))
  unfolding apply_upsert apply_delete
  stale_refused u p e upsert b fields c d i r read found typed mine positive stale =
      rw (entity_id_of, read, found, claim_refused u p e b d i r typed mine positive stale) refl
  stale_refused u p e Op.delete b fields c d i r read found typed mine positive stale =
      rw (entity_id_of, read, found, claim_refused u p e b d i r typed mine positive stale) refl
