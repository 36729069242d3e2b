-- ===== src/Server/Records/Mutations/Locking.antt =====
-- What a claim checked and changed: _check_base_version, _claim_base_version and _claim_existing.
use risk_opportunity_manager.Prelude.{
  ℕ, ◌+◌, ◌≤◌, ℤ, pos, ◌≡◌, refl, sym, ap, subst, ◌∙◌, Bool, ◌&&◌, not, Bool-cases, inl, inr,
  Option, none, some, List, update, count, find, arith, ◌==◌, leb_ℤ, eqb_ℤ, eq_of_parts, updated,
  find-update, count-update_leaves,
}
use risk_opportunity_manager.Protocol.{Entity, same_entity, is_scored, assessment}
use risk_opportunity_manager.Server.Push.{conflict_error, version_mismatch}
use risk_opportunity_manager.Server.Records.{
  Row, Records, Env, current_server_state, in_scope, in_project, project_item, located, some_row,
  item_of, model_tag, Model, items, actions, assessments, tickets,
}
use risk_opportunity_manager.Server.Records.Mutations.{value, raised}
use risk_opportunity_manager.Server.Records.Mutations.Claim.{
  claims, check_base_version, claim_base_version, claim_existing,
}
use risk_opportunity_manager.Server.Records.Mutations.Flushed.{
  raised_value, value-injective, bind-value,
}

abbrev pub head_key : Row → Model × ℕ × ℕ
head_key r = (r.model, r.id, r.project_id)

module _ (env : Env) where
  abbrev pub advanced : Records → Entity → ℕ → ℕ → ℕ → ℕ → List Row
  advanced d e i p u b =
      update (claims env d.rows e i p u b)
        (λ r. record r { version = r.version + 1; updated_at = d.now }) d.rows

  check_base_version_passed :
      (rows : List Row) (e : Entity) (r : Row) (base : Option ℤ) (b : ℕ)
      → check_base_version env rows e r base ≡ value b
      → (base ≡ some (pos r.version)) × (1 ≤ r.version) × (b ≡ r.version)
  unfolding check_base_version
  check_base_version_passed rows e r none b h = raised_value h
  check_base_version_passed rows e r (some c) b h = elim (Bool-cases (leb_ℤ (pos 1) c)) [
    | inr low ↦ raised_value (rw low at h)
    | inl positive ↦ elim (Bool-cases (eqb_ℤ (pos r.version) c)) [
      | inr other ↦ raised_value (rw (positive, other) at h)
      | inl same ↦
          let equal = eq_of_parts (pos r.version) c (ground (arith, same)) in
          (
            ap some (sym equal),
            ground (arith, positive, equal),
            sym (value-injective (rw (positive, same) at h)),
          )
    ]
  ]

  claim_base_version_passed :
      (d : Records) (e : Entity) (i p u b : ℕ) (d' : Records)
      → claim_base_version env d e i p u b ≡ value d'
      → (count (claims env d.rows e i p u b) d.rows ≡ 1)
        × (d' ≡ record d { rows = advanced d e i p u b })
  unfolding claim_base_version
  claim_base_version_passed d e i p u b d' h =
      elim (Bool-cases (count (claims env d.rows e i p u b) d.rows == 1)) [
        | inl one ↦ (ground (arith, one), sym (value-injective (rw one at h)))
        | inr other ↦ raised_value (rw other at h)
      ]

  pub record IsClaimed (d : Records) (e : Entity) (i p u : ℕ) (base : Option ℤ) (r : Row)
      (d' : Records) : Type 0 where
    pub named : base ≡ some (pos r.version)
    pub positive : 1 ≤ r.version
    pub one : count (claims env d.rows e i p u r.version) d.rows ≡ 1
    pub records : d' ≡ record d { rows = advanced d e i p u r.version }

  pub claim_existing-IsClaimed :
      (d : Records) (e : Entity) (i p u : ℕ) (base : Option ℤ) (r : Row) (d' : Records)
      → claim_existing env d e i p u base r ≡ value d'
      → IsClaimed d e i p u base r d'
  unfolding claim_existing
  claim_existing-IsClaimed d e i p u base r d' h =
      elim (Bool-cases (is_scored e && not (same_entity r.kind e))) [
        | inl mistyped ↦ raised_value (rw mistyped at h)
        | inr typed ↦ elim (Bool-cases (same_entity e assessment && not (r.assessor == u))) [
          | inl foreign ↦ raised_value (rw (typed, foreign) at h)
          | inr mine ↦
              let (b, checked, claimed) =
                bind-value (check_base_version env d.rows e r base)
                  (λ b. claim_base_version env d e i p u b) d' (rw (typed, mine) at h) in
              let (named, positive, same) = check_base_version_passed d.rows e r base b checked in
              let (one, records) =
                claim_base_version_passed d e i p u r.version d' (rw same at claimed) in
              record { named = named; positive = positive; one = one; records = records }
        ]
      ]

  some_row-updated :
      (q : Row → Bool) (f : Row → Row) (o : Option Row)
      → some_row env (updated q f o) ≡ some_row env o
  some_row-updated q f none = refl
  some_row-updated q f (some r) = refl

  abbrev is_item_of : ℕ → ℕ → Model × ℕ × ℕ → Bool
  is_item_of i p (m, j, q) = (model_tag m == model_tag items && j == i) && q == p

  -- An update that keeps keys and projects keeps what is in a project.
  pub some_row-update :
      (q : Row → Bool) (f : Row → Row) (keeps : (x : Row) → head_key (f x) ≡ head_key x)
      (rows : List Row) (p : ℕ) (o : Option ℕ)
      → some_row env (project_item env (update q f rows) p o)
        ≡ some_row env (project_item env rows p o)
  unfolding project_item
  some_row-update q f keeps rows p none = refl
  some_row-update q f keeps rows p (some i) =
      rw
        (find-update (λ r. is_item_of i p (head_key r)) q f
          (λ x. ap (λ k. is_item_of i p k) (keeps x)) rows)
        (some_row-updated q f (find (λ r. is_item_of i p (head_key r)) rows))

  pub in_project-update :
      (q : Row → Bool) (f : Row → Row) (keeps : (x : Row) → head_key (f x) ≡ head_key x)
      (rows : List Row) (p : ℕ) (r : Row)
      → in_project env (update q f rows) p r ≡ in_project env rows p r
  unfolding in_project
  in_project-update q f keeps rows p r = located-update r.model r
    where
      located-update :
          (m : Model) (r : Row) → located env m (update q f rows) p r ≡ located env m rows p r
      located-update assessments r = some_row-update q f keeps rows p (item_of env r)
      located-update items r = refl
      located-update actions r = refl
      located-update tickets r = refl

  claims-advanced :
      (d : Records) (e : Entity) (i p u b : ℕ) (r : Row)
      → claims env (advanced d e i p u b) e i p u b r ≡ claims env d.rows e i p u b r
  unfolding in_scope
  claims-advanced d e i p u b r =
      rw
        (in_project-update (claims env d.rows e i p u b)
          (λ r. record r { version = r.version + 1; updated_at = d.now }) (λ x. refl) d.rows p r)
        refl

  pub claims_none :
      (d : Records) (e : Entity) (i p u b : ℕ)
      → count (claims env (advanced d e i p u b) e i p u b) (advanced d e i p u b) ≡ 0
  claims_none d e i p u b =
      count-update_leaves (claims env (advanced d e i p u b) e i p u b)
        (claims env d.rows e i p u b)
        (λ r. record r { version = r.version + 1; updated_at = d.now }) (λ x h. ground (arith, h))
        (λ x h. claims-advanced d e i p u b x ∙ h) d.rows

  -- Of two claims of one row with the same base version, the second fails with a version mismatch:
  -- after a claim that succeeded, the same claim on the records it left is refused.
  pub claim_once :
      (d : Records) (e : Entity) (i p u b : ℕ) (d' : Records)
      → claim_base_version env d e i p u b ≡ value d'
      → claim_base_version env d' e i p u b
        ≡ raised (
            conflict_error version_mismatch
              (some i)
              (current_server_state env d' e i p u).0
              (current_server_state env d' e i p u).1)
  unfolding claim_base_version
  claim_once d e i p u b d' h =
      let (one, records) = claim_base_version_passed d e i p u b d' h in
      let zero =
        subst (λ (s : Records). count (claims env s.rows e i p u b) s.rows ≡ 0) (sym records)
          (claims_none d e i p u b) in
      rw zero refl
