-- ===== src/Server/Records/Mutations/Applied.antt =====
-- What one change that succeeded did to the records: the cases of _apply_upsert and _apply_delete.
use risk_opportunity_manager.Prelude.{
  ℕ, ℤ, ◌≡◌, sym, ap, subst, ◌∙◌, Bool, true, false, Option-cases, inl, inr, Option, none, some,
  List, find_passes, ◌&&◌, arith,
}
use risk_opportunity_manager.Protocol.{Entity, Op, upsert}
use risk_opportunity_manager.Json.{Fields}
use risk_opportunity_manager.Server.Push.{done}
use risk_opportunity_manager.Server.Records.{
  Row, Records, Env, model_of, is_row, fetch_obj, in_project, value_of,
}
use risk_opportunity_manager.Server.Records.Mutations.{Try, value, raised, ◌>>=◌, soft_delete}
use risk_opportunity_manager.Server.Records.Mutations.Claim.{claim_existing}
use risk_opportunity_manager.Server.Records.Mutations.Flush.{replace_row, flush_row}
use risk_opportunity_manager.Server.Records.Mutations.Create.{create_new}
use risk_opportunity_manager.Server.Records.Mutations.Update.{updated_row, update_existing}
use risk_opportunity_manager.Server.Records.Mutations.Apply.{
  apply_upsert, apply_delete, apply_change, attempt_of, entity_id_of, upsert_found, delete_found,
  audit,
}
use risk_opportunity_manager.Server.Records.Mutations.Heads.{head-updated_row, head-soft_delete}
use risk_opportunity_manager.Server.Records.Mutations.Flushed.{
  flush_row-IsFlushed, bind-value, raised_value, value-injective,
}
use risk_opportunity_manager.Server.Records.Mutations.Locking.{claim_existing-IsClaimed}
use risk_opportunity_manager.Server.Records.Mutations.Written.{
  IsWritten, written, update_existing-IsFlushed,
}
use risk_opportunity_manager.Server.Records.Mutations.Created.{IsCreated, create_new-IsCreated}

module _ (env : Env) where
  -- What a change that succeeded did: it made a row, deleted none, or wrote the row it found.
  pub data IsApplied (d : Records) (e : Entity) (i p u : ℕ) (base : Option ℤ) (d' : Records)
      : Type 0 where
    creates :
        fetch_obj env d.rows e i p ≡ none → IsCreated env d e i p u d' → IsApplied d e i p u base d'
    skips : fetch_obj env d.rows e i p ≡ none → d' ≡ d → IsApplied d e i p u base d'
    writes :
        (r : Row)
        → fetch_obj env d.rows e i p ≡ some r
        → IsWritten env d base r d'
        → IsApplied d e i p u base d'

  -- writing the audit row changes neither the rows nor the counters
  abbrev IsAudited : Records → Records → Type 0
  IsAudited d d' = (d'.rows ≡ d.rows) × (d'.counters ≡ d.counters)

  pub audited :
      (d : Records) (u p c : ℕ) (e : Entity) (i : ℕ) (deleting : Bool) (before : Option Row)
      (after : Row) (j : ℕ) (d' : Records)
      → value (audit env u p c e i deleting before (d, after)) ≡ value (j, d')
      → (j ≡ i) × IsAudited d d'
  audited d u p c e i deleting before after j d' h =
      let same = value-injective h in
      (
        sym (ap (λ x. x.0) same),
        (
          sym (ap (λ (x : ℕ × Records). x.1.rows) same),
          sym (ap (λ (x : ℕ × Records). x.1.counters) same),
        ),
      )

  IsCreated-audited :
      (d : Records) (e : Entity) (i p u : ℕ) (made d' : Records)
      → IsCreated env d e i p u made
      → IsAudited made d'
      → IsCreated env d e i p u d'
  IsCreated-audited d e i p u made d' t (rows, counters) = record {
    after = t.after;
    absent = t.absent;
    kept = t.kept;
    rows = rows ∙ t.rows;
    project = t.project;
    owner = t.owner;
    sequenced = t.sequenced ∙ ap (λ ks. some (ks, t.after.change_sequence)) (sym counters);
  }

  IsWritten-audited :
      (d : Records) (base : Option ℤ) (r : Row) (made d' : Records)
      → IsWritten env d base r made
      → IsAudited made d'
      → IsWritten env d base r d'
  IsWritten-audited d base r made d' t (rows, counters) = record {
    named = t.named;
    positive = t.positive;
    after = t.after;
    kept = t.kept;
    rows = rows ∙ t.rows;
    project = t.project;
    owner = t.owner;
    sequenced = t.sequenced ∙ ap (λ ks. some (ks, t.after.change_sequence)) (sym counters);
  }

  pub fetch_obj-is_row :
      (rows : List Row) (e : Entity) (i p : ℕ) (r : Row)
      → fetch_obj env rows e i p ≡ some r
      → is_row (model_of e) i r ≡ true
  unfolding fetch_obj
  fetch_obj-is_row rows e i p r h =
      ground (arith, find_passes (λ r. is_row (model_of e) i r && in_project env rows p r) r rows h)

  create_applied :
      (u p : ℕ) (e : Entity) (base : Option ℤ) (fields : Fields) (c : ℕ) (d : Records) (i j : ℕ)
      (d' : Records)
      → upsert_found env u p e base fields c d i none ≡ value (j, d')
      → (j ≡ i) × IsCreated env d e i p u d'
  create_applied u p e base fields c d i j d' h =
      let ((made, after), creating, last) =
        bind-value (create_new env d u p e i fields)
          (λ made. value (audit env u p c e i false none made)) (j, d') h in
      let (same, kept) = audited made u p c e i false none after j d' last in
      (
        same,
        IsCreated-audited d e i p u made d'
            (create_new-IsCreated env d u p e i fields made after creating) kept,
      )

  update_applied :
      (u p : ℕ) (e : Entity) (base : Option ℤ) (fields : Fields) (c : ℕ) (d : Records) (i j : ℕ)
      (r : Row) (d' : Records)
      → is_row (model_of e) i r ≡ true
      → upsert_found env u p e base fields c d i (some r) ≡ value (j, d')
      → (j ≡ i) × IsWritten env d base r d'
  update_applied u p e base fields c d i j r d' found h =
      let (claimed, claiming, updating) =
        bind-value (claim_existing env d e i p u base r)
          (λ claimed. do
            made ← update_existing env claimed p e r fields
            value (audit env u p c e i false (some r) made))
          (j, d') h in
      let ((made, after), writing, last) =
        bind-value (update_existing env claimed p e r fields)
          (λ made. value (audit env u p c e i false (some r) made)) (j, d') updating in
      let (same, kept) = audited made u p c e i false (some r) after j d' last in
      let (sent, flushed) = update_existing-IsFlushed env claimed p e r fields made after writing in
      (
        same,
        IsWritten-audited d base r made d'
            (written env d e i p u base r (updated_row env claimed.now sent r) claimed made after
              found (claim_existing-IsClaimed env d e i p u base r claimed claiming)
              (head-updated_row env claimed.now sent r) flushed)
            kept,
      )

  delete_applied :
      (u p : ℕ) (e : Entity) (base : Option ℤ) (c : ℕ) (d : Records) (i j : ℕ) (r : Row)
      (d' : Records)
      → is_row (model_of e) i r ≡ true
      → delete_found env u p e base c d i (some r) ≡ value (j, d')
      → (j ≡ i) × IsWritten env d base r d'
  delete_applied u p e base c d i j r d' found h =
      let (claimed, claiming, deleting) =
        bind-value (claim_existing env d e i p u base r)
          (λ claimed. do
            made ← flush_row env claimed (soft_delete env d.now r) (replace_row r.model r.id)
            value (audit env u p c e i true (some r) made))
          (j, d') h in
      let ((made, after), writing, last) =
        bind-value (flush_row env claimed (soft_delete env d.now r) (replace_row r.model r.id))
          (λ made. value (audit env u p c e i true (some r) made)) (j, d') deleting in
      let (same, kept) = audited made u p c e i true (some r) after j d' last in
      (
        same,
        IsWritten-audited d base r made d'
            (written env d e i p u base r (soft_delete env d.now r) claimed made after found
              (claim_existing-IsClaimed env d e i p u base r claimed claiming)
              (head-soft_delete env d.now r)
              (flush_row-IsFlushed env claimed (soft_delete env d.now r) (replace_row r.model r.id)
                made after writing))
            kept,
      )

  pub entity_id_read :
      (fields : Fields) (i : ℕ)
      → entity_id_of env fields ≡ value i
      → env.uuid_of (value_of "id" fields) ≡ some i
  entity_id_read fields i h = elim (Option-cases (env.uuid_of (value_of "id" fields))) [
    | inl unreadable ↦ raised_value (rw (entity_id_of, unreadable) at h)
    | inr (j, read) ↦ read ∙ ap some (value-injective (rw (entity_id_of, read) at h))
  ]

  upsert-IsApplied :
      (u p : ℕ) (e : Entity) (base : Option ℤ) (fields : Fields) (c : ℕ) (d : Records) (i j : ℕ)
      (d' : Records)
      → upsert_found env u p e base fields c d i (fetch_obj env d.rows e i p) ≡ value (j, d')
      → (j ≡ i) × IsApplied d e i p u base d'
  upsert-IsApplied u p e base fields c d i j d' h =
      elim (Option-cases (fetch_obj env d.rows e i p)) [
        | inl missing ↦
            let (same, made) = create_applied u p e base fields c d i j d' (rw missing at h) in
            (same, creates missing made)
        | inr (r, found) ↦
            let (same, wrote) =
              update_applied u p e base fields c d i j r d' (fetch_obj-is_row d.rows e i p r found)
                (rw found at h) in
            (same, writes r found wrote)
      ]

  deletion-IsApplied :
      (u p : ℕ) (e : Entity) (base : Option ℤ) (c : ℕ) (d : Records) (i j : ℕ) (d' : Records)
      → delete_found env u p e base c d i (fetch_obj env d.rows e i p) ≡ value (j, d')
      → (j ≡ i) × IsApplied d e i p u base d'
  deletion-IsApplied u p e base c d i j d' h = elim (Option-cases (fetch_obj env d.rows e i p)) [
    | inl missing ↦
        let same = value-injective (rw missing at h) in
        (sym (ap (λ x. x.0) same), skips missing (sym (ap (λ x. x.1) same)))
    | inr (r, found) ↦
        let (same, wrote) =
          delete_applied u p e base c d i j r d' (fetch_obj-is_row d.rows e i p r found)
            (rw found at h) in
        (same, writes r found wrote)
  ]

  pub done-value :
      (t : Try (ℕ × Records)) (j : ℕ) (d' : Records)
      → attempt_of env t ≡ done j d'
      → t ≡ value (j, d')
  done-value (value (i, d)) j d' h = cc
  done-value (raised f) j d' h = absurd (cc)

  pub apply_change-IsApplied :
      (u p : ℕ) (e : Entity) (op : Op) (base : Option ℤ) (fields : Fields) (c : ℕ) (d : Records)
      (i : ℕ) (d' : Records)
      → apply_change env u p e op base fields c d ≡ done i d'
      → (env.uuid_of (value_of "id" fields) ≡ some i) × IsApplied d e i p u base d'
  unfolding apply_upsert apply_delete
  apply_change-IsApplied u p e upsert base fields c d j d' h =
      let (i, read, applied) =
        bind-value (entity_id_of env fields)
          (λ i. upsert_found env u p e base fields c d i (fetch_obj env d.rows e i p)) (j, d')
          (done-value (apply_upsert env u p e base fields c d) j d' h) in
      let (same, outcome) = upsert-IsApplied u p e base fields c d i j d' applied in
      (
        entity_id_read fields i read ∙ ap some (sym same),
        subst (λ k. IsApplied d e k p u base d') (sym same) outcome,
      )
  apply_change-IsApplied u p e Op.delete base fields c d j d' h =
      let (i, read, applied) =
        bind-value (entity_id_of env fields)
          (λ i. delete_found env u p e base c d i (fetch_obj env d.rows e i p)) (j, d')
          (done-value (apply_delete env u p e base fields c d) j d' h) in
      let (same, outcome) = deletion-IsApplied u p e base c d i j d' applied in
      (
        entity_id_read fields i read ∙ ap some (sym same),
        subst (λ k. IsApplied d e k p u base d') (sym same) outcome,
      )
