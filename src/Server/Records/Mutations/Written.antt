-- ===== src/Server/Records/Mutations/Written.antt =====
-- What an upsert or a delete that succeeds on an existing row did to the records.
use risk_opportunity_manager.Prelude.{
  ℕ, ◌+◌, ◌≤◌, ℤ, pos, ◌≡◌, refl, sym, ap, ◌∙◌, true, false, Option, some, List, if◌then◌else◌,
  arith, ◌==◌, update-update,
}
use risk_opportunity_manager.Protocol.{Entity}
use risk_opportunity_manager.Json.{Fields}
use risk_opportunity_manager.Server.Records.{
  Row, Records, Env, Model, model_tag, model_of, is_row, in_scope, items, actions, assessments,
  tickets,
}
use risk_opportunity_manager.Server.Records.Mutations.{value, ◌>>=◌}
use risk_opportunity_manager.Server.Records.Mutations.Validate.{
  parse_record, validate_relationships,
}
use risk_opportunity_manager.Server.Records.Mutations.Claim.{claims}
use risk_opportunity_manager.Server.Records.Mutations.Flush.{
  sequenced_in, replace_row, next_change_sequence, sequence_project, flush_row,
}
use risk_opportunity_manager.Server.Records.Mutations.Update.{updated_row, update_existing}
use risk_opportunity_manager.Server.Records.Mutations.Heads.{head, bumped, Head, head-stamp}
use risk_opportunity_manager.Server.Records.Mutations.Flushed.{
  IsFlushed, flush_row-IsFlushed, bind-value,
}
use risk_opportunity_manager.Server.Records.Mutations.Locking.{IsClaimed}

abbrev model_at : ℕ → Model
model_at n =
    if n == 0 then items else if n == 1 then actions else if n == 2 then assessments else tickets

model_at-model_tag : (m : Model) → model_at (model_tag m) ≡ m
model_at-model_tag items = refl
model_at-model_tag actions = refl
model_at-model_tag assessments = refl
model_at-model_tag tickets = refl

pub same_number : (a b : ℕ) → (a == b) ≡ true → a ≡ b
same_number a b h = ground (arith, h)

pub model-injective : (m n : Model) → (model_tag m == model_tag n) ≡ true → m ≡ n
model-injective m n h =
    sym (model_at-model_tag m)
    ∙ ap model_at (same_number (model_tag m) (model_tag n) h)
    ∙ model_at-model_tag n

pub is_row-model : (m : Model) (i : ℕ) (r : Row) → is_row m i r ≡ true → r.model ≡ m
is_row-model m i r h = model-injective r.model m (ground (arith, h))

pub is_row-id : (m : Model) (i : ℕ) (r : Row) → is_row m i r ≡ true → r.id ≡ i
is_row-id m i r h = ground (arith, h)

pub same_key :
    (m : Model) (i : ℕ) (r x : Row)
    → is_row m i r ≡ true
    → is_row m i x ≡ true
    → is_row r.model r.id x ≡ true
same_key m i r x h k = ground (arith, h, k)

-- A row that is no assessment belongs to its own project.
abbrev pub IsOwner : Row → Option ℕ → Type 0
IsOwner r project =
    (model_tag r.model == model_tag assessments) ≡ false → project ≡ some r.project_id

module _ (env : Env) where
  owner-sequenced_in :
      (m : Model) (rows : List Row) (r : Row)
      → (model_tag m == model_tag assessments) ≡ false
      → sequenced_in env m rows r ≡ some r.project_id
  owner-sequenced_in items rows r h = refl
  owner-sequenced_in actions rows r h = refl
  owner-sequenced_in assessments rows r h = absurd (ground (arith, h))
  owner-sequenced_in tickets rows r h = refl

  pub IsOwner-kept :
      (rows : List Row) (row after : Row)
      → head after ≡ head row
      → IsOwner after (sequence_project env rows row)
  unfolding sequence_project
  IsOwner-kept rows row after kept h =
      let other = ap (λ (x : Head). model_tag x.model == model_tag assessments) (sym kept) ∙ h in
      owner-sequenced_in row.model rows row other ∙ ap (λ (x : Head). some x.project_id) (sym kept)

  pub record IsWritten (d : Records) (base : Option ℤ) (r : Row) (d' : Records) : Type 0 where
    pub named : base ≡ some (pos r.version)
    pub positive : 1 ≤ r.version
    pub after : Row
    pub kept : head after ≡ bumped (head r)
    pub rows : d'.rows ≡ replace_row r.model r.id after d.rows
    pub project : Option ℕ
    pub owner : IsOwner after project
    pub sequenced :
        next_change_sequence d.counters project ≡ some (d'.counters, after.change_sequence)

  claims-is_row :
      (rows : List Row) (e : Entity) (i p u b : ℕ) (r : Row)
      → claims env rows e i p u b r ≡ true
      → is_row (model_of e) i r ≡ true
  unfolding in_scope
  claims-is_row rows e i p u b r h = ground (arith, h)

  pub written :
      (d : Records) (e : Entity) (i p u : ℕ) (base : Option ℤ) (r row : Row) (d1 d2 : Records)
      (after : Row)
      → is_row (model_of e) i r ≡ true
      → IsClaimed env d e i p u base r d1
      → head row ≡ bumped (head r)
      → IsFlushed env d1 row (replace_row r.model r.id) d2 after
      → IsWritten d base r d2
  unfolding in_scope
  written d e i p u base r row d1 d2 after found claimed same flushed = record {
    named = claimed.named;
    positive = claimed.positive;
    after = after;
    kept = ap head flushed.row ∙ head-stamp env flushed.number row ∙ same;
    rows =
        ap (λ (s : Records). s.rows) flushed.records
        ∙ ap (λ (s : Records). replace_row r.model r.id after s.rows) claimed.records
        ∙ update-update (is_row r.model r.id) (claims env d.rows e i p u r.version) after
            (λ x. record x { version = x.version + 1; updated_at = d.now })
            (λ x h. same_key (model_of e) i r x found (claims-is_row d.rows e i p u r.version x h))
            (λ x. refl) d.rows;
    project = sequence_project env d1.rows row;
    owner =
        IsOwner-kept d1.rows row after (ap head flushed.row ∙ head-stamp env flushed.number row);
    sequenced =
        ap (λ (s : Records). next_change_sequence s.counters (sequence_project env d1.rows row))
          (sym claimed.records)
        ∙ flushed.sequenced
        ∙ ap (λ (s : Records). some (s.counters, flushed.number)) (sym flushed.records)
        ∙ ap (λ (x : Row). some (d2.counters, x.change_sequence)) (sym flushed.row);
  }

  pub update_existing-IsFlushed :
      (d : Records) (p : ℕ) (e : Entity) (r : Row) (fields : Fields) (d' : Records) (after : Row)
      → update_existing env d p e r fields ≡ value (d', after)
      → (sent : Fields) × IsFlushed env d
          (updated_row env d.now sent r)
          (replace_row r.model r.id)
          d'
          after
  unfolding update_existing
  update_existing-IsFlushed d p e r fields d' after h =
      let (val, _, checked) =
        bind-value (parse_record env e fields)
          (λ val. do
            _ ← validate_relationships env d.rows p e val (some r)
            flush_row env d (updated_row env d.now val.fields r) (replace_row r.model r.id))
          (d', after) h in
      let (_, _, flushed) =
        bind-value (validate_relationships env d.rows p e val (some r))
          (λ _. flush_row env d (updated_row env d.now val.fields r) (replace_row r.model r.id))
          (d', after) checked in
      (
        val.fields,
        flush_row-IsFlushed env d (updated_row env d.now val.fields r) (replace_row r.model r.id) d'
            after flushed,
      )
