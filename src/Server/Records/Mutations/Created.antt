-- ===== src/Server/Records/Mutations/Created.antt =====
-- What _create_new did to the records when it succeeded.
use risk_opportunity_manager.Prelude.{
  ℕ, ◌≡◌, refl, sym, ap, subst, ◌∙◌, Option, none, some, [], ◌∷◌, ◌++◌,
}
use risk_opportunity_manager.Protocol.{Entity}
use risk_opportunity_manager.Json.{Fields}
use risk_opportunity_manager.Server.Records.{Row, Records, Env, model_of, find_row}
use risk_opportunity_manager.Server.Records.Mutations.{value, ◌>>=◌, Parsed, client_fields}
use risk_opportunity_manager.Server.Records.Mutations.Validate.{
  parse_record, validate_relationships,
}
use risk_opportunity_manager.Server.Records.Mutations.Flush.{
  insert_row, flush_row, next_change_sequence, sequence_project,
}
use risk_opportunity_manager.Server.Records.Mutations.Create.{
  create_new, new_row, if_new, insert_new, blank_row, with_canonical_code, set_all,
}
use risk_opportunity_manager.Server.Records.Mutations.Heads.{
  head, Head, head-stamp, head-recalculate_item_scores,
}
use risk_opportunity_manager.Server.Records.Mutations.Flushed.{
  IsFlushed, flush_row-IsFlushed, bind-value, raised_value,
}
use risk_opportunity_manager.Server.Records.Mutations.Written.{IsOwner, IsOwner-kept}

module _ (env : Env) where
  pub record IsCreated (d : Records) (e : Entity) (i p u : ℕ) (d' : Records) : Type 0 where
    pub after : Row
    pub absent : find_row (model_of e) i d.rows ≡ none
    pub kept : head after ≡ head (blank_row env u p d.now e i)
    pub rows : d'.rows ≡ d.rows ++ after ∷ []
    pub project : Option ℕ
    pub owner : IsOwner after project
    pub sequenced :
        next_change_sequence d.counters project ≡ some (d'.counters, after.change_sequence)

  was_new :
      (o : Option Row) (inserted end : Records × Row)
      → if_new o inserted ≡ value end
      → (o ≡ none) × (inserted ≡ end)
  was_new none inserted end h = (refl, cc h)
  was_new (some other) inserted end h = raised_value h

  insert_new-absent :
      (d : Records) (row : Row) (d' : Records) (after : Row)
      → insert_new env d row ≡ value (d', after)
      → (find_row row.model row.id d.rows ≡ none) × IsFlushed env d row insert_row d' after
  insert_new-absent d row d' after h =
      let (inserted, flushed, checked) =
        bind-value (flush_row env d row insert_row)
          (λ inserted. if_new (find_row row.model row.id d.rows) inserted) (d', after) h in
      let (absent, same) =
        was_new (find_row row.model row.id d.rows) inserted (d', after) checked in
      (absent, flush_row-IsFlushed env d row insert_row d' after (flushed ∙ ap value same))

  head-new_row :
      (u p now : ℕ) (e : Entity) (i : ℕ) (fields : Fields)
      → head (new_row env u p now e i fields) ≡ head (blank_row env u p now e i)
  head-new_row u p now e i fields =
      head-recalculate_item_scores (record (blank_row env u p now e i) {
        columns = set_all (client_fields (model_of e) fields) (blank_row env u p now e i).columns;
      })

  created :
      (d : Records) (e : Entity) (i p u : ℕ) (row : Row) (d' : Records) (after : Row)
      → head row ≡ head (blank_row env u p d.now e i)
      → insert_new env d row ≡ value (d', after)
      → IsCreated d e i p u d'
  created d e i p u row d' after same h =
      let (absent, flushed) = insert_new-absent d row d' after h in
      record {
        after = after;
        absent = subst (λ (h : Head). find_row h.model h.id d.rows ≡ none) same absent;
        kept = ap head flushed.row ∙ head-stamp env flushed.number row ∙ same;
        rows = ap (λ (s : Records). s.rows) flushed.records;
        project = sequence_project env d.rows row;
        owner =
            IsOwner-kept env d.rows row after
              (ap head flushed.row ∙ head-stamp env flushed.number row);
        sequenced =
            flushed.sequenced
            ∙ ap (λ (s : Records). some (s.counters, flushed.number)) (sym flushed.records)
            ∙ ap (λ (x : Row). some (d'.counters, x.change_sequence)) (sym flushed.row);
      }

  pub create_new-IsCreated :
      (d : Records) (u p : ℕ) (e : Entity) (i : ℕ) (fields : Fields) (d' : Records) (after : Row)
      → create_new env d u p e i fields ≡ value (d', after)
      → IsCreated d e i p u d'
  unfolding create_new
  create_new-IsCreated d u p e i fields d' after h =
      let (val, _, checked) =
        bind-value (parse_record env e fields)
          (λ val. do
            fields' ← with_canonical_code env.digits d.rows p e val.fields
            _ ← validate_relationships env d.rows p e (record val { fields = fields' }) none
            insert_new env d (new_row env u p d.now e i fields'))
          (d', after) h in
      let (fields', _, kept) =
        bind-value (with_canonical_code env.digits d.rows p e val.fields)
          (λ fields'. do
            _ ← validate_relationships env d.rows p e (record val { fields = fields' }) none
            insert_new env d (new_row env u p d.now e i fields'))
          (d', after) checked in
      let sent : Parsed = record val { fields = fields' } in
      let (_, _, inserted) =
        bind-value (validate_relationships env d.rows p e sent none)
          (λ _. insert_new env d (new_row env u p d.now e i sent.fields)) (d', after) kept in
      created d e i p u (new_row env u p d.now e i sent.fields) d' after
        (head-new_row u p d.now e i sent.fields) inserted
