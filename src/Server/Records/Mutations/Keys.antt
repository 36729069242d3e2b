-- ===== src/Server/Records/Mutations/Keys.antt =====
-- The primary keys of the rows, and which rows a change writes.
use risk_opportunity_manager.Prelude.{
  ℕ, ◌≤◌, ℤ, ◌≡◌, refl, sym, ap, subst, ◌∙◌, true, false, ◌&&◌, Bool-cases, Option-cases, inl, inr,
  Option, none, some, List, [], ◌∷◌, ◌==◌, find, count, find_only, find-overwrite, count-overwrite,
  find-append, updated, find_passes, or_else, count-snoc, find-none, arith,
}
use risk_opportunity_manager.Protocol.{Entity, Op}
use risk_opportunity_manager.Json.{Fields}
use risk_opportunity_manager.Server.Push.{done}
use risk_opportunity_manager.Server.Records.{
  Row, Records, Env, Model, model_tag, model_of, is_row, fetch_obj, in_project, find_row,
}
use risk_opportunity_manager.Server.Records.Mutations.Apply.{apply_change}
use risk_opportunity_manager.Server.Records.Mutations.Heads.{head, bumped, Head}
use risk_opportunity_manager.Server.Records.Mutations.Written.{IsWritten, is_row-model, is_row-id}
use risk_opportunity_manager.Server.Records.Mutations.Created.{IsCreated}
use risk_opportunity_manager.Server.Records.Mutations.Applied.{
  IsApplied, apply_change-IsApplied, fetch_obj-is_row,
}

-- The primary keys: no two rows of a table have one id.
unfoldable pub IsKeyed : Records → Type 0
IsKeyed d = (m : Model) (i : ℕ) → count (is_row m i) d.rows ≤ 1

-- a row like `r` in its key is told from no other
pub same_test :
    (m : Model) (j : ℕ) (r a x : Row)
    → head a ≡ bumped (head r)
    → is_row r.model r.id x ≡ true
    → is_row m j a ≡ is_row m j x
same_test m j r a x kept h =
    ap (λ (h : Head). model_tag h.model == model_tag m && h.id == j) kept ∙ ground (arith, h)

module _ (env : Env) where
  pub find_row-written :
      (d : Records) (base : Option ℤ) (r : Row) (d' : Records) (w : IsWritten env d base r d')
      (m : Model) (j : ℕ)
      → find_row m j d'.rows ≡ updated (is_row r.model r.id) (λ _. w.after) (find_row m j d.rows)
  unfolding find_row
  find_row-written d base r d' w m j =
      ap (find (is_row m j)) w.rows
      ∙ find-overwrite (is_row m j) (is_row r.model r.id) w.after
          (λ x h. same_test m j r w.after x w.kept h) d.rows

  pub find_row-fetched :
      (d : Records) (e : Entity) (i p : ℕ) (r : Row)
      → IsKeyed d
      → fetch_obj env d.rows e i p ≡ some r
      → find_row (model_of e) i d.rows ≡ some r
  unfolding fetch_obj find_row IsKeyed
  find_row-fetched d e i p r keyed h =
      find_only (λ r. is_row (model_of e) i r && in_project env d.rows p r) (is_row (model_of e) i)
        r (λ x k. ground (arith, k)) d.rows (keyed (model_of e) i) h

  pub created_at_key :
      (d : Records) (e : Entity) (i p u : ℕ) (d' : Records) (t : IsCreated env d e i p u d')
      → is_row (model_of e) i t.after ≡ true
  created_at_key d e i p u d' t =
      ap (λ (h : Head). model_tag h.model == model_tag (model_of e) && h.id == i) t.kept
      ∙ ground arith

  IsKeyed-created :
      (d : Records) (e : Entity) (i p u : ℕ) (d' : Records)
      → IsKeyed d
      → IsCreated env d e i p u d'
      → IsKeyed d'
  unfolding IsKeyed find_row
  IsKeyed-created d e i p u d' keyed t m j =
      let size = ap (count (is_row m j)) t.rows ∙ count-snoc (is_row m j) d.rows t.after in
      elim (Bool-cases (is_row m j t.after)) [
        | inr apart ↦ ground (arith, size, apart, keyed m j)
        | inl same ↦
            let model = sym (is_row-model m j t.after same) ∙ ap (λ (h : Head). h.model) t.kept in
            let id = sym (is_row-id m j t.after same) ∙ ap (λ (h : Head). h.id) t.kept in
            let fresh = find-none (is_row m j) d.rows (
              subst (λ n. find (is_row n j) d.rows ≡ none) (sym model)
                (subst (λ k. find (is_row (model_of e) k) d.rows ≡ none) (sym id) t.absent)) in
            ground (arith, size, same, fresh)
      ]

  IsKeyed-applied :
      (d : Records) (e : Entity) (i p u : ℕ) (base : Option ℤ) (d' : Records)
      → IsKeyed d
      → IsApplied env d e i p u base d'
      → IsKeyed d'
  unfolding IsKeyed
  IsKeyed-applied d e i p u base d' keyed (IsApplied.creates _ t) =
      IsKeyed-created d e i p u d' keyed t
  IsKeyed-applied d e i p u base d' keyed (IsApplied.skips _ same) = subst IsKeyed (sym same) keyed
  IsKeyed-applied d e i p u base d' keyed (IsApplied.writes r _ w) = λ m j.
      rw
        (
          w.rows,
          count-overwrite (is_row m j) (is_row r.model r.id) w.after
              (λ x h. same_test m j r w.after x w.kept h) d.rows,
        )
        (keyed m j)

  -- A change that succeeds keeps the primary keys: no two rows of a table have one id.
  pub apply_change-IsKeyed :
      (u p : ℕ) (e : Entity) (op : Op) (base : Option ℤ) (fields : Fields) (c : ℕ) (d : Records)
      (i : ℕ) (d' : Records)
      → IsKeyed d
      → apply_change env u p e op base fields c d ≡ done i d'
      → IsKeyed d'
  apply_change-IsKeyed u p e op base fields c d i d' keyed h =
      let (_, applied) = apply_change-IsApplied env u p e op base fields c d i d' h in
      IsKeyed-applied d e i p u base d' keyed applied

  pub find_row_new :
      (d : Records) (e : Entity) (i p u : ℕ) (d' : Records) (t : IsCreated env d e i p u d')
      → find_row (model_of e) i d'.rows ≡ some t.after
  unfolding find_row find
  find_row_new d e i p u d' t =
      ap (find (is_row (model_of e) i)) t.rows
      ∙ find-append (is_row (model_of e) i) d.rows (t.after ∷ [])
      ∙ ap (λ o. or_else o (find (is_row (model_of e) i) (t.after ∷ []))) t.absent
      ∙ ground (arith, created_at_key d e i p u d' t)

  overwritten : (r a : Row) → updated (is_row r.model r.id) (λ _. a) (some r) ≡ some a
  overwritten r a = ground arith

  pub find_row_changed :
      (d : Records) (e : Entity) (i p : ℕ) (base : Option ℤ) (r : Row) (d' : Records)
      → IsKeyed d
      → fetch_obj env d.rows e i p ≡ some r
      → (w : IsWritten env d base r d') → find_row (model_of e) i d'.rows ≡ some w.after
  find_row_changed d e i p base r d' keyed fetched w =
      find_row-written d base r d' w (model_of e) i
      ∙ ap (updated (is_row r.model r.id) (λ _. w.after)) (find_row-fetched d e i p r keyed fetched)
      ∙ overwritten r w.after

  apart_from_new :
      (m : Model) (j : ℕ) (e : Entity) (i : ℕ) (a : Row)
      → (model_tag m == model_tag (model_of e) && j == i) ≡ false
      → is_row (model_of e) i a ≡ true
      → is_row m j a ≡ false
  apart_from_new m j e i a other h = ground (arith, other, h)

  kept_apart :
      (m : Model) (j : ℕ) (r a : Row) (rows : List Row)
      → is_row m j r ≡ false
      → updated (is_row r.model r.id) (λ _. a) (find (is_row m j) rows) ≡ find (is_row m j) rows
  kept_apart m j r a rows other = elim (Option-cases (find (is_row m j) rows)) [
    | inl none_there ↦ rw none_there refl
    | inr (x, there) ↦
        let passes = find_passes (is_row m j) x rows there in
        rw there (ground (arith, other, passes))
  ]

  find_row-created :
      (d : Records) (e : Entity) (i p u : ℕ) (d' : Records) (t : IsCreated env d e i p u d')
      (m : Model) (j : ℕ)
      → is_row m j t.after ≡ false
      → find_row m j d'.rows ≡ find_row m j d.rows
  unfolding find_row find
  find_row-created d e i p u d' t m j other =
      ap (find (is_row m j)) t.rows
      ∙ find-append (is_row m j) d.rows (t.after ∷ [])
      ∙ ground (arith, other)

  -- A change that succeeds leaves every row but that of its own key as it was: `m` and `j` are
  -- another table or another id than those of the changed record.
  pub change_frame :
      (u p : ℕ) (e : Entity) (op : Op) (base : Option ℤ) (fields : Fields) (c : ℕ) (d : Records)
      (i : ℕ) (d' : Records) (m : Model) (j : ℕ)
      → (model_tag m == model_tag (model_of e) && j == i) ≡ false
      → apply_change env u p e op base fields c d ≡ done i d'
      → find_row m j d'.rows ≡ find_row m j d.rows
  unfolding find_row
  change_frame u p e op base fields c d i d' m j other h =
      let (_, applied) = apply_change-IsApplied env u p e op base fields c d i d' h in
      elim applied [
        | IsApplied.creates _ t ↦
            find_row-created d e i p u d' t m j
              (apart_from_new m j e i t.after other (created_at_key d e i p u d' t))
        | IsApplied.skips _ same ↦ ap (λ (s : Records). find (is_row m j) s.rows) same
        | IsApplied.writes r fetched w ↦
            find_row-written d base r d' w m j
            ∙ kept_apart m j r w.after d.rows
                (apart_from_new m j e i r other (fetch_obj-is_row env d.rows e i p r fetched))
      ]
