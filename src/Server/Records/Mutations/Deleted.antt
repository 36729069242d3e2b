-- ===== src/Server/Records/Mutations/Deleted.antt =====
-- The row that _apply_delete of sync/mutations.py leaves.
use risk_opportunity_manager.Prelude.{
  ℕ, ◌+◌, ℤ, ◌≡◌, ◌⊎◌, refl, sym, ap, subst, ◌∙◌, true, false, Bool-cases, Option-cases, inl, inr,
  Option, none, some, List, find_passes, find-update, find-overwrite, updated, String,
  if◌then◌else◌,
}
use package.text.Mathlib.Text.{◌==◌ as str_eq}
use risk_opportunity_manager.Protocol.{Entity, Op}
use risk_opportunity_manager.Json.{Fields, Value, bool, text, int, get, get-put, truthy}
use risk_opportunity_manager.Server.Push.{done}
use risk_opportunity_manager.Server.Records.{
  Row, Records, Env, Model, items, actions, assessments, tickets, model_of, is_row, fetch_obj,
  find_row, value_of, is_deleted, or_null,
}
use risk_opportunity_manager.Server.Records.Mutations.{
  value, ◌>>=◌, soft_delete, mark_status, change_status, set_column, compute_score, has_score,
  same_value, or_one, score_of,
}
use risk_opportunity_manager.Server.Records.Mutations.Flush.{stamp, replace_row, flush_row}
use risk_opportunity_manager.Server.Records.Mutations.Claim.{claim_existing, claims}
use risk_opportunity_manager.Server.Records.Mutations.Apply.{
  apply_change, apply_delete, entity_id_of, delete_found, audit,
}
use risk_opportunity_manager.Server.Records.Mutations.Heads.{
  head, bumped, head-stamp, head-soft_delete,
}
use risk_opportunity_manager.Server.Records.Mutations.Written.{same_key}
use risk_opportunity_manager.Server.Records.Mutations.Flushed.{
  flush_row-IsFlushed, bind-value, value-injective,
}
use risk_opportunity_manager.Server.Records.Mutations.Locking.{claim_existing-IsClaimed, advanced}
use risk_opportunity_manager.Server.Records.Mutations.Applied.{
  fetch_obj-is_row, audited, done-value,
}
use risk_opportunity_manager.Server.Records.Mutations.Keys.{IsKeyed, same_test, find_row-fetched}

abbrev flag : Row → Option Value
flag r = get "is_deleted" r.columns

flag-set_column :
    (k : String) (v : Value) (r : Row)
    → str_eq k "is_deleted" ≡ false
    → flag (set_column k v r) ≡ flag r
flag-set_column k v r other = get-put k "is_deleted" v r.columns ∙ rw other refl

flag-compute_score : (r : Row) → flag (compute_score r) ≡ flag r
unfolding compute_score
flag-compute_score r = elim (Bool-cases (has_score r.model)) [
  | inl scored ↦ rw scored (
      flag-set_column "score"
        (int (
          score_of (or_one (value_of "probability" r.columns))
            (or_one (value_of "impact" r.columns))))
        r refl)
  | inr unscored ↦ rw unscored refl
]

module _ (env : Env) where
  flag-change_status :
      (status : Value) (now : ℕ) (r : Row) → flag (change_status env status now r) ≡ flag r
  unfolding change_status
  flag-change_status status now r =
      elim (Bool-cases (same_value (value_of "status" r.columns) status)) [
        | inl same ↦ rw same refl
        | inr other ↦ elim (Bool-cases (same_value status (text "happened"))) [
          | inl happened ↦
              rw (other, happened)
                (flag-set_column "occurred_at" (text (env.iso_text now))
                    (set_column "status" status r) refl
                  ∙ flag-set_column "status" status r refl)
          | inr live ↦ rw (other, live) (flag-set_column "status" status r refl)
        ]
      ]

  flag-mark_status : (m : Model) (now : ℕ) (r : Row) → flag (mark_status env m now r) ≡ flag r
  flag-mark_status items now r = flag-change_status (text "deleted") now r
  flag-mark_status actions now r = refl
  flag-mark_status assessments now r = refl
  flag-mark_status tickets now r = refl

  flag-soft_delete : (now : ℕ) (r : Row) → flag (soft_delete env now r) ≡ some (bool true)
  unfolding soft_delete
  flag-soft_delete now r =
      flag-mark_status r.model now (record (set_column "is_deleted" (bool true) r) {
        updated_at = now;
        version = r.version + 1;
      })
      ∙ get-put "is_deleted" "is_deleted" (bool true) r.columns

  pub is_deleted-stamp :
      (n now : ℕ) (r : Row) → is_deleted (stamp env n (soft_delete env now r)) ≡ true
  unfolding value_of truthy
  is_deleted-stamp n now r =
      ap (λ (o : Option Value). truthy (or_null o))
        (flag-compute_score (soft_delete env now r) ∙ flag-soft_delete now r)

  find_row-advanced :
      (d : Records) (e : Entity) (i p u b : ℕ) (r : Row)
      → find_row (model_of e) i d.rows ≡ some r
      → (x : Row) × (find_row (model_of e) i (advanced env d e i p u b) ≡ some x)
  unfolding find_row
  find_row-advanced d e i p u b r found =
      let claimed = claims env d.rows e i p u b in
      let raise : Row → Row = λ x. record x { version = x.version + 1; updated_at = d.now } in
      (
        if claimed r then raise r else r,
        find-update (is_row (model_of e) i) claimed raise (λ x. refl) d.rows
            ∙ ap (updated claimed raise) found,
      )

  find_row_replaced :
      (m : Model) (i : ℕ) (r a x : Row) (rows : List Row)
      → is_row m i r ≡ true
      → head a ≡ bumped (head r)
      → find_row m i rows ≡ some x
      → find_row m i (replace_row r.model r.id a rows) ≡ some a
  unfolding find_row
  find_row_replaced m i r a x rows h kept found =
      find-overwrite (is_row m i) (is_row r.model r.id) a (λ y k. same_test m i r a y kept k) rows
      ∙ ap (updated (is_row r.model r.id) (λ _. a)) found
      ∙ over (same_key m i r x h (find_passes (is_row m i) x rows found))
    where
      over : is_row r.model r.id x ≡ true → updated (is_row r.model r.id) (λ _. a) (some x) ≡ some a
      over k = rw k refl

  deleted_row :
      (u p : ℕ) (e : Entity) (base : Option ℤ) (c : ℕ) (d : Records) (i j : ℕ) (r : Row)
      (d' : Records)
      → is_row (model_of e) i r ≡ true
      → find_row (model_of e) i d.rows ≡ some r
      → delete_found env u p e base c d i (some r) ≡ value (j, d')
      → (j ≡ i)
        × ((after : Row) × (find_row (model_of e) i d'.rows ≡ some after)
            × (is_deleted after ≡ true))
  deleted_row u p e base c d i j r d' named found h =
      let gone = soft_delete env d.now r in
      let (claimed, claiming, deleting) =
        bind-value (claim_existing env d e i p u base r)
          (λ claimed. do
            made ← flush_row env claimed gone (replace_row r.model r.id)
            value (audit env u p c e i true (some r) made))
          (j, d') h in
      let ((made, after), writing, last) =
        bind-value (flush_row env claimed gone (replace_row r.model r.id))
          (λ made. value (audit env u p c e i true (some r) made)) (j, d') deleting in
      let (same, (rows, _)) = audited env made u p c e i true (some r) after j d' last in
      let flushed =
        flush_row-IsFlushed env claimed gone (replace_row r.model r.id) made after writing in
      let claim = claim_existing-IsClaimed env d e i p u base r claimed claiming in
      let (x, there) = find_row-advanced d e i p u r.version r found in
      let kept =
        ap head flushed.row ∙ head-stamp env flushed.number gone ∙ head-soft_delete env d.now r in
      (
        same,
        (
          after,
          ap (find_row (model_of e) i) (
                rows
                ∙ ap (λ (s : Records). s.rows) flushed.records
                ∙ ap (λ (s : Records). replace_row r.model r.id after s.rows) claim.records)
              ∙ find_row_replaced (model_of e) i r after x (advanced env d e i p u r.version) named
                  kept there,
          ap is_deleted flushed.row ∙ is_deleted-stamp flushed.number d.now r,
        ),
      )

  -- On records whose keys are unique, a delete that succeeds either finds no such row in the project
  -- and changes nothing, or leaves the row as a deleted one.
  pub apply_delete_lem :
      (u p : ℕ) (e : Entity) (base : Option ℤ) (fields : Fields) (c : ℕ) (d : Records) (i : ℕ)
      (d' : Records)
      → IsKeyed d
      → apply_change env u p e Op.delete base fields c d ≡ done i d'
      → ((fetch_obj env d.rows e i p ≡ none) × (d' ≡ d))
        ⊎ ((after : Row) × (find_row (model_of e) i d'.rows ≡ some after)
            × (is_deleted after ≡ true))
  unfolding apply_delete
  apply_delete_lem u p e base fields c d j d' keyed h =
      let (i, _, found) =
        bind-value (entity_id_of env fields)
          (λ i. delete_found env u p e base c d i (fetch_obj env d.rows e i p)) (j, d')
          (done-value env (apply_delete env u p e base fields c d) j d' h) in
      elim (Option-cases (fetch_obj env d.rows e i p)) [
        | inl missing ↦
            let same = value-injective (rw missing at found) in
            inl (
              subst (λ k. fetch_obj env d.rows e k p ≡ none) (ap (λ x. x.0) same) missing,
              sym (ap (λ x. x.1) same),
            )
        | inr (r, fetched) ↦
            let (same, deleted) =
              deleted_row u p e base c d i j r d' (fetch_obj-is_row env d.rows e i p r fetched)
                (find_row-fetched env d e i p r keyed fetched) (rw fetched at found) in
            inr (
              subst
                (λ k.
                  (after : Row) × (find_row (model_of e) k d'.rows ≡ some after)
                  × (is_deleted after ≡ true))
                (sym same) deleted)
      ]
