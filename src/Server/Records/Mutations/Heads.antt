-- ===== src/Server/Records/Mutations/Heads.antt =====
-- What the operations on one row leave alone: its key, its project, its type, its owner and its version.
use risk_opportunity_manager.Prelude.{
  ℕ, ◌+◌, ◌≡◌, refl, ap, ◌∙◌, Bool, true, false, Bool-cases, inl, inr, [], ◌∷◌, if◌then◌else◌,
  String,
}
use risk_opportunity_manager.Protocol.{Entity}
use risk_opportunity_manager.Json.{Fields, Value, null, bool, int, text, truthy}
use risk_opportunity_manager.Server.Records.{
  Model, items, actions, assessments, tickets, Row, Env, value_of,
}
use risk_opportunity_manager.Server.Records.Mutations.{
  has_score, change_status, soft_delete, recalculate_item_scores, compute_score, set_column,
  mark_status, same_value, client_fields,
}
use risk_opportunity_manager.Server.Records.Mutations.Flush.{stamp}
use risk_opportunity_manager.Server.Records.Mutations.Update.{
  set_fields, updated_row, next_version, restamped, finish_update, is_status,
}

pub record Head : Type 0 where
  pub model : Model
  pub id : ℕ
  pub project_id : ℕ
  pub kind : Entity
  pub assessor : ℕ
  pub version : ℕ

abbrev pub head : Row → Head
head r = record {
  model = r.model;
  id = r.id;
  project_id = r.project_id;
  kind = r.kind;
  assessor = r.assessor;
  version = r.version;
}

abbrev pub bumped : Head → Head
bumped h = record h { version = h.version + 1 }

head-compute_score : (r : Row) → head (compute_score r) ≡ head r
unfolding compute_score
head-compute_score r = elim (Bool-cases (has_score r.model)) [
  | inl scored ↦ rw scored refl
  | inr unscored ↦ rw unscored refl
]

pub head-recalculate_item_scores : (r : Row) → head (recalculate_item_scores r) ≡ head r
unfolding recalculate_item_scores
head-recalculate_item_scores r = elim (Bool-cases (has_score r.model)) [
  | inl scored ↦ rw scored refl
  | inr unscored ↦ rw unscored refl
]

module _ (env : Env) where
  pub head-stamp : (n : ℕ) (r : Row) → head (stamp env n r) ≡ head r
  head-stamp n r = head-compute_score r

  head-change_status :
      (status : Value) (now : ℕ) (r : Row) → head (change_status env status now r) ≡ head r
  unfolding change_status
  head-change_status status now r =
      elim (Bool-cases (same_value (value_of "status" r.columns) status)) [
        | inl same ↦ rw same refl
        | inr other ↦ elim (Bool-cases (same_value status (text "happened"))) [
          | inl happened ↦ rw (other, happened) refl
          | inr live ↦ rw (other, live) refl
        ]
      ]

  head-mark_status : (m : Model) (now : ℕ) (r : Row) → head (mark_status env m now r) ≡ head r
  head-mark_status items now r = head-change_status (text "deleted") now r
  head-mark_status actions now r = refl
  head-mark_status assessments now r = refl
  head-mark_status tickets now r = refl

  pub head-soft_delete : (now : ℕ) (r : Row) → head (soft_delete env now r) ≡ bumped (head r)
  unfolding soft_delete
  head-soft_delete now r =
      head-mark_status r.model now (record (set_column "is_deleted" (bool true) r) {
        updated_at = now;
        version = r.version + 1;
      })

  head_set :
      (status : Bool) (now : ℕ) (k : String) (v : Value) (r : Row)
      → head (if status then change_status env v now r else set_column k v r) ≡ head r
  head_set true now k v r = head-change_status v now r
  head_set false now k v r = refl

  head-set_fields :
      (now : ℕ) (fields : Fields) (r : Row) → head (set_fields env now fields r) ≡ head r
  unfolding set_fields
  head-set_fields now [] r = refl
  head-set_fields now ((k, v) ∷ rest) r =
      head-set_fields now rest
        (if is_status r.model k then change_status env v now r else set_column k v r)
      ∙ head_set (is_status r.model k) now k v r

  head-restamped : (now : ℕ) (r : Row) → head (restamped env now r) ≡ head r
  head-restamped now r = head-recalculate_item_scores r

  head_finished :
      (deleting : Bool) (now : ℕ) (r : Row)
      → head (
          if deleting
          then restamped env now (soft_delete env now r)
          else next_version env (restamped env now (set_column "is_deleted" (bool false) r)))
        ≡ bumped (head r)
  head_finished true now r = head-restamped now (soft_delete env now r) ∙ head-soft_delete now r
  head_finished false now r =
      ap bumped (head-restamped now (set_column "is_deleted" (bool false) r))

  head-finish_update :
      (v : Value) (now : ℕ) (r : Row) → head (finish_update env v now r) ≡ bumped (head r)
  head-finish_update null now r = ap bumped (head-restamped now r)
  head-finish_update (bool b) now r = head_finished (truthy (bool b)) now r
  head-finish_update (int n) now r = head_finished (truthy (int n)) now r
  head-finish_update (text s) now r = head_finished (truthy (text s)) now r

  pub head-updated_row :
      (now : ℕ) (fields : Fields) (r : Row) → head (updated_row env now fields r) ≡ bumped (head r)
  unfolding updated_row
  head-updated_row now fields r =
      head-finish_update (value_of "is_deleted" fields) now
        (set_fields env now (client_fields r.model fields) r)
      ∙ ap bumped (head-set_fields now (client_fields r.model fields) r)
