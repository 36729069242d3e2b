-- ===== src/Client/Merge/Apply.antt =====
-- A merged record in the local copy: apply_merged_fields of server_state.py. A RuntimeError, a KeyError
-- or an IntegrityError is `none`.
use package.text.Mathlib.Text.{◌==◌ as str_eq}
use risk_opportunity_manager.Prelude.{
  ℕ, ℤ, ◌≡◌, refl, ap, subst, ◌∙◌, Bool, true, false, not, Option, none, some, List, [], ◌∷◌,
  if◌then◌else◌, ◌==◌, String, find, find-update, updated, update, count, Bool-cases, inl, inr,
}
use risk_opportunity_manager.Protocol.{Entity, assessment, is_scored}
use risk_opportunity_manager.Json.{Fields, Value, int, get, put}
use risk_opportunity_manager.Client.Merge.{merge_fields}
use risk_opportunity_manager.Client.Store.{Python, Item, Items, is_item, is_item_in}
use risk_opportunity_manager.Client.Store.Reading.{int_value}
use risk_opportunity_manager.Client.Store.Pull.{mul_ℤ}
use risk_opportunity_manager.Client.Store.Acks.{breaks_index}

-- {key}=? for each key of MERGE_FIELDS in the record; a code has its own column here
unfoldable pub with_merged : List String → Fields → Fields → Fields
unfolding get put
with_merged [] ent columns = columns
with_merged (k ∷ keys) ent columns = elim (get k ent) [
  | none ↦ with_merged keys ent columns
  | some v ↦
      let code = with_merged keys ent columns in
      let written = with_merged keys ent (put k v columns) in
      if str_eq k "code" then code else written
]

module _ (py : Python) where
  abbrev int_field : Option Value → Option ℤ
  int_field none = none
  int_field (some v) = int_value py v

  abbrev product : Option ℤ → Option ℤ → Option ℤ
  product (some a) (some b) = some (mul_ℤ a b)
  product _ _ = none

  -- the columns of the update: an assessment's score is computed again
  unfoldable pub merged_columns : Entity → Fields → Fields → Option Fields
  unfolding with_merged get put
  merged_columns assessment ent columns =
      elim (product (int_field (get "probability" ent)) (int_field (get "impact" ent))) [
        | none ↦ none
        | some score ↦
            some (put "score" (int score) (with_merged (merge_fields assessment) ent columns))
      ]
  merged_columns e ent columns = some (with_merged (merge_fields e) ent columns)

  abbrev merged_code : Entity → Option Value → Option (Option String)
  merged_code e none = none
  merged_code e (some v) = if is_scored e then some (py.column_text v) else none

  abbrev code_or : Option (Option String) → Option String → Option String
  code_or none code = code
  code_or (some code) old = code

  abbrev columns_or : Option Fields → Fields → Fields
  columns_or none columns = columns
  columns_or (some columns) old = columns

  abbrev is_read : Option Fields → Bool
  is_read none = false
  is_read (some columns) = true

  -- the row that is marked dirty at its version
  unfoldable pub merged_row : Entity → Fields → Item → Item
  unfolding merged_columns get
  merged_row e ent r = record r {
    dirty = true;
    code = code_or (merged_code e (get "code" ent)) r.code;
    columns = columns_or (merged_columns e ent r.columns) r.columns;
  }

  -- apply_merged_fields: exactly one row must be there
  unfoldable pub apply_merged_fields : Entity → ℕ → ℕ → Fields → Items → Option Items
  unfolding merged_columns merged_row count update get find
  apply_merged_fields e p i ent items =
      if not (is_read (merged_columns e ent []))
      then none
      else if breaks_index e p i (merged_code e (get "code" ent)) items
      then none
      else if count (is_item_in e p i) items == 1
      then some (update (is_item_in e p i) (merged_row e ent) items)
      else none

  -- A merge that is written changes no row but the merged one, which stays at its version and is dirty.
  pub apply_merged_fields_lem :
      (e : Entity) (p i : ℕ) (ent : Fields) (items left : Items)
      → apply_merged_fields e p i ent items ≡ some left
      → (d : Entity) (j : ℕ) (r : Item) → find (is_item d j) items ≡ some r
      → (r' : Item) × (find (is_item d j) left ≡ some r')
        × (r'.version ≡ r.version)
        × (r'.dirty ≡ (if is_item_in e p i r then true else r.dirty))
        × (r' ≡ (if is_item_in e p i r then merged_row e ent r else r))
  unfolding apply_merged_fields merged_row
  apply_merged_fields_lem e p i ent items left h d j r found =
      let same =
        passed (is_read (merged_columns e ent []))
          (breaks_index e p i (merged_code e (get "code" ent)) items)
          (count (is_item_in e p i) items == 1) (update (is_item_in e p i) (merged_row e ent) items)
          left h in
      let after : find (is_item d j) left ≡ updated (is_item_in e p i) (merged_row e ent) (some r) =
        subst (λ xs. find (is_item d j) xs ≡ updated (is_item_in e p i) (merged_row e ent) (some r))
          same
          (find-update (is_item d j) (is_item_in e p i) (merged_row e ent) (λ x. refl) items
            ∙ ap (updated (is_item_in e p i) (merged_row e ent)) found) in
      elim (Bool-cases (is_item_in e p i r)) [
        | inl here ↦ (merged_row e ent r, after ∙ rw here refl, refl, rw here refl, rw here refl)
        | inr past ↦ (r, after ∙ rw past refl, refl, rw past refl, rw past refl)
      ]
    where
      passed :
          (a b d : Bool) (x left : Items)
          → ◌≡◌ {A = Option Items}
              (if not a then none else if b then none else if d then some x else none)
              (some left)
          → x ≡ left
      passed true false true x left k = cc k
      passed false b d x left k = cc k
      passed true true d x left k = cc k
      passed true false false x left k = cc k
