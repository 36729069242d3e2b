-- ===== src/Server/Records/Mutations/Validate.antt =====
-- _parse_record and _validate_relationships of sync/mutations.py.
use Prim.Native.String.{◌++◌ as append}
use risk_opportunity_manager.Prelude.{ℕ, Bool, true, false, Option, none, some, List, if◌then◌else◌}
use risk_opportunity_manager.Protocol.{Entity, action, assessment, same_entity}
use risk_opportunity_manager.Json.{Fields, Value, null, truthy}
use risk_opportunity_manager.Server.Records.{Row, Env, valid, refused, value_of, project_item}
use risk_opportunity_manager.Server.Records.Mutations.{Try, value, bad_request, Parsed, parse_valid}

abbrev kind_matches : Option Entity → Entity → Bool
kind_matches none k = true
kind_matches (some e) k = same_entity k e

module _ (env : Env) where
  -- _parse_record
  unfoldable pub parse_record : Entity → Fields → Try Parsed
  parse_record e d = elim (env.validate e d) [
    | refused detail ↦ bad_request (append "Validation error: " detail)
    | valid fields ↦ parse_valid e fields
  ]

  -- _ensure_item_in_project
  unfoldable pub ensure_item_in_project : List Row → ℕ → Value → Option Entity → Try (Unit {0})
  unfolding project_item
  ensure_item_in_project rows p v expected = elim (env.uuid_of v) [
    | none ↦ bad_request "Invalid UUID for item_id"
    | some i ↦ elim (project_item env rows p (some i)) [
      | none ↦ bad_request "Target not found in project"
      | some item ↦
          if kind_matches expected item.kind
          then value tt
          else bad_request "Target not found in project"
    ]
  ]

  abbrev old_parent : Option Row → Value
  old_parent none = null
  old_parent (some r) = value_of "item_id" r.columns

  abbrev is_new : Option Row → Bool
  is_new none = true
  is_new (some r) = false

  -- _validate_relationships
  unfoldable pub validate_relationships :
      List Row → ℕ → Entity → Parsed → Option Row → Try (Unit {0})
  unfolding ensure_item_in_project value_of
  validate_relationships rows p assessment val obj =
      let wanted = value_of "item_id" val.fields in
      let target = if truthy wanted then wanted else old_parent obj in
      if truthy target
      then ensure_item_in_project rows p target val.target
      else if is_new obj
      then bad_request "item_id is required"
      else value tt
  validate_relationships rows p action val obj =
      let wanted = value_of "item_id" val.fields in
      if truthy wanted then ensure_item_in_project rows p wanted val.target else value tt
  validate_relationships rows p e val obj = value tt
