-- ===== src/Server/Records/Mutations/Update.antt =====
-- _update_existing of sync/mutations.py.
use package.text.Mathlib.Text.{◌==◌ as str_eq}
use risk_opportunity_manager.Prelude.{ℕ, ◌+◌, Bool, false, some, [], ◌∷◌, if◌then◌else◌, String}
use risk_opportunity_manager.Protocol.{Entity}
use risk_opportunity_manager.Json.{Fields, Value, null, bool, text, put, truthy}
use risk_opportunity_manager.Server.Records.{Model, items, Row, Records, Env, value_of}
use risk_opportunity_manager.Server.Records.Mutations.{
  Try, ◌>>=◌, client_fields, set_column, change_status, soft_delete, recalculate_item_scores,
}
use risk_opportunity_manager.Server.Records.Mutations.Validate.{
  parse_record, validate_relationships,
}
use risk_opportunity_manager.Server.Records.Mutations.Flush.{flush_row, replace_row}

abbrev pub is_status : Model → String → Bool
is_status items k = str_eq k "status"
is_status _ k = false

module _ (env : Env) where
  -- the loop over the client's fields of an existing row
  unfoldable pub set_fields : ℕ → Fields → Row → Row
  unfolding change_status put
  set_fields now [] r = r
  set_fields now ((k, v) ∷ rest) r =
      set_fields now rest
        (if is_status r.model k then change_status env v now r else set_column k v r)

  abbrev pub next_version : Row → Row
  next_version r = record r { version = r.version + 1 }

  abbrev pub restamped : ℕ → Row → Row
  restamped now r = record (recalculate_item_scores r) { updated_at = now }

  -- what is_deleted does to the row: it is kept, deleted or restored
  abbrev pub finish_update : Value → ℕ → Row → Row
  finish_update null now r = next_version (restamped now r)
  finish_update v now r =
      if truthy v
      then restamped now (soft_delete env now r)
      else next_version (restamped now (set_column "is_deleted" (bool false) r))

  -- the new state of the row, in _update_existing
  unfoldable pub updated_row : ℕ → Fields → Row → Row
  unfolding set_fields client_fields soft_delete recalculate_item_scores value_of put
  updated_row now fields r =
      finish_update (value_of "is_deleted" fields) now
        (set_fields now (client_fields r.model fields) r)

  unfoldable pub update_existing : Records → ℕ → Entity → Row → Fields → Try (Records × Row)
  unfolding parse_record validate_relationships updated_row flush_row
  update_existing d p e r fields = do
    val ← parse_record env e fields
    _ ← validate_relationships env d.rows p e val (some r)
    flush_row env d (updated_row d.now val.fields r) (replace_row r.model r.id)
