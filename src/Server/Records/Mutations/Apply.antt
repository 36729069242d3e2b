-- ===== src/Server/Records/Mutations/Apply.antt =====
-- _apply_upsert and _apply_delete of sync/mutations.py, up to the flush, as a backend of the push.
use risk_opportunity_manager.Prelude.{
  ℕ, ℤ, Bool, true, false, Option, none, some, [], ◌∷◌, ◌++◌, if◌then◌else◌, String,
}
use risk_opportunity_manager.Protocol.{Entity, Op, upsert}
use risk_opportunity_manager.Json.{Fields, Value, text, truthy}
use risk_opportunity_manager.Server.Push.{Attempt, done, failed, Backend, Change}
use risk_opportunity_manager.Server.Records.{
  Row, Records, Env, value_of, fetch_obj, is_deleted, current_server_state,
}
use risk_opportunity_manager.Server.Records.Mutations.{
  Try, value, raised, ◌>>=◌, bad_request, soft_delete,
}
use risk_opportunity_manager.Server.Records.Mutations.Claim.{claim_existing}
use risk_opportunity_manager.Server.Records.Mutations.Flush.{flush_row, replace_row}
use risk_opportunity_manager.Server.Records.Mutations.Create.{create_new}
use risk_opportunity_manager.Server.Records.Mutations.Update.{update_existing}

module _ (env : Env) where
  abbrev pub audit : ℕ → ℕ → ℕ → Entity → ℕ → Bool → Option Row → Records × Row → ℕ × Records
  audit u p c e i deleting before (d, after) = (
    i,
    record d {
      audits =
          d.audits
          ++ record {
            user_id = u;
            project_id = p;
            change_id = c;
            entity = e;
            entity_id = i;
            is_delete = deleting;
            before = before;
            after = after;
          }
            ∷ [];
    },
  )

  -- record.id, as parse_uuid reads it
  abbrev pub entity_id_of : Fields → Try ℕ
  entity_id_of fields = elim (env.uuid_of (value_of "id" fields)) [
    | none ↦ bad_request "Invalid UUID for record.id"
    | some i ↦ value i
  ]

  abbrev pub upsert_found :
      ℕ → ℕ → Entity → Option ℤ → Fields → ℕ → Records → ℕ → Option Row → Try (ℕ × Records)
  upsert_found u p e base fields c d i none = do
    made ← create_new env d u p e i fields
    value (audit u p c e i false none made)
  upsert_found u p e base fields c d i (some r) = do
    claimed ← claim_existing env d e i p u base r
    made ← update_existing env claimed p e r fields
    value (audit u p c e i false (some r) made)

  unfoldable pub apply_upsert : ℕ → ℕ → Entity → Option ℤ → Fields → ℕ → Records → Try (ℕ × Records)
  unfolding fetch_obj create_new claim_existing update_existing value_of
  apply_upsert u p e base fields c d = do
    i ← entity_id_of fields
    upsert_found u p e base fields c d i (fetch_obj env d.rows e i p)

  abbrev pub delete_found :
      ℕ → ℕ → Entity → Option ℤ → ℕ → Records → ℕ → Option Row → Try (ℕ × Records)
  delete_found u p e base c d i none = value (i, d)
  delete_found u p e base c d i (some r) = do
    claimed ← claim_existing env d e i p u base r
    made ← flush_row env claimed (soft_delete env d.now r) (replace_row r.model r.id)
    value (audit u p c e i true (some r) made)

  unfoldable pub apply_delete : ℕ → ℕ → Entity → Option ℤ → Fields → ℕ → Records → Try (ℕ × Records)
  unfolding fetch_obj claim_existing flush_row soft_delete value_of
  apply_delete u p e base fields c d = do
    i ← entity_id_of fields
    delete_found u p e base c d i (fetch_obj env d.rows e i p)

  -- a failure rolls the savepoint back
  abbrev pub attempt_of : Try (ℕ × Records) → Attempt Records
  attempt_of (value (i, d)) = done i d
  attempt_of (raised f) = failed f

  abbrev pub apply_change : ℕ → ℕ → Entity → Op → Option ℤ → Fields → ℕ → Records → Attempt Records
  apply_change u p e upsert base fields c d = attempt_of (apply_upsert u p e base fields c d)
  apply_change u p e Op.delete base fields c d = attempt_of (apply_delete u p e base fields c d)

  abbrev tombstone : Option Row → Bool
  tombstone none = false
  tombstone (some r) = is_deleted r

  -- maybe_entity_id: str(rid) of a value that is set
  unfoldable pub maybe_entity_id : Fields → Option ℕ
  unfolding value_of
  maybe_entity_id fields =
      let rid = value_of "id" fields in if truthy rid then env.uuid_of rid else none

  abbrev text_value : Value → Option String
  text_value (text s) = some s
  text_value _ = none

  -- updated_at_text, of a serialized record
  unfoldable pub updated_at_text : Option Fields → Option String
  unfolding value_of
  updated_at_text none = none
  updated_at_text (some d) = text_value (value_of "updated_at" d)

  -- the push engine on these records; `hash` is payload_hash
  abbrev pub records_backend : (Change → ℕ) → Backend Records
  records_backend hash = record {
    apply = apply_change;
    current_server_state = current_server_state env;
    is_tombstone = λ d e i p. tombstone (fetch_obj env d.rows e i p);
    maybe_entity_id = maybe_entity_id;
    updated_at_text = updated_at_text;
    payload_hash = hash;
  }
