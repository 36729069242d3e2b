-- ===== src/Client/Outbox/Queue.antt =====
-- Queueing local edits: _replace_outbox_entry and its callers in sync_outbox_queue.py.
-- The identifier from uuid4 and the time are arguments.
use risk_opportunity_manager.Prelude.{
  ℕ, ℤ, pos, Bool, true, false, ◌&&◌, ◌||◌, Option, none, some, [], ◌∷◌, ◌++◌, if◌then◌else◌, leb_ℤ,
  find, delete, update,
}
use risk_opportunity_manager.Protocol.{Entity, Op, upsert}
use risk_opportunity_manager.Json.{Fields}
use risk_opportunity_manager.Client.Outbox.{
  Row, Table, pending, is_pending, is_retry, is_blocked, is_conflict, has_id, is_for, is_open_for,
  oldest_open_entry, create_may_exist_remotely, remote_create_may_exist,
}

-- the keyword arguments of _replace_outbox_entry
pub record Entry : Type 0 where
  pub project_id : ℕ
  pub entity : Entity
  pub op : Op
  pub entity_id : ℕ
  pub base_version : Option ℤ
  pub fields : Fields

abbrev pub is_conflict_block : Row → Bool
is_conflict_block r = is_blocked r.status && is_conflict r.failure_kind

-- the INSERT, with the columns' defaults
unfoldable pub new_row : ℕ → ℕ → Entry → Option ℤ → Row
new_row fresh now e base = record {
  change_id = fresh;
  project_id = e.project_id;
  entity = e.entity;
  op = e.op;
  entity_id = e.entity_id;
  base_version = base;
  fields = e.fields;
  status = pending;
  last_error = "";
  failure_kind = none;
  result = none;
  retry_count = 0;
  next_retry_at = none;
  last_attempt_at = none;
  created_at = now;
}

unfoldable pub delete_open_entries : ℕ → Entity → ℕ → Table → Table
delete_open_entries p e i rows = delete (is_open_for p e i) rows

-- The first unacknowledged edit's base; a create that was sent counts as version 1.
unfoldable pub squashed_base : Option ℤ → Option Row → Option ℤ
squashed_base base none = base
squashed_base base (some r) = elim r.base_version [
  | some b ↦ some b
  | none ↦ if create_may_exist_remotely (some r) then some (pos 1) else none
]

abbrev pub refresh_mine : Entry → Row → Row
refresh_mine e r = record r { op = e.op; fields = e.fields }

unfoldable pub replace_rows : ℕ → ℕ → Entry → Option Row → Table → Table
unfolding new_row delete_open_entries squashed_base
replace_rows fresh now e existing rows =
    delete_open_entries e.project_id e.entity e.entity_id rows
    ++ new_row fresh now e (squashed_base e.base_version existing) ∷ []

-- the body of the transaction, given the row that it read
unfoldable pub replace_existing : ℕ → ℕ → Entry → Option Row → Table → Table × ℕ
unfolding replace_rows
replace_existing fresh now e none rows = (replace_rows fresh now e none rows, fresh)
replace_existing fresh now e (some r) rows =
    if is_conflict_block r
    then (update (has_id r.change_id) (refresh_mine e) rows, r.change_id)
    else (replace_rows fresh now e (some r) rows, fresh)

-- _replace_outbox_entry: the table afterwards and the change id that is returned
unfoldable pub replace_outbox_entry : ℕ → ℕ → Entry → Bool → Table → Table × ℕ
unfolding replace_existing
replace_outbox_entry fresh now e force_rebase rows =
    replace_existing fresh now e
      (if force_rebase then none else oldest_open_entry e.project_id e.entity e.entity_id rows) rows

unfoldable pub override_base_version : ℕ → Entity → ℕ → Option ℤ → Table → Table
override_base_version p e i none rows = rows
override_base_version p e i (some v) rows =
    let bv = if leb_ℤ (pos 1) v then some v else none in
    update (λ r. is_for p e i r && (is_pending r.status || is_retry r.status))
      (λ r. record r { base_version = bv }) rows

unfoldable pub discard_entity_changes : ℕ → Entity → ℕ → Table → Table
unfolding delete_open_entries
discard_entity_changes = delete_open_entries

-- base_v = ver if ver >= 1 else None
abbrev pub base_of : ℤ → Option ℤ
base_of ver = if leb_ℤ (pos 1) ver then some ver else none

-- _queue_simple_upsert; `ver` is the version of the local row
unfoldable pub queue_simple_upsert : ℕ → ℕ → ℕ → Entity → ℕ → Fields → ℤ → Table → Table
unfolding replace_outbox_entry
queue_simple_upsert fresh now p e i fields ver rows =
    (replace_outbox_entry fresh now
      (record {
        project_id = p;
        entity = e;
        op = upsert;
        entity_id = i;
        base_version = base_of ver;
        fields = fields;
      })
      false rows).0

abbrev pub delete_entry : ℕ → Entity → ℕ → Fields → ℤ → Entry
delete_entry p e i fields base = record {
  project_id = p;
  entity = e;
  op = Op.delete;
  entity_id = i;
  base_version = some base;
  fields = fields;
}

-- _queue_delete; `fields` is {"id": entity_id}
unfoldable pub queue_delete : ℕ → ℕ → ℕ → Entity → ℕ → Fields → ℤ → Table → Table
unfolding replace_outbox_entry discard_entity_changes
queue_delete fresh now p e i fields ver rows =
    if leb_ℤ (pos 1) ver
    then (replace_outbox_entry fresh now (delete_entry p e i fields ver) false rows).0
    else if remote_create_may_exist p e i rows
    then (replace_outbox_entry fresh now (delete_entry p e i fields (pos 1)) true rows).0
    else discard_entity_changes p e i rows

unfoldable pub requeue_conflict_with_new_id : ℕ → ℕ → ℕ → ℤ → Table → Table × Option ℕ
unfolding replace_outbox_entry
requeue_conflict_with_new_id fresh now c server_version rows = elim (find (has_id c) rows) [
  | none ↦ (rows, none)
  | some r ↦
      let (rows', c') =
        replace_outbox_entry fresh now
          (record {
            project_id = r.project_id;
            entity = r.entity;
            op = r.op;
            entity_id = r.entity_id;
            base_version = some server_version;
            fields = r.fields;
          })
          true rows in
      (rows', some c')
]

unfoldable pub queue_merged_upsert : ℕ → ℕ → ℕ → Entity → ℕ → ℤ → Fields → Table → Table × ℕ
unfolding replace_outbox_entry
queue_merged_upsert fresh now p e i server_version fields rows =
    replace_outbox_entry fresh now
      (record {
        project_id = p;
        entity = e;
        op = upsert;
        entity_id = i;
        base_version = some server_version;
        fields = fields;
      })
      true rows
