-- ===== src/Client/Store.antt =====
-- The client's local copy of the server's rows: client adapters/local_storage/server_state.py and the
-- upsert of sqlite_base.py. The tables are one list, each row with the entity whose table holds it; a
-- column that the code does not look into stands in `columns`. An exception that rolls back is `none`.
pub mod Reading
pub mod Pull
pub mod Acks
pub mod Watermark
pub mod Rounds
pub mod Waiting
pub mod Codes
pub mod Confirmed
pub mod Complete
mod Tests
use package.text.Mathlib.Text.{◌==◌ as str_eq}
use risk_opportunity_manager.Prelude.{
  ℕ, ℤ, pos, Bool, true, false, ◌&&◌, ◌||◌, not, Option, none, some, List, [], ◌∷◌, ◌++◌,
  if◌then◌else◌, ◌==◌, String, find, select, update, count,
}
use risk_opportunity_manager.Protocol.{Entity, same_entity}
use risk_opportunity_manager.Json.{Fields, Value, null, get, truthy}
use risk_opportunity_manager.Client.Outbox.{
  Outcome, Row, Table, has_id, is_for, is_open, is_open_for, is_blocked, is_conflict, is_some,
}

-- What Python and SQLite do with a value: str, int of a text (`none` is a
-- ValueError), the value that a TEXT column keeps, and the number that stands for an id's text,
-- another one for another text.
pub record Python : Type 0 where
  pub str : Value → String
  pub int_of : String → Option ℤ
  pub column_text : Value → Option String
  pub number : String → ℕ
  pub id_text : ℕ → String

-- A row of the table of an entity.
pub record Item : Type 0 where
  pub entity : Entity
  pub id : ℕ
  pub project_id : ℕ
  pub version : ℤ
  pub dirty : Bool
  pub code : Option String
  pub columns : Fields

abbrev pub Items : Type 0
Items = List Item

-- id=?, in the table of an entity
abbrev pub is_item : Entity → ℕ → Item → Bool
is_item e i r = same_entity r.entity e && r.id == i

-- project_id=? AND id=?
abbrev pub is_item_in : Entity → ℕ → ℕ → Item → Bool
is_item_in e p i r = is_item e i r && r.project_id == p

abbrev pub same_code : Option String → Option String → Bool
same_code none d = false
same_code (some c) none = false
same_code (some c) (some d) = str_eq c d

-- project_id=? AND code=?; NULL is equal to nothing
abbrev pub has_code_in : Entity → ℕ → Option String → Item → Bool
has_code_in e p c r = same_entity r.entity e && r.project_id == p && same_code c r.code

-- … AND id<>?
abbrev pub holds_code : Entity → ℕ → Option String → ℕ → Item → Bool
holds_code e p c i r = has_code_in e p c r && not (r.id == i)

abbrev pub without_code : Item → Item
without_code r = record r { code = none }

-- entity_id IN _pending_outbox_ids
unfoldable pub is_waiting : ℕ → Entity → ℕ → Table → Bool
unfolding find
is_waiting p e i outbox = is_some (find (is_open_for p e i) outbox)

-- _upsert_row: `none` is the unique index of a project's codes; ON CONFLICT(id) updates the columns
-- that are given, which are all of them
abbrev pub write_item : Option Item → Item → Items → Items
write_item none r rows = rows ++ r ∷ []
write_item (some old) r rows = update (is_item r.entity r.id) (λ _. r) rows

unfoldable pub upsert_row : Item → Items → Option Items
unfolding find update count
upsert_row r rows =
    if ◌==◌ (count (holds_code r.entity r.project_id r.code r.id) rows) 0
    then some (write_item (find (is_item r.entity r.id) rows) r rows)
    else none

-- a result_json that is missing or no object
abbrev pub empty_outcome : Outcome
empty_outcome = record {
  reason = none;
  message = none;
  detail = none;
  failure_kind = none;
  server_version = none;
  server_record = none;
  server_updated_at = none;
}

abbrev pub outcome_or_empty : Option Outcome → Outcome
outcome_or_empty none = empty_outcome
outcome_or_empty (some o) = o

abbrev pub is_conflict_for : ℕ → Entity → ℕ → Row → Bool
is_conflict_for p e i r = is_for p e i r && is_blocked r.status && is_conflict r.failure_kind

abbrev pub with_server_copy : ℤ → Fields → String → Row → Row
with_server_copy v raw at r = record r {
  result = some (record (outcome_or_empty r.result) {
    server_version = some v;
    server_record = some raw;
    server_updated_at = some at;
  });
}

abbrev pub remember_found : Option Row → Option ℤ → Fields → String → Table → Option Table
remember_found none v raw at outbox = some outbox
remember_found (some r) none raw at outbox = none
remember_found (some r) (some v) raw at outbox =
    some (update (has_id r.change_id) (with_server_copy v raw at) outbox)

-- _remember_conflict_server_record, with the version and the time that it reads of the record
unfoldable pub remember_conflict_server_record :
    ℕ → Entity → ℕ → Option ℤ → Fields → String → Table → Option Table
unfolding find update
remember_conflict_server_record p e i v raw at outbox =
    remember_found (find (is_conflict_for p e i) outbox) v raw at outbox
