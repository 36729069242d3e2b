-- ===== src/Server/Records/Mutations/Create.antt =====
-- _create_new of sync/mutations.py.
use risk_opportunity_manager.Prelude.{
  ℕ, pos, Bool, true, false, ◌&&◌, Option, none, some, List, [], ◌∷◌, ◌++◌, if◌then◌else◌, ◌==◌,
  String,
}
use risk_opportunity_manager.Protocol.{Entity, action, assessment, helpdesk_ticket, is_scored}
use risk_opportunity_manager.Json.{Fields, Value, null, bool, int, text, get, put}
use risk_opportunity_manager.Server.Push.{integrity_error, unexpected}
use risk_opportunity_manager.Server.Records.{
  Model, items, actions, assessments, tickets, model_of, Row, Records, Env, value_of, find_row,
}
use risk_opportunity_manager.Server.Records.Codes.{
  Code, no_code, code_text, unreadable_code, unfinished, Digits, canonical_item_code,
}
use risk_opportunity_manager.Server.Records.Mutations.{
  Try, value, raised, ◌>>=◌, client_fields, recalculate_item_scores,
}
use risk_opportunity_manager.Server.Records.Mutations.Validate.{
  parse_record, validate_relationships,
}
use risk_opportunity_manager.Server.Records.Mutations.Flush.{flush_row, insert_row}

-- Column defaults that an insert fills in where the attribute is None.
abbrev column_defaults : Env → Model → ℕ → Fields
column_defaults env items now =
    ("status", text "concept")
    ∷ ("identified_at", text (env.iso_text now))
    ∷ ("is_deleted", bool false)
    ∷ []
column_defaults env actions now = ("status", text "open") ∷ ("is_deleted", bool false) ∷ []
column_defaults env assessments now = ("is_deleted", bool false) ∷ []
column_defaults env tickets now =
    ("category", text "other")
    ∷ ("priority", text "medium")
    ∷ ("status", text "open")
    ∷ ("is_deleted", bool false)
    ∷ []

abbrev is_null : Value → Bool
is_null null = true
is_null _ = false

unfoldable pub fill_defaults : Fields → Fields → Fields
unfolding value_of put
fill_defaults [] d = d
fill_defaults ((k, v) ∷ rest) d =
    fill_defaults rest (if is_null (value_of k d) then put k v d else d)

-- ENTITY_REGISTRY[entity]["defaults"]
abbrev registry_defaults : Entity → Fields
registry_defaults action =
    ("title", text "Untitled action") ∷ ("kind", text "mitigation") ∷ ("status", text "open") ∷ []
registry_defaults assessment = ("probability", int (pos 1)) ∷ ("impact", int (pos 1)) ∷ []
registry_defaults helpdesk_ticket =
    ("title", text "Untitled ticket")
    ∷ ("category", text "other")
    ∷ ("priority", text "medium")
    ∷ ("status", text "open")
    ∷ []
registry_defaults _ =
    ("title", text "Untitled") ∷ ("probability", int (pos 1)) ∷ ("impact", int (pos 1)) ∷ []

-- setattr for each field
unfoldable pub set_all : Fields → Fields → Fields
unfolding put
set_all [] d = d
set_all ((k, v) ∷ rest) d = set_all rest (put k v d)

abbrev code_of : Row → List String
code_of r = elim (value_of "code" r.columns) [ text s ↦ s ∷ [] | _ ↦ [] ]

-- the codes of the project's items
unfoldable pub codes_in : ℕ → List Row → List String
unfolding value_of
codes_in p [] = []
codes_in p (r ∷ rows) =
    let rest = codes_in p rows in
    elim r.model [ items ↦ (if r.project_id == p then code_of r ++ rest else rest) | _ ↦ rest ]

-- str(requested or "")
abbrev asked_code : Value → String
asked_code (text s) = s
asked_code _ = ""

abbrev put_code : Code → Fields → Try Fields
put_code no_code d = value (put "code" null d)
put_code (code_text s) d = value (put "code" (text s) d)
put_code unreadable_code d = raised unexpected
put_code unfinished d = raised unexpected

abbrev has_key : Option Value → Bool
has_key none = false
has_key (some v) = true

-- "code" in val, for a new item
unfoldable pub with_canonical_code : Digits → List Row → ℕ → Entity → Fields → Try Fields
unfolding get put codes_in canonical_item_code value_of
with_canonical_code py rows p e d =
    if is_scored e && has_key (get "code" d)
    then put_code (canonical_item_code py (codes_in p rows) e (asked_code (value_of "code" d))) d
    else value d

-- the INSERT, which refuses a primary key that is there
abbrev pub if_new : Option Row → Records × Row → Try (Records × Row)
if_new none inserted = value inserted
if_new (some other) inserted = raised integrity_error

module _ (env : Env) where
  -- _create_new: the row before the client's fields
  abbrev pub blank_row : ℕ → ℕ → ℕ → Entity → ℕ → Row
  blank_row u p now e i = record {
    model = model_of e;
    id = i;
    project_id = p;
    kind = e;
    assessor = u;
    created_by = u;
    version = 1;
    created_at = now;
    updated_at = now;
    status_changed_at = now;
    change_sequence = 0;
    columns = registry_defaults e;
  }

  abbrev pub filled : ℕ → Row → Row
  filled now r = record r { columns = fill_defaults (column_defaults env r.model now) r.columns }

  abbrev pub new_row : ℕ → ℕ → ℕ → Entity → ℕ → Fields → Row
  new_row u p now e i fields =
      let r = blank_row u p now e i in
      filled now (
        recalculate_item_scores
          (record r { columns = set_all (client_fields r.model fields) r.columns }))

  -- the flush of a new row: its listeners run before the INSERT
  abbrev pub insert_new : Records → Row → Try (Records × Row)
  insert_new d r = do
    inserted ← flush_row env d r insert_row
    if_new (find_row r.model r.id d.rows) inserted

  unfoldable pub create_new : Records → ℕ → ℕ → Entity → ℕ → Fields → Try (Records × Row)
  unfolding parse_record validate_relationships with_canonical_code fill_defaults set_all
      client_fields recalculate_item_scores find_row flush_row
  create_new d u p e i fields = do
    val ← parse_record env e fields
    fields' ← with_canonical_code env.digits d.rows p e val.fields
    let coded = record val { fields = fields' }
    _ ← validate_relationships env d.rows p e coded none
    insert_new d (new_row u p d.now e i coded.fields)
