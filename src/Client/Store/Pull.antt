-- ===== src/Client/Store/Pull.antt =====
-- The pulls of server_state.py: each row of the server is written to its local table, unless a change
-- of it is queued; then the server's copy is kept beside the conflict. A transaction that fails is `none`.
use risk_opportunity_manager.Prelude.{
  ℕ, ◌*◌, suc, zero, ℤ, pos, negsuc, Bool, true, false, Option, none, some, List, [], ◌∷◌,
  if◌then◌else◌, find, update,
}
use package.text.Mathlib.Text.{◌==◌ as str_eq}
use risk_opportunity_manager.Protocol.{
  Entity, risk, opportunity, action, assessment, helpdesk_ticket,
}
use risk_opportunity_manager.Json.{Fields, Value, null, int, text, get, truthy}
use risk_opportunity_manager.Client.Outbox.{Table, is_some}
use risk_opportunity_manager.Client.Store.{
  Python, Item, Items, is_item_in, holds_code, without_code, is_waiting, upsert_row,
  remember_conflict_server_record,
}
use risk_opportunity_manager.Client.Store.Reading.{
  text_or, int_or, is_truthy, scored_record, Action, action_from_mapping, Assessment,
  assessment_from_mapping, ticket_columns,
}

-- the local tables and the outbox, which are in one database
pub record Copies : Type 0 where
  pub items : Items
  pub outbox : Table

abbrev pub with_items : Copies → Option Items → Option Copies
with_items c none = none
with_items c (some items) = some (record c { items = items })

abbrev pub with_outbox : Copies → Option Table → Option Copies
with_outbox c none = none
with_outbox c (some outbox) = some (record c { outbox = outbox })

-- the loop of a pull
unfoldable pub apply_each : (Fields → Copies → Option Copies) → List Fields → Copies → Option Copies
apply_each apply [] c = some c
apply_each apply (ent ∷ rest) c = elim (apply ent c) [
  | none ↦ none
  | some c' ↦ apply_each apply rest c'
]

-- UPDATE … SET code=NULL …, then _upsert_row
abbrev pub write_scored : Option Item → Copies → Option Copies
write_scored none c = none
write_scored (some r) c =
    with_items c
      (upsert_row r (update (holds_code r.entity r.project_id r.code r.id) without_code c.items))

abbrev pub mul_sign : ℕ → ℤ
mul_sign zero = pos 0
mul_sign (suc n) = negsuc n

abbrev pub mul_ℤ : ℤ → ℤ → ℤ
mul_ℤ (pos a) (pos b) = pos (a * b)
mul_ℤ (pos a) (negsuc b) = mul_sign (a * suc b)
mul_ℤ (negsuc a) (pos b) = mul_sign (suc a * b)
mul_ℤ (negsuc a) (negsuc b) = pos (suc a * suc b)

module _ (py : Python) where
  -- what a waiting change makes of a pulled row
  abbrev pub keep_waiting : ℕ → Entity → ℕ → Fields → Copies → Option Copies
  keep_waiting p e i ent c = with_outbox c (
      remember_conflict_server_record p e i (int_or py "version" 0 ent) ent
        (text_or py "updated_at" "" ent) c.outbox)

  abbrev pub scored_version : ℕ → Entity → Table → Fields → ℕ → Option ℤ → Copies → Option Copies
  scored_version p e start ent i none c = none
  scored_version p e start ent i (some v) c =
      if is_waiting p e i start
      then keep_waiting p e i ent c
      else write_scored (scored_record py e p i v ent) c

  abbrev pub scored_id : ℕ → Entity → Table → Fields → Option Value → Copies → Option Copies
  scored_id p e start ent none c = none
  scored_id p e start ent (some v) c =
      scored_version p e start ent (py.number (py.str v)) (int_or py "version" 0 ent) c

  -- a round of _apply_pull_scored_entities; `start` is the outbox of its first query
  unfoldable pub apply_scored : ℕ → Entity → Table → Fields → Copies → Option Copies
  unfolding is_waiting remember_conflict_server_record scored_record upsert_row int_or text_or get
  apply_scored p e start ent c = scored_id p e start ent (get "id" ent) c

  abbrev pub action_row : ℕ → Action → Item
  action_row p a = record {
    entity = action;
    id = a.id;
    project_id = p;
    version = a.version;
    dirty = false;
    code = none;
    columns = a.columns;
  }

  abbrev pub action_read : ℕ → Table → Fields → Option Action → Copies → Option Copies
  action_read p start ent none c = none
  action_read p start ent (some a) c =
      if is_waiting p action a.id start
      then keep_waiting p action a.id ent c
      else with_items c (upsert_row (action_row p a) c.items)

  -- _apply_pull_entities, for actions
  unfoldable pub apply_action : ℕ → Table → Fields → Copies → Option Copies
  unfolding is_waiting remember_conflict_server_record action_from_mapping upsert_row
  apply_action p start ent c = action_read p start ent (action_from_mapping py ent) c

  -- _infer_assessment_item_type: is it an opportunity's
  unfoldable pub infer_assessment_item_type : ℕ → ℕ → Fields → Items → Bool
  unfolding get truthy find
  infer_assessment_item_type p item raw items =
      if is_truthy (get "opportunity_id" raw)
      then true
      else if is_truthy (get "risk_id" raw)
      then false
      else is_some (find (is_item_in opportunity p item) items)

  abbrev pub assessment_row : ℕ → Assessment → Bool → Item
  assessment_row p a opp = record {
    entity = assessment;
    id = a.id;
    project_id = p;
    version = a.version;
    dirty = false;
    code = none;
    columns =
        ("risk_id", if opp then null else text a.item_id)
        ∷ ("opportunity_id", if opp then text a.item_id else null)
        ∷ ("item_id", text a.item_id)
        ∷ ("item_type", text (if opp then "opportunity" else "risk"))
        ∷ ("assessor_user_id", text a.assessor_user_id)
        ∷ ("probability", int a.probability)
        ∷ ("impact", int a.impact)
        ∷ ("score", int (mul_ℤ a.probability a.impact))
        ∷ ("notes", text a.notes)
        ∷ ("is_deleted", a.is_deleted)
        ∷ ("updated_at", text a.updated_at)
        ∷ [];
  }

  abbrev pub assessment_read : ℕ → Table → Fields → Option Assessment → Copies → Option Copies
  assessment_read p start ent none c = none
  assessment_read p start ent (some a) c =
      if is_waiting p assessment a.id start
      then keep_waiting p assessment a.id ent c
      else with_items c (
          upsert_row
            (assessment_row p a (infer_assessment_item_type p (py.number a.item_id) ent c.items))
            c.items)

  unfoldable pub apply_assessment : ℕ → Table → Fields → Copies → Option Copies
  unfolding is_waiting remember_conflict_server_record assessment_from_mapping
      infer_assessment_item_type upsert_row
  apply_assessment p start ent c = assessment_read p start ent (assessment_from_mapping py ent) c

  -- the project that a ticket names, or that of the pull
  abbrev ticket_project : ℕ → Option Value → ℕ
  ticket_project p none = p
  ticket_project p (some v) = if truthy v then py.number (py.str v) else p

  abbrev pub ticket_row : ℕ → ℕ → ℤ → Fields → Item
  ticket_row p i v item = record {
    entity = helpdesk_ticket;
    id = i;
    project_id = ticket_project p (get "project_id" item);
    version = v;
    dirty = false;
    code = none;
    columns = ticket_columns py item;
  }

  abbrev pub write_ticket : ℕ → ℕ → Fields → Option ℤ → Copies → Option Copies
  write_ticket p i item none c = none
  write_ticket p i item (some v) c = with_items c (upsert_row (ticket_row p i v item) c.items)

  -- a round of apply_pull_helpdesk_tickets; a ticket without an id is skipped
  unfoldable pub apply_ticket : ℕ → Table → Fields → Copies → Option Copies
  unfolding is_waiting remember_conflict_server_record int_or text_or ticket_columns upsert_row get
      truthy
  apply_ticket p start item c =
      let ticket_id = text_or py "id" "" item in
      let i = py.number ticket_id in
      if str_eq ticket_id ""
      then some c
      else if is_waiting p helpdesk_ticket i start
      then keep_waiting p helpdesk_ticket i item c
      else write_ticket p i item (int_or py "version" 0 item) c

  -- what a pull of an entity does with each of its rows
  abbrev pub apply_one : ℕ → Entity → Table → Fields → Copies → Option Copies
  apply_one p risk start = apply_scored p risk start
  apply_one p opportunity start = apply_scored p opportunity start
  apply_one p action start = apply_action p start
  apply_one p assessment start = apply_assessment p start
  apply_one p helpdesk_ticket start = apply_ticket p start

  -- apply_pull_risks, …_opportunities, …_actions, …_assessments and …_helpdesk_tickets
  unfoldable pub apply_pull : ℕ → Entity → List Fields → Copies → Option Copies
  unfolding apply_each apply_scored apply_action apply_assessment apply_ticket
  apply_pull p e server_items c = apply_each (apply_one p e c.outbox) server_items c
