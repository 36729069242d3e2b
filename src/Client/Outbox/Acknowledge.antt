-- ===== src/Client/Outbox/Acknowledge.antt =====
-- Acknowledgement of accepted push results: sync_outbox_queue.py, from
-- acknowledge_accepted_results to _advance_replacement. What these call on the local copy of the
-- server's rows (server_state.py) is the interface `LocalStore`.
use risk_opportunity_manager.Prelude.{
  ℕ, ◌+◌, ℤ, pos, Bool, true, false, ◌&&◌, ◌||◌, not, Option, none, some, List, [], ◌∷◌,
  if◌then◌else◌, ◌==◌, eqb_ℤ, max_ℤ, String, find, delete, update, select,
}
use risk_opportunity_manager.Protocol.{Entity, same_entity, is_scored}
use risk_opportunity_manager.Json.{Fields, Value, get, put}
use risk_opportunity_manager.Client.Outbox.{
  Row, Table, has_id, is_for, is_pending, is_retry, oldest,
}

-- The entity text of a result: empty or missing, no entity, or an entity.
pub data EntityText : Type 0 where
  no_entity : EntityText
  other_entity : EntityText
  named : Entity → EntityText

-- A push result as the client reads it; an id is `none` where its text is missing or empty, and a
-- version is `none` where strict_int gives None.
pub record PushResult : Type 0 where
  pub change_id : Option ℕ
  pub accepted : Bool
  pub replayed : Bool
  pub entity : EntityText
  pub entity_id : Option ℕ
  pub server_version : Option ℤ
  pub receipt_server_version : Option ℤ
  pub server_record : Option Fields

-- The store that the outbox belongs to; `none` is a RuntimeError, which ends the transaction.
pub record LocalStore (S : Type 0) : Type 0 where
  pub release_codes : ℕ → List PushResult → S → Option S
  pub apply_acknowledgement : ℕ → Entity → ℕ → Option ℤ → Option Fields → S → Option S
  pub advance_acknowledgement : ℕ → Entity → ℕ → Option ℤ → Option Fields → S → Option S

unfoldable pub acknowledged_version : PushResult → Option ℤ
acknowledged_version a = elim a.receipt_server_version [
  | some v ↦ if a.replayed then some v else a.server_version
  | none ↦ a.server_version
]

-- v or 0
abbrev pub or_zero : Option ℤ → ℤ
or_zero none = pos 0
or_zero (some v) = v

-- v or None
abbrev pub nonzero : ℤ → Option ℤ
nonzero v = if eqb_ℤ v (pos 0) then none else some v

abbrev same_version : Option ℤ → Option ℤ → Bool
same_version none none = true
same_version (some v) (some w) = eqb_ℤ v w
same_version _ _ = false

-- the code of the server's record, for a scored entity
abbrev pub with_code : Option Value → Fields → Fields
with_code none d = d
with_code (some v) d = put "code" v d

unfoldable pub advanced_fields : Entity → Option Fields → Fields → Fields
unfolding get put
advanced_fields e none d = d
advanced_fields e (some server) d = if is_scored e then with_code (get "code" server) d else d

abbrev pub advance_row : PushResult → Row → Row
advance_row a r = record r {
  base_version = nonzero (max_ℤ (or_zero r.base_version) (or_zero (acknowledged_version a)));
  fields = advanced_fields r.entity a.server_record r.fields;
}

-- A replay's current row may hold later edits; only its identity is kept.
abbrev keep_key : String → Fields → Fields → Fields
keep_key k d kept = elim (get k d) [ none ↦ kept | some v ↦ (k, v) ∷ kept ]

abbrev identity_of : Fields → Fields
identity_of d = keep_key "id" d (keep_key "project_id" d (keep_key "code" d []))

abbrev known_record : PushResult → Option Fields
known_record a =
    if a.replayed && not (same_version (acknowledged_version a) a.server_version)
    then elim a.server_record [ none ↦ none | some d ↦ some (identity_of d) ]
    else a.server_record

abbrev pub is_waiting_for : ℕ → Entity → ℕ → Row → Bool
is_waiting_for p e i r = is_for p e i r && (is_pending r.status || is_retry r.status)

-- What one result does: nothing, a RuntimeError, or a new table and store.
pub data Turn (S : Type 0) : Type 0 where
  skipped : Turn S
  raised : Turn S
  acknowledged : Table → S → Turn S

abbrev pub turn_of : {S : Type 0} → Table → Option S → Turn S
turn_of rows none = raised
turn_of rows (some s) = acknowledged rows s

abbrev names_entity : EntityText → Entity → Bool
names_entity no_entity e = true
names_entity other_entity e = false
names_entity (named d) e = same_entity d e

abbrev names_id : Option ℕ → ℕ → Bool
names_id none i = true
names_id (some j) i = j == i

module _ {S : Type 0} (store : LocalStore S) where
  -- _acknowledge_sent
  unfoldable pub acknowledge_sent : ℕ → ℕ → Row → PushResult → Table → S → Turn S
  acknowledge_sent p c sent a rows s =
      if names_entity a.entity sent.entity && names_id a.entity_id sent.entity_id
      then turn_of (delete (has_id c) rows) (
          store.apply_acknowledgement p sent.entity sent.entity_id a.server_version a.server_record
            s)
      else raised

  -- _advance_replacement, with the row that it finds
  abbrev pub advance_found : ℕ → PushResult → Entity → ℕ → Option Row → Table → S → Turn S
  advance_found p a e i none rows s = skipped
  advance_found p a e i (some r) rows s =
      turn_of (update (has_id r.change_id) (advance_row a) rows)
        (store.advance_acknowledgement p e i (acknowledged_version a) (known_record a) s)

  unfoldable pub advance_replacement : ℕ → PushResult → EntityText → Option ℕ → Table → S → Turn S
  unfolding oldest
  advance_replacement p a (named e) (some i) rows s =
      advance_found p a e i (oldest (select (is_waiting_for p e i) rows)) rows s
  advance_replacement p a e i rows s = skipped

  -- one round of the loop of acknowledge_accepted_results
  abbrev pub acknowledge_found : ℕ → ℕ → PushResult → Option Row → Table → S → Turn S
  acknowledge_found p c a none rows s = advance_replacement p a a.entity a.entity_id rows s
  acknowledge_found p c a (some sent) rows s = acknowledge_sent p c sent a rows s

  abbrev pub acknowledge_named : ℕ → PushResult → Option ℕ → Table → S → Turn S
  acknowledge_named p a none rows s = skipped
  acknowledge_named p a (some c) rows s =
      if a.accepted
      then acknowledge_found p c a (find (λ r. has_id c r && r.project_id == p) rows) rows s
      else skipped

  unfoldable pub acknowledge_result : ℕ → PushResult → Table → S → Turn S
  unfolding acknowledge_sent advance_replacement
  acknowledge_result p a rows s = acknowledge_named p a a.change_id rows s

  unfoldable pub acknowledge_loop : ℕ → List PushResult → ℕ → Table → S → Option (Table × S × ℕ)
  unfolding acknowledge_result
  acknowledge_loop p [] n rows s = some (rows, s, n)
  acknowledge_loop p (a ∷ rest) n rows s = elim (acknowledge_result p a rows s) [
    | skipped ↦ acknowledge_loop p rest n rows s
    | raised ↦ none
    | acknowledged rows' s' ↦ acknowledge_loop p rest (n + 1) rows' s'
  ]

  -- `none` is a RuntimeError, which rolls the transaction back
  unfoldable pub acknowledge_accepted_results :
      ℕ → List PushResult → Table → S → Option (Table × S × ℕ)
  unfolding acknowledge_loop
  acknowledge_accepted_results p results rows s = elim (store.release_codes p results s) [
    | none ↦ none
    | some s' ↦ acknowledge_loop p results 0 rows s'
  ]
