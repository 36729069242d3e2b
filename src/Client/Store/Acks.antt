-- ===== src/Client/Store/Acks.antt =====
-- Acknowledgements in server_state.py: the canonical row of an accepted change, the metadata of a row
-- that has a newer edit, and the release of codes before a batch. A raised error is `none`.
use package.text.Mathlib.Text.{◌==◌ as str_eq}
use risk_opportunity_manager.Prelude.{
  ℕ, ℤ, Bool, true, false, ◌&&◌, ◌||◌, not, Option, none, some, List, [], ◌∷◌, if◌then◌else◌, ◌==◌,
  eqb_ℤ, max_ℤ, String, find, update, count,
}
use risk_opportunity_manager.Protocol.{Entity, same_entity, is_scored}
use risk_opportunity_manager.Json.{Fields, Value, int, text, get, put}
use risk_opportunity_manager.Text.{strip_text}
use risk_opportunity_manager.Client.Outbox.{is_some}
use risk_opportunity_manager.Client.Outbox.Acknowledge.{PushResult, EntityText, named}
use risk_opportunity_manager.Client.Store.{
  Python, Item, Items, is_item_in, holds_code, without_code,
}
use risk_opportunity_manager.Client.Store.Reading.{text_or, int_or}
use risk_opportunity_manager.Client.Store.Pull.{Copies, apply_pull}

-- strict_int(v)
abbrev pub strict_int : Option Value → Option ℤ
strict_int (some (int n)) = some n
strict_int _ = none

abbrev pub is_named : Option ℕ → ℕ → Bool
is_named none i = true
is_named (some j) i = j == i

-- version != other, where both are there
abbrev pub differs : Option ℤ → Option ℤ → Bool
differs (some v) (some w) = not (eqb_ℤ v w)
differs _ _ = false

abbrev pub or_version : Option ℤ → Option ℤ → Option ℤ
or_version none w = w
or_version (some v) w = some v

-- the row of an accepted change whose result has no record
abbrev pub confirmed : ℤ → Item → Item
confirmed v r = record r { version = v; dirty = false }

-- version=MAX(version, ?), and code=?
abbrev pub with_version : Option ℤ → Item → Item
with_version none r = r
with_version (some v) r = record r { version = max_ℤ r.version v }

abbrev pub with_code_of : Option (Option String) → Item → Item
with_code_of none r = r
with_code_of (some c) r = record r { code = c }

-- What one accepted result takes: an id and a code, of a scored entity.
pub record Claim : Type 0 where
  pub entity : Entity
  pub id : Option ℕ
  pub code : Option String

abbrev pub is_code : Option String → Option String → Bool
is_code none d = false
is_code (some c) none = false
is_code (some c) (some d) = str_eq c d

abbrev holds_id : Option ℕ → ℕ → Bool
holds_id none i = false
holds_id (some j) i = j == i

abbrev pub takes : Item → Claim → Bool
takes r k = same_entity r.entity k.entity && (holds_id k.id r.id || is_code k.code r.code)

unfoldable pub any_takes : Item → List Claim → Bool
any_takes r [] = false
any_takes r (k ∷ rest) = takes r k || any_takes r rest

-- _release_codes, for both tables
unfoldable pub release_codes : ℕ → List Claim → Items → Items
unfolding any_takes update
release_codes p claims items =
    update (λ r. r.project_id == p && any_takes r claims) without_code items

abbrev pub other_version : Option ℤ → Option ℤ → Bool
other_version none w = false
other_version (some v) none = true
other_version (some v) (some w) = not (eqb_ℤ w v)

abbrev pub record_or_empty : Option Fields → Fields
record_or_empty none = []
record_or_empty (some ent) = ent

-- the unique index of the codes: another row holds the code that the row would get
abbrev pub breaks_index : Entity → ℕ → ℕ → Option (Option String) → Items → Bool
breaks_index e p i none items = false
breaks_index e p i (some code) items =
    is_some (find (is_item_in e p i) items) && not (count (holds_code e p code i) items == 0)

abbrev pub advance_item : Option ℤ → Option (Option String) → Item → Item
advance_item v code r = with_code_of code (with_version v r)

abbrev scored_entity : EntityText → Option Entity
scored_entity (named e) = if is_scored e then some e else none
scored_entity _ = none

abbrev first_id : Option ℕ → Option ℕ → Option ℕ
first_id none j = j
first_id (some i) j = some i

module _ (py : Python) where
  -- str(record.get(k) or "") as an id; `none` is an empty text
  unfoldable pub named_id : String → Fields → Option ℕ
  unfolding text_or
  named_id k ent = let s = text_or py k "" ent in if str_eq s "" then none else some (py.number s)

  -- _check_ack_identity
  unfoldable pub check_ack_identity : Fields → Option ℕ → ℕ → Bool
  unfolding named_id
  check_ack_identity ent none p = is_named (named_id "project_id" ent) p
  check_ack_identity ent (some i) p =
      is_named (named_id "id" ent) i && is_named (named_id "project_id" ent) p

  -- the record with the entity and the project of the change
  abbrev pub canonical : ℕ → ℕ → Fields → Fields
  canonical p i ent = put "project_id" (text (py.id_text p)) (put "id" (text (py.id_text i)) ent)

  -- apply_push_acknowledgement
  unfoldable pub apply_push_acknowledgement :
      ℕ → Entity → ℕ → Option ℤ → Option Fields → Copies → Option Copies
  unfolding check_ack_identity int_or put apply_pull update
  apply_push_acknowledgement p e i version none c = elim version [
    | none ↦ some c
    | some v ↦ some (record c { items = update (is_item_in e p i) (confirmed v) c.items })
  ]
  apply_push_acknowledgement p e i version (some ent) c =
      if not (check_ack_identity ent (some i) p)
      then none
      else if other_version version (int_or py "version" 0 ent)
      then none
      else apply_pull py p e (canonical p i ent ∷ []) c

  -- "code" in record, for a scored entity
  abbrev pub code_given : Entity → Option Value → Option (Option String)
  code_given e none = none
  code_given e (some v) = if is_scored e then some (py.column_text v) else none

  -- advance_push_acknowledgement; with nothing to assign it changes nothing
  unfoldable pub advance_push_acknowledgement :
      ℕ → Entity → ℕ → Option ℤ → Option Fields → Items → Option Items
  unfolding check_ack_identity get find count update
  advance_push_acknowledgement p e i version server items =
      let ent = record_or_empty server in
      let own = strict_int (get "version" ent) in
      let code = code_given e (get "code" ent) in
      if not (check_ack_identity ent (some i) p)
      then none
      else if differs version own
      then none
      else if breaks_index e p i code items
      then none
      else some (update (is_item_in e p i) (advance_item (or_version version own) code) items)

  abbrev claimed_code : Fields → Option String
  claimed_code ent =
      let s = strip_text (text_or py "code" "" ent) in if str_eq s "" then none else some s

  abbrev claim_after :
      Option Entity → Option Fields → ℕ → PushResult → Option (List Claim) → Option (List Claim)
  claim_after none server p a later = later
  claim_after (some e) none p a later = later
  claim_after (some e) (some ent) p a later =
      let i = first_id a.entity_id (named_id "id" ent) in
      if not (check_ack_identity ent i p) then none else elim later [
        | none ↦ none
        | some rest ↦ some ((record { entity = e; id = i; code = claimed_code ent }) ∷ rest)
      ]

  -- the ids and codes that release_scored_codes_for_acknowledgements groups
  unfoldable pub claims_of : ℕ → List PushResult → Option (List Claim)
  unfolding check_ack_identity named_id text_or
  claims_of p [] = some []
  claims_of p (a ∷ rest) =
      let later = claims_of p rest in
      if a.accepted then claim_after (scored_entity a.entity) a.server_record p a later else later

  unfoldable pub release_scored_codes_for_acknowledgements :
      ℕ → List PushResult → Items → Option Items
  unfolding claims_of release_codes
  release_scored_codes_for_acknowledgements p results items = elim (claims_of p results) [
    | none ↦ none
    | some claims ↦ some (release_codes p claims items)
  ]
