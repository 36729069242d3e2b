-- ===== src/Client/Store/Rounds.antt =====
-- One round of a pull of server_state.py: what it can do to the local tables and to the outbox.
use risk_opportunity_manager.Prelude.{
  ℕ, ℤ, ◌≡◌, refl, sym, subst, inl, inr, Bool, false, Option, none, some, List, [], ◌∷◌, String,
  find, update, Bool-cases, Option-cases, arith,
}
use package.text.Mathlib.Text.{◌==◌ as str_eq}
use risk_opportunity_manager.Protocol.{
  Entity, risk, opportunity, action, assessment, helpdesk_ticket,
}
use risk_opportunity_manager.Json.{Fields, get}
use risk_opportunity_manager.Client.Outbox.{Row, Table, has_id}
use risk_opportunity_manager.Client.Store.{
  Python, Item, Items, holds_code, without_code, is_waiting, upsert_row, remember_found,
  remember_conflict_server_record, is_conflict_for, with_server_copy,
}
use risk_opportunity_manager.Client.Store.Reading.{
  text_or, int_or, norm_scored_meta, scored_record, action_from_mapping, assessment_from_mapping,
}
use risk_opportunity_manager.Client.Store.Pull.{
  Copies, with_items, with_outbox, write_scored, keep_waiting, apply_scored, apply_action,
  action_row, apply_assessment, assessment_row, infer_assessment_item_type, apply_ticket,
  ticket_row, apply_one,
}

-- the codes that other rows hold are released for a row
abbrev pub released : Item → Items → Items
released r items = update (holds_code r.entity r.project_id r.code r.id) without_code items

-- A round writes a row that no queued change waits for, or keeps a server's copy beside a conflict, or
-- does nothing.
pub data Round (p : ℕ) (e : Entity) (start : Table) (c : Copies) : Copies → Type 0 where
  nothing : Round p e start c c
  remembered :
      (k : ℕ) (v : ℤ) (raw : Fields) (at : String)
      → Round p e start c
          (record c { outbox = update (has_id k) (with_server_copy v raw at) c.outbox })
  wrote :
      (r : Item) (items : Items)
      → r.entity ≡ e
      → is_waiting p e r.id start ≡ false
      → upsert_row r (released r c.items) ≡ some items
      → Round p e start c (record c { items = items })

update_never :
    {A : Type 0} (q : A → Bool) (f : A → A) (never : (x : A) → q x ≡ false) (xs : List A)
    → update q f xs ≡ xs
unfolding update
update_never q f never [] = refl
update_never q f never (x ∷ xs) = ground (arith, never x, update_never q f never xs)

abbrev pub RoundOf : ℕ → Entity → Table → Copies → Option Copies → Type 0
RoundOf p e start c none = Unit
RoundOf p e start c (some c') = Round p e start c c'

remember_found-RoundOf :
    (p : ℕ) (e : Entity) (start : Table) (c : Copies) (o : Option Row) (v : Option ℤ) (raw : Fields)
    (at : String)
    → RoundOf p e start c (with_outbox c (remember_found o v raw at c.outbox))
remember_found-RoundOf p e start c none v raw at = nothing
remember_found-RoundOf p e start c (some r) none raw at = tt
remember_found-RoundOf p e start c (some r) (some v) raw at = remembered r.change_id v raw at

wrote-RoundOf :
    (p : ℕ) (e : Entity) (start : Table) (c : Copies) (r : Item)
    → r.entity ≡ e
    → is_waiting p e r.id start ≡ false
    → RoundOf p e start c (with_items c (upsert_row r (released r c.items)))
wrote-RoundOf p e start c r own free = elim (Option-cases (upsert_row r (released r c.items))) [
  | inl fails ↦ rw fails tt
  | inr (items, done) ↦ rw done (wrote r items own free done)
]

-- a row without a code releases none
codeless-RoundOf :
    (p : ℕ) (e : Entity) (start : Table) (c : Copies) (r : Item)
    → r.entity ≡ e
    → r.code ≡ none
    → is_waiting p e r.id start ≡ false
    → RoundOf p e start c (with_items c (upsert_row r c.items))
codeless-RoundOf p e start c r own codeless free =
    let same : released r c.items ≡ c.items =
      update_never (holds_code r.entity r.project_id r.code r.id) without_code
        (λ x. rw codeless (ground arith)) c.items in
    subst (λ items. RoundOf p e start c (with_items c (upsert_row r items))) same
      (wrote-RoundOf p e start c r own free)

module _ (py : Python) where
  keep_waiting-RoundOf :
      (p : ℕ) (e : Entity) (start : Table) (i : ℕ) (ent : Fields) (c : Copies)
      → RoundOf p e start c (keep_waiting py p e i ent c)
  unfolding remember_conflict_server_record
  keep_waiting-RoundOf p e start i ent c =
      remember_found-RoundOf p e start c (find (is_conflict_for p e i) c.outbox)
        (int_or py "version" 0 ent) ent (text_or py "updated_at" "" ent)

  -- what a row that is written has of the record's key and version
  abbrev pub HasHead : Entity → ℕ → ℕ → ℤ → Option Item → Type 0
  HasHead e p i v none = Unit
  HasHead e p i v (some r) =
      (r.entity ≡ e) × (r.id ≡ i) × (r.project_id ≡ p) × (r.version ≡ v) × (r.dirty ≡ false)

  pub scored_record-HasHead :
      (e : Entity) (p i : ℕ) (v : ℤ) (ent : Fields) → HasHead e p i v (scored_record py e p i v ent)
  unfolding scored_record
  scored_record-HasHead e p i v ent = elim (Option-cases (norm_scored_meta py ent)) [
    | inl bad ↦ rw (scored_record, bad) tt
    | inr (meta, good) ↦ elim (Option-cases (int_or py "probability" 1 ent)) [
      | inl bad ↦ rw (scored_record, good, bad) tt
      | inr (likely, known) ↦ elim (Option-cases (int_or py "impact" 1 ent)) [
        | inl bad ↦ rw (scored_record, good, known, bad) tt
        | inr (impact, told) ↦ rw (scored_record, good, known, told) (refl, refl, refl, refl, refl)
      ]
    ]
  ]

  write_scored-RoundOf :
      (p : ℕ) (e : Entity) (start : Table) (c : Copies) (i : ℕ) (v : ℤ) (ent : Fields)
      → is_waiting p e i start ≡ false
      → RoundOf p e start c (write_scored (scored_record py e p i v ent) c)
  write_scored-RoundOf p e start c i v ent free =
      elim (Option-cases (scored_record py e p i v ent)) [
        | inl bad ↦ rw bad tt
        | inr (r, good) ↦
            let (own, id, _, _, _) =
              subst (HasHead e p i v) good (scored_record-HasHead e p i v ent) in
            rw good (
              wrote-RoundOf p e start c r own
                (subst (λ j. is_waiting p e j start ≡ false) (sym id) free))
      ]

  apply_scored-RoundOf :
      (p : ℕ) (e : Entity) (start : Table) (ent : Fields) (c : Copies)
      → RoundOf p e start c (apply_scored py p e start ent c)
  unfolding apply_scored
  apply_scored-RoundOf p e start ent c = elim (Option-cases (get "id" ent)) [
    | inl missing ↦ rw missing tt
    | inr (v, there) ↦
        let i = py.number (py.str v) in
        elim (Option-cases (int_or py "version" 0 ent)) [
          | inl bad ↦ rw (there, bad) tt
          | inr (version, good) ↦ elim (Bool-cases (is_waiting p e i start)) [
            | inl waits ↦ rw (there, good, waits) (keep_waiting-RoundOf p e start i ent c)
            | inr free ↦
                rw (there, good, free) (write_scored-RoundOf p e start c i version ent free)
          ]
        ]
  ]

  apply_action-RoundOf :
      (p : ℕ) (start : Table) (ent : Fields) (c : Copies)
      → RoundOf p action start c (apply_action py p start ent c)
  unfolding apply_action
  apply_action-RoundOf p start ent c = elim (Option-cases (action_from_mapping py ent)) [
    | inl bad ↦ rw bad tt
    | inr (a, good) ↦ elim (Bool-cases (is_waiting p action a.id start)) [
      | inl waits ↦ rw (good, waits) (keep_waiting-RoundOf p action start a.id ent c)
      | inr free ↦
          rw (good, free) (codeless-RoundOf p action start c (action_row py p a) refl refl free)
    ]
  ]

  apply_assessment-RoundOf :
      (p : ℕ) (start : Table) (ent : Fields) (c : Copies)
      → RoundOf p assessment start c (apply_assessment py p start ent c)
  unfolding apply_assessment
  apply_assessment-RoundOf p start ent c = elim (Option-cases (assessment_from_mapping py ent)) [
    | inl bad ↦ rw bad tt
    | inr (a, good) ↦ elim (Bool-cases (is_waiting p assessment a.id start)) [
      | inl waits ↦ rw (good, waits) (keep_waiting-RoundOf p assessment start a.id ent c)
      | inr free ↦
          let opp = infer_assessment_item_type py p (py.number a.item_id) ent c.items in
          rw (good, free)
            (codeless-RoundOf p assessment start c (assessment_row py p a opp) refl refl free)
    ]
  ]

  apply_ticket-RoundOf :
      (p : ℕ) (start : Table) (item : Fields) (c : Copies)
      → RoundOf p helpdesk_ticket start c (apply_ticket py p start item c)
  unfolding apply_ticket
  apply_ticket-RoundOf p start item c =
      let ticket_id = text_or py "id" "" item in
      let i = py.number ticket_id in
      elim (Bool-cases (str_eq ticket_id "")) [
        | inl empty ↦ rw empty nothing
        | inr there ↦ elim (Bool-cases (is_waiting p helpdesk_ticket i start)) [
          | inl waits ↦ rw (there, waits) (keep_waiting-RoundOf p helpdesk_ticket start i item c)
          | inr free ↦ elim (Option-cases (int_or py "version" 0 item)) [
            | inl bad ↦ rw (there, free, bad) tt
            | inr (v, good) ↦
                rw (there, free, good)
                  (codeless-RoundOf p helpdesk_ticket start c (ticket_row py p i v item) refl refl
                    free)
          ]
        ]
      ]

  pub apply_one-RoundOf :
      (p : ℕ) (e : Entity) (start : Table) (ent : Fields) (c : Copies)
      → RoundOf p e start c (apply_one py p e start ent c)
  apply_one-RoundOf p risk start ent c = apply_scored-RoundOf p risk start ent c
  apply_one-RoundOf p opportunity start ent c = apply_scored-RoundOf p opportunity start ent c
  apply_one-RoundOf p action start ent c = apply_action-RoundOf p start ent c
  apply_one-RoundOf p assessment start ent c = apply_assessment-RoundOf p start ent c
  apply_one-RoundOf p helpdesk_ticket start ent c = apply_ticket-RoundOf p start ent c
