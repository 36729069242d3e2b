-- ===== src/Client/Store/Complete.antt =====
-- A pull of risks or opportunities in server_state.py that goes through.
use risk_opportunity_manager.Prelude.{
  ℕ, ℤ, ◌≡◌, refl, true, Option, none, some, List, [], ◌∷◌, All, Bool-cases, inl, inr, find,
}
use risk_opportunity_manager.Protocol.{Entity, is_scored, risk, opportunity}
use risk_opportunity_manager.Json.{Fields, Value, get}
use risk_opportunity_manager.Client.Outbox.{Table}
use risk_opportunity_manager.Client.Store.{
  Python, Item, is_waiting, is_conflict_for, remember_found, remember_conflict_server_record,
}
use risk_opportunity_manager.Client.Store.Reading.{text_or, int_or, scored_record}
use risk_opportunity_manager.Client.Store.Pull.{
  Copies, with_outbox, apply_each, keep_waiting, apply_scored, apply_one, apply_pull,
}
use risk_opportunity_manager.Client.Store.Confirmed.{released_writes}
use risk_opportunity_manager.Client.Store.Codes.{IsLocal, pull-IsLocal}

module _ (py : Python) where
  -- A record of the server that can be read: it has an id and a version, and its fields make a row.
  pub record IsReadable (p : ℕ) (e : Entity) (ent : Fields) : Type 0 where
    pub id : Value
    pub version : ℤ
    pub row : Item
    pub named : get "id" ent ≡ some id
    pub counted : int_or py "version" 0 ent ≡ some version
    pub reads : scored_record py e p (py.number (py.str id)) version ent ≡ some row

  keep_waiting_completes :
      (p : ℕ) (e : Entity) (i : ℕ) (ent : Fields) (v : ℤ) (c : Copies)
      → int_or py "version" 0 ent ≡ some v
      → (c' : Copies) × (keep_waiting py p e i ent c ≡ some c')
  unfolding remember_conflict_server_record
  keep_waiting_completes p e i ent v c h = rw h (found (find (is_conflict_for p e i) c.outbox))
    where
      found :
          (o : Option _)
          → (c' : Copies) × (with_outbox c
                (remember_found o (some v) ent (text_or py "updated_at" "" ent) c.outbox)
              ≡ some c')
      found none = (_, refl)
      found (some r) = (_, refl)

  apply_scored_completes :
      (p : ℕ) (e : Entity) (start : Table) (ent : Fields) (c : Copies)
      → IsReadable p e ent
      → (c' : Copies) × (apply_scored py p e start ent c ≡ some c')
  unfolding apply_scored
  apply_scored_completes p e start ent c h =
      elim (Bool-cases (is_waiting p e (py.number (py.str h.id)) start)) [
        | inl waits ↦
            let (c', kept) =
              keep_waiting_completes p e (py.number (py.str h.id)) ent h.version c h.counted in
            (c', rw (h.named, h.counted, waits) kept)
        | inr free ↦
            let (items, written, _) = released_writes h.row c.items in
            (record c { items = items }, rw (h.named, h.counted, free, h.reads, written) refl)
      ]

  apply_one_completes :
      (p : ℕ) (e : Entity) (start : Table) (ent : Fields) (c : Copies)
      → is_scored e ≡ true
      → IsReadable p e ent
      → (c' : Copies) × (apply_one py p e start ent c ≡ some c')
  apply_one_completes p risk start ent c s h = apply_scored_completes p risk start ent c h
  apply_one_completes p opportunity start ent c s h =
      apply_scored_completes p opportunity start ent c h
  apply_one_completes p Entity.action start ent c s h = absurd (cc s)
  apply_one_completes p Entity.assessment start ent c s h = absurd (cc s)
  apply_one_completes p Entity.helpdesk_ticket start ent c s h = absurd (cc s)

  apply_each_completes :
      (p : ℕ) (e : Entity) (start : Table) (ents : List Fields) (c : Copies)
      → is_scored e ≡ true
      → All (IsReadable p e) ents
      → (c' : Copies) × (apply_each (apply_one py p e start) ents c ≡ some c')
  unfolding apply_each
  apply_each_completes p e start [] c s h = (c, refl)
  apply_each_completes p e start (ent ∷ rest) c s (own, others) =
      let (c1, done) = apply_one_completes p e start ent c s own in
      let (c', ends) = apply_each_completes p e start rest c1 s others in
      (c', rw (done, apply_each) ends)

  -- A pull of risks or of opportunities whose records can all be read goes through, whatever codes
  -- they have and the local rows hold: no write meets the unique index of the codes. Afterwards the
  -- ids of each table are unique, and the codes of each project's risks and of its opportunities.
  pub pull_scored_completes :
      (p : ℕ) (e : Entity) (ents : List Fields) (c : Copies)
      → is_scored e ≡ true
      → All (IsReadable p e) ents
      → IsLocal c.items
      → (c' : Copies) × (apply_pull py p e ents c ≡ some c') × IsLocal c'.items
  unfolding apply_pull
  pull_scored_completes p e ents c s h local =
      let (c', ends) = apply_each_completes p e c.outbox ents c s h in
      (c', ends, pull-IsLocal py p e ents c c' local ends)
