-- ===== src/Client/Store/Confirmed.antt =====
-- The acknowledgements of server_state.py: what an accepted change leaves in the local tables.
use risk_opportunity_manager.Prelude.{
  ℕ, ℤ, ◌≤ℤ◌, ◌≡◌, refl, sym, ap, subst, ◌∙◌, Bool, true, false, not, Option, none, some, [], ◌∷◌,
  if◌then◌else◌, ◌==◌, ==_refl, String, find, find_passes, find-append, find-update, find-overwrite,
  updated, update, count, count-update_leaves, Bool-cases, inl, inr, arith,
}
use risk_opportunity_manager.Protocol.{
  Entity, is_scored, risk, opportunity, action, assessment, helpdesk_ticket,
}
use risk_opportunity_manager.Json.{Fields, text, get, put, get-put}
use risk_opportunity_manager.Client.Store.{
  Python, Item, Items, is_item, is_item_in, same_code, holds_code, without_code, write_item,
  upsert_row, is_waiting,
}
use risk_opportunity_manager.Client.Store.Reading.{int_or, scored_record}
use risk_opportunity_manager.Client.Store.Pull.{
  Copies, with_items, apply_each, apply_one, apply_scored, apply_pull,
}
use risk_opportunity_manager.Client.Store.Rounds.{released, HasHead, scored_record-HasHead}
use risk_opportunity_manager.Client.Store.Acks.{
  check_ack_identity, canonical, apply_push_acknowledgement, advance_push_acknowledgement,
  advance_item, other_version, strict_int, differs, or_version, breaks_index, code_given,
  record_or_empty,
}

same_code-none : (c : Option String) → same_code c none ≡ false
same_code-none none = refl
same_code-none (some c) = refl

-- The release makes the index let the row through.
released_free :
    (r : Item) (rows : Items)
    → count (holds_code r.entity r.project_id r.code r.id) (released r rows) ≡ 0
released_free r rows =
    let held = holds_code r.entity r.project_id r.code r.id in
    count-update_leaves held held without_code (λ x h. ground (arith, same_code-none r.code))
      (λ x h. h) rows

find-write_item_own :
    (o : Option Item) (r : Item) (rows : Items)
    → find (is_item r.entity r.id) rows ≡ o
    → find (is_item r.entity r.id) (write_item o r rows) ≡ some r
unfolding find
find-write_item_own none r rows new =
    find-append (is_item r.entity r.id) rows (r ∷ []) ∙ rw new (ground (arith, ==_refl r.id))
find-write_item_own (some old) r rows found =
    let own = is_item r.entity r.id in
    find-overwrite own own r (λ x h. ground (arith, h)) rows
    ∙ rw (found, find_passes own old rows found) refl

-- Writing a row after the release of its code never fails, and leaves the row.
pub released_writes :
    (r : Item) (rows : Items)
    → (items : Items) × (upsert_row r (released r rows) ≡ some items)
      × (find (is_item r.entity r.id) items ≡ some r)
unfolding upsert_row
released_writes r rows =
    let after = released r rows in
    let free : (count (holds_code r.entity r.project_id r.code r.id) after == 0) ≡ true =
      ground (arith, released_free r rows) in
    (
      write_item (find (is_item r.entity r.id) after) r after,
      rw free refl,
      find-write_item_own (find (is_item r.entity r.id) after) r after refl,
    )

guarded :
    (a b d : Bool) (x items : Items)
    → ◌≡◌ {A = Option Items}
        (if not a then none else if b then none else if d then none else some x)
        (some items)
    → x ≡ items
guarded true false false x items h = cc h
guarded false b d x items h = cc h
guarded true true d x items h = cc h
guarded true false true x items h = cc h

-- the same local row, but for its code, at a version that is not lower
abbrev pub IsAdvanced : Option Item → Option Item → Type 0
IsAdvanced none none = Unit
IsAdvanced (some a) (some b) =
    (a.version ≤ℤ b.version) × (record b { version = a.version; code = a.code } ≡ a)
IsAdvanced _ _ = ⊥

IsAdvanced-item :
    (v : Option ℤ) (code : Option (Option String)) (a : Item)
    → IsAdvanced (some a) (some (advance_item v code a))
IsAdvanced-item none none a = (omega arith, refl)
IsAdvanced-item none (some code) a = (omega arith, refl)
IsAdvanced-item (some v) none a = (ground arith, refl)
IsAdvanced-item (some v) (some code) a = (ground arith, refl)

IsAdvanced-updated :
    (q : Item → Bool) (v : Option ℤ) (code : Option (Option String)) (o : Option Item)
    → IsAdvanced o (updated q (advance_item v code) o)
IsAdvanced-updated q v code none = tt
IsAdvanced-updated q v code (some a) = elim (Bool-cases (q a)) [
  | inl here ↦ rw here (IsAdvanced-item v code a)
  | inr past ↦ rw past (IsAdvanced-item none none a)
]

is_item-advance_item :
    (d : Entity) (j : ℕ) (v : Option ℤ) (code : Option (Option String)) (x : Item)
    → is_item d j (advance_item v code x) ≡ is_item d j x
is_item-advance_item d j none none x = refl
is_item-advance_item d j none (some code) x = refl
is_item-advance_item d j (some v) none x = refl
is_item-advance_item d j (some v) (some code) x = refl

apply_each_one :
    (apply : Fields → Copies → Option Copies) (ent : Fields) (c c' : Copies)
    → apply ent c ≡ some c'
    → apply_each apply (ent ∷ []) c ≡ some c'
unfolding apply_each
apply_each_one apply ent c c' h = rw (apply_each, h) refl

module _ (py : Python) where
  -- Acknowledging a change under a newer edit changes no row but for its code and its version, which
  -- never falls: what the user wrote, and that it is not synced, stay.
  pub advance_keeps_edit :
      (p : ℕ) (e : Entity) (i : ℕ) (version : Option ℤ) (server : Option Fields)
      (items left : Items)
      → advance_push_acknowledgement py p e i version server items ≡ some left
      → (d : Entity) (j : ℕ) → IsAdvanced (find (is_item d j) items) (find (is_item d j) left)
  unfolding advance_push_acknowledgement
  advance_keeps_edit p e i version server items left h d j =
      let ent = record_or_empty server in
      let own = strict_int (get "version" ent) in
      let code = code_given py e (get "code" ent) in
      let v = or_version version own in
      let same =
        guarded (check_ack_identity py ent (some i) p) (differs version own)
          (breaks_index e p i code items) (update (is_item_in e p i) (advance_item v code) items)
          left h in
      subst (λ xs. IsAdvanced (find (is_item d j) items) (find (is_item d j) xs)) same
        (subst (IsAdvanced (find (is_item d j) items))
          (sym (
            find-update (is_item d j) (is_item_in e p i) (advance_item v code)
              (is_item-advance_item d j v code) items))
          (IsAdvanced-updated (is_item_in e p i) v code (find (is_item d j) items)))

  canonical_version :
      (p i : ℕ) (ent : Fields)
      → int_or py "version" 0 (canonical py p i ent) ≡ int_or py "version" 0 ent
  unfolding int_or
  canonical_version p i ent =
      let first = put "id" (text (py.id_text i)) ent in
      rw
        (
          get-put "project_id" "version" (text (py.id_text p)) first,
          get-put "id" "version" (text (py.id_text i)) ent,
        )
        refl

  acknowledged_scored :
      (p : ℕ) (e : Entity) (i : ℕ) (v : ℤ) (ent : Fields) (c : Copies) (r : Item)
      → int_or py "version" 0 ent ≡ some v
      → py.number (py.str (text (py.id_text i))) ≡ i
      → is_waiting p e i c.outbox ≡ false
      → scored_record py e p i v (canonical py p i ent) ≡ some r
      → apply_scored py p e c.outbox (canonical py p i ent) c
        ≡ with_items c (upsert_row r (released r c.items))
  unfolding apply_scored
  acknowledged_scored p e i v ent c r reads named free builds =
      let first = put "id" (text (py.id_text i)) ent in
      let own : get "id" (canonical py p i ent) ≡ some (text (py.id_text i)) =
        get-put "project_id" "id" (text (py.id_text p)) first
        ∙ get-put "id" "id" (text (py.id_text i)) ent in
      let version : int_or py "version" 0 (canonical py p i ent) ≡ some v =
        canonical_version p i ent ∙ reads in
      rw (own, version, named, free, builds) refl

  apply_pull_scored :
      (p : ℕ) (e : Entity) (ent : Fields) (c c' : Copies)
      → is_scored e ≡ true
      → apply_scored py p e c.outbox ent c ≡ some c'
      → apply_pull py p e (ent ∷ []) c ≡ some c'
  unfolding apply_pull
  apply_pull_scored p risk ent c c' scored h =
      apply_each_one (apply_one py p risk c.outbox) ent c c' h
  apply_pull_scored p opportunity ent c c' scored h =
      apply_each_one (apply_one py p opportunity c.outbox) ent c c' h
  apply_pull_scored p action ent c c' scored h = cc scored
  apply_pull_scored p assessment ent c c' scored h = cc scored
  apply_pull_scored p helpdesk_ticket ent c c' scored h = cc scored

  guards_pass :
      (identity : Bool) (read : Option ℤ) (v : ℤ) (pulled : Option Copies)
      → identity ≡ true
      → read ≡ some v
      → (if not identity then none else if other_version (some v) read then none else pulled)
        ≡ pulled
  guards_pass identity read v pulled h k = rw (h, k) (ground arith)

  -- An acknowledgement with the record of an accepted risk or opportunity, which names this record or
  -- none and has the result's version, succeeds when no change of the record is queued any more, and
  -- leaves exactly the row that the record builds, clean and at its version.
  pub acknowledgement_confirms :
      (p : ℕ) (e : Entity) (i : ℕ) (v : ℤ) (ent : Fields) (c : Copies) (r : Item)
      → is_scored e ≡ true
      → check_ack_identity py ent (some i) p ≡ true
      → int_or py "version" 0 ent ≡ some v
      → py.number (py.str (text (py.id_text i))) ≡ i
      → is_waiting p e i c.outbox ≡ false
      → scored_record py e p i v (canonical py p i ent) ≡ some r
      → (items : Items) × (apply_push_acknowledgement py p e i (some v) (some ent) c
          ≡ some (record c { items = items }))
        × (find (is_item e i) items ≡ some r)
        × (r.version ≡ v)
        × (r.dirty ≡ false)
  unfolding apply_push_acknowledgement
  acknowledgement_confirms p e i v ent c r scored identity reads named free builds =
      let (items, written, there) = released_writes r c.items in
      let (own, id, _, same, clean) =
        subst (HasHead py e p i v) builds
          (scored_record-HasHead py e p i v (canonical py p i ent)) in
      let applied : apply_scored py p e c.outbox (canonical py p i ent) c
          ≡ some (record c { items = items }) =
        acknowledged_scored p e i v ent c r reads named free builds ∙ ap (with_items c) written in
      (
        items,
        guards_pass (check_ack_identity py ent (some i) p) (int_or py "version" 0 ent) v
              (apply_pull py p e (canonical py p i ent ∷ []) c) identity reads
            ∙ apply_pull_scored p e (canonical py p i ent) c (record c { items = items }) scored
                applied,
        subst (λ d. find (is_item d i) items ≡ some r) own
            (subst (λ j. find (is_item r.entity j) items ≡ some r) id there),
        same,
        clean,
      )
