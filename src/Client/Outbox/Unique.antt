-- ===== src/Client/Outbox/Unique.antt =====
-- One queued change for each record, one row for each change id: the invariant of the outbox.
use risk_opportunity_manager.Prelude.{
  ℕ, ℤ, ◌≤◌, ◌≡◌, refl, Bool, true, inl, inr, Option, none, some, [], ◌∷◌, ◌++◌, arith, count,
  delete, count-snoc, ==_iff, ◌==◌, count-replace, update, count-delete-le, count-update,
  Bool-cases,
}
use risk_opportunity_manager.Protocol.{Entity}
use risk_opportunity_manager.Client.Outbox.{Row, Table, has_id, is_for, is_open_for}
use risk_opportunity_manager.Client.Outbox.Queue.{
  Entry, new_row, squashed_base, replace_rows, replace_existing, replace_outbox_entry, refresh_mine,
  is_conflict_block,
}

pub record IsUnique (rows : Table) : Type 0 where
  pub per_record : (p : ℕ) (e : Entity) (i : ℕ) → count (is_for p e i) rows ≤ 1
  pub per_id : (c : ℕ) → count (has_id c) rows ≤ 1

abbrev pub IsFresh : ℕ → Table → Type 0
IsFresh c rows = count (has_id c) rows ≡ 0

-- An update that leaves the key columns alone.
abbrev KeepsKeys : (Row → Row) → Type 0
KeepsKeys f =
    (r : Row)
    → ((f r).change_id ≡ r.change_id)
      × ((f r).project_id ≡ r.project_id)
      × ((f r).entity ≡ r.entity)
      × ((f r).entity_id ≡ r.entity_id)

has_id-update : (c : ℕ) (f : Row → Row) → KeepsKeys f → (r : Row) → has_id c (f r) ≡ has_id c r
has_id-update c f k r = let (a, _, _, _) = k r in rw a

is_for-update :
    (p : ℕ) (e : Entity) (i : ℕ) (f : Row → Row)
    → KeepsKeys f
    → (r : Row) → is_for p e i (f r) ≡ is_for p e i r
is_for-update p e i f k r = let (_, a, b, d) = k r in rw (a, b, d)

pub update-IsUnique :
    (q : Row → Bool) (f : Row → Row) (rows : Table)
    → KeepsKeys f
    → IsUnique rows
    → IsUnique (update q f rows)
update-IsUnique q f rows k u = record {
  per_record = λ p e i.
      rw (count-update (is_for p e i) q f (is_for-update p e i f k) rows) (u.per_record p e i);
  per_id = λ c. rw (count-update (has_id c) q f (has_id-update c f k) rows) (u.per_id c);
}

pub delete-IsUnique : (q : Row → Bool) (rows : Table) → IsUnique rows → IsUnique (delete q rows)
delete-IsUnique q rows u = record {
  per_record = λ p e i. omega (arith, count-delete-le (is_for p e i) q rows, u.per_record p e i);
  per_id = λ c. omega (arith, count-delete-le (has_id c) q rows, u.per_id c);
}

-- A row of the record that the statement deletes is deleted.
covers_record :
    (p : ℕ) (e : Entity) (i fresh now : ℕ) (x : Entry) (base : Option ℤ)
    → is_for p e i (new_row fresh now x base) ≡ true
    → (r : Row) → is_for p e i r ≡ true
    → is_open_for x.project_id x.entity x.entity_id r ≡ true
unfolding new_row
covers_record p e i fresh now x base h r k = ground arith

per_id-replace :
    (c fresh now : ℕ) (x : Entry) (base : Option ℤ) (rows : Table)
    → IsUnique rows
    → IsFresh fresh rows
    → count (has_id c) (
        delete (is_open_for x.project_id x.entity x.entity_id) rows
        ++ new_row fresh now x base ∷ [])
      ≤ 1
unfolding new_row
per_id-replace c fresh now x base rows u new =
    let gone = is_open_for x.project_id x.entity x.entity_id in
    rw count-snoc (elim (Bool-cases (fresh == c)) [
      | inl same ↦
          rw (same, ← (==_iff fresh c).0 same)
            (omega (arith, count-delete-le (has_id fresh) gone rows))
      | inr other ↦ rw other (omega (arith, count-delete-le (has_id c) gone rows, u.per_id c))
    ])

replace_rows-IsUnique :
    (fresh now : ℕ) (x : Entry) (existing : Option Row) (rows : Table)
    → IsUnique rows
    → IsFresh fresh rows
    → IsUnique (replace_rows fresh now x existing rows)
unfolding replace_rows
replace_rows-IsUnique fresh now x existing rows u new =
    let base = squashed_base x.base_version existing in
    record {
      per_record = λ p e i.
          count-replace (is_for p e i) (is_open_for x.project_id x.entity x.entity_id)
            (new_row fresh now x base) rows (covers_record p e i fresh now x base)
            (u.per_record p e i);
      per_id = λ c. per_id-replace c fresh now x base rows u new;
    }

replace_existing-IsUnique :
    (fresh now : ℕ) (x : Entry) (existing : Option Row) (rows : Table)
    → IsUnique rows
    → IsFresh fresh rows
    → IsUnique (replace_existing fresh now x existing rows).0
unfolding replace_existing
replace_existing-IsUnique fresh now x none rows u new =
    replace_rows-IsUnique fresh now x none rows u new
replace_existing-IsUnique fresh now x (some r) rows u new =
    elim (Bool-cases (is_conflict_block r)) [
      | inl stays ↦ rw stays (
          update-IsUnique (has_id r.change_id) (refresh_mine x) rows (λ y. (refl, refl, refl, refl))
            u)
      | inr goes ↦ rw goes (replace_rows-IsUnique fresh now x (some r) rows u new)
    ]

pub replace_outbox_entry-IsUnique :
    (fresh now : ℕ) (x : Entry) (force : Bool) (rows : Table)
    → IsUnique rows
    → IsFresh fresh rows
    → IsUnique (replace_outbox_entry fresh now x force rows).0
unfolding replace_outbox_entry
replace_outbox_entry-IsUnique fresh now x force rows u new =
    replace_existing-IsUnique fresh now x _ rows u new
