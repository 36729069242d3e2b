-- ===== src/Client/Outbox/View.antt =====
-- The outbox as a map from a record to its queued change, and _replace_outbox_entry on that map.
use risk_opportunity_manager.Prelude.{
  ℕ, ℤ, ◌≤◌, ◌≡◌, refl, Bool, true, false, inl, inr, Option, none, some, [], ◌∷◌, ◌++◌,
  if◌then◌else◌, arith, count, update, find, select, Bool-cases, find-append, find-ext,
  find-delete_covered, find-delete_apart, find-update, find_two, find_passes, select_none,
  count-ext, ◌∙◌, updated, or_else, ==_refl, ◌==◌, ◌&&◌,
}
use risk_opportunity_manager.Protocol.{Entity, same_entity}
use risk_opportunity_manager.Client.Outbox.{
  Row, Table, has_id, is_for, is_open_for, oldest, oldest_open_entry,
}
use risk_opportunity_manager.Client.Outbox.Queue.{
  Entry, new_row, squashed_base, delete_open_entries, replace_rows, replace_existing,
  replace_outbox_entry, refresh_mine, is_conflict_block,
}
use risk_opportunity_manager.Client.Outbox.Unique.{IsUnique}
use risk_opportunity_manager.Client.Outbox.Squashed.{squashed, coded, coded-eq-squashed}

-- The change queued for a record.
unfoldable pub queued : ℕ → Entity → ℕ → Table → Option Row
queued p e i rows = find (is_for p e i) rows

-- the entry's record is the one asked for
abbrev pub is_entry_for : ℕ → Entity → ℕ → Entry → Bool
is_entry_for p e i x = x.project_id == p && same_entity x.entity e && x.entity_id == i

oldest-select : (p : Row → Bool) (xs : Table) → count p xs ≤ 1 → oldest (select p xs) ≡ find p xs
unfolding oldest select count find
oldest-select p [] h = refl
oldest-select p (x ∷ xs) h = elim (Bool-cases (p x)) [
  | inl hit ↦ rw (hit, select_none p xs (ground (arith, hit)))
  | inr miss ↦ rw miss (oldest-select p xs (ground (arith, miss)))
]

open_for-eq-for : (p : ℕ) (e : Entity) (i : ℕ) (r : Row) → is_open_for p e i r ≡ is_for p e i r
open_for-eq-for p e i r = ground arith

-- With one row for a record, the oldest open row is the queued change.
pub oldest_open_entry-eq-queued :
    (p : ℕ) (e : Entity) (i : ℕ) (rows : Table)
    → IsUnique rows
    → oldest_open_entry p e i rows ≡ queued p e i rows
unfolding oldest_open_entry queued
oldest_open_entry-eq-queued p e i rows u =
    oldest-select (is_open_for p e i) rows (
      rw (count-ext (is_open_for p e i) (is_for p e i) (open_for-eq-for p e i) rows)
        (u.per_record p e i))
    ∙ find-ext (is_open_for p e i) (is_for p e i) (open_for-eq-for p e i) rows

-- Deleting a record's entries removes its queued change and no other.
pub queued-delete :
    (p : ℕ) (e : Entity) (i p' : ℕ) (e' : Entity) (i' : ℕ) (rows : Table) (b : Bool)
    → ((r : Row) → is_for p e i r ≡ true → is_for p' e' i' r ≡ b)
    → queued p e i (delete_open_entries p' e' i' rows) ≡ (if b then none else queued p e i rows)
unfolding queued delete_open_entries
queued-delete p e i p' e' i' rows true h =
    find-delete_covered (is_for p e i) (is_open_for p' e' i')
      (λ r k. open_for-eq-for p' e' i' r ∙ h r k) rows
queued-delete p e i p' e' i' rows false h =
    find-delete_apart (is_for p e i) (is_open_for p' e' i')
      (λ r k. open_for-eq-for p' e' i' r ∙ h r k) rows

pub same_record :
    (p : ℕ) (e : Entity) (i : ℕ) (x : Entry) (r : Row)
    → is_for p e i r ≡ true
    → is_for x.project_id x.entity x.entity_id r ≡ is_entry_for p e i x
unfolding new_row
same_record p e i x r h = ground arith

or_else-none : (o : Option Row) → or_else o none ≡ o
or_else-none none = refl
or_else-none (some r) = refl

-- Replacing a record's entries by one row puts that row at the record.
queued-put :
    (p : ℕ) (e : Entity) (i p' : ℕ) (e' : Entity) (i' : ℕ) (y : Row) (rows : Table) (b : Bool)
    → ((r : Row) → is_for p e i r ≡ true → is_for p' e' i' r ≡ b)
    → is_for p e i y ≡ b
    → queued p e i (delete_open_entries p' e' i' rows ++ y ∷ [])
      ≡ (if b then some y else queued p e i rows)
unfolding queued find
queued-put p e i p' e' i' y rows true h k =
    find-append (is_for p e i) (delete_open_entries p' e' i' rows) (y ∷ [])
    ∙ rw (queued-delete p e i p' e' i' rows true h, k)
queued-put p e i p' e' i' y rows false h k =
    find-append (is_for p e i) (delete_open_entries p' e' i' rows) (y ∷ [])
    ∙ rw (queued-delete p e i p' e' i' rows false h, k) (or_else-none _)

is_for-new_row :
    (p : ℕ) (e : Entity) (i fresh now : ℕ) (x : Entry) (base : Option ℤ)
    → is_for p e i (new_row fresh now x base) ≡ is_entry_for p e i x
unfolding new_row
is_for-new_row p e i fresh now x base = refl

pub queued-replace_rows :
    (p : ℕ) (e : Entity) (i fresh now : ℕ) (x : Entry) (o : Option Row) (rows : Table)
    → queued p e i (replace_rows fresh now x o rows) ≡ (
        if is_entry_for p e i x
        then some (new_row fresh now x (squashed_base x.base_version o))
        else queued p e i rows)
unfolding replace_rows
queued-replace_rows p e i fresh now x o rows =
    queued-put p e i x.project_id x.entity x.entity_id
      (new_row fresh now x (squashed_base x.base_version o)) rows (is_entry_for p e i x)
      (same_record p e i x) (is_for-new_row p e i fresh now x (squashed_base x.base_version o))

-- the row of another record has another change id
other_id :
    (p : ℕ) (e : Entity) (i p' : ℕ) (e' : Entity) (i' : ℕ) (a b : Row) (rows : Table)
    → IsUnique rows
    → queued p e i rows ≡ some a
    → queued p' e' i' rows ≡ some b
    → is_for p e i b ≡ false
    → has_id b.change_id a ≡ false
unfolding queued
other_id p e i p' e' i' a b rows u h h' n = elim (Bool-cases (has_id b.change_id a)) [
  | inl same ↦ absurd (
      omega (
        arith,
        u.per_id b.change_id,
        find_two (is_for p e i) (is_for p' e' i') (has_id b.change_id) a b rows h h' n same
            (==_refl b.change_id),
      ))
  | inr other ↦ other
]

apart_from :
    (p : ℕ) (e : Entity) (i : ℕ) (x : Entry) (r : Row)
    → is_entry_for p e i x ≡ false
    → is_for x.project_id x.entity x.entity_id r ≡ true
    → is_for p e i r ≡ false
unfolding new_row
apart_from p e i x r h k = ground arith

same_key :
    (p : ℕ) (e : Entity) (i : ℕ) (x : Entry)
    → is_entry_for p e i x ≡ true
    → (r : Row) → is_for p e i r ≡ is_for x.project_id x.entity x.entity_id r
unfolding new_row
same_key p e i x h r = ground arith

-- What refreshing by change id makes of a search that found `o`.
refreshed :
    (p : ℕ) (e : Entity) (i : ℕ) (x : Entry) (r : Row) (rows : Table)
    → IsUnique rows
    → queued x.project_id x.entity x.entity_id rows ≡ some r
    → is_entry_for p e i x ≡ false
    → (o : Option Row) → queued p e i rows ≡ o
    → updated (has_id r.change_id) (refresh_mine x) o ≡ o
refreshed p e i x r rows u h n none k = refl
refreshed p e i x r rows u h n (some a) k = rw (
    other_id p e i x.project_id x.entity x.entity_id a r rows u k h (
      apart_from p e i x r n
        (unfold queued in find_passes (is_for x.project_id x.entity x.entity_id) r rows h)))

-- Refreshing the row of a record by its change id.
queued-refresh :
    (p : ℕ) (e : Entity) (i : ℕ) (x : Entry) (r : Row) (rows : Table) (b : Bool)
    → IsUnique rows
    → queued x.project_id x.entity x.entity_id rows ≡ some r
    → is_entry_for p e i x ≡ b
    → queued p e i (update (has_id r.change_id) (refresh_mine x) rows)
      ≡ (if b then some (refresh_mine x r) else queued p e i rows)
unfolding queued
queued-refresh p e i x r rows true u h k =
    find-update (is_for p e i) (has_id r.change_id) (refresh_mine x) (λ y. refl) rows
    ∙ rw (find-ext (is_for p e i) _ (same_key p e i x k) rows, h, ==_refl r.change_id)
queued-refresh p e i x r rows false u h k =
    find-update (is_for p e i) (has_id r.change_id) (refresh_mine x) (λ y. refl) rows
    ∙ refreshed p e i x r rows u h k (find (is_for p e i) rows) refl

queued-replace_existing :
    (p : ℕ) (e : Entity) (i fresh now : ℕ) (x : Entry) (o : Option Row) (rows : Table)
    → IsUnique rows
    → queued x.project_id x.entity x.entity_id rows ≡ o
    → queued p e i (replace_existing fresh now x o rows).0
      ≡ (if is_entry_for p e i x then some (coded fresh now x o) else queued p e i rows)
unfolding replace_existing coded
queued-replace_existing p e i fresh now x none rows u h =
    queued-replace_rows p e i fresh now x none rows
queued-replace_existing p e i fresh now x (some r) rows u h =
    elim (Bool-cases (is_conflict_block r)) [
      | inl stays ↦ rw stays (queued-refresh p e i x r rows (is_entry_for p e i x) u h refl)
      | inr goes ↦ rw goes (queued-replace_rows p e i fresh now x (some r) rows)
    ]

-- Queueing an edit is an update of the map: the record gets its squashed change, and every other
-- record keeps its own.
pub queued-replace_outbox_entry :
    (p : ℕ) (e : Entity) (i fresh now : ℕ) (x : Entry) (rows : Table)
    → IsUnique rows
    → queued p e i (replace_outbox_entry fresh now x false rows).0 ≡ (
        if is_entry_for p e i x
        then some (squashed fresh now x (queued x.project_id x.entity x.entity_id rows))
        else queued p e i rows)
unfolding replace_outbox_entry
queued-replace_outbox_entry p e i fresh now x rows u =
    rw
      (
        oldest_open_entry-eq-queued x.project_id x.entity x.entity_id rows u,
        ← coded-eq-squashed fresh now x (queued x.project_id x.entity x.entity_id rows),
      )
      (queued-replace_existing p e i fresh now x _ rows u refl)
