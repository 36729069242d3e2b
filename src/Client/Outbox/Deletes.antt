-- ===== src/Client/Outbox/Deletes.antt =====
-- Deletions and forced replacements as updates of the map, and what squashing keeps.
use risk_opportunity_manager.Prelude.{
  ℕ, ℤ, pos, ◌≡◌, refl, Bool, true, false, inl, inr, Option, none, some, if◌then◌else◌, arith,
  Bool-cases, leb_ℤ, ◌∙◌, ◌==◌, ◌&&◌,
}
use risk_opportunity_manager.Protocol.{Entity, same_entity, Op}
use risk_opportunity_manager.Json.{Fields}
use risk_opportunity_manager.Client.Outbox.{
  Row, Table, pending, is_for, remote_create_may_exist, create_may_exist_remotely,
}
use risk_opportunity_manager.Client.Outbox.Queue.{
  Entry, new_row, squashed_base, replace_outbox_entry, is_conflict_block, queue_delete,
  delete_entry, discard_entity_changes,
}
use risk_opportunity_manager.Client.Outbox.Unique.{IsUnique}
use risk_opportunity_manager.Client.Outbox.Squashed.{
  squashed, first_base, is_undecided, is_conflict_block-eq-is_undecided,
}
use risk_opportunity_manager.Client.Outbox.View.{
  queued, is_entry_for, oldest_open_entry-eq-queued, queued-replace_outbox_entry,
  queued-replace_rows, queued-delete,
}

-- A forced replacement puts the entry at its record, whatever was queued there.
pub queued-force :
    (p : ℕ) (e : Entity) (i fresh now : ℕ) (x : Entry) (rows : Table)
    → queued p e i (replace_outbox_entry fresh now x true rows).0 ≡ (
        if is_entry_for p e i x
        then some (new_row fresh now x x.base_version)
        else queued p e i rows)
unfolding replace_outbox_entry squashed_base
queued-force p e i fresh now x rows = queued-replace_rows p e i fresh now x none rows

-- Whether an upsert, by its base version and its attempt, is one that the server can have.
unfoldable reached : Op → Option ℤ → Option ℕ → Bool
reached Op.upsert none none = false
reached Op.upsert none (some at) = true
reached Op.upsert (some b) attempted = true
reached Op.delete base attempted = false

-- The queued change, if there is one, is an upsert that the server can have.
unfoldable pub reached_server : Option Row → Bool
unfolding reached
reached_server none = false
reached_server (some r) = reached r.op r.base_version r.last_attempt_at

-- What a deletion leaves queued for its record.
unfoldable pub after_delete : ℕ → ℕ → ℕ → Entity → ℕ → Fields → ℤ → Option Row → Option Row
after_delete fresh now p e i fields ver o =
    if leb_ℤ (pos 1) ver
    then some (squashed fresh now (delete_entry p e i fields ver) o)
    else if reached_server o
    then some (record {
      change_id = fresh;
      project_id = p;
      entity = e;
      op = Op.delete;
      entity_id = i;
      base_version = some (pos 1);
      fields = fields;
      status = pending;
      last_error = "";
      failure_kind = none;
      result = none;
      retry_count = 0;
      next_retry_at = none;
      last_attempt_at = none;
      created_at = now;
    })
    else none

reached_server-eq : (o : Option Row) → create_may_exist_remotely o ≡ reached_server o
unfolding create_may_exist_remotely reached_server reached
reached_server-eq none = refl
reached_server-eq (some r) = ground arith

remote_create_may_exist-queued :
    (p : ℕ) (e : Entity) (i : ℕ) (rows : Table)
    → IsUnique rows
    → remote_create_may_exist p e i rows ≡ reached_server (queued p e i rows)
unfolding remote_create_may_exist
remote_create_may_exist-queued p e i rows u =
    rw (oldest_open_entry-eq-queued p e i rows u) (reached_server-eq (queued p e i rows))

-- the record that a deletion is for
abbrev pub is_record : ℕ → Entity → ℕ → ℕ → Entity → ℕ → Bool
is_record p' e' i' p e i = p == p' && same_entity e e' && i == i'

record_of :
    (p' : ℕ) (e' : Entity) (i' p : ℕ) (e : Entity) (i : ℕ) (r : Row)
    → is_for p' e' i' r ≡ true
    → is_for p e i r ≡ is_record p' e' i' p e i
record_of p' e' i' p e i r h = ground arith

-- Queueing a deletion is an update of the map. A record that the server knows, or may have got
-- from a create whose answer was lost, gets a delete; a create that was never sent is dropped
-- with nothing queued; every other record keeps its change.
pub queued-queue_delete :
    (p' : ℕ) (e' : Entity) (i' fresh now p : ℕ) (e : Entity) (i : ℕ) (fields : Fields) (ver : ℤ)
    (rows : Table)
    → IsUnique rows
    → queued p' e' i' (queue_delete fresh now p e i fields ver rows) ≡ (
        if is_record p' e' i' p e i
        then after_delete fresh now p e i fields ver (queued p e i rows)
        else queued p' e' i' rows)
unfolding queue_delete after_delete new_row
queued-queue_delete p' e' i' fresh now p e i fields ver rows u =
    elim (Bool-cases (leb_ℤ (pos 1) ver)) [
      | inl known ↦
          rw known
            (queued-replace_outbox_entry p' e' i' fresh now (delete_entry p e i fields ver) rows u)
      | inr fresh_row ↦
          rw (fresh_row, remote_create_may_exist-queued p e i rows u)
            (elim (Bool-cases (reached_server (queued p e i rows))) [
              | inl sent ↦
                  rw
                    (sent, queued-force p' e' i' fresh now (delete_entry p e i fields (pos 1)) rows)
              | inr unsent ↦ rw unsent (
                  unfold discard_entity_changes in
                  queued-delete p' e' i' p e i rows (is_record p' e' i' p e i)
                    (record_of p' e' i' p e i))
            ])
    ]

-- The queue holds the edit for its record, based on version b.
abbrev pub IsEdit : Entry → ℤ → Option Row → Type 0
IsEdit x b none = ⊥
IsEdit x b (some r) = (r.base_version ≡ some b) × (r.op ≡ x.op) × (r.fields ≡ x.fields)

own_record : (x : Entry) → is_entry_for x.project_id x.entity x.entity_id x ≡ true
own_record x = ground arith

queued-own :
    (fresh now : ℕ) (x : Entry) (r : Row) (rows : Table)
    → IsUnique rows
    → queued x.project_id x.entity x.entity_id rows ≡ some r
    → queued x.project_id x.entity x.entity_id (replace_outbox_entry fresh now x false rows).0
      ≡ some (squashed fresh now x (some r))
queued-own fresh now x r rows u h =
    queued-replace_outbox_entry x.project_id x.entity x.entity_id fresh now x rows u
    ∙ rw (own_record x, h)

squashed_known :
    (fresh now : ℕ) (x : Entry) (r : Row) (b : ℤ)
    → r.base_version ≡ some b
    → IsEdit x b (some (squashed fresh now x (some r)))
unfolding squashed first_base
squashed_known fresh now x r b h = ground arith

-- An edit of a record whose queued change is based on version b takes that change's place and
-- stays based on b, whatever base version the edit itself brings.
pub IsEdit-keeps_base :
    (fresh now : ℕ) (x : Entry) (r : Row) (b : ℤ) (rows : Table)
    → IsUnique rows
    → queued x.project_id x.entity x.entity_id rows ≡ some r
    → r.base_version ≡ some b
    → IsEdit x b
        (queued x.project_id x.entity x.entity_id (replace_outbox_entry fresh now x false rows).0)
IsEdit-keeps_base fresh now x r b rows u h k =
    rw (queued-own fresh now x r rows u h) (squashed_known fresh now x r b k)

squashed_sent :
    (fresh now : ℕ) (x : Entry) (r : Row) (sent : ℕ)
    → is_conflict_block r ≡ false
    → r.base_version ≡ none
    → r.op ≡ Op.upsert
    → r.last_attempt_at ≡ some sent
    → IsEdit x (pos 1) (some (squashed fresh now x (some r)))
unfolding squashed first_base is_undecided
squashed_sent fresh now x r sent c b o a = ground (arith, is_conflict_block-eq-is_undecided r)

-- An edit of a record whose create was sent, is not answered and is not a recorded conflict is
-- queued against version 1, the version that the create has if it arrived.
pub IsEdit-after_sent_create :
    (fresh now : ℕ) (x : Entry) (r : Row) (sent : ℕ) (rows : Table)
    → IsUnique rows
    → queued x.project_id x.entity x.entity_id rows ≡ some r
    → is_conflict_block r ≡ false
    → r.base_version ≡ none
    → r.op ≡ Op.upsert
    → r.last_attempt_at ≡ some sent
    → IsEdit x
        (pos 1)
        (queued x.project_id x.entity x.entity_id (replace_outbox_entry fresh now x false rows).0)
IsEdit-after_sent_create fresh now x r sent rows u h c b o a =
    rw (queued-own fresh now x r rows u h) (squashed_sent fresh now x r sent c b o a)
