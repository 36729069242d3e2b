-- ===== src/Client/Outbox/Steps.antt =====
-- The outbox as a state machine: a step for each operation that writes the table, and the tables
-- that a client can reach from the empty one.
use risk_opportunity_manager.Prelude.{
  ℕ, ℤ, pos, ◌+◌, ◌≡◌, refl, true, false, inl, inr, Option, none, some, [], arith, update, find,
  count, Bool-cases, Option-cases, String, leb_ℤ, List,
}
use risk_opportunity_manager.Protocol.{Entity, FailureKind}
use risk_opportunity_manager.Json.{Fields}
use risk_opportunity_manager.Client.Outbox.{Outcome, Table, has_id, remote_create_may_exist}
use risk_opportunity_manager.Client.Outbox.Queue.{
  queue_simple_upsert, queue_delete, queue_merged_upsert, requeue_conflict_with_new_id,
  override_base_version, discard_entity_changes, delete_open_entries, delete_entry,
}
use risk_opportunity_manager.Client.Outbox.Retry.{
  delete_outbox_ids, mark_outbox_ids_attempted, defer_outbox_id, defer_row, block_outbox_id,
  block_row, release_authentication_blocks, is_listed, is_login_blocked, is_blocking,
}
use risk_opportunity_manager.Client.Outbox.Acknowledge.{
  PushResult, LocalStore, acknowledge_accepted_results,
}
use risk_opportunity_manager.Client.Outbox.Acknowledged.{acknowledge-IsUnique}
use risk_opportunity_manager.Client.Outbox.Unique.{
  IsUnique, IsFresh, update-IsUnique, delete-IsUnique, replace_outbox_entry-IsUnique,
}

pub data Step (s : Table) : Table → Type 1 where
  upsert :
      (fresh now p : ℕ) (e : Entity) (i : ℕ) (d : Fields) (ver : ℤ)
      → IsFresh fresh s
      → Step s (queue_simple_upsert fresh now p e i d ver s)
  remove :
      (fresh now p : ℕ) (e : Entity) (i : ℕ) (d : Fields) (ver : ℤ)
      → IsFresh fresh s
      → Step s (queue_delete fresh now p e i d ver s)
  merge :
      (fresh now p : ℕ) (e : Entity) (i : ℕ) (v : ℤ) (d : Fields)
      → IsFresh fresh s
      → Step s (queue_merged_upsert fresh now p e i v d s).0
  requeue :
      (fresh now c : ℕ) (v : ℤ)
      → IsFresh fresh s
      → Step s (requeue_conflict_with_new_id fresh now c v s).0
  rebase : (p : ℕ) (e : Entity) (i : ℕ) (v : Option ℤ) → Step s (override_base_version p e i v s)
  discard : (p : ℕ) (e : Entity) (i : ℕ) → Step s (discard_entity_changes p e i s)
  attempt : (cs : List ℕ) (now : ℕ) → Step s (mark_outbox_ids_attempted cs now s)
  defer :
      (c : ℕ) (o : Outcome) (err : String) (after : Option ℤ) (now : ℕ)
      → Step s (defer_outbox_id c o err after now s).0
  block :
      (c : ℕ) (o : Outcome) (err : String) (k : FailureKind) (now : ℕ) (t : Table)
      → block_outbox_id c o err k now s ≡ some t
      → Step s t
  release : (p : Option ℕ) → Step s (release_authentication_blocks p s).0
  drop : (cs : List ℕ) → Step s (delete_outbox_ids cs s)
  acknowledge :
      {S : Type 0} (store : LocalStore S) (p : ℕ) (results : List PushResult) (n : ℕ) (x x' : S)
      (t : Table)
      → acknowledge_accepted_results store p results s x ≡ some (t, x', n)
      → Step s t

pub data Reach (s : Table) : Table → Type 1 where
  here : Reach s s
  next : {t u : Table} → Reach s t → Step t u → Reach s u

remove-IsUnique :
    (fresh now p : ℕ) (e : Entity) (i : ℕ) (d : Fields) (ver : ℤ) (s : Table)
    → IsFresh fresh s
    → IsUnique s
    → IsUnique (queue_delete fresh now p e i d ver s)
unfolding queue_delete discard_entity_changes delete_open_entries
remove-IsUnique fresh now p e i d ver s h u = elim (Bool-cases (leb_ℤ (pos 1) ver)) [
  | inl known ↦
      rw known (replace_outbox_entry-IsUnique fresh now (delete_entry p e i d ver) false s u h)
  | inr local ↦ rw local (elim (Bool-cases (remote_create_may_exist p e i s)) [
    | inl sent ↦
        rw sent (replace_outbox_entry-IsUnique fresh now (delete_entry p e i d (pos 1)) true s u h)
    | inr unsent ↦ rw unsent (delete-IsUnique _ s u)
  ])
]

requeue-IsUnique :
    (fresh now c : ℕ) (v : ℤ) (s : Table)
    → IsFresh fresh s
    → IsUnique s
    → IsUnique (requeue_conflict_with_new_id fresh now c v s).0
unfolding requeue_conflict_with_new_id
requeue-IsUnique fresh now c v s h u = elim (Option-cases (find (has_id c) s)) [
  | inl gone ↦ rw (gone, requeue_conflict_with_new_id) u
  | inr (r, found) ↦
      rw (found, requeue_conflict_with_new_id)
        (replace_outbox_entry-IsUnique fresh now _ true s u h)
]

rebase-IsUnique :
    (p : ℕ) (e : Entity) (i : ℕ) (v : Option ℤ) (s : Table)
    → IsUnique s
    → IsUnique (override_base_version p e i v s)
unfolding override_base_version
rebase-IsUnique p e i none s u = u
rebase-IsUnique p e i (some v) s u = update-IsUnique _ _ s (λ y. (refl, refl, refl, refl)) u

defer-IsUnique :
    (c : ℕ) (o : Outcome) (err : String) (after : Option ℤ) (now : ℕ) (s : Table)
    → IsUnique s
    → IsUnique (defer_outbox_id c o err after now s).0
unfolding defer_outbox_id
defer-IsUnique c o err after now s u = elim (Option-cases (find (has_id c) s)) [
  | inl gone ↦ rw (gone, defer_outbox_id) u
  | inr (r, found) ↦
      rw (found, defer_outbox_id)
        (update-IsUnique (has_id c) (defer_row o err after now (r.retry_count + 1)) s
          (unfold defer_row in λ y. (refl, refl, refl, refl)) u)
]

block-IsUnique :
    (c : ℕ) (o : Outcome) (err : String) (k : FailureKind) (now : ℕ) (s t : Table)
    → block_outbox_id c o err k now s ≡ some t
    → IsUnique s
    → IsUnique t
unfolding block_outbox_id
block-IsUnique c o err k now s t h u = elim (Bool-cases (is_blocking k)) [
  | inl blocks ↦
      let e : update (has_id c) (block_row o err k now) s ≡ t = ground (arith, h, blocks) in
      rw (← e) (
        update-IsUnique (has_id c) (block_row o err k now) s
          (unfold block_row in λ y. (refl, refl, refl, refl)) u)
  | inr refused ↦ cc (refused, h)
]

-- Every operation on the outbox keeps one change for each record and one row for each change id.
pub Step-IsUnique : {s t : Table} → Step s t → IsUnique s → IsUnique t
unfolding queue_simple_upsert queue_merged_upsert discard_entity_changes delete_open_entries
    mark_outbox_ids_attempted release_authentication_blocks delete_outbox_ids
Step-IsUnique {s} (upsert fresh now p e i d ver h) u =
    replace_outbox_entry-IsUnique fresh now _ false s u h
Step-IsUnique {s} (remove fresh now p e i d ver h) u = remove-IsUnique fresh now p e i d ver s h u
Step-IsUnique {s} (merge fresh now p e i v d h) u =
    replace_outbox_entry-IsUnique fresh now _ true s u h
Step-IsUnique {s} (requeue fresh now c v h) u = requeue-IsUnique fresh now c v s h u
Step-IsUnique {s} (rebase p e i v) u = rebase-IsUnique p e i v s u
Step-IsUnique {s} (discard p e i) u = delete-IsUnique _ s u
Step-IsUnique {s} (attempt cs now) u =
    update-IsUnique (is_listed cs) _ s (λ y. (refl, refl, refl, refl)) u
Step-IsUnique {s} (defer c o err after now) u = defer-IsUnique c o err after now s u
Step-IsUnique {s} (block c o err k now t h) u = block-IsUnique c o err k now s t h u
Step-IsUnique {s} (release p) u =
    update-IsUnique (is_login_blocked p) _ s (λ y. (refl, refl, refl, refl)) u
Step-IsUnique {s} (drop cs) u = delete-IsUnique (is_listed cs) s u
Step-IsUnique {s} (acknowledge store p results n x x' t h) u =
    acknowledge-IsUnique store p results n s t x x' h u

IsUnique-empty : IsUnique []
unfolding count
IsUnique-empty = omega arith

-- From an empty outbox, no sequence of queueing, deleting, merging, requeueing, rebasing,
-- discarding, sending, deferring, blocking, releasing, dropping and acknowledging changes leaves two
-- changes for one record or two rows with one change id, if each new change id is fresh.
pub Reach-IsUnique : {t : Table} → Reach [] t → IsUnique t
Reach-IsUnique here = IsUnique-empty
Reach-IsUnique (next r st) = Step-IsUnique st (Reach-IsUnique r)
