-- ===== src/Client/Outbox/Tests.antt =====
-- Runs of the outbox, and its theorems at concrete tables.
use risk_opportunity_manager.Prelude.{
  ℕ, ℤ, pos, ◌+◌, ◌*◌, ◌≤◌, ◌≡◌, refl, false, Option, none, some, [], ◌∷◌, arith, count, find,
  select, delete, leb,
}
use risk_opportunity_manager.Protocol.{risk, action, Op, authentication}
use risk_opportunity_manager.Json.{Value}
use risk_opportunity_manager.Client.Outbox.{
  Outcome, Row, Table, pending, blocked, has_id, is_ready, get_pending_changes,
  create_may_exist_remotely, remote_create_may_exist, oldest_open_entry,
}
use risk_opportunity_manager.Client.Outbox.Queue.{
  Entry, replace_outbox_entry, queue_delete, queue_simple_upsert,
}
use risk_opportunity_manager.Client.Outbox.Retry.{retry_delay, defer_outbox_id}
use risk_opportunity_manager.Client.Outbox.Unique.{IsUnique}
use risk_opportunity_manager.Client.Outbox.Squashed.{squashed}
use risk_opportunity_manager.Client.Outbox.View.{queued, queued-replace_outbox_entry}
use risk_opportunity_manager.Client.Outbox.Deletes.{
  after_delete, reached_server, queued-queue_delete,
}
use risk_opportunity_manager.Client.Outbox.Backoff.{defer_outbox_id_lem}
use risk_opportunity_manager.Client.Outbox.Steps.{Reach, here, next, Step, Reach-IsUnique}

-- project 7: risk 5 was created and sent, risk 6 is an edit of version 3
abbrev created : Row
created = record {
  change_id = 1;
  project_id = 7;
  entity = risk;
  op = Op.upsert;
  entity_id = 5;
  base_version = none;
  fields = ("title", Value.text "Flood") ∷ [];
  status = pending;
  last_error = "";
  failure_kind = none;
  result = none;
  retry_count = 0;
  next_retry_at = none;
  last_attempt_at = some 40;
  created_at = 30;
}

abbrev edited : Row
edited = record created {
  change_id = 2;
  entity_id = 6;
  base_version = some (pos 3);
  last_attempt_at = none;
  created_at = 20;
}

abbrev login_needed : Row
login_needed = record created {
  change_id = 3;
  entity = action;
  status = blocked;
  failure_kind = some authentication;
}

abbrev table : Table
table = created ∷ edited ∷ login_needed ∷ []

abbrev outcome : Outcome
outcome = record {
  reason = some "busy";
  message = none;
  detail = none;
  failure_kind = none;
  server_version = none;
  server_record = none;
  server_updated_at = none;
}

abbrev edit : ℕ → Option ℤ → Entry
edit i base = record {
  project_id = 7;
  entity = risk;
  op = Op.upsert;
  entity_id = i;
  base_version = base;
  fields = ("title", Value.text "Fire") ∷ [];
}

-- A batch is in the order of creation and leaves out what is blocked.
batch : get_pending_changes 7 (pos 100) 50 table ≡ edited ∷ created ∷ []
unfolding get_pending_changes select
batch = refl

-- A create that was sent becomes a delete of version 1; one that was not sent vanishes.
delete_sent :
    queued 7 risk 5 (queue_delete 9 60 7 risk 5 [] (pos 0) table)
    ≡ after_delete 9 60 7 risk 5 [] (pos 0) (some created)
unfolding queued queue_delete after_delete reached_server select find delete
    create_may_exist_remotely remote_create_may_exist oldest_open_entry
delete_sent = refl

-- The first backoff, and the one that all later attempts have.
delays : (retry_delay 1 none ≡ 2) × (retry_delay 9 none ≡ 300)
unfolding retry_delay
delays = (refl, refl)

table-IsUnique : IsUnique table
unfolding count
table-IsUnique = record { per_record = λ p e i. ground arith; per_id = λ c. ground arith }

reached : Reach [] (queue_simple_upsert 1 30 7 risk 5 [] (pos 0) [])
unfolding count
reached = next here (Step.upsert 1 30 7 risk 5 [] (pos 0) refl)

Reach-IsUnique_example : IsUnique (queue_simple_upsert 1 30 7 risk 5 [] (pos 0) [])
Reach-IsUnique_example = Reach-IsUnique reached

queued-replace_outbox_entry_example :
    queued 7 risk 6 (replace_outbox_entry 9 60 (edit 6 none) false table).0
    ≡ some (squashed 9 60 (edit 6 none) (queued 7 risk 6 table))
queued-replace_outbox_entry_example =
    queued-replace_outbox_entry 7 risk 6 9 60 (edit 6 none) table table-IsUnique

queued-queue_delete_example :
    queued 7 risk 5 (queue_delete 9 60 7 risk 5 [] (pos 0) table)
    ≡ after_delete 9 60 7 risk 5 [] (pos 0) (queued 7 risk 5 table)
queued-queue_delete_example =
    queued-queue_delete 7 risk 5 9 60 7 risk 5 [] (pos 0) table table-IsUnique

defer_outbox_id_lem_example :
    let (rows', at) = defer_outbox_id 2 outcome "busy" none 50 table in
    (r' : Row) × (t : ℕ) × (at ≡ some t)
    × (find (has_id 2) rows' ≡ some r')
    × (r'.retry_count ≡ edited.retry_count + 1)
    × ((later : ℕ) → is_ready 7 later r' ≡ leb t later)
    × (50 ≤ t)
    × (t ≤ 50 + 86400 * 1000000)
unfolding find
defer_outbox_id_lem_example = defer_outbox_id_lem 2 outcome "busy" none 50 edited table refl
