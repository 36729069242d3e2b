-- ===== src/Client/Outbox/AcknowledgeTests.antt =====
-- An acknowledgement of two sent changes, one of which a newer edit has replaced. The store counts
-- its calls.
use risk_opportunity_manager.Prelude.{
  ℕ, ◌+◌, pos, ◌≡◌, refl, true, false, none, some, [], ◌∷◌, find, select, delete, update,
}
use risk_opportunity_manager.Protocol.{risk, Op}
use risk_opportunity_manager.Json.{Value, get, put}
use risk_opportunity_manager.Client.Outbox.{Row, Table, pending, has_id}
use risk_opportunity_manager.Client.Outbox.Acknowledge.{
  PushResult, LocalStore, named, no_entity, acknowledge_accepted_results, acknowledged_version,
  advanced_fields,
}
use risk_opportunity_manager.Client.Outbox.Kept.{Kept}
use risk_opportunity_manager.Client.Outbox.Acknowledged.{acknowledge_keeps}

abbrev counter : LocalStore ℕ
counter = record {
  release_codes = λ p results s. some s;
  apply_acknowledgement = λ p e i v d s. some (s + 1);
  advance_acknowledgement = λ p e i v d s. some (s + 1);
}

-- risk 5 was edited again, as change 2, while change 1 was sent; change 3 is an edit of risk 6
abbrev newer : Row
newer = record {
  change_id = 2;
  project_id = 7;
  entity = risk;
  op = Op.upsert;
  entity_id = 5;
  base_version = none;
  fields = ("title", Value.text "Flood") ∷ [];
  status = pending;
  last_error = "";
  failure_kind = none;
  result = none;
  retry_count = 0;
  next_retry_at = none;
  last_attempt_at = none;
  created_at = 30;
}

abbrev queue : Table
queue = newer ∷ record newer { change_id = 3; entity_id = 6 } ∷ []

-- change 1 made version 1 of risk 5, which is at version 4 by now
abbrev replayed_create : PushResult
replayed_create = record {
  change_id = some 1;
  accepted = true;
  replayed = true;
  entity = named risk;
  entity_id = some 5;
  server_version = some (pos 4);
  receipt_server_version = some (pos 1);
  server_record = some (("code", Value.text "R-001") ∷ []);
}

abbrev accepted_edit : PushResult
accepted_edit = record replayed_create {
  change_id = some 3;
  replayed = false;
  entity = no_entity;
  entity_id = none;
  receipt_server_version = none;
}

-- the newer edit stands on version 1, and change 3 is gone
abbrev rebased : Table
rebased =
    record newer {
      base_version = some (pos 1);
      fields = ("title", Value.text "Flood") ∷ ("code", Value.text "R-001") ∷ [];
    }
    ∷ []

acknowledged_run :
    acknowledge_accepted_results counter 7 (replayed_create ∷ accepted_edit ∷ []) queue 0
    ≡ some (rebased, 2, 2)
unfolding acknowledge_accepted_results find select delete update acknowledged_version
    advanced_fields get put
acknowledged_run = refl

acknowledge_keeps_example :
    Kept 2 (replayed_create ∷ accepted_edit ∷ []) (find (has_id 2) queue) (find (has_id 2) rebased)
acknowledge_keeps_example =
    acknowledge_keeps counter 7 (replayed_create ∷ accepted_edit ∷ []) 2 queue rebased 0 2
      acknowledged_run 2
