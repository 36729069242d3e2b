-- ===== src/Server/Push/Tests.antt =====
-- Pushes at a small backend: the records are a counter of the accepted changes, every record is
-- number 5, and every mutation but a delete succeeds.
use risk_opportunity_manager.Prelude.{
  ℕ, pos, ◌+◌, ◌≡◌, ◌≢◌, ◌⊎◌, refl, true, false, Option, none, some, List, [], ◌∷◌, find, select,
}
use risk_opportunity_manager.Protocol.{risk, Op}
use risk_opportunity_manager.Json.{Value}
use risk_opportunity_manager.Server.Permissions.{Role, member, manager}
use risk_opportunity_manager.Server.Push.{
  Change, Result, accepted, Receipt, integrity_error, Attempt, done, failed, Backend, Session,
  PushContext, empty_body,
}
use risk_opportunity_manager.Server.Push.Engine.{push_changes, start}
use risk_opportunity_manager.Server.Push.Batch.{change_ids, result_ids}
use risk_opportunity_manager.Server.Push.Idempotence.{
  push_changes_answers, push_again, receipt_answers,
}
use risk_opportunity_manager.Server.Push.Replays.{IsAnswer}
use risk_opportunity_manager.Server.Push.Frame.{push_frame, any_accepted}

abbrev count_up : Op → ℕ → Attempt ℕ
count_up Op.upsert d = done 5 (d + 1)
count_up Op.delete d = failed integrity_error

abbrev counter : Backend ℕ
counter = record {
  apply = λ u p e op v fields c d. count_up op d;
  current_server_state = λ d e i p u. (some (pos d), some []);
  is_tombstone = λ d e i p. false;
  maybe_entity_id = λ fields. some 5;
  updated_at_text = λ r. none;
  payload_hash = λ (c : Change). c.change_id + 100;
}

abbrev edit : Change
edit = record {
  change_id = 1;
  entity = some risk;
  op = some Op.upsert;
  base_version = some (pos 1);
  fields = ("title", Value.text "Flood") ∷ [];
}

abbrev removal : Change
removal = record edit { change_id = 2; op = some Op.delete }

abbrev batch : List Change
batch = edit ∷ removal ∷ edit ∷ []

abbrev fresh : Session ℕ
fresh = record { records = 0; receipts = [] }

abbrev get_context : Option (PushContext ℕ) → PushContext ℕ
get_context none = start counter fresh 1 7 manager []
get_context (some ctx) = ctx

abbrev first : PushContext ℕ
unfolding push_changes find select
first = get_context (push_changes counter fresh 1 7 manager batch)

-- the edit is accepted, the removal fails, and the edit that comes again is replayed
counted : (first.session.records ≡ 1) × (result_ids first.results ≡ 1 ∷ 2 ∷ 1 ∷ [])
unfolding push_changes find select
counted = (refl, refl)

push_changes_answers_example :
    (end : PushContext ℕ) × (push_changes counter fresh 1 7 manager batch ≡ some end)
    × (result_ids end.results ≡ change_ids batch)
push_changes_answers_example = push_changes_answers counter fresh 1 7 manager batch

push_again_example :
    (again : PushContext ℕ) × (push_changes counter first.session 2 7 member batch ≡ some again)
    × (again.session ≡ first.session)
unfolding push_changes find select
push_again_example = push_again counter fresh 1 7 2 manager member batch first refl refl

push_frame_example :
    (end : PushContext ℕ) × (push_changes counter fresh 1 7 member batch ≡ some end)
    × ((any_accepted end.results ≡ true) ⊎ (end.session.records ≡ 0))
    × ((member ≢ Role.viewer) ⊎ (end.session.records ≡ 0))
push_frame_example = push_frame counter fresh 1 7 member batch

abbrev old_receipt : Receipt
old_receipt = record {
  change_id = 1;
  user_id = 1;
  project_id = 7;
  entity = some risk;
  entity_id = some 5;
  op = some Op.upsert;
  status = accepted;
  response = record { entity_id = some 5; body = empty_body };
  payload_hash = some 101;
}

abbrev later : Session ℕ
later = record { records = 3; receipts = old_receipt ∷ [] }

receipt_answers_example :
    (end : PushContext ℕ) × (r : Result) × (push_changes counter later 1 7 manager (edit ∷ [])
      ≡ some end)
    × (end.session ≡ later)
    × (end.results ≡ r ∷ [])
    × IsAnswer counter 3 1 7 edit old_receipt r
unfolding find
receipt_answers_example = receipt_answers counter later 1 7 manager edit old_receipt refl
