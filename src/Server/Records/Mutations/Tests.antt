-- ===== src/Server/Records/Mutations/Tests.antt =====
-- Changes of a small project, 7: one risk, 5, at version 3, and the change sequence at 40.
use risk_opportunity_manager.Prelude.{
  true, ℕ, ◌≤◌, ℤ, pos, ◌≡◌, ◌≢◌, ◌⊎◌, refl, ap, false, Option, none, some, [], ◌∷◌, arith, find,
  update, count,
}
use risk_opportunity_manager.Protocol.{risk, Op}
use risk_opportunity_manager.Json.{Fields, Value, int, text, bool}
use risk_opportunity_manager.Server.Permissions.{Role}
use risk_opportunity_manager.Server.Push.{
  Failure, Attempt, done, failed, Change, Session, PushContext,
}
use risk_opportunity_manager.Server.Push.Engine.{push_changes, status_is_deleted}
use risk_opportunity_manager.Server.Records.{
  items, Row, Records, Env, valid, find_row, fetch_obj, is_deleted,
}
use risk_opportunity_manager.Server.Records.Mutations.Apply.{
  apply_change, records_backend, apply_upsert, apply_delete,
}
use risk_opportunity_manager.Server.Records.Mutations.Keys.{IsKeyed, change_frame}
use risk_opportunity_manager.Server.Records.Mutations.Versions.{
  version_at, IsVersioned, change_versions, one_writer,
}
use risk_opportunity_manager.Server.Records.Mutations.Sequences.{IsStamped, change_sequences}
use risk_opportunity_manager.Server.Records.Mutations.Deleted.{apply_delete_lem}
use risk_opportunity_manager.Server.Records.Mutations.Pushed.{push_versions}

abbrev read_id : Value → Option ℕ
read_id (int (pos n)) = some n
read_id _ = none

-- every record is valid, and ids are numbers
abbrev plain : Env
plain = record {
  validate = λ e d. valid d;
  uuid_of = read_id;
  uuid_text = λ n. "id";
  iso_text = λ n. "now";
  violates = λ rows r. false;
  digits = record { is_other_digit = λ c. false; other_digit = λ c. none };
}

abbrev flood : Row
flood = record {
  model = items;
  id = 5;
  project_id = 7;
  kind = risk;
  assessor = 0;
  created_by = 1;
  version = 3;
  created_at = 10;
  updated_at = 20;
  status_changed_at = 10;
  change_sequence = 40;
  columns =
      ("title", text "Flood")
      ∷ ("probability", int (pos 2))
      ∷ ("impact", int (pos 3))
      ∷ ("status", text "active")
      ∷ ("is_deleted", bool false)
      ∷ [];
}

abbrev stored : Records
stored = record {
  rows = flood ∷ [];
  counters = record { project_id = 7; last_sequence = 40 } ∷ [];
  audits = [];
  now = 30;
}

abbrev edit : Fields
edit = ("id", int (pos 5)) ∷ ("title", text "Flooding") ∷ ("probability", int (pos 4)) ∷ []

abbrev records_of : Attempt Records → Records
records_of (done i d) = d
records_of (failed f) = stored

abbrev try_change : ℕ → Op → Option ℤ → Fields → Records → Attempt Records
try_change u op base fields d = apply_change plain u 7 risk op base fields 100 d

abbrev edited : Records
unfolding apply_upsert apply_delete find count update status_is_deleted
edited = records_of (try_change 1 Op.upsert (some (pos 3)) edit stored)

edit_accepted : try_change 1 Op.upsert (some (pos 3)) edit stored ≡ done 5 edited
unfolding apply_upsert apply_delete find count update status_is_deleted
edit_accepted = refl

edited_version : (version_at stored items 5 ≡ 3) × (version_at edited items 5 ≡ 4)
unfolding apply_upsert apply_delete find count update status_is_deleted version_at
edited_version = (refl, refl)

is_written : edited ≢ stored
unfolding apply_upsert apply_delete find count update status_is_deleted version_at
is_written h = absurd (ground (arith, ap (λ d. version_at d items 5) h))

stored-IsKeyed : IsKeyed stored
unfolding IsKeyed count
stored-IsKeyed m i = ground arith

abbrev claimed : Records
claimed = record stored { rows = record flood { version = 4; updated_at = 30 } ∷ [] }

change_frame_example : find_row items 6 edited.rows ≡ find_row items 6 stored.rows
unfolding apply_upsert apply_delete find count update status_is_deleted
change_frame_example =
    change_frame plain 1 7 risk Op.upsert (some (pos 3)) edit 100 stored 5 edited items 6 refl refl

change_versions_example : (edited ≡ stored) ⊎ IsVersioned stored items 5 (some (pos 3)) edited
unfolding apply_upsert apply_delete find count update status_is_deleted
change_versions_example =
    change_versions plain 1 7 risk Op.upsert (some (pos 3)) edit 100 stored 5 edited stored-IsKeyed
      refl

change_sequences_example : (edited ≡ stored) ⊎ IsStamped stored items 5 edited
unfolding apply_upsert apply_delete find count update status_is_deleted
change_sequences_example =
    change_sequences plain 1 7 risk Op.upsert (some (pos 3)) edit 100 stored 5 edited stored-IsKeyed
      refl

one_writer_example :
    ((f : Failure) × (apply_change plain 2 7 risk Op.delete (some (pos 3)) edit 101 edited
        ≡ failed f))
    ⊎ (apply_change plain 2 7 risk Op.delete (some (pos 3)) edit 101 edited ≡ done 5 edited)
unfolding apply_upsert apply_delete find count update status_is_deleted version_at
one_writer_example =
    one_writer plain 1 7 2 7 risk Op.upsert Op.delete (some (pos 3)) edit edit 100 101 stored 5
      edited stored-IsKeyed (omega arith) refl is_written refl

abbrev change : Change
change = record {
  change_id = 100;
  entity = some risk;
  op = some Op.upsert;
  base_version = some (pos 3);
  fields = edit;
}

abbrev fresh : Session Records
fresh = record { records = stored; receipts = [] }

push_versions_example :
    (end : PushContext Records) × (push_changes
        (records_backend plain (λ (c : Change). c.change_id))
        fresh
        1
        7
        Role.member
        (change ∷ change ∷ [])
      ≡ some end)
    × IsKeyed end.session.records
    × (version_at stored items 5 ≤ version_at end.session.records items 5)
push_versions_example =
    push_versions plain (λ (c : Change). c.change_id) fresh 1 7 Role.member (change ∷ change ∷ [])
      items 5 stored-IsKeyed

abbrev removed : Records
unfolding apply_upsert apply_delete find count update status_is_deleted
removed = records_of (try_change 1 Op.delete (some (pos 3)) edit stored)

apply_delete_lem_example :
    ((fetch_obj plain stored.rows risk 5 7 ≡ none) × (removed ≡ stored))
    ⊎ ((after : Row) × (find_row items 5 removed.rows ≡ some after) × (is_deleted after ≡ true))
unfolding apply_upsert apply_delete find count update status_is_deleted
apply_delete_lem_example =
    apply_delete_lem plain 1 7 risk (some (pos 3)) edit 100 stored 5 removed stored-IsKeyed refl
