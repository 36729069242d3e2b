-- ===== src/Lib.antt =====
-- A model of the risk and opportunity manager's synchronization, and what makes it correct.
--
-- The program is an offline-first desktop client (client/riskapp_client) and an API server
-- (server/riskapp_server). The client writes its edits to an outbox table, pushes batches of them,
-- and pulls the rows that changed since the last sequence number it knows. The server applies each
-- change of a batch on its own, stores a receipt for its id, and answers pulls page by page.
--
-- The files, and the code that they follow:
--   Prelude   lists read as tables (WHERE, UPDATE, DELETE, ORDER BY), Boolean tests, integers
--   Text      str.lower and str.strip; Json: JSON objects as Python dicts
--   Protocol  client domain/sync_protocol.py, server sync/registry.py and classify_http_failure
--   Client/Outbox    client adapters/local_storage/sync_outbox_queue.py: the table (Outbox), the
--     queueing operations (Queue), sending, deferring and blocking (Retry), acknowledging
--     (Acknowledge, with Kept and Acknowledged); a table is seen as a map from records to changes
--     (Squashed, View, Deletes); Unique and Steps are about all sequences of operations, Schedule and Backoff
--     about batches, delays and counts
--   Client/Store     client adapters/local_storage/server_state.py with sqlite_base.py and
--     adapters/mappers/action_assessment_mapper.py: the local rows (Store), what a record becomes
--     (Reading), pulls (Pull), acknowledgements (Acks) and the watermark (Watermark); one round of a
--     pull (Rounds), what it spares (Waiting), unique codes (Codes), what an acknowledgement leaves
--     (Confirmed), and pulls that go through (Complete)
--   Client/Merge     client services/conflict_merge.py and domain/conflict_fields.py: what can be
--     merged (Merge), the checks and the merged record (Record), whose fields it has (Chosen), and its
--     write to the local row, apply_merged_fields of server_state.py (Apply)
--   Client/Download  client services/synchronization_service.py: _pull_paginated and
--     _next_page_cursors, and their run against the server's pull (Turns, Progress, Complete)
--   Server/Permissions  server core/permissions.py and client utils/roles.py
--   Server/Auth      the refresh tokens of server auth/service.py: the table, claims, families and
--     recovery (Auth), rotation (Rotate), the links of a family and its search (Links, Family), the
--     reuse of an old token (Reuse, Theft), the number of live tokens (Sessions, Kept) and a logout (Logout)
--   Server/Push      server sync/engine.py and sync/receipts.py: the data (Push), the handlers
--     (Engine), what one change does (Effects, Repeats), what a receipt answers (Replays), and whole
--     batches (Batch, Loop, Idempotence, Frame, Invariants)
--   Server/RateLimit server core/rate_limit.py: the limiter of logins, its window (Windows), its
--     bounds (Bounds), a later try (Retry) and runs of checks (Runs)
--   Server/Records   the synced rows of server db/models.py, sync/serialize.py and the queries of
--     sync/mutations.py (Records); item codes (Codes, Codes/Shown, Codes/Free)
--   Server/Records/Mutations  server sync/mutations.py and core/scoring.py: parsed records, status
--     changes, scores (Mutations), parsing and parents (Validate), the version claim (Claim), the
--     listeners and checks of a flush (Flush), _create_new (Create), _update_existing (Update), and
--     the backend of the push (Apply); what they leave alone (Heads), what success did (Flushed,
--     Locking, Written, Created, Applied), keys and versions (Keys, Versions), change sequences
--     (Sequences), deleted rows (Deleted), and whole pushes (Pushed)
--   Server/Pull      server sync/pull.py: cursors, pages and pull_since (Pull), the rows after a
--     cursor (Windows), a page (Pages), an answer (Answers)
-- Paths are below client/riskapp_client and server/riskapp_server.
--
-- How state and operations correspond. A table is the list of its rows in the order of insertion,
-- and an operation takes the table and returns the new one. The names of the operations are those
-- of the methods, without a leading underscore. The fresh uuid, the clock and the version of the
-- local row that a method reads are arguments. Ids are numbers, since the code only compares them;
-- a time is a number of microseconds, since the ISO texts that are stored sort alike, and an empty
-- text is `none`. A column of JSON text is the object that it encodes. The push context is a record
-- that is passed on; a raised exception that ends an operation is `none` or an error value.
--
-- The push engine stands on the interface Backend: applying one change to the records, reading a
-- record's current state, and the hash of a change. No law is assumed of it, and records_backend
-- fills it by the model of server sync/mutations.py. A failed change leaves the records as they were, since the code runs it in
-- a savepoint. An entity or an op outside the tables is `none`. In the same way, acknowledging
-- stands on LocalStore, the calls of client adapters/local_storage/server_state.py; a RuntimeError
-- of one of them is `none`.
--
-- The local tables are one list of rows, each with its entity, and stand beside the outbox. A pull or
-- an acknowledgement that raises is `none`, since the transaction of its caller is rolled back. The
-- interface Python is str, int, what a TEXT column keeps, and the numbers that stand for the texts of
-- ids. LocalStore is not filled by this model, since its calls do not see the outbox.
--
-- A merge reads a conflict's two copies as dicts; the interface Checks is str, uuid.UUID,
-- datetime.fromisoformat and max. Python's equality of values takes True for 1.
--
-- A synced row keeps the columns that the server owns in typed fields and those that a client may
-- set in `columns`, a dict by column name. The interface Env is what third-party code does with a
-- change: pydantic's validation of its record, uuid.UUID, isoformat, and the constraints that the
-- database checks, and the digits outside ASCII; a primary key is checked in the model. utcnow is
-- one time for each change, the project of an assessment is its item's, and the state before a
-- change is audited as its row. The letters of an item code's prefix are ASCII, and LIKE ignores
-- case, as SQLite's does. The search for a free item code runs on fuel, two more than there are
-- used numbers, which is enough.
--
-- The limiter's times are microseconds of the monotonic clock, which the code reads as floats.
--
-- A table of refresh tokens is passed through one transaction after the other. A hash is a function
-- of the token's value, and what secrets.token_urlsafe and uuid4 draw is an argument. The search of a
-- family is on fuel, one round for its start and one for each link of the tokens outside the family,
-- which is enough. Between the three attempts of one rotation the table stays as it is.
--
-- The loop of a pull runs on fuel, one unit for each request. More fuel than there are rows to
-- fetch is enough, since each page that is not the last one brings a row. The remote adapter is the
-- parameter `remote`; Complete instantiates it by the model of the server's pull_since.
--
-- Not modelled: transactions and locks of a push beyond the savepoint of one change, cancellation
-- and progress messages, the cleaning of scored records before they are queued, access tokens
-- (JWT), password hashing, refresh tokens that another transaction adds while one waits for their
-- locks, the routers, the local stores of entities and projects, foreign keys,
-- the user interface, configuration, logging, migrations and scripts. The client passes role texts through strip and
-- lower; here a role text is parsed.
pub mod Prelude
pub mod Text
pub mod Json
pub mod Protocol
pub mod Client
pub mod Server
