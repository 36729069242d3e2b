-- ===== src/Client/Outbox/Retry.antt =====
-- Sending, deferring, blocking and releasing queued changes: sync_outbox_queue.py.
use risk_opportunity_manager.Prelude.{
  ℕ, zero, suc, ◌+◌, ◌-◌, ◌*◌, min, length, ℤ, pos, pos_part, max_ℤ, min_ℤ, Bool, true, false, ◌&&◌,
  ◌||◌, Option, none, some, List, [], ◌∷◌, if◌then◌else◌, String, find, delete, update, count,
}
use package.text.Mathlib.Text.{◌==◌ as str_eq}
use risk_opportunity_manager.Protocol.{FailureKind, transient, authentication}
use risk_opportunity_manager.Client.Outbox.{
  Outcome, Row, Table, pending, retry, blocked, is_blocked, has_id, in_project,
}

-- RETRY_DELAYS_SECONDS
abbrev pub retry_delays_seconds : List ℕ
retry_delays_seconds = 2 ∷ 5 ∷ 15 ∷ 60 ∷ 300 ∷ []

-- the element at an index that the caller keeps in range
abbrev pub get_or : List ℕ → ℕ → ℕ → ℕ
get_or [] i d = d
get_or (x ∷ xs) zero d = x
get_or (x ∷ xs) (suc i) d = get_or xs i d

-- change_id IN (…)
unfoldable pub is_listed : List ℕ → Row → Bool
is_listed [] r = false
is_listed (c ∷ cs) r = has_id c r || is_listed cs r

unfoldable pub delete_outbox_ids : List ℕ → Table → Table
unfolding is_listed
delete_outbox_ids cs rows = delete (is_listed cs) rows

unfoldable pub mark_outbox_ids_attempted : List ℕ → ℕ → Table → Table
unfolding is_listed
mark_outbox_ids_attempted cs now rows =
    update (is_listed cs) (λ r. record r { last_attempt_at = some now }) rows

-- a or b, on texts
abbrev or_text : Option String → String → String
or_text none b = b
or_text (some a) b = if str_eq a "" then b else a

-- summary[:n]
take_text : ℕ → String → String
take_text zero s = ""
take_text (suc n) String.[] = ""
take_text (suc n) (String.◌∷◌ c s) = String.◌∷◌ c (take_text n s)

-- The summary that _encode_failure makes of an outcome; `err` is the text of the whole failure.
unfoldable pub failure_summary : Outcome → String → String
failure_summary o err = or_text o.reason (or_text o.message (or_text o.detail err))

-- Backoff in seconds before the attempt after this one.
unfoldable pub retry_delay : ℕ → Option ℤ → ℕ
retry_delay attempt none =
    get_or retry_delays_seconds (min (attempt - 1) (length retry_delays_seconds - 1)) 0
retry_delay attempt (some after) = pos_part (max_ℤ (pos 0) (min_ℤ after (pos 86400)))

abbrev pub or_transient : Option FailureKind → FailureKind
or_transient none = transient
or_transient (some k) = k

abbrev pub retry_time : ℕ → Option ℤ → ℕ → ℕ
retry_time attempt after now = now + retry_delay attempt after * 1000000

unfoldable pub defer_row : Outcome → String → Option ℤ → ℕ → ℕ → Row → Row
unfolding retry_delay failure_summary take_text
defer_row o err after now attempt r = record r {
  status = retry;
  last_error = take_text 500 (failure_summary o err);
  failure_kind = some (or_transient o.failure_kind);
  result = some o;
  retry_count = attempt;
  next_retry_at = some (retry_time attempt after now);
  last_attempt_at = some now;
}

-- defer_outbox_id: the table, and the time of the next attempt if the row is there
unfoldable pub defer_outbox_id : ℕ → Outcome → String → Option ℤ → ℕ → Table → Table × Option ℕ
unfolding defer_row
defer_outbox_id c o err after now rows = elim (find (has_id c) rows) [
  | none ↦ (rows, none)
  | some r ↦
      let attempt = r.retry_count + 1 in
      (
        update (has_id c) (defer_row o err after now attempt) rows,
        some (retry_time attempt after now),
      )
]

abbrev is_authentication : Option FailureKind → Bool
is_authentication (some authentication) = true
is_authentication _ = false

-- status=blocked AND failure_kind='authentication'
abbrev pub is_login_blocked : Option ℕ → Row → Bool
is_login_blocked p r = is_blocked r.status && is_authentication r.failure_kind && in_project p r

-- release_authentication_blocks: the table and the number of rows that changed
unfoldable pub release_authentication_blocks : Option ℕ → Table → Table × ℕ
release_authentication_blocks p rows = (
  update (is_login_blocked p) (λ r. record r { status = pending; next_retry_at = none }) rows,
  count (is_login_blocked p) rows,
)

-- failure_kind in BLOCKING_FAILURE_KINDS
abbrev pub is_blocking : FailureKind → Bool
is_blocking transient = false
is_blocking _ = true

unfoldable pub block_row : Outcome → String → FailureKind → ℕ → Row → Row
unfolding failure_summary take_text
block_row o err kind now r = record r {
  status = blocked;
  last_error = take_text 500 (failure_summary o err);
  failure_kind = some kind;
  result = some o;
  next_retry_at = none;
  last_attempt_at = some now;
}

-- block_outbox_id; `none` is the ValueError for a kind that does not block
unfoldable pub block_outbox_id : ℕ → Outcome → String → FailureKind → ℕ → Table → Option Table
unfolding block_row
block_outbox_id c o err kind now rows =
    if is_blocking kind then some (update (has_id c) (block_row o err kind now) rows) else none
