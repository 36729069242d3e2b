-- ===== src/Client/Outbox/Backoff.antt =====
-- Deferring, blocking and releasing: when a change that failed is sent again.
use risk_opportunity_manager.Prelude.{
  ℕ, ℤ, zero, suc, ◌+◌, ◌*◌, ◌≤◌, ◌≡◌, refl, ◌∙◌, min, ◌-◌, count-update_none, false, ◌&&◌, ◌⊎◌,
  ◌≢◌, inl, inr, Option, none, some, if◌then◌else◌, arith, leb, count, update, find, find-update,
  find_passes, String, ==_refl, ◌==◌, Bool-cases, [], ◌∷◌,
}
use risk_opportunity_manager.Protocol.{FailureKind}
use risk_opportunity_manager.Client.Outbox.{
  Outcome, Row, Table, pending, has_id, is_ready, in_project, blocked_count, pending_count,
  conflict_count, error_count, deferred_count,
}
use risk_opportunity_manager.Client.Outbox.Retry.{
  get_or, retry_delay, retry_delays_seconds, retry_time, defer_row, defer_outbox_id, block_row,
  block_outbox_id, is_blocking,
}

abbrev delay_at : ℕ → ℕ
delay_at k =
    if k == 0 then 2 else if k == 1 then 5 else if k == 2 then 15 else if k == 3 then 60 else 300

delays_at : (k : ℕ) → k ≤ 4 → get_or retry_delays_seconds k 0 ≡ delay_at k
delays_at zero h = refl
delays_at (suc zero) h = refl
delays_at (suc (suc zero)) h = refl
delays_at (suc (suc (suc zero))) h = refl
delays_at (suc (suc (suc (suc zero)))) h = refl
delays_at (suc (suc (suc (suc (suc k))))) h = absurd (omega arith)

retry_delay_lem : (attempt : ℕ) → retry_delay attempt none ≡ delay_at (min (attempt - 1) 4)
unfolding retry_delay
retry_delay_lem attempt = delays_at (min (attempt - 1) 4) (omega arith)

retry_delay_explicit : (attempt : ℕ) (after : ℤ) → retry_delay attempt (some after) ≤ 86400
unfolding retry_delay
retry_delay_explicit attempt after = ground arith

retry_delay_growth :
    (attempt next : ℕ)
    → attempt ≤ next
    → (2 ≤ retry_delay attempt none)
      × (retry_delay attempt none ≤ retry_delay next none)
      × (retry_delay next none ≤ 300)
retry_delay_growth attempt next h = ground (arith, retry_delay_lem attempt, retry_delay_lem next)

retry_delay-le_day : (attempt : ℕ) (after : Option ℤ) → retry_delay attempt after ≤ 86400
retry_delay-le_day attempt none =
    let (_, _, b) = retry_delay_growth attempt attempt (omega arith) in omega arith
retry_delay-le_day attempt (some a) = retry_delay_explicit attempt a

-- The row with a change id after an update of that row.
found-update :
    (c : ℕ) (f : Row → Row) (r : Row) (rows : Table)
    → ((y : Row) → (f y).change_id ≡ y.change_id)
    → find (has_id c) rows ≡ some r
    → find (has_id c) (update (has_id c) f rows) ≡ some (f r)
found-update c f r rows same h =
    find-update (has_id c) (has_id c) f (λ y. rw (same y)) rows
    ∙ rw (h, find_passes (has_id c) r rows h)

defer_ready :
    (o : Outcome) (err : String) (after : Option ℤ) (now attempt later : ℕ) (r : Row)
    → is_ready r.project_id later (defer_row o err after now attempt r)
      ≡ leb (retry_time attempt after now) later
unfolding defer_row
defer_ready o err after now attempt later r = rw (==_refl r.project_id)

defer_row_fields :
    (o : Outcome) (err : String) (after : Option ℤ) (now attempt : ℕ) (r : Row)
    → ((defer_row o err after now attempt r).change_id ≡ r.change_id)
      × ((defer_row o err after now attempt r).retry_count ≡ attempt)
unfolding defer_row
defer_row_fields o err after now attempt r = (refl, refl)

defer_found :
    (c : ℕ) (o : Outcome) (err : String) (after : Option ℤ) (now : ℕ) (r : Row) (rows : Table)
    → find (has_id c) rows ≡ some r
    → defer_outbox_id c o err after now rows ≡ (
      update (has_id c) (defer_row o err after now (r.retry_count + 1)) rows,
      some (retry_time (r.retry_count + 1) after now),
    )
unfolding defer_outbox_id
defer_found c o err after now r rows h = rw (h, defer_outbox_id)

-- Deferring a change that is queued counts the attempt and schedules the change: it is ready again
-- exactly from the returned time on, which lies in the next day.
pub defer_outbox_id_lem :
    (c : ℕ) (o : Outcome) (err : String) (after : Option ℤ) (now : ℕ) (r : Row) (rows : Table)
    → find (has_id c) rows ≡ some r
    → let (rows', at) = defer_outbox_id c o err after now rows in
      (r' : Row) × (t : ℕ) × (at ≡ some t)
      × (find (has_id c) rows' ≡ some r')
      × (r'.retry_count ≡ r.retry_count + 1)
      × ((later : ℕ) → is_ready r.project_id later r' ≡ leb t later)
      × (now ≤ t)
      × (t ≤ now + 86400 * 1000000)
defer_outbox_id_lem c o err after now r rows h =
    let attempt = r.retry_count + 1 in
    let stepped = defer_found c o err after now r rows h in
    (
      defer_row o err after now attempt r,
      retry_time attempt after now,
      rw stepped,
      rw stepped (
          found-update c (defer_row o err after now attempt) r rows
            (λ y. (defer_row_fields o err after now attempt y).0) h),
      (defer_row_fields o err after now attempt r).1,
      λ later. defer_ready o err after now attempt later r,
      omega arith,
      omega (arith, retry_delay-le_day attempt after),
    )

block_not_ready :
    (o : Outcome) (err : String) (kind : FailureKind) (c p now later : ℕ) (r : Row)
    → (has_id c (block_row o err kind now r) && is_ready p later (block_row o err kind now r))
      ≡ false
unfolding block_row
block_not_ready o err kind c p now later r = ground arith

-- Blocking a change for any kind of failure but a transient one takes it out of every batch, of
-- any project and at any time, until its status changes; a transient failure is refused.
pub block_outbox_id_lem :
    (c : ℕ) (o : Outcome) (err : String) (kind : FailureKind) (now p later : ℕ) (rows : Table)
    → (block_outbox_id c o err kind now rows ≡ none) × (kind ≡ FailureKind.transient)
      ⊎ ((rows' : Table) × (block_outbox_id c o err kind now rows ≡ some rows')
          × (kind ≢ FailureKind.transient)
          × (count (λ r. has_id c r && is_ready p later r) rows' ≡ 0))
unfolding block_outbox_id
block_outbox_id_lem c o err kind now p later rows = elim (Bool-cases (is_blocking kind)) [
  | inl blocks ↦ inr (
    update (has_id c) (block_row o err kind now) rows,
    rw blocks,
    λ e. cc (e, blocks),
    count-update_none (λ r. has_id c r && is_ready p later r) (has_id c) (block_row o err kind now)
        (block_not_ready o err kind c p now later) (λ x n. rw n) rows,
  )
  | inr refused ↦ inl (rw refused, ground arith)
]

abbrev release_row : Row → Row
release_row r = record r { status = pending; next_retry_at = none }

-- Every queued change of a project is counted once: it is pending, a conflict or an error.
pub counts_partition :
    (p : Option ℕ) (rows : Table)
    → (pending_count p rows + blocked_count p rows ≡ count (in_project p) rows)
      × (conflict_count p rows + error_count p rows ≡ blocked_count p rows)
      × (deferred_count p rows ≤ pending_count p rows)
unfolding pending_count blocked_count conflict_count error_count deferred_count count
counts_partition p [] = omega arith
counts_partition p (r ∷ rows) = ground (arith, counts_partition p rows)
