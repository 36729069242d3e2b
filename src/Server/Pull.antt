-- ===== src/Server/Pull.antt =====
-- Pull of the change feeds: server sync/pull.py. A feed is the list of one entity's rows of the
-- project; `sequence` is their change_sequence. The five feeds are a function of the response key.
pub mod Windows
pub mod Pages
pub mod Answers
use risk_opportunity_manager.Prelude.{
  ℕ, ℤ, zero, suc, ◌+◌, pos, pos_part, Bool, true, false, ◌&&◌, ◌||◌, not, Option, none, some, List,
  [], ◌∷◌, if◌then◌else◌, ltb, leb, ltb_ℤ, leb_ℤ, select, take, length, order_by,
}

pub data PullKey : Type 0 where
  risks opportunities actions assessments helpdesk_tickets : PullKey

-- the text of a cursor: missing or empty, not of the form seq:<int>, or seq:n
pub data Cursor : Type 0 where
  absent : Cursor
  malformed : Cursor
  seq : ℤ → Cursor

pub data PullError : Type 0 where
  missing_state negative_since snapshot_precedes snapshot_ahead invalid_cursor too_large : PullError

pub data Result (A : Type 0) : Type 0 where
  ok : A → Result A
  err : PullError → Result A

infixl 5 ◌>>=◌
abbrev pub ◌>>=◌ : {A B : Type 0} → Result A → (A → Result B) → Result B
ok a >>= f = f a
err e >>= f = err e

unfoldable pub parse_sequence_cursor : Cursor → ℕ → ℕ → Result ℕ
parse_sequence_cursor absent default_since snapshot = ok default_since
parse_sequence_cursor malformed default_since snapshot = err invalid_cursor
parse_sequence_cursor (seq n) default_since snapshot =
    if leb_ℤ (pos default_since) n && leb_ℤ n (pos snapshot)
    then ok (pos_part n)
    else err invalid_cursor

-- _PullContext; the clock and the session are left out
pub record PullContext : Type 0 where
  pub limit : Option ℕ
  pub hard_cap : Option ℕ
  pub cursors : PullKey → Cursor
  pub since_sequence : ℕ
  pub snapshot_sequence : ℕ

-- `current` is the project's last_sequence, `most` is MAX_SYNC_PULL_PER_ENTITY
unfoldable pub prepare_pull_context :
    Option ℕ → ℕ → Option ℕ → (PullKey → Cursor) → ℤ → Option ℤ → Result PullContext
prepare_pull_context none most limit cursors since snapshot = err missing_state
prepare_pull_context (some current) most limit cursors since snapshot =
    let normalized : ℤ = elim snapshot [ none ↦ pos current | some n ↦ n ] in
    if ltb_ℤ since (pos 0)
    then err negative_since
    else if ltb_ℤ normalized since
    then err snapshot_precedes
    else if ltb_ℤ (pos current) normalized
    then err snapshot_ahead
    else ok (record {
      limit = elim limit [ none ↦ some most | some l ↦ some l ];
      hard_cap = elim limit [ none ↦ some most | some l ↦ none ];
      cursors = cursors;
      since_sequence = pos_part since;
      snapshot_sequence = pos_part normalized;
    })

pub record Page (A : Type 0) : Type 0 where
  pub rows : List A
  pub has_more : Bool
  pub cursor : ℕ

-- Python's `if limit`: neither None nor zero
abbrev pub limited : Option ℕ → Option ℕ
limited none = none
limited (some zero) = none
limited (some (suc l)) = some (suc l)

abbrev is_set : Option ℕ → Bool
is_set none = false
is_set (some zero) = false
is_set (some (suc n)) = true

pub record PullResponse (A : Type 0) : Type 0 where
  pub server_sequence : ℕ
  pub pages : PullKey → Page A

module _ {A : Type 0} where
  abbrev pub pages_of : Page A → Page A → Page A → Page A → Page A → PullKey → Page A
  pages_of r o a s h risks = r
  pages_of r o a s h opportunities = o
  pages_of r o a s h actions = a
  pages_of r o a s h assessments = s
  pages_of r o a s h helpdesk_tickets = h

  abbrev pub any_more : (PullKey → Page A) → Bool
  any_more pages =
      (pages risks).has_more
      || (pages opportunities).has_more
      || (pages actions).has_more
      || (pages assessments).has_more
      || (pages helpdesk_tickets).has_more

module _ {A : Type 0} (sequence : A → ℕ) where
  -- the rows after a sequence number, up to the snapshot, in the order of the feed
  unfoldable pub window : ℕ → ℕ → List A → List A
  unfolding select
  window since snapshot rows =
      select (λ r. ltb since (sequence r) && leb (sequence r) snapshot) rows

  -- the sequence of the last row, or the one before the page
  unfoldable pub last_sequence : ℕ → List A → ℕ
  last_sequence since [] = since
  last_sequence since (r ∷ rows) = last_sequence (sequence r) rows

  -- the page that starts after `since`, from the ordered rows
  unfoldable pub page_after : Option ℕ → ℕ → ℕ → List A → Page A
  unfolding window last_sequence
  page_after none since snapshot ordered =
      let rows = window since snapshot ordered in
      record { rows = rows; has_more = false; cursor = last_sequence since rows }
  page_after (some l) since snapshot ordered =
      let fetched = take (suc l) (window since snapshot ordered) in
      let more = ltb l (length fetched) in
      let rows = if more then take l fetched else fetched in
      record { rows = rows; has_more = more; cursor = last_sequence since rows }

  -- _pull_page
  unfoldable pub pull_page : PullContext → PullKey → List A → Result (Page A)
  unfolding parse_sequence_cursor page_after order_by
  pull_page ctx key feed = do
    since ← parse_sequence_cursor (ctx.cursors key) ctx.since_sequence ctx.snapshot_sequence
    ok (page_after (limited ctx.limit) since ctx.snapshot_sequence (order_by sequence feed))

  -- pull_since, on the feeds of the project
  unfoldable pub pull_since :
      Option ℕ
      → ℕ
      → Option ℕ
      → (PullKey → Cursor)
      → ℤ
      → Option ℤ
      → (PullKey → List A)
      → Result (PullResponse A)
  unfolding prepare_pull_context pull_page
  pull_since current most limit cursors since snapshot feeds = do
    ctx ← prepare_pull_context current most limit cursors since snapshot
    r ← pull_page ctx risks (feeds risks)
    o ← pull_page ctx opportunities (feeds opportunities)
    a ← pull_page ctx actions (feeds actions)
    s ← pull_page ctx assessments (feeds assessments)
    h ← pull_page ctx helpdesk_tickets (feeds helpdesk_tickets)
    let pages = pages_of r o a s h
    if is_set ctx.hard_cap && any_more pages
        then err too_large
        else ok (record { server_sequence = ctx.snapshot_sequence; pages = pages })
