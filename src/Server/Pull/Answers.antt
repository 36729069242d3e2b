-- ===== src/Server/Pull/Answers.antt =====
-- The answer of pull_since to a request with a page limit (server sync/pull.py).
use risk_opportunity_manager.Prelude.{
  ℕ, ℤ, pos, suc, ◌+◌, ◌≤◌, ◌≡◌, refl, ap, Option, none, some, subst, List, arith, le→leb, order_by,
}
use risk_opportunity_manager.Server.Pull.{
  page_after, Page, parse_sequence_cursor, prepare_pull_context, pull_page, pull_since, PullContext,
  PullKey, risks, opportunities, actions, assessments, helpdesk_tickets, pages_of, PullResponse,
  Cursor, seq, ok,
}
use risk_opportunity_manager.Server.Pull.Windows.{IsStrict}
use risk_opportunity_manager.Server.Pull.Pages.{IsPage, page_after_lem}

-- A cursor names the sequence number where the rest of a feed begins.
abbrev pub Stands : ℕ → Cursor → ℕ → Type 0
Stands since Cursor.absent start = since ≡ start
Stands since Cursor.malformed start = ⊥
Stands since (seq n) start = n ≡ pos start

parse-Stands :
    (since n : ℕ) (c : Cursor) (start : ℕ)
    → Stands since c start
    → since ≤ start
    → start ≤ n
    → parse_sequence_cursor c since n ≡ ok start
unfolding parse_sequence_cursor
parse-Stands since n Cursor.absent start h lo hi = ap ok h
parse-Stands since n Cursor.malformed start h lo hi = elim h [ ]
parse-Stands since n (seq m) start h lo hi = rw h (
    rw
      (
        le→leb (since + 0) (start + 0) (omega (arith, lo)),
        le→leb (start + 0) (n + 0) (omega (arith, hi)),
      )
      refl)

-- the snapshot of a request: the one it names, or the project's last sequence
abbrev pub Fixes : ℕ → Option ℤ → ℕ → Type 0
Fixes current none n = current ≡ n
Fixes current (some z) n = z ≡ pos n

abbrev context : ℕ → (PullKey → Cursor) → ℕ → ℕ → PullContext
context l cursors since n = record {
  limit = some l;
  hard_cap = none;
  cursors = cursors;
  since_sequence = since;
  snapshot_sequence = n;
}

prepare_ok :
    (current most l since n : ℕ) (cursors : PullKey → Cursor) (snapshot : Option ℤ)
    → Fixes current snapshot n
    → since ≤ n
    → n ≤ current
    → prepare_pull_context (some current) most (some l) cursors (pos since) snapshot
      ≡ ok (context l cursors since n)
unfolding prepare_pull_context
prepare_ok current most l since n cursors none h lo hi =
    subst
      (λ m.
        prepare_pull_context (some current) most (some l) cursors (pos since) none
        ≡ ok (context l cursors since m))
      h (ground arith)
prepare_ok current most l since n cursors (some z) h lo hi = rw h (ground arith)

module _ {A : Type 0} (sequence : A → ℕ) (feeds : PullKey → List A) where
  pull_page_ok :
      (l since n start : ℕ) (cursors : PullKey → Cursor) (key : PullKey)
      → Stands since (cursors key) start
      → since ≤ start
      → start ≤ n
      → pull_page sequence (context (suc l) cursors since n) key (feeds key)
        ≡ ok (page_after sequence (some (suc l)) start n (order_by sequence (feeds key)))
  unfolding pull_page
  pull_page_ok l since n start cursors key h lo hi =
      rw (parse-Stands since n (cursors key) start h lo hi) refl

  -- the pages of an answer, each from where its cursor stands
  abbrev pub Answers : ℕ → (PullKey → ℕ) → ℕ → PullResponse A → Type 0
  Answers l starts n response =
      (response.server_sequence ≡ n)
      × ((key : PullKey)
          → IsPage sequence (some (suc l)) (starts key) n (order_by sequence (feeds key))
              (response.pages key))

  -- A pull with a page limit of at least 1 is answered, without an error, if its snapshot is none
  -- or a number from its sequence number up to the server's, each cursor is absent or in that range,
  -- and the rows of each feed have sequence numbers of their own: the answer has the snapshot's
  -- number and, for each key, the page that starts where the cursor stands.
  pub pull_since-Answers :
      (current most l since n : ℕ) (cursors : PullKey → Cursor) (snapshot : Option ℤ)
      (starts : PullKey → ℕ)
      → Fixes current snapshot n
      → since ≤ n
      → n ≤ current
      → ((key : PullKey) → IsStrict sequence (order_by sequence (feeds key)))
      → ((key : PullKey)
          → Stands since (cursors key) (starts key) × (since ≤ starts key) × (starts key ≤ n))
      → (response : PullResponse A) × (pull_since sequence
            (some current)
            most
            (some (suc l))
            cursors
            (pos since)
            snapshot
            feeds
          ≡ ok response)
        × Answers l starts n response
  unfolding pull_since
  pull_since-Answers current most l since n cursors snapshot starts fixes lo hi strict stands = (
    record {
      server_sequence = n;
      pages =
          pages_of (pages risks) (pages opportunities) (pages actions) (pages assessments)
            (pages helpdesk_tickets);
    },
    rw
        (
          prepare_ok current most (suc l) since n cursors snapshot fixes lo hi,
          run risks,
          run opportunities,
          run actions,
          run assessments,
          run helpdesk_tickets,
        )
        refl,
    (refl, λ key. page_of key),
  )
    where
      pages : PullKey → Page A
      pages key = page_after sequence (some (suc l)) (starts key) n (order_by sequence (feeds key))

      run :
          (key : PullKey)
          → pull_page sequence (context (suc l) cursors since n) key (feeds key) ≡ ok (pages key)
      run key =
          pull_page_ok l since n (starts key) cursors key (stands key).0 (stands key).1
            (stands key).2

      whole :
          (key : PullKey)
          → IsPage sequence
              (some (suc l))
              (starts key)
              n
              (order_by sequence (feeds key))
              (pages key)
      whole key =
          page_after_lem sequence (some (suc l)) (starts key) n (order_by sequence (feeds key))
            (strict key) (stands key).2

      page_of :
          (key : PullKey)
          → IsPage sequence (some (suc l)) (starts key) n (order_by sequence (feeds key)) (
              pages_of
                (pages risks)
                (pages opportunities)
                (pages actions)
                (pages assessments)
                (pages helpdesk_tickets)
                key)
      page_of risks = whole risks
      page_of opportunities = whole opportunities
      page_of actions = whole actions
      page_of assessments = whole assessments
      page_of helpdesk_tickets = whole helpdesk_tickets
