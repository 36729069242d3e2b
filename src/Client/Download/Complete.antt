-- ===== src/Client/Download/Complete.antt =====
-- Runs of the page loop of a pull, against the server's pull_since.
use risk_opportunity_manager.Prelude.{
  ℕ, ℤ, pos, zero, suc, ◌≤◌, ◌<◌, ==_refl, ◌≡◌, refl, sym, ◌∙◌, ap, subst, true, false, ◌⊎◌, inl,
  inr, Option, none, some, List, [], ◌++◌, arith, order_by, length,
}
use mathlib.Core.Bool.{true≢false}
use mathlib.Core.List.{append-nil, append_assoc}
use risk_opportunity_manager.Server.Pull.{pull_since, PullKey, Cursor, seq, PullResponse, ok}
use risk_opportunity_manager.Server.Pull.Windows.{IsStrict}
use risk_opportunity_manager.Server.Pull.Answers.{Stands, Fixes, Answers, pull_since-Answers}
use risk_opportunity_manager.Client.Download.{
  cursors_of, same_cursor, downloaded, pull_pages, pull_paginated, sent, changed,
}
use risk_opportunity_manager.Client.Download.Turns.{turn_last, turn_next}
use risk_opportunity_manager.Client.Download.Progress.{
  answer_of, sum, sum_lt, server, left, total, Loop, IsComplete, next_cases, page_advances,
  page_shrinks, full_shrinks,
}

not_lt_zero : (n : ℕ) → n < 0 → ⊥
not_lt_zero n h = omega (arith, h)

module _ {A : Type 0} (sequence : A → ℕ) (feeds : PullKey → List A) (current most l since : ℕ)
    (strict : (key : PullKey) → IsStrict sequence (order_by sequence (feeds key)))
    (known : since ≤ current) where
  abbrev Snapshot : Option ℕ → Type 0
  Snapshot none = Unit
  Snapshot (some n) = n ≡ current

  Snapshot-Fixes : (snapshot : Option ℕ) → Snapshot snapshot → Fixes current (sent snapshot) current
  Snapshot-Fixes none h = refl
  Snapshot-Fixes (some n) h = ap pos h

  unchanged : (snapshot : Option ℕ) → Snapshot snapshot → changed snapshot current ≡ false
  unchanged none h = refl
  unchanged (some n) h = rw (h, ==_refl current) refl

  moved :
      (to start : ℕ) (c : Cursor)
      → Stands since c start
      → start < to
      → same_cursor (seq (pos to)) c ≡ false
  moved to start Cursor.absent h lt = refl
  moved to start Cursor.malformed h lt = refl
  moved to start (seq z) h lt = rw h (ground (arith, lt))

  -- the cursors after a page keep what the loop has
  abbrev pages_loop : PullResponse A → (PullKey → ℕ)
  pages_loop response key = (response.pages key).cursor

  not_stalled :
      (response : PullResponse A) (cursors : PullKey → Cursor) (starts : PullKey → ℕ)
      (merged : PullKey → List A)
      → Loop sequence feeds current most l since cursors merged starts
      → Answers sequence feeds l starts current response
      → (key : PullKey) → (response.pages key).has_more ≡ true
      → same_cursor (cursors_of response key) (cursors key) ≡ false
  not_stalled response cursors starts merged inv answers key more =
      moved (response.pages key).cursor (starts key) (cursors key) (inv key).0 (
        page_advances sequence feeds current most l since key (starts key) (response.pages key)
          (answers.1 key) more)

  total_shrinks :
      (response : PullResponse A) (starts : PullKey → ℕ)
      → Answers sequence feeds l starts current response
      → (key : PullKey) → (response.pages key).has_more ≡ true
      → total sequence feeds current most l since (pages_loop response)
        < total sequence feeds current most l since starts
  total_shrinks response starts answers key more =
      sum_lt _ _
        (λ k.
          page_shrinks sequence feeds current most l since k (starts k) (response.pages k)
            (answers.1 k))
        key
        (full_shrinks sequence feeds current most l since key (starts key) (response.pages key)
          (answers.1 key) more)

  Loop-next :
      (response : PullResponse A) (cursors : PullKey → Cursor) (starts : PullKey → ℕ)
      (merged : PullKey → List A)
      → Loop sequence feeds current most l since cursors merged starts
      → Answers sequence feeds l starts current response
      → Loop sequence feeds current most l since
          (cursors_of response)
          (λ key. merged key ++ (response.pages key).rows)
          (pages_loop response)
  Loop-next response cursors starts merged inv answers key = (
    refl,
    omega (arith, (inv key).1, (answers.1 key).1),
    (answers.1 key).2,
    append_assoc (merged key) (response.pages key).rows
          (left sequence feeds current most l since key (response.pages key).cursor)
        ∙ ap (λ r. merged key ++ r) (answers.1 key).0
        ∙ (inv key).3,
  )

  -- every feed is whole when no key has more
  last_complete :
      (response : PullResponse A) (cursors : PullKey → Cursor) (starts : PullKey → ℕ)
      (merged : PullKey → List A)
      → Loop sequence feeds current most l since cursors merged starts
      → Answers sequence feeds l starts current response
      → ((key : PullKey) → (response.pages key).has_more ≡ false)
      → (key : PullKey)
      → merged key ++ (response.pages key).rows ≡ left sequence feeds current most l since key since
  last_complete response cursors starts merged inv answers no_more key =
      ap (λ r. merged key ++ r)
        (sym (append-nil (response.pages key).rows)
          ∙ ap (λ r. (response.pages key).rows ++ r) (sym (rest (answers.1 key).3))
          ∙ (answers.1 key).0)
      ∙ (inv key).3
    where
      rest :
          (((response.pages key).has_more ≡ true)
              × (some (suc l) ≡ some (length (response.pages key).rows))
              × (0
                  < length
                      (left sequence feeds current most l since key (response.pages key).cursor)))
            ⊎ (((response.pages key).has_more ≡ false)
                × (left sequence feeds current most l since key (response.pages key).cursor ≡ []))
          → left sequence feeds current most l since key (response.pages key).cursor ≡ []
      rest (inl h) = elim (true≢false (sym h.0 ∙ no_more key)) [ ]
      rest (inr h) = h.1

  turn :
      (fuel : ℕ) (cursors : PullKey → Cursor) (snapshot : Option ℕ) (merged : PullKey → List A)
      (starts : PullKey → ℕ)
      → Snapshot snapshot
      → Loop sequence feeds current most l since cursors merged starts
      → total sequence feeds current most l since starts < suc fuel
      → (response : PullResponse A)
      → server sequence feeds current most l since cursors (sent snapshot) ≡ some response
      → Answers sequence feeds l starts current response
      → (total sequence feeds current most l since (pages_loop response) < fuel
          → IsComplete sequence feeds current most l since (
              pull_pages
                (server sequence feeds current most l since)
                fuel
                (cursors_of response)
                (some response.server_sequence)
                (λ key. merged key ++ (response.pages key).rows)))
      → IsComplete sequence feeds current most l since (
          pull_pages
            (server sequence feeds current most l since)
            (suc fuel)
            cursors
            snapshot
            merged)
  turn fuel cursors snapshot merged starts fixed inv enough response answered answers continue =
      elim (next_cases sequence feeds current most l since response cursors
        (not_stalled response cursors starts merged inv answers)) [
          | inl h ↦ (
            λ key. merged key ++ (response.pages key).rows,
            turn_last remote fuel cursors snapshot merged response answered same h.0
                ∙ ap (λ n. downloaded n (λ key. merged key ++ (response.pages key).rows)) answers.0,
            last_complete response cursors starts merged inv answers h.1,
          )
          | inr h ↦
              subst (IsComplete sequence feeds current most l since)
                (sym (turn_next remote fuel cursors snapshot merged response answered same h.0))
                (continue
                  (omega (arith, enough, total_shrinks response starts answers h.1.0 h.1.1)))
        ]
    where
      remote : (PullKey → Cursor) → Option ℤ → Option (PullResponse A)
      remote = server sequence feeds current most l since

      same : changed snapshot response.server_sequence ≡ false
      same = rw answers.0 (unchanged snapshot fixed)

  Loop-completes :
      (fuel : ℕ) (cursors : PullKey → Cursor) (snapshot : Option ℕ) (merged : PullKey → List A)
      (starts : PullKey → ℕ)
      → Snapshot snapshot
      → Loop sequence feeds current most l since cursors merged starts
      → total sequence feeds current most l since starts < fuel
      → IsComplete sequence feeds current most l since
          (pull_pages (server sequence feeds current most l since) fuel cursors snapshot merged)
  Loop-completes zero cursors snapshot merged starts fixed inv enough =
      elim (not_lt_zero _ enough) [ ]
  Loop-completes (suc fuel) cursors snapshot merged starts fixed inv enough =
      turn fuel cursors snapshot merged starts fixed inv enough answer.0 (ap answer_of answer.1)
        answer.2
        (λ left_over.
          Loop-completes fuel (cursors_of answer.0) (some answer.0.server_sequence)
            (λ key. merged key ++ (answer.0.pages key).rows) (pages_loop answer.0) answer.2.0
            (Loop-next answer.0 cursors starts merged inv answer.2) left_over)
    where
      answer :
          (response : PullResponse A) × (pull_since sequence
              (some current)
              most
              (some (suc l))
              cursors
              (pos since)
              (sent snapshot)
              feeds
            ≡ ok response)
          × Answers sequence feeds l starts current response
      answer =
          pull_since-Answers sequence feeds current most l since current cursors (sent snapshot)
            starts (Snapshot-Fixes snapshot fixed) known (omega arith) strict
            (λ key. ((inv key).0, (inv key).1, (inv key).2))

-- Let the rows of each feed have sequence numbers of their own, let no row change while the loop
-- runs, and let the client's sequence number be at most the server's. Then the page loop of a pull
-- ends, on any page limit of at least 1 and on more fuel than there are rows to fetch, without an
-- error: it returns the server's sequence number and, for each key, exactly the rows after the
-- client's sequence number in the order of their own.
pub pull_paginated_completes :
    {A : Type 0} (sequence : A → ℕ) (feeds : PullKey → List A) (current most l since : ℕ)
    → ((key : PullKey) → IsStrict sequence (order_by sequence (feeds key)))
    → since ≤ current
    → (fuel : ℕ) → sum (λ key. length (left sequence feeds current most l since key since)) < fuel
    → IsComplete sequence feeds current most l since
        (pull_paginated (server sequence feeds current most l since) fuel)
unfolding pull_paginated
pull_paginated_completes sequence feeds current most l since strict known fuel enough =
    Loop-completes sequence feeds current most l since strict known fuel (λ key. Cursor.absent) none
      (λ key. []) (λ key. since) tt (λ key. (refl, omega arith, known, refl)) enough
