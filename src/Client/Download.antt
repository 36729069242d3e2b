-- ===== src/Client/Download.antt =====
-- The page loop of a pull in client services/synchronization_service.py: _pull_paginated and
-- _next_page_cursors. `remote` is the remote adapter's sync_pull for the project and the page limit
-- of 2000: the cursors and the snapshot of the request to the answer, or none when it raises.
-- The cancellation checks and the progress texts are left out.
pub mod Progress
pub mod Turns
pub mod Complete
pub mod Tests
use risk_opportunity_manager.Prelude.{
  ℕ, ℤ, pos, zero, suc, Bool, true, false, not, Option, none, some, List, [], ◌∷◌, ◌++◌,
  if◌then◌else◌, ◌==◌, eqb_ℤ, select,
}
use risk_opportunity_manager.Server.Pull.{
  PullKey, risks, opportunities, actions, assessments, helpdesk_tickets, Cursor, seq, Page,
  PullResponse,
}

-- _PULL_KEYS, and the keys of has_more
abbrev pub pull_keys : List PullKey
pull_keys = risks ∷ opportunities ∷ actions ∷ assessments ∷ helpdesk_tickets ∷ []

abbrev pub same_cursor : Cursor → Cursor → Bool
same_cursor (seq a) (seq b) = eqb_ℤ a b
same_cursor c d = false

pub data Next : Type 0 where
  last_page : Next
  stalled : Next
  next_page : (PullKey → Cursor) → Next

-- the keys with more rows, and those of them whose cursor did not move
abbrev pub next_of : List PullKey → List PullKey → (PullKey → Cursor) → Next
next_of [] stuck cursors = last_page
next_of (k ∷ ks) [] cursors = next_page cursors
next_of (k ∷ ks) (s ∷ ss) cursors = stalled

module _ {A : Type 0} where
  -- the cursor text of a page is seq:<cursor>, so never empty
  abbrev pub cursors_of : PullResponse A → PullKey → Cursor
  cursors_of response key = seq (pos (response.pages key).cursor)

  -- _next_page_cursors
  unfoldable pub next_page_cursors : PullResponse A → (PullKey → Cursor) → Next
  unfolding select
  next_page_cursors response cursors =
      let more = select (λ key. (response.pages key).has_more) pull_keys in
      let stuck = select (λ key. same_cursor (cursors_of response key) (cursors key)) more in
      next_of more stuck (cursors_of response)

-- What the loop returns or raises; `unfinished` is the fuel of the model used up.
pub data Download (A : Type 0) : Type 0 where
  downloaded : ℕ → (PullKey → List A) → Download A
  request_failed : Download A
  snapshot_changed : Download A
  no_advance : Download A
  unfinished : Download A

abbrev pub sent : Option ℕ → Option ℤ
sent none = none
sent (some n) = some (pos n)

-- the check of the sequence of a page against the snapshot that the first page fixed
abbrev pub changed : Option ℕ → ℕ → Bool
changed none sequence = false
changed (some fixed) sequence = not (sequence == fixed)

module _ {A : Type 0} (remote : (PullKey → Cursor) → Option ℤ → Option (PullResponse A)) where
  -- the loop of _pull_paginated, on its cursors, its snapshot and the rows merged so far
  unfoldable pub pull_pages : ℕ → (PullKey → Cursor) → Option ℕ → (PullKey → List A) → Download A
  unfolding next_page_cursors
  pull_pages zero cursors snapshot merged = unfinished
  pull_pages (suc fuel) cursors snapshot merged = elim (remote cursors (sent snapshot)) [
    | none ↦ request_failed
    | some response ↦
        if changed snapshot response.server_sequence
        then snapshot_changed
        else elim (next_page_cursors response cursors) [
          | last_page ↦
              downloaded response.server_sequence (λ key. merged key ++ (response.pages key).rows)
          | stalled ↦ no_advance
          | next_page cursors' ↦
              pull_pages fuel cursors' (some response.server_sequence)
                (λ key. merged key ++ (response.pages key).rows)
        ]
  ]

  unfoldable pub pull_paginated : ℕ → Download A
  unfolding pull_pages
  pull_paginated fuel = pull_pages fuel (λ key. Cursor.absent) none (λ key. [])
