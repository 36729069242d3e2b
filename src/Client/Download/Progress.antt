-- ===== src/Client/Download/Progress.antt =====
-- What a page adds to the page loop of a pull, and what it leaves to fetch.
use risk_opportunity_manager.Prelude.{
  ℕ, ℤ, pos, suc, ◌+◌, ◌≤◌, ◌<◌, ◌≡◌, refl, ◌∙◌, ap, Bool, true, false, ◌⊎◌, inl, inr, Option, none,
  some, List, [], ◌∷◌, ◌++◌, arith, All, length-append, Bool-cases, order_by, length, select,
}
use risk_opportunity_manager.Server.Pull.{
  window, pull_since, PullKey, risks, opportunities, actions, assessments, helpdesk_tickets, Cursor,
  Page, PullResponse, Result, ok, err,
}
use risk_opportunity_manager.Server.Pull.Pages.{IsPage}
use risk_opportunity_manager.Server.Pull.Answers.{Stands}
use risk_opportunity_manager.Client.Download.{
  pull_keys, same_cursor, next_of, cursors_of, next_page_cursors, last_page, next_page, Download,
  downloaded,
}

module _ {A : Type 0} (p : A → Bool) where
  select_cases :
      (xs : List A)
      → ((select p xs ≡ []) × All (λ x. p x ≡ false) xs)
        ⊎ ((y : A) × (ys : List A) × (select p xs ≡ y ∷ ys) × (p y ≡ true))
  unfolding select
  select_cases [] = inl (refl, tt)
  select_cases (x ∷ xs) = elim (Bool-cases (p x)) [
    | inl hit ↦ inr (x, select p xs, rw hit refl, hit)
    | inr miss ↦ elim (select_cases xs) [
      | inl h ↦ inl (rw miss h.0, (miss, h.1))
      | inr h ↦ inr (h.0, h.1, rw miss h.2, h.3)
    ]
  ]

  select-select-none :
      (q : A → Bool)
      → ((x : A) → p x ≡ true → q x ≡ false)
      → (xs : List A) → select q (select p xs) ≡ []
  unfolding select
  select-select-none q h [] = refl
  select-select-none q h (x ∷ xs) = elim (Bool-cases (p x)) [
    | inl hit ↦ rw (hit, h x hit) (select-select-none q h xs)
    | inr miss ↦ rw miss (select-select-none q h xs)
  ]

abbrev pub sum : (PullKey → ℕ) → ℕ
sum f = f risks + f opportunities + f actions + f assessments + f helpdesk_tickets

pub sum_lt :
    (f g : PullKey → ℕ)
    → ((key : PullKey) → f key ≤ g key)
    → (key : PullKey) → f key < g key
    → sum f < sum g
sum_lt f g le risks lt =
    omega (arith, lt, le opportunities, le actions, le assessments, le helpdesk_tickets)
sum_lt f g le opportunities lt =
    omega (arith, lt, le risks, le actions, le assessments, le helpdesk_tickets)
sum_lt f g le actions lt =
    omega (arith, lt, le risks, le opportunities, le assessments, le helpdesk_tickets)
sum_lt f g le assessments lt =
    omega (arith, lt, le risks, le opportunities, le actions, le helpdesk_tickets)
sum_lt f g le helpdesk_tickets lt =
    omega (arith, lt, le risks, le opportunities, le actions, le assessments)

-- the sync_pull of a server whose rows do not change meanwhile
abbrev pub answer_of : {A : Type 0} → Result (PullResponse A) → Option (PullResponse A)
answer_of (ok response) = some response
answer_of (err e) = none

module _ {A : Type 0} (sequence : A → ℕ) (feeds : PullKey → List A) (current most l since : ℕ) where
  abbrev pub server : (PullKey → Cursor) → Option ℤ → Option (PullResponse A)
  server cursors snapshot =
      answer_of
        (pull_since sequence (some current) most (some (suc l)) cursors (pos since) snapshot feeds)

  -- the rows of a feed that are left after a sequence number
  abbrev pub left : PullKey → ℕ → List A
  left key start = window sequence start current (order_by sequence (feeds key))

  abbrev pub total : (PullKey → ℕ) → ℕ
  total starts = sum (λ key. length (left key (starts key)))

  -- what the loop has so far: rows and the rest make up the window
  abbrev pub Loop : (PullKey → Cursor) → (PullKey → List A) → (PullKey → ℕ) → Type 0
  Loop cursors merged starts =
      (key : PullKey)
      → Stands since (cursors key) (starts key)
        × (since ≤ starts key)
        × (starts key ≤ current)
        × (merged key ++ left key (starts key) ≡ left key since)

  abbrev pub IsComplete : Download A → Type 0
  IsComplete result =
      (rows : PullKey → List A) × (result ≡ downloaded current rows)
      × ((key : PullKey) → rows key ≡ left key since)

  stays : (a b : ℕ) → b ≤ a → (b < a) ⊎ (a ≡ b)
  stays a b h = omega arith

  -- without a stalled key, the loop ends exactly when no key has more
  pub next_cases :
      (response : PullResponse A) (cursors : PullKey → Cursor)
      → ((key : PullKey)
          → (response.pages key).has_more ≡ true
          → same_cursor (cursors_of response key) (cursors key) ≡ false)
      → ((next_page_cursors response cursors ≡ last_page)
          × ((key : PullKey) → (response.pages key).has_more ≡ false))
        ⊎ ((next_page_cursors response cursors ≡ next_page (cursors_of response))
            × ((key : PullKey) × ((response.pages key).has_more ≡ true)))
  unfolding next_page_cursors
  next_cases response cursors free =
      elim (select_cases (λ key. (response.pages key).has_more) pull_keys) [
        | inl h ↦ inl (rw (next_page_cursors, h.0) refl, every h.1)
        | inr h ↦ inr (go_on h.2, (h.0, h.3))
      ]
    where
      more : List PullKey
      more = select (λ key. (response.pages key).has_more) pull_keys

      stuck : select (λ key. same_cursor (cursors_of response key) (cursors key)) more ≡ []
      stuck =
          select-select-none (λ key. (response.pages key).has_more)
            (λ key. same_cursor (cursors_of response key) (cursors key)) free pull_keys

      go_on :
          {y : PullKey} {ys : List PullKey}
          → more ≡ y ∷ ys
          → next_page_cursors response cursors ≡ next_page (cursors_of response)
      go_on {y} {ys} h =
          ap (λ none_stuck. next_of more none_stuck (cursors_of response)) stuck
          ∙ ap (λ some_more. next_of some_more [] (cursors_of response)) h

      every :
          All (λ key. (response.pages key).has_more ≡ false) pull_keys
          → (key : PullKey) → (response.pages key).has_more ≡ false
      every h risks = h.0
      every h opportunities = h.1.0
      every h actions = h.1.1.0
      every h assessments = h.1.1.1.0
      every h helpdesk_tickets = h.1.1.1.1.0

  full_rows :
      (key : PullKey) (start : ℕ) (page : Page A)
      → IsPage sequence (some (suc l)) start current (order_by sequence (feeds key)) page
      → page.has_more ≡ true
      → length page.rows ≡ suc l
  full_rows key start page h more = elim h.3 [
    | inl t ↦ grind (arith, t.1)
    | inr f ↦ grind (arith, f.0, more)
  ]

  pub page_shrinks :
      (key : PullKey) (start : ℕ) (page : Page A)
      → IsPage sequence (some (suc l)) start current (order_by sequence (feeds key)) page
      → length (left key page.cursor) ≤ length (left key start)
  page_shrinks key start page h =
      omega
        (arith, length-append page.rows (left key page.cursor), ap {A = List A} {B = ℕ} length h.0)

  pub full_shrinks :
      (key : PullKey) (start : ℕ) (page : Page A)
      → IsPage sequence (some (suc l)) start current (order_by sequence (feeds key)) page
      → page.has_more ≡ true
      → length (left key page.cursor) < length (left key start)
  full_shrinks key start page h more = omega (
    arith,
    length-append page.rows (left key page.cursor),
    ap {A = List A} {B = ℕ} length h.0,
    full_rows key start page h more,
  )

  pub page_advances :
      (key : PullKey) (start : ℕ) (page : Page A)
      → IsPage sequence (some (suc l)) start current (order_by sequence (feeds key)) page
      → page.has_more ≡ true
      → start < page.cursor
  page_advances key start page h more = elim (stays page.cursor start h.1) [
    | inl lt ↦ lt
    | inr same ↦ omega (
      arith,
      full_shrinks key start page h more,
      ap {A = ℕ} {B = ℕ} (λ n. length (left key n)) same,
    )
  ]
