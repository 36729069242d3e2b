-- ===== src/Client/Download/Tests.antt =====
-- A download of small feeds in pages of two rows; a row is its own sequence number.
use risk_opportunity_manager.Prelude.{ℕ, pos, true, ◌≡◌, refl, List, [], ◌∷◌, arith, order_by, some}
use risk_opportunity_manager.Server.Pull.{
  PullKey, risks, opportunities, actions, assessments, helpdesk_tickets, pull_since, PullResponse,
  page_after, window, seq, ok,
}
use risk_opportunity_manager.Server.Pull.Windows.{IsStrict}
use risk_opportunity_manager.Server.Pull.Answers.{Answers, pull_since-Answers}
use risk_opportunity_manager.Client.Download.{pull_paginated}
use risk_opportunity_manager.Client.Download.Progress.{server, IsComplete}
use risk_opportunity_manager.Client.Download.Complete.{pull_paginated_completes}

abbrev row_sequence : ℕ → ℕ
row_sequence n = n

abbrev feeds : PullKey → List ℕ
feeds risks = 5 ∷ 3 ∷ 9 ∷ 1 ∷ 8 ∷ []
feeds opportunities = 4 ∷ []
feeds actions = 7 ∷ 2 ∷ 6 ∷ []
feeds assessments = []
feeds helpdesk_tickets = 10 ∷ []

feeds-IsStrict : (key : PullKey) → IsStrict row_sequence (order_by row_sequence (feeds key))
unfolding order_by
feeds-IsStrict risks = omega arith
feeds-IsStrict opportunities = omega arith
feeds-IsStrict actions = omega arith
feeds-IsStrict assessments = omega arith
feeds-IsStrict helpdesk_tickets = omega arith

pull_paginated_completes_example :
    IsComplete row_sequence feeds 9 5000 1 1
      (pull_paginated (server row_sequence feeds 9 5000 1 1) 20)
unfolding window order_by
pull_paginated_completes_example =
    pull_paginated_completes row_sequence feeds 9 5000 1 1 feeds-IsStrict (omega arith) 20
      (omega arith)

-- the first page of the risks is full, and the next request reads on from row 5
first_page :
    page_after row_sequence (some 2) 1 9 (order_by row_sequence (feeds risks))
    ≡ record { rows = 3 ∷ 5 ∷ []; has_more = true; cursor = 5 }
unfolding page_after window order_by
first_page = refl

pull_since-Answers_example :
    (response : PullResponse ℕ) × (pull_since row_sequence
        (some 9)
        5000
        (some 2)
        (λ key. seq (pos 3))
        (pos 1)
        (some (pos 8))
        feeds
      ≡ ok response)
    × Answers row_sequence feeds 1 (λ key. 3) 8 response
pull_since-Answers_example =
    pull_since-Answers row_sequence feeds 9 5000 1 1 8 (λ key. seq (pos 3)) (some (pos 8))
      (λ key. 3) refl (omega arith) (omega arith) feeds-IsStrict
      (λ key. (refl, omega arith, omega arith))
