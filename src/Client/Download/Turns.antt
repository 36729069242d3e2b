-- ===== src/Client/Download/Turns.antt =====
-- Turns of the page loop of a pull: with the last page, and with a page before it.
use risk_opportunity_manager.Prelude.{ℕ, ℤ, suc, ◌≡◌, refl, false, Option, some, List, ◌++◌}
use risk_opportunity_manager.Server.Pull.{PullKey, Cursor, PullResponse}
use risk_opportunity_manager.Client.Download.{
  cursors_of, next_page_cursors, last_page, next_page, downloaded, pull_pages, sent, changed,
}

module _ {A : Type 0} (remote : (PullKey → Cursor) → Option ℤ → Option (PullResponse A)) where
  -- a turn of the loop with the last page, and one with a page before it
  pub turn_last :
      (fuel : ℕ) (cursors : PullKey → Cursor) (snapshot : Option ℕ) (merged : PullKey → List A)
      (response : PullResponse A)
      → remote cursors (sent snapshot) ≡ some response
      → changed snapshot response.server_sequence ≡ false
      → next_page_cursors response cursors ≡ last_page
      → pull_pages remote (suc fuel) cursors snapshot merged
        ≡ downloaded response.server_sequence (λ key. merged key ++ (response.pages key).rows)
  unfolding pull_pages
  turn_last fuel cursors snapshot merged response answered same next =
      rw (pull_pages, answered, same, next) refl

  pub turn_next :
      (fuel : ℕ) (cursors : PullKey → Cursor) (snapshot : Option ℕ) (merged : PullKey → List A)
      (response : PullResponse A)
      → remote cursors (sent snapshot) ≡ some response
      → changed snapshot response.server_sequence ≡ false
      → next_page_cursors response cursors ≡ next_page (cursors_of response)
      → pull_pages remote (suc fuel) cursors snapshot merged
        ≡ pull_pages remote fuel
            (cursors_of response)
            (some response.server_sequence)
            (λ key. merged key ++ (response.pages key).rows)
  unfolding pull_pages
  turn_next fuel cursors snapshot merged response answered same next =
      rw (pull_pages, answered, same, next) refl
