-- ===== src/Client/Outbox/Schedule.antt =====
-- Which changes are sent, in which order, and how deferring, blocking and releasing decide it.
use risk_opportunity_manager.Prelude.{ℕ, ℤ, pos, negsuc, max, min, ◌≤◌, arith, IsOrdered}
use risk_opportunity_manager.Client.Outbox.{Row, Table, clamp_limit}

-- Rows in the order of their creation.
abbrev pub IsByAge : Table → Type 0
IsByAge = IsOrdered (λ (r : Row). r.created_at)

-- The number of changes that a batch has room for.
unfoldable pub room : ℤ → ℕ
room (pos n) = max 1 (min n 1000)
room (negsuc n) = 1

-- A batch holds at most 1000 changes and has room for one, whatever limit is asked for.
pub clamp_limit_bounds : (limit : ℤ) → (1 ≤ clamp_limit limit) × (clamp_limit limit ≤ 1000)
unfolding clamp_limit
clamp_limit_bounds limit = ground arith
