-- ===== src/Server/RateLimit.antt =====
-- The sliding-window limiter of logins: core/rate_limit.py. Times are microseconds of the monotonic
-- clock, a key is a number, and the lock is held for the whole of a check.
pub mod Windows
pub mod Bounds
pub mod Retry
pub mod Runs
mod Tests
use risk_opportunity_manager.Prelude.{
  ℕ, ◌+◌, ◌-◌, ◌*◌, ◌/◌, ◌%◌, max, Bool, true, false, not, Option, none, some, List, [], ◌∷◌, ◌++◌,
  if◌then◌else◌, ◌==◌, ltb, leb, find, delete, update, length,
}

abbrev pub Bucket : Type 0
Bucket = ℕ × List ℕ

-- InMemorySlidingWindowLimiter; `hits` is in the order of insertion
pub record Limiter : Type 0 where
  pub limit : ℕ
  pub window_s : ℕ
  pub max_keys : ℕ
  pub hits : List Bucket
  pub checks : ℕ

pub data Answer : Type 0 where
  allowed : Answer
  refused : ℕ → Answer

abbrev pub second : ℕ
second = 1000000

-- t < now - window_s
unfoldable pub is_stale : ℕ → ℕ → ℕ → Bool
is_stale window_s now t = ltb (t + window_s * second) now

-- hits[-1], which is read of no empty bucket
abbrev pub newest : List ℕ → ℕ
newest [] = 0
newest (t ∷ []) = t
newest (t ∷ u ∷ q) = newest (u ∷ q)

abbrev pub is_empty : List ℕ → Bool
is_empty [] = true
is_empty (t ∷ q) = false

-- not hits or hits[-1] < cutoff
abbrev pub is_expired : ℕ → ℕ → Bucket → Bool
is_expired window_s now (key, q) = if is_empty q then true else is_stale window_s now (newest q)

unfoldable pub prune_stale_keys : ℕ → ℕ → List Bucket → List Bucket
unfolding delete is_stale
prune_stale_keys window_s now hits = delete (is_expired window_s now) hits

abbrev pub has_name : ℕ → Bucket → Bool
has_name key (k, q) = k == key

-- the first bucket with the least newest hit
unfoldable pub oldest_bucket : Bucket → List Bucket → ℕ
oldest_bucket best [] = best.0
oldest_bucket best (b ∷ hits) =
    let later = oldest_bucket b hits in
    let same = oldest_bucket best hits in if ltb (newest b.1) (newest best.1) then later else same

unfoldable pub evict : ℕ → List Bucket → List Bucket
unfolding oldest_bucket delete
evict max_keys [] = []
evict max_keys (b ∷ hits) =
    if leb max_keys (length (b ∷ hits))
    then delete (has_name (oldest_bucket b hits)) (b ∷ hits)
    else b ∷ hits

abbrev pub bucket_of : Option Bucket → List ℕ
bucket_of none = []
bucket_of (some (k, q)) = q

abbrev pub is_found : Option Bucket → Bool
is_found none = false
is_found (some b) = true

-- _make_room_for
unfoldable pub make_room_for : ℕ → ℕ → ℕ → ℕ → List Bucket → List Bucket
unfolding prune_stale_keys evict find
make_room_for max_keys window_s now key hits =
    if is_found (find (has_name key) hits)
    then hits
    else evict max_keys (prune_stale_keys window_s now hits) ++ (key, []) ∷ []

-- the loop of popleft
unfoldable pub drop_stale : ℕ → ℕ → List ℕ → List ℕ
unfolding is_stale
drop_stale window_s now [] = []
drop_stale window_s now (t ∷ q) =
    let rest = drop_stale window_s now q in if is_stale window_s now t then rest else t ∷ q

-- max(1, ceil(q[0] + window_s - now)), where q[0] is not stale
abbrev pub retry_after : ℕ → ℕ → List ℕ → ℕ
retry_after window_s now [] = 1
retry_after window_s now (t ∷ q) = max 1 ((t + window_s * second - now + 999999) / second)

abbrev pub put_bucket : ℕ → List ℕ → List Bucket → List Bucket
put_bucket key q hits = update (has_name key) (λ _. (key, q)) hits

-- the hits that a check looks into
unfoldable pub prepared : Limiter → ℕ → ℕ → List Bucket
unfolding prune_stale_keys make_room_for
prepared l key now =
    let hits =
      if (l.checks + 1) % 256 == 0 then prune_stale_keys l.window_s now l.hits else l.hits in
    make_room_for l.max_keys l.window_s now key hits

abbrev pub record_hit : Limiter → ℕ → ℕ → List Bucket → List ℕ → Limiter × Answer
record_hit l key now hits q =
    if leb l.limit (length q)
    then (
      record l { hits = put_bucket key q hits; checks = l.checks + 1 },
      refused (retry_after l.window_s now q),
    )
    else (record l { hits = put_bucket key (q ++ now ∷ []) hits; checks = l.checks + 1 }, allowed)

unfoldable pub check : Limiter → ℕ → ℕ → Limiter × Answer
unfolding prepared drop_stale find update
check l key now =
    let hits = prepared l key now in
    record_hit l key now hits (drop_stale l.window_s now (bucket_of (find (has_name key) hits)))
