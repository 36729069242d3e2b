-- ===== src/Server/RateLimit/Retry.antt =====
-- A login that the limiter of core/rate_limit.py refused, tried again after the time it was told.
use risk_opportunity_manager.Prelude.{
  ℕ, ◌+◌, ◌-◌, ◌*◌, ◌/◌, ◌≤◌, ◌<◌, ◌≡◌, refl, sym, ap, subst, ◌∙◌, true, some, List, [], ◌∷◌, ◌++◌,
  ◌==◌, ==_refl, ltb, leb, find, find_passes, find-append, find-none, find-overwrite, updated,
  count, count-snoc, count-overwrite, count-delete-le, length, Bool-cases, Option-cases, inl, inr,
  arith, ◌%◌,
}
use risk_opportunity_manager.Server.RateLimit.{
  Limiter, Bucket, allowed, refused, second, has_name, oldest_bucket, evict, bucket_of, is_expired,
  prune_stale_keys, make_room_for, is_stale, drop_stale, retry_after, put_bucket, prepared,
  record_hit, check,
}
use risk_opportunity_manager.Server.RateLimit.Windows.{
  IsSorted, IsDict, recent, hits_of, is_allowed, is_allowed-check, IsWindow, prepared-IsWindow,
  window_length,
}

prune-IsDict : (w now : ℕ) (hits : List Bucket) → IsDict hits → IsDict (prune_stale_keys w now hits)
unfolding prune_stale_keys
prune-IsDict w now hits dict key =
    omega (arith, dict key, count-delete-le (has_name key) (is_expired w now) hits)

prune-le :
    (w now key : ℕ) (hits : List Bucket)
    → count (has_name key) (prune_stale_keys w now hits) ≤ count (has_name key) hits
unfolding prune_stale_keys
prune-le w now key hits = count-delete-le (has_name key) (is_expired w now) hits

named_key : (key k : ℕ) → (key == k) ≡ true → key ≡ k
named_key key k h = ground (arith, h)

evict-le :
    (m key : ℕ) (hits : List Bucket)
    → count (has_name key) (evict m hits) ≤ count (has_name key) hits
unfolding evict
evict-le m key [] = omega arith
evict-le m key (b ∷ hits) = elim (Bool-cases (leb m (length (b ∷ hits)))) [
  | inl full ↦ rw full (count-delete-le (has_name key) (has_name (oldest_bucket b hits)) (b ∷ hits))
  | inr free ↦ rw free (omega arith)
]

make_room_for-IsDict :
    (m w now key : ℕ) (hits : List Bucket) → IsDict hits → IsDict (make_room_for m w now key hits)
unfolding make_room_for
make_room_for-IsDict m w now key hits dict k = elim (Option-cases (find (has_name key) hits)) [
  | inr (b, found) ↦ rw found (dict k)
  | inl missing ↦
      let pruned = prune_stale_keys w now hits in
      let gone = find-none (has_name key) hits missing in
      let fewer = evict-le m k pruned in
      let most = prune-IsDict w now hits dict k in
      rw (missing, count-snoc)
        (elim (Bool-cases (key == k)) [
          | inr apart ↦ rw apart (omega (arith, fewer, most))
          | inl same ↦
              let none_left =
                subst (λ j. count (has_name j) hits ≡ 0) (named_key key k same) gone in
              rw same (omega (arith, fewer, prune-le w now k hits, none_left))
        ])
]

drop_stale-IsSorted : (w now : ℕ) (q : List ℕ) → IsSorted q → IsSorted (drop_stale w now q)
unfolding drop_stale
drop_stale-IsSorted w now [] s = tt
drop_stale-IsSorted w now (t ∷ q) s = elim (Bool-cases (is_stale w now t)) [
  | inl old ↦ rw old (drop_stale-IsSorted w now q s.1)
  | inr new ↦ rw new s
]

recent_le : (w now : ℕ) (q : List ℕ) → recent w now q ≤ length q
unfolding count
recent_le w now [] = omega arith
recent_le w now (t ∷ q) = ground (arith, recent_le w now q)

ceil_second : (n : ℕ) → n ≤ (n + 999999) / 1000000 * 1000000
ceil_second n = omega arith

expires : (now w t : ℕ) → t + w ≤ now + (t + w - now)
expires now w t = omega arith

-- what a refused check answers of the oldest hit that it counted
later_recent :
    (w now now' limit : ℕ) (q : List ℕ)
    → 1 ≤ limit
    → limit ≤ length q
    → length q ≤ limit
    → now + retry_after w now q * second < now'
    → recent w now' q < limit
unfolding count is_stale
later_recent w now now' limit [] h low high late = omega (arith, h, low)
later_recent w now now' limit (t ∷ q) h low high late =
    let wait = t + w * second - now in
    let told : wait ≤ retry_after w now (t ∷ q) * second = omega (arith, ceil_second wait) in
    ground (arith, late, high, told, expires now (w * second) t, recent_le w now' q)

pub prepared-IsDict : (l : Limiter) (key now : ℕ) → IsDict l.hits → IsDict (prepared l key now)
unfolding prepared
prepared-IsDict l key now dict = elim (Bool-cases ((l.checks + 1) % 256 == 0)) [
  | inl pruning ↦ rw pruning (
      make_room_for-IsDict l.max_keys l.window_s now key (prune_stale_keys l.window_s now l.hits)
        (prune-IsDict l.window_s now l.hits dict))
  | inr plain ↦ rw plain (make_room_for-IsDict l.max_keys l.window_s now key l.hits dict)
]

find-last :
    (key : ℕ) (hits : List Bucket)
    → (b : Bucket) × (find (has_name key) (hits ++ (key, []) ∷ []) ≡ some b)
unfolding find
find-last key hits = elim (Option-cases (find (has_name key) hits)) [
  | inr (b, found) ↦ (b, find-append (has_name key) hits ((key, []) ∷ []) ∙ ground (arith, found))
  | inl missing ↦ (
    (key, []),
    find-append (has_name key) hits ((key, []) ∷ []) ∙ ground (arith, missing, ==_refl key),
  )
]

make_room_for_found :
    (m w now key : ℕ) (hits : List Bucket)
    → (b : Bucket) × (find (has_name key) (make_room_for m w now key hits) ≡ some b)
unfolding make_room_for
make_room_for_found m w now key hits = elim (Option-cases (find (has_name key) hits)) [
  | inr (b, found) ↦ (b, rw found found)
  | inl missing ↦ rw missing (find-last key (evict m (prune_stale_keys w now hits)))
]

alike :
    (key : ℕ) (q : List ℕ) (k : ℕ) (b : Bucket)
    → has_name key b ≡ true
    → has_name k (key, q) ≡ has_name k b
alike key q k b h = ground (arith, h)

pub put_bucket-IsDict :
    (key : ℕ) (q : List ℕ) (hits : List Bucket) → IsDict hits → IsDict (put_bucket key q hits)
put_bucket-IsDict key q hits dict k =
    rw (count-overwrite (has_name k) (has_name key) (key, q) (alike key q k) hits) (dict k)

pub hits_of-put_bucket :
    (key : ℕ) (q : List ℕ) (hits : List Bucket) (b : Bucket)
    → find (has_name key) hits ≡ some b
    → hits_of key (put_bucket key q hits) ≡ q
unfolding hits_of
hits_of-put_bucket key q hits b found =
    ap bucket_of (
      find-overwrite (has_name key) (has_name key) (key, q) (alike key q key) hits
      ∙ ap (updated (has_name key) (λ _. (key, q))) found)
    ∙ overwritten (find_passes (has_name key) b hits found)
  where
    overwritten :
        has_name key b ≡ true → bucket_of (updated (has_name key) (λ _. (key, q)) (some b)) ≡ q
    overwritten h = rw h refl

pub prepared_found :
    (l : Limiter) (key now : ℕ) → (b : Bucket) × (find (has_name key) (prepared l key now) ≡ some b)
unfolding prepared
prepared_found l key now = elim (Bool-cases ((l.checks + 1) % 256 == 0)) [
  | inl pruning ↦
      rw pruning
        (make_room_for_found l.max_keys l.window_s now key (prune_stale_keys l.window_s now l.hits))
  | inr plain ↦ rw plain (make_room_for_found l.max_keys l.window_s now key l.hits)
]

refused-injective : {a b : ℕ} → refused a ≡ refused b → a ≡ b
refused-injective h = cc

not_refused : {r : ℕ} → allowed ≡ refused r → ⊥
not_refused h = cc

refused_with :
    (l : Limiter) (key now r : ℕ) (hits : List Bucket) (q : List ℕ)
    → (record_hit l key now hits q).1 ≡ refused r
    → (l.limit ≤ length q)
      × (r ≡ retry_after l.window_s now q)
      × ((record_hit l key now hits q).0
          ≡ record l { hits = put_bucket key q hits; checks = l.checks + 1 })
refused_with l key now r hits q h = elim (Bool-cases (leb l.limit (length q))) [
  | inl full ↦ (ground (arith, full), sym (refused-injective (rw full at h)), rw full refl)
  | inr free ↦ absurd (not_refused (rw free at h))
]

window-IsSorted : (w now : ℕ) (q q' : List ℕ) → IsSorted q → IsWindow w now q q' → IsSorted q'
window-IsSorted w now q q' s (inl same) = subst IsSorted (sym same) s
window-IsSorted w now q q' s (inr (empty, _)) = subst IsSorted (sym empty) tt

-- A refused login can be tried again. A check of a key is refused with a number of seconds, by a
-- limiter with one bucket for a key, whose hits of the key are in order of time and at most `limit`:
-- then the next check, if it is of that key and later than those seconds, is allowed.
pub retry_allowed :
    (l : Limiter) (key now now' r : ℕ)
    → 1 ≤ l.limit
    → IsDict l.hits
    → IsSorted (hits_of key l.hits)
    → length (hits_of key l.hits) ≤ l.limit
    → (check l key now).1 ≡ refused r
    → now + r * second < now'
    → is_allowed (check (check l key now).0 key now').1 ≡ true
unfolding check hits_of
retry_allowed l key now now' r some_limit dict sorted short answer late =
    let w = l.window_s in
    let hits = prepared l key now in
    let q = drop_stale w now (hits_of key hits) in
    let window = prepared-IsWindow l key now dict sorted in
    let (full, told, left) = refused_with l key now r hits q answer in
    let (b, found) = prepared_found l key now in
    let after : Limiter = record l { hits = put_bucket key q hits; checks = l.checks + 1 } in
    let own = hits_of-put_bucket key q hits b found in
    let ordered =
      drop_stale-IsSorted w now (hits_of key hits)
        (window-IsSorted w now (hits_of key l.hits) (hits_of key hits) sorted window) in
    let fits : length q ≤ l.limit = omega (
      arith,
      short,
      window_length w now (hits_of key l.hits) (hits_of key hits) sorted window,
      recent_le w now (hits_of key l.hits),
    ) in
    let few =
      later_recent w now now' l.limit q some_limit full fits
        (subst (λ n. now + n * second < now') told late) in
    let next =
      is_allowed-check after key now'
        (put_bucket-IsDict key q hits (prepared-IsDict l key now dict))
        (subst IsSorted (sym own) ordered) in
    ap (λ (m : Limiter). is_allowed (check m key now').1) left
    ∙ next
    ∙ ap (λ hs. ltb (recent w now' hs) l.limit) own
    ∙ ground (arith, few)
