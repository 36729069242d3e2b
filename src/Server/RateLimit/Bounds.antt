-- ===== src/Server/RateLimit/Bounds.antt =====
-- The limiter of core/rate_limit.py holds at most `max_keys` buckets of at most `limit` hits.
use risk_opportunity_manager.Prelude.{
  ℕ, ◌+◌, ◌≤◌, ◌<◌, ◌≡◌, refl, sym, subst, Bool, some, List, [], ◌∷◌, ◌++◌, ◌==◌, ==_refl, ltb, leb,
  find, delete, update, count, length, length-append, length-update, All, Bool-cases, Option-cases,
  inl, inr, arith, ◌%◌,
}
use risk_opportunity_manager.Server.RateLimit.{
  Limiter, Bucket, newest, has_name, oldest_bucket, evict, bucket_of, is_found, is_expired,
  prune_stale_keys, make_room_for, drop_stale, put_bucket, prepared, check,
}

module _ {A : Type 0} where
  length-delete : (p : A → Bool) (xs : List A) → length (delete p xs) + count p xs ≡ length xs
  unfolding delete count
  length-delete p [] = omega arith
  length-delete p (x ∷ xs) = ground (arith, length-delete p xs)

  All-delete : (P : A → Type 0) (p : A → Bool) (xs : List A) → All P xs → All P (delete p xs)
  unfolding delete
  All-delete P p [] h = tt
  All-delete P p (x ∷ xs) (h, hs) = elim (Bool-cases (p x)) [
    | inl yes_it ↦ rw yes_it (All-delete P p xs hs)
    | inr no_it ↦ rw no_it (h, All-delete P p xs hs)
  ]

  All-update :
      (P : A → Type 0) (p : A → Bool) (a : A) (xs : List A)
      → P a
      → All P xs
      → All P (update p (λ _. a) xs)
  unfolding update
  All-update P p a [] new h = tt
  All-update P p a (x ∷ xs) new (h, hs) = elim (Bool-cases (p x)) [
    | inl yes_it ↦ (rw yes_it new, All-update P p a xs new hs)
    | inr no_it ↦ (rw no_it h, All-update P p a xs new hs)
  ]

  All-snoc : (P : A → Type 0) (xs : List A) (a : A) → All P xs → P a → All P (xs ++ a ∷ [])
  All-snoc P [] a h new = (new, tt)
  All-snoc P (x ∷ xs) a (h, hs) new = (h, All-snoc P xs a hs new)

  some_same : {a b : A} → some a ≡ some b → a ≡ b
  some_same h = cc

  count_more : (p : A → Bool) (x : A) (xs : List A) → count p xs ≤ count p (x ∷ xs)
  unfolding count
  count_more p x xs = omega arith

  count_inserted : (p : A → Bool) (x y : A) (xs : List A) → count p (x ∷ xs) ≤ count p (x ∷ y ∷ xs)
  unfolding count
  count_inserted p x y xs = omega arith

  All-find :
      (P : A → Type 0) (p : A → Bool) (xs : List A) (a : A) → All P xs → find p xs ≡ some a → P a
  unfolding find
  All-find P p [] a h e = absurd (cc)
  All-find P p (x ∷ xs) a (h, hs) e = elim (Bool-cases (p x)) [
    | inl yes_it ↦ subst P (some_same (rw yes_it at e)) h
    | inr no_it ↦ All-find P p xs a hs (rw no_it at e)
  ]

oldest_bucket_counted :
    (b : Bucket) (hits : List Bucket) → 1 ≤ count (has_name (oldest_bucket b hits)) (b ∷ hits)
unfolding oldest_bucket count
oldest_bucket_counted b [] = ground (arith, ==_refl b.0)
oldest_bucket_counted best (b ∷ hits) = elim (Bool-cases (ltb (newest b.1) (newest best.1))) [
  | inl earlier ↦
      let same : oldest_bucket best (b ∷ hits) ≡ oldest_bucket b hits =
        rw (oldest_bucket, earlier) refl in
      subst (λ k. 1 ≤ count (has_name k) (best ∷ b ∷ hits)) (sym same)
        (omega (
          arith,
          oldest_bucket_counted b hits,
          count_more (has_name (oldest_bucket b hits)) best (b ∷ hits),
        ))
  | inr later ↦
      let same : oldest_bucket best (b ∷ hits) ≡ oldest_bucket best hits =
        rw (oldest_bucket, later) refl in
      subst (λ k. 1 ≤ count (has_name k) (best ∷ b ∷ hits)) (sym same)
        (omega (
          arith,
          oldest_bucket_counted best hits,
          count_inserted (has_name (oldest_bucket best hits)) best b hits,
        ))
]

evict_lt :
    (max_keys : ℕ) (hits : List Bucket)
    → 1 ≤ max_keys
    → length hits ≤ max_keys
    → length (evict max_keys hits) < max_keys
unfolding evict
evict_lt m [] h bound = h
evict_lt m (b ∷ hits) h bound = ground (
  arith,
  bound,
  length-delete (has_name (oldest_bucket b hits)) (b ∷ hits),
  oldest_bucket_counted b hits,
)

prune_le : (w now : ℕ) (hits : List Bucket) → length (prune_stale_keys w now hits) ≤ length hits
unfolding prune_stale_keys
prune_le w now hits = omega (arith, length-delete (is_expired w now) hits)

make_room_for_le :
    (m w now key : ℕ) (hits : List Bucket)
    → 1 ≤ m
    → length hits ≤ m
    → length (make_room_for m w now key hits) ≤ m
unfolding make_room_for
make_room_for_le m w now key hits h bound =
    let pruned = prune_stale_keys w now hits in
    elim (Bool-cases (is_found (find (has_name key) hits))) [
      | inl known ↦ rw known bound
      | inr new ↦
          rw (new, length-append)
            (omega (arith, evict_lt m pruned h (omega (arith, bound, prune_le w now hits))))
    ]

abbrev IsShort : ℕ → Bucket → Type 0
IsShort limit b = length b.1 ≤ limit

evict-All : (P : Bucket → Type 0) (m : ℕ) (hits : List Bucket) → All P hits → All P (evict m hits)
unfolding evict
evict-All P m [] h = tt
evict-All P m (b ∷ hits) h = elim (Bool-cases (leb m (length (b ∷ hits)))) [
  | inl full ↦ rw full (All-delete P (has_name (oldest_bucket b hits)) (b ∷ hits) h)
  | inr free ↦ rw free h
]

-- A limiter in its bounds: at most `max_keys` buckets, each of at most `limit` hits.
pub record IsBounded (l : Limiter) : Type 0 where
  pub some_limit : 1 ≤ l.limit
  pub some_keys : 1 ≤ l.max_keys
  pub keys : length l.hits ≤ l.max_keys
  pub short : All (IsShort l.limit) l.hits

make_room_for-All :
    (P : Bucket → Type 0) (m w now key : ℕ) (hits : List Bucket)
    → P (key, [])
    → All P hits
    → All P (make_room_for m w now key hits)
unfolding make_room_for prune_stale_keys
make_room_for-All P m w now key hits fresh h =
    let pruned = prune_stale_keys w now hits in
    elim (Bool-cases (is_found (find (has_name key) hits))) [
      | inl known ↦ rw known h
      | inr new ↦ rw new (
          All-snoc P (evict m pruned) (key, [])
            (evict-All P m pruned (All-delete P (is_expired w now) hits h)) fresh)
    ]

pub prepared_bounds :
    (l : Limiter) (key now : ℕ)
    → IsBounded l
    → (length (prepared l key now) ≤ l.max_keys) × All (IsShort l.limit) (prepared l key now)
unfolding prepared prune_stale_keys
prepared_bounds l key now b =
    let w = l.window_s in
    let pruned = prune_stale_keys w now l.hits in
    elim (Bool-cases ((l.checks + 1) % 256 == 0)) [
      | inl pruning ↦ rw pruning (
        make_room_for_le l.max_keys w now key pruned b.some_keys
            (omega (arith, b.keys, prune_le w now l.hits)),
        make_room_for-All (IsShort l.limit) l.max_keys w now key pruned (omega arith)
            (All-delete (IsShort l.limit) (is_expired w now) l.hits b.short),
      )
      | inr plain ↦ rw plain (
        make_room_for_le l.max_keys w now key l.hits b.some_keys b.keys,
        make_room_for-All (IsShort l.limit) l.max_keys w now key l.hits (omega arith) b.short,
      )
    ]

drop_stale_le : (w now : ℕ) (q : List ℕ) → length (drop_stale w now q) ≤ length q
unfolding drop_stale
drop_stale_le w now [] = omega arith
drop_stale_le w now (t ∷ q) = ground (arith, drop_stale_le w now q)

pub short_bucket :
    (limit : ℕ) (key : ℕ) (hits : List Bucket)
    → All (IsShort limit) hits
    → length (bucket_of (find (has_name key) hits)) ≤ limit
short_bucket limit key hits h = elim (Option-cases (find (has_name key) hits)) [
  | inl missing ↦ rw missing (omega arith)
  | inr (b, found) ↦ rw found (All-find (IsShort limit) (has_name key) hits b h found)
]

bounded :
    (l : Limiter) (key : ℕ) (hits : List Bucket) (q : List ℕ) (n : ℕ)
    → IsBounded l
    → length hits ≤ l.max_keys
    → All (IsShort l.limit) hits
    → length q ≤ l.limit
    → IsBounded (record l { hits = put_bucket key q hits; checks = n })
bounded l key hits q n b keys short fits = record {
  some_limit = b.some_limit;
  some_keys = b.some_keys;
  keys = rw (length-update (has_name key) (λ _. (key, q)) hits) keys;
  short = All-update (IsShort l.limit) (has_name key) (key, q) hits fits short;
}

-- A check keeps the limiter in its bounds: at most `max_keys` buckets, each of at most `limit` hits.
pub check-IsBounded : (l : Limiter) (key now : ℕ) → IsBounded l → IsBounded (check l key now).0
unfolding check
check-IsBounded l key now b =
    let (keys, short) = prepared_bounds l key now b in
    let hits = prepared l key now in
    let q = drop_stale l.window_s now (bucket_of (find (has_name key) hits)) in
    let fits : length q ≤ l.limit = omega (
      arith,
      drop_stale_le l.window_s now (bucket_of (find (has_name key) hits)),
      short_bucket l.limit key hits short,
    ) in
    elim (Bool-cases (leb l.limit (length q))) [
      | inl full ↦ rw full (bounded l key hits q (l.checks + 1) b keys short fits)
      | inr free ↦ rw free (
          bounded l key hits (q ++ now ∷ []) (l.checks + 1) b keys short
            (rw length-append (ground (arith, free))))
    ]
