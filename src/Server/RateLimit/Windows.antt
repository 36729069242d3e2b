-- ===== src/Server/RateLimit/Windows.antt =====
-- The window of the limiter in core/rate_limit.py: which checks it allows.
use risk_opportunity_manager.Prelude.{
  ℕ, ◌+◌, ◌≤◌, ◌≡◌, ◌⊎◌, refl, sym, ap, subst, ◌∙◌, Bool, true, false, not, Option, none, some,
  List, [], ◌∷◌, ◌==◌, ==_refl, ltb, leb, find, find_passes, find-append, find_counted, or_else,
  delete, count, length, All, Bool-cases, Option-cases, inl, inr, arith, ◌%◌, if◌then◌else◌,
}
use risk_opportunity_manager.Server.RateLimit.{
  Limiter, Bucket, Answer, allowed, refused, newest, has_name, oldest_bucket, evict, bucket_of,
  is_expired, prune_stale_keys, make_room_for, is_stale, drop_stale, prepared, record_hit, check,
}

abbrev pub IsSorted : List ℕ → Type 0
IsSorted [] = Unit
IsSorted (t ∷ q) = All (λ u. t ≤ u) q × IsSorted q

-- the hits of the window that ends now
abbrev pub recent : ℕ → ℕ → List ℕ → ℕ
recent w now q = count (λ t. not (is_stale w now t)) q

recent_later :
    (w now t : ℕ) (q : List ℕ)
    → is_stale w now t ≡ false
    → All (λ u. t ≤ u) q
    → recent w now q ≡ length q
unfolding count is_stale
recent_later w now t [] h later = refl
recent_later w now t (u ∷ q) h (le, later) = ground (arith, h, le, recent_later w now t q h later)

length-drop_stale :
    (w now : ℕ) (q : List ℕ) → IsSorted q → length (drop_stale w now q) ≡ recent w now q
unfolding drop_stale count
length-drop_stale w now [] s = refl
length-drop_stale w now (t ∷ q) (later, s) = elim (Bool-cases (is_stale w now t)) [
  | inl old ↦ rw old (omega (arith, length-drop_stale w now q s))
  | inr new ↦ rw new (omega (arith, recent_later w now t q new later))
]

none_recent :
    (w now : ℕ) (q : List ℕ) → IsSorted q → is_stale w now (newest q) ≡ true → recent w now q ≡ 0
unfolding count is_stale
none_recent w now [] s h = refl
none_recent w now (t ∷ []) s h = ground (arith, h)
none_recent w now (t ∷ u ∷ q) ((le, _), s) h = ground (arith, le, none_recent w now (u ∷ q) s h)

module _ {A : Type 0} where
  find-delete_gone : (p q : A → Bool) (xs : List A) → find p xs ≡ none → find p (delete q xs) ≡ none
  unfolding find delete
  find-delete_gone p q [] h = refl
  find-delete_gone p q (x ∷ xs) h = ground (arith, h, find-delete_gone p q xs)

  abbrev kept : (A → Bool) → Option A → Option A
  kept q none = none
  kept q (some a) = if q a then none else some a

  -- A search for the only row that passes, after a deletion.
  find-delete_only :
      (p q : A → Bool) (xs : List A) → count p xs ≤ 1 → find p (delete q xs) ≡ kept q (find p xs)
  unfolding find delete count
  find-delete_only p q [] h = refl
  find-delete_only p q (x ∷ xs) h = elim (Option-cases (find p xs)) [
    | inl missing ↦
        ground (arith, h, missing, find-delete_gone p q xs missing, find-delete_only p q xs)
    | inr (a, found) ↦ ground (
      arith,
      h,
      found,
      find_counted p p a xs found (find_passes p a xs found),
      find-delete_only p q xs,
    )
  ]

-- the hits of a key
unfoldable pub hits_of : ℕ → List Bucket → List ℕ
unfolding find
hits_of key hits = bucket_of (find (has_name key) hits)

evict-missing :
    (m key : ℕ) (hits : List Bucket)
    → find (has_name key) hits ≡ none
    → find (has_name key) (evict m hits) ≡ none
unfolding evict
evict-missing m key [] h = h
evict-missing m key (b ∷ hits) h = elim (Bool-cases (leb m (length (b ∷ hits)))) [
  | inl full ↦
      rw full (find-delete_gone (has_name key) (has_name (oldest_bucket b hits)) (b ∷ hits) h)
  | inr free ↦ rw free h
]

hits_of-make_room_for :
    (m w now key : ℕ) (hits : List Bucket)
    → hits_of key (make_room_for m w now key hits) ≡ hits_of key hits
unfolding hits_of make_room_for prune_stale_keys find
hits_of-make_room_for m w now key hits =
    let room = evict m (prune_stale_keys w now hits) in
    elim (Option-cases (find (has_name key) hits)) [
      | inr (b, found) ↦ rw found (ap bucket_of found)
      | inl missing ↦
          let gone =
            evict-missing m key (prune_stale_keys w now hits)
              (find-delete_gone (has_name key) (is_expired w now) hits missing) in
          let last : find (has_name key) ((key, []) ∷ []) ≡ some (key, []) =
            ground (arith, ==_refl key) in
          rw missing (
            ap bucket_of (
              find-append (has_name key) room ((key, []) ∷ [])
              ∙ ap (λ o. or_else o (find (has_name key) ((key, []) ∷ []))) gone
              ∙ last))
    ]

-- No key has two buckets.
abbrev pub IsDict : List Bucket → Type 0
IsDict hits = (key : ℕ) → count (has_name key) hits ≤ 1

expired_recent :
    (w now : ℕ) (b : Bucket) → IsSorted b.1 → is_expired w now b ≡ true → recent w now b.1 ≡ 0
unfolding count
expired_recent w now (k, []) s h = refl
expired_recent w now (k, (t ∷ q)) s h = none_recent w now (t ∷ q) s h

-- the same hits, or none, if none was in the window
abbrev pub IsWindow : ℕ → ℕ → List ℕ → List ℕ → Type 0
IsWindow w now q q' = (q' ≡ q) ⊎ ((q' ≡ []) × (recent w now q ≡ 0))

hits_of-prune_stale_keys :
    (w now key : ℕ) (hits : List Bucket)
    → IsDict hits
    → IsSorted (hits_of key hits)
    → IsWindow w now (hits_of key hits) (hits_of key (prune_stale_keys w now hits))
unfolding hits_of prune_stale_keys
hits_of-prune_stale_keys w now key hits dict sorted =
    let after = find-delete_only (has_name key) (is_expired w now) hits (dict key) in
    elim (Option-cases (find (has_name key) hits)) [
      | inl missing ↦
          inl (ap bucket_of (after ∙ ap (kept (is_expired w now)) missing ∙ sym missing))
      | inr (b, found) ↦ elim (Bool-cases (is_expired w now b)) [
        | inr fresh ↦
            let stays : kept (is_expired w now) (some b) ≡ some b = rw fresh refl in
            inl (ap bucket_of (after ∙ ap (kept (is_expired w now)) found ∙ stays ∙ sym found))
        | inl expired ↦
            let same = ap bucket_of found in
            let removed : kept (is_expired w now) (some b) ≡ none = rw expired refl in
            inr (
              ap bucket_of (after ∙ ap (kept (is_expired w now)) found ∙ removed),
              ap (recent w now) same ∙ expired_recent w now b (subst IsSorted same sorted) expired,
            )
      ]
    ]

pub prepared-IsWindow :
    (l : Limiter) (key now : ℕ)
    → IsDict l.hits
    → IsSorted (hits_of key l.hits)
    → IsWindow l.window_s now (hits_of key l.hits) (hits_of key (prepared l key now))
unfolding prepared
prepared-IsWindow l key now dict sorted = elim (Bool-cases ((l.checks + 1) % 256 == 0)) [
  | inl pruning ↦
      rw (pruning, hits_of-make_room_for)
        (hits_of-prune_stale_keys l.window_s now key l.hits dict sorted)
  | inr plain ↦ rw (plain, hits_of-make_room_for) (inl refl)
]

abbrev pub is_allowed : Answer → Bool
is_allowed allowed = true
is_allowed (refused n) = false

pub window_length :
    (w now : ℕ) (q q' : List ℕ)
    → IsSorted q
    → IsWindow w now q q'
    → length (drop_stale w now q') ≡ recent w now q
unfolding drop_stale
window_length w now q q' s (inl same) = rw same (length-drop_stale w now q s)
window_length w now q q' s (inr (empty, zero_recent)) = rw (empty, zero_recent) refl

record_hit_allowed :
    (l : Limiter) (key now : ℕ) (hits : List Bucket) (q : List ℕ)
    → is_allowed (record_hit l key now hits q).1 ≡ ltb (length q) l.limit
record_hit_allowed l key now hits q = ground arith

pub is_allowed-check :
    (l : Limiter) (key now : ℕ)
    → IsDict l.hits
    → IsSorted (hits_of key l.hits)
    → is_allowed (check l key now).1 ≡ ltb (recent l.window_s now (hits_of key l.hits)) l.limit
unfolding check hits_of
is_allowed-check l key now dict sorted =
    let hits = prepared l key now in
    record_hit_allowed l key now hits (drop_stale l.window_s now (hits_of key hits))
    ∙ ap (λ n. ltb n l.limit)
        (window_length l.window_s now (hits_of key l.hits) (hits_of key hits) sorted
          (prepared-IsWindow l key now dict sorted))
