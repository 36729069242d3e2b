-- ===== src/Server/RateLimit/Runs.antt =====
-- Runs of logins of one key through the limiter of core/rate_limit.py.
use risk_opportunity_manager.Prelude.{
  ℕ, ◌+◌, ◌*◌, ◌≤◌, ◌≡◌, refl, sym, ap, subst, ◌∙◌, Bool, true, false, not, List, [], ◌∷◌, ◌++◌,
  if◌then◌else◌, leb, ltb, count, count-ext, count-snoc, length, All, Bool-cases, inl, inr, arith,
}
use risk_opportunity_manager.Server.RateLimit.{
  Limiter, allowed, is_stale, drop_stale, put_bucket, prepared, check,
}
use risk_opportunity_manager.Server.RateLimit.Windows.{
  IsSorted, IsDict, IsWindow, recent, hits_of, is_allowed, prepared-IsWindow, window_length,
}
use risk_opportunity_manager.Server.RateLimit.Retry.{
  prepared_found, prepared-IsDict, put_bucket-IsDict, hits_of-put_bucket,
}

-- Whether each check of a key is allowed, of checks at the given times.
unfoldable pub check_all : Limiter → ℕ → List ℕ → List Bool
check_all l key [] = []
check_all l key (now ∷ times) =
    is_allowed (check l key now).1 ∷ check_all (check l key now).0 key times

-- A time in the window that ends now; the window has w seconds, and times are microseconds.
abbrev pub within : ℕ → ℕ → ℕ → Bool
within w now t = leb now (t + w * 1000000)

-- A sliding window that forgets nothing: a check is granted if fewer than `limit` of the times that
-- were granted are in the window that ends with it.
unfoldable pub sliding : ℕ → ℕ → List ℕ → List ℕ → List Bool
unfolding count
sliding limit w granted [] = []
sliding limit w granted (now ∷ times) =
    let more = sliding limit w (now ∷ granted) times in
    let same = sliding limit w granted times in
    if ltb (count (within w now) granted) limit then true ∷ more else false ∷ same

recent-eq-within : (w now : ℕ) (q : List ℕ) → recent w now q ≡ count (within w now) q
unfolding is_stale
recent-eq-within w now q =
    count-ext (λ t. not (is_stale w now t)) (within w now) (λ t. ground arith) q

recent-drop_stale :
    (w now later : ℕ) (q : List ℕ)
    → now ≤ later
    → recent w later (drop_stale w now q) ≡ recent w later q
unfolding drop_stale count is_stale
recent-drop_stale w now later [] h = refl
recent-drop_stale w now later (t ∷ q) h = ground (arith, h, recent-drop_stale w now later q h)

recent-later_le : (w now later : ℕ) (q : List ℕ) → now ≤ later → recent w later q ≤ recent w now q
unfolding count is_stale
recent-later_le w now later [] h = omega arith
recent-later_le w now later (t ∷ q) h = ground (arith, h, recent-later_le w now later q h)

-- What a check looks into counts like the hits of the key, now and later.
recent-window :
    (w now later : ℕ) (q q' : List ℕ)
    → IsWindow w now q q'
    → now ≤ later
    → recent w later (drop_stale w now q') ≡ recent w later q
unfolding drop_stale count
recent-window w now later q q' (inl same) h =
    recent-drop_stale w now later q' h ∙ ap (recent w later) same
recent-window w now later q q' (inr (empty, gone)) h =
    rw empty (omega (arith, gone, recent-later_le w now later q h))

IsSorted-front : (q r : List ℕ) → IsSorted (q ++ r) → IsSorted q
IsSorted-front [] r s = tt
IsSorted-front (t ∷ q) r (later, s) = (All-front t q r later, IsSorted-front q r s)
  where
    All-front : (t : ℕ) (q r : List ℕ) → All (λ u. t ≤ u) (q ++ r) → All (λ u. t ≤ u) q
    All-front t [] r h = tt
    All-front t (u ∷ q) r (le, h) = (le, All-front t q r h)

IsSorted-back : (q r : List ℕ) → IsSorted (q ++ r) → IsSorted r
IsSorted-back [] r s = s
IsSorted-back (t ∷ q) r (_, s) = IsSorted-back q r s

IsSorted-skip : (q : List ℕ) (t : ℕ) (r : List ℕ) → IsSorted (q ++ t ∷ r) → IsSorted (q ++ r)
IsSorted-skip [] t r (_, s) = s
IsSorted-skip (u ∷ q) t r (later, s) = (All-skip u q t r later, IsSorted-skip q t r s)
  where
    All-skip :
        (u : ℕ) (q : List ℕ) (t : ℕ) (r : List ℕ)
        → All (λ v. u ≤ v) (q ++ t ∷ r)
        → All (λ v. u ≤ v) (q ++ r)
    All-skip u [] t r (_, h) = h
    All-skip u (v ∷ q) t r (le, h) = (le, All-skip u q t r h)

IsSorted-drop_stale :
    (w now : ℕ) (q r : List ℕ) → IsSorted (q ++ r) → IsSorted (drop_stale w now q ++ r)
unfolding drop_stale
IsSorted-drop_stale w now [] r s = s
IsSorted-drop_stale w now (t ∷ q) r s = elim (Bool-cases (is_stale w now t)) [
  | inl old ↦ rw old (IsSorted-drop_stale w now q r s.1)
  | inr new ↦ rw new s
]

IsSorted-window :
    (w now : ℕ) (q q' r : List ℕ)
    → IsWindow w now q q'
    → IsSorted (q ++ r)
    → IsSorted (drop_stale w now q' ++ r)
unfolding drop_stale
IsSorted-window w now q q' r (inl same) s =
    IsSorted-drop_stale w now q' r (subst (λ x. IsSorted (x ++ r)) (sym same) s)
IsSorted-window w now q q' r (inr (empty, _)) s = rw empty (IsSorted-back q r s)

snoc-append : (q : List ℕ) (t : ℕ) (r : List ℕ) → (q ++ t ∷ []) ++ r ≡ q ++ t ∷ r
snoc-append [] t r = refl
snoc-append (u ∷ q) t r = ap (λ x. u ∷ x) (snoc-append q t r)

-- The limiter and a sliding window count alike from a time on.
abbrev CountAlike : Limiter → ℕ → List ℕ → ℕ → Type 0
CountAlike l key granted from =
    (t : ℕ)
    → from ≤ t
    → count (within l.window_s t) (hits_of key l.hits) ≡ count (within l.window_s t) granted

-- the hits of the key that a check finds in the window
abbrev left_of : Limiter → ℕ → ℕ → List ℕ
left_of l key now = drop_stale l.window_s now (hits_of key (prepared l key now))

-- a limiter after a check that leaves the hits `q` of its key
abbrev stored : Limiter → ℕ → ℕ → List ℕ → Limiter
stored l key now q = record l {
  hits = put_bucket key q (prepared l key now);
  checks = l.checks + 1;
}

hits_of-stored :
    (l : Limiter) (key now : ℕ) (q : List ℕ) → hits_of key (stored l key now q).hits ≡ q
hits_of-stored l key now q =
    let (b, found) = prepared_found l key now in
    hits_of-put_bucket key q (prepared l key now) b found

check_granted :
    (l : Limiter) (key now : ℕ)
    → ltb (length (left_of l key now)) l.limit ≡ true
    → check l key now ≡ (stored l key now (left_of l key now ++ now ∷ []), allowed)
unfolding check hits_of
check_granted l key now h =
    let closed : leb l.limit (length (left_of l key now)) ≡ false = ground (arith, h) in
    rw closed refl

check_refused :
    (l : Limiter) (key now : ℕ)
    → ltb (length (left_of l key now)) l.limit ≡ false
    → (check l key now).0 ≡ stored l key now (left_of l key now)
      × (is_allowed (check l key now).1 ≡ false)
unfolding check hits_of
check_refused l key now h =
    let closed : leb l.limit (length (left_of l key now)) ≡ true = ground (arith, h) in
    (rw closed refl, rw closed refl)

module _ (l : Limiter) (key now from : ℕ) (granted times : List ℕ) (dict : IsDict l.hits)
    (sorted : IsSorted (hits_of key l.hits ++ now ∷ times)) (began : from ≤ now)
    (alike : CountAlike l key granted from) where
  window : IsWindow l.window_s now (hits_of key l.hits) (hits_of key (prepared l key now))
  window =
      prepared-IsWindow l key now dict (IsSorted-front (hits_of key l.hits) (now ∷ times) sorted)

  length-left_of : length (left_of l key now) ≡ count (within l.window_s now) granted
  length-left_of =
      window_length l.window_s now (hits_of key l.hits) (hits_of key (prepared l key now))
        (IsSorted-front (hits_of key l.hits) (now ∷ times) sorted) window
      ∙ recent-eq-within l.window_s now (hits_of key l.hits)
      ∙ alike now began

  count-left_of :
      (t : ℕ)
      → now ≤ t
      → count (within l.window_s t) (left_of l key now) ≡ count (within l.window_s t) granted
  count-left_of t h =
      sym (recent-eq-within l.window_s t (left_of l key now))
      ∙ recent-window l.window_s now t (hits_of key l.hits) (hits_of key (prepared l key now))
          window h
      ∙ recent-eq-within l.window_s t (hits_of key l.hits)
      ∙ alike t (omega (arith, began, h))

  stored-IsDict : (q : List ℕ) → IsDict (stored l key now q).hits
  stored-IsDict q = put_bucket-IsDict key q (prepared l key now) (prepared-IsDict l key now dict)

  refused-CountAlike : CountAlike (stored l key now (left_of l key now)) key granted now
  refused-CountAlike t h =
      ap (count (within l.window_s t)) (hits_of-stored l key now (left_of l key now))
      ∙ count-left_of t h

  granted-CountAlike :
      CountAlike (stored l key now (left_of l key now ++ now ∷ [])) key (now ∷ granted) now
  unfolding count
  granted-CountAlike t h =
      ap (count (within l.window_s t)) (hits_of-stored l key now (left_of l key now ++ now ∷ []))
      ∙ omega (arith, count-snoc (within l.window_s t) (left_of l key now) now, count-left_of t h)

  refused-IsSorted : IsSorted (hits_of key (stored l key now (left_of l key now)).hits ++ times)
  refused-IsSorted =
      subst (λ q. IsSorted (q ++ times)) (sym (hits_of-stored l key now (left_of l key now)))
        (IsSorted-window l.window_s now (hits_of key l.hits) (hits_of key (prepared l key now))
          times window (IsSorted-skip (hits_of key l.hits) now times sorted))

  granted-IsSorted :
      IsSorted (hits_of key (stored l key now (left_of l key now ++ now ∷ [])).hits ++ times)
  granted-IsSorted =
      subst (λ q. IsSorted (q ++ times))
        (sym (hits_of-stored l key now (left_of l key now ++ now ∷ [])))
        (subst IsSorted (sym (snoc-append (left_of l key now) now times)) (
          IsSorted-window l.window_s now (hits_of key l.hits) (hits_of key (prepared l key now))
            (now ∷ times) window sorted))

check_all-from :
    (l : Limiter) (key from : ℕ) (granted times : List ℕ)
    → IsDict l.hits
    → IsSorted (hits_of key l.hits ++ times)
    → IsSorted (from ∷ times)
    → CountAlike l key granted from
    → check_all l key times ≡ sliding l.limit l.window_s granted times
unfolding check_all sliding
check_all-from l key from granted [] dict sorted order alike = refl
check_all-from l key from granted (now ∷ times) dict sorted ((began, _), order) alike =
    let left = left_of l key now in
    let size = length-left_of l key now from granted times dict sorted began alike in
    elim (Bool-cases (ltb (count (within l.window_s now) granted) l.limit)) [
      | inl free ↦
          ap (λ x. is_allowed x.1 ∷ check_all x.0 key times)
            (check_granted l key now (ap (λ n. ltb n l.limit) size ∙ free))
          ∙ rw free (
              ap (λ answers. true ∷ answers)
                (check_all-from (stored l key now (left ++ now ∷ [])) key now (now ∷ granted) times
                  (stored-IsDict l key now from granted times dict sorted began alike
                    (left ++ now ∷ []))
                  (granted-IsSorted l key now from granted times dict sorted began alike) order
                  (granted-CountAlike l key now from granted times dict sorted began alike)))
      | inr full ↦
          let (same, denied) = check_refused l key now (ap (λ n. ltb n l.limit) size ∙ full) in
          rw (full, denied)
            (ap (λ m. false ∷ check_all m key times) same
              ∙ ap (λ answers. false ∷ answers)
                  (check_all-from (stored l key now left) key now granted times
                    (stored-IsDict l key now from granted times dict sorted began alike left)
                    (refused-IsSorted l key now from granted times dict sorted began alike) order
                    (refused-CountAlike l key now from granted times dict sorted began alike)))
    ]

All-from_zero : (times : List ℕ) → All (λ t. 0 ≤ t) times
All-from_zero [] = tt
All-from_zero (t ∷ times) = (omega arith, All-from_zero times)

-- Any number of checks of one key, by a limiter with one bucket for a key, at times that follow
-- each other and the hits of the key: those are allowed that a sliding window grants which never
-- forgets a time, starts with the hits of the key, and grants fewer than the limit in a window.
pub check_all-eq-sliding :
    (l : Limiter) (key : ℕ) (times : List ℕ)
    → IsDict l.hits
    → IsSorted (hits_of key l.hits ++ times)
    → check_all l key times ≡ sliding l.limit l.window_s (hits_of key l.hits) times
check_all-eq-sliding l key times dict sorted =
    check_all-from l key 0 (hits_of key l.hits) times dict sorted
      (All-from_zero times, IsSorted-back (hits_of key l.hits) times sorted) (λ t h. refl)
