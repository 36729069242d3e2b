-- ===== src/Server/RateLimit/Tests.antt =====
-- A limiter of two logins a minute that knows two keys.
use risk_opportunity_manager.Prelude.{
  ◌≡◌, refl, true, false, [], ◌∷◌, count, find, delete, update, arith,
}
use risk_opportunity_manager.Server.RateLimit.{Limiter, refused, check}
use risk_opportunity_manager.Server.RateLimit.Bounds.{IsBounded, check-IsBounded}
use risk_opportunity_manager.Server.RateLimit.Windows.{IsDict, hits_of, is_allowed}
use risk_opportunity_manager.Server.RateLimit.Retry.{retry_allowed}
use risk_opportunity_manager.Server.RateLimit.Runs.{check_all, sliding, check_all-eq-sliding}

abbrev gate : Limiter
gate = record {
  limit = 2;
  window_s = 60;
  max_keys = 2;
  hits = (7, 1000000 ∷ 2000000 ∷ []) ∷ (8, 1500000 ∷ []) ∷ [];
  checks = 3;
}

gate-IsBounded : IsBounded gate
gate-IsBounded = record {
  some_limit = omega arith;
  some_keys = omega arith;
  keys = omega arith;
  short = (omega arith, (omega arith, tt));
}

gate-IsDict : IsDict gate.hits
unfolding count
gate-IsDict key = ground arith

evicted : (check gate 9 3000000).0.hits ≡ (7, 1000000 ∷ 2000000 ∷ []) ∷ (9, 3000000 ∷ []) ∷ []
unfolding check find delete update
evicted = refl

too_many : (check gate 7 3000000).1 ≡ refused 58
unfolding check find delete update
too_many = refl

check-IsBounded_example : IsBounded (check gate 9 3000000).0
check-IsBounded_example = check-IsBounded gate 9 3000000 gate-IsBounded

-- the second login is one too many until the first hit leaves the window
some_denied :
    sliding 2 60 (1000000 ∷ 2000000 ∷ []) (61500000 ∷ 61600000 ∷ 62000001 ∷ [])
    ≡ true ∷ false ∷ true ∷ []
unfolding sliding count
some_denied = refl

check_all-eq-sliding_example :
    check_all gate 7 (61500000 ∷ 61600000 ∷ 62000001 ∷ [])
    ≡ sliding 2 60 (hits_of 7 gate.hits) (61500000 ∷ 61600000 ∷ 62000001 ∷ [])
unfolding hits_of find
check_all-eq-sliding_example =
    check_all-eq-sliding gate 7 (61500000 ∷ 61600000 ∷ 62000001 ∷ []) gate-IsDict (ground arith)

retry_allowed_example : is_allowed (check (check gate 7 3000000).0 7 61000001).1 ≡ true
unfolding check find delete update hits_of
retry_allowed_example =
    retry_allowed gate 7 3000000 61000001 58 (omega arith) gate-IsDict ((omega arith, tt), (tt, tt))
      (omega arith) refl (omega arith)
