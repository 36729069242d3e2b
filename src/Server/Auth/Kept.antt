-- ===== src/Server/Auth/Kept.antt =====
-- rotate_refresh_token of auth/service.py ends, and it makes no session out of none.
use risk_opportunity_manager.Prelude.{
  ℕ, ◌≡◌, refl, Bool, Option, none, some, List, [], ◌∷◌, ◌==◌, ==_refl, find, count, Bool-cases,
  inl, inr, ltb, arith,
}
use risk_opportunity_manager.Server.Auth.{
  Token, Settings, has_id, has_hash, is_live, is_claimable, claim_refresh_token, new_refresh_token,
  Recovery, recovered, try_again, reused, out_of_fuel, recover_or_revoke_refresh_family,
}
use risk_opportunity_manager.Server.Auth.Tables.{find_unique}
use risk_opportunity_manager.Server.Auth.Rotate.{
  Rotation, Attempt, rotated_with, after_recovery, rotate_found, rotate_attempts,
  rotate_refresh_token,
}
use risk_opportunity_manager.Server.Auth.Reuse.{IsKeyed}
use risk_opportunity_manager.Server.Auth.Sessions.{
  IsKept, IsKeptRecovery, recover-IsKept, claimed_row, sessions-claimed,
}

module _ (st : Settings) (hash : ℕ → ℕ) (is_active : ℕ → Bool) where
  after_recovery-IsKept :
      (raw owner user : ℕ) (tokens : List Token) (r : Recovery) (later : Rotation)
      → IsKeptRecovery user tokens r
      → IsKept user tokens later
      → IsKept user tokens (after_recovery st hash is_active raw owner r later)
  after_recovery-IsKept raw owner user tokens (recovered left) later h k = h
  after_recovery-IsKept raw owner user tokens try_again later h k = k
  after_recovery-IsKept raw owner user tokens (reused left) later h k = h
  after_recovery-IsKept raw owner user tokens out_of_fuel later h k = absurd h

  rotated_with-IsKept :
      (a : Attempt) (t : Token) (user : ℕ) (tokens : List Token) (later : Rotation)
      → IsKeyed tokens
      → find (has_id t.id) tokens ≡ some t
      → IsKept user tokens later
      → IsKept user tokens (
          rotated_with st hash is_active a t.user_id
            (claim_refresh_token t.id a.draw.id a.now tokens)
            later)
  unfolding claim_refresh_token
  rotated_with-IsKept a t user tokens later keyed found k =
      elim (Bool-cases (count (is_claimable t.id a.now) tokens == 1)) [
        | inl one ↦ rw one (
            sessions-claimed t.id a.draw.id a.now user tokens t
              (new_refresh_token st hash t.user_id a.now a.draw) keyed found
              (claimed_row t.id a.now tokens t keyed found one) refl refl)
        | inr other ↦ rw other k
      ]

  rotate_found-IsKept :
      (a : Attempt) (o : Option Token) (user : ℕ) (tokens : List Token) (later : Rotation)
      → IsKeyed tokens
      → ((t : Token) → o ≡ some t → find (has_id t.id) tokens ≡ some t)
      → IsKept user tokens later
      → IsKept user tokens (rotate_found st hash is_active a o tokens later)
  rotate_found-IsKept a none user tokens later keyed there k = omega arith
  rotate_found-IsKept a (some t) user tokens later keyed there k =
      elim (Bool-cases (is_active t.user_id)) [
        | inr away ↦ rw away (omega arith)
        | inl active ↦ elim (Bool-cases (is_live t)) [
          | inr revoked ↦
              rw (active, revoked)
                (after_recovery-IsKept a.draw.raw t.user_id user tokens
                  (recover_or_revoke_refresh_family st hash is_active a.now a.draw t.id t.user_id
                    tokens)
                  later
                  (recover-IsKept st hash is_active a.now a.draw t.id t.user_id user tokens keyed)
                  k)
          | inl live ↦ elim (Bool-cases (ltb a.now t.expires_at)) [
            | inr over ↦ rw (active, live, over) (omega arith)
            | inl lasts ↦
                rw (active, live, lasts)
                  (rotated_with-IsKept a t user tokens later keyed (there t refl) k)
          ]
        ]
      ]

  rotate_attempts-IsKept :
      (attempts : List Attempt) (raw user : ℕ) (tokens : List Token)
      → IsKeyed tokens
      → IsKept user tokens (rotate_attempts st hash is_active attempts raw tokens)
  unfolding rotate_attempts
  rotate_attempts-IsKept [] raw user tokens keyed = omega arith
  rotate_attempts-IsKept (a ∷ rest) raw user tokens keyed =
      rotate_found-IsKept a (find (has_hash (hash raw)) tokens) user tokens
        (rotate_attempts st hash is_active rest raw tokens) keyed
        (λ t h.
          find_unique (has_hash (hash raw)) (has_id t.id) t tokens h (==_refl t.id) (keyed t.id))
        (rotate_attempts-IsKept rest raw user tokens keyed)

  -- If ids are unique, then a rotation ends within its fuel, each user has as many live tokens after
  -- one that succeeds as before it, and nobody has more after one that is refused.
  pub rotate_refresh_token-IsKept :
      (a b c : Attempt) (raw user : ℕ) (tokens : List Token)
      → IsKeyed tokens
      → IsKept user tokens (rotate_refresh_token st hash is_active a b c raw tokens)
  unfolding rotate_refresh_token
  rotate_refresh_token-IsKept a b c raw user tokens keyed =
      rotate_attempts-IsKept (a ∷ b ∷ c ∷ []) raw user tokens keyed
