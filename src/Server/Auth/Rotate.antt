-- ===== src/Server/Auth/Rotate.antt =====
-- rotate_refresh_token and revoke_user_refresh_tokens of auth/service.py. Each attempt of the loop has
-- its time and its random values; between the attempts of one call the table stays as it is.
use risk_opportunity_manager.Prelude.{
  ℕ, Bool, ◌&&◌, not, Option, none, some, List, [], ◌∷◌, ◌++◌, if◌then◌else◌, ◌==◌, ltb, find,
  update, count,
}
use risk_opportunity_manager.Server.Auth.{
  Token, Settings, Draw, is_live, has_hash, new_refresh_token, claim_refresh_token, Recovery,
  recovered, try_again, reused, out_of_fuel, recover_or_revoke_refresh_family,
}

-- What rotate_refresh_token returns, or the 401 that it raises, with the table that it leaves.
pub data Rotation : Type 0 where
  rotated : ℕ → ℕ → List Token → Rotation
  refused : List Token → Rotation
  unfinished : Rotation

pub record Attempt : Type 0 where
  pub now : ℕ
  pub draw : Draw

module _ (st : Settings) (hash : ℕ → ℕ) (is_active : ℕ → Bool) where
  abbrev pub rotated_with : Attempt → ℕ → Option (List Token) → Rotation → Rotation
  rotated_with a user none later = later
  rotated_with a user (some tokens) later =
      rotated a.draw.raw user (tokens ++ new_refresh_token st hash user a.now a.draw ∷ [])

  abbrev pub after_recovery : ℕ → ℕ → Recovery → Rotation → Rotation
  after_recovery raw user (recovered tokens) later = rotated raw user tokens
  after_recovery raw user try_again later = later
  after_recovery raw user (reused tokens) later = refused tokens
  after_recovery raw user out_of_fuel later = unfinished

  -- one attempt, with the token that it finds; `later` is `continue`
  abbrev pub rotate_found : Attempt → Option Token → List Token → Rotation → Rotation
  rotate_found a none tokens later = refused tokens
  rotate_found a (some t) tokens later =
      if not (is_active t.user_id)
      then refused tokens
      else if not (is_live t)
      then after_recovery a.draw.raw t.user_id
          (recover_or_revoke_refresh_family st hash is_active a.now a.draw t.id t.user_id tokens)
          later
      else if not (ltb a.now t.expires_at)
      then refused tokens
      else rotated_with a t.user_id (claim_refresh_token t.id a.draw.id a.now tokens) later

  -- the loop of attempts
  unfoldable pub rotate_attempts : List Attempt → ℕ → List Token → Rotation
  unfolding find claim_refresh_token recover_or_revoke_refresh_family
  rotate_attempts [] raw tokens = refused tokens
  rotate_attempts (a ∷ rest) raw tokens =
      let later = rotate_attempts rest raw tokens in
      rotate_found a (find (has_hash (hash raw)) tokens) tokens later

  -- rotate_refresh_token: range(3) attempts
  unfoldable pub rotate_refresh_token : Attempt → Attempt → Attempt → ℕ → List Token → Rotation
  unfolding rotate_attempts
  rotate_refresh_token a b c raw tokens = rotate_attempts (a ∷ b ∷ c ∷ []) raw tokens

-- revoke_user_refresh_tokens: the table and the number of tokens that it revoked
unfoldable pub revoke_user_refresh_tokens : ℕ → ℕ → List Token → List Token × ℕ
unfolding update count
revoke_user_refresh_tokens now user tokens =
    let mine = λ (t : Token). t.user_id == user && is_live t in
    (update mine (λ t. record t { revoked_at = some now }) tokens, count mine tokens)
