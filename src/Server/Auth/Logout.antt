-- ===== src/Server/Auth/Logout.antt =====
-- After revoke_user_refresh_tokens of auth/service.py, which a logout, a new password and a deactivated
-- account call, none of the user's tokens is of use.
use risk_opportunity_manager.Prelude.{
  ℕ, ◌≡◌, refl, sym, ap, ◌∙◌, subst, Bool, true, false, Option, none, some, List, [], ◌∷◌, ◌==◌,
  ==_refl, find, find_counted, find-update, count-update, count-update_leaves, Bool-cases,
  Option-cases, inl, inr, arith,
}
use risk_opportunity_manager.Server.Auth.{
  Token, Settings, Draw, has_id, has_hash, is_live, token_of, locked_user_refresh_tokens,
  refresh_family_ids, revoke_family, revoked_with, reused, recover_revoked,
  recover_or_revoke_refresh_family,
}
use risk_opportunity_manager.Server.Auth.Tables.{find_unique, find-select_kept}
use risk_opportunity_manager.Server.Auth.Rotate.{
  refused, Attempt, rotate_attempts, rotate_refresh_token, revoke_user_refresh_tokens,
}
use risk_opportunity_manager.Server.Auth.Reuse.{IsKeyed}
use risk_opportunity_manager.Server.Auth.Sessions.{
  sessions, is_session, token_of-found, refresh_family_ids_ends,
}

without_session :
    (user : ℕ) (tokens : List Token) (t : Token)
    → sessions user tokens ≡ 0
    → find (has_id t.id) tokens ≡ some t
    → t.user_id ≡ user
    → is_live t ≡ false
without_session user tokens t over found own = elim (Bool-cases (is_live t)) [
  | inr revoked ↦ revoked
  | inl live ↦
      let session : is_session user t ≡ true = rw (own, live) (ground (arith, ==_refl user)) in
      absurd
        (omega (arith, over, find_counted (has_id t.id) (is_session user) t tokens found session))
]

module _ (st : Settings) (hash : ℕ → ℕ) (is_active : ℕ → Bool) where
  recover_dead :
      (now : ℕ) (draw : Draw) (i revoked : ℕ) (o : Option Token) (owner : ℕ)
      (mine tokens : List Token)
      → ((t : Token) → o ≡ some t → is_live t ≡ false)
      → recover_revoked st hash is_active now draw i revoked o owner mine tokens
        ≡ revoked_with now (refresh_family_ids mine i) tokens
  recover_dead now draw i revoked none owner mine tokens dead = refl
  recover_dead now draw i revoked (some t) owner mine tokens dead = ground (arith, dead t refl)

  recover_without_session :
      (now : ℕ) (draw : Draw) (t : Token) (tokens : List Token)
      → IsKeyed tokens
      → sessions t.user_id tokens ≡ 0
      → find (has_id t.id) tokens ≡ some t
      → (left : List Token) × (recover_or_revoke_refresh_family st hash is_active now draw t.id
            t.user_id tokens
          ≡ reused left)
  unfolding recover_or_revoke_refresh_family locked_user_refresh_tokens
  recover_without_session now draw t tokens keyed over found =
      let mine = locked_user_refresh_tokens t.user_id tokens in
      let own : find (has_id t.id) mine ≡ some t =
        find-select_kept (has_id t.id) (λ u. u.user_id == t.user_id) t tokens found
          (==_refl t.user_id) in
      elim (Option-cases t.revoked_at) [
        | inl live ↦
            absurd (ground (arith, live, without_session t.user_id tokens t over found refl))
        | inr (revoked, was) ↦
            let (family, ends) = refresh_family_ids_ends mine t.id in
            let dead =
              recover_dead now draw t.id revoked (token_of t.replaced_by_id mine) t.user_id mine
                tokens
                (λ u h.
                  let (there, same) =
                    token_of-found st hash is_active t.user_id t.replaced_by_id tokens u keyed h in
                  without_session t.user_id tokens u over there same) in
            (
              revoke_family now family tokens,
              rw (own, was) (dead ∙ ap (λ o. revoked_with now o tokens) ends),
            )
      ]

  rotate_without_session :
      (a : Attempt) (rest : List Attempt) (raw : ℕ) (tokens : List Token) (t : Token)
      → IsKeyed tokens
      → sessions t.user_id tokens ≡ 0
      → find (has_hash (hash raw)) tokens ≡ some t
      → (left : List Token) × (rotate_attempts st hash is_active (a ∷ rest) raw tokens
          ≡ refused left)
  unfolding rotate_attempts
  rotate_without_session a rest raw tokens t keyed over found =
      let by_id =
        find_unique (has_hash (hash raw)) (has_id t.id) t tokens found (==_refl t.id)
          (keyed t.id) in
      let dead = without_session t.user_id tokens t over by_id refl in
      elim (Bool-cases (is_active t.user_id)) [
        | inr away ↦ (tokens, rw (found, away) refl)
        | inl active ↦
            let (left, ends) = recover_without_session a.now a.draw t tokens keyed over by_id in
            (left, rw (found, active, dead, ends) refl)
      ]

  sessions-revoke_user :
      (now user : ℕ) (tokens : List Token)
      → sessions user (revoke_user_refresh_tokens now user tokens).0 ≡ 0
  unfolding revoke_user_refresh_tokens
  sessions-revoke_user now user tokens =
      count-update_leaves (is_session user) (is_session user)
        (λ t. record t { revoked_at = some now }) (λ t h. ground arith) (λ t h. h) tokens

  found_after :
      (now user : ℕ) (p : Token → Bool) (tokens : List Token) (t : Token)
      → ((u : Token) → p (record u { revoked_at = some now }) ≡ p u)
      → find p tokens ≡ some t
      → (u : Token) × (find p (revoke_user_refresh_tokens now user tokens).0 ≡ some u)
        × (u.user_id ≡ t.user_id)
  unfolding revoke_user_refresh_tokens
  found_after now user p tokens t same found =
      let off = λ (u : Token). record u { revoked_at = some now } in
      let after = find-update p (is_session user) off same tokens in
      elim (Bool-cases (is_session user t)) [
        | inl live ↦ (off t, after ∙ rw (found, live) refl, refl)
        | inr dead ↦ (t, after ∙ rw (found, dead) refl, refl)
      ]

  -- When all refresh tokens of a user are revoked, the user has no live token, and every refresh token
  -- of the user that the table holds is refused from then on, also one that the grace would cover. Ids
  -- are unique.
  pub logout_ends_sessions :
      (a b c : Attempt) (now raw : ℕ) (tokens : List Token) (t : Token)
      → IsKeyed tokens
      → find (has_hash (hash raw)) tokens ≡ some t
      → (sessions t.user_id (revoke_user_refresh_tokens now t.user_id tokens).0 ≡ 0)
        × (left : List Token) × (rotate_refresh_token st hash is_active a b c raw
              (revoke_user_refresh_tokens now t.user_id tokens).0
            ≡ refused left)
  unfolding rotate_refresh_token revoke_user_refresh_tokens
  logout_ends_sessions a b c now raw tokens t keyed found =
      let table = (revoke_user_refresh_tokens now t.user_id tokens).0 in
      let (u, there, own) =
        found_after now t.user_id (has_hash (hash raw)) tokens t (λ u. refl) found in
      let over = sessions-revoke_user now t.user_id tokens in
      let keyed_after : IsKeyed table = λ i. omega (
        arith,
        keyed i,
        count-update (has_id i) (is_session t.user_id) (λ u. record u { revoked_at = some now })
            (λ u. refl) tokens,
      ) in
      let (left, ends) =
        rotate_without_session a (b ∷ c ∷ []) raw table u keyed_after
          (subst (λ user. sessions user table ≡ 0) (sym own) over) there in
      (over, left, ends)
