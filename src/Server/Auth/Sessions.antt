-- ===== src/Server/Auth/Sessions.antt =====
-- The live tokens of a user, which are that user's sessions, through the rotations of auth/service.py.
use risk_opportunity_manager.Prelude.{
  ℕ, ◌≤◌, ◌≡◌, refl, sym, ◌∙◌, Bool, true, ◌&&◌, Option, none, some, List, [], ◌∷◌, ◌++◌, ◌==◌,
  ==_refl, find, update, count, count-snoc, count-update_moved, Bool-cases, Option-cases, inl, inr,
  arith,
}
use risk_opportunity_manager.Server.Auth.{
  Token, Settings, Draw, has_id, is_live, is_member, is_known, is_claimable, is_in_grace, token_of,
  replaced, claim_refresh_token, new_refresh_token, claimed_with, locked_user_refresh_tokens,
  refresh_family_ids, revoke_family, revoked_with, Recovery, recovered, try_again, reused,
  out_of_fuel, recover_revoked, recover_or_revoke_refresh_family,
}
use risk_opportunity_manager.Server.Auth.Tables.{
  find-select_passes, find-select_unique, count_found,
}
use risk_opportunity_manager.Server.Auth.Rotate.{Rotation, rotated, refused, unfinished}
use risk_opportunity_manager.Server.Auth.Links.{same_id}
use risk_opportunity_manager.Server.Auth.Family.{refresh_family_ids-IsFamily}
use risk_opportunity_manager.Server.Auth.Reuse.{IsKeyed}

-- the tokens with which a user can go on
abbrev pub is_session : ℕ → Token → Bool
is_session user t = t.user_id == user && is_live t

abbrev pub sessions : ℕ → List Token → ℕ
sessions user tokens = count (is_session user) tokens

-- A rotation gives a user as many sessions as before; a refusal gives nobody a new one.
abbrev pub IsKept : ℕ → List Token → Rotation → Type 0
IsKept user tokens (rotated raw of left) = sessions user left ≡ sessions user tokens
IsKept user tokens (refused left) = sessions user left ≤ sessions user tokens
IsKept user tokens unfinished = ⊥

-- the same of a recovery
abbrev pub IsKeptRecovery : ℕ → List Token → Recovery → Type 0
IsKeptRecovery user tokens (recovered left) = sessions user left ≡ sessions user tokens
IsKeptRecovery user tokens try_again = Unit
IsKeptRecovery user tokens (reused left) = sessions user left ≤ sessions user tokens
IsKeptRecovery user tokens out_of_fuel = ⊥

pub claimed_row :
    (i now : ℕ) (tokens : List Token) (t : Token)
    → IsKeyed tokens
    → find (has_id i) tokens ≡ some t
    → (count (is_claimable i now) tokens == 1) ≡ true
    → is_claimable i now t ≡ true
claimed_row i now tokens t keyed found one =
    let exact =
      count_found (is_claimable i now) (has_id i) t (λ u k. ground (arith, k)) tokens found
        (keyed i) in
    elim (Bool-cases (is_claimable i now t)) [
      | inl here ↦ here
      | inr gone ↦
          let zero_rows : count (is_claimable i now) tokens ≡ 0 = exact ∙ rw gone refl in
          absurd (ground (arith, one, zero_rows))
    ]

pub sessions-claimed :
    (i replacement now user : ℕ) (tokens : List Token) (t new : Token)
    → IsKeyed tokens
    → find (has_id i) tokens ≡ some t
    → is_claimable i now t ≡ true
    → new.user_id ≡ t.user_id
    → is_live new ≡ true
    → sessions user (update (is_claimable i now) (replaced replacement now) tokens ++ new ∷ [])
      ≡ sessions user tokens
sessions-claimed i replacement now user tokens t new keyed found claimable own live =
    let f = replaced replacement now in
    let both = λ (u : Token). is_claimable i now u && is_session user u in
    let moved =
      count-update_moved (is_session user) (is_claimable i now) f (λ u k. ground arith) tokens in
    let exact = count_found both (has_id i) t (λ u k. ground (arith, k)) tokens found (keyed i) in
    let counted : both t ≡ is_session user t = rw claimable refl in
    let live_old : is_live t ≡ true = ground (arith, claimable) in
    let alike : is_session user new ≡ is_session user t = rw (own, live, live_old) refl in
    count-snoc (is_session user) (update (is_claimable i now) f tokens) new
    ∙ ground (arith, moved, exact, counted, alike)

sessions-revoke_family :
    (now user : ℕ) (family : List ℕ) (tokens : List Token)
    → sessions user (revoke_family now family tokens) ≤ sessions user tokens
unfolding revoke_family
sessions-revoke_family now user family tokens = omega (
  arith,
  count-update_moved (is_session user) (λ t. is_member t.id family && is_live t)
      (λ t. record t { revoked_at = some now }) (λ t h. ground arith) tokens,
)

pub refresh_family_ids_ends :
    (tokens : List Token) (i : ℕ) → (family : List ℕ) × (refresh_family_ids tokens i ≡ some family)
unfolding refresh_family_ids
refresh_family_ids_ends tokens i = elim (Bool-cases (is_known tokens i)) [
  | inl known ↦ let (family, ends, _) = refresh_family_ids-IsFamily tokens i known in (family, ends)
  | inr unknown ↦ ([], rw unknown refl)
]

revoked_with-IsKept :
    (now i user : ℕ) (mine tokens : List Token)
    → IsKeptRecovery user tokens (revoked_with now (refresh_family_ids mine i) tokens)
revoked_with-IsKept now i user mine tokens =
    let (family, ends) = refresh_family_ids_ends mine i in
    rw ends (sessions-revoke_family now user family tokens)

module _ (st : Settings) (hash : ℕ → ℕ) (is_active : ℕ → Bool) where
  claimed_with-IsKept :
      (now : ℕ) (draw : Draw) (user : ℕ) (t : Token) (tokens : List Token)
      → IsKeyed tokens
      → find (has_id t.id) tokens ≡ some t
      → IsKeptRecovery user tokens (
          claimed_with
            (new_refresh_token st hash t.user_id now draw)
            (claim_refresh_token t.id draw.id now tokens))
  unfolding claim_refresh_token
  claimed_with-IsKept now draw user t tokens keyed found =
      elim (Bool-cases (count (is_claimable t.id now) tokens == 1)) [
        | inl one ↦ rw one (
            sessions-claimed t.id draw.id now user tokens t
              (new_refresh_token st hash t.user_id now draw) keyed found
              (claimed_row t.id now tokens t keyed found one) refl refl)
        | inr other ↦ rw other tt
      ]

  recover_revoked-IsKept :
      (now : ℕ) (draw : Draw) (i revoked : ℕ) (o : Option Token) (owner user : ℕ)
      (mine tokens : List Token)
      → IsKeyed tokens
      → ((t : Token) → o ≡ some t → (find (has_id t.id) tokens ≡ some t) × (t.user_id ≡ owner))
      → IsKeptRecovery user tokens
          (recover_revoked st hash is_active now draw i revoked o owner mine tokens)
  recover_revoked-IsKept now draw i revoked none owner user mine tokens keyed there =
      revoked_with-IsKept now i user mine tokens
  recover_revoked-IsKept now draw i revoked (some t) owner user mine tokens keyed there =
      let (found, own) = there t refl in
      elim (Bool-cases (is_in_grace st now revoked t)) [
        | inl early ↦ rw (early, sym own) (claimed_with-IsKept now draw user t tokens keyed found)
        | inr late ↦ rw late (revoked_with-IsKept now i user mine tokens)
      ]

  pub token_of-found :
      (owner : ℕ) (o : Option ℕ) (tokens : List Token) (t : Token)
      → IsKeyed tokens
      → token_of o (locked_user_refresh_tokens owner tokens) ≡ some t
      → (find (has_id t.id) tokens ≡ some t) × (t.user_id ≡ owner)
  unfolding locked_user_refresh_tokens
  token_of-found owner none tokens t keyed h = cc
  token_of-found owner (some j) tokens t keyed h =
      let ours = λ (u : Token). u.user_id == owner in
      (
        find-select_unique (has_id j) ours (has_id t.id) t tokens h (==_refl t.id) (keyed t.id),
        same_id t.user_id owner (find-select_passes (has_id j) ours t tokens h),
      )

  pub recover-IsKept :
      (now : ℕ) (draw : Draw) (i owner user : ℕ) (tokens : List Token)
      → IsKeyed tokens
      → IsKeptRecovery user tokens
          (recover_or_revoke_refresh_family st hash is_active now draw i owner tokens)
  unfolding recover_or_revoke_refresh_family
  recover-IsKept now draw i owner user tokens keyed =
      let mine = locked_user_refresh_tokens owner tokens in
      elim (Option-cases (find (has_id i) mine)) [
        | inl unknown ↦ rw unknown tt
        | inr (t, found) ↦ elim (Option-cases t.revoked_at) [
          | inl live ↦ rw (found, live) tt
          | inr (revoked, was) ↦
              rw (found, was)
                (recover_revoked-IsKept now draw i revoked (token_of t.replaced_by_id mine) owner
                  user mine tokens keyed
                  (λ u h. token_of-found owner t.replaced_by_id tokens u keyed h))
        ]
      ]
