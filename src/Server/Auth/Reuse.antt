-- ===== src/Server/Auth/Reuse.antt =====
-- The reuse of a rotated refresh token, as auth/service.py answers it after the grace.
use risk_opportunity_manager.Prelude.{
  ℕ, ◌+◌, ◌≤◌, ◌<◌, ◌≡◌, ◌⊎◌, refl, ap, ◌∙◌, Bool, true, false, ◌&&◌, Option, none, some, List, [],
  ◌∷◌, ◌==◌, ==_refl, find, find_passes, find-update, count, count-update_leaves, Bool-cases,
  Option-cases, inl, inr, arith,
}
use risk_opportunity_manager.Server.Auth.{
  Token, Settings, Draw, has_id, has_hash, is_live, is_member, is_known, token_of,
  locked_user_refresh_tokens, refresh_family_ids, revoke_family, revoked_with, reused,
  recover_revoked, recover_or_revoke_refresh_family,
}
use risk_opportunity_manager.Server.Auth.Rotate.{
  refused, Attempt, rotate_attempts, rotate_refresh_token,
}
use risk_opportunity_manager.Server.Auth.Tables.{find_unique, find-select_kept}
use risk_opportunity_manager.Server.Auth.Links.{Linked, IsReplaced, IsToken, same_id}
use risk_opportunity_manager.Server.Auth.Family.{IsFamily, refresh_family_ids-IsFamily}

-- No two tokens have one id: the primary key.
abbrev pub IsKeyed : List Token → Type 0
IsKeyed tokens = (i : ℕ) → count (has_id i) tokens ≤ 1

pub find-is_known :
    (i : ℕ) (t : Token) (tokens : List Token)
    → find (has_id i) tokens ≡ some t
    → is_known tokens i ≡ true
unfolding find is_member
find-is_known i t [] h = cc
find-is_known i t (x ∷ rest) h = ground (arith, h, find-is_known i t rest)

pub find-IsReplaced :
    (i j : ℕ) (t : Token) (tokens : List Token)
    → find (has_id i) tokens ≡ some t
    → t.replaced_by_id ≡ some j
    → IsReplaced tokens i j
unfolding find
find-IsReplaced i j t [] h next = absurd (cc h)
find-IsReplaced i j t (x ∷ rest) h next = elim (Bool-cases (x.id == i)) [
  | inl same ↦
      let now : x ≡ t = ground (arith, h, same) in
      inl (same_id x.id i same, ap (λ (u : Token). u.replaced_by_id) now ∙ next)
  | inr other ↦ inr (find-IsReplaced i j t rest (ground (arith, h, other)) next)
]

pub find-IsToken :
    (i : ℕ) (t : Token) (tokens : List Token) → find (has_id i) tokens ≡ some t → IsToken tokens i
unfolding find
find-IsToken i t [] h = absurd (cc h)
find-IsToken i t (x ∷ rest) h = elim (Bool-cases (x.id == i)) [
  | inl same ↦ inl (same_id x.id i same)
  | inr other ↦ inr (find-IsToken i t rest (ground (arith, h, other)))
]

-- none of the rows with this id is live
abbrev pub live_as : ℕ → Token → Bool
live_as i t = has_id i t && is_live t

pub revoke_family-live_as :
    (now i : ℕ) (family : List ℕ) (tokens : List Token)
    → is_member i family ≡ true
    → count (live_as i) (revoke_family now family tokens) ≡ 0
unfolding revoke_family
revoke_family-live_as now i family tokens inside =
    count-update_leaves (live_as i) (λ t. is_member t.id family && is_live t)
      (λ t. record t { revoked_at = some now }) (λ t h. ground arith)
      (λ t h. elim (Bool-cases (t.id == i)) [
        | inl same ↦ ground (arith, h, inside, ap (λ k. is_member k family) (same_id t.id i same))
        | inr other ↦ ground (arith, other)
      ])
      tokens

find-revoke_family :
    (now i : ℕ) (family : List ℕ) (tokens : List Token)
    → is_member i family ≡ false
    → find (has_id i) (revoke_family now family tokens) ≡ find (has_id i) tokens
unfolding revoke_family
find-revoke_family now i family tokens outside =
    let ours = λ (u : Token). is_member u.id family && is_live u in
    let off = λ (u : Token). record u { revoked_at = some now } in
    let kept = find-update (has_id i) ours off (λ u. refl) tokens in
    elim (Option-cases (find (has_id i) tokens)) [
      | inl missing ↦ kept ∙ rw missing refl
      | inr (t, found) ↦
          let same = same_id t.id i (find_passes (has_id i) t tokens found) in
          let spared : ours t ≡ false =
            ground (arith, outside, ap (λ k. is_member k family) same) in
          kept ∙ rw (found, spared) refl
    ]

module _ (st : Settings) (hash : ℕ → ℕ) (is_active : ℕ → Bool) where
  -- a revoked token that the grace does not cover: it was never replaced, or too long ago
  abbrev pub IsPastGrace : ℕ → ℕ → Token → Type 0
  IsPastGrace now revoked t = (t.replaced_by_id ≡ none) ⊎ (revoked + st.reuse_grace < now)

  recover_late :
      (now : ℕ) (draw : Draw) (i revoked : ℕ) (o : Option Token) (user : ℕ)
      (mine tokens : List Token)
      → revoked + st.reuse_grace < now
      → recover_revoked st hash is_active now draw i revoked o user mine tokens
        ≡ revoked_with now (refresh_family_ids mine i) tokens
  recover_late now draw i revoked none user mine tokens late = refl
  recover_late now draw i revoked (some t) user mine tokens late = ground (arith, late)

  recover_past_grace :
      (now : ℕ) (draw : Draw) (t : Token) (revoked : ℕ) (mine tokens : List Token)
      → IsPastGrace now revoked t
      → recover_revoked st hash is_active now draw t.id revoked
          (token_of t.replaced_by_id mine)
          t.user_id
          mine
          tokens
        ≡ revoked_with now (refresh_family_ids mine t.id) tokens
  recover_past_grace now draw t revoked mine tokens (inl last) = rw last refl
  recover_past_grace now draw t revoked mine tokens (inr late) =
      recover_late now draw t.id revoked (token_of t.replaced_by_id mine) t.user_id mine tokens late

  recover_reused :
      (now : ℕ) (draw : Draw) (t : Token) (revoked : ℕ) (tokens : List Token)
      → find (has_id t.id) tokens ≡ some t
      → t.revoked_at ≡ some revoked
      → IsPastGrace now revoked t
      → (family : List ℕ) × (recover_or_revoke_refresh_family st hash is_active now draw t.id
            t.user_id tokens
          ≡ reused (revoke_family now family tokens))
        × IsFamily (locked_user_refresh_tokens t.user_id tokens) t.id family
  unfolding recover_or_revoke_refresh_family locked_user_refresh_tokens
  recover_reused now draw t revoked tokens found was past =
      let mine = locked_user_refresh_tokens t.user_id tokens in
      let own : find (has_id t.id) mine ≡ some t =
        find-select_kept (has_id t.id) (λ u. u.user_id == t.user_id) t tokens found
          (==_refl t.user_id) in
      let (family, ends, h) =
        refresh_family_ids-IsFamily mine t.id (find-is_known t.id t mine own) in
      (
        family,
        rw (own, was)
            (recover_past_grace now draw t revoked mine tokens past
              ∙ ap (λ o. revoked_with now o tokens) ends),
        h,
      )

  pub rotate_reused :
      (a : Attempt) (rest : List Attempt) (raw : ℕ) (tokens : List Token) (t : Token) (revoked : ℕ)
      → find (has_hash (hash raw)) tokens ≡ some t
      → find (has_id t.id) tokens ≡ some t
      → is_active t.user_id ≡ true
      → t.revoked_at ≡ some revoked
      → IsPastGrace a.now revoked t
      → (family : List ℕ) × (rotate_attempts st hash is_active (a ∷ rest) raw tokens
          ≡ refused (revoke_family a.now family tokens))
        × IsFamily (locked_user_refresh_tokens t.user_id tokens) t.id family
  unfolding rotate_attempts
  rotate_reused a rest raw tokens t revoked found by_id active was past =
      let (family, ends, h) = recover_reused a.now a.draw t revoked tokens by_id was past in
      (family, rw (found, active, was, ends) refl, h)

  -- A revoked token of an active user that is presented when it was never replaced, or when the grace
  -- after its replacement is over, is refused in the first attempt; if ids are unique, then no token
  -- that replacements among the user's tokens link to it is live in the table that is left, and each
  -- token that they do not link to it is there unchanged.
  pub reuse_revokes_family :
      (a b c : Attempt) (raw : ℕ) (tokens : List Token) (t : Token) (revoked : ℕ)
      → IsKeyed tokens
      → find (has_hash (hash raw)) tokens ≡ some t
      → is_active t.user_id ≡ true
      → t.revoked_at ≡ some revoked
      → IsPastGrace a.now revoked t
      → (left : List Token) × (rotate_refresh_token st hash is_active a b c raw tokens
          ≡ refused left)
        × ((i : ℕ)
            → (Linked (locked_user_refresh_tokens t.user_id tokens) t.id i
                × (count (live_as i) left ≡ 0))
              ⊎ (¬ Linked (locked_user_refresh_tokens t.user_id tokens) t.id i
                  × (find (has_id i) left ≡ find (has_id i) tokens)))
  unfolding rotate_refresh_token
  reuse_revokes_family a b c raw tokens t revoked keyed found active was past =
      let mine = locked_user_refresh_tokens t.user_id tokens in
      let by_id =
        find_unique (has_hash (hash raw)) (has_id t.id) t tokens found (==_refl t.id)
          (keyed t.id) in
      let (family, ends, h) =
        rotate_reused a (b ∷ c ∷ []) raw tokens t revoked found by_id active was past in
      (
        revoke_family a.now family tokens,
        ends,
        λ i. elim (Bool-cases (is_member i family)) [
          | inl inside ↦ inl ((h i).0 inside, revoke_family-live_as a.now i family tokens inside)
          | inr outside ↦ inr (
            λ linked. absurd (ground (arith, outside, (h i).1 linked)),
            find-revoke_family a.now i family tokens outside,
          )
        ],
      )
