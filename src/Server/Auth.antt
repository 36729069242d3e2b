-- ===== src/Server/Auth.antt =====
-- Refresh tokens: the part of auth/service.py that issues, rotates and revokes them. A transaction is
-- one call on the table of tokens; a hash is what hash_bearer_secret gives; times are microseconds.
pub mod Rotate
pub mod Links
pub mod Family
pub mod Tables
pub mod Reuse
pub mod Theft
pub mod Sessions
pub mod Kept
mod Logout
mod Tests
use risk_opportunity_manager.Prelude.{
  ℕ, zero, suc, ◌+◌, ◌-◌, Bool, true, false, ◌&&◌, ◌||◌, not, Option, none, some, List, [], ◌∷◌,
  ◌++◌, map, if◌then◌else◌, ◌==◌, ltb, leb, find, select, update, count, length,
}

-- RefreshToken
pub record Token : Type 0 where
  pub id : ℕ
  pub user_id : ℕ
  pub token_hash : ℕ
  pub issued_at : ℕ
  pub expires_at : ℕ
  pub revoked_at : Option ℕ
  pub replaced_by_id : Option ℕ

-- REFRESH_TOKEN_DAYS and REFRESH_TOKEN_REUSE_GRACE_SECONDS
pub record Settings : Type 0 where
  pub lifetime : ℕ
  pub reuse_grace : ℕ

-- the random values of a new token: secrets.token_urlsafe and uuid4
pub record Draw : Type 0 where
  pub raw : ℕ
  pub id : ℕ

abbrev pub is_none : Option ℕ → Bool
is_none none = true
is_none (some n) = false

abbrev pub names : ℕ → Option ℕ → Bool
names i none = false
names i (some j) = j == i

abbrev pub has_id : ℕ → Token → Bool
has_id i t = t.id == i

abbrev pub has_hash : ℕ → Token → Bool
has_hash h t = t.token_hash == h

abbrev pub is_live : Token → Bool
is_live t = is_none t.revoked_at

-- _new_refresh_token
abbrev pub new_refresh_token : Settings → (ℕ → ℕ) → ℕ → ℕ → Draw → Token
new_refresh_token st hash user now draw = record {
  id = draw.id;
  user_id = user;
  token_hash = hash draw.raw;
  issued_at = now;
  expires_at = now + st.lifetime;
  revoked_at = none;
  replaced_by_id = none;
}

-- issue_refresh_token
unfoldable pub issue_refresh_token : Settings → (ℕ → ℕ) → ℕ → ℕ → Draw → List Token → List Token
issue_refresh_token st hash user now draw tokens =
    tokens ++ new_refresh_token st hash user now draw ∷ []

abbrev pub is_claimable : ℕ → ℕ → Token → Bool
is_claimable i now t = has_id i t && is_live t && is_none t.replaced_by_id && ltb now t.expires_at

abbrev pub replaced : ℕ → ℕ → Token → Token
replaced replacement now t = record t { revoked_at = some now; replaced_by_id = some replacement }

-- _claim_refresh_token; `none` is a row count other than one
unfoldable pub claim_refresh_token : ℕ → ℕ → ℕ → List Token → Option (List Token)
unfolding count update
claim_refresh_token i replacement now tokens =
    if count (is_claimable i now) tokens == 1
    then some (update (is_claimable i now) (replaced replacement now) tokens)
    else none

-- _locked_user_refresh_tokens: one transaction sees all of the user's tokens at once
unfoldable pub locked_user_refresh_tokens : ℕ → List Token → List Token
unfolding select
locked_user_refresh_tokens user tokens = select (λ t. t.user_id == user) tokens

unfoldable pub is_member : ℕ → List ℕ → Bool
is_member i [] = false
is_member i (j ∷ ids) = j == i || is_member i ids

abbrev pub ids_of : List Token → List ℕ
ids_of tokens = map (λ (t : Token). t.id) tokens

-- in by_id
abbrev pub is_known : List Token → ℕ → Bool
is_known tokens i = is_member i (ids_of tokens)

abbrev known_link : List Token → Option ℕ → List ℕ
known_link tokens none = []
known_link tokens (some j) = if is_known tokens j then j ∷ [] else []

abbrev pub links : List Token → ℕ → Token → List ℕ
links tokens i t =
    (if t.id == i then known_link tokens t.replaced_by_id else [])
    ++ (if names i t.replaced_by_id then t.id ∷ [] else [])

-- neighbors[i], for an id of the tokens
unfoldable pub neighbors_from : List Token → List Token → ℕ → List ℕ
unfolding is_member
neighbors_from tokens [] i = []
neighbors_from tokens (t ∷ rest) i = links tokens i t ++ neighbors_from tokens rest i

abbrev pub neighbors : List Token → ℕ → List ℕ
neighbors tokens i = neighbors_from tokens tokens i

-- neighbors[i] - family; what stands in a list twice is skipped when it is popped again
unfoldable pub fresh : List ℕ → List ℕ → List ℕ
unfolding select is_member
fresh family ids = select (λ i. not (is_member i family)) ids

-- the loop of _refresh_family_ids; `remaining` is a stack, and `none` is the fuel used up
unfoldable pub collect_family : List Token → ℕ → List ℕ → List ℕ → Option (List ℕ)
unfolding is_member neighbors_from fresh
collect_family tokens f [] family = some family
collect_family tokens zero (i ∷ remaining) family = none
collect_family tokens (suc f) (i ∷ remaining) family =
    let seen = collect_family tokens f remaining family in
    let added =
      collect_family tokens f (fresh (i ∷ family) (neighbors tokens i) ++ remaining) (i ∷ family) in
    if is_member i family then seen else added

-- the links of the tokens outside a family: fuel for the loop
unfoldable pub pot_from : List Token → List Token → List ℕ → ℕ
unfolding is_member neighbors_from
pot_from tokens [] family = 0
pot_from tokens (t ∷ rest) family =
    (if is_member t.id family then 0 else length (neighbors tokens t.id))
    + pot_from tokens rest family

-- _refresh_family_ids
unfoldable pub refresh_family_ids : List Token → ℕ → Option (List ℕ)
unfolding collect_family pot_from is_member
refresh_family_ids tokens i =
    if is_known tokens i
    then collect_family tokens (1 + pot_from tokens tokens []) (i ∷ []) []
    else some []

-- What _recover_or_revoke_refresh_family returns, or the 401 that it raises after its commit.
pub data Recovery : Type 0 where
  recovered : List Token → Recovery
  try_again : Recovery
  reused : List Token → Recovery
  out_of_fuel : Recovery

abbrev pub token_of : Option ℕ → List Token → Option Token
token_of none tokens = none
token_of (some i) tokens = find (has_id i) tokens

-- grace_eligible, for a replacement that is there
abbrev pub is_in_grace : Settings → ℕ → ℕ → Token → Bool
is_in_grace st now revoked t =
    ltb 0 st.reuse_grace
    && leb revoked now
    && leb (now - revoked) st.reuse_grace
    && is_live t
    && is_none t.replaced_by_id
    && ltb now t.expires_at

-- the UPDATE of a family's live tokens
unfoldable pub revoke_family : ℕ → List ℕ → List Token → List Token
unfolding update is_member
revoke_family now family tokens =
    update (λ t. is_member t.id family && is_live t) (λ t. record t { revoked_at = some now })
      tokens

abbrev pub revoked_with : ℕ → Option (List ℕ) → List Token → Recovery
revoked_with now none tokens = out_of_fuel
revoked_with now (some family) tokens = reused (revoke_family now family tokens)

abbrev pub claimed_with : Token → Option (List Token) → Recovery
claimed_with new none = try_again
claimed_with new (some tokens) = recovered (tokens ++ new ∷ [])

module _ (st : Settings) (hash : ℕ → ℕ) (is_active : ℕ → Bool) where
  -- the part of _recover_or_revoke_refresh_family for a token that was revoked
  abbrev pub recover_revoked :
      ℕ → Draw → ℕ → ℕ → Option Token → ℕ → List Token → List Token → Recovery
  recover_revoked now draw i revoked none user mine tokens =
      revoked_with now (refresh_family_ids mine i) tokens
  recover_revoked now draw i revoked (some t) user mine tokens =
      if is_in_grace st now revoked t
      then claimed_with (new_refresh_token st hash user now draw)
          (claim_refresh_token t.id draw.id now tokens)
      else revoked_with now (refresh_family_ids mine i) tokens

  abbrev pub recover_found : ℕ → Draw → ℕ → ℕ → Option Token → List Token → List Token → Recovery
  recover_found now draw i user none mine tokens = try_again
  recover_found now draw i user (some t) mine tokens = elim t.revoked_at [
    | none ↦ try_again
    | some revoked ↦
        recover_revoked now draw i revoked (token_of t.replaced_by_id mine) user mine tokens
  ]

  -- _recover_or_revoke_refresh_family
  unfoldable pub recover_or_revoke_refresh_family : ℕ → Draw → ℕ → ℕ → List Token → Recovery
  unfolding locked_user_refresh_tokens refresh_family_ids revoke_family claim_refresh_token find
  recover_or_revoke_refresh_family now draw i user tokens =
      let mine = locked_user_refresh_tokens user tokens in
      recover_found now draw i user (find (has_id i) mine) mine tokens
