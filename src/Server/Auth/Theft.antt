-- ===== src/Server/Auth/Theft.antt =====
-- What a rotation of auth/service.py leaves, and what it protects: of a stolen and a rightful use of one
-- refresh token, the later one ends what the earlier one gained.
use risk_opportunity_manager.Prelude.{
  ℕ, ◌+◌, ◌<◌, ◌≡◌, refl, ◌∙◌, Bool, true, ◌&&◌, Option, none, some, List, [], ◌∷◌, ◌++◌, ◌==◌,
  ==_refl, find, find_counted, find-append, find-update, select, update, count, inl, inr, ltb,
  lt→ltb, arith,
}
use risk_opportunity_manager.Server.Auth.{
  Token, Settings, has_id, has_hash, is_live, is_member, is_claimable, replaced,
  claim_refresh_token, new_refresh_token, locked_user_refresh_tokens, revoke_family,
}
use risk_opportunity_manager.Server.Auth.Tables.{find_unique, find-select_kept, count_covers}
use risk_opportunity_manager.Server.Auth.Rotate.{
  rotated, refused, Attempt, rotate_attempts, rotate_refresh_token,
}
use risk_opportunity_manager.Server.Auth.Links.{Linked}
use risk_opportunity_manager.Server.Auth.Family.{IsFamily}
use risk_opportunity_manager.Server.Auth.Reuse.{
  IsKeyed, find-IsReplaced, find-IsToken, rotate_reused,
}

module _ (st : Settings) (hash : ℕ → ℕ) (is_active : ℕ → Bool) where
  -- the table that the rotation of a token leaves
  abbrev pub rotated_tokens : Attempt → Token → List Token → List Token
  rotated_tokens a t tokens =
      update (is_claimable t.id a.now) (replaced a.draw.id a.now) tokens
      ++ new_refresh_token st hash t.user_id a.now a.draw ∷ []

  -- a token that can be rotated: live, not replaced, not expired
  pub record IsCurrent (now : ℕ) (t : Token) : Type 0 where
    pub live : t.revoked_at ≡ none
    pub last : t.replaced_by_id ≡ none
    pub lasts : now < t.expires_at

  is_claimable-IsCurrent : (now : ℕ) (t : Token) → IsCurrent now t → is_claimable t.id now t ≡ true
  is_claimable-IsCurrent now t h = rw (h.live, h.last) (ground (arith, h.lasts, ==_refl t.id))

  claim_current :
      (replacement now : ℕ) (tokens : List Token) (t : Token)
      → IsKeyed tokens
      → find (has_id t.id) tokens ≡ some t
      → IsCurrent now t
      → claim_refresh_token t.id replacement now tokens
        ≡ some (update (is_claimable t.id now) (replaced replacement now) tokens)
  unfolding claim_refresh_token
  claim_current replacement now tokens t keyed found h =
      let claimable = is_claimable t.id now in
      let few = count_covers claimable (has_id t.id) (λ u k. ground (arith, k)) tokens in
      let some_row =
        find_counted (has_id t.id) claimable t tokens found (is_claimable-IsCurrent now t h) in
      let one : (count claimable tokens == 1) ≡ true = ground (arith, few, some_row, keyed t.id) in
      rw one refl

  pub rotate_current :
      (a : Attempt) (rest : List Attempt) (raw : ℕ) (tokens : List Token) (t : Token)
      → IsKeyed tokens
      → find (has_hash (hash raw)) tokens ≡ some t
      → is_active t.user_id ≡ true
      → IsCurrent a.now t
      → rotate_attempts st hash is_active (a ∷ rest) raw tokens
        ≡ rotated a.draw.raw t.user_id (rotated_tokens a t tokens)
  unfolding rotate_attempts
  rotate_current a rest raw tokens t keyed found active h =
      let by_id =
        find_unique (has_hash (hash raw)) (has_id t.id) t tokens found (==_refl t.id)
          (keyed t.id) in
      let early : ltb a.now t.expires_at ≡ true = lt→ltb a.now t.expires_at h.lasts in
      rw (found, active, h.live, early, claim_current a.draw.id a.now tokens t keyed by_id h) refl

  find-rotated :
      (p : Token → Bool) (a : Attempt) (t : Token) (tokens : List Token)
      → ((u : Token) → p (replaced a.draw.id a.now u) ≡ p u)
      → find p tokens ≡ some t
      → IsCurrent a.now t
      → find p (rotated_tokens a t tokens) ≡ some (replaced a.draw.id a.now t)
  find-rotated p a t tokens same found h =
      let claimable = is_claimable t.id a.now in
      let f = replaced a.draw.id a.now in
      let new = new_refresh_token st hash t.user_id a.now a.draw in
      let changed : find p (update claimable f tokens) ≡ some (f t) =
        find-update p claimable f same tokens ∙ rw (found, is_claimable-IsCurrent a.now t h) refl in
      find-append p (update claimable f tokens) (new ∷ []) ∙ rw changed refl

  find-rotated_new :
      (p : Token → Bool) (a : Attempt) (t : Token) (tokens : List Token)
      → ((u : Token) → p (replaced a.draw.id a.now u) ≡ p u)
      → find p tokens ≡ none
      → p (new_refresh_token st hash t.user_id a.now a.draw) ≡ true
      → find p (rotated_tokens a t tokens) ≡ some (new_refresh_token st hash t.user_id a.now a.draw)
  unfolding find
  find-rotated_new p a t tokens same free passes =
      let claimable = is_claimable t.id a.now in
      let f = replaced a.draw.id a.now in
      let new = new_refresh_token st hash t.user_id a.now a.draw in
      let changed : find p (update claimable f tokens) ≡ none =
        find-update p claimable f same tokens ∙ rw free refl in
      find-append p (update claimable f tokens) (new ∷ []) ∙ rw (changed, passes) refl

  -- the new token of a rotation, once the family of the old one is revoked
  abbrev revoked_new : Attempt → Token → ℕ → Token
  revoked_new a t now = record (new_refresh_token st hash t.user_id a.now a.draw) {
    revoked_at = some now;
  }

  find-revoke_family_new :
      (p : Token → Bool) (a : Attempt) (t : Token) (now : ℕ) (family : List ℕ) (tokens : List Token)
      → ((u : Token) (o : Option ℕ) → p (record u { revoked_at = o }) ≡ p u)
      → find p tokens ≡ some (new_refresh_token st hash t.user_id a.now a.draw)
      → is_member a.draw.id family ≡ true
      → find p (revoke_family now family tokens) ≡ some (revoked_new a t now)
  unfolding revoke_family
  find-revoke_family_new p a t now family tokens same found inside =
      find-update p (λ u. is_member u.id family && is_live u)
        (λ u. record u { revoked_at = some now }) (λ u. same u (some now)) tokens
      ∙ rw (found, inside) refl

  -- the family of the old token holds the new one
  new_in_family :
      (a : Attempt) (t : Token) (tokens : List Token) (family : List ℕ)
      → find (has_id t.id) tokens ≡ some t
      → find (has_id a.draw.id) tokens ≡ none
      → IsCurrent a.now t
      → IsFamily (locked_user_refresh_tokens t.user_id (rotated_tokens a t tokens)) t.id family
      → is_member a.draw.id family ≡ true
  unfolding locked_user_refresh_tokens
  new_in_family a t tokens family by_id free h f =
      let ours = λ (u : Token). u.user_id == t.user_id in
      let table = rotated_tokens a t tokens in
      let mine = select ours table in
      let new = new_refresh_token st hash t.user_id a.now a.draw in
      let own = ==_refl t.user_id in
      let old_there =
        find-select_kept (has_id t.id) ours (replaced a.draw.id a.now t) table
          (find-rotated (has_id t.id) a t tokens (λ u. refl) by_id h) own in
      let new_there =
        find-select_kept (has_id a.draw.id) ours new table
          (find-rotated_new (has_id a.draw.id) a t tokens (λ u. refl) free (==_refl a.draw.id))
          own in
      (f a.draw.id).1 (
        Linked.forward Linked.here
          (find-IsReplaced t.id a.draw.id (replaced a.draw.id a.now t) mine old_there refl)
          (find-IsToken a.draw.id new mine new_there))

  -- If a current token of an active user is rotated and its old value is presented again after the
  -- grace, then this is refused and so is, at any time after it, the value that the rotation gave: a
  -- thief and the owner of one token do not both keep a session. Ids are unique, and the new token's
  -- id and hash are not in the table before.
  pub theft_ends_session :
      (a b c x y : Attempt) (raw : ℕ) (tokens : List Token) (t : Token)
      → IsKeyed tokens
      → find (has_id a.draw.id) tokens ≡ none
      → find (has_hash (hash a.draw.raw)) tokens ≡ none
      → find (has_hash (hash raw)) tokens ≡ some t
      → is_active t.user_id ≡ true
      → IsCurrent a.now t
      → a.now + st.reuse_grace < b.now
      → (first second third : List Token) × (rotate_refresh_token st hash is_active a x y raw tokens
          ≡ rotated a.draw.raw t.user_id first)
        × (rotate_refresh_token st hash is_active b x y raw first ≡ refused second)
        × (rotate_refresh_token st hash is_active c x y a.draw.raw second ≡ refused third)
  unfolding rotate_refresh_token
  theft_ends_session a b c x y raw tokens t keyed new_id new_hash found active h late =
      let by_id =
        find_unique (has_hash (hash raw)) (has_id t.id) t tokens found (==_refl t.id)
          (keyed t.id) in
      let old_hash = has_hash (hash raw) in
      let value = has_hash (hash a.draw.raw) in
      let (family, ends, f) =
        rotate_reused st hash is_active b (x ∷ y ∷ []) raw (rotated_tokens a t tokens)
          (replaced a.draw.id a.now t) a.now (find-rotated old_hash a t tokens (λ u. refl) found h)
          (find-rotated (has_id t.id) a t tokens (λ u. refl) by_id h) active refl (inr late) in
      let inside = new_in_family a t tokens family by_id new_id h f in
      let second = revoke_family b.now family (rotated_tokens a t tokens) in
      let (after, over, _) =
        rotate_reused st hash is_active c (x ∷ y ∷ []) a.draw.raw second (revoked_new a t b.now)
          b.now
          (find-revoke_family_new value a t b.now family (rotated_tokens a t tokens) (λ u o. refl)
            (find-rotated_new value a t tokens (λ u. refl) new_hash (==_refl (hash a.draw.raw)))
            inside)
          (find-revoke_family_new (has_id a.draw.id) a t b.now family (rotated_tokens a t tokens)
            (λ u o. refl)
            (find-rotated_new (has_id a.draw.id) a t tokens (λ u. refl) new_id (==_refl a.draw.id))
            inside)
          active refl (inl refl) in
      (
        rotated_tokens a t tokens,
        second,
        revoke_family c.now after second,
        rotate_current a (x ∷ y ∷ []) raw tokens t keyed found active h,
        ends,
        over,
      )
