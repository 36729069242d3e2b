-- ===== src/Server/Auth/Tests.antt =====
-- A table of three tokens of one user and one of another: 1 was replaced by 2, which is live.
use risk_opportunity_manager.Prelude.{
  ℕ, ◌+◌, ◌≡◌, ◌⊎◌, refl, Bool, true, none, some, List, [], ◌∷◌, find, count, arith, inr,
}
use risk_opportunity_manager.Server.Auth.{
  Token, Settings, has_id, is_member, refresh_family_ids, locked_user_refresh_tokens,
}
use risk_opportunity_manager.Server.Auth.Rotate.{
  rotated, refused, Attempt, rotate_refresh_token, revoke_user_refresh_tokens,
}
use risk_opportunity_manager.Server.Auth.Links.{Linked}
use risk_opportunity_manager.Server.Auth.Family.{IsFamily, refresh_family_ids-IsFamily}
use risk_opportunity_manager.Server.Auth.Sessions.{IsKept, sessions}
use risk_opportunity_manager.Server.Auth.Kept.{rotate_refresh_token-IsKept}
use risk_opportunity_manager.Server.Auth.Logout.{logout_ends_sessions}
use risk_opportunity_manager.Server.Auth.Reuse.{IsKeyed, live_as, reuse_revokes_family}
use risk_opportunity_manager.Server.Auth.Theft.{theft_ends_session}

abbrev settings : Settings
settings = record { lifetime = 1000; reuse_grace = 10 }

abbrev digest : ℕ → ℕ
digest raw = raw + 500

abbrev nobody_away : ℕ → Bool
nobody_away user = true

abbrev old : Token
old = record {
  id = 1;
  user_id = 7;
  token_hash = 511;
  issued_at = 0;
  expires_at = 1000;
  revoked_at = some 20;
  replaced_by_id = some 2;
}

abbrev current : Token
current = record {
  id = 2;
  user_id = 7;
  token_hash = 512;
  issued_at = 20;
  expires_at = 1020;
  revoked_at = none;
  replaced_by_id = none;
}

abbrev elsewhere : Token
elsewhere = record {
  id = 3;
  user_id = 8;
  token_hash = 513;
  issued_at = 5;
  expires_at = 1005;
  revoked_at = none;
  replaced_by_id = none;
}

abbrev table : List Token
table = old ∷ current ∷ elsewhere ∷ []

abbrev at_time : ℕ → ℕ → Attempt
at_time now raw = record { now = now; draw = record { raw = raw; id = raw } }

table-IsKeyed : IsKeyed table
unfolding count
table-IsKeyed i = ground arith

-- inside the grace the lost answer is recovered, after it the family goes
recovered_within :
    (left : List Token) × (rotate_refresh_token settings digest nobody_away
        (at_time 25 14)
        (at_time 25 15)
        (at_time 25 16)
        11
        table
      ≡ rotated 14 7 left)
unfolding rotate_refresh_token
recovered_within = (_, refl)

refresh_family_ids-IsFamily_example :
    (family : List ℕ) × (refresh_family_ids table 1 ≡ some family) × IsFamily table 1 family
unfolding is_member
refresh_family_ids-IsFamily_example = refresh_family_ids-IsFamily table 1 refl

reuse_revokes_family_example :
    (left : List Token) × (rotate_refresh_token settings digest nobody_away
        (at_time 31 14)
        (at_time 32 15)
        (at_time 33 16)
        11
        table
      ≡ refused left)
    × ((i : ℕ)
        → (Linked (locked_user_refresh_tokens 7 table) 1 i × (count (live_as i) left ≡ 0))
          ⊎ (¬ Linked (locked_user_refresh_tokens 7 table) 1 i
              × (find (has_id i) left ≡ find (has_id i) table)))
unfolding find
reuse_revokes_family_example =
    reuse_revokes_family settings digest nobody_away (at_time 31 14) (at_time 32 15) (at_time 33 16)
      11 table old 20 table-IsKeyed refl refl refl (inr (omega arith))

theft_ends_session_example :
    (first second third : List Token) × (rotate_refresh_token settings digest nobody_away
        (at_time 40 14)
        (at_time 41 20)
        (at_time 42 21)
        12
        table
      ≡ rotated 14 7 first)
    × (rotate_refresh_token settings digest nobody_away
          (at_time 60 15)
          (at_time 41 20)
          (at_time 42 21)
          12
          first
        ≡ refused second)
    × (rotate_refresh_token settings digest nobody_away
          (at_time 61 16)
          (at_time 41 20)
          (at_time 42 21)
          14
          second
        ≡ refused third)
unfolding find
theft_ends_session_example =
    theft_ends_session settings digest nobody_away (at_time 40 14) (at_time 60 15) (at_time 61 16)
      (at_time 41 20) (at_time 42 21) 12 table current table-IsKeyed refl refl refl refl
      (record { live = refl; last = refl; lasts = omega arith }) (omega arith)

rotate_refresh_token-IsKept_example : IsKept 7 table (
    rotate_refresh_token settings digest nobody_away
      (at_time 25 14)
      (at_time 26 15)
      (at_time 27 16)
      11
      table)
rotate_refresh_token-IsKept_example =
    rotate_refresh_token-IsKept settings digest nobody_away (at_time 25 14) (at_time 26 15)
      (at_time 27 16) 11 7 table table-IsKeyed

logout_ends_sessions_example :
    (sessions 7 (revoke_user_refresh_tokens 24 7 table).0 ≡ 0)
    × (left : List Token) × (rotate_refresh_token settings digest nobody_away
          (at_time 25 14)
          (at_time 26 15)
          (at_time 27 16)
          11
          (revoke_user_refresh_tokens 24 7 table).0
        ≡ refused left)
unfolding find
logout_ends_sessions_example =
    logout_ends_sessions settings digest nobody_away (at_time 25 14) (at_time 26 15) (at_time 27 16)
      24 11 table old table-IsKeyed refl
