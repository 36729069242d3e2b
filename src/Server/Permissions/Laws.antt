-- ===== src/Server/Permissions/Laws.antt =====
-- What the role checks of server core/permissions.py and client utils/roles.py let pass.
use risk_opportunity_manager.Prelude.{
  ℕ, ◌≡◌, ◌≤◌, ◌↔◌, ◌⊎◌, ◌==◌, ==_refl, ◌&&◌, ◌∷◌, [], true, count, Any, refl, Bool, Option, none,
  some, List, arith, Bool-cases, leb, inl, inr,
}
use risk_opportunity_manager.Server.Permissions.{
  Role, viewer, member, manager, admin, role_rank, ensure_role_at_least, role_at_least, Member,
  MemberRole, absent, unknown, known, of_column, check_role, get_member_role, require_min_role,
}

-- The client's role test and the server's agree on every pair of role texts, on those that the
-- table lacks too.
pub role_at_least_agrees :
    (role min_role : Option Role) → role_at_least role min_role ≡ ensure_role_at_least role min_role
unfolding role_at_least ensure_role_at_least
role_at_least_agrees none none = refl
role_at_least_agrees (some viewer) none = refl
role_at_least_agrees (some member) none = refl
role_at_least_agrees (some manager) none = refl
role_at_least_agrees (some admin) none = refl
role_at_least_agrees role (some m) = ground arith

check_role_iff :
    (found : MemberRole) (min_role r : Role)
    → (check_role found min_role ≡ some r)
      ↔ ((found ≡ known r) × (role_rank min_role ≤ role_rank r))
unfolding check_role ensure_role_at_least
check_role_iff absent min_role r = grind arith
check_role_iff unknown min_role r = grind arith
check_role_iff (known q) min_role r = elim (Bool-cases (leb (role_rank min_role) (role_rank q))) [
  | inl h ↦ grind (arith, h)
  | inr h ↦ grind (arith, h)
]

-- a row of a user in a project
abbrev pub is_row : ℕ → ℕ → Member → Bool
is_row p u m = m.project_id == p && m.user_id == u

-- Some row of the table gives the user the role r in the project.
abbrev pub IsMemberAs : List Member → ℕ → ℕ → Role → Type 0
IsMemberAs ms p u r =
    Any (λ (m : Member). (m.project_id ≡ p) × (m.user_id ≡ u) × (m.role ≡ some r)) ms

-- The user has the role r: from a row, or as a superuser who has no row, and is an admin.
abbrev pub HasRole : List Member → (ℕ → Bool) → ℕ → ℕ → Role → Type 0
HasRole ms is_superuser p u r =
    IsMemberAs ms p u r ⊎ ((count (is_row p u) ms ≡ 0) × (is_superuser u ≡ true) × (r ≡ admin))

row_absent :
    (ms : List Member) (p u : ℕ) (r : Role) → count (is_row p u) ms ≡ 0 → IsMemberAs ms p u r → ⊥
unfolding count
row_absent [] p u r h none_there = none_there
row_absent (m ∷ ms) p u r h (inl (own, mine, role)) = ground (arith, h, own, mine)
row_absent (m ∷ ms) p u r h (inr later) = row_absent ms p u r (ground (arith, h)) later

role_found :
    (ms : List Member) (is_superuser : ℕ → Bool) (p u : ℕ) (r : Role)
    → get_member_role ms is_superuser p u ≡ known r
    → HasRole ms is_superuser p u r
unfolding get_member_role count
role_found [] is_superuser p u r h = inr (refl, ground (arith, h), ground (arith, h))
role_found (m ∷ ms) is_superuser p u r h = elim (Bool-cases (is_row p u m)) [
  | inl here ↦
      inl
        (inl (ground (arith, here), ground (arith, here), column (rw (here, get_member_role) at h)))
  | inr past ↦ elim (role_found ms is_superuser p u r (rw (past, get_member_role) at h)) [
    | inl later ↦ inl (inr later)
    | inr (none_left, super, top) ↦ inr (ground (arith, past, none_left), super, top)
  ]
]
  where
    column : of_column m.role ≡ known r → m.role ≡ some r
    column h = ground (arith, h)

role_of_row :
    (ms : List Member) (is_superuser : ℕ → Bool) (p u : ℕ) (r : Role)
    → count (is_row p u) ms ≤ 1
    → HasRole ms is_superuser p u r
    → get_member_role ms is_superuser p u ≡ known r
unfolding get_member_role count
role_of_row [] is_superuser p u r one (inl none_there) = absurd none_there
role_of_row [] is_superuser p u r one (inr (_, super, top)) = ground (arith, super, top)
role_of_row (m ∷ ms) is_superuser p u r one (inl (inl (own, mine, role))) =
    rw (own, mine, role, ==_refl p, ==_refl u) refl
role_of_row (m ∷ ms) is_superuser p u r one (inl (inr later)) = elim (Bool-cases (is_row p u m)) [
  | inl here ↦ absurd (row_absent ms p u r (ground (arith, one, here)) later)
  | inr past ↦
      rw (past, get_member_role)
        (role_of_row ms is_superuser p u r (ground (arith, one, past)) (inl later))
]
role_of_row (m ∷ ms) is_superuser p u r one (inr (absent_row, super, top)) =
    elim (Bool-cases (is_row p u m)) [
      | inl here ↦ absurd (ground (arith, absent_row, here))
      | inr past ↦
          rw (past, get_member_role)
            (role_of_row ms is_superuser p u r (ground (arith, one, past))
              (inr (ground (arith, absent_row, past), super, top)))
    ]

-- The role check of a request passes, and returns the role r, exactly when r ranks at least as high
-- as the role asked for, and either a row of the user in the project names r, or the user has no
-- row there, is a superuser, and r is admin; if the user has at most one row in the project.
pub require_min_role_iff :
    (ms : List Member) (is_superuser : ℕ → Bool) (p u : ℕ) (min_role r : Role)
    → count (is_row p u) ms ≤ 1
    → (require_min_role ms is_superuser p u min_role ≡ some r)
      ↔ (HasRole ms is_superuser p u r × (role_rank min_role ≤ role_rank r))
unfolding require_min_role
require_min_role_iff ms is_superuser p u min_role r one =
    let (passes, ranks) = check_role_iff (get_member_role ms is_superuser p u) min_role r in
    (
      λ h. (role_found ms is_superuser p u r (passes h).0, (passes h).1),
      λ (has, enough). ranks (role_of_row ms is_superuser p u r one has, enough),
    )
