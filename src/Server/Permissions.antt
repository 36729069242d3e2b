-- ===== src/Server/Permissions.antt =====
-- Project roles: server core/permissions.py and the client's utils/roles.py.
pub mod Laws
mod Tests
use risk_opportunity_manager.Prelude.{
  ℕ, Bool, true, false, ◌&&◌, Option, none, some, List, [], ◌∷◌, if◌then◌else◌, ◌==◌, ltb, leb, not,
}

pub data Role : Type 0 where
  viewer member manager admin : Role

-- ROLE_RANK, the same table on both sides
abbrev pub role_rank : Role → ℕ
role_rank viewer = 1
role_rank member = 2
role_rank manager = 3
role_rank admin = 4

-- ROLE_RANK.get(role, default); `none` is a name that the table lacks
abbrev pub rank_or : Option Role → ℕ → ℕ
rank_or none d = d
rank_or (some r) d = role_rank r

-- ensure_role_at_least; false is the HTTPException 403
unfoldable pub ensure_role_at_least : Option Role → Option Role → Bool
ensure_role_at_least role min_role = not (ltb (rank_or role 0) (rank_or min_role 10000))

-- the client's role_at_least
unfoldable pub role_at_least : Option Role → Option Role → Bool
role_at_least role none = false
role_at_least role (some m) = leb (role_rank m) (rank_or role 0)

-- A row of project_members; `none` is a role text that is not in the table.
pub record Member : Type 0 where
  pub project_id : ℕ
  pub user_id : ℕ
  pub role : Option Role

-- What get_member_role returns: None, a text that is no role, or a role.
pub data MemberRole : Type 0 where
  absent : MemberRole
  unknown : MemberRole
  known : Role → MemberRole

abbrev pub of_column : Option Role → MemberRole
of_column none = unknown
of_column (some r) = known r

-- A superuser without a row is an admin.
unfoldable pub get_member_role : List Member → (ℕ → Bool) → ℕ → ℕ → MemberRole
get_member_role [] is_superuser p u = if is_superuser u then known admin else absent
get_member_role (m ∷ ms) is_superuser p u =
    let rest = get_member_role ms is_superuser p u in
    if m.project_id == p && m.user_id == u then of_column m.role else rest

abbrev allowed : Role → Bool → Option Role
allowed r true = some r
allowed r false = none

-- what require_min_role does with the role it finds; `none` is the HTTPException 403
unfoldable pub check_role : MemberRole → Role → Option Role
unfolding ensure_role_at_least
check_role absent min_role = none
check_role unknown min_role = none
check_role (known r) min_role = allowed r (ensure_role_at_least (some r) (some min_role))

unfoldable pub require_min_role : List Member → (ℕ → Bool) → ℕ → ℕ → Role → Option Role
unfolding get_member_role check_role
require_min_role ms is_superuser p u min_role =
    check_role (get_member_role ms is_superuser p u) min_role

unfoldable pub ensure_member : List Member → (ℕ → Bool) → ℕ → ℕ → Option Role
unfolding require_min_role
ensure_member ms is_superuser p u = require_min_role ms is_superuser p u viewer
