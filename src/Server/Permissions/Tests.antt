-- ===== src/Server/Permissions/Tests.antt =====
-- The role checks on a small project.
use risk_opportunity_manager.Prelude.{◌≡◌, ◌≤◌, ◌↔◌, arith, count, false, some, List, [], ◌∷◌}
use risk_opportunity_manager.Server.Permissions.{
  member, manager, role_rank, Member, require_min_role,
}
use risk_opportunity_manager.Server.Permissions.Laws.{HasRole, require_min_role_iff}

abbrev project : List Member
project =
    record { project_id = 7; user_id = 1; role = some member }
    ∷ record { project_id = 7; user_id = 2; role = some manager }
    ∷ []

require_min_role_iff_example :
    (require_min_role project (λ u. false) 7 2 member ≡ some manager)
    ↔ (HasRole project (λ u. false) 7 2 manager × (role_rank member ≤ role_rank manager))
unfolding count
require_min_role_iff_example =
    require_min_role_iff project (λ u. false) 7 2 member manager (omega arith)
