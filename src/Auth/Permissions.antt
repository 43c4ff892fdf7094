-- ===== src/Auth/Permissions.antt =====
-- Permissions of the dashboard roles: admin-dashboard/lib/auth/permissions.ts and
-- admin-dashboard/hooks/use-permissions.ts.
pub mod Laws
mod Tests
use telecam.Prelude.{
  Bool, true, false, ◌&&◌, List, [], ◌∷◌, Option, none, some, ltb, length, any, all,
}
use telecam.Text.{Text}
use telecam.Json.Defs.{Engine}
use telecam.Auth.Roles.{
  DashboardRole, super_admin, school_admin, technician, normalize_dashboard_role,
}
use mathlib.Core.Logic.{ite}

pub data Permission : Type 0 where
  dashboard_view camera_monitoring_view alerts_view alerts_manage cameras_view cameras_create
        cameras_update schools_view schools_create schools_update school_admins_manage
        revenue_share_view revenue_share_manage classrooms_view classrooms_create classrooms_update
        children_view children_create children_update parents_view parents_create
        parents_link_children billing_view billing_manage audit_logs_view system_view settings_view
        users_view users_create users_update users_reset_password users_change_role users_disable
        auth_change_own_password :
      Permission

unfoldable pub Permission-discrete : Discrete Permission
Permission-discrete = hlevel

-- `ROLE_PERMISSIONS`
unfoldable pub role_permissions : DashboardRole → List Permission
role_permissions super_admin =
    dashboard_view ∷ camera_monitoring_view ∷ alerts_view ∷ alerts_manage ∷ cameras_view
    ∷ cameras_create ∷ cameras_update ∷ schools_view ∷ schools_create ∷ schools_update
    ∷ school_admins_manage ∷ revenue_share_view ∷ revenue_share_manage ∷ classrooms_view
    ∷ classrooms_create ∷ classrooms_update ∷ children_view ∷ children_create ∷ children_update
    ∷ parents_view ∷ parents_create ∷ parents_link_children ∷ billing_view ∷ billing_manage
    ∷ audit_logs_view ∷ system_view ∷ settings_view ∷ users_view ∷ users_create ∷ users_update
    ∷ users_reset_password ∷ users_change_role ∷ users_disable ∷ auth_change_own_password ∷ []
role_permissions school_admin =
    dashboard_view ∷ camera_monitoring_view ∷ alerts_view ∷ alerts_manage ∷ cameras_view
    ∷ cameras_create ∷ cameras_update ∷ schools_view ∷ schools_update ∷ revenue_share_view
    ∷ classrooms_view ∷ classrooms_create ∷ classrooms_update ∷ children_view ∷ children_create
    ∷ children_update ∷ parents_view ∷ parents_create ∷ parents_link_children ∷ billing_view
    ∷ billing_manage ∷ audit_logs_view ∷ auth_change_own_password ∷ []
role_permissions technician =
    dashboard_view ∷ camera_monitoring_view ∷ alerts_view ∷ alerts_manage ∷ cameras_view
    ∷ system_view ∷ auth_change_own_password ∷ []

-- `set.has(p)`
unfoldable pub contains : Permission → List Permission → Bool
unfolding Permission-discrete
contains p [] = false
contains p (q ∷ qs) = let rest = contains p qs in ite (Permission-discrete q p) true rest

module _ {N : Type 0} (js : Engine N) where
  unfoldable pub get_permissions_for_role : Option Text → List Permission
  unfolding role_permissions
  get_permissions_for_role role = elim (normalize_dashboard_role js role) [
    | none ↦ []
    | some r ↦ role_permissions r
  ]

  unfoldable pub has_permission : Option Text → Permission → Bool
  unfolding role_permissions contains
  has_permission role p = elim (normalize_dashboard_role js role) [
    | none ↦ false
    | some r ↦ contains p (role_permissions r)
  ]

  unfoldable pub has_any_permission : Option Text → List Permission → Bool
  has_any_permission role ps = any (has_permission role) ps

  unfoldable pub has_all_permissions : Option Text → List Permission → Bool
  has_all_permissions role ps = ltb 0 (length ps) && all (has_permission role) ps
