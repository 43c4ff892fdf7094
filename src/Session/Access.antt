-- ===== src/Session/Access.antt =====
-- Who passes `assertDashboardAccess`.
use telecam.Prelude.{◌≡◌, refl, ◌≢◌, ◌⊎◌, inl, inr}
use telecam.Text.{text_eq}
use telecam.Auth.Roles.{
  UserRole, UserStatus, active, blocked, disabled, super_admin, school_admin, technician, parent,
  normalize_dashboard_role, canonical_role, role_name, status_name, dashboard_role_name,
}
use telecam.Auth.Users.{AuthUser}
use telecam.Session.World.{World, Env, returned, thrown}
use telecam.Session.Requests.{assert_dashboard_access, denied}

abbrev pub IsAdmitted : AuthUser → Type 0
IsAdmitted u = (u.status ≡ active) × (u.role ≢ parent)

module _ {N : Type 0} (env : Env N) (w : World) where
  assert_by_role :
      (u : AuthUser) (status : UserStatus) (role : UserRole)
      → u.status ≡ status
      → u.role ≡ role
      → ((assert_dashboard_access env u w ≡ returned tt w) × IsAdmitted u)
        ⊎ ((assert_dashboard_access env u w ≡ thrown (denied env) w) × ¬ (IsAdmitted u))
  unfolding assert_dashboard_access normalize_dashboard_role canonical_role text_eq role_name
      status_name dashboard_role_name
  assert_by_role u active super_admin e f = inl (rw (e, f, assert_dashboard_access), (e, λ g. cc))
  assert_by_role u active school_admin e f = inl (rw (e, f, assert_dashboard_access), (e, λ g. cc))
  assert_by_role u active technician e f = inl (rw (e, f, assert_dashboard_access), (e, λ g. cc))
  assert_by_role u active parent e f = inr (rw (e, f, assert_dashboard_access), λ a. absurd (a.1 f))
  assert_by_role u blocked role e f = inr (rw (e, assert_dashboard_access), λ a. cc)
  assert_by_role u disabled role e f = inr (rw (e, assert_dashboard_access), λ a. cc)

  -- assertDashboardAccess lets active users whose role is not parent through, turns all others
  -- away with a 403, and leaves the world as it is.
  pub assert_dashboard_access_cases :
      (u : AuthUser)
      → ((assert_dashboard_access env u w ≡ returned tt w) × IsAdmitted u)
        ⊎ ((assert_dashboard_access env u w ≡ thrown (denied env) w) × ¬ (IsAdmitted u))
  assert_dashboard_access_cases u = assert_by_role u u.status u.role refl refl
