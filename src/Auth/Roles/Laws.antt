-- ===== src/Auth/Roles/Laws.antt =====
-- The two readers of a role agree, and read back the names that they produce.
use telecam.Prelude.{◌≡◌, refl, [], ◌∷◌, Option, none, some, arith}
use telecam.Text.{Text, text_eq}
use telecam.Json.Defs.{string, Engine}
use telecam.Auth.Roles.{
  UserRole, DashboardRole, super_admin, school_admin, technician, parent, role_name, canonical_role,
  normalize_user_role, normalize_dashboard_role,
}

abbrev pub to_dashboard : UserRole → Option DashboardRole
to_dashboard super_admin = some super_admin
to_dashboard school_admin = some school_admin
to_dashboard technician = some technician
to_dashboard parent = none

abbrev pub dashboard_role_of : Option UserRole → Option DashboardRole
dashboard_role_of none = none
dashboard_role_of (some r) = to_dashboard r

module _ {N : Type 0} (js : Engine N) where
  -- On every text the role reader of the permissions is the role reader of the session, less the
  -- parents.
  pub normalize_dashboard_role-eq :
      (s : Text)
      → normalize_dashboard_role js (some s) ≡ dashboard_role_of (normalize_user_role js (string s))
  unfolding normalize_dashboard_role normalize_user_role
  normalize_dashboard_role-eq [] = unfold text_eq canonical_role in refl
  normalize_dashboard_role-eq (c ∷ s) = ground arith

  -- Each role is read back from its own name.
  pub normalize_user_role-role_name :
      (r : UserRole) → normalize_user_role js (string (role_name r)) ≡ some r
  unfolding normalize_user_role canonical_role text_eq
  normalize_user_role-role_name super_admin = refl
  normalize_user_role-role_name _ = refl
