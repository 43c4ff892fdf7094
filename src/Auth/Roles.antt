-- ===== src/Auth/Roles.antt =====
-- Roles and account states, and how they are read from text:
-- admin-dashboard/lib/auth/types.ts, session-store.ts and permissions.ts.
pub mod Laws
use telecam.Prelude.{Bool, true, false, List, [], ◌∷◌, Option, none, some, if◌then◌else◌}
use telecam.Text.{Text, text, text_eq, trim, replace_dashes, replace_spaces, is_empty}
use telecam.Json.Defs.{Json, string, Engine}
use telecam.Json.Case.{upper}

pub data UserRole : Type 0 where
  super_admin school_admin technician parent : UserRole

pub data UserStatus : Type 0 where
  active blocked disabled : UserStatus

pub data DashboardRole : Type 0 where
  super_admin school_admin technician : DashboardRole

-- The string that a role is in the source.
unfoldable pub role_name : UserRole → Text
role_name super_admin = text "SUPER_ADMIN"
role_name school_admin = text "SCHOOL_ADMIN"
role_name technician = text "TECHNICIAN"
role_name parent = text "PARENT"

unfoldable pub status_name : UserStatus → Text
status_name active = text "ACTIVE"
status_name blocked = text "BLOCKED"
status_name disabled = text "DISABLED"

unfoldable pub dashboard_role_name : DashboardRole → Text
dashboard_role_name super_admin = text "SUPER_ADMIN"
dashboard_role_name school_admin = text "SCHOOL_ADMIN"
dashboard_role_name technician = text "TECHNICIAN"

abbrev pub valid_roles : List UserRole
valid_roles = super_admin ∷ school_admin ∷ technician ∷ parent ∷ []

abbrev pub valid_statuses : List UserStatus
valid_statuses = active ∷ blocked ∷ disabled ∷ []

abbrev pub dashboard_roles : List DashboardRole
dashboard_roles = super_admin ∷ school_admin ∷ technician ∷ []

-- `if (LIST.includes(s)) return s as T; return null`, for a list of named values
unfoldable pub find_named {ℓ} : {A : Type ℓ} → (A → Text) → List A → Text → Option A
find_named name [] s = none
find_named name (a ∷ as') s = if text_eq s (name a) then some a else find_named name as' s

module _ {N : Type 0} (js : Engine N) where
  -- `s.trim().toUpperCase().replace(/-/g, "_").replace(/\s+/g, "_")`
  unfoldable pub canonical_role : Text → Text
  unfolding trim upper replace_dashes replace_spaces
  canonical_role s = replace_spaces (replace_dashes (upper js (trim s)))

  unfoldable pub normalize_role_text : Text → Option UserRole
  unfolding find_named role_name
  normalize_role_text s =
      if text_eq (canonical_role s) (text "SUPERADMIN")
      then some super_admin
      else if text_eq (canonical_role s) (text "SCHOOLADMIN")
      then some school_admin
      else find_named role_name valid_roles (canonical_role s)

  -- `normalizeUserRole` of session-store.ts
  unfoldable pub normalize_user_role : Json N → Option UserRole
  unfolding normalize_role_text
  normalize_user_role (string s) = normalize_role_text s
  normalize_user_role v = none

  -- `normalizeUserStatus`: what is not a known state counts as active.
  unfoldable pub normalize_user_status : Json N → UserStatus
  unfolding find_named status_name trim upper
  normalize_user_status (string s) =
      elim (find_named status_name valid_statuses (upper js (trim s))) [
        | none ↦ active
        | some status ↦ status
      ]
  normalize_user_status v = active

  -- `normalizeDashboardRole` of permissions.ts
  unfoldable pub normalize_dashboard_role : Option Text → Option DashboardRole
  unfolding find_named dashboard_role_name
  normalize_dashboard_role none = none
  normalize_dashboard_role (some s) =
      if is_empty s
      then none
      else if text_eq (canonical_role s) (text "SUPERADMIN")
      then some super_admin
      else if text_eq (canonical_role s) (text "SCHOOLADMIN")
      then some school_admin
      else find_named dashboard_role_name dashboard_roles (canonical_role s)

  unfoldable pub is_dashboard_role : Option Text → Bool
  unfolding normalize_dashboard_role
  is_dashboard_role role = elim (normalize_dashboard_role role) [ none ↦ false | some r ↦ true ]
