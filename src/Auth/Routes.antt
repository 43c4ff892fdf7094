-- ===== src/Auth/Routes.antt =====
-- Which permission a page needs, and which pages need a session:
-- admin-dashboard/lib/auth/page-permissions.ts and admin-dashboard/lib/routes.ts.
pub mod Laws
mod Tests
use telecam.Prelude.{
  Bool, true, false, not, ◌&&◌, ◌||◌, List, [], ◌∷◌, ◌++◌, Option, none, some, if◌then◌else◌, any,
  map, ◌==◌, String,
}
use telecam.Text.{Text, text, text_eq, starts_with, before, is_empty}
use telecam.Auth.Permissions.{
  Permission, dashboard_view, camera_monitoring_view, alerts_view, cameras_view, schools_view,
  schools_create, schools_update, parents_view, parents_create, children_view, billing_view,
  audit_logs_view, system_view, settings_view, users_view, users_create, auth_change_own_password,
}

-- The regular expressions of the two tables: `^P`, `^P\/?$` and `^P[^/]+Q\/?$`.
pub data Pattern : Type 0 where
  starting : Text → Pattern
  exactly : Text → Pattern
  around : Text → Text → Pattern

-- What is left of a text behind a prefix.
unfoldable pub strip_prefix : Text → Text → Option Text
strip_prefix s [] = some s
strip_prefix [] (d ∷ p) = none
strip_prefix (c ∷ s) (d ∷ p) = let rest = strip_prefix s p in if c == d then rest else none

-- What is left of a text from the first slash on.
unfoldable pub from_slash : Text → Text
from_slash [] = []
from_slash (c ∷ s) = let rest = from_slash s in if c == b'/' then c ∷ s else rest

-- `^P\/?$`
unfoldable pub is_exactly : Text → Text → Bool
is_exactly p s = text_eq s p || text_eq s (p ++ text "/")

-- `pattern.test(s)`. A segment `[^/]+` ends at the next slash, for `Q` begins with one.
unfoldable pub matches : Pattern → Text → Bool
unfolding strip_prefix from_slash is_exactly starts_with
matches (starting p) s = starts_with s p
matches (exactly p) s = is_exactly p s
matches (around p q) s = elim (strip_prefix s p) [
  | none ↦ false
  | some rest ↦ not (is_empty (before b'/' rest)) && is_exactly q (from_slash rest)
]

pub record Route : Type 0 where
  pub pattern : Pattern
  pub permission : Permission

abbrev route : Pattern → Permission → Route
route pattern permission = record { pattern = pattern; permission = permission }

unfoldable pub route_permissions : List Route
route_permissions =
    route (starting (text "/dashboard")) dashboard_view
    ∷ route (starting (text "/camera-monitoring")) camera_monitoring_view
    ∷ route (starting (text "/monitoring")) camera_monitoring_view
    ∷ route (starting (text "/alerts")) alerts_view
    ∷ route (starting (text "/cameras")) cameras_view
    ∷ route (starting (text "/schools")) schools_view
    ∷ route (starting (text "/parents")) parents_view
    ∷ route (starting (text "/children")) children_view
    ∷ route (starting (text "/billing")) billing_view
    ∷ route (starting (text "/audit-logs")) audit_logs_view
    ∷ route (starting (text "/system")) system_view
    ∷ route (starting (text "/settings")) settings_view
    ∷ route (starting (text "/users")) users_view
    ∷ route (starting (text "/change-password")) auth_change_own_password
    ∷ []

unfoldable pub special_route_permissions : List Route
special_route_permissions =
    route (exactly (text "/schools/new")) schools_create
    ∷ route (around (text "/schools/") (text "/edit")) schools_update
    ∷ route (exactly (text "/parents/new")) parents_create
    ∷ route (exactly (text "/users/new")) users_create
    ∷ route (exactly (text "/settings/security")) auth_change_own_password
    ∷ []

-- One of the two loops: the permission of the first route that matches.
unfoldable pub first_match : List Route → Text → Option Permission
first_match [] path = none
first_match (r ∷ rs) path =
    let rest = first_match rs path in if matches r.pattern path then some r.permission else rest

unfoldable pub get_route_permission : Text → Option Permission
unfolding first_match
get_route_permission pathname =
    let path = before b'?' pathname in
    elim (first_match special_route_permissions path) [
      | some p ↦ some p
      | none ↦ first_match route_permissions path
    ]

-- `protectedRoutePrefixes`
unfoldable pub protected_route_prefixes : List Text
protected_route_prefixes = map text (
    "/dashboard" ∷ "/camera-monitoring" ∷ "/monitoring" ∷ "/alerts" ∷ "/cameras" ∷ "/schools"
    ∷ "/parents" ∷ "/children" ∷ "/billing" ∷ "/audit-logs" ∷ "/system" ∷ "/settings" ∷ "/users"
    ∷ "/change-password" ∷ [])

unfoldable pub is_protected_path : Text → Bool
unfolding starts_with
is_protected_path pathname =
    any (λ prefix. text_eq pathname prefix || starts_with pathname (prefix ++ text "/"))
      protected_route_prefixes

-- The entries of the navigation, without their icons.
pub record NavItem : Type 0 where
  pub title : Text
  pub href : Text
  pub enabled : Bool
  pub permission : Permission

abbrev item : String → String → Bool → Permission → NavItem
item title href enabled permission = record {
  title = text title;
  href = text href;
  enabled = enabled;
  permission = permission;
}

unfoldable pub main_nav_items : List NavItem
main_nav_items =
    item "Dashboard" "/dashboard" true dashboard_view
    ∷ item "Camera Monitoring" "/camera-monitoring" true camera_monitoring_view
    ∷ item "Alerts" "/alerts" true alerts_view
    ∷ item "Cameras" "/cameras" true cameras_view
    ∷ item "Schools" "/schools" true schools_view
    ∷ item "Users" "/users" true users_view
    ∷ item "Parents" "/parents" true parents_view
    ∷ item "Children" "/children" false children_view
    ∷ item "Billing" "/billing/subscriptions" true billing_view
    ∷ item "Audit Logs" "/audit-logs" true audit_logs_view
    ∷ item "System" "/system" true system_view
    ∷ item "Settings" "/settings" false settings_view
    ∷ []
