-- ===== src/Session/Guards/Tests.antt =====
-- The guards, for a school admin who must change the password.
use telecam.Prelude.{ℕ, ◌≡◌, ◌≢◌, ◌⊎◌, refl, true, false, none, some, []}
use telecam.Text.{Text, text, text_eq, before}
use telecam.Json.Examples.{small_engine}
use telecam.Auth.Roles.{
  active, parent, school_admin, role_name, normalize_dashboard_role, canonical_role,
}
use telecam.Auth.Users.{AuthUser}
use telecam.Auth.Permissions.{Permission, has_permission}
use telecam.Auth.Routes.{
  get_route_permission, is_protected_path, protected_route_prefixes, route_permissions,
  special_route_permissions, matches,
}
use telecam.Session.World.{World, Env}
use telecam.Session.Provider.{replace, is_authenticated}
use telecam.Session.Invariant.{IsConsistent}
use telecam.Session.Reach.{here}
use telecam.Session.Guards.{
  nothing, the_children, login_path, change_password_path, is_held, is_change_password_route,
  require_auth_effect, require_auth_shows, guest_only_effect, require_permission_shows,
}
use telecam.Session.Guards.Laws.{Reach-guarded, require_auth-decides, guest_only-lands, landing}

abbrev quiet : Env ℕ
quiet = record {
  js = small_engine;
  server = λ sent request. none;
  api_base_url = [];
  app_name = [];
  fresh_fingerprint = λ sent. [];
}

abbrev member : AuthUser
member = record {
  id = text "u1";
  email = text "a@b.c";
  role = school_admin;
  status = active;
  name = none;
  force_password_change = true;
}

abbrev inside : World
inside = record {
  access_token = some (text "t1");
  registered = true;
  storage_available = true;
  stored_refresh_token = some (text "r1");
  stored_user = none;
  stored_fingerprint = none;
  user = some member;
  access_token_state = some (text "t1");
  refresh_token_state = some (text "r1");
  is_loading = false;
  requests = [];
  replaced = [];
}

inside-IsConsistent : IsConsistent inside
inside-IsConsistent = record {
  tokens_agree = refl;
  user_of_token = λ h e. cc;
  token_of_user = λ h e. cc;
  admitted = λ u e. let same : member ≡ u = cc in rw (← same) (refl, λ g. cc);
}

abbrev page : Text
page = text "/change-password/"

page-protected : is_protected_path page ≡ true
unfolding is_protected_path protected_route_prefixes text_eq
page-protected = refl

page-shown : require_auth_shows page inside ≡ the_children
unfolding require_auth_shows is_authenticated is_held is_protected_path protected_route_prefixes
    is_change_password_route text_eq
page-shown = refl

page-permitted : require_permission_shows small_engine page inside ≡ the_children
unfolding require_permission_shows get_route_permission has_permission normalize_dashboard_role
    canonical_role route_permissions special_route_permissions matches text_eq role_name before
page-permitted = refl

Reach-guarded_example :
    (u : AuthUser) × (inside.user ≡ some u)
    × (u.status ≡ active)
    × (u.role ≢ parent)
    × ((p : Permission) × (get_route_permission page ≡ some p)
        × (has_permission small_engine (some (role_name u.role)) p ≡ true))
Reach-guarded_example =
    Reach-guarded quiet small_engine page inside-IsConsistent here page-protected page-shown
      page-permitted

require_auth-decides_example :
    ((require_auth_shows page inside ≡ the_children) × (require_auth_effect page inside ≡ inside))
    ⊎ ((require_auth_shows page inside ≡ nothing)
        × ((require_auth_effect page inside ≡ replace login_path inside)
            ⊎ (require_auth_effect page inside ≡ replace change_password_path inside)))
require_auth-decides_example = require_auth-decides page inside refl page-protected

guest_only-lands_example :
    (guest_only_effect inside ≡ replace (landing inside) inside)
    × ((require_auth_shows (landing inside) inside ≡ the_children)
        × (require_auth_effect (landing inside) inside ≡ inside))
guest_only-lands_example = guest_only-lands inside refl (unfold is_authenticated in refl)
