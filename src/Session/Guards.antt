-- ===== src/Session/Guards.antt =====
-- Which part of a page is shown, and where the browser is sent: `RequireAuth` and `GuestOnly` of
-- admin-dashboard/lib/auth/guards.tsx and
-- admin-dashboard/components/auth/RequirePermission.tsx.
pub mod Laws
mod Tests
use telecam.Prelude.{Bool, true, false, not, ◌&&◌, ◌||◌, ◌++◌, Option, none, some, if◌then◌else◌}
use telecam.Text.{Text, text, text_eq, starts_with}
use telecam.Json.Defs.{Engine}
use telecam.Auth.Roles.{role_name}
use telecam.Auth.Users.{AuthUser}
use telecam.Auth.Permissions.{has_permission}
use telecam.Auth.Routes.{get_route_permission, is_protected_path}
use telecam.Session.World.{World}
use telecam.Session.Provider.{replace, is_authenticated}

-- What a guard renders.
pub data Shown : Type 0 where
  session_loading nothing access_denied the_children : Shown

-- `publicRoutes`
abbrev pub login_path : Text
login_path = text "/login"

abbrev pub dashboard_path : Text
dashboard_path = text "/dashboard"

abbrev pub change_password_path : Text
change_password_path = text "/change-password"

-- `user?.force_password_change === true`
abbrev pub must_change_password : World → Bool
must_change_password w = elim w.user [ none ↦ false | some u ↦ u.force_password_change ]

unfoldable pub is_change_password_route : Text → Bool
unfolding text_eq starts_with
is_change_password_route pathname =
    text_eq pathname change_password_path || starts_with pathname (change_password_path ++ text "/")

-- A user who must change the password, on a page where that is not done.
unfoldable pub is_held : World → Text → Bool
is_held w pathname =
    must_change_password w
    && (is_protected_path pathname && not (is_change_password_route pathname))

-- The effect of `RequireAuth`.
unfoldable pub require_auth_effect : Text → World → World
require_auth_effect pathname w =
    if w.is_loading
    then w
    else if not (is_authenticated w) && is_protected_path pathname
    then replace login_path w
    else if is_authenticated w && is_held w pathname
    then replace change_password_path w
    else w

unfoldable pub require_auth_shows : Text → World → Shown
require_auth_shows pathname w =
    if w.is_loading
    then session_loading
    else if not (is_authenticated w)
    then nothing
    else if is_held w pathname
    then nothing
    else the_children

-- The effect of `GuestOnly`.
unfoldable pub guest_only_effect : World → World
guest_only_effect w =
    if not w.is_loading && is_authenticated w
    then replace (if must_change_password w then change_password_path else dashboard_path) w
    else w

unfoldable pub guest_only_shows : World → Shown
guest_only_shows w =
    if w.is_loading then session_loading else if is_authenticated w then nothing else the_children

-- `user?.role`
abbrev pub role_of : World → Option Text
role_of w = elim w.user [ none ↦ none | some u ↦ some (role_name u.role) ]

module _ {N : Type 0} (js : Engine N) where
  unfoldable pub require_permission_shows : Text → World → Shown
  unfolding get_route_permission has_permission
  require_permission_shows pathname w =
      if w.is_loading then nothing else elim (get_route_permission pathname) [
        | none ↦ the_children
        | some required ↦
            if has_permission js (role_of w) required then the_children else access_denied
      ]
