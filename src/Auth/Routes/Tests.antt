-- ===== src/Auth/Routes/Tests.antt =====
-- Pages at concrete paths.
use telecam.Prelude.{◌≡◌, ◌≢◌, refl, none, some, true}
use telecam.Text.{text, text_eq, before}
use telecam.Auth.Permissions.{parents_create, users_view}
use telecam.Auth.Routes.{
  get_route_permission, is_protected_path, matches, route_permissions, special_route_permissions,
  protected_route_prefixes,
}
use telecam.Auth.Routes.Laws.{get_route_permission_of_protected}

protected_user : is_protected_path (text "/users/7?tab=1") ≡ true
unfolding is_protected_path protected_route_prefixes text_eq
protected_user = refl

permissions_of_pages :
    (get_route_permission (text "/parents/new/") ≡ some parents_create)
    × (get_route_permission (text "/users/7?tab=1") ≡ some users_view)
    × (get_route_permission (text "/login") ≡ none)
unfolding get_route_permission route_permissions special_route_permissions matches before text_eq
permissions_of_pages = (refl, refl, refl)

get_route_permission_of_protected_example : get_route_permission (text "/users/7?tab=1") ≢ none
get_route_permission_of_protected_example =
    get_route_permission_of_protected (text "/users/7?tab=1") protected_user
