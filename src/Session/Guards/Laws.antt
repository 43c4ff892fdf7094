-- ===== src/Session/Guards/Laws.antt =====
-- Who gets behind the guards, and that nobody is sent in circles.
use telecam.Prelude.{
  ◌≡◌, refl, ◌≢◌, ◌⊎◌, inl, inr, true, false, some, arith, Option-cases, Bool-cases, if◌then◌else◌,
}
use telecam.Text.{Text, text_eq}
use telecam.Json.Defs.{Engine}
use telecam.Auth.Roles.{active, parent, role_name}
use telecam.Auth.Users.{AuthUser}
use telecam.Auth.Permissions.{Permission, has_permission}
use telecam.Auth.Routes.{get_route_permission, is_protected_path}
use telecam.Auth.Routes.Laws.{get_route_permission_of_protected}
use telecam.Session.World.{World, Env}
use telecam.Session.Provider.{replace, is_authenticated}
use telecam.Session.Invariant.{IsConsistent}
use telecam.Session.Reach.{Reach, Reach-IsAdmitted}
use telecam.Session.Guards.{
  nothing, the_children, login_path, dashboard_path, change_password_path, must_change_password,
  is_change_password_route, is_held, require_auth_effect, require_auth_shows, guest_only_effect,
  require_permission_shows,
}

shown-is_authenticated :
    (path : Text) (w : World) → require_auth_shows path w ≡ the_children → is_authenticated w ≡ true
unfolding require_auth_shows
shown-is_authenticated path w h = elim (Bool-cases (is_authenticated w)) [
  | inl e ↦ e
  | inr e ↦ ground arith
]

-- On a page that needs a session, when nothing is loading, RequireAuth either shows the page and
-- stays, or shows nothing and sends the browser to the sign-in page or to the page that changes
-- the password.
pub require_auth-decides :
    (path : Text) (w : World)
    → w.is_loading ≡ false
    → is_protected_path path ≡ true
    → ((require_auth_shows path w ≡ the_children) × (require_auth_effect path w ≡ w))
      ⊎ ((require_auth_shows path w ≡ nothing)
          × ((require_auth_effect path w ≡ replace login_path w)
              ⊎ (require_auth_effect path w ≡ replace change_password_path w)))
unfolding require_auth_shows require_auth_effect
require_auth-decides path w l p = elim (Bool-cases (is_authenticated w)) [
  | inl e ↦ elim (Bool-cases (is_held w path)) [
    | inl h ↦ inr (ground arith, inr (ground arith))
    | inr h ↦ inl (ground arith, ground arith)
  ]
  | inr e ↦ inr (ground arith, inl (ground arith))
]

-- The page that `GuestOnly` sends a signed-in user to.
abbrev pub landing : World → Text
landing w = if must_change_password w then change_password_path else dashboard_path

landing-not_held : (w : World) → is_held w (landing w) ≡ false
unfolding is_held
landing-not_held w = elim (Bool-cases (must_change_password w)) [
  | inl e ↦
      let there : landing w ≡ change_password_path = rw e in
      let done : is_change_password_route (landing w) ≡ true =
        rw there (unfold is_change_password_route text_eq in refl) in
      ground arith
  | inr e ↦ ground arith
]

-- When nothing is loading, a signed-in user on a guest page is sent to a page that RequireAuth
-- shows and does not leave again, whether or not the password must be changed.
pub guest_only-lands :
    (w : World)
    → w.is_loading ≡ false
    → is_authenticated w ≡ true
    → (guest_only_effect w ≡ replace (landing w) w)
      × ((require_auth_shows (landing w) w ≡ the_children)
          × (require_auth_effect (landing w) w ≡ w))
unfolding guest_only_effect require_auth_shows require_auth_effect
guest_only-lands w l a =
    let free = landing-not_held w in (ground arith, (ground arith, ground arith))

module _ {N : Type 0} (env : Env N) (js : Engine N) where
  permitted :
      (path : Text) (v : World) (u : AuthUser) (p : Permission)
      → v.user ≡ some u
      → get_route_permission path ≡ some p
      → require_auth_shows path v ≡ the_children
      → require_permission_shows js path v ≡ the_children
      → has_permission js (some (role_name u.role)) p ≡ true
  unfolding require_auth_shows require_permission_shows
  permitted path v u p e needed shown allowed = ground arith

  -- Whenever, after any sequence of steps from a consistent session, both guards show a page that
  -- needs a session, there is an active user whose role is not parent and holds the permission of
  -- the page.
  pub Reach-guarded :
      {w v : World} (path : Text)
      → IsConsistent w
      → Reach env w v
      → is_protected_path path ≡ true
      → require_auth_shows path v ≡ the_children
      → require_permission_shows js path v ≡ the_children
      → (u : AuthUser) × (v.user ≡ some u)
        × (u.status ≡ active)
        × (u.role ≢ parent)
        × ((p : Permission) × (get_route_permission path ≡ some p)
            × (has_permission js (some (role_name u.role)) p ≡ true))
  Reach-guarded {v} path c r protected shown allowed =
      let (u, e, s, n) = Reach-IsAdmitted env c r (shown-is_authenticated path v shown) in
      elim (Option-cases (get_route_permission path)) [
        | inl none_needed ↦ absurd (get_route_permission_of_protected path protected none_needed)
        | inr (p, needed) ↦ (u, e, s, n, (p, needed, permitted path v u p e needed shown allowed))
      ]
