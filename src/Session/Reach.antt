-- ===== src/Session/Reach.antt =====
-- What can happen to the session, in any order: the operations of the provider, its handlers, its
-- refresh interval, and the requests of the pages. Each runs to its end before the next.
use telecam.Prelude.{◌≡◌, refl, ◌≢◌, some, Bool, true, Option-cases, inl, inr}
use telecam.Text.{Text}
use telecam.Auth.Roles.{active, parent}
use telecam.Auth.Users.{AuthUser}
use telecam.Session.World.{World, Env, final}
use telecam.Session.Api.{Options}
use telecam.Session.Provider.{
  login, logout, load_session, refresh_session, refresh_handler, change_password, fetch_page,
  handle_session_expired, is_authenticated,
}
use telecam.Session.Invariant.{IsConsistent, handle_session_expired-IsConsistent, copy-IsConsistent}
use telecam.Session.Operations.{
  login-IsSafe, logout-IsSafe, load_session-IsSafe, refresh_session-IsSafe, refresh_handler-IsSafe,
  fetch_page-IsSafe,
}
use telecam.Session.Passwords.{change_password-IsSafe}

module _ {N : Type 0} (env : Env N) where
  pub data Step : World → World → Type 0 where
    register : (w : World) (b : Bool) → Step w (record w { registered = b })
    sign_in : (w : World) (email password : Text) → Step w (final (login env email password w))
    sign_out : (w : World) → Step w (final (logout env w))
    load : (w : World) → Step w (final (load_session env w))
    refresh : (w : World) → Step w (final (refresh_session env w))
    refresh_by_handler : (w : World) → Step w (final (refresh_handler env w))
    expire : (w : World) → Step w (handle_session_expired w)
    new_password :
        (w : World) (current new : Text) → Step w (final (change_password env current new w))
    page_request :
        (w : World) (path : Text) (o : Options) → Step w (final (fetch_page env path o w))

  pub data Reach (w : World) : World → Type 0 where
    here : Reach w w
    next : {u v : World} → Reach w u → Step u v → Reach w v

  Step-IsConsistent : {u v : World} → Step u v → IsConsistent u → IsConsistent v
  Step-IsConsistent (register w b) c = copy-IsConsistent c refl refl refl
  Step-IsConsistent (sign_in w email password) c = (login-IsSafe env email password).keeps w c
  Step-IsConsistent (sign_out w) c = (logout-IsSafe env).keeps w c
  Step-IsConsistent (load w) c = (load_session-IsSafe env).keeps w c
  Step-IsConsistent (refresh w) c = (refresh_session-IsSafe env).keeps w c
  Step-IsConsistent (refresh_by_handler w) c = (refresh_handler-IsSafe env).keeps w c
  Step-IsConsistent (expire w) c = handle_session_expired-IsConsistent w
  Step-IsConsistent (new_password w current new) c =
      (change_password-IsSafe env current new).keeps w c
  Step-IsConsistent (page_request w path o) c = (fetch_page-IsSafe env path o).keeps w c

  -- Every sequence of steps keeps the session consistent: both copies of the access token agree,
  -- there is a user exactly when there is a token, and a user may use the dashboard.
  pub Reach-IsConsistent : {w v : World} → IsConsistent w → Reach w v → IsConsistent v
  Reach-IsConsistent c here = c
  Reach-IsConsistent c (next r s) = Step-IsConsistent s (Reach-IsConsistent c r)

  -- From a consistent session, after any sequence of sign-ins, sign-outs, loads, refreshes,
  -- expiries, password changes and page requests, however the server answers, whoever is shown as
  -- signed in is an active user whose role is not parent.
  pub Reach-IsAdmitted :
      {w v : World}
      → IsConsistent w
      → Reach w v
      → is_authenticated v ≡ true
      → (u : AuthUser) × (v.user ≡ some u) × (u.status ≡ active) × (u.role ≢ parent)
  unfolding is_authenticated
  Reach-IsAdmitted {v} c r h = elim (Option-cases v.user) [
    | inl e ↦ cc
    | inr (u, e) ↦ let a = (Reach-IsConsistent c r).admitted u e in (u, e, a.0, a.1)
  ]
