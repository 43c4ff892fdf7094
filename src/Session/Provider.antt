-- ===== src/Session/Provider.antt =====
-- admin-dashboard/lib/auth/auth-context.tsx: the operations of `AuthProvider`. A state that a
-- callback reads is the one at the start of its run.
use telecam.Prelude.{
  Bool, true, false, ◌∷◌, Option, none, some, or_else, get_or, ◌==◌, if◌then◌else◌,
}
use telecam.Text.{Text, text}
use telecam.Json.Defs.{Json, undefined}
use telecam.Auth.Users.{AuthUser, normalize_user, user_json}
use telecam.Session.World.{
  World, Env, M, Run, returned, thrown, Failure, api_error, other_error, pure, throw, catch_with,
  change, ◌>>=◌, ◌>>◌,
}
use telecam.Session.Storage.{
  truthy, get_stored_refresh_token, set_stored_refresh_token, clear_auth_storage, get_stored_user,
  set_stored_user,
}
use telecam.Session.Api.{Handlers, api_fetch, Options}
use telecam.Session.Requests.{
  RefreshResponse, login_request, refresh_request, logout_request, get_me, change_password_request,
  assert_dashboard_access,
}

-- `router.replace(path)`
abbrev pub replace : Text → World → World
replace path w = record w { replaced = path ∷ w.replaced }

unfoldable pub clear_session : World → World
clear_session w = clear_auth_storage (record w {
  user = none;
  access_token_state = none;
  refresh_token_state = none;
  access_token = none;
})

unfoldable pub handle_session_expired : World → World
handle_session_expired w = replace (text "/login") (clear_session w)

module _ {N : Type 0} (env : Env N) where
  -- What `applySession` does behind its check.
  unfoldable pub store_session : Text → Text → AuthUser → World → World
  store_session access refresh user w =
      let stored = set_stored_user env (some user) (
        set_stored_refresh_token (some refresh) (record w {
          access_token = some access;
          access_token_state = some access;
          refresh_token_state = some refresh;
        })) in
      record stored { user = some user }

  unfoldable pub apply_session : Text → Text → AuthUser → M N (Unit {0})
  apply_session access refresh user = do
    assert_dashboard_access env user
    change (store_session access refresh user)

  -- The user that is at hand when `getMe` fails.
  unfoldable pub fallback_user : RefreshResponse N → World → Option AuthUser
  fallback_user refreshed w =
      or_else (elim refreshed.user [ none ↦ none | some u ↦ normalize_user env.js (user_json u) ])
        (get_stored_user env w)

  abbrev pub load_user : Option AuthUser → Failure N → M N AuthUser
  load_user none e = throw (other_error (text "failed to load user profile"))
  load_user (some u) e = pure u

  -- The profile of the refreshed user, or the user at hand.
  unfoldable pub load_profile : RefreshResponse N → M N AuthUser
  load_profile refreshed w =
      catch_with (get_me env refreshed.access_token) (load_user (fallback_user refreshed w)) w

  -- `refreshSession`, by the stored token.
  unfoldable pub refresh_stored : Option Text → M N (Option Text)
  refresh_stored none = change clear_session >> pure none
  refresh_stored (some stored) = do
    refreshed ← refresh_request env stored
    user ← load_profile refreshed
    apply_session refreshed.access_token (get_or refreshed.refresh_token stored) user
    pure (some refreshed.access_token)

  unfoldable pub refresh_session : M N (Option Text)
  unfolding refresh_stored
  refresh_session w = refresh_stored (truthy (get_stored_refresh_token w)) w

  -- The handler that the provider registers.
  unfoldable pub refresh_handler : M N (Option Text)
  refresh_handler = catch_with refresh_session (λ e. change handle_session_expired >> pure none)

  abbrev pub expired_handler : M N (Unit {0})
  expired_handler = change handle_session_expired

  abbrev pub handlers_of : Bool → Handlers N
  handlers_of true = record { refresh = some refresh_handler; logout = some expired_handler }
  handlers_of false = record { refresh = none; logout = none }

  -- `apiFetch` as the pages call it.
  unfoldable pub fetch_page : Text → Options → M N (Json N)
  fetch_page path o w = api_fetch env (handlers_of w.registered) path o w

  abbrev pub loading : Bool → World → World
  loading b w = record w { is_loading = b }

  -- The end of `loadSession`: its `catch` and its `finally`.
  abbrev pub end_loading : Run N (Option Text) → Run N (Unit {0})
  end_loading (returned token w) = returned tt (loading false w)
  end_loading (thrown e w) = returned tt (loading false (clear_session w))

  abbrev pub load_stored : Option Text → M N (Unit {0})
  load_stored none w = returned tt (loading false (clear_session w))
  load_stored (some stored) w =
      end_loading (refresh_session (record w { refresh_token_state = some stored }))

  unfoldable pub load_session : M N (Unit {0})
  load_session w = load_stored (truthy (get_stored_refresh_token w)) (loading true w)

  abbrev pub generic_login_error : Failure N
  generic_login_error = api_error (text "Invalid email or password.") 401 undefined

  abbrev pub login_failure : Failure N → Failure N
  login_failure (api_error message status body) =
      if status == 403 then api_error message status body else generic_login_error
  login_failure e = generic_login_error

  unfoldable pub login : Text → Text → M N (Unit {0})
  login email password =
      catch_with
        (login_request env email password >>= λ result.
          apply_session result.access_token result.refresh_token result.user)
        (λ e. throw (login_failure e))

  -- `accessToken ?? (await refreshSession())`
  abbrev pub token_or_refresh : Option Text → M N (Option Text)
  token_or_refresh none = refresh_session
  token_or_refresh (some t) = pure (some t)

  abbrev pub update_user : AuthUser → Option Text → M N (Unit {0})
  update_user user none = pure tt
  update_user user (some t) =
      change (λ w. record (set_stored_user env (some user) w) { user = some user })

  -- `changePassword` behind its request, by the stored refresh token.
  abbrev pub change_stored : Option Text → AuthUser → Option Text → M N (Unit {0})
  change_stored access user none = change clear_session
  change_stored access user (some stored) = do
    token ← token_or_refresh access
    update_user user (truthy token)

  abbrev pub change_user : Option Text → AuthUser → M N (Unit {0})
  change_user access user w = change_stored access user (truthy (get_stored_refresh_token w)) w

  unfoldable pub change_password : Text → Text → M N (Unit {0})
  change_password current new w =
      (change_password_request env (handlers_of w.registered) current new >>= λ user.
      assert_dashboard_access env user >> change_user w.access_token_state user)
        w

  -- The end of `logout`: a failure of the request is dropped.
  abbrev pub logout_stored : Option Text → Option Text → M N (Unit {0})
  logout_stored access none = change (replace (text "/login"))
  logout_stored access (some stored) =
      catch_with (logout_request env stored access) (λ e. pure tt)
      >> change (replace (text "/login"))

  unfoldable pub logout : M N (Unit {0})
  logout w =
      logout_stored w.access_token_state (truthy (get_stored_refresh_token w)) (clear_session w)

-- `isAuthenticated`
unfoldable pub is_authenticated : World → Bool
is_authenticated w = elim w.user [
  | none ↦ false
  | some u ↦ elim (truthy w.access_token_state) [ none ↦ false | some t ↦ true ]
]
