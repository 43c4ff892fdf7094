-- ===== src/Session/Requests.antt =====
-- admin-dashboard/lib/auth/auth-api.ts
use telecam.Prelude.{
  Bool, true, false, not, List, [], ◌∷◌, Option, none, some, or_else, any, if◌then◌else◌,
}
use telecam.Text.{Text, text, text_eq}
use telecam.Json.Defs.{
  Json, undefined, string, object, Fields, field, end, get, as_object, as_string, as_number,
  is_truthy, unwrap_payload, coalesce,
}
use telecam.Auth.Roles.{
  UserRole, status_name, super_admin, school_admin, technician, role_name, dashboard_role_name,
  normalize_dashboard_role,
}
use telecam.Auth.Users.{AuthUser, normalize_user}
use telecam.Session.World.{Env, M, Failure, api_error, pure, throw, or_throw, ◌>>=◌}
use telecam.Session.Storage.{truthy, get_or_create_device_fingerprint}
use telecam.Session.Api.{Options, Handlers, api_fetch}

pub record LoginResponse (N : Type 0) : Type 0 where
  pub access_token : Text
  pub refresh_token : Text
  pub user : AuthUser
  pub expires_in : Option N

pub record RefreshResponse (N : Type 0) : Type 0 where
  pub access_token : Text
  pub refresh_token : Option Text
  pub user : Option AuthUser
  pub expires_in : Option N

-- `ALLOWED_DASHBOARD_ROLES`
abbrev pub allowed_dashboard_roles : List UserRole
allowed_dashboard_roles = super_admin ∷ school_admin ∷ technician ∷ []

abbrev access_denied_message : Text
access_denied_message = text "This account is not allowed to access the admin dashboard."

-- No handler of the session is called for the requests with `skipAuth`.
abbrev pub no_handlers : {N : Type 0} → Handlers N
no_handlers = record { refresh = none; logout = none }

abbrev pub posted : Option Text → Bool → Text → Options
posted token skip body = record {
  token = token;
  method = text "POST";
  body = some body;
  headers = [];
  skip_auth = skip;
  retried = false;
}

module _ {N : Type 0} where
  -- `typeof r.a === "string" ? r.a : typeof r.b === "string" ? r.b : undefined`
  abbrev pub string_at : Fields N → Text → Text → Option Text
  string_at r a b = or_else (as_string (get r a)) (as_string (get r b))

  abbrev pub expires_at : Fields N → Option N
  expires_at r =
      or_else (as_number (get r (text "expires_in"))) (as_number (get r (text "expiresIn")))

  abbrev pub access_token_of : Fields N → Option Text
  access_token_of r = truthy (string_at r (text "access_token") (text "accessToken"))

  abbrev pub refresh_token_of : Fields N → Option Text
  refresh_token_of r = string_at r (text "refresh_token") (text "refreshToken")

  abbrev login_response :
      Fields N → Option Text → Option Text → Option AuthUser → Option (LoginResponse N)
  login_response r (some access) (some refresh) (some user) = some (record {
    access_token = access;
    refresh_token = refresh;
    user = user;
    expires_in = expires_at r;
  })
  login_response r _ _ _ = none

module _ {N : Type 0} (env : Env N) where
  unfoldable pub parse_login_response : Json N → M N (LoginResponse N)
  parse_login_response raw =
      or_throw
        (elim (as_object (unwrap_payload raw)) [
          | none ↦ none
          | some r ↦
              login_response r (access_token_of r) (truthy (refresh_token_of r))
                (normalize_user env.js (get r (text "user")))
        ])
        (api_error (text "Unexpected login response") 500 raw)

  -- `record.user ? normalizeUser(record.user) : undefined`
  abbrev refreshed_user : Fields N → Option AuthUser
  refreshed_user r =
      if is_truthy env.js (get r (text "user"))
      then normalize_user env.js (get r (text "user"))
      else none

  abbrev refresh_response : Fields N → Option Text → Option (RefreshResponse N)
  refresh_response r none = none
  refresh_response r (some access) = some (record {
    access_token = access;
    refresh_token = refresh_token_of r;
    user = refreshed_user r;
    expires_in = expires_at r;
  })

  unfoldable pub parse_refresh_response : Json N → M N (RefreshResponse N)
  parse_refresh_response raw =
      or_throw
        (elim (as_object (unwrap_payload raw)) [
          | none ↦ none
          | some r ↦ refresh_response r (access_token_of r)
        ])
        (api_error (text "Unexpected refresh response") 500 raw)

  -- `normalizeUser(record.user ?? record)`
  unfoldable pub parse_me_response : Json N → M N AuthUser
  parse_me_response raw =
      let body = unwrap_payload raw in
      or_throw
        (elim (as_object body) [
          | none ↦ none
          | some r ↦ normalize_user env.js (coalesce (get r (text "user")) body)
        ])
        (api_error (text "Unexpected profile response") 500 raw)

  unfoldable pub login_request : Text → Text → M N (LoginResponse N)
  login_request email password = do
    fingerprint ← get_or_create_device_fingerprint env
    raw ← api_fetch env no_handlers (text "/auth/login") (
        posted none true (
          env.js.stringify (
            object (
              field (text "email") (string email) (
                field (text "password") (string password) (
                  field (text "device_name") (string env.app_name)
                    (field (text "device_fingerprint") (string fingerprint) end)))))))
    parse_login_response raw

  unfoldable pub refresh_request : Text → M N (RefreshResponse N)
  refresh_request token = do
    raw ← api_fetch env no_handlers (text "/auth/refresh") (
        posted none true
          (env.js.stringify (object (field (text "refresh_token") (string token) end))))
    parse_refresh_response raw

  unfoldable pub logout_request : Text → Option Text → M N (Unit {0})
  logout_request refresh_token access_token = do
    raw ← api_fetch env no_handlers (text "/auth/logout") (
        posted access_token true
          (env.js.stringify (object (field (text "refresh_token") (string refresh_token) end))))
    pure tt

  unfoldable pub get_me : Text → M N AuthUser
  get_me access_token = do
    raw ← api_fetch env no_handlers (text "/auth/me") (record {
      token = some access_token;
      method = text "GET";
      body = none;
      headers = [];
      skip_auth = true;
      retried = false;
    })
    parse_me_response raw

  unfoldable pub change_password_request : Handlers N → Text → Text → M N AuthUser
  change_password_request h current new = do
    raw ← api_fetch env h (text "/auth/change-password") (
        posted none false (
          env.js.stringify (
            object (
              field (text "current_password") (string current)
                (field (text "new_password") (string new) end)))))
    parse_me_response raw

  abbrev pub denied : Failure N
  denied = api_error access_denied_message 403 undefined

  unfoldable pub assert_dashboard_access : AuthUser → M N (Unit {0})
  assert_dashboard_access u =
      if not (text_eq (status_name u.status) (text "ACTIVE"))
      then throw denied
      else elim (normalize_dashboard_role env.js (some (role_name u.role))) [
        | none ↦ throw denied
        | some d ↦
            if any (λ r. text_eq (dashboard_role_name d) (role_name r)) allowed_dashboard_roles
            then pure tt
            else throw denied
      ]
