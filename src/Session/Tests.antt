-- ===== src/Session/Tests.antt =====
-- A session against a small server, which knows one school admin and answers the pages with 401.
use telecam.Prelude.{
  ℕ, ◌≡◌, ◌≢◌, ◌⊎◌, refl, Bool, true, false, List, [], ◌∷◌, Option, none, some, any, map,
  if◌then◌else◌,
}
use telecam.Text.{Text, text, text_eq, includes}
use telecam.Json.Defs.{
  Json, Engine, object, string, field, end, get, has, as_object, unwrap_payload, as_string,
}
use telecam.Json.Examples.{small_engine}
use telecam.Auth.Roles.{
  active, parent, school_admin, normalize_user_role, normalize_dashboard_role,
  normalize_user_status, canonical_role,
}
use telecam.Auth.Users.{
  AuthUser, normalize_user, read_user, pick_id, pick_email, pick_role, pick_status, pick_string,
  filled_string, of_nested_user,
}
use telecam.Session.World.{World, Env, Run, Request, Response, final, returned, thrown, ◌>>=◌}
use telecam.Session.Api.{
  Options, api_fetch, api_fetch_from, send, request_of, refresh_access_token, resolve_url,
  parse_response, retry,
}
use telecam.Session.Storage.{
  truthy, get_stored_refresh_token, set_stored_refresh_token, set_stored_user,
  get_or_create_device_fingerprint,
}
use telecam.Session.Requests.{
  RefreshResponse, assert_dashboard_access, login_request, refresh_request, get_me, denied,
  parse_login_response, parse_refresh_response, parse_me_response,
}
use telecam.Session.Access.{assert_dashboard_access_cases, IsAdmitted}
use telecam.Session.Provider.{
  fetch_page, refresh_stored, login, logout, load_session, is_authenticated, handlers_of,
  refresh_handler, refresh_session, apply_session, load_profile, store_session,
}
use telecam.Session.Invariant.{IsConsistent}
use telecam.Session.Spec.{Trace, view}
use telecam.Session.Refines.{events, Reach-Trace, Reach-signed_out}
use telecam.Session.Overlap.{after_refresh, after_refresh-logout}
use telecam.Session.Reach.{
  Reach, page_request, here, next, sign_in, sign_out, Reach-IsConsistent, Reach-IsAdmitted,
}
use telecam.Session.Outcomes.{IsSignedOut, IsSettled, logout-IsSignedOut, load_session-IsSettled}
use telecam.Session.SignIn.{FailsQuietly, login-FailsQuietly}
use telecam.Session.SignedIn.{IsSignedIn, api_fetch-keeps-IsSignedIn}
use telecam.Session.Retry.{one_request}
use telecam.Session.Sends.{
  api_fetch_once, api_fetch-FollowsAnswer, FollowsAnswer, authorization, expected_token, bearer,
}

abbrev session_answer : Json ℕ
session_answer = object (
    field (text "accessToken") (string (text "t1")) (
      field (text "refresh_token") (string (text "r1")) (
        field (text "user")
          (object (
            field (text "id") (string (text "u1")) (
              field (text "email") (string (text "a@b.c"))
                (field (text "role") (string (text "SCHOOL_ADMIN")) end))))
          end)))

abbrev session_engine : Engine ℕ
session_engine = record small_engine {
  parse = λ s. if text_eq s (text "session") then some session_answer else none;
}

abbrev answer_of : List Request → Request → Option Response
answer_of sent request =
    if includes request.url (text "/auth/")
    then some (record { status = 200; text = text "session" })
    else some (record { status = 401; text = [] })

abbrev school : Env ℕ
school = record {
  js = session_engine;
  server = answer_of;
  api_base_url = text "https://x/";
  app_name = text "d";
  fresh_fingerprint = λ sent. text "f";
}

abbrev offline : Env ℕ
offline = record school { server = λ sent request. none }

abbrev start : World
start = record {
  access_token = none;
  registered = true;
  storage_available = true;
  stored_refresh_token = none;
  stored_user = none;
  stored_fingerprint = none;
  user = none;
  access_token_state = none;
  refresh_token_state = none;
  is_loading = true;
  requests = [];
  replaced = [];
}

start-IsConsistent : IsConsistent start
start-IsConsistent = record {
  tokens_agree = refl;
  user_of_token = λ h. absurd (h refl);
  token_of_user = λ h. absurd (h refl);
  admitted = λ u e. cc;
}

abbrev signed_in : World
signed_in = final (login school (text "a@b.c") (text "p") start)

signed_in-is_authenticated : is_authenticated signed_in ≡ true
unfolding is_authenticated login login_request apply_session assert_dashboard_access store_session
    set_stored_refresh_token set_stored_user get_or_create_device_fingerprint api_fetch
    api_fetch_from resolve_url parse_response parse_login_response unwrap_payload normalize_user
    as_object pick_id pick_email pick_status pick_string filled_string of_nested_user
    normalize_user_role normalize_user_status normalize_dashboard_role canonical_role text_eq
    includes get has as_string request_of read_user pick_role
signed_in-is_authenticated = refl

Reach-IsConsistent_example : IsConsistent (final (logout school signed_in))
Reach-IsConsistent_example =
    Reach-IsConsistent school start-IsConsistent
      (next (next here (sign_in start (text "a@b.c") (text "p"))) (sign_out signed_in))

Reach-IsAdmitted_example :
    (u : AuthUser) × (signed_in.user ≡ some u) × (u.status ≡ active) × (u.role ≢ parent)
Reach-IsAdmitted_example =
    Reach-IsAdmitted school start-IsConsistent (next here (sign_in start (text "a@b.c") (text "p")))
      signed_in-is_authenticated

logout-IsSignedOut_example : IsSignedOut signed_in (logout offline signed_in)
logout-IsSignedOut_example = logout-IsSignedOut offline signed_in

login-FailsQuietly_example :
    FailsQuietly offline start (login offline (text "a@b.c") (text "p") start)
login-FailsQuietly_example = login-FailsQuietly offline (text "a@b.c") (text "p") start

load_session-IsSettled_example : IsSettled (load_session school signed_in)
load_session-IsSettled_example = load_session-IsSettled school signed_in

abbrev member : AuthUser
member = record {
  id = text "u1";
  email = text "a@b.c";
  role = school_admin;
  status = active;
  name = none;
  force_password_change = false;
}

assert_dashboard_access_cases_example :
    ((assert_dashboard_access school member start ≡ returned tt start) × IsAdmitted member)
    ⊎ ((assert_dashboard_access school member start ≡ thrown (denied school) start)
        × ¬ (IsAdmitted member))
assert_dashboard_access_cases_example = assert_dashboard_access_cases school start member

abbrev page_options : Bool → Options
page_options skip = record {
  token = none;
  method = text "GET";
  body = none;
  headers = [];
  skip_auth = skip;
  retried = false;
}

abbrev page : Text
page = text "/cameras"

api_fetch_once_example :
    (api_fetch school (handlers_of school true) page (page_options true) start
      ≡ one_request school page (page_options true) start)
    × ((final (api_fetch school (handlers_of school true) page (page_options true) start)).requests
        ≡ request_of school page (page_options true) start ∷ start.requests)
api_fetch_once_example =
    api_fetch_once school (handlers_of school true) page (page_options true) start refl

-- A server that refuses a page once, and gives it to whoever asks again with the new token.
abbrev renewing : Env ℕ
renewing = record school {
  server = λ sent request.
      if includes request.url (text "/auth/")
      then some (record { status = 200; text = text "session" })
      else if any (λ r. includes r.url page) sent
      then some (record { status = 200; text = text "session" })
      else some (record { status = 401; text = [] });
}

abbrev fetched : Run ℕ (Json ℕ)
fetched = api_fetch renewing (handlers_of renewing true) page (page_options false) signed_in

-- The page is given to the second of the two requests for it.
fetched-eq : fetched ≡ returned session_answer (final fetched)
unfolding refresh_access_token refresh_handler refresh_session refresh_request load_profile get_me
    send parse_refresh_response parse_me_response get_stored_refresh_token is_authenticated login
    login_request apply_session assert_dashboard_access store_session set_stored_refresh_token
    set_stored_user get_or_create_device_fingerprint api_fetch api_fetch_from resolve_url
    parse_response parse_login_response unwrap_payload normalize_user as_object pick_id pick_email
    pick_status pick_string filled_string of_nested_user normalize_user_role normalize_user_status
    normalize_dashboard_role canonical_role text_eq includes get has as_string request_of read_user
    pick_role retry
fetched-eq = refl

abbrev seen : Request → Text × Option Text
seen r = (r.url, authorization r.headers)

sent_again :
    map seen (final fetched).requests
    ≡ (text "https://x/cameras", some (text "Bearer t1"))
      ∷ (text "https://x/auth/me", some (text "Bearer t1"))
      ∷ (text "https://x/auth/refresh", none)
      ∷ (text "https://x/cameras", some (text "Bearer t1"))
      ∷ (text "https://x/auth/login", none)
      ∷ []
unfolding refresh_access_token refresh_handler refresh_session refresh_request load_profile get_me
    send parse_refresh_response parse_me_response get_stored_refresh_token is_authenticated login
    login_request apply_session assert_dashboard_access store_session set_stored_refresh_token
    set_stored_user get_or_create_device_fingerprint api_fetch api_fetch_from resolve_url
    parse_response parse_login_response unwrap_payload normalize_user as_object pick_id pick_email
    pick_status pick_string filled_string of_nested_user normalize_user_role normalize_user_status
    normalize_dashboard_role canonical_role text_eq includes get has as_string request_of read_user
    pick_role retry
sent_again = refl

api_fetch-FollowsAnswer_example :
    (api_fetch_from renewing 5 (handlers_of renewing true) page (page_options false)
      ≡ api_fetch renewing (handlers_of renewing true) page (page_options false))
    × ((final (send renewing page (page_options false) signed_in)).requests
        ≡ request_of renewing page (page_options false) signed_in ∷ signed_in.requests)
    × (authorization (request_of renewing page (page_options false) signed_in).headers
        ≡ bearer (expected_token none false signed_in.access_token))
    × FollowsAnswer renewing
        (handlers_of renewing true)
        page
        (page_options false)
        (send renewing page (page_options false) signed_in)
        fetched
api_fetch-FollowsAnswer_example =
    api_fetch-FollowsAnswer renewing 3 (handlers_of renewing true) page (page_options false)
      signed_in refl

signed_in-IsSignedIn : IsSignedIn signed_in
unfolding refresh_access_token refresh_handler refresh_session refresh_request load_profile get_me
    send parse_refresh_response parse_me_response get_stored_refresh_token is_authenticated login
    login_request apply_session assert_dashboard_access store_session set_stored_refresh_token
    set_stored_user get_or_create_device_fingerprint api_fetch api_fetch_from resolve_url
    parse_response parse_login_response unwrap_payload normalize_user as_object pick_id pick_email
    pick_status pick_string filled_string of_nested_user normalize_user_role normalize_user_status
    normalize_dashboard_role canonical_role text_eq includes get has as_string request_of read_user
    pick_role retry
signed_in-IsSignedIn = λ e. cc

api_fetch-keeps-IsSignedIn_example : IsSignedIn (final fetched)
api_fetch-keeps-IsSignedIn_example =
    api_fetch-keeps-IsSignedIn renewing true page (page_options false) signed_in (final fetched)
      session_answer signed_in-IsSignedIn fetched-eq

-- A refresh whose answer comes in after the user has signed out.
abbrev late : RefreshResponse ℕ
late = record {
  access_token = text "t1";
  refresh_token = some (text "r1");
  user = none;
  expires_in = none;
}

abbrev left : World
left = final (logout school signed_in)

late-load_profile :
    load_profile school late left ≡ returned member (final (load_profile school late left))
unfolding load_profile get_me send parse_me_response api_fetch api_fetch_from resolve_url
    parse_response unwrap_payload normalize_user as_object pick_id pick_email pick_status
    pick_string filled_string of_nested_user normalize_user_role normalize_user_status
    normalize_dashboard_role canonical_role text_eq includes get has as_string request_of read_user
    pick_role
late-load_profile = refl

after_refresh-logout_example :
    (refresh_stored school (some (text "r1")) signed_in
      ≡ (refresh_request school (text "r1") >>= after_refresh school (text "r1")) signed_in)
    × ((final (after_refresh school (text "r1") late left)).user ≡ some member)
    × ((final (after_refresh school (text "r1") late left)).access_token ≡ some (text "t1"))
after_refresh-logout_example =
    after_refresh-logout school (text "r1") late member signed_in signed_in
      (final (load_profile school late left)) late-load_profile (refl, λ e. cc)

-- A sign-in, a sign-out, and a request of a page, which is refused.
abbrev visit : World
visit = final (fetch_page school page (page_options false) left)

abbrev visited : Reach school left visit
visited = next here (page_request left page (page_options false))

Reach-signed_out_example : (visit.user ≡ none) × (truthy (get_stored_refresh_token visit) ≡ none)
Reach-signed_out_example = Reach-signed_out school signed_in visited refl

Reach-Trace_example :
    Trace
      (events school
        (next (next here (sign_in start (text "a@b.c") (text "p"))) (sign_out signed_in)))
      (view start)
      (view left)
Reach-Trace_example =
    Reach-Trace school
      (next (next here (sign_in start (text "a@b.c") (text "p"))) (sign_out signed_in))
