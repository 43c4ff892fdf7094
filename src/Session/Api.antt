-- ===== src/Session/Api.antt =====
-- admin-dashboard/lib/api.ts. The handlers that session-store.ts holds are a parameter, since the
-- provider's own handlers send requests too.
use telecam.Prelude.{
  ℕ, zero, suc, Bool, true, false, not, ◌&&◌, ◌||◌, List, [], ◌∷◌, ◌++◌, Option, none, some,
  or_else, get_or, ltb, leb, ◌==◌, if◌then◌else◌,
}
use telecam.Text.{Text, text, is_empty, starts_with, decimal}
use telecam.Json.Defs.{Json, null, string, as_object, as_string, get}
use telecam.Session.World.{
  World, Request, Response, Env, M, Run, returned, thrown, Failure, api_error, other_error,
  network_error, pure, throw, ◌>>=◌, ◌>>◌,
}
use telecam.Session.Storage.{truthy}

pub record Options : Type 0 where
  pub token : Option Text
  pub method : Text
  pub body : Option Text
  pub headers : List (Text × Text)
  pub skip_auth : Bool
  pub retried : Bool

pub record Handlers (N : Type 0) : Type 0 where
  pub refresh : Option (M N (Option Text))
  pub logout : Option (M N (Unit {0}))

-- `url.replace(/\/$/, "")`
unfoldable pub drop_last_slash : Text → Text
drop_last_slash [] = []
drop_last_slash (c ∷ s) =
    let rest = drop_last_slash s in if c == b'/' && is_empty s then [] else c ∷ rest

unfoldable pub resolve_url : Text → Text → Text
unfolding drop_last_slash starts_with
resolve_url base path =
    if starts_with path (text "http://") || starts_with path (text "https://")
    then path
    else drop_last_slash base ++ (if starts_with path (text "/") then path else b'/' ∷ path)

-- `handler?.()`
abbrev pub call_or : {N A : Type 0} → A → Option (M N A) → M N A
call_or a none = pure a
call_or a (some handler) = handler

module _ {N : Type 0} (env : Env N) where
  unfoldable pub extract_error_message : Json N → ℕ → Text
  unfolding decimal
  extract_error_message data' status =
      let general = text "Request failed with status " ++ decimal status in
      elim (as_object data') [
        | none ↦ general
        | some fs ↦ get_or (as_string (get fs (text "error"))) general
      ]

  unfoldable pub parse_response : Response → Json N
  parse_response r = if is_empty r.text then null else get_or (env.js.parse r.text) (string r.text)

  abbrev is_ok : ℕ → Bool
  is_ok status = leb 200 status && ltb status 300

  abbrev pub header_if : Bool → Text → Text → List (Text × Text)
  header_if b name value = if b then (name, value) ∷ [] else []

  abbrev pub auth_header : Option Text → List (Text × Text)
  auth_header none = []
  auth_header (some token) = (text "Authorization", text "Bearer " ++ token) ∷ []

  abbrev pub has_body : Option Text → Bool
  has_body none = false
  has_body (some s) = not (is_empty s)

  -- The token of a request: the one given, else the session's unless `skipAuth`.
  unfoldable pub auth_token : Options → World → Option Text
  auth_token o w = or_else o.token (if o.skip_auth then none else w.access_token)

  -- Of two headers of one name, the later one counts.
  unfoldable pub request_of : Text → Options → World → Request
  unfolding resolve_url auth_token
  request_of path o w = record {
    url = resolve_url env.api_base_url path;
    method = o.method;
    body = o.body;
    headers =
        (text "Accept", text "application/json")
        ∷ (header_if (has_body o.body) (text "Content-Type") (text "application/json")
            ++ (auth_header (truthy (auth_token o w)) ++ o.headers));
  }

  abbrev pub receive : World → Option Response → Run N Response
  receive sent none = thrown network_error sent
  receive sent (some response) = returned response sent

  -- `await fetch(…)`
  unfoldable pub send : Text → Options → M N Response
  send path o w =
      let request = request_of path o w in
      let sent = record w { requests = request ∷ w.requests } in
      receive sent (env.server w.requests request)

  abbrev pub failed : Response → ℕ → Failure N
  failed r status =
      api_error (extract_error_message (parse_response r) status) status (parse_response r)

  -- The end of `apiFetch`.
  unfoldable pub finish : Response → M N (Json N)
  finish r = if is_ok r.status then pure (parse_response r) else throw (failed r r.status)

  -- `refreshAccessToken` and `triggerSessionExpired` of session-store.ts
  unfoldable pub refresh_access_token : Handlers N → M N (Option Text)
  refresh_access_token h = call_or none h.refresh

  unfoldable pub trigger_session_expired : Handlers N → M N (Unit {0})
  trigger_session_expired h = call_or tt h.logout

  -- With a new token `again` sends the request once more, else the session ends.
  abbrev pub send_again :
      Handlers N → (Options → M N (Json N)) → Options → Response → Option Text → M N (Json N)
  send_again h again o response none = trigger_session_expired h >> throw (failed response 401)
  send_again h again o response (some new_token) =
      again (record o { token = some new_token; retried = true })

  -- The branch of a 401: refresh the token and call `again`, which is `apiFetch` itself.
  unfoldable pub retry : Handlers N → (Options → M N (Json N)) → Options → Response → M N (Json N)
  unfolding refresh_access_token trigger_session_expired
  retry h again o response = do
    token ← refresh_access_token h
    send_again h again o response (truthy token)

  -- `apiFetch`, which calls itself; the fuel is the number of calls.
  unfoldable pub api_fetch_from : ℕ → Handlers N → Text → Options → M N (Json N)
  unfolding send retry finish
  api_fetch_from zero h path o = throw (other_error (text "out of fuel"))
  api_fetch_from (suc fuel) h path o =
      let again = api_fetch_from fuel h path in
      send path o >>= λ response.
      if response.status == 401 && (not o.skip_auth && not o.retried)
      then retry h again o response
      else finish response

  -- Two calls are enough, whatever the options.
  unfoldable pub api_fetch : Handlers N → Text → Options → M N (Json N)
  unfolding api_fetch_from
  api_fetch h path o = api_fetch_from 2 h path o
