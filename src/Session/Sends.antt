-- ===== src/Session/Sends.antt =====
-- What `apiFetch` sends.
use telecam.Prelude.{
  ℕ, suc, ◌≡◌, refl, ◌∙◌, Bool, true, false, List, [], ◌∷◌, ◌++◌, Option, none, some, or_else,
  arith, ap, sym, not, ◌&&◌, if◌then◌else◌, Bool-cases, inl, inr,
}
use mathlib.Core.Path.{subst}
use telecam.Text.{Text, text, text_eq}
use telecam.Json.Defs.{Json}
use telecam.Session.World.{World, Env, Run, Response, returned, thrown, final, throw, ◌>>◌}
use telecam.Session.Storage.{truthy}
use telecam.Session.Retry.{is_refused, renewed, one_request, api_fetch_from_once, api_fetch_from-eq}
use telecam.Session.Api.{
  Handlers, Options, receive, request_of, auth_token, auth_header, header_if, has_body, send,
  finish, retry, failed, api_fetch, api_fetch_from, send_again, refresh_access_token,
  trigger_session_expired,
}

-- The value of a header; of two with one name the later one counts.
abbrev pub header_of : Text → List (Text × Text) → Option Text
header_of name [] = none
header_of name ((key, value) ∷ rest) =
    or_else (header_of name rest) (if text_eq key name then some value else none)

abbrev pub authorization : List (Text × Text) → Option Text
authorization = header_of (text "Authorization")

-- The header that carries a token, if there is one.
abbrev pub bearer : Option Text → Option Text
bearer none = none
bearer (some token) = some (text "Bearer " ++ token)

-- The token that a request should carry: the given one, or else that of the session unless
-- `skipAuth` forbids it; an empty text is none.
abbrev pub expected_token : Option Text → Bool → Option Text → Option Text
expected_token (some token) skip_auth stored = truthy (some token)
expected_token none true stored = none
expected_token none false stored = truthy stored

module _ {N : Type 0} (env : Env N) where
  receive-requests :
      (w : World) (o : Option Response) → (final (receive env w o)).requests ≡ w.requests
  receive-requests w none = refl
  receive-requests w (some r) = refl

  send-requests :
      (path : Text) (o : Options) (w : World)
      → (final (send env path o w)).requests ≡ request_of env path o w ∷ w.requests
  unfolding send
  send-requests path o w = receive-requests _ (env.server w.requests (request_of env path o w))

  finish-requests : (r : Response) (w : World) → (final (finish env r w)).requests ≡ w.requests
  unfolding finish
  finish-requests r w = ground arith

  finished-requests :
      (run : Run N Response)
      → (final {A = Json N}
          (elim run [ returned r v ↦ finish env r v | thrown x v ↦ thrown x v ])).requests
        ≡ (final run).requests
  finished-requests (returned r v) = finish-requests r v
  finished-requests (thrown x v) = refl

  one_request-requests :
      (path : Text) (o : Options) (w : World)
      → (final (one_request env path o w)).requests ≡ request_of env path o w ∷ w.requests
  one_request-requests path o w = finished-requests (send env path o w) ∙ send-requests path o w

  -- With skipAuth, or when it retries, apiFetch sends exactly one request and calls no handler.
  pub api_fetch_once :
      (h : Handlers N) (path : Text) (o : Options) (w : World)
      → (not o.skip_auth && not o.retried) ≡ false
      → (api_fetch env h path o w ≡ one_request env path o w)
        × ((final (api_fetch env h path o w)).requests ≡ request_of env path o w ∷ w.requests)
  unfolding api_fetch
  api_fetch_once h path o w once =
      let same : api_fetch env h path o w ≡ one_request env path o w =
        ap (λ f. f w) (api_fetch_from_once env 1 h path o once) in
      (same, ap (λ run. (final run).requests) same ∙ one_request-requests path o w)

  bearer-headers :
      (b : Bool) (token : Option Text) (rest : List (Text × Text))
      → authorization rest ≡ none
      → authorization (
          (text "Accept", text "application/json")
          ∷ (header_if env b (text "Content-Type") (text "application/json")
              ++ (auth_header env token ++ rest)))
        ≡ bearer token
  unfolding text_eq
  bearer-headers true none rest h = rw h refl
  bearer-headers true (some t) rest h = rw h refl
  bearer-headers false none rest h = rw h refl
  bearer-headers false (some t) rest h = rw h refl

  -- Unless the options name one, a request has the header of its token.
  authorization-request_of :
      (path : Text) (o : Options) (w : World)
      → authorization o.headers ≡ none
      → authorization (request_of env path o w).headers ≡ bearer (truthy (auth_token env o w))
  unfolding request_of
  authorization-request_of path o w h =
      bearer-headers (has_body env o.body) (truthy (auth_token env o w)) o.headers h

  -- The run of a second request with a token, from a world.
  abbrev pub SendsAgain : Text → Options → Text → World → Run N (Json N) → Type 0
  SendsAgain path o t v run =
      let request = request_of env path (renewed o t) v in
      (run ≡ one_request env path (renewed o t) v)
      × ((final run).requests ≡ request ∷ v.requests)
      × (authorization request.headers ≡ some (text "Bearer " ++ t))

  abbrev pub WithToken :
      Handlers N → Text → Options → Response → Option Text → World → Run N (Json N) → Type 0
  WithToken h path o r none v run =
      run ≡ (trigger_session_expired env h >> throw (failed env r 401)) v
  WithToken h path o r (some t) v run = SendsAgain path o t v run

  abbrev pub AfterRefresh :
      Handlers N → Text → Options → Response → Run N (Option Text) → Run N (Json N) → Type 0
  AfterRefresh h path o r (returned token v) run = WithToken h path o r (truthy token) v run
  AfterRefresh h path o r (thrown e v) run = run ≡ thrown e v

  abbrev pub AfterAnswer :
      Handlers N → Text → Options → Response → World → Bool → Run N (Json N) → Type 0
  AfterAnswer h path o r u true run = AfterRefresh h path o r (refresh_access_token env h u) run
  AfterAnswer h path o r u false run = run ≡ finish env r u

  -- What a run does by the answer to its first request.
  abbrev pub FollowsAnswer : Handlers N → Text → Options → Run N Response → Run N (Json N) → Type 0
  FollowsAnswer h path o (returned r u) run = AfterAnswer h path o r u (is_refused o r) run
  FollowsAnswer h path o (thrown e u) run = run ≡ thrown e u

  truthy-bearer :
      (token : Option Text) (t : Text)
      → truthy token ≡ some t
      → bearer (truthy (some t)) ≡ some (text "Bearer " ++ t)
  truthy-bearer none t e = cc
  truthy-bearer (some []) t e = cc
  truthy-bearer (some (c ∷ s)) [] e = cc
  truthy-bearer (some (c ∷ s)) (d ∷ t) e = refl

  token-SendsAgain :
      (path : Text) (o : Options) (token : Option Text) (t : Text) (v : World)
      → authorization o.headers ≡ none
      → truthy token ≡ some t
      → SendsAgain path o t v (one_request env path (renewed o t) v)
  unfolding auth_token
  token-SendsAgain path o token t v h e = (
    refl,
    one_request-requests path (renewed o t) v,
    authorization-request_of path (renewed o t) v h ∙ truthy-bearer token t e,
  )

  with_token :
      (h : Handlers N) (path : Text) (o : Options) (r : Response) (token found : Option Text)
      (v : World)
      → authorization o.headers ≡ none
      → truthy token ≡ found
      → WithToken h path o r found v (send_again env h (one_request env path) o r found v)
  with_token h path o r token none v headers e = refl
  with_token h path o r token (some t) v headers e = token-SendsAgain path o token t v headers e

  abbrev again : Handlers N → Text → Options → Response → Run N (Option Text) → Run N (Json N)
  again h path o r run = elim run [
    | returned token v ↦ send_again env h (one_request env path) o r (truthy token) v
    | thrown x v ↦ thrown x v
  ]

  after_refresh :
      (h : Handlers N) (path : Text) (o : Options) (r : Response) (run : Run N (Option Text))
      → authorization o.headers ≡ none
      → AfterRefresh h path o r run (again h path o r run)
  after_refresh h path o r (returned token v) headers =
      with_token h path o r token (truthy token) v headers refl
  after_refresh h path o r (thrown x v) headers = refl

  after_answer :
      (h : Handlers N) (path : Text) (o : Options) (r : Response) (u : World) (b : Bool)
      → authorization o.headers ≡ none
      → AfterAnswer h path o r u b
          ((if b then retry env h (one_request env path) o r else finish env r) u)
  unfolding retry
  after_answer h path o r u true headers =
      after_refresh h path o r (refresh_access_token env h u) headers
  after_answer h path o r u false headers = refl

  abbrev answered : Handlers N → Text → Options → Run N Response → Run N (Json N)
  answered h path o run = elim run [
    | returned r u ↦
        (if is_refused o r then retry env h (one_request env path) o r else finish env r) u
    | thrown x u ↦ thrown x u
  ]

  answered-FollowsAnswer :
      (h : Handlers N) (path : Text) (o : Options) (run : Run N Response)
      → authorization o.headers ≡ none
      → FollowsAnswer h path o run (answered h path o run)
  answered-FollowsAnswer h path o (returned r u) headers =
      after_answer h path o r u (is_refused o r) headers
  answered-FollowsAnswer h path o (thrown x u) headers = refl

  auth_token-eq :
      (token : Option Text) (o : Options) (w : World)
      → o.token ≡ token
      → truthy (auth_token env o w) ≡ expected_token token o.skip_auth w.access_token
  unfolding auth_token
  auth_token-eq (some t) o w e = rw e refl
  auth_token-eq none o w e = elim (Bool-cases o.skip_auth) [
    | inl skip ↦ rw (e, skip) refl
    | inr keep ↦ rw (e, keep) refl
  ]

  -- On options that name no Authorization header, apiFetch needs no more than two calls of itself:
  -- more fuel changes nothing. Its first request carries the given token, or else that of the
  -- session unless there is skipAuth, and none where that is missing or empty. If this request is
  -- answered with 401, without skipAuth and not on a retry, the session is refreshed: with a new
  -- token exactly one more request is sent behind those of the refresh, it carries the new token,
  -- and its answer is the result, also where it is another 401; without a token the session is
  -- ended and the result is the 401; and a refresh that fails is a failure of the run. Any other
  -- answer is read as the result, and a request without an answer is a failure of the run.
  pub api_fetch-FollowsAnswer :
      (fuel : ℕ) (h : Handlers N) (path : Text) (o : Options) (w : World)
      → authorization o.headers ≡ none
      → (api_fetch_from env (suc (suc fuel)) h path o ≡ api_fetch env h path o)
        × ((final (send env path o w)).requests ≡ request_of env path o w ∷ w.requests)
        × (authorization (request_of env path o w).headers
            ≡ bearer (expected_token o.token o.skip_auth w.access_token))
        × FollowsAnswer h path o (send env path o w) (api_fetch env h path o w)
  unfolding api_fetch
  api_fetch-FollowsAnswer fuel h path o w headers = (
    api_fetch_from-eq env fuel h path o ∙ sym (api_fetch_from-eq env 0 h path o),
    send-requests path o w,
    authorization-request_of path o w headers ∙ ap bearer (auth_token-eq o.token o w refl),
    subst (λ f. FollowsAnswer h path o (send env path o w) (f w))
        (sym (api_fetch_from-eq env 0 h path o))
        (answered-FollowsAnswer h path o (send env path o w) headers),
  )
