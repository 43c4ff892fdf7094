-- ===== src/Session/Retry.antt =====
-- `apiFetch` calls itself once at most: its fuel is enough, and a retry is one request.
use telecam.Prelude.{
  ℕ, suc, ◌≡◌, refl, ap, Bool, true, false, not, ◌&&◌, Option, none, some, ◌==◌, arith,
  if◌then◌else◌,
}
use mathlib.Core.Path.{fun_ext}
use telecam.Text.{Text}
use telecam.Json.Defs.{Json}
use telecam.Session.World.{Env, M, Response, ◌>>=◌}
use telecam.Session.Storage.{truthy}
use telecam.Session.Api.{
  Handlers, Options, send, finish, retry, send_again, api_fetch_from, refresh_access_token,
}

-- What is asked of an answer before the session is refreshed.
abbrev pub is_refused : Options → Response → Bool
is_refused o r = r.status == 401 && (not o.skip_auth && not o.retried)

-- The options of the second request.
abbrev pub renewed : Options → Text → Options
renewed o token = record o { token = some token; retried = true }

module _ {N : Type 0} (env : Env N) where
  -- A request and the reading of its answer, without handlers.
  abbrev pub one_request : Text → Options → M N (Json N)
  one_request path o = send env path o >>= finish env

  -- `apiFetch` with another function in place of its own call.
  abbrev pub fetch_with : (Options → M N (Json N)) → Handlers N → Text → Options → M N (Json N)
  fetch_with again h path o =
      send env path o >>= λ r. if is_refused o r then retry env h again o r else finish env r

  once-eq :
      (again : Options → M N (Json N)) (h : Handlers N) (path : Text) (o : Options)
      → (not o.skip_auth && not o.retried) ≡ false
      → fetch_with again h path o ≡ one_request path o
  once-eq again h path o once =
      ap (λ f. send env path o >>= f)
        (fun_ext λ r. let e : is_refused o r ≡ false = ground arith in rw e refl)

  -- With skipAuth, or when it retries, one call is enough.
  pub api_fetch_from_once :
      (fuel : ℕ) (h : Handlers N) (path : Text) (o : Options)
      → (not o.skip_auth && not o.retried) ≡ false
      → api_fetch_from env (suc fuel) h path o ≡ one_request path o
  unfolding api_fetch_from
  api_fetch_from_once fuel h path o once = once-eq (api_fetch_from env fuel h path) h path o once

  send_again-eq :
      (f g : Options → M N (Json N)) (h : Handlers N) (o : Options) (r : Response)
      (token : Option Text)
      → ((t : Text) → f (renewed o t) ≡ g (renewed o t))
      → send_again env h f o r token ≡ send_again env h g o r token
  send_again-eq f g h o r none same = refl
  send_again-eq f g h o r (some t) same = same t

  retry-eq :
      (f g : Options → M N (Json N)) (h : Handlers N) (o : Options) (r : Response)
      → ((t : Text) → f (renewed o t) ≡ g (renewed o t))
      → retry env h f o r ≡ retry env h g o r
  unfolding retry
  retry-eq f g h o r same =
      ap (λ k. refresh_access_token env h >>= k)
        (fun_ext λ token. send_again-eq f g h o r (truthy token) same)

  not_again : (o : Options) (t : Text) → (not o.skip_auth && not (renewed o t).retried) ≡ false
  not_again o t = ground arith

  -- Two calls are enough: the second is one request.
  pub api_fetch_from-eq :
      (fuel : ℕ) (h : Handlers N) (path : Text) (o : Options)
      → api_fetch_from env (suc (suc fuel)) h path o ≡ fetch_with (one_request path) h path o
  unfolding api_fetch_from
  api_fetch_from-eq fuel h path o =
      ap (λ f. send env path o >>= f)
        (fun_ext λ r.
          ap (λ run. if is_refused o r then run else finish env r)
            (retry-eq (api_fetch_from env (suc fuel) h path) (one_request path) h o r
              (λ t. api_fetch_from_once fuel h path (renewed o t) (not_again o t))))

  -- The second call is one request.
  pub retried-eq :
      (h : Handlers N) (path : Text) (o : Options) (t : Text)
      → api_fetch_from env 1 h path (renewed o t) ≡ one_request path (renewed o t)
  retried-eq h path o t = api_fetch_from_once 0 h path (renewed o t) (not_again o t)
