-- ===== src/Session/SignedIn.antt =====
-- A request that returns leaves a session with a token, if there was one before: the provider's
-- handler for a 401 either brings a new token or makes the request fail.
use telecam.Prelude.{
  ◌≡◌, refl, ◌≢◌, ◌∙◌, Bool, true, false, Option, none, some, arith, inl, inr, ap, sym, Bool-cases,
  get_or, [], ◌∷◌, ◌==◌, not, ◌&&◌,
}
use mathlib.Core.Path.{subst, subst₂}
use telecam.Text.{Text}
use telecam.Json.Defs.{Json}
use telecam.Auth.Users.{AuthUser}
use telecam.Session.World.{
  World, Env, M, Run, Response, returned, thrown, Failure, pure, throw, final, catch_with, change,
  ◌>>=◌,
}
use telecam.Session.Storage.{
  truthy, get_stored_refresh_token, set_stored_user, set_stored_refresh_token,
}
use telecam.Session.Api.{
  Options, retry, api_fetch, api_fetch_from, send_again, refresh_access_token,
  trigger_session_expired, failed,
}
use telecam.Session.Requests.{
  refresh_request, assert_dashboard_access, change_password_request, parse_me_response,
}
use telecam.Session.Frame.{Frame, IsQuiet, send-IsQuiet, finish-IsQuiet, or_throw-IsQuiet}
use telecam.Session.Operations.{retried-IsQuiet}
use telecam.Session.Provider.{
  apply_session, store_session, clear_session, load_profile, handle_session_expired, refresh_stored,
  refresh_session, refresh_handler, handlers_of,
}

abbrev pub IsSignedIn : World → Type 0
IsSignedIn w = w.access_token_state ≢ none

-- What holds of the result and the world if the program returns, from the worlds in `P`.
pub record Triple {N A : Type 0} (P : World → Type 0) (m : M N A) (Q : A → World → Type 0)
    : Type 0 where
  pub run : (w : World) → P w → (a : A) (v : World) → m w ≡ returned a v → Q a v

abbrev pub Anything : World → Type 0
Anything w = Unit

abbrev pub Whatever : {A : Type 0} → A → World → Type 0
Whatever a w = Unit

pub any-Triple : {N A : Type 0} {P : World → Type 0} (m : M N A) → Triple P m Whatever
any-Triple m = record { run = λ w p a v e. tt }

weaken-Triple :
    {N A : Type 0} {m : M N A} {P R : World → Type 0} {Q : A → World → Type 0}
    → ((w : World) → P w → R w)
    → Triple R m Q
    → Triple P m Q
weaken-Triple h t = record { run = λ w p. t.run w (h w p) }

module _ {N A B : Type 0} where
  after-Triple :
      {f : A → M N B} {R : A → World → Type 0} {Q : B → World → Type 0} (run : Run N A)
      → ((a : A) (u : World) → run ≡ returned a u → R a u)
      → ((a : A) → Triple (R a) (f a) Q)
      → (b : B) (v : World)
      → elim run as (λ _. Run N B) [ returned a u ↦ f a u | thrown e u ↦ thrown e u ] ≡ returned b v
      → Q b v
  after-Triple (returned a u) r h b v e = (h a).run u (r a u refl) b v e
  after-Triple (thrown x u) r h b v e = cc

  pub bind-Triple :
      {m : M N A} {f : A → M N B} {P : World → Type 0} {R : A → World → Type 0}
      {Q : B → World → Type 0}
      → Triple P m R
      → ((a : A) → Triple (R a) (f a) Q)
      → Triple P (m >>= f) Q
  bind-Triple {m} t h = record { run = λ w p b v e. after-Triple (m w) (t.run w p) h b v e }

-- The result of a run, if it has one.
abbrev result_or : {N A : Type 0} → A → Run N A → A
result_or d (returned a w) = a
result_or d (thrown e w) = d

module _ {N A : Type 0} where
  caught-Triple :
      {h : Failure N → M N A} {Q : A → World → Type 0} (run : Run N A)
      → ((a : A) (u : World) → run ≡ returned a u → Q a u)
      → ((x : Failure N) → Triple Anything (h x) Q)
      → (b : A) (v : World)
      → elim run as (λ _. Run N A) [ returned a u ↦ returned a u | thrown x u ↦ h x u ]
        ≡ returned b v
      → Q b v
  caught-Triple (returned a u) r h b v e = r b v e
  caught-Triple (thrown x u) r h b v e = (h x).run u tt b v e

  pub catch_with-Triple :
      {m : M N A} {h : Failure N → M N A} {P : World → Type 0} {Q : A → World → Type 0}
      → Triple P m Q
      → ((x : Failure N) → Triple Anything (h x) Q)
      → Triple P (catch_with m h) Q
  catch_with-Triple {m} t h = record { run = λ w p b v e. caught-Triple (m w) (t.run w p) h b v e }

pub pure-Triple :
    {N A : Type 0} {P : World → Type 0} {Q : A → World → Type 0} (a : A)
    → ((w : World) → P w → Q a w)
    → Triple P (pure {N = N} a) Q
pure-Triple {Q} a h = record {
  run = λ w p b v e. subst₂ Q (ap (result_or a) e) (ap final e) (h w p);
}

pub throw-Triple :
    {N A : Type 0} {P : World → Type 0} {Q : A → World → Type 0} (x : Failure N)
    → Triple P (throw x) Q
throw-Triple x = record { run = λ w p b v e. cc }

-- A token comes with a session.
abbrev pub IsBacked : Option Text → World → Type 0
IsBacked token v = token ≢ none → IsSignedIn v

abbrev pub StillSignedIn : {A : Type 0} → A → World → Type 0
StillSignedIn a v = IsSignedIn v

IsQuiet-Triple : {N A : Type 0} {m : M N A} → IsQuiet m → Triple IsSignedIn m StillSignedIn
IsQuiet-Triple q = record {
  run = λ w p a v e.
      let f : Frame w v = rw (e, final) at (q.frame w) in λ h. p (sym f.access_token_state ∙ h);
}

change-Triple :
    {N : Type 0} {P : World → Type 0} (f : World → World)
    → ((w : World) → P w → IsSignedIn (f w))
    → Triple P (change {N = N} f) StillSignedIn
change-Triple f h = record { run = λ w p a v e. subst IsSignedIn (ap final e) (h w p) }

module _ {N : Type 0} (env : Env N) where
  store_session-IsSignedIn :
      (access refresh : Text) (user : AuthUser) (w : World)
      → IsSignedIn (store_session env access refresh user w)
  unfolding store_session set_stored_user set_stored_refresh_token
  store_session-IsSignedIn access refresh user w = ground arith

  pub apply_session-IsSignedIn :
      {P : World → Type 0} (access refresh : Text) (user : AuthUser)
      → Triple P (apply_session env access refresh user) StillSignedIn
  unfolding apply_session
  apply_session-IsSignedIn access refresh user =
      bind-Triple (any-Triple (assert_dashboard_access env user)) λ _.
        change-Triple (store_session env access refresh user)
          (λ w p. store_session-IsSignedIn access refresh user w)

  refresh_stored-IsBacked :
      {P : World → Type 0} (o : Option Text) → Triple P (refresh_stored env o) IsBacked
  unfolding refresh_stored
  refresh_stored-IsBacked none =
      bind-Triple (any-Triple (change clear_session))
        (λ _. pure-Triple none (λ w p h. absurd (h refl)))
  refresh_stored-IsBacked (some stored) =
      bind-Triple (any-Triple (refresh_request env stored)) λ refreshed.
        bind-Triple (any-Triple (load_profile env refreshed)) λ user.
          bind-Triple
            (apply_session-IsSignedIn refreshed.access_token (get_or refreshed.refresh_token stored)
              user)
            (λ _. pure-Triple (some refreshed.access_token) (λ w p h. p))

  pub refresh_session-IsBacked : {P : World → Type 0} → Triple P (refresh_session env) IsBacked
  unfolding refresh_session
  refresh_session-IsBacked {P} = record {
    run = λ w. (refresh_stored-IsBacked {P = P} (truthy (get_stored_refresh_token w))).run w;
  }

  refresh_handler-IsBacked : {P : World → Type 0} → Triple P (refresh_handler env) IsBacked
  unfolding refresh_handler
  refresh_handler-IsBacked = catch_with-Triple refresh_session-IsBacked λ e.
      bind-Triple (any-Triple (change handle_session_expired))
        (λ _. pure-Triple none (λ w p h. absurd (h refl)))

  refresh_access_token-IsBacked :
      {P : World → Type 0} (b : Bool)
      → Triple P (refresh_access_token env (handlers_of env b)) IsBacked
  unfolding refresh_access_token
  refresh_access_token-IsBacked true = refresh_handler-IsBacked
  refresh_access_token-IsBacked false = pure-Triple none (λ w p h. absurd (h refl))

  send_again-IsSignedIn :
      (b : Bool) (path : Text) (o : Options) (response : Response) (token : Option Text)
      → Triple
          (IsBacked token)
          (send_again env
            (handlers_of env b)
            (api_fetch_from env 1 (handlers_of env b) path)
            o
            response
            (truthy token))
          StillSignedIn
  send_again-IsSignedIn b path o response none =
      bind-Triple (any-Triple (trigger_session_expired env (handlers_of env b)))
        (λ _. throw-Triple (failed env response 401))
  send_again-IsSignedIn b path o response (some []) =
      bind-Triple (any-Triple (trigger_session_expired env (handlers_of env b)))
        (λ _. throw-Triple (failed env response 401))
  send_again-IsSignedIn b path o response (some (c ∷ s)) =
      weaken-Triple (λ w p. p (λ e. cc))
        (IsQuiet-Triple (retried-IsQuiet env (handlers_of env b) path o _))

  pub api_fetch-IsSignedIn :
      (b : Bool) (path : Text) (o : Options)
      → Triple IsSignedIn (api_fetch env (handlers_of env b) path o) StillSignedIn
  unfolding api_fetch api_fetch_from retry
  api_fetch-IsSignedIn b path o = bind-Triple (IsQuiet-Triple (send-IsQuiet env path o)) λ r.
      elim (Bool-cases (r.status == 401 && (not o.skip_auth && not o.retried))) [
        | inl e ↦ rw e (
            bind-Triple (refresh_access_token-IsBacked b)
              (λ token. send_again-IsSignedIn b path o r token))
        | inr e ↦ rw e (IsQuiet-Triple (finish-IsQuiet env r))
      ]

  -- A request of a page that returns leaves an access token, if there was one before, also where
  -- it refreshed the session on the way.
  pub api_fetch-keeps-IsSignedIn :
      (b : Bool) (path : Text) (o : Options) (w v : World) (answer : Json N)
      → IsSignedIn w
      → api_fetch env (handlers_of env b) path o w ≡ returned answer v
      → IsSignedIn v
  api_fetch-keeps-IsSignedIn b path o w v answer signed e =
      (api_fetch-IsSignedIn b path o).run w signed answer v e

  pub change_password_request-IsSignedIn :
      (b : Bool) (current new : Text)
      → Triple IsSignedIn
          (change_password_request env (handlers_of env b) current new)
          StillSignedIn
  unfolding change_password_request parse_me_response
  change_password_request-IsSignedIn b current new =
      bind-Triple (api_fetch-IsSignedIn b _ _) (λ raw. IsQuiet-Triple (or_throw-IsQuiet _ _))
