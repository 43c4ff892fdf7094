-- ===== src/Session/Frame.antt =====
-- The requests of auth-api.ts leave the session as it is: they add to the requests that were
-- sent, and may name the device.
use telecam.Prelude.{◌≡◌, refl, true, false, ◌∷◌, Option, none, some, arith, ◌==◌, not, ◌&&◌}
use telecam.Text.{Text}
use telecam.Session.World.{
  World, Response, Env, M, Run, returned, thrown, Failure, pure, or_throw, final, ◌>>=◌,
}
use telecam.Session.Storage.{truthy, name_device, get_or_create_device_fingerprint}
use telecam.Session.Api.{Options, Handlers, receive, request_of, send, finish, api_fetch}
use telecam.Session.Requests.{
  login_request, refresh_request, logout_request, get_me, parse_login_response,
  parse_refresh_response, parse_me_response,
}

-- The same session: all but the requests and the device's name.
pub record Frame (w w' : World) : Type 0 where
  pub access_token : w'.access_token ≡ w.access_token
  pub registered : w'.registered ≡ w.registered
  pub storage_available : w'.storage_available ≡ w.storage_available
  pub stored_refresh_token : w'.stored_refresh_token ≡ w.stored_refresh_token
  pub stored_user : w'.stored_user ≡ w.stored_user
  pub user : w'.user ≡ w.user
  pub access_token_state : w'.access_token_state ≡ w.access_token_state
  pub refresh_token_state : w'.refresh_token_state ≡ w.refresh_token_state
  pub is_loading : w'.is_loading ≡ w.is_loading
  pub replaced : w'.replaced ≡ w.replaced

pub Frame-refl : (w : World) → Frame w w
Frame-refl w = ground arith

pub Frame-trans : {u v w : World} → Frame u v → Frame v w → Frame u w
Frame-trans f g = ground arith

-- A program that leaves the session alone, however it ends.
pub record IsQuiet {N A : Type 0} (m : M N A) : Type 0 where
  pub frame : (w : World) → Frame w (final (m w))

pure-IsQuiet : {N A : Type 0} (a : A) → IsQuiet (pure {N = N} a)
pure-IsQuiet a = record { frame = λ w. Frame-refl w }

pub or_throw-IsQuiet : {N A : Type 0} (o : Option A) (e : Failure N) → IsQuiet (or_throw o e)
or_throw-IsQuiet none e = record { frame = λ w. Frame-refl w }
or_throw-IsQuiet (some a) e = record { frame = λ w. Frame-refl w }

module _ {N A B : Type 0} where
  after-Frame :
      {w : World} {f : A → M N B} (run : Run N A)
      → ((a : A) → IsQuiet (f a))
      → Frame w (final run)
      → Frame w (final {A = B} (elim run [ returned a v ↦ f a v | thrown e v ↦ thrown e v ]))
  after-Frame (returned a v) r h = Frame-trans h ((r a).frame v)
  after-Frame (thrown e v) r h = h

  pub bind-IsQuiet :
      {m : M N A} {f : A → M N B} → IsQuiet m → ((a : A) → IsQuiet (f a)) → IsQuiet (m >>= f)
  bind-IsQuiet {m} q r = record { frame = λ w. after-Frame (m w) r (q.frame w) }

module _ {N : Type 0} (env : Env N) where
  receive-Frame : (w : World) (o : Option Response) → Frame w (final (receive env w o))
  receive-Frame w none = Frame-refl w
  receive-Frame w (some response) = Frame-refl w

  pub send-IsQuiet : (path : Text) (o : Options) → IsQuiet (send env path o)
  unfolding send
  send-IsQuiet path o = record {
    frame = λ w.
        let request = request_of env path o w in
        let frame =
          receive-Frame (record w { requests = request ∷ w.requests })
            (env.server w.requests request) in
        ground arith;
  }

  pub finish-IsQuiet : (response : Response) → IsQuiet (finish env response)
  unfolding finish
  finish-IsQuiet response = record { frame = λ w. ground arith }

  -- With `skipAuth` no handler runs.
  api_fetch-IsQuiet :
      (h : Handlers N) (path : Text) (o : Options)
      → o.skip_auth ≡ true
      → IsQuiet (api_fetch env h path o)
  unfolding api_fetch
  api_fetch-IsQuiet h path o skip = bind-IsQuiet (send-IsQuiet path o) λ r.
      let e : (r.status == 401 && (not o.skip_auth && not o.retried)) ≡ false = ground arith in
      rw e (finish-IsQuiet r)

  name_device-Frame : (w : World) (o : Option Text) → Frame w (final (name_device env w o))
  name_device-Frame w none = ground arith
  name_device-Frame w (some existing) = Frame-refl w

  get_or_create_device_fingerprint-IsQuiet : IsQuiet (get_or_create_device_fingerprint env)
  unfolding get_or_create_device_fingerprint
  get_or_create_device_fingerprint-IsQuiet = record {
    frame = λ w. ground (arith, name_device-Frame w (truthy w.stored_fingerprint), Frame-refl w);
  }

  pub get_me-IsQuiet : (token : Text) → IsQuiet (get_me env token)
  unfolding get_me parse_me_response
  get_me-IsQuiet token = bind-IsQuiet (api_fetch-IsQuiet _ _ _ refl) (λ raw. or_throw-IsQuiet _ _)

  pub refresh_request-IsQuiet : (token : Text) → IsQuiet (refresh_request env token)
  unfolding refresh_request parse_refresh_response
  refresh_request-IsQuiet token =
      bind-IsQuiet (api_fetch-IsQuiet _ _ _ refl) (λ raw. or_throw-IsQuiet _ _)

  pub logout_request-IsQuiet :
      (refresh : Text) (access : Option Text) → IsQuiet (logout_request env refresh access)
  unfolding logout_request
  logout_request-IsQuiet refresh access =
      bind-IsQuiet (api_fetch-IsQuiet _ _ _ refl) (λ raw. pure-IsQuiet tt)

  pub login_request-IsQuiet : (email password : Text) → IsQuiet (login_request env email password)
  unfolding login_request parse_login_response
  login_request-IsQuiet email password =
      bind-IsQuiet get_or_create_device_fingerprint-IsQuiet
        λ fingerprint. bind-IsQuiet (api_fetch-IsQuiet _ _ _ refl) (λ raw. or_throw-IsQuiet _ _)
