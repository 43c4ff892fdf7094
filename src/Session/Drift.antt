-- ===== src/Session/Drift.antt =====
-- What the requests and the refreshes may do to who is signed in.
use telecam.Prelude.{
  ◌≡◌, refl, ◌∙◌, ◌⊎◌, inl, inr, Bool, true, false, Option, none, some, arith, Bool-cases, ◌==◌,
  not, ◌&&◌, get_or,
}
use telecam.Text.{Text}
use telecam.Auth.Users.{AuthUser}
use telecam.Session.World.{
  World, Response, Env, M, Run, returned, thrown, Failure, pure, throw, change, final, ◌>>=◌,
}
use telecam.Session.Storage.{truthy, get_stored_refresh_token, clear_auth_storage}
use telecam.Session.Api.{
  Options, retry, api_fetch, api_fetch_from, send_again, refresh_access_token,
  trigger_session_expired,
}
use telecam.Session.Requests.{RefreshResponse, get_me, refresh_request}
use telecam.Session.Frame.{
  Frame, IsQuiet, get_me-IsQuiet, refresh_request-IsQuiet, send-IsQuiet, finish-IsQuiet,
}
use telecam.Session.Access.{IsAdmitted}
use telecam.Session.SignIn.{apply_session_cases}
use telecam.Session.Operations.{retried-IsQuiet}
use telecam.Session.Provider.{
  clear_session, handle_session_expired, store_session, apply_session, fallback_user, load_user,
  load_profile, refresh_stored, refresh_session, refresh_handler, handlers_of,
}
use telecam.Session.Spec.{SessionView, view, signed_out, IsEntered, Renews, Drifts, Drifts-trans}

pub Frame-view : {w v : World} → Frame w v → view v ≡ view w
unfolding view get_stored_refresh_token
Frame-view f = ground arith

pub clear_session-view : (w : World) → view (clear_session w) ≡ signed_out
unfolding view clear_session clear_auth_storage get_stored_refresh_token
clear_session-view w = ground arith

pub handle_session_expired-view : (w : World) → view (handle_session_expired w) ≡ signed_out
unfolding view handle_session_expired clear_session clear_auth_storage get_stored_refresh_token
handle_session_expired-view w = ground arith

-- A program that drifts, however it ends.
pub record IsDrift {N A : Type 0} (m : M N A) : Type 0 where
  pub drift : (w : World) → Drifts (view w) (view (final (m w)))

pub IsQuiet-IsDrift : {N A : Type 0} {m : M N A} → IsQuiet m → IsDrift m
IsQuiet-IsDrift q = record { drift = λ w. inl (Frame-view (q.frame w)) }

pub pure-IsDrift : {N A : Type 0} (a : A) → IsDrift (pure {N = N} a)
pure-IsDrift a = record { drift = λ w. inl refl }

throw-IsDrift : {N A : Type 0} (e : Failure N) → IsDrift (throw {A = A} e)
throw-IsDrift e = record { drift = λ w. inl refl }

pub change-IsDrift :
    {N : Type 0} {f : World → World}
    → ((w : World) → view (f w) ≡ signed_out)
    → IsDrift (change {N = N} f)
change-IsDrift h = record { drift = λ w. inr (inl (h w)) }

module _ {N A B : Type 0} where
  after-Drifts :
      {f : A → M N B} (s : SessionView) (run : Run N A)
      → ((a : A) → IsDrift (f a))
      → Drifts s (view (final run))
      → Drifts s
          (view (final {A = B} (elim run [ returned a v ↦ f a v | thrown e v ↦ thrown e v ])))
  after-Drifts {f} s (returned a v) r h =
      Drifts-trans s (view v) (view (final (f a v))) h ((r a).drift v)
  after-Drifts s (thrown e v) r h = h

  pub bind-IsDrift :
      {m : M N A} {f : A → M N B} → IsDrift m → ((a : A) → IsDrift (f a)) → IsDrift (m >>= f)
  bind-IsDrift {m} q r = record { drift = λ w. after-Drifts (view w) (m w) r (q.drift w) }

-- A refresh that returns signs out or takes the session up again; one that fails leaves it.
abbrev pub Refreshed : {N : Type 0} → World → Run N (Option Text) → Type 0
Refreshed w (returned t v) = (view v ≡ signed_out) ⊎ Renews (view w) (view v)
Refreshed w (thrown e v) = view v ≡ view w

pub Refreshed-Drifts :
    {N : Type 0} (w : World) (run : Run N (Option Text))
    → Refreshed w run
    → Drifts (view w) (view (final run))
Refreshed-Drifts w (returned t v) h = inr h
Refreshed-Drifts w (thrown e v) h = inl h

module _ {N A : Type 0} where
  after-Refreshed :
      (f : A → M N (Option Text)) (w : World) (run : Run N A)
      → ((a : A) (v : World) → view v ≡ view w → Refreshed w (f a v))
      → view (final run) ≡ view w
      → Refreshed w (elim run as (λ _. Run N (Option Text)) [
        | returned a v ↦ f a v
        | thrown e v ↦ thrown e v
      ])
  after-Refreshed f w (returned a v) r h = r a v h
  after-Refreshed f w (thrown e v) r h = h

module _ {N : Type 0} (env : Env N) where
  pub store_session-IsEntered :
      (access refresh : Text) (user : AuthUser) (w : World)
      → IsAdmitted user
      → IsEntered (view (store_session env access refresh user w))
  unfolding view store_session
  store_session-IsEntered access refresh user w a = (user, refl, a)

  load_user-Frame :
      (o : Option AuthUser) (e : Failure N) (w v : World)
      → Frame w v
      → Frame w (final (load_user env o e v))
  load_user-Frame none e w v f = f
  load_user-Frame (some u) e w v f = f

  caught-Frame :
      (o : Option AuthUser) (w : World) (run : Run N AuthUser)
      → Frame w (final run)
      → Frame w (
          final {A = AuthUser}
            (elim run [ returned u v ↦ returned u v | thrown e v ↦ load_user env o e v ]))
  caught-Frame o w (returned u v) f = f
  caught-Frame o w (thrown e v) f = load_user-Frame o e w v f

  load_profile-IsQuiet : (refreshed : RefreshResponse N) → IsQuiet (load_profile env refreshed)
  unfolding load_profile
  load_profile-IsQuiet refreshed = record {
    frame = λ w.
        caught-Frame (fallback_user env refreshed w) w (get_me env refreshed.access_token w)
          ((get_me-IsQuiet env refreshed.access_token).frame w);
  }

  abbrev then_token : Text → Run N (Unit {0}) → Run N (Option Text)
  then_token token run = elim run [
    | returned a v ↦ returned (some token) v
    | thrown e v ↦ thrown e v
  ]

  applied-Refreshed :
      (access refresh : Text) (user : AuthUser) (w v : World)
      → (view w).resumable ≡ true
      → view v ≡ view w
      → Refreshed w (then_token access (apply_session env access refresh user v))
  applied-Refreshed access refresh user w v p e =
      elim (apply_session_cases env access refresh user v) [
        | inl (passed, a) ↦
            rw (passed, then_token, Refreshed)
              (inr (p, store_session-IsEntered access refresh user v a))
        | inr refused ↦ rw (refused, then_token, Refreshed) e
      ]

  refresh_stored-Refreshed :
      (w : World) (o : Option Text)
      → truthy (get_stored_refresh_token w) ≡ o
      → Refreshed w (refresh_stored env o w)
  unfolding refresh_stored
  refresh_stored-Refreshed w none e = inl (clear_session-view w)
  refresh_stored-Refreshed w (some stored) e =
      let p : (view w).resumable ≡ true = unfold view in rw e in
      after-Refreshed _ w (refresh_request env stored w)
        (λ refreshed u f.
          after-Refreshed _ w (load_profile env refreshed u)
            (λ user v g.
              applied-Refreshed refreshed.access_token (get_or refreshed.refresh_token stored) user
                w v p g)
            (Frame-view ((load_profile-IsQuiet refreshed).frame u) ∙ f))
        (Frame-view ((refresh_request-IsQuiet env stored).frame w))

  pub refresh_session-Refreshed : (w : World) → Refreshed w (refresh_session env w)
  unfolding refresh_session
  refresh_session-Refreshed w =
      refresh_stored-Refreshed w (truthy (get_stored_refresh_token w)) refl

  pub refresh_session-IsDrift : IsDrift (refresh_session env)
  refresh_session-IsDrift = record {
    drift = λ w. Refreshed-Drifts w (refresh_session env w) (refresh_session-Refreshed w);
  }

  abbrev or_expire : Run N (Option Text) → Run N (Option Text)
  or_expire run = elim run [
    | returned t v ↦ returned t v
    | thrown e v ↦ returned none (handle_session_expired v)
  ]

  handled :
      (w : World) (run : Run N (Option Text))
      → Refreshed w run
      → (view (final (or_expire run)) ≡ signed_out) ⊎ Renews (view w) (view (final (or_expire run)))
  handled w (returned t v) h = h
  handled w (thrown e v) h = inl (handle_session_expired-view v)

  -- The handler signs out or takes the session up again.
  pub refresh_handler_ends :
      (w : World)
      → (view (final (refresh_handler env w)) ≡ signed_out)
        ⊎ Renews (view w) (view (final (refresh_handler env w)))
  unfolding refresh_handler
  refresh_handler_ends w = handled w (refresh_session env w) (refresh_session-Refreshed w)

  refresh_access_token-IsDrift : (b : Bool) → IsDrift (refresh_access_token env (handlers_of env b))
  unfolding refresh_access_token
  refresh_access_token-IsDrift true = record { drift = λ w. inr (refresh_handler_ends w) }
  refresh_access_token-IsDrift false = pure-IsDrift none

  trigger_session_expired-IsDrift :
      (b : Bool) → IsDrift (trigger_session_expired env (handlers_of env b))
  unfolding trigger_session_expired
  trigger_session_expired-IsDrift true = change-IsDrift handle_session_expired-view
  trigger_session_expired-IsDrift false = pure-IsDrift tt

  send_again-IsDrift :
      (b : Bool) (path : Text) (o : Options) (response : Response) (token : Option Text)
      → IsDrift (
          send_again env
            (handlers_of env b)
            (api_fetch_from env 1 (handlers_of env b) path)
            o
            response
            token)
  send_again-IsDrift b path o response none =
      bind-IsDrift (trigger_session_expired-IsDrift b) (λ _. throw-IsDrift _)
  send_again-IsDrift b path o response (some new) =
      IsQuiet-IsDrift (retried-IsQuiet env (handlers_of env b) path o _)

  -- Any request of a page.
  pub api_fetch-IsDrift :
      (b : Bool) (path : Text) (o : Options) → IsDrift (api_fetch env (handlers_of env b) path o)
  unfolding api_fetch api_fetch_from retry
  api_fetch-IsDrift b path o = bind-IsDrift (IsQuiet-IsDrift (send-IsQuiet env path o)) λ r.
      elim (Bool-cases (r.status == 401 && (not o.skip_auth && not o.retried))) [
        | inl e ↦ rw e (
            bind-IsDrift (refresh_access_token-IsDrift b)
              (λ token. send_again-IsDrift b path o r (truthy token)))
        | inr e ↦ rw e (IsQuiet-IsDrift (finish-IsQuiet env r))
      ]
