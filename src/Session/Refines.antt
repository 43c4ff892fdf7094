-- ===== src/Session/Refines.antt =====
-- The session implements what it promises: every sequence of its operations is one that the view of
-- Session/Spec allows.
use telecam.Prelude.{
  ◌≡◌, refl, ap, ◌⊎◌, inl, inr, true, List, [], ◌∷◌, Option, any, false, none, some,
}
use mathlib.Core.Path.{subst}
use telecam.Text.{Text}
use telecam.Auth.Users.{AuthUser}
use telecam.Session.World.{World, Env, Run, returned, thrown, final, ◌>>=◌}
use telecam.Session.Storage.{truthy, get_stored_refresh_token, set_stored_user}
use telecam.Session.Api.{Options}
use telecam.Session.Requests.{
  LoginResponse, login_request, change_password_request, parse_me_response, assert_dashboard_access,
}
use telecam.Session.Frame.{or_throw-IsQuiet, login_request-IsQuiet}
use telecam.Session.Access.{IsAdmitted, assert_dashboard_access_cases}
use telecam.Session.SignIn.{apply_session_cases}
use telecam.Session.Outcomes.{IsCleared, IsSignedOut, logout-IsSignedOut}
use telecam.Session.Provider.{
  apply_session, login, login_failure, logout, load_session, load_stored, end_loading,
  refresh_session, fetch_page, change_password, change_user, change_stored, token_or_refresh,
  update_user, loading,
}
use telecam.Session.Reach.{
  Step, Reach, here, next, register, sign_in, sign_out, load, refresh, refresh_by_handler, expire,
  new_password, page_request,
}
use telecam.Session.Spec.{
  SessionView, Event, view, signed_out, IsEntered, Renews, Drifts, Allows, Trace, Drifts-trans,
  is_sign_in, is_there-none, Trace-signed_out,
}
use telecam.Session.Spec
use telecam.Session.Drift.{
  Frame-view, clear_session-view, handle_session_expired-view, IsDrift, IsQuiet-IsDrift,
  bind-IsDrift, store_session-IsEntered, Refreshed, refresh_session-Refreshed,
  refresh_session-IsDrift, refresh_handler_ends, api_fetch-IsDrift,
}

IsCleared-view : (w : World) → IsCleared w → view w ≡ signed_out
unfolding view get_stored_refresh_token
IsCleared-view w c = rw (c.no_user, c.no_stored_token)

out-none :
    (v : World)
    → view v ≡ signed_out
    → (v.user ≡ none) × (truthy (get_stored_refresh_token v) ≡ none)
unfolding view
out-none v e = (ap (λ s. s.user) e, is_there-none _ (ap (λ s. s.resumable) e))

module _ {N : Type 0} (env : Env N) where
  -- Signing in keeps what was, or lets an admitted user in.
  abbrev Enters : World → Run N (Unit {0}) → Type 0
  Enters w run = (view (final run) ≡ view w) ⊎ IsEntered (view (final run))

  abbrev caught : Run N (Unit {0}) → Run N (Unit {0})
  caught run = elim run [
    | returned a v ↦ returned a v
    | thrown e v ↦ thrown (login_failure env e) v
  ]

  applied-Enters :
      (access kept : Text) (user : AuthUser) (w v : World)
      → view v ≡ view w
      → Enters w (caught (apply_session env access kept user v))
  applied-Enters access kept user w v e = elim (apply_session_cases env access kept user v) [
    | inl (passed, a) ↦
        rw (passed, caught, final) (inr (store_session-IsEntered env access kept user v a))
    | inr refused ↦ rw (refused, caught, final) (inl e)
  ]

  requested-Enters :
      (w : World) (run : Run N (LoginResponse N))
      → view (final run) ≡ view w
      → Enters w (
          caught (elim run as (λ _. Run N (Unit {0})) [
            | returned r v ↦ apply_session env r.access_token r.refresh_token r.user v
            | thrown e v ↦ thrown e v
          ]))
  requested-Enters w (returned r v) e = applied-Enters r.access_token r.refresh_token r.user w v e
  requested-Enters w (thrown x v) e = inl e

  login-Enters : (email password : Text) (w : World) → Enters w (login env email password w)
  unfolding login
  login-Enters email password w =
      requested-Enters w (login_request env email password w)
        (Frame-view ((login_request-IsQuiet env email password).frame w))

  signed-out-view :
      (w : World) (run : Run N (Unit {0})) → IsSignedOut w run → view (final run) ≡ signed_out
  signed-out-view w (returned a v) (c, _) = IsCleared-view v c
  signed-out-view w (thrown e v) h = absurd h

  logout-view : (w : World) → view (final (logout env w)) ≡ signed_out
  logout-view w = signed-out-view w (logout env w) (logout-IsSignedOut env w)

  abbrev Resumes : World → World → Type 0
  Resumes w v = (view v ≡ signed_out) ⊎ Renews (view w) (view v)

  loaded-Resumes :
      (w u : World) (run : Run N (Option Text))
      → view u ≡ view w
      → Refreshed u run
      → Resumes w (final (end_loading env run))
  unfolding view get_stored_refresh_token
  loaded-Resumes w u (returned t v) e h = subst (λ s. (view v ≡ signed_out) ⊎ Renews s (view v)) e h
  loaded-Resumes w u (thrown x v) e h = inl (clear_session-view v)

  load_stored-Resumes :
      (w u : World) (o : Option Text) → view u ≡ view w → Resumes w (final (load_stored env o u))
  unfolding view get_stored_refresh_token
  load_stored-Resumes w u none e = inl (clear_session-view u)
  load_stored-Resumes w u (some stored) e =
      let v = record u { refresh_token_state = some stored } in
      loaded-Resumes w v (refresh_session env v) e (refresh_session-Refreshed env v)

  load_session-Resumes : (w : World) → Resumes w (final (load_session env w))
  unfolding load_session view get_stored_refresh_token
  load_session-Resumes w =
      load_stored-Resumes w (loading env true w) (truthy (get_stored_refresh_token w)) refl

  -- Behind a check that let the user through, the storage was asked again.
  updated-Drifts :
      (user : AuthUser) (s : SessionView) (token : Option Text) (v : World)
      → IsAdmitted user
      → s.resumable ≡ true
      → Drifts s (view v)
      → Drifts s (view (final (update_user env user (truthy token) v)))
  unfolding view set_stored_user
  updated-Drifts user s none v a p d = d
  updated-Drifts user s (some []) v a p d = d
  updated-Drifts user s (some (c ∷ t)) v a p d = inr (inr (p, (user, refl, a)))

  abbrev then_update : AuthUser → Run N (Option Text) → Run N (Unit {0})
  then_update user run = elim run [
    | returned token v ↦ update_user env user (truthy token) v
    | thrown e v ↦ thrown e v
  ]

  then_update-Drifts :
      (user : AuthUser) (s : SessionView) (run : Run N (Option Text))
      → IsAdmitted user
      → s.resumable ≡ true
      → Drifts s (view (final run))
      → Drifts s (view (final (then_update user run)))
  then_update-Drifts user s (returned token v) a p d = updated-Drifts user s token v a p d
  then_update-Drifts user s (thrown e v) a p d = d

  token_or_refresh-Drifts :
      (access : Option Text) (w : World)
      → Drifts (view w) (view (final (token_or_refresh env access w)))
  token_or_refresh-Drifts none w = (refresh_session-IsDrift env).drift w
  token_or_refresh-Drifts (some t) w = inl refl

  change_stored-Drifts :
      (access : Option Text) (user : AuthUser) (w : World) (o : Option Text)
      → IsAdmitted user
      → truthy (get_stored_refresh_token w) ≡ o
      → Drifts (view w) (view (final (change_stored env access user o w)))
  change_stored-Drifts access user w none a e = inr (inl (clear_session-view w))
  change_stored-Drifts access user w (some stored) a e =
      then_update-Drifts user (view w) (token_or_refresh env access w) a (unfold view in rw e)
        (token_or_refresh-Drifts access w)

  abbrev then_change : Option Text → AuthUser → Run N (Unit {0}) → Run N (Unit {0})
  then_change access user run = elim run [
    | returned a v ↦ change_user env access user v
    | thrown e v ↦ thrown e v
  ]

  checked-IsDrift :
      (access : Option Text) (user : AuthUser)
      → IsDrift (assert_dashboard_access env user >>= λ _. change_user env access user)
  checked-IsDrift access user = record {
    drift = λ w. elim (assert_dashboard_access_cases env w user) [
      | inl (passed, a) ↦
          rw (ap (then_change access user) passed, final)
            (change_stored-Drifts access user w (truthy (get_stored_refresh_token w)) a refl)
      | inr (refused, _) ↦ rw (ap (then_change access user) refused, final) (inl refl)
    ];
  }

  change_password-Drifts :
      (current new : Text) (w : World)
      → Drifts (view w) (view (final (change_password env current new w)))
  unfolding change_password change_password_request parse_me_response
  change_password-Drifts current new w =
      let drifts =
        bind-IsDrift
          (bind-IsDrift (api_fetch-IsDrift env w.registered _ _)
            (λ raw. IsQuiet-IsDrift (or_throw-IsQuiet _ _)))
          (λ user. checked-IsDrift w.access_token_state user) in
      drifts.drift w

  fetch_page-Drifts :
      (path : Text) (o : Options) (w : World)
      → Drifts (view w) (view (final (fetch_page env path o w)))
  unfolding fetch_page
  fetch_page-Drifts path o w = (api_fetch-IsDrift env w.registered path o).drift w

  abbrev pub event : {u v : World} → Step env u v → Event
  event (register w b) = Spec.register
  event (sign_in w email password) = Spec.sign_in
  event (sign_out w) = Spec.sign_out
  event (load w) = Spec.load
  event (refresh w) = Spec.refresh
  event (refresh_by_handler w) = Spec.refresh_by_handler
  event (expire w) = Spec.expire
  event (new_password w current new) = Spec.new_password
  event (page_request w path o) = Spec.page_request

  abbrev pub events : {w v : World} → Reach env w v → List Event
  events here = []
  events (next r s) = event s ∷ events r

  -- One operation.
  Step-Allows : {u v : World} (s : Step env u v) → Allows (event s) (view u) (view v)
  Step-Allows (register w b) = unfold view get_stored_refresh_token in refl
  Step-Allows (sign_in w email password) = login-Enters email password w
  Step-Allows (sign_out w) = logout-view w
  Step-Allows (load w) = load_session-Resumes w
  Step-Allows (refresh w) = (refresh_session-IsDrift env).drift w
  Step-Allows (refresh_by_handler w) = refresh_handler_ends env w
  Step-Allows (expire w) = handle_session_expired-view w
  Step-Allows (new_password w current new) = change_password-Drifts current new w
  Step-Allows (page_request w path o) = fetch_page-Drifts path o w

  -- Every sequence of steps of the session is, seen as the signed-in user and whether the storage
  -- holds a token to resume with, a sequence of moves that the specification allows: a sign-in
  -- keeps what was or lets an admitted user in, a sign-out and an expiry end signed out, a load
  -- and a refresh by the handler end signed out or take a session up again that could be resumed,
  -- and a refresh, a page request and a password change do one of these or nothing.
  pub Reach-Trace : {w v : World} (r : Reach env w v) → Trace (events r) (view w) (view v)
  Reach-Trace here = refl
  Reach-Trace (next {u} r s) = (view u, Reach-Trace r, Step-Allows s)

  -- After a sign-out, whatever steps follow one after another, nobody is signed in and no token is
  -- stored, as long as no sign-in is among them.
  pub Reach-signed_out :
      (w : World) {v : World} (r : Reach env (final (logout env w)) v)
      → any is_sign_in (events r) ≡ false
      → (v.user ≡ none) × (truthy (get_stored_refresh_token v) ≡ none)
  Reach-signed_out w {v} r h =
      out-none v (Trace-signed_out (events r) (Reach-Trace r) h (logout-view w))
