-- ===== src/Session/Outcomes.antt =====
-- How the operations of the session end.
use telecam.Prelude.{
  ◌≡◌, refl, ◌⊎◌, inl, inr, true, false, ◌∷◌, Option, none, some, get_or, arith, ap,
}
use mathlib.Core.Path.{subst}
use telecam.Text.{Text, text}
use telecam.Session.World.{World, Env, Run, returned, thrown, final, change}
use telecam.Session.Storage.{truthy, clear_auth_storage, get_stored_refresh_token}
use telecam.Session.Requests.{refresh_request, logout_request}
use telecam.Session.SignedIn.{
  IsSignedIn, Triple, Anything, any-Triple, bind-Triple, pure-Triple, apply_session-IsSignedIn,
}
use telecam.Session.Frame.{Frame, logout_request-IsQuiet}
use telecam.Session.Provider.{
  refresh_stored, refresh_session, load_profile, loading, clear_session, logout, logout_stored,
  replace, load_session, load_stored, end_loading,
}

-- Nothing of a session is left, in the program and, where it can be used, in the storage.
pub record IsCleared (w : World) : Type 0 where
  pub no_user : w.user ≡ none
  pub no_token : w.access_token ≡ none
  pub no_token_state : w.access_token_state ≡ none
  pub no_refresh_state : w.refresh_token_state ≡ none
  pub no_stored_token : get_stored_refresh_token w ≡ none
  pub no_stored_user : w.storage_available ≡ true → w.stored_user ≡ none

clear_session-IsCleared : (w : World) → IsCleared (clear_session w)
unfolding clear_session clear_auth_storage get_stored_refresh_token
clear_session-IsCleared w = record {
  no_user = ground arith;
  no_token = ground arith;
  no_token_state = ground arith;
  no_refresh_state = ground arith;
  no_stored_token = ground arith;
  no_stored_user = ground arith;
}

-- What `IsCleared` reads is not touched.
Frame-IsCleared : {u v : World} → Frame u v → IsCleared u → IsCleared v
unfolding get_stored_refresh_token
Frame-IsCleared f c = record {
  no_user = ground arith;
  no_token = ground arith;
  no_token_state = ground arith;
  no_refresh_state = ground arith;
  no_stored_token = ground arith;
  no_stored_user = ground arith;
}

moved-IsCleared : {u : World} (path : Text) → IsCleared u → IsCleared (replace path u)
unfolding get_stored_refresh_token
moved-IsCleared path c = record {
  no_user = c.no_user;
  no_token = c.no_token;
  no_token_state = c.no_token_state;
  no_refresh_state = c.no_refresh_state;
  no_stored_token = c.no_stored_token;
  no_stored_user = c.no_stored_user;
}

done_loading-IsCleared : (v : World) → IsCleared v → IsCleared (record v { is_loading = false })
unfolding get_stored_refresh_token
done_loading-IsCleared v c = record {
  no_user = c.no_user;
  no_token = c.no_token;
  no_token_state = c.no_token_state;
  no_refresh_state = c.no_refresh_state;
  no_stored_token = c.no_stored_token;
  no_stored_user = c.no_stored_user;
}

-- The end of `loadSession`: nothing is loading, and without a token nothing of a session is left.
abbrev pub IsSettled : {N : Type 0} → Run N (Unit {0}) → Type 0
IsSettled (returned _ v) = (v.is_loading ≡ false) × (IsCleared v ⊎ IsSignedIn v)
IsSettled (thrown x v) = ⊥

-- How a refresh that returns ends.
module _ {N : Type 0} (env : Env N) where
  abbrev EndsWell : Option Text → World → Type 0
  EndsWell t v = IsCleared v ⊎ IsSignedIn v

  change-IsCleared-Triple : Triple Anything (change {N = N} clear_session) (λ _ v. IsCleared v)
  change-IsCleared-Triple = record {
    run = λ w p a v e. subst IsCleared (ap final e) (clear_session-IsCleared w);
  }

  refresh_stored-ends : (o : Option Text) → Triple Anything (refresh_stored env o) (EndsWell)
  unfolding refresh_stored
  refresh_stored-ends none =
      bind-Triple (change-IsCleared-Triple) (λ _. pure-Triple none (λ w p. inl p))
  refresh_stored-ends (some stored) =
      bind-Triple (any-Triple (refresh_request env stored)) λ refreshed.
        bind-Triple (any-Triple (load_profile env refreshed)) λ user.
          bind-Triple
            (apply_session-IsSignedIn env refreshed.access_token
              (get_or refreshed.refresh_token stored) user)
            (λ _. pure-Triple (some refreshed.access_token) (λ w p. inr p))

  refresh_session-ends : Triple Anything (refresh_session env) EndsWell
  unfolding refresh_session
  refresh_session-ends = record {
    run = λ w. (refresh_stored-ends (truthy (get_stored_refresh_token w))).run w;
  }

-- The sign-in page is the next page.
abbrev pub IsSignedOut : {N : Type 0} → World → Run N (Unit {0}) → Type 0
IsSignedOut w (returned _ v) = IsCleared v × (v.replaced ≡ text "/login" ∷ w.replaced)
IsSignedOut w (thrown e v) = ⊥

module _ {N : Type 0} (env : Env N) where
  after_request-IsSignedOut :
      (w u : World) (run : Run N (Unit {0}))
      → Frame u (final run)
      → IsCleared u
      → u.replaced ≡ w.replaced
      → IsSignedOut w
          (elim (elim run as (λ _. Run N (Unit {0})) [
            | returned a v ↦ returned a v
            | thrown e v ↦ returned tt v
          ])
            as (λ _. Run N (Unit {0})) [
              | returned a v ↦ returned tt (replace (text "/login") v)
              | thrown e v ↦ thrown e v
            ])
  after_request-IsSignedOut w u (returned a v) f c e =
      (moved-IsCleared (text "/login") (Frame-IsCleared f c), ground arith)
  after_request-IsSignedOut w u (thrown x v) f c e =
      (moved-IsCleared (text "/login") (Frame-IsCleared f c), ground arith)

  logout_stored-IsSignedOut :
      (access stored : Option Text) (w u : World)
      → IsCleared u
      → u.replaced ≡ w.replaced
      → IsSignedOut w (logout_stored env access stored u)
  logout_stored-IsSignedOut access none w u c e = (moved-IsCleared (text "/login") c, ground arith)
  logout_stored-IsSignedOut access (some stored) w u c e =
      after_request-IsSignedOut w u (logout_request env stored access u)
        ((logout_request-IsQuiet env stored access).frame u) c e

  -- Signing out always returns and clears the session in the program and, where it can be used, in
  -- the storage, also where the server cannot be reached or refuses; the browser is then sent to
  -- the sign-in page.
  pub logout-IsSignedOut : (w : World) → IsSignedOut w (logout env w)
  unfolding logout
  logout-IsSignedOut w =
      logout_stored-IsSignedOut w.access_token_state (truthy (get_stored_refresh_token w)) w
        (clear_session w) (clear_session-IsCleared w)
        (unfold clear_session clear_auth_storage in ground arith)

  refreshed-IsSettled :
      (run : Run N (Option Text))
      → ((t : Option Text) (v : World) → run ≡ returned t v → IsCleared v ⊎ IsSignedIn v)
      → IsSettled (end_loading env run)
  refreshed-IsSettled (returned t v) h = (refl, loaded (h t v refl))
    where
      loaded : IsCleared v ⊎ IsSignedIn v → IsCleared (loading env false v) ⊎ IsSignedIn v
      loaded (inl c) = inl (done_loading-IsCleared v c)
      loaded (inr s) = inr s
  refreshed-IsSettled (thrown x v) h =
      (refl, inl (done_loading-IsCleared (clear_session v) (clear_session-IsCleared v)))

  load_stored-IsSettled : (o : Option Text) (w : World) → IsSettled (load_stored env o w)
  load_stored-IsSettled none w =
      (refl, inl (done_loading-IsCleared (clear_session w) (clear_session-IsCleared w)))
  load_stored-IsSettled (some stored) w =
      refreshed-IsSettled (refresh_session env (record w { refresh_token_state = some stored }))
        ((refresh_session-ends env).run (record w { refresh_token_state = some stored }) tt)

  -- Loading the session always returns; then nothing is loading any more, and either there is a
  -- token or the session is cleared.
  pub load_session-IsSettled : (w : World) → IsSettled (load_session env w)
  unfolding load_session
  load_session-IsSettled w =
      load_stored-IsSettled (truthy (get_stored_refresh_token w)) (loading env true w)
