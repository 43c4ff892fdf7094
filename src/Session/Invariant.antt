-- ===== src/Session/Invariant.antt =====
-- The invariant of the session, which every operation keeps, however the server answers.
use telecam.Prelude.{◌≡◌, ◌≢◌, ◌∙◌, none, some, arith, inl, inr, sym}
use telecam.Text.{Text}
use telecam.Auth.Users.{AuthUser}
use telecam.Session.World.{
  World, Env, M, Run, returned, thrown, Failure, pure, throw, catch_with, change, final, ◌>>=◌,
}
use telecam.Session.Storage.{set_stored_refresh_token, clear_auth_storage, set_stored_user}
use telecam.Session.Frame.{Frame, IsQuiet}
use telecam.Session.Access.{IsAdmitted, assert_dashboard_access_cases}
use telecam.Session.Provider.{clear_session, handle_session_expired, store_session, apply_session}

-- Both copies of the access token agree, there is a user exactly when there is a token, and a
-- user may use the dashboard.
pub record IsConsistent (w : World) : Type 0 where
  pub tokens_agree : w.access_token ≡ w.access_token_state
  pub user_of_token : w.access_token_state ≢ none → w.user ≢ none
  pub token_of_user : w.user ≢ none → w.access_token_state ≢ none
  pub admitted : (u : AuthUser) → w.user ≡ some u → IsAdmitted u

pub record IsSafe {N A : Type 0} (m : M N A) : Type 0 where
  pub keeps : (w : World) → IsConsistent w → IsConsistent (final (m w))

-- The invariant reads three fields.
pub copy-IsConsistent :
    {w w' : World}
    → IsConsistent w
    → w'.access_token ≡ w.access_token
    → w'.access_token_state ≡ w.access_token_state
    → w'.user ≡ w.user
    → IsConsistent w'
copy-IsConsistent c e f g = record {
  tokens_agree = ground arith;
  user_of_token = ground arith;
  token_of_user = ground arith;
  admitted = λ u h. c.admitted u (sym g ∙ h);
}

Frame-IsConsistent : {w w' : World} → Frame w w' → IsConsistent w → IsConsistent w'
Frame-IsConsistent f c = copy-IsConsistent c f.access_token f.access_token_state f.user

pub IsQuiet-IsSafe : {N A : Type 0} {m : M N A} → IsQuiet m → IsSafe m
IsQuiet-IsSafe q = record { keeps = λ w c. Frame-IsConsistent (q.frame w) c }

pub pure-IsSafe : {N A : Type 0} (a : A) → IsSafe (pure {N = N} a)
pure-IsSafe a = record { keeps = λ w c. c }

pub throw-IsSafe : {N A : Type 0} (e : Failure N) → IsSafe (throw {A = A} e)
throw-IsSafe e = record { keeps = λ w c. c }

pub change-IsSafe :
    {N : Type 0} {f : World → World}
    → ((w : World) → IsConsistent w → IsConsistent (f w))
    → IsSafe (change {N = N} f)
change-IsSafe h = record { keeps = h }

module _ {N A B : Type 0} where
  after-IsConsistent :
      {f : A → M N B} (run : Run N A)
      → ((a : A) → IsSafe (f a))
      → IsConsistent (final run)
      → IsConsistent (final {A = B} (elim run [ returned a v ↦ f a v | thrown e v ↦ thrown e v ]))
  after-IsConsistent (returned a v) r h = (r a).keeps v h
  after-IsConsistent (thrown e v) r h = h

  pub bind-IsSafe :
      {m : M N A} {f : A → M N B} → IsSafe m → ((a : A) → IsSafe (f a)) → IsSafe (m >>= f)
  bind-IsSafe {m} q r = record { keeps = λ w c. after-IsConsistent (m w) r (q.keeps w c) }

module _ {N A : Type 0} where
  caught-IsConsistent :
      {h : Failure N → M N A} (run : Run N A)
      → ((e : Failure N) → IsSafe (h e))
      → IsConsistent (final run)
      → IsConsistent (final {A = A} (elim run [ returned a v ↦ returned a v | thrown e v ↦ h e v ]))
  caught-IsConsistent (returned a v) r c = c
  caught-IsConsistent (thrown e v) r c = (r e).keeps v c

  pub catch_with-IsSafe :
      {m : M N A} {h : Failure N → M N A}
      → IsSafe m
      → ((e : Failure N) → IsSafe (h e))
      → IsSafe (catch_with m h)
  catch_with-IsSafe {m} q r = record { keeps = λ w c. caught-IsConsistent (m w) r (q.keeps w c) }

pub clear_session-IsConsistent : (w : World) → IsConsistent (clear_session w)
unfolding clear_session clear_auth_storage
clear_session-IsConsistent w = record {
  tokens_agree = ground arith;
  user_of_token = ground arith;
  token_of_user = ground arith;
  admitted = λ u e. ground arith;
}

pub handle_session_expired-IsConsistent : (w : World) → IsConsistent (handle_session_expired w)
unfolding handle_session_expired
handle_session_expired-IsConsistent w =
    let c = clear_session-IsConsistent w in
    record {
      tokens_agree = c.tokens_agree;
      user_of_token = c.user_of_token;
      token_of_user = c.token_of_user;
      admitted = c.admitted;
    }

module _ {N : Type 0} (env : Env N) where
  store_session-IsConsistent :
      (access refresh : Text) (user : AuthUser) (w : World)
      → IsAdmitted user
      → IsConsistent (store_session env access refresh user w)
  unfolding store_session set_stored_user set_stored_refresh_token
  store_session-IsConsistent access refresh user w a = record {
    tokens_agree = ground arith;
    user_of_token = ground arith;
    token_of_user = ground arith;
    admitted = λ u e. ground arith;
  }

  pub apply_session-IsSafe :
      (access refresh : Text) (user : AuthUser) → IsSafe (apply_session env access refresh user)
  unfolding apply_session
  apply_session-IsSafe access refresh user = record {
    keeps = λ w c. elim (assert_dashboard_access_cases env w user) [
      | inl (e, a) ↦ rw (e, final) (store_session-IsConsistent access refresh user w a)
      | inr (e, _) ↦ rw (e, final) c
    ];
  }
