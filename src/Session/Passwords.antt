-- ===== src/Session/Passwords.antt =====
-- `changePassword` keeps the invariant of the session.
use telecam.Prelude.{◌≡◌, refl, Option, none, some, [], ◌∷◌, arith, inl, inr, ap}
use mathlib.Core.Path.{subst}
use telecam.Text.{Text}
use telecam.Auth.Users.{AuthUser}
use telecam.Session.World.{World, Env, M, Run, returned, thrown, final, ◌>>=◌}
use telecam.Session.Storage.{truthy, set_stored_user, get_stored_refresh_token}
use telecam.Session.Requests.{assert_dashboard_access}
use telecam.Session.Access.{IsAdmitted, assert_dashboard_access_cases}
use telecam.Session.Provider.{
  token_or_refresh, update_user, change_stored, change_user, change_password,
}
use telecam.Session.Invariant.{
  IsConsistent, IsSafe, pure-IsSafe, change-IsSafe, clear_session-IsConsistent,
}
use telecam.Session.Operations.{refresh_session-IsSafe, change_password_request-IsSafe}
use telecam.Session.SignedIn.{
  IsSignedIn, IsBacked, Triple, StillSignedIn, pure-Triple, refresh_session-IsBacked,
  change_password_request-IsSignedIn,
}

-- A program that keeps the invariant from the worlds in `P`.
record IsSafeIn {N A : Type 0} (P : World → Type 0) (m : M N A) : Type 0 where
  keeps : (w : World) → P w → IsConsistent w → IsConsistent (final (m w))

safe_anywhere : {N A : Type 0} {P : World → Type 0} {m : M N A} → IsSafe m → IsSafeIn P m
safe_anywhere s = record { keeps = λ w p. s.keeps w }

module _ {N A B : Type 0} where
  after-IsSafeIn :
      {f : A → M N B} {R : A → World → Type 0} (run : Run N A)
      → ((a : A) (v : World) → run ≡ returned a v → R a v)
      → ((a : A) → IsSafeIn (R a) (f a))
      → IsConsistent (final run)
      → IsConsistent (final {A = B} (elim run [ returned a v ↦ f a v | thrown e v ↦ thrown e v ]))
  after-IsSafeIn (returned a v) r h c = (h a).keeps v (r a v refl) c
  after-IsSafeIn (thrown e v) r h c = c

  bind-IsSafeIn :
      {m : M N A} {f : A → M N B} {P : World → Type 0} {R : A → World → Type 0}
      → IsSafe m
      → Triple P m R
      → ((a : A) → IsSafeIn (R a) (f a))
      → IsSafeIn P (m >>= f)
  bind-IsSafeIn {m} s t h = record {
    keeps = λ w p c. after-IsSafeIn (m w) (t.run w p) h (s.keeps w c);
  }

IsBacked-Triple :
    {N A : Type 0} {m : M N A} (access : Option Text)
    → Triple IsSignedIn m StillSignedIn
    → Triple (IsBacked access) m (λ _. IsBacked access)
IsBacked-Triple none t = record { run = λ w p a v e h. absurd (h refl) }
IsBacked-Triple (some s) t = record { run = λ w p a v e h. t.run w (p h) a v e }

module _ {N : Type 0} (env : Env N) where
  assert-IsSafe : (user : AuthUser) → IsSafe (assert_dashboard_access env user)
  assert-IsSafe user = record {
    keeps = λ w c. elim (assert_dashboard_access_cases env w user) [
      | inl (e, _) ↦ rw (e, final) c
      | inr (e, _) ↦ rw (e, final) c
    ];
  }

  -- The world and the user behind a check that let the user through.
  abbrev Admits : AuthUser → Option Text → World → Type 0
  Admits user access w = IsBacked access w × IsAdmitted user

  assert-Triple :
      (user : AuthUser) (access : Option Text)
      → Triple (IsBacked access) (assert_dashboard_access env user) (λ _. Admits user access)
  assert-Triple user access = record {
    run = λ w p a v e. elim (assert_dashboard_access_cases env w user) [
      | inl (ok, admitted) ↦ (subst (IsBacked access) (ap final (rw ok at e)) p, admitted)
      | inr (refused, _) ↦ let bad = rw refused at e in cc
    ];
  }

  with_user-IsConsistent :
      (user : AuthUser) (w : World)
      → IsAdmitted user
      → IsSignedIn w
      → IsConsistent w
      → IsConsistent (record (set_stored_user env (some user) w) { user = some user })
  unfolding set_stored_user
  with_user-IsConsistent user w a p k = record {
    tokens_agree = ground arith;
    user_of_token = ground arith;
    token_of_user = ground arith;
    admitted = λ u e. ground arith;
  }

  update_user-IsSafeIn :
      (user : AuthUser) (token : Option Text)
      → IsAdmitted user
      → IsSafeIn (IsBacked token) (update_user env user (truthy token))
  update_user-IsSafeIn user none a = safe_anywhere (pure-IsSafe tt)
  update_user-IsSafeIn user (some []) a = safe_anywhere (pure-IsSafe tt)
  update_user-IsSafeIn user (some (c ∷ s)) a = record {
    keeps = λ w p k. with_user-IsConsistent user w a (p (λ e. cc)) k;
  }

  token_or_refresh-IsBacked :
      (access : Option Text) → Triple (IsBacked access) (token_or_refresh env access) IsBacked
  token_or_refresh-IsBacked none = refresh_session-IsBacked env
  token_or_refresh-IsBacked (some t) = pure-Triple (some t) (λ w p. p)

  token_or_refresh-IsSafe : (access : Option Text) → IsSafe (token_or_refresh env access)
  token_or_refresh-IsSafe none = refresh_session-IsSafe env
  token_or_refresh-IsSafe (some t) = pure-IsSafe (some t)

  change_stored-IsSafeIn :
      (access : Option Text) (user : AuthUser) (stored : Option Text)
      → IsAdmitted user
      → IsSafeIn (IsBacked access) (change_stored env access user stored)
  change_stored-IsSafeIn access user none a =
      safe_anywhere (change-IsSafe (λ w c. clear_session-IsConsistent w))
  change_stored-IsSafeIn access user (some stored) a =
      bind-IsSafeIn (token_or_refresh-IsSafe access) (token_or_refresh-IsBacked access)
        (λ token. update_user-IsSafeIn user token a)

  change_user-IsSafeIn :
      (access : Option Text) (user : AuthUser)
      → IsSafeIn (Admits user access) (change_user env access user)
  change_user-IsSafeIn access user = record {
    keeps = λ w (backed, a).
        (change_stored-IsSafeIn access user (truthy (get_stored_refresh_token w)) a).keeps w backed;
  }

  pub change_password-IsSafe : (current new : Text) → IsSafe (change_password env current new)
  unfolding change_password
  change_password-IsSafe current new = record {
    keeps = λ w.
        let safe =
          bind-IsSafeIn (change_password_request-IsSafe env w.registered current new)
            (IsBacked-Triple w.access_token_state
              (change_password_request-IsSignedIn env w.registered current new))
            (λ user.
              bind-IsSafeIn (assert-IsSafe user) (assert-Triple user w.access_token_state)
                (λ _. change_user-IsSafeIn w.access_token_state user)) in
        safe.keeps w (λ h. h);
  }
