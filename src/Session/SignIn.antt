-- ===== src/Session/SignIn.antt =====
-- How a sign-in fails.
use telecam.Prelude.{◌≡◌, refl, ◌∙◌, ◌⊎◌, inl, inr, arith, ap, sym, Bool-cases, ◌==◌}
use mathlib.Core.Path.{subst}
use telecam.Text.{Text}
use telecam.Json.Defs.{Json}
use telecam.Auth.Users.{AuthUser}
use telecam.Session.World.{
  World, Env, Run, returned, thrown, Failure, api_error, other_error, network_error, final,
}
use telecam.Session.Requests.{LoginResponse, login_request, denied}
use telecam.Session.Access.{IsAdmitted, assert_dashboard_access_cases}
use telecam.Session.Frame.{Frame, login_request-IsQuiet}
use telecam.Session.Provider.{
  apply_session, store_session, generic_login_error, login, login_failure,
}

module _ {N : Type 0} (env : Env N) where
  -- What a sign-in that fails leaves, and what it says.
  abbrev pub FailsQuietly : World → Run N (Unit {0}) → Type 0
  FailsQuietly w (returned _ v) = Unit
  FailsQuietly w (thrown x v) =
      Frame w v
      × ((x ≡ generic_login_error env) ⊎ ((m : Text) × (b : Json N) × (x ≡ api_error m 403 b)))

  login_failure_cases :
      (x : Failure N)
      → (login_failure env x ≡ generic_login_error env)
        ⊎ ((m : Text) × (b : Json N) × (login_failure env x ≡ api_error m 403 b))
  login_failure_cases (api_error m status b) = elim (Bool-cases (status == 403)) [
    | inl e ↦ inr (m, b, ground arith)
    | inr e ↦ inl (rw e)
  ]
  login_failure_cases (other_error m) = inl refl
  login_failure_cases network_error = inl refl

  abbrev follow : (World → World) → Run N (Unit {0}) → Run N (Unit {0})
  follow f run = elim run [ returned a v ↦ returned tt (f v) | thrown x v ↦ thrown x v ]

  pub apply_session_cases :
      (access refresh : Text) (user : AuthUser) (u : World)
      → ((apply_session env access refresh user u
            ≡ returned tt (store_session env access refresh user u))
          × IsAdmitted user)
        ⊎ (apply_session env access refresh user u ≡ thrown (denied env) u)
  unfolding apply_session
  apply_session_cases access refresh user u = elim (assert_dashboard_access_cases env u user) [
    | inl (passed, admitted) ↦
        inl (ap (follow (store_session env access refresh user)) passed, admitted)
    | inr (refused, _) ↦ inr (ap (follow (store_session env access refresh user)) refused)
  ]

  caught-FailsQuietly :
      (w : World) (run : Run N (Unit {0}))
      → ((x : Failure N) (v : World) → run ≡ thrown x v → Frame w v)
      → FailsQuietly w (elim run as (λ _. Run N (Unit {0})) [
        | returned a v ↦ returned a v
        | thrown x v ↦ thrown (login_failure env x) v
      ])
  caught-FailsQuietly w (returned a v) h = tt
  caught-FailsQuietly w (thrown x v) h = (h x v refl, login_failure_cases x)

  requested-FailsQuietly :
      (w : World) (run : Run N (LoginResponse N))
      → Frame w (final run)
      → FailsQuietly w
          (elim (elim run as (λ _. Run N (Unit {0})) [
            | returned r v ↦ apply_session env r.access_token r.refresh_token r.user v
            | thrown x v ↦ thrown x v
          ])
            as (λ _. Run N (Unit {0})) [
              | returned a v ↦ returned a v
              | thrown x v ↦ thrown (login_failure env x) v
            ])
  requested-FailsQuietly w (returned r v) f =
      caught-FailsQuietly w (apply_session env r.access_token r.refresh_token r.user v) λ x u e.
        elim (apply_session_cases r.access_token r.refresh_token r.user v) [
          | inl passed ↦ cc
          | inr refused ↦ let same : v ≡ u = ap final (sym refused ∙ e) in subst (Frame w) same f
        ]
  requested-FailsQuietly w (thrown x v) f = (f, login_failure_cases x)

  -- A sign-in that fails changes nothing of the session, and its error is the one generic message
  -- or has the status 403.
  pub login-FailsQuietly :
      (email password : Text) (w : World) → FailsQuietly w (login env email password w)
  unfolding login
  login-FailsQuietly email password w =
      requested-FailsQuietly w (login_request env email password w)
        ((login_request-IsQuiet env email password).frame w)
