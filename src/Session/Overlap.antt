-- ===== src/Session/Overlap.antt =====
-- A refresh that still waits for its answer when the user signs out, of
-- admin-dashboard/lib/auth/auth-context.tsx.
use telecam.Prelude.{◌≡◌, refl, ap, ◌∙◌, inl, inr, Option, some, get_or, arith}
use telecam.Text.{Text}
use telecam.Auth.Users.{AuthUser}
use telecam.Session.World.{World, Env, M, Run, returned, thrown, final, pure, ◌>>=◌, ◌>>◌}
use telecam.Session.Storage.{set_stored_user, set_stored_refresh_token}
use telecam.Session.Requests.{RefreshResponse, refresh_request}
use telecam.Session.Access.{IsAdmitted, assert_dashboard_access_cases}
use telecam.Session.Provider.{refresh_stored, load_profile, apply_session, store_session, logout}

module _ {N : Type 0} (env : Env N) where
  -- What `refreshSession` does once the answer to its request has come.
  unfoldable pub after_refresh : Text → RefreshResponse N → M N (Option Text)
  after_refresh stored refreshed = do
    user ← load_profile env refreshed
    apply_session env refreshed.access_token (get_or refreshed.refresh_token stored) user
    pure (some refreshed.access_token)

  refresh_stored-after_refresh :
      (stored : Text) (w : World)
      → refresh_stored env (some stored) w ≡ (refresh_request env stored >>= after_refresh stored) w
  unfolding refresh_stored after_refresh
  refresh_stored-after_refresh stored w = refl

  abbrev then_apply : Text → RefreshResponse N → Run N AuthUser → Run N (Option Text)
  then_apply stored refreshed run = elim run [
    | returned user v ↦
        (apply_session env refreshed.access_token (get_or refreshed.refresh_token stored) user
            >> pure (some refreshed.access_token))
          v
    | thrown e v ↦ thrown e v
  ]

  abbrev then_token : Text → Run N (Unit {0}) → Run N (Option Text)
  then_token token run = elim run [
    | returned a v ↦ returned (some token) v
    | thrown e v ↦ thrown e v
  ]

  abbrev then_store : Text → RefreshResponse N → AuthUser → Run N (Unit {0}) → Run N (Unit {0})
  then_store stored refreshed user run = elim run [
    | returned a v ↦
        returned tt
          (store_session env refreshed.access_token (get_or refreshed.refresh_token stored) user v)
    | thrown e v ↦ thrown e v
  ]

  -- The profile of an admitted user signs in, whatever the world is by then.
  after_refresh-store_session :
      (stored : Text) (refreshed : RefreshResponse N) (user : AuthUser) (v u : World)
      → load_profile env refreshed v ≡ returned user u
      → IsAdmitted user
      → after_refresh stored refreshed v
        ≡ returned (some refreshed.access_token) (
            store_session env refreshed.access_token (get_or refreshed.refresh_token stored) user u)
  unfolding after_refresh apply_session
  after_refresh-store_session stored refreshed user v u loaded a =
      elim (assert_dashboard_access_cases env u user) [
        | inl (passed, _) ↦
            ap (then_apply stored refreshed) loaded
            ∙ ap (λ run. then_token refreshed.access_token (then_store stored refreshed user run))
                passed
        | inr (_, refused) ↦ absurd (refused a)
      ]

  store_session-access_token :
      (access kept : Text) (user : AuthUser) (w : World)
      → (store_session env access kept user w).access_token ≡ some access
  unfolding store_session set_stored_user set_stored_refresh_token
  store_session-access_token access kept user w = ground arith

  store_session-user :
      (access kept : Text) (user : AuthUser) (w : World)
      → (store_session env access kept user w).user ≡ some user
  unfolding store_session
  store_session-user access kept user w = refl

  -- A refresh is its request and what follows its answer. If the answer is followed up only after
  -- a sign-out, and the profile that is then loaded is of a user who may use the dashboard, this
  -- user is signed in again with the new token.
  pub after_refresh-logout :
      (stored : Text) (refreshed : RefreshResponse N) (user : AuthUser) (w v u : World)
      → load_profile env refreshed (final (logout env v)) ≡ returned user u
      → IsAdmitted user
      → (refresh_stored env (some stored) w
          ≡ (refresh_request env stored >>= after_refresh stored) w)
        × ((final (after_refresh stored refreshed (final (logout env v)))).user ≡ some user)
        × ((final (after_refresh stored refreshed (final (logout env v)))).access_token
            ≡ some refreshed.access_token)
  after_refresh-logout stored refreshed user w v u loaded a =
      let kept = get_or refreshed.refresh_token stored in
      let ends =
        after_refresh-store_session stored refreshed user (final (logout env v)) u loaded a in
      (
        refresh_stored-after_refresh stored w,
        ap (λ run. (final run).user) ends ∙ store_session-user refreshed.access_token kept user u,
        ap (λ run. (final run).access_token) ends
            ∙ store_session-access_token refreshed.access_token kept user u,
      )
