-- ===== src/Session/Operations.antt =====
-- Every operation of the provider keeps the invariant of the session.
use telecam.Prelude.{
  refl, sym, Bool, true, false, Option, none, some, inl, inr, Bool-cases, ◌==◌, not, ◌&&◌,
}
use mathlib.Core.Path.{subst}
use telecam.Text.{Text}
use telecam.Auth.Users.{AuthUser}
use telecam.Session.World.{Env, Run, Response, returned, thrown, Failure, catch_with, final}
use telecam.Session.Storage.{truthy, get_stored_refresh_token}
use telecam.Session.Api.{
  Options, Handlers, retry, api_fetch, api_fetch_from, send_again, refresh_access_token,
  trigger_session_expired,
}
use telecam.Session.Retry.{one_request, renewed, retried-eq}
use telecam.Session.Requests.{RefreshResponse, get_me, change_password_request, parse_me_response}
use telecam.Session.Frame.{
  IsQuiet, bind-IsQuiet, get_me-IsQuiet, send-IsQuiet, finish-IsQuiet, or_throw-IsQuiet,
  refresh_request-IsQuiet, logout_request-IsQuiet, login_request-IsQuiet,
}
use telecam.Session.Provider.{
  clear_session, fallback_user, load_user, load_profile, refresh_stored, refresh_session,
  refresh_handler, handlers_of, fetch_page, login, logout, logout_stored, load_session, load_stored,
  end_loading, loading,
}
use telecam.Session.Invariant.{
  IsConsistent, IsSafe, IsQuiet-IsSafe, pure-IsSafe, throw-IsSafe, change-IsSafe, bind-IsSafe,
  catch_with-IsSafe, clear_session-IsConsistent, handle_session_expired-IsConsistent,
  apply_session-IsSafe, copy-IsConsistent,
}

module _ {N : Type 0} (env : Env N) where
  load_user-IsSafe : (o : Option AuthUser) (e : Failure N) → IsSafe (load_user env o e)
  load_user-IsSafe none e = throw-IsSafe _
  load_user-IsSafe (some u) e = pure-IsSafe u

  load_profile-IsSafe : (refreshed : RefreshResponse N) → IsSafe (load_profile env refreshed)
  unfolding load_profile
  load_profile-IsSafe refreshed = record {
    keeps = λ w.
        let caught : IsSafe (
            catch_with (get_me env refreshed.access_token)
              (load_user env (fallback_user env refreshed w))) =
          catch_with-IsSafe (IsQuiet-IsSafe (get_me-IsQuiet env refreshed.access_token))
            (load_user-IsSafe (fallback_user env refreshed w)) in
        caught.keeps w;
  }

  refresh_stored-IsSafe : (o : Option Text) → IsSafe (refresh_stored env o)
  unfolding refresh_stored
  refresh_stored-IsSafe none =
      bind-IsSafe (change-IsSafe (λ w c. clear_session-IsConsistent w)) (λ _. pure-IsSafe none)
  refresh_stored-IsSafe (some stored) =
      bind-IsSafe (IsQuiet-IsSafe (refresh_request-IsQuiet env stored)) λ refreshed.
        bind-IsSafe (load_profile-IsSafe refreshed)
          λ user. bind-IsSafe (apply_session-IsSafe env _ _ user) (λ _. pure-IsSafe _)

  pub refresh_session-IsSafe : IsSafe (refresh_session env)
  unfolding refresh_session
  refresh_session-IsSafe = record {
    keeps = λ w. (refresh_stored-IsSafe (truthy (get_stored_refresh_token w))).keeps w;
  }

  pub refresh_handler-IsSafe : IsSafe (refresh_handler env)
  unfolding refresh_handler
  refresh_handler-IsSafe = catch_with-IsSafe refresh_session-IsSafe λ e.
      bind-IsSafe (change-IsSafe (λ w c. handle_session_expired-IsConsistent w))
        (λ _. pure-IsSafe none)

  pub login-IsSafe : (email password : Text) → IsSafe (login env email password)
  unfolding login
  login-IsSafe email password =
      catch_with-IsSafe
        (bind-IsSafe (IsQuiet-IsSafe (login_request-IsQuiet env email password))
          λ result. apply_session-IsSafe env _ _ result.user)
        (λ e. throw-IsSafe _)

  logout_stored-IsSafe : (access stored : Option Text) → IsSafe (logout_stored env access stored)
  logout_stored-IsSafe access none = change-IsSafe (λ w c. copy-IsConsistent c refl refl refl)
  logout_stored-IsSafe access (some stored) =
      bind-IsSafe
        (catch_with-IsSafe (IsQuiet-IsSafe (logout_request-IsQuiet env stored access))
          (λ e. pure-IsSafe tt))
        (λ _. change-IsSafe (λ w c. copy-IsConsistent c refl refl refl))

  pub logout-IsSafe : IsSafe (logout env)
  unfolding logout
  logout-IsSafe = record {
    keeps = λ w c.
        (logout_stored-IsSafe w.access_token_state (truthy (get_stored_refresh_token w))).keeps
          (clear_session w) (clear_session-IsConsistent w);
  }

  end_loading-IsConsistent :
      (run : Run N (Option Text))
      → IsConsistent (final run)
      → IsConsistent (final (end_loading env run))
  end_loading-IsConsistent (returned token w) c = copy-IsConsistent c refl refl refl
  end_loading-IsConsistent (thrown e w) c =
      copy-IsConsistent (clear_session-IsConsistent w) refl refl refl

  load_stored-IsSafe : (o : Option Text) → IsSafe (load_stored env o)
  load_stored-IsSafe none = record {
    keeps = λ w c. copy-IsConsistent (clear_session-IsConsistent w) refl refl refl;
  }
  load_stored-IsSafe (some stored) = record {
    keeps = λ w c.
        end_loading-IsConsistent
          (refresh_session env (record w { refresh_token_state = some stored }))
          (refresh_session-IsSafe.keeps (record w { refresh_token_state = some stored })
            (copy-IsConsistent c refl refl refl));
  }

  pub load_session-IsSafe : IsSafe (load_session env)
  unfolding load_session
  load_session-IsSafe = record {
    keeps = λ w c.
        (load_stored-IsSafe (truthy (get_stored_refresh_token w))).keeps (loading env true w)
          (copy-IsConsistent c refl refl refl);
  }

  -- The handlers that the provider registers, or none.
  refresh_access_token-IsSafe : (b : Bool) → IsSafe (refresh_access_token env (handlers_of env b))
  unfolding refresh_access_token
  refresh_access_token-IsSafe true = refresh_handler-IsSafe
  refresh_access_token-IsSafe false = pure-IsSafe none

  trigger_session_expired-IsSafe :
      (b : Bool) → IsSafe (trigger_session_expired env (handlers_of env b))
  unfolding trigger_session_expired
  trigger_session_expired-IsSafe true = change-IsSafe (λ w c. handle_session_expired-IsConsistent w)
  trigger_session_expired-IsSafe false = pure-IsSafe tt

  one_request-IsQuiet : (path : Text) (o : Options) → IsQuiet (one_request env path o)
  one_request-IsQuiet path o = bind-IsQuiet (send-IsQuiet env path o) (finish-IsQuiet env)

  -- The second call of `apiFetch`.
  pub retried-IsQuiet :
      (h : Handlers N) (path : Text) (o : Options) (t : Text)
      → IsQuiet (api_fetch_from env 1 h path (renewed o t))
  retried-IsQuiet h path o t =
      subst IsQuiet (sym (retried-eq env h path o t)) (one_request-IsQuiet path (renewed o t))

  send_again-IsSafe :
      (b : Bool) (path : Text) (o : Options) (response : Response) (token : Option Text)
      → IsSafe (
          send_again env
            (handlers_of env b)
            (api_fetch_from env 1 (handlers_of env b) path)
            o
            response
            token)
  send_again-IsSafe b path o response none =
      bind-IsSafe (trigger_session_expired-IsSafe b) (λ _. throw-IsSafe _)
  send_again-IsSafe b path o response (some new) =
      IsQuiet-IsSafe (retried-IsQuiet (handlers_of env b) path o _)

  api_fetch-IsSafe :
      (b : Bool) (path : Text) (o : Options) → IsSafe (api_fetch env (handlers_of env b) path o)
  unfolding api_fetch api_fetch_from retry
  api_fetch-IsSafe b path o = bind-IsSafe (IsQuiet-IsSafe (send-IsQuiet env path o)) λ r.
      elim (Bool-cases (r.status == 401 && (not o.skip_auth && not o.retried))) [
        | inl e ↦ rw e (
            bind-IsSafe (refresh_access_token-IsSafe b)
              (λ token. send_again-IsSafe b path o r (truthy token)))
        | inr e ↦ rw e (IsQuiet-IsSafe (finish-IsQuiet env r))
      ]

  -- Any request of a page.
  pub fetch_page-IsSafe : (path : Text) (o : Options) → IsSafe (fetch_page env path o)
  unfolding fetch_page
  fetch_page-IsSafe path o = record { keeps = λ w. (api_fetch-IsSafe w.registered path o).keeps w }

  pub change_password_request-IsSafe :
      (b : Bool) (current new : Text)
      → IsSafe (change_password_request env (handlers_of env b) current new)
  unfolding change_password_request parse_me_response
  change_password_request-IsSafe b current new =
      bind-IsSafe (api_fetch-IsSafe b _ _) (λ raw. IsQuiet-IsSafe (or_throw-IsQuiet _ _))
