-- ===== src/Users/Requests.antt =====
-- Fetching and changing users: admin-dashboard/lib/admin/users-api.ts. An input is its JSON value,
-- `encode` is `encodeURIComponent`.
use telecam.Prelude.{Bool, ◌==◌, List, [], ◌∷◌, ◌++◌, Option, none, some, All, Bool-cases, inl, inr}
use telecam.Text.{Text, text, trim}
use telecam.Json.Defs.{
  Json, boolean, string, array, object, Items, nil, cons, field, end, get, as_object, as_string,
  unwrap_payload,
}
use telecam.Session.World.{
  World, Env, M, Failure, api_error, other_error, network_error, pure, or_throw, catch_with, ◌>>=◌,
}
use telecam.Session.SignedIn.{Triple, Anything, pure-Triple, throw-Triple, catch_with-Triple}
use telecam.Session.Queries.{set_if, query_of, fetch_and, fetch_and-Triple, by_method, no_rows}
use telecam.Session.Provider.{fetch_page}
use telecam.Users.Read.{
  NormalizedUser, normalize_managed_user, normalize_users, IsIdentified,
  normalize_users-AreIdentified,
}

pub record UserListFilters : Type 0 where
  pub search : Option Text
  pub role : Option Text
  pub status : Option Text
  pub school_id : Option Text

abbrev trimmed : Option Text → Option Text
trimmed none = none
trimmed (some s) = some (trim s)

abbrev text_items : {N : Type 0} → List Text → Items N
text_items [] = nil
text_items (s ∷ ss) = cons (string s) (text_items ss)

module _ {N : Type 0} (env : Env N) (search_params : List (Text × Text) → Text)
    (encode : Text → Text) where
  unfoldable pub build_query : Option UserListFilters → Text
  unfolding trim
  build_query none = []
  build_query (some f) = query_of (
      search_params (
        set_if (text "search") (trimmed f.search)
        ++ (set_if (text "role") f.role
            ++ (set_if (text "status") f.status ++ set_if (text "school_id") f.school_id))))

  abbrev read_users : Json N → List NormalizedUser
  read_users raw = normalize_users env.js (unwrap_payload raw)

  unfoldable pub get_users : Option UserListFilters → M N (List NormalizedUser)
  get_users filters =
      catch_with
        (fetch_and env (text "/admin/users" ++ build_query filters) (text "GET") read_users) no_rows

  abbrev user_path : Text → Text → Text
  user_path id rest = text "/admin/users/" ++ (encode id ++ rest)

  unfoldable pub get_user_by_id : Text → M N (Option NormalizedUser)
  get_user_by_id id =
      fetch_and env (user_path id []) (text "GET")
        (λ raw. normalize_managed_user env.js (unwrap_payload raw))

  -- Sends a body; an answer that is no user is an error with the message.
  abbrev change_user : Text → Text → Json N → Text → M N NormalizedUser
  change_user path method body message = do
    raw ← fetch_page env path (by_method method (some (env.js.stringify body)))
    or_throw (normalize_managed_user env.js (unwrap_payload raw)) (api_error message 500 raw)

  unfoldable pub create_user : Json N → M N NormalizedUser
  create_user input =
      change_user (text "/admin/users") (text "POST") input (text "Unexpected create user response")

  unfoldable pub update_managed_user : Text → Json N → M N NormalizedUser
  update_managed_user id input =
      change_user (user_path id []) (text "PATCH") input (text "Unexpected update user response")

  unfoldable pub update_user_status : Text → Text → M N NormalizedUser
  update_user_status id status =
      change_user (user_path id (text "/status")) (text "PATCH")
        (object (field (text "status") (string status) end))
        (text "Unexpected status update response")

  unfoldable pub update_user_role : Text → Text → M N NormalizedUser
  update_user_role id role =
      change_user (user_path id (text "/role")) (text "PATCH")
        (object (field (text "role") (string role) end)) (text "Unexpected role update response")

  abbrev temporary_password : Json N → Option Text
  temporary_password data' = elim (as_object data') [
    | none ↦ none
    | some fs ↦ as_string (get fs (text "temporary_password"))
  ]

  unfoldable pub reset_user_password : Text → Json N → M N (Option Text)
  unfolding as_object as_string get
  reset_user_password id input = do
    raw ←
        fetch_page env (user_path id (text "/reset-password"))
          (by_method (text "POST") (some (env.js.stringify input)))
    pure (temporary_password (unwrap_payload raw))

  unfoldable pub force_user_password_change : Text → Bool → M N NormalizedUser
  force_user_password_change id force =
      change_user (user_path id (text "/force-password-change")) (text "POST")
        (object (field (text "force") (boolean force) end))
        (text "Unexpected force password change response")

  unfoldable pub assign_user_schools : Text → List Text → M N NormalizedUser
  assign_user_schools id school_ids =
      change_user (user_path id (text "/schools")) (text "PUT")
        (object (field (text "school_ids") (array (text_items school_ids)) end))
        (text "Unexpected school assignment response")

  abbrev pub Identified : List NormalizedUser → World → Type 0
  Identified us v = All (IsIdentified env.js) us

  no_rows-Identified : (e : Failure N) → Triple Anything (no_rows e) Identified
  no_rows-Identified (api_error message status body) = elim (Bool-cases (status == 403)) [
    | inl e ↦ rw e (pure-Triple [] (λ w _. tt))
    | inr e ↦ rw e (throw-Triple (api_error message status body))
  ]
  no_rows-Identified (other_error message) = throw-Triple (other_error message)
  no_rows-Identified network_error = throw-Triple network_error

  -- Whatever the server answers, every user that the request returns has an id that is not blank
  -- and only school ids that are not empty.
  pub get_users-Identified :
      (filters : Option UserListFilters) → Triple Anything (get_users filters) Identified
  unfolding get_users
  get_users-Identified filters =
      catch_with-Triple
        (fetch_and-Triple env (text "/admin/users" ++ build_query filters) (text "GET") read_users
          (λ raw w. normalize_users-AreIdentified env.js (unwrap_payload raw)))
        no_rows-Identified
