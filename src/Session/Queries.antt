-- ===== src/Session/Queries.antt =====
-- What the request wrappers of admin-dashboard/lib/admin share: the options that they hand to
-- `apiFetch`, and the query of a path. `URLSearchParams` is a parameter: its text for a list of
-- different keys with their values.
use telecam.Prelude.{false, ◌==◌, List, [], ◌∷◌, Option, none, some, if◌then◌else◌}
use telecam.Text.{Text, text, text_eq, is_empty}
use telecam.Json.Defs.{Json}
use telecam.Session.World.{
  World, Env, M, Failure, api_error, other_error, network_error, ◌>>=◌, pure, throw,
}
use telecam.Session.Storage.{truthy}
use telecam.Session.Api.{Options}
use telecam.Session.SignedIn.{Triple, Anything, any-Triple, bind-Triple, pure-Triple}
use telecam.Session.Provider.{fetch_page}

-- `{ method }`, and `{ method, body }`
abbrev pub by_method : Text → Option Text → Options
by_method method body = record {
  token = none;
  method = method;
  body = body;
  headers = [];
  skip_auth = false;
  retried = false;
}

-- `if (value) query.set(key, value)`
abbrev pub set_if : Text → Option Text → List (Text × Text)
set_if key value = elim (truthy value) [ none ↦ [] | some v ↦ (key, v) ∷ [] ]

-- `if (value && value !== "all") query.set(key, f(value))`
abbrev pub set_unless_all : Text → Option Text → (Text → Text) → List (Text × Text)
set_unless_all key value f = elim (truthy value) [
  | none ↦ []
  | some v ↦ if text_eq v (text "all") then [] else (key, f v) ∷ []
]

-- `qs ? `?${qs}` : ""`
abbrev pub query_of : Text → Text
query_of qs = if is_empty qs then [] else b'?' ∷ qs

-- `catch (err) { if (err instanceof ApiError && err.status === 403) return []; throw err; }`:
-- without permission there are no rows.
abbrev pub no_rows : {N A : Type 0} → Failure N → M N (List A)
no_rows (api_error message status body) =
    if status == 403 then pure [] else throw (api_error message status body)
no_rows (other_error message) = throw (other_error message)
no_rows network_error = throw network_error

module _ {N A : Type 0} (env : Env N) where
  -- `read(await apiFetch(path, { method }))`
  abbrev pub fetch_and : Text → Text → (Json N → A) → M N A
  fetch_and path method read = do raw ← fetch_page env path (by_method method none); pure (read raw)

  -- What holds of everything that is read.
  pub fetch_and-Triple :
      (path method : Text) (read : Json N → A) {Q : A → World → Type 0}
      → ((raw : Json N) (w : World) → Q (read raw) w)
      → Triple Anything (fetch_and path method read) Q
  fetch_and-Triple path method read h =
      bind-Triple (any-Triple (fetch_page env path (by_method method none)))
        (λ raw. pure-Triple (read raw) (λ w _. h raw w))
