-- ===== src/Auth/Users.antt =====
-- The signed-in user, as it is read from the server's answers and from the local storage:
-- admin-dashboard/lib/auth/session-store.ts and types.ts.
pub mod Laws
mod Tests
use telecam.Prelude.{
  Bool, true, false, not, ◌||◌, List, [], ◌∷◌, map, Option, none, some, or_else, if◌then◌else◌,
}
use telecam.Text.{Text, text, trim, is_empty}
use telecam.Json.Defs.{
  Json, null, boolean, string, object, Fields, end, field, Engine, get, as_object, is_true,
  coalesce, undefined,
}
use telecam.Auth.Roles.{
  UserRole, UserStatus, role_name, status_name, normalize_user_role, normalize_user_status,
}

pub record AuthUser : Type 0 where
  pub id : Text
  pub email : Text
  pub role : UserRole
  pub status : UserStatus
  pub name : Option Text
  pub force_password_change : Bool

abbrev pub id_keys : List Text
id_keys = text "id" ∷ text "user_id" ∷ text "userId" ∷ []

abbrev pub name_keys : List Text
name_keys = text "name" ∷ text "full_name" ∷ text "fullName" ∷ []

module _ {N : Type 0} where
  -- A string that is not empty.
  unfoldable pub filled_string : Json N → Option Text
  filled_string (string s) = if is_empty s then none else some s
  filled_string v = none

  -- The first of the keys that holds a string that is not empty.
  unfoldable pub pick_string : Fields N → List Text → Option Text
  pick_string obj [] = none
  pick_string obj (key ∷ keys) = or_else (filled_string (get obj key)) (pick_string obj keys)

  -- `isRecord(raw.user) ? f(raw.user) : none`
  unfoldable pub of_nested_user {ℓ} : {A : Type ℓ} → Fields N → (Fields N → Option A) → Option A
  of_nested_user raw f = elim (as_object (get raw (text "user"))) [
    | none ↦ none
    | some nested ↦ f nested
  ]

  unfoldable pub pick_id : Fields N → Option Text
  pick_id obj =
      or_else (pick_string obj id_keys) (of_nested_user obj (λ nested. pick_string nested id_keys))

  unfoldable pub pick_email : Fields N → Option Text
  pick_email raw =
      or_else (pick_string raw (text "email" ∷ []))
        (of_nested_user raw (λ nested. pick_string nested (text "email" ∷ [])))

  -- `raw.status ?? (isRecord(raw.user) ? raw.user.status : undefined)`
  unfoldable pub pick_status : Fields N → Json N
  pick_status raw = coalesce (get raw (text "status")) (elim (as_object (get raw (text "user"))) [
    | none ↦ undefined
    | some nested ↦ get nested (text "status")
  ])

module _ {N : Type 0} (js : Engine N) where
  unfoldable pub pick_role : Fields N → Option UserRole
  pick_role raw = or_else (normalize_user_role js (get raw (text "role"))) (
      or_else (normalize_user_role js (get raw (text "user_role"))) (
        or_else (normalize_user_role js (get raw (text "userRole")))
          (of_nested_user raw (λ nested. normalize_user_role js (get nested (text "role"))))))

  unfoldable pub read_user :
      Fields N → Option Text → Option Text → Option UserRole → Option AuthUser
  read_user raw (some id) (some email) (some role) = some (record {
    id = id;
    email = trim email;
    role = role;
    status = normalize_user_status js (pick_status raw);
    name = pick_string raw name_keys;
    force_password_change =
        is_true (get raw (text "force_password_change"))
        || is_true (get raw (text "forcePasswordChange"));
  })
  read_user raw _ _ _ = none

  unfoldable pub normalize_user : Json N → Option AuthUser
  normalize_user raw = elim (as_object raw) [
    | none ↦ none
    | some fs ↦ read_user fs (pick_id fs) (pick_email fs) (pick_role fs)
  ]

module _ {N : Type 0} where
  abbrev pub name_json : Option Text → Json N
  name_json none = null
  name_json (some s) = string s

  -- The object that `JSON.stringify(user)` writes.
  unfoldable pub user_fields : AuthUser → Fields N
  user_fields u = field (text "id") (string u.id) (
      field (text "email") (string u.email) (
        field (text "role") (string (role_name u.role)) (
          field (text "status") (string (status_name u.status)) (
            field (text "name") (name_json u.name)
              (field (text "force_password_change") (boolean u.force_password_change) end)))))

  abbrev pub user_json : AuthUser → Json N
  user_json u = object (user_fields u)
