-- ===== src/Auth/Users/Tests.antt =====
-- A concrete user.
use telecam.Prelude.{ℕ, ◌≡◌, refl, false, none, some, if◌then◌else◌}
use telecam.Text.{text, is_empty, text_eq, trim}
use telecam.Json.Defs.{Json, object, string, field, end, get, as_object}
use telecam.Json.Examples.{small_engine}
use telecam.Auth.Roles.{
  technician, blocked, normalize_user_role, normalize_user_status, canonical_role,
}
use telecam.Auth.Users.{
  AuthUser, normalize_user, user_json, read_user, pick_id, pick_email, pick_role, pick_status,
  pick_string, filled_string, of_nested_user,
}
use telecam.Auth.Users.Laws.{normalize_user-stable}

-- The id and the role stand in a nested object, and the email has a blank behind it.
abbrev answer : Json ℕ
answer = object (
    field (text "user")
      (object (
        field (text "userId") (string (text "u1"))
          (field (text "role") (string (text "technician")) end)))
      (field (text "email") (string (text "a@b.c "))
        (field (text "status") (string (text "blocked")) end)))

abbrev read : AuthUser
read = record {
  id = text "u1";
  email = text "a@b.c";
  role = technician;
  status = blocked;
  name = none;
  force_password_change = false;
}

answer-read : normalize_user small_engine answer ≡ some read
unfolding normalize_user read_user pick_id pick_email pick_role pick_status pick_string
    filled_string of_nested_user get as_object normalize_user_role normalize_user_status
    canonical_role text_eq trim
answer-read = refl

normalize_user-stable_example :
    normalize_user small_engine (user_json read) ≡ (if is_empty read.email then none else some read)
normalize_user-stable_example = normalize_user-stable small_engine answer read answer-read
