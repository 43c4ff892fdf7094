-- ===== src/Auth/Users/Laws.antt =====
-- A user that was read can be written to the storage and read back.
use telecam.Prelude.{
  ◌≡◌, refl, ◌≢◌, true, false, ◌||◌, List, [], ◌∷◌, Option, none, some, arith, if◌then◌else◌,
  Bool-cases, Option-cases, inl, inr,
}
use telecam.Text.{Text, text, text_eq, trim, is_empty}
use telecam.Text.Laws.{trim_idem}
use telecam.Json.Defs.{Json, string, Fields, Engine, get, as_object, is_true}
use telecam.Auth.Roles.{UserRole, UserStatus, active, status_name, normalize_user_status}
use telecam.Auth.Roles.Laws.{normalize_user_role-role_name}
use telecam.Auth.Users.{
  AuthUser, filled_string, pick_string, pick_id, pick_email, pick_role, pick_status, read_user,
  normalize_user, user_json, name_json, of_nested_user, id_keys, name_keys, user_fields,
}

-- What every user has that was read.
pub record IsWellFormed (u : AuthUser) : Type 0 where
  pub id_filled : is_empty u.id ≡ false
  pub email_trimmed : trim u.email ≡ u.email
  pub name_filled : u.name ≢ some []

module _ {N : Type 0} where
  filled_string-filled : (v : Json N) (s : Text) → filled_string v ≡ some s → is_empty s ≡ false
  unfolding filled_string
  filled_string-filled (string t) s h = ground arith
  filled_string-filled v s h = cc

  pick_string-filled :
      (obj : Fields N) (keys : List Text) (s : Text)
      → pick_string obj keys ≡ some s
      → is_empty s ≡ false
  unfolding pick_string
  pick_string-filled obj [] s h = cc
  pick_string-filled obj (k ∷ ks) s h =
      ground (arith, filled_string-filled (get obj k) s, pick_string-filled obj ks s)

  pick_id-filled : (obj : Fields N) (s : Text) → pick_id obj ≡ some s → is_empty s ≡ false
  unfolding pick_id of_nested_user
  pick_id-filled obj s h = elim (Option-cases (as_object (get obj (text "user")))) [
    | inl e ↦ ground (arith, pick_string-filled obj id_keys s)
    | inr (nested, e) ↦
        ground (arith, pick_string-filled obj id_keys s, pick_string-filled nested id_keys s)
  ]

filled_string-name_json :
    (N : Type 0) (o : Option Text) → o ≢ some [] → filled_string {N = N} (name_json o) ≡ o
unfolding filled_string
filled_string-name_json N none h = refl
filled_string-name_json N (some []) h = absurd (h refl)
filled_string-name_json N (some (c ∷ s)) h = refl

module _ {N : Type 0} (js : Engine N) where
  normalize_user_status-status_name :
      (s : UserStatus) → normalize_user_status js (string (status_name s)) ≡ s
  unfolding normalize_user_status text_eq
  normalize_user_status-status_name active = refl
  normalize_user_status-status_name _ = refl

  read_user-IsWellFormed :
      (raw : Fields N) (id email : Option Text) (role : Option UserRole) (u : AuthUser)
      → ((s : Text) → id ≡ some s → is_empty s ≡ false)
      → read_user js raw id email role ≡ some u
      → IsWellFormed u
  unfolding read_user
  read_user-IsWellFormed raw (some id) (some email) (some role) u filled h = record {
    id_filled = ground (arith, filled id refl);
    email_trimmed = ground (arith, trim_idem email);
    name_filled = λ e.
        let bad : pick_string raw name_keys ≡ some [] = ground arith in
        cc (pick_string-filled raw name_keys [] bad);
  }
  read_user-IsWellFormed raw none _ _ u filled h = cc
  read_user-IsWellFormed raw (some id) none _ u filled h = cc
  read_user-IsWellFormed raw (some id) (some email) none u filled h = cc

  pub normalize_user-IsWellFormed :
      (raw : Json N) (u : AuthUser) → normalize_user js raw ≡ some u → IsWellFormed u
  unfolding normalize_user
  normalize_user-IsWellFormed raw u h = elim (Option-cases (as_object raw)) [
    | inl e ↦ cc
    | inr (fs, e) ↦
        read_user-IsWellFormed fs (pick_id fs) (pick_email fs) (pick_role js fs) u
          (pick_id-filled fs) (ground arith)
  ]

  module _ (u : AuthUser) where
    pick_id-user_fields : is_empty u.id ≡ false → pick_id {N = N} (user_fields u) ≡ some u.id
    unfolding pick_id pick_string filled_string get text_eq user_fields
    pick_id-user_fields h = rw h

    pick_email-user_fields :
        is_empty u.email ≡ false → pick_email {N = N} (user_fields u) ≡ some u.email
    unfolding pick_email pick_string filled_string get text_eq user_fields
    pick_email-user_fields h = rw h

    pick_role-user_fields : pick_role js (user_fields u) ≡ some u.role
    unfolding pick_role get text_eq user_fields
    pick_role-user_fields = rw (normalize_user_role-role_name js u.role)

    pick_status-user_fields : pick_status {N = N} (user_fields u) ≡ string (status_name u.status)
    unfolding pick_status get text_eq user_fields
    pick_status-user_fields = refl

    pick_name-user_fields :
        u.name ≢ some [] → pick_string {N = N} (user_fields u) name_keys ≡ u.name
    unfolding pick_string filled_string get text_eq user_fields
    pick_name-user_fields h = ground (arith, filled_string-name_json N u.name h)

    force-user_fields :
        (is_true (get {N = N} (user_fields u) (text "force_password_change"))
          || is_true (get {N = N} (user_fields u) (text "forcePasswordChange")))
        ≡ u.force_password_change
    unfolding get text_eq user_fields
    force-user_fields = ground arith

    normalize_user-user_json :
        IsWellFormed u → is_empty u.email ≡ false → normalize_user js (user_json u) ≡ some u
    unfolding normalize_user read_user as_object
    normalize_user-user_json w e =
        rw (pick_id-user_fields w.id_filled, pick_email-user_fields e, pick_role-user_fields)
          (rw (
            pick_status-user_fields,
            normalize_user_status-status_name u.status,
            pick_name-user_fields w.name_filled,
            w.email_trimmed,
            force-user_fields,
          ))

    pick_email-user_fields_blank :
        is_empty u.email ≡ true → pick_email {N = N} (user_fields u) ≡ none
    unfolding pick_email pick_string filled_string of_nested_user get text_eq user_fields as_object
    pick_email-user_fields_blank h = rw h

    normalize_user-user_json_blank :
        IsWellFormed u → is_empty u.email ≡ true → normalize_user js (user_json u) ≡ none
    unfolding normalize_user read_user as_object
    normalize_user-user_json_blank w e =
        rw (pick_id-user_fields w.id_filled, pick_email-user_fields_blank e)

  -- A user that was read from any value and written to the storage is read back as the same user,
  -- unless its email is empty: such a user is read back as none.
  pub normalize_user-stable :
      (raw : Json N) (u : AuthUser)
      → normalize_user js raw ≡ some u
      → normalize_user js (user_json u) ≡ (if is_empty u.email then none else some u)
  normalize_user-stable raw u h =
      let w = normalize_user-IsWellFormed raw u h in
      elim (Bool-cases (is_empty u.email)) [
        | inl blank ↦ rw (blank, normalize_user-user_json_blank u w blank)
        | inr filled ↦ rw (filled, normalize_user-user_json u w filled)
      ]
