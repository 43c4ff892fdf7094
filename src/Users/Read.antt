-- ===== src/Users/Read.antt =====
-- Reading users: admin-dashboard/lib/admin/users-types.ts and users-normalizer.ts.
use telecam.Prelude.{
  ◌≡◌, refl, Bool, false, List, [], ◌∷◌, Option, none, some, or_else, get_or, if◌then◌else◌, All,
  inl, inr, Bool-cases, arith,
}
use mathlib.Core.Path.{subst}
use telecam.Text.{Text, text, text_eq, is_empty, trim}
use telecam.Json.Defs.{
  Json, undefined, null, boolean, number, string, array, object, Items, nil, cons, Fields, Engine,
  get, str, is_true,
}
use telecam.Json.Case.{upper}

pub data ManagedUserRole : Type 0 where
  super_admin school_admin technician : ManagedUserRole

pub data ManagedUserStatus : Type 0 where
  active blocked disabled : ManagedUserStatus

pub record NormalizedUser : Type 0 where
  pub id : Text
  pub name : Text
  pub email : Option Text
  pub phone : Option Text
  pub role : ManagedUserRole
  pub status : ManagedUserStatus
  pub force_password_change : Bool
  pub password_changed_at : Option Text
  pub last_login_at : Option Text
  pub created_at : Option Text
  pub updated_at : Option Text
  pub school_ids : List Text

abbrev managed_role_of : Text → ManagedUserRole
managed_role_of s =
    if text_eq s (text "SUPER_ADMIN")
    then super_admin
    else if text_eq s (text "SCHOOL_ADMIN")
    then school_admin
    else technician

abbrev managed_status_of : Text → ManagedUserStatus
managed_status_of s =
    if text_eq s (text "ACTIVE")
    then active
    else if text_eq s (text "BLOCKED")
    then blocked
    else if text_eq s (text "DISABLED")
    then disabled
    else active

-- The texts of an array that are not empty.
unfoldable pub filled_texts : {N : Type 0} → Items N → List Text
filled_texts nil = []
filled_texts (cons (string []) vs) = filled_texts vs
filled_texts (cons (string (c ∷ s)) vs) = (c ∷ s) ∷ filled_texts vs
filled_texts (cons v vs) = filled_texts vs

unfoldable pub normalize_school_ids : {N : Type 0} → Json N → List Text
unfolding filled_texts
normalize_school_ids (array vs) = filled_texts vs
normalize_school_ids v = []

module _ {N : Type 0} (js : Engine N) where
  -- What is not known is a technician, as is what is missing.
  unfoldable pub normalize_role : Json N → ManagedUserRole
  unfolding str upper text_eq
  normalize_role value = elim (str value) [
    | none ↦ technician
    | some s ↦ managed_role_of (upper js s)
  ]

  unfoldable pub normalize_managed_status : Json N → ManagedUserStatus
  unfolding str upper text_eq
  normalize_managed_status value = elim (str value) [
    | none ↦ active
    | some s ↦ managed_status_of (upper js s)
  ]

  abbrev text_at : Fields N → Text → Option Text
  text_at fs key = str (get fs key)

  abbrev read_managed_user : Fields N → Text → NormalizedUser
  read_managed_user raw id = record {
    id = id;
    name =
        get_or (or_else (text_at raw (text "full_name")) (text_at raw (text "name")))
          (text "Unknown");
    email = text_at raw (text "email");
    phone = text_at raw (text "phone");
    role = normalize_role (get raw (text "role"));
    status = normalize_managed_status (get raw (text "status"));
    force_password_change = is_true (get raw (text "force_password_change"));
    password_changed_at = text_at raw (text "password_changed_at");
    last_login_at = text_at raw (text "last_login_at");
    created_at = text_at raw (text "created_at");
    updated_at = text_at raw (text "updated_at");
    school_ids = normalize_school_ids (get raw (text "school_ids"));
  }

  abbrev with_id : Fields N → Option Text → Option NormalizedUser
  with_id raw none = none
  with_id raw (some id) = some (read_managed_user raw id)

  unfoldable pub normalize_managed_user : Json N → Option NormalizedUser
  unfolding get str normalize_role normalize_managed_status normalize_school_ids
  normalize_managed_user (object raw) = with_id raw (text_at raw (text "id"))
  normalize_managed_user v = none

  -- The rows that are users.
  unfoldable pub users_of : Items N → List NormalizedUser
  unfolding normalize_managed_user
  users_of nil = []
  users_of (cons v vs) =
      let rest = users_of vs in elim (normalize_managed_user v) [ none ↦ rest | some u ↦ u ∷ rest ]

  abbrev users_at : Json N → List NormalizedUser
  users_at (array vs) = users_of vs
  users_at v = []

  unfoldable pub normalize_users : Json N → List NormalizedUser
  unfolding users_of get
  normalize_users (array vs) = users_of vs
  normalize_users (object fs) = users_at (get fs (text "items"))
  normalize_users v = []

  -- A user with an id that is not blank, and schools with ids that are not empty.
  abbrev pub IsIdentified : NormalizedUser → Type 0
  IsIdentified u =
      (str {N = N} (string u.id) ≡ some u.id) × All (λ s. is_empty s ≡ false) u.school_ids

  filled_texts-AreFilled : (vs : Items N) → All (λ s. is_empty s ≡ false) (filled_texts vs)
  unfolding filled_texts
  filled_texts-AreFilled nil = tt
  filled_texts-AreFilled (cons (string []) vs) = filled_texts-AreFilled vs
  filled_texts-AreFilled (cons (string (c ∷ s)) vs) = (refl, filled_texts-AreFilled vs)
  filled_texts-AreFilled (cons undefined vs) = filled_texts-AreFilled vs
  filled_texts-AreFilled (cons null vs) = filled_texts-AreFilled vs
  filled_texts-AreFilled (cons (boolean b) vs) = filled_texts-AreFilled vs
  filled_texts-AreFilled (cons (number n) vs) = filled_texts-AreFilled vs
  filled_texts-AreFilled (cons (array ws) vs) = filled_texts-AreFilled vs
  filled_texts-AreFilled (cons (object fs) vs) = filled_texts-AreFilled vs

  str-stable : (v : Json N) (s : Text) → str v ≡ some s → str {N = N} (string s) ≡ some s
  unfolding str
  str-stable (string t) s h = elim (Bool-cases (is_empty (trim t))) [
    | inl e ↦ cc
    | inr e ↦
        let same : t ≡ s = ground arith in
        subst (λ x. str {N = N} (string x) ≡ some x) same (rw e refl)
  ]
  str-stable undefined s h = cc
  str-stable null s h = cc
  str-stable (boolean b) s h = cc
  str-stable (number n) s h = cc
  str-stable (array vs) s h = cc
  str-stable (object fs) s h = cc

  school_ids-AreFilled : (v : Json N) → All (λ s. is_empty s ≡ false) (normalize_school_ids v)
  unfolding normalize_school_ids
  school_ids-AreFilled (array vs) = filled_texts-AreFilled vs
  school_ids-AreFilled (string s) = tt
  school_ids-AreFilled undefined = tt
  school_ids-AreFilled null = tt
  school_ids-AreFilled (boolean b) = tt
  school_ids-AreFilled (number n) = tt
  school_ids-AreFilled (object fs) = tt

  abbrev IsIdentifiedOption : Option NormalizedUser → Type 0
  IsIdentifiedOption none = Unit
  IsIdentifiedOption (some u) = IsIdentified u

  with_id-IsIdentified :
      (raw : Fields N) (o : Option Text)
      → text_at raw (text "id") ≡ o
      → IsIdentifiedOption (with_id raw o)
  with_id-IsIdentified raw none e = tt
  with_id-IsIdentified raw (some id) e =
      (str-stable (get raw (text "id")) id e, school_ids-AreFilled (get raw (text "school_ids")))

  normalize_managed_user-IsIdentified : (v : Json N) → IsIdentifiedOption (normalize_managed_user v)
  unfolding normalize_managed_user
  normalize_managed_user-IsIdentified (object raw) =
      with_id-IsIdentified raw (text_at raw (text "id")) refl
  normalize_managed_user-IsIdentified (array vs) = tt
  normalize_managed_user-IsIdentified (string s) = tt
  normalize_managed_user-IsIdentified undefined = tt
  normalize_managed_user-IsIdentified null = tt
  normalize_managed_user-IsIdentified (boolean b) = tt
  normalize_managed_user-IsIdentified (number n) = tt

  kept-AreIdentified :
      (o : Option NormalizedUser) (us : List NormalizedUser)
      → IsIdentifiedOption o
      → All IsIdentified us
      → All IsIdentified (elim o [ none ↦ us | some u ↦ u ∷ us ])
  kept-AreIdentified none us h hs = hs
  kept-AreIdentified (some u) us h hs = (h, hs)

  users_of-AreIdentified : (vs : Items N) → All IsIdentified (users_of vs)
  unfolding users_of
  users_of-AreIdentified nil = tt
  users_of-AreIdentified (cons v vs) =
      kept-AreIdentified (normalize_managed_user v) (users_of vs)
        (normalize_managed_user-IsIdentified v) (users_of-AreIdentified vs)

  users_at-AreIdentified : (v : Json N) → All IsIdentified (users_at v)
  users_at-AreIdentified (array vs) = users_of-AreIdentified vs
  users_at-AreIdentified (string s) = tt
  users_at-AreIdentified undefined = tt
  users_at-AreIdentified null = tt
  users_at-AreIdentified (boolean b) = tt
  users_at-AreIdentified (number n) = tt
  users_at-AreIdentified (object fs) = tt

  pub normalize_users-AreIdentified : (raw : Json N) → All IsIdentified (normalize_users raw)
  unfolding normalize_users
  normalize_users-AreIdentified (array vs) = users_of-AreIdentified vs
  normalize_users-AreIdentified (object fs) = users_at-AreIdentified (get fs (text "items"))
  normalize_users-AreIdentified (string s) = tt
  normalize_users-AreIdentified undefined = tt
  normalize_users-AreIdentified null = tt
  normalize_users-AreIdentified (boolean b) = tt
  normalize_users-AreIdentified (number n) = tt
