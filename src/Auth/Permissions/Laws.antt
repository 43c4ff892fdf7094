-- ===== src/Auth/Permissions/Laws.antt =====
-- What the permission checks grant, and to whom.
use telecam.Prelude.{
  ◌≡◌, refl, ◌≢◌, ◌↔◌, ◌⊎◌, inl, inr, Bool, true, false, List, [], ◌∷◌, Option, none, some, arith,
  All, Option-cases, sym, All-intro, All-map, all_iff, any-false_iff,
}
use mathlib.Core.List.{Memᴰ}
use mathlib.Core.Path.{fun_ext}
use telecam.Text.{Text}
use telecam.Json.Defs.{string, Engine}
use telecam.Auth.Roles.{
  DashboardRole, super_admin, school_admin, technician, parent, normalize_user_role,
  normalize_dashboard_role,
}
use telecam.Auth.Roles.Laws.{normalize_dashboard_role-eq}
use telecam.Auth.Permissions.{
  Permission, Permission-discrete, contains, role_permissions, has_permission, has_any_permission,
  has_all_permissions, get_permissions_for_role, dashboard_view, schools_create,
  school_admins_manage, revenue_share_manage, settings_view, users_view, users_create, users_update,
  users_reset_password, users_change_role, users_disable,
}

contains_sound : (p : Permission) (ps : List Permission) → contains p ps ≡ true → Memᴰ p ps
unfolding contains
contains_sound p [] h = cc
contains_sound p (q ∷ qs) h = elim (Permission-discrete q p) [
  | yes e ↦ Memᴰ.head (sym e)
  | no n ↦ Memᴰ.tail (contains_sound p qs (ground arith))
]

contains_complete : {p : Permission} {ps : List Permission} → Memᴰ p ps → contains p ps ≡ true
unfolding contains
contains_complete {p} (Memᴰ.head e) = ground arith
contains_complete {p} (Memᴰ.tail m) = ground (arith, contains_complete m)

-- The permissions that only a super admin holds.
abbrev pub reserved : List Permission
reserved =
    schools_create ∷ school_admins_manage ∷ revenue_share_manage ∷ settings_view ∷ users_view
    ∷ users_create ∷ users_update ∷ users_reset_password ∷ users_change_role ∷ users_disable ∷ []

super_admin-contains : (p : Permission) → contains p (role_permissions super_admin) ≡ true
unfolding role_permissions contains
super_admin-contains dashboard_view = refl
super_admin-contains _ = refl

-- Any role but the super admin lacks each reserved permission.
reserved-contains :
    (r : DashboardRole)
    → r ≢ super_admin
    → All (λ p. contains p (role_permissions r) ≡ false) reserved
unfolding role_permissions contains
reserved-contains super_admin h = absurd (h refl)
reserved-contains school_admin h = assumption refl
reserved-contains technician h = assumption refl

abbrev granted : Option DashboardRole → Permission → Bool
granted none p = false
granted (some r) p = contains p (role_permissions r)

abbrev NeedsSuperAdmin : Option DashboardRole → Permission → Type 0
NeedsSuperAdmin d p = (granted d p ≡ true) ↔ (d ≡ some super_admin)

granted-reserved : (d : Option DashboardRole) → All (NeedsSuperAdmin d) reserved
granted-reserved none = All-intro (NeedsSuperAdmin none) (λ p. (λ h. cc, λ e. cc)) reserved
granted-reserved (some super_admin) =
    All-intro (NeedsSuperAdmin (some super_admin)) (λ p. (λ _. refl, λ _. super_admin-contains p))
      reserved
granted-reserved (some r) =
    All-map {Q = NeedsSuperAdmin (some r)}
      (λ p (lacks : contains p (role_permissions r) ≡ false). (λ h. cc, λ e. cc)) reserved
      (reserved-contains r (λ e. cc))

module _ {N : Type 0} (js : Engine N) where
  has_permission-eq-granted :
      (role : Option Text) (p : Permission)
      → has_permission js role p ≡ granted (normalize_dashboard_role js role) p
  unfolding has_permission
  has_permission-eq-granted role p = ground arith

  -- A permission is granted exactly when the role text names a dashboard role whose list holds it.
  pub has_permission_iff :
      (role : Option Text) (p : Permission)
      → (has_permission js role p ≡ true) ↔ (
          (r : DashboardRole) × (normalize_dashboard_role js role ≡ some r)
          × Memᴰ p (role_permissions r))
  unfolding has_permission
  has_permission_iff role p = elim (Option-cases (normalize_dashboard_role js role)) [
    | inl e ↦ rw (e, has_permission) (λ h. cc, λ (r, q, m). cc)
    | inr (r, e) ↦
        rw (e, has_permission)
          (
            λ h. (r, refl, contains_sound p (role_permissions r) h),
            λ (r', q, m). let same : r ≡ r' = cc in rw same (contains_complete m),
          )
  ]

  -- Whatever the role text, the permissions on accounts, on creating schools, on managing school
  -- admins, on managing revenue shares and on the settings are granted exactly to the texts that
  -- name a super admin.
  pub has_permission-reserved :
      (role : Option Text)
      → All
          (λ p.
            (has_permission js role p ≡ true)
            ↔ (normalize_dashboard_role js role ≡ some super_admin))
          reserved
  has_permission-reserved role =
      rw (fun_ext (has_permission-eq-granted role))
        (granted-reserved (normalize_dashboard_role js role))

  -- A text that the session reads as a parent, or as no role, has no permission, and an empty list
  -- of permissions.
  pub has_permission_of_parent :
      (s : Text) (p : Permission)
      → (normalize_user_role js (string s) ≡ some parent)
        ⊎ (normalize_user_role js (string s) ≡ none)
      → (has_permission js (some s) p ≡ false) × (get_permissions_for_role js (some s) ≡ [])
  unfolding has_permission get_permissions_for_role
  has_permission_of_parent s p h =
      let nobody : normalize_dashboard_role js (some s) ≡ none =
        ground (arith, normalize_dashboard_role-eq js s) in
      ground arith

  -- All of a list of permissions are granted exactly when the list is not empty and each one is.
  pub has_all_permissions_iff :
      (role : Option Text) (ps : List Permission)
      → (has_all_permissions js role ps ≡ true)
        ↔ ((ps ≢ []) × All (λ p. has_permission js role p ≡ true) ps)
  unfolding has_all_permissions
  has_all_permissions_iff role [] = (λ h. cc, λ h. absurd (h.0 refl))
  has_all_permissions_iff role (p ∷ ps) = ground (arith, all_iff (has_permission js role) (p ∷ ps))

  -- No one of a list of permissions is granted exactly when each one is refused.
  pub has_any_permission-false_iff :
      (role : Option Text) (ps : List Permission)
      → (has_any_permission js role ps ≡ false) ↔ All (λ p. has_permission js role p ≡ false) ps
  unfolding has_any_permission
  has_any_permission-false_iff role ps = any-false_iff (has_permission js role) ps
