-- ===== src/Auth/Permissions/Tests.antt =====
-- Permissions of concrete role texts.
use telecam.Prelude.{◌≡◌, ◌↔◌, refl, true, false, some, All}
use telecam.Text.{text, text_eq}
use telecam.Json.Defs.{string}
use telecam.Json.Examples.{small_engine}
use telecam.Auth.Roles.{
  super_admin, parent, normalize_user_role, normalize_dashboard_role, canonical_role,
}
use telecam.Auth.Permissions.{has_permission, users_create, billing_view}
use telecam.Auth.Permissions.Laws.{has_permission-reserved, reserved}

school_admin_may :
    (has_permission small_engine (some (text " school-admin ")) billing_view ≡ true)
    × (has_permission small_engine (some (text "School Admin")) users_create ≡ false)
unfolding has_permission normalize_dashboard_role canonical_role text_eq
school_admin_may = (refl, refl)

reads_parent : normalize_user_role small_engine (string (text "Parent")) ≡ some parent
unfolding normalize_user_role canonical_role text_eq
reads_parent = refl

has_permission-reserved_example :
    All
      (λ p.
        (has_permission small_engine (some (text "SuperAdmin")) p ≡ true)
        ↔ (normalize_dashboard_role small_engine (some (text "SuperAdmin")) ≡ some super_admin))
      reserved
has_permission-reserved_example = has_permission-reserved small_engine (some (text "SuperAdmin"))
