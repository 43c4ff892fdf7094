-- ===== src/Session/Storage.antt =====
-- admin-dashboard/lib/auth/storage.ts
use telecam.Prelude.{[], ◌∷◌, Option, none, some, if◌then◌else◌}
use telecam.Text.{Text, text}
use telecam.Auth.Users.{AuthUser, normalize_user, user_json}
use telecam.Session.World.{World, Env, M, Run, returned}

-- `token || null`: an empty text counts as none.
abbrev pub truthy : Option Text → Option Text
truthy none = none
truthy (some []) = none
truthy (some (c ∷ s)) = some (c ∷ s)

unfoldable pub get_stored_refresh_token : World → Option Text
get_stored_refresh_token w = if w.storage_available then w.stored_refresh_token else none

unfoldable pub set_stored_refresh_token : Option Text → World → World
set_stored_refresh_token token w =
    if w.storage_available then record w { stored_refresh_token = truthy token } else w

unfoldable pub clear_auth_storage : World → World
clear_auth_storage w =
    if w.storage_available then record w { stored_refresh_token = none; stored_user = none } else w

module _ {N : Type 0} (env : Env N) where
  -- A text that is no JSON reads as no user.
  unfoldable pub parse_user : Text → Option AuthUser
  parse_user raw = elim (env.js.parse raw) [
    | none ↦ none
    | some value ↦ normalize_user env.js value
  ]

  unfoldable pub get_stored_user : World → Option AuthUser
  unfolding parse_user
  get_stored_user w =
      if w.storage_available
      then elim (truthy w.stored_user) [ none ↦ none | some raw ↦ parse_user raw ]
      else none

  abbrev stringified : Option AuthUser → Option Text
  stringified none = none
  stringified (some u) = some (env.js.stringify (user_json u))

  unfoldable pub set_stored_user : Option AuthUser → World → World
  set_stored_user user w =
      if w.storage_available then record w { stored_user = stringified user } else w

  abbrev pub name_device : World → Option Text → Run N Text
  name_device w (some existing) = returned existing w
  name_device w none =
      let fingerprint = env.fresh_fingerprint w.requests in
      returned fingerprint (record w { stored_fingerprint = some fingerprint })

  unfoldable pub get_or_create_device_fingerprint : M N Text
  get_or_create_device_fingerprint w =
      if w.storage_available
      then name_device w (truthy w.stored_fingerprint)
      else returned (text "web-dashboard-ssr") w
