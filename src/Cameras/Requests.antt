-- ===== src/Cameras/Requests.antt =====
-- Fetching, creating and changing cameras: admin-dashboard/lib/admin/cameras-api.ts. `to_text` is
-- `String`, `encode` is `encodeURIComponent`.
use telecam.Prelude.{
  ◌≡◌, refl, not, List, ◌++◌, Option, none, some, if◌then◌else◌, Bool-cases, inl, inr,
}
use telecam.Text.{Text, text, text_eq, trim}
use telecam.Json.Defs.{Json, object, string, Fields, field, end}
use telecam.Session.World.{World, Env, M, Run, returned, thrown, pure, catch_with, ◌>>=◌}
use telecam.Session.Provider.{fetch_page}
use telecam.Session.Storage.{truthy}
use telecam.Session.Queries.{by_method, fetch_and}
use telecam.Cameras.Catalog.{
  Camera, CameraStreamState, ClassroomName, normalize_cameras, normalize_camera_detail,
  normalize_camera_stream_state, normalize_classroom_names, build_r2_live_path,
}

pub record CreateCameraInput : Type 0 where
  pub classroom_id : Text
  pub name : Text
  pub rtsp_url : Text
  pub default_quality : Text

pub record UpdateCameraInput : Type 0 where
  pub classroom_id : Option Text
  pub name : Option Text
  pub rtsp_url : Option Text
  pub default_quality : Option Text
  pub status : Option Text

-- `if (value) body[key] = value`, for a key that is new
abbrev pub field_if : {N : Type 0} → Text → Option Text → Fields N → Fields N
field_if key value rest = elim (truthy value) [ none ↦ rest | some v ↦ field key (string v) rest ]

abbrev trimmed_url : Option Text → Option Text
trimmed_url none = none
trimmed_url (some url) = truthy (some (trim url))

unfoldable pub update_body : {N : Type 0} → UpdateCameraInput → Fields N
unfolding trim
update_body input = field_if (text "classroom_id") input.classroom_id (
    field_if (text "name") input.name (
      field_if (text "default_quality") input.default_quality (
        field_if (text "status") input.status
          (field_if (text "rtsp_url") (trimmed_url input.rtsp_url) end))))

unfoldable pub placeholder_path : Text → Text → Text
placeholder_path school_id quality =
    text "cameras/" ++ (school_id ++ (text "/pending/live/" ++ (quality ++ text "/index.m3u8")))

module _ {N : Type 0} (env : Env N) (to_text : Json N → Text) (encode : Text → Text) where
  unfoldable pub get_school_cameras : Text → M N (List (Camera N))
  get_school_cameras school_id =
      fetch_and env (text "/admin/schools/" ++ (encode school_id ++ text "/cameras")) (text "GET")
        (normalize_cameras env.js to_text)

  unfoldable pub get_camera : Text → M N (Camera N)
  get_camera camera_id =
      fetch_and env (text "/admin/cameras/" ++ encode camera_id) (text "GET")
        (normalize_camera_detail env.js to_text)

  unfoldable pub get_classroom_names : Text → M N (List ClassroomName)
  get_classroom_names school_id =
      fetch_and env (text "/admin/schools/" ++ (encode school_id ++ text "/classrooms"))
        (text "GET") (normalize_classroom_names env.js to_text)

  unfoldable pub get_camera_stream_state : Text → M N CameraStreamState
  get_camera_stream_state camera_id =
      fetch_and env (text "/admin/cameras/" ++ (encode camera_id ++ text "/stream-state"))
        (text "GET") (normalize_camera_stream_state env.js to_text)

  unfoldable pub patch_camera_internal : Text → Fields N → M N (Camera N)
  patch_camera_internal camera_id body = do
    raw ←
        fetch_page env (text "/admin/cameras/" ++ encode camera_id)
          (by_method (text "PATCH") (some (env.js.stringify (object body))))
    pure (normalize_camera_detail env.js to_text raw)

  unfoldable pub create_body : Text → CreateCameraInput → Fields N
  unfolding placeholder_path
  create_body school_id input = field (text "classroom_id") (string input.classroom_id) (
      field (text "name") (string input.name) (
        field (text "rtsp_url") (string input.rtsp_url) (
          field (text "default_quality") (string input.default_quality) (
            field (text "r2_live_path") (string (placeholder_path school_id input.default_quality))
              end))))

  unfoldable pub post_camera : Text → CreateCameraInput → M N (Json N)
  unfolding create_body
  post_camera school_id input =
      fetch_page env (text "/admin/schools/" ++ (encode school_id ++ text "/cameras"))
        (by_method (text "POST") (some (env.js.stringify (object (create_body school_id input)))))

  -- Gives the created camera its path; where that fails, the camera stays as it was created.
  unfoldable pub settle_path : Text → CreateCameraInput → Camera N → M N (Camera N)
  unfolding build_r2_live_path placeholder_path text_eq patch_camera_internal
  settle_path school_id input camera =
      let correct = build_r2_live_path school_id camera.id input.default_quality in
      if not (text_eq correct (placeholder_path school_id input.default_quality))
      then catch_with
          (patch_camera_internal camera.id (field (text "r2_live_path") (string correct) end))
          (λ e. pure camera)
      else pure camera

  unfoldable pub create_camera : Text → CreateCameraInput → M N (Camera N)
  unfolding settle_path post_camera
  create_camera school_id input = do
    raw ← post_camera school_id input
    settle_path school_id input (normalize_camera_detail env.js to_text raw)

  unfoldable pub update_camera : Text → UpdateCameraInput → M N (Camera N)
  unfolding update_body patch_camera_internal
  update_camera camera_id input = patch_camera_internal camera_id (update_body input)

  -- A run with a result.
  abbrev pub HasResult : Run N (Camera N) → Type 0
  HasResult (returned camera v) = Unit
  HasResult (thrown e v) = ⊥

  caught-HasResult :
      (camera : Camera N) (run : Run N (Camera N))
      → HasResult (elim run [ returned c v ↦ returned c v | thrown e v ↦ returned camera v ])
  caught-HasResult camera (returned c v) = tt
  caught-HasResult camera (thrown e v) = tt

  settle_path-HasResult :
      (school_id : Text) (input : CreateCameraInput) (camera : Camera N) (w : World)
      → HasResult (settle_path school_id input camera w)
  unfolding settle_path
  settle_path-HasResult school_id input camera w =
      let correct = build_r2_live_path school_id camera.id input.default_quality in
      elim (Bool-cases (text_eq correct (placeholder_path school_id input.default_quality))) [
        | inl e ↦ rw (e, HasResult) tt
        | inr e ↦
            rw (e, HasResult)
              (caught-HasResult camera (
                patch_camera_internal camera.id (field (text "r2_live_path") (string correct) end)
                  w))
      ]

  abbrev then_settle : Text → CreateCameraInput → Run N (Json N) → Run N (Camera N)
  then_settle school_id input run = elim run [
    | returned raw v ↦ settle_path school_id input (normalize_camera_detail env.js to_text raw) v
    | thrown e v ↦ thrown e v
  ]

  -- What the first request decides of a run.
  abbrev pub FollowsPost : Run N (Json N) → Run N (Camera N) → Type 0
  FollowsPost (returned raw v) run = HasResult run
  FollowsPost (thrown e v) run = run ≡ thrown e v

  settled-FollowsPost :
      (school_id : Text) (input : CreateCameraInput) (post : Run N (Json N))
      → FollowsPost post (then_settle school_id input post)
  settled-FollowsPost school_id input (returned raw v) =
      settle_path-HasResult school_id input (normalize_camera_detail env.js to_text raw) v
  settled-FollowsPost school_id input (thrown e v) = refl

  -- Creating a camera fails exactly as its first request does; once that returns, a camera is
  -- returned, also where the second request, which corrects the path, fails.
  pub create_camera-FollowsPost :
      (school_id : Text) (input : CreateCameraInput) (w : World)
      → FollowsPost (post_camera school_id input w) (create_camera school_id input w)
  unfolding create_camera
  create_camera-FollowsPost school_id input w =
      settled-FollowsPost school_id input (post_camera school_id input w)
