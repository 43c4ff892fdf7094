-- ===== src/Cameras/Catalog.antt =====
-- The cameras that an administrator manages: admin-dashboard/lib/admin/cameras-types.ts and
-- cameras-normalizer.ts. `to_text` is `String`.
use telecam.Prelude.{
  not, List, [], ◌∷◌, ◌++◌, map, filter, any, Option, none, some, or_else, get_or, if◌then◌else◌,
}
use telecam.Text.{Text, text, text_eq, is_empty}
use telecam.Json.Defs.{Json, string, object, Fields, end, field, Engine, pick, str, as_record}
use telecam.Json.Case.{upper}
use telecam.Cameras.Read.{keys2, keys3, str_at, rows, unwrap_record}
use telecam.Alerts.Read.{text_of}
use telecam.Alerts.Filter.{name_in, known_name}
use telecam.Schools.Read.{rows_under}

pub data CameraStatus : Type 0 where
  active disabled online offline error stopped unknown : CameraStatus

pub record Camera (N : Type 0) : Type 0 where
  pub id : Text
  pub name : Text
  pub school_id : Option Text
  pub school_name : Option Text
  pub classroom_id : Option Text
  pub classroom_name : Option Text
  pub status : CameraStatus
  pub default_quality : Option Text
  pub desired_state : Option Text
  pub schedule_reason : Option Text
  pub last_segment_at : Option Text
  pub open_alerts : Option N
  pub created_at : Option Text
  pub updated_at : Option Text

pub record CameraStreamState : Type 0 where
  pub camera_id : Option Text
  pub desired_state : Option Text
  pub reason : Option Text
  pub updated_at : Option Text

pub record ClassroomName : Type 0 where
  pub id : Text
  pub name : Text

-- A row of the camera monitoring, as far as it is merged.
pub record StatusCamera (N : Type 0) : Type 0 where
  pub id : Text
  pub desired_state : Option Text
  pub schedule_reason : Option Text
  pub last_segment_at : Option Text
  pub open_alerts : Option N
  pub status : Option Text

abbrev pub strip_keys : List Text
strip_keys = map text (
    "rtsp_url" ∷ "rtspUrl" ∷ "encrypted_rtsp_url" ∷ "encryptedRtspUrl" ∷ "signed_url" ∷ "signedUrl"
    ∷ "hls_url" ∷ "hlsUrl" ∷ "playback_url" ∷ "playbackUrl" ∷ "r2_live_path" ∷ "r2LivePath"
    ∷ "r2_recording_path" ∷ "r2RecordingPath" ∷ [])

abbrev camera_status_of : Text → CameraStatus
camera_status_of s =
    if text_eq s (text "ACTIVE")
    then active
    else if text_eq s (text "DISABLED")
    then disabled
    else if text_eq s (text "ONLINE")
    then online
    else if text_eq s (text "OFFLINE")
    then offline
    else if text_eq s (text "ERROR")
    then error
    else if text_eq s (text "STOPPED")
    then stopped
    else unknown

module _ {N : Type 0} where
  unfoldable pub strip_camera : Fields N → Fields N
  unfolding text_eq
  strip_camera end = end
  strip_camera (field k v fs) =
      let rest = strip_camera fs in if any (text_eq k) strip_keys then rest else field k v rest

  abbrev stripped : Option (Fields N) → Fields N
  stripped none = end
  stripped (some fs) = strip_camera fs

module _ {N : Type 0} (js : Engine N) (to_text : Json N → Text) where
  unfoldable pub normalize_camera_status : Json N → CameraStatus
  unfolding upper text_eq
  normalize_camera_status value = camera_status_of (upper js (text_of js to_text value))

  unfoldable pub normalize_camera : Json N → Camera N
  unfolding as_record strip_camera pick str normalize_camera_status
  normalize_camera raw =
      let row = stripped (as_record raw) in
      record {
        id = get_or (str_at row (keys3 (text "id") (text "camera_id") (text "cameraId"))) [];
        name =
            get_or (str_at row (keys3 (text "name") (text "camera_name") (text "cameraName")))
              (text "Unknown camera");
        school_id = str_at row (keys2 (text "school_id") (text "schoolId"));
        school_name = str_at row (keys2 (text "school_name") (text "schoolName"));
        classroom_id = str_at row (keys2 (text "classroom_id") (text "classroomId"));
        classroom_name = str_at row (keys2 (text "classroom_name") (text "classroomName"));
        status = normalize_camera_status (pick row (text "status" ∷ []));
        default_quality = str_at row (keys2 (text "default_quality") (text "defaultQuality"));
        desired_state = str_at row (keys2 (text "desired_state") (text "desiredState"));
        schedule_reason =
            str_at row (keys3 (text "reason") (text "schedule_reason") (text "scheduleReason"));
        last_segment_at = str_at row (keys2 (text "last_segment_at") (text "lastSegmentAt"));
        open_alerts = none;
        created_at = str_at row (keys2 (text "created_at") (text "createdAt"));
        updated_at = str_at row (keys2 (text "updated_at") (text "updatedAt"));
      }

  unfoldable pub normalize_cameras : Json N → List (Camera N)
  unfolding unwrap_record pick rows normalize_camera
  normalize_cameras raw =
      map (λ row. normalize_camera (object row))
        (rows_under js to_text (keys3 (text "cameras") (text "data") (text "items"))
          (unwrap_record raw))

  -- The record under `camera`, if there is one, else the value itself.
  abbrev nested_camera : Json N → Json N
  nested_camera payload = elim (as_record payload) [
    | none ↦ payload
    | some fs ↦ elim (as_record (pick fs (text "camera" ∷ []))) [
      | none ↦ payload
      | some nested ↦ object nested
    ]
  ]

  unfoldable pub normalize_camera_detail : Json N → Camera N
  unfolding unwrap_record as_record pick normalize_camera
  normalize_camera_detail raw = normalize_camera (nested_camera (unwrap_record raw))

  unfoldable pub normalize_camera_stream_state : Json N → CameraStreamState
  unfolding unwrap_record as_record strip_camera pick str
  normalize_camera_stream_state raw =
      let row = stripped (as_record (unwrap_record raw)) in
      record {
        camera_id = str_at row (keys3 (text "camera_id") (text "cameraId") (text "id"));
        desired_state = str_at row (keys2 (text "desired_state") (text "desiredState"));
        reason = str_at row (keys2 (text "reason") (text "schedule_reason"));
        updated_at = str_at row (keys2 (text "updated_at") (text "updatedAt"));
      }

  abbrev classroom_name_of : Fields N → ClassroomName
  classroom_name_of row = record {
    id = get_or (str_at row (keys2 (text "id") (text "classroom_id"))) [];
    name = get_or (str_at row (text "name" ∷ [])) (text "Unknown classroom");
  }

  unfoldable pub normalize_classroom_names : Json N → List ClassroomName
  unfolding unwrap_record pick str rows
  normalize_classroom_names raw =
      filter (λ c. not (is_empty c.id))
        (map classroom_name_of (
          rows_under js to_text (keys3 (text "classrooms") (text "data") (text "items"))
            (unwrap_record raw)))

  abbrev merged_status : Option Text → CameraStatus → CameraStatus
  merged_status none status = status
  merged_status (some s) status = if is_empty s then status else normalize_camera_status (string s)

  abbrev merged : Camera N → Option (StatusCamera N) → Camera N
  merged camera none = camera
  merged camera (some s) = record camera {
    desired_state = or_else s.desired_state camera.desired_state;
    schedule_reason = or_else s.schedule_reason camera.schedule_reason;
    last_segment_at = or_else s.last_segment_at camera.last_segment_at;
    open_alerts = or_else s.open_alerts camera.open_alerts;
    status = merged_status s.status camera.status;
  }

  -- `new Map(statusCameras.map((c) => [c.id, c])).get(id)`: the last row of an id counts.
  unfoldable pub status_of : List (StatusCamera N) → Text → Option (StatusCamera N)
  unfolding text_eq
  status_of [] id = none
  status_of (s ∷ rest) id =
      let later = status_of rest id in or_else later (if text_eq s.id id then some s else none)

  unfoldable pub merge_camera_status : List (Camera N) → List (StatusCamera N) → List (Camera N)
  unfolding normalize_camera_status status_of
  merge_camera_status cameras status_cameras =
      map (λ camera. merged camera (status_of status_cameras camera.id)) cameras

-- The name of the camera's own school, or of the given one if the camera names none.
abbrev school_name_for : List (Text × Text) → Option Text → Option Text → Option Text
school_name_for schools (some (c ∷ s)) school_id = name_in schools (c ∷ s)
school_name_for schools _ school_id = known_name schools school_id

abbrev named_camera :
    {N : Type 0} → List (Text × Text) → List (Text × Text) → Option Text → Camera N → Camera N
named_camera schools classrooms school_id camera = record camera {
  school_id = or_else camera.school_id school_id;
  school_name = or_else camera.school_name (school_name_for schools camera.school_id school_id);
  classroom_name = or_else camera.classroom_name (known_name classrooms camera.classroom_id);
}

unfoldable pub enrich_cameras_with_names :
    {N : Type 0}
    → List (Camera N)
    → List (Text × Text)
    → List (Text × Text)
    → Option Text
    → List (Camera N)
unfolding name_in
enrich_cameras_with_names cameras schools classrooms school_id =
    map (named_camera schools classrooms school_id) cameras

unfoldable pub build_r2_live_path : Text → Text → Text → Text
build_r2_live_path school_id camera_id quality =
    text "cameras/"
    ++ (school_id ++ b'/' ∷ (camera_id ++ (text "/live/" ++ (quality ++ text "/index.m3u8"))))
