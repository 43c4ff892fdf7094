-- ===== src/Cameras/Read.antt =====
-- The readers of admin-dashboard/lib/admin/camera-monitoring-normalizer.ts.
pub mod Laws
use telecam.Prelude.{
  Bool, true, false, not, ◌&&◌, ◌||◌, List, [], ◌∷◌, map, filter, any, Option, none, some, or_else,
  get_or, if◌then◌else◌, length,
}
use telecam.Text.{Text, text, text_eq, trim, is_empty}
use telecam.Json.Defs.{
  Json, undefined, null, boolean, number, string, array, object, Items, nil, cons, Fields, end,
  field, Engine, get, has, as_record, pick, str, is_nullish, coalesce, is_truthy, items,
}
use telecam.Cameras.Types.{
  NormalizedSchool, NormalizedCameraStatus, SchoolCameraStatusResponse, CameraHealthEvent,
  CameraHealthAlert, NormalizedCameraHealth, NormalizedSchedulerStatus,
}
use telecam.Cameras.Status.{map_operational_status}

abbrev pub sensitive_keys : List Text
sensitive_keys = map text (
    "rtsp_url" ∷ "rtspUrl" ∷ "encrypted_rtsp" ∷ "encryptedRtsp" ∷ "signed_url" ∷ "signedUrl"
    ∷ "playlist_key" ∷ "playlistKey" ∷ "hls_url" ∷ "hlsUrl" ∷ "playback_url" ∷ "playbackUrl" ∷ [])

unfoldable pub is_sensitive : Text → Bool
unfolding text_eq
is_sensitive key = any (text_eq key) sensitive_keys

-- `[first, second, …]` as keys
abbrev pub keys2 : Text → Text → List Text
keys2 a b = a ∷ b ∷ []

abbrev pub keys3 : Text → Text → Text → List Text
keys3 a b c = a ∷ b ∷ c ∷ []

module _ {N : Type 0} where
  unfoldable pub strip_sensitive : Fields N → Fields N
  strip_sensitive end = end
  strip_sensitive (field k v fs) =
      let rest = strip_sensitive fs in if is_sensitive k then rest else field k v rest

  -- `isRecord(raw) && "data" in raw ? raw.data : raw`: an array is no record here.
  unfoldable pub unwrap_record : Json N → Json N
  unfolding as_record has get
  unwrap_record raw = elim (as_record raw) [
    | none ↦ raw
    | some fs ↦ if has fs (text "data") then get fs (text "data") else raw
  ]

  -- `isRecord(payload) ? payload : {}`
  abbrev pub record_or_empty : Json N → Fields N
  record_or_empty v = get_or (as_record v) end

  -- `rows.filter(isRecord)`
  unfoldable pub records_of : Items N → List (Fields N)
  unfolding as_record
  records_of nil = []
  records_of (cons v vs) = elim (as_record v) [
    | none ↦ records_of vs
    | some fs ↦ fs ∷ records_of vs
  ]

  -- `Array.isArray(v) ? v.filter(isRecord) : []`
  unfoldable pub rows : Json N → List (Fields N)
  rows (array vs) = records_of vs
  rows v = []

  abbrev pub str_at : Fields N → List Text → Option Text
  str_at fs keys = str (pick fs keys)

module _ {N : Type 0} (js : Engine N) where
  abbrev parsed : N → N
  parsed n = if js.is_finite n then n else js.of_nat 0

  unfoldable pub num : Json N → N
  unfolding trim
  num (number n) = parsed n
  num (string s) = if is_empty (trim s) then js.of_nat 0 else parsed (js.parse_number s)
  num v = js.of_nat 0

  unfoldable pub optional_num : Json N → Option N
  unfolding num
  optional_num v =
      if is_nullish v then none else if js.is_finite (num v) then some (num v) else none

  unfoldable pub normalize_camera_row :
      Fields N → Option Text → Option Text → NormalizedCameraStatus N
  unfolding strip_sensitive pick str map_operational_status optional_num
  normalize_camera_row raw school_id school_name =
      let safe = strip_sensitive raw in
      let raw_status = get_or (str_at safe (keys2 (text "status") (text "camera_status"))) [] in
      let desired_state = str_at safe (keys2 (text "desired_state") (text "desiredState")) in
      let schedule_reason =
        str_at safe (keys3 (text "reason") (text "schedule_reason") (text "scheduleReason")) in
      let last_health_event =
        str_at safe (keys2 (text "last_health_event") (text "lastHealthEvent")) in
      record {
        id = get_or (str_at safe (keys3 (text "id") (text "camera_id") (text "cameraId"))) [];
        name =
            get_or (str_at safe (keys3 (text "name") (text "camera_name") (text "cameraName")))
              (text "Unknown camera");
        school_id = or_else school_id (str_at safe (keys2 (text "school_id") (text "schoolId")));
        school_name =
            or_else school_name (str_at safe (keys2 (text "school_name") (text "schoolName")));
        classroom_id = str_at safe (keys2 (text "classroom_id") (text "classroomId"));
        classroom_name = str_at safe (keys2 (text "classroom_name") (text "classroomName"));
        status =
            map_operational_status js raw_status desired_state schedule_reason last_health_event;
        raw_status = raw_status;
        desired_state = desired_state;
        schedule_reason = schedule_reason;
        default_quality = str_at safe (keys2 (text "default_quality") (text "defaultQuality"));
        last_segment_at = str_at safe (keys2 (text "last_segment_at") (text "lastSegmentAt"));
        stream_lag_seconds =
            optional_num (pick safe (keys2 (text "stream_lag_seconds") (text "streamLagSeconds")));
        last_segment_age_minutes =
            optional_num
              (pick safe (keys2 (text "last_segment_age_minutes") (text "lastSegmentAgeMinutes")));
        open_alerts = num (pick safe (keys2 (text "open_alerts") (text "openAlerts")));
        last_health_event = last_health_event;
      }

  unfoldable pub normalize_school_camera_status : Json N → SchoolCameraStatusResponse N
  unfolding unwrap_record pick str get rows normalize_camera_row
  normalize_school_camera_status raw =
      let root = record_or_empty (unwrap_record raw) in
      let school_id = get_or (str_at root (keys2 (text "school_id") (text "schoolId"))) [] in
      let school_name = get_or (str_at root (keys2 (text "school_name") (text "schoolName"))) [] in
      record {
        school_id = school_id;
        school_name = school_name;
        cameras =
            map (λ row. normalize_camera_row row (some school_id) (some school_name))
              (rows (get root (text "cameras")));
      }

  unfoldable pub normalize_school_row : Fields N → NormalizedSchool
  unfolding pick str
  normalize_school_row row = record {
    id = get_or (str_at row (keys3 (text "id") (text "school_id") (text "schoolId"))) [];
    name =
        get_or (str_at row (keys3 (text "name") (text "school_name") (text "schoolName")))
          (text "Unknown school");
    status = str_at row (text "status" ∷ []);
  }

  unfoldable pub normalize_schools : Json N → List NormalizedSchool
  unfolding unwrap_record rows normalize_school_row
  normalize_schools raw =
      filter (λ school. not (is_empty school.id))
        (map normalize_school_row (rows (unwrap_record raw)))
