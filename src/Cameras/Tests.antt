-- ===== src/Cameras/Tests.antt =====
-- Cameras of a small answer.
use telecam.Prelude.{ℕ, false, ◌+◌, ◌≡◌, refl, [], ◌∷◌, length, none, some, All, if◌then◌else◌}
use telecam.Text.{Text, text, text_eq, trim}
use telecam.Json.Defs.{
  Json, object, string, number, array, cons, nil, Fields, field, end, get, has, pick, str,
  undefined,
}
use telecam.Json.Case.{upper}
use telecam.Json.Examples.{small_engine}
use telecam.Session.World.{World, Env}
use telecam.Cameras.Requests.{
  CreateCameraInput, post_camera, create_camera, create_camera-FollowsPost, FollowsPost,
}
use telecam.Cameras.Types.{NormalizedCameraStatus, online}
use telecam.Cameras.Status.{Signals, decide_status, map_operational_status}
use telecam.Cameras.Status.Laws.{reference_status, decide_status-eq}
use telecam.Cameras.Read.{
  is_sensitive, strip_sensitive, normalize_camera_row, normalize_school_camera_status,
}
use telecam.Cameras.Read.Laws.{
  names_secret, get-strip_sensitive, normalize_school_camera_status-of_school,
}
use telecam.Cameras.Summary.{
  compute_camera_status_summary, compute_camera_status_summary-counts, counted, unknowns,
}

abbrev stopped_camera : Signals
stopped_camera = record {
  status = text "ONLINE";
  desired = text "STOPPED";
  reason = text "WEEKEND";
  last_event = [];
}

decide_status-eq_example : decide_status stopped_camera ≡ reference_status stopped_camera
decide_status-eq_example = decide_status-eq stopped_camera

abbrev row : Fields ℕ
row = field (text "id") (string (text "c1")) (
    field (text "rtspUrl") (string (text "rtsp://u:p@h")) (
      field (text "status") (string (text "active"))
        (field (text "school_id") (string (text "s2")) end)))

get-strip_sensitive_example :
    get (strip_sensitive row) (text "rtspUrl")
    ≡ (if names_secret (text "rtspUrl") then undefined else get row (text "rtspUrl"))
get-strip_sensitive_example = get-strip_sensitive row (text "rtspUrl")

abbrev school_answer : Json ℕ
school_answer = object (
    field (text "data")
      (object (
        field (text "school_id") (string (text "s1"))
          (field (text "cameras") (array (cons (object row) (cons (number 3) nil))) end)))
      end)

normalize_school_camera_status-of_school_example :
    All
      (λ c.
        (c.school_id ≡ some (normalize_school_camera_status small_engine school_answer).school_id)
        × (c.school_name
            ≡ some (normalize_school_camera_status small_engine school_answer).school_name))
      (normalize_school_camera_status small_engine school_answer).cameras
normalize_school_camera_status-of_school_example =
    normalize_school_camera_status-of_school small_engine school_answer

abbrev schools_answer : Json ℕ
schools_answer = array (cons (object row) (cons (object end) nil))

abbrev camera : NormalizedCameraStatus ℕ
camera = normalize_camera_row small_engine row none none

camera_online : camera.status ≡ online
unfolding normalize_camera_row strip_sensitive is_sensitive text_eq pick has get str trim upper
    map_operational_status
camera_online = refl

compute_camera_status_summary-counts_example :
    ((compute_camera_status_summary (λ a b. a + b) 0 (camera ∷ camera ∷ [])).total
      ≡ length (camera ∷ camera ∷ []))
    × (counted
            (λ a b. a + b)
            0
            (compute_camera_status_summary (λ a b. a + b) 0 (camera ∷ camera ∷ []))
          + unknowns (λ a b. a + b) 0 (camera ∷ camera ∷ [])
        ≡ length (camera ∷ camera ∷ []))
compute_camera_status_summary-counts_example =
    compute_camera_status_summary-counts (λ a b. a + b) 0 (camera ∷ camera ∷ [])

-- A server that accepts a camera and then cannot be reached.
abbrev created : Json ℕ
created = object (field (text "id") (string (text "c1")) end)

abbrev flaky : Env ℕ
flaky = record {
  js = record small_engine { parse = λ s. some created };
  server = λ sent request. elim sent [
    | [] ↦ some (record { status = 201; text = text "{}" })
    | ◌∷◌ r rs ↦ none
  ];
  api_base_url = text "https://x";
  app_name = text "d";
  fresh_fingerprint = λ sent. text "f";
}

abbrev no_text : Json ℕ → Text
no_text v = []

abbrev same_text : Text → Text
same_text s = s

abbrev gate : CreateCameraInput
gate = record {
  classroom_id = text "k1";
  name = text "gate";
  rtsp_url = text "rtsp://10.0.0.2/1";
  default_quality = text "sd_360p";
}

abbrev browser : World
browser = record {
  access_token = some (text "t1");
  registered = false;
  storage_available = false;
  stored_refresh_token = none;
  stored_user = none;
  stored_fingerprint = none;
  user = none;
  access_token_state = some (text "t1");
  refresh_token_state = none;
  is_loading = false;
  requests = [];
  replaced = [];
}

create_camera-FollowsPost_example :
    FollowsPost flaky no_text same_text
      (post_camera flaky no_text same_text (text "s1") gate browser)
      (create_camera flaky no_text same_text (text "s1") gate browser)
create_camera-FollowsPost_example =
    create_camera-FollowsPost flaky no_text same_text (text "s1") gate browser
