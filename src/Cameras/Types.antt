-- ===== src/Cameras/Types.antt =====
-- admin-dashboard/lib/admin/camera-monitoring-types.ts. What may be missing is an `Option`; the
-- readers always set the raw status and the numbers of open alerts.
use telecam.Prelude.{ℕ, Bool, List, Option}
use telecam.Text.{Text}

pub data CameraOperationalStatus : Type 0 where
  online offline stopped_by_schedule no_recent_segment error disabled unknown :
      CameraOperationalStatus

pub record NormalizedSchool : Type 0 where
  pub id : Text
  pub name : Text
  pub status : Option Text

pub record NormalizedCameraStatus (N : Type 0) : Type 0 where
  pub id : Text
  pub name : Text
  pub school_id : Option Text
  pub school_name : Option Text
  pub classroom_id : Option Text
  pub classroom_name : Option Text
  pub status : CameraOperationalStatus
  pub raw_status : Text
  pub desired_state : Option Text
  pub schedule_reason : Option Text
  pub default_quality : Option Text
  pub last_segment_at : Option Text
  pub stream_lag_seconds : Option N
  pub last_segment_age_minutes : Option N
  pub open_alerts : N
  pub last_health_event : Option Text

pub record SchoolCameraStatusResponse (N : Type 0) : Type 0 where
  pub school_id : Text
  pub school_name : Text
  pub cameras : List (NormalizedCameraStatus N)

pub record CameraHealthEvent : Type 0 where
  pub id : Option Text
  pub event_type : Option Text
  pub severity : Option Text
  pub message : Option Text
  pub created_at : Option Text

pub record CameraHealthAlert : Type 0 where
  pub id : Option Text
  pub kind : Option Text
  pub severity : Option Text
  pub status : Option Text
  pub message : Option Text
  pub created_at : Option Text

-- `openAlertsCount` is the number of alerts, or what the server counted.
pub record NormalizedCameraHealth (N : Type 0) : Type 0 where
  pub id : Text
  pub name : Option Text
  pub school_name : Option Text
  pub classroom_name : Option Text
  pub status : CameraOperationalStatus
  pub raw_status : Text
  pub desired_state : Option Text
  pub schedule_reason : Option Text
  pub default_quality : Option Text
  pub last_segment_at : Option Text
  pub stream_lag_seconds : Option N
  pub last_segment_age_minutes : Option N
  pub open_alerts_count : N
  pub last_health_event : Option Text
  pub playlist_exists : Bool
  pub events : List CameraHealthEvent
  pub alerts : List CameraHealthAlert
  pub last_worker_heartbeat : Option Text

pub record NormalizedSchedulerStatus (N : Type 0) : Type 0 where
  pub timezone : Option Text
  pub current_state : Option Text
  pub reason : Option Text
  pub recording_start_time : Option Text
  pub recording_end_time : Option Text
  pub recording_days : Option (List Text)
  pub next_start_at : Option Text
  pub next_stop_at : Option Text
  pub cameras_running_desired : Option N
  pub cameras_stopped_desired : Option N

pub record CameraStatusSummary (N : Type 0) : Type 0 where
  pub total : ℕ
  pub online : ℕ
  pub offline : ℕ
  pub stopped_by_schedule : ℕ
  pub no_recent_segment : ℕ
  pub error : ℕ
  pub disabled : ℕ
  pub open_alerts : N
