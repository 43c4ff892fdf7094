-- ===== src/System/Types.antt =====
-- The types of admin-dashboard/lib/admin/system-types.ts that the health rules read, less the fields
-- `metadata` and `raw`. Counts and seconds are natural numbers, and `notes` that are missing are
-- empty.
use telecam.Prelude.{ℕ, Bool, List, Option}
use telecam.Text.{Text}

pub data SystemStatus : Type 0 where
  healthy warning critical unknown : SystemStatus

pub data WorkerStatus : Type 0 where
  running healthy degraded stale stopped error unknown : WorkerStatus

pub record NormalizedWorker : Type 0 where
  pub id : Option Text
  pub name : Text
  pub worker_type : Option Text
  pub status : WorkerStatus
  pub raw_status : Option Text
  pub effective_status : Option Text
  pub last_heartbeat_at : Option Text
  pub staleness_seconds : Option ℕ
  pub instance_id : Option Text
  pub version : Option Text
  pub updated_at : Option Text

pub record NormalizedHealthSummary : Type 0 where
  pub status : SystemStatus
  pub score : Option ℕ
  pub schools_total : Option ℕ
  pub cameras_total : Option ℕ
  pub cameras_active : Option ℕ
  pub cameras_offline : Option ℕ
  pub open_alerts : Option ℕ
  pub critical_alerts : Option ℕ
  pub warning_alerts : Option ℕ
  pub stream_worker_status : Option Text
  pub last_stream_worker_seen_at : Option Text
  pub notes : List Text

pub record NormalizedSchedulerStatus : Type 0 where
  pub status : SystemStatus
  pub timezone : Option Text
  pub recording_days : Option (List Text)
  pub school_start_time : Option Text
  pub school_end_time : Option Text
  pub current_time : Option Text
  pub current_state : Option Text
  pub is_school_day : Option Bool
  pub is_school_hours : Option Bool
  pub running_cameras : Option ℕ
  pub stopped_cameras : Option ℕ
  pub reason : Option Text
  pub last_run_at : Option Text
  pub next_live_window_at : Option Text
  pub next_stop_at : Option Text

pub record NormalizedRetentionStatus : Type 0 where
  pub status : SystemStatus
  pub worker_name : Option Text
  pub message : Option Text
  pub dry_run : Option Bool
  pub last_run_at : Option Text
  pub next_run_at : Option Text
  pub deleted_segments_count : Option ℕ
  pub failed_deletions_count : Option ℕ
  pub expired_segments_count : Option ℕ
  pub temp_playback_deleted_count : Option ℕ
  pub retention_days : Option ℕ
  pub temp_playback_retention_minutes : Option ℕ
