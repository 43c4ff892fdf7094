-- ===== src/System/Read.antt =====
-- Reading the system's health, its workers, the scheduler and the retention:
-- admin-dashboard/lib/admin/system-normalizer.ts. Numbers are natural numbers; `number_of` is
-- `Number` of a text, or none where that is NaN; `to_text` is `String`.
pub mod Laws
use telecam.Prelude.{
  ℕ, Bool, true, false, ◌||◌, List, [], ◌∷◌, map, Option, none, some, or_else, get_or, ltb,
  if◌then◌else◌,
}
use telecam.Text.{Text, text, text_eq, is_empty, trim}
use telecam.Json.Defs.{
  Json, null, boolean, number, string, array, object, Items, Fields, end, Engine, get, as_record,
  as_object, pick, str, items, coalesce,
}
use telecam.Json.Case.{upper}
use telecam.Cameras.Read.{keys2, keys3, str_at, record_or_empty, unwrap_record, rows}
use telecam.AuditLogs.Read.{metadata_of}
use telecam.System.Types.{
  SystemStatus, healthy, warning, critical, NormalizedWorker, NormalizedHealthSummary,
  NormalizedSchedulerStatus, NormalizedRetentionStatus,
}
use telecam.System.Health.{
  worker_stale_threshold_seconds, derive_worker_status, retention_system_status,
  scheduler_system_status, exceeds,
}

-- A worker with its metadata.
pub record WorkerReading : Type 0 where
  pub worker : NormalizedWorker
  pub metadata : Json ℕ

abbrev keys4 : Text → Text → Text → Text → List Text
keys4 a b c d = a ∷ b ∷ c ∷ d ∷ []

unfoldable pub bool : Json ℕ → Option Bool
unfolding text_eq
bool (boolean b) = some b
bool (string s) =
    if text_eq s (text "true")
    then some true
    else if text_eq s (text "false")
    then some false
    else none
bool v = none

unfoldable pub derive_health_status : Option ℕ → Option ℕ → SystemStatus
derive_health_status critical_alerts offline_cameras =
    if exceeds critical_alerts 0
    then critical
    else if exceeds offline_cameras 0
    then warning
    else healthy

-- `meta?.[key]`
abbrev in_metadata : Json ℕ → Text → Json ℕ
in_metadata meta key = get (get_or (as_object meta) end) key

module _ (js : Engine ℕ) (number_of : Text → Option ℕ) (to_text : Json ℕ → Text) where
  unfoldable pub number_or_null : Json ℕ → Option ℕ
  unfolding trim
  number_or_null (number n) = some n
  number_or_null (string s) = if is_empty (trim s) then none else number_of s
  number_or_null v = none

  abbrev number_at : Fields ℕ → List Text → Option ℕ
  number_at fs keys = number_or_null (pick fs keys)

  unfoldable pub normalize_health_summary : Json ℕ → NormalizedHealthSummary
  unfolding unwrap_record pick str number_or_null derive_health_status
  normalize_health_summary raw =
      let root = record_or_empty (unwrap_record raw) in
      let critical_alerts =
        number_at root (keys2 (text "critical_alerts") (text "criticalAlerts")) in
      let cameras_offline =
        number_at root (keys2 (text "cameras_offline") (text "camerasOffline")) in
      record {
        status = derive_health_status critical_alerts cameras_offline;
        score = none;
        schools_total = number_at root (keys2 (text "schools_total") (text "schoolsTotal"));
        cameras_total = number_at root (keys2 (text "cameras_total") (text "camerasTotal"));
        cameras_active = number_at root (keys2 (text "cameras_active") (text "camerasActive"));
        cameras_offline = cameras_offline;
        open_alerts = number_at root (keys2 (text "open_alerts") (text "openAlerts"));
        critical_alerts = critical_alerts;
        warning_alerts = none;
        stream_worker_status =
            str_at root (keys2 (text "stream_worker_status") (text "streamWorkerStatus"));
        last_stream_worker_seen_at =
            str_at root (keys2 (text "last_stream_worker_seen_at") (text "lastStreamWorkerSeenAt"));
        notes = [];
      }

  unfoldable pub normalize_worker : Json ℕ → WorkerReading
  unfolding pick str number_or_null derive_worker_status metadata_of
  normalize_worker raw =
      let row = record_or_empty raw in
      let raw_status =
        str_at row (keys3 (text "status") (text "effective_status") (text "effectiveStatus")) in
      let staleness_seconds = number_at row (
        keys3 (text "seconds_since_last_seen") (text "secondsSinceLastSeen")
          (text "staleness_seconds")) in
      let worker_type = str_at row (keys2 (text "worker_type") (text "workerType")) in
      let worker_name =
        get_or (or_else (str_at row (keys2 (text "worker_name") (text "workerName"))) worker_type)
          (text "Unknown worker") in
      record {
        worker = record {
          id = some (get_or worker_type worker_name);
          name = worker_name;
          worker_type = worker_type;
          status =
              derive_worker_status js raw_status staleness_seconds worker_stale_threshold_seconds;
          raw_status = raw_status;
          effective_status = raw_status;
          last_heartbeat_at =
              str_at row
                (keys3 (text "last_seen_at") (text "lastSeenAt") (text "last_heartbeat_at"));
          staleness_seconds = staleness_seconds;
          instance_id = str_at row (keys2 (text "instance_id") (text "instanceId"));
          version = str_at row (text "version" ∷ []);
          updated_at = str_at row (keys2 (text "updated_at") (text "updatedAt"));
        };
        metadata = metadata_of js (pick row (text "metadata" ∷ []));
      }

  abbrev pub worker_rows : Json ℕ → List (Fields ℕ)
  worker_rows (array vs) = rows (array vs)
  worker_rows (object fs) = rows (pick fs (keys3 (text "workers") (text "data") (text "items")))
  worker_rows v = []

  unfoldable pub normalize_workers : Json ℕ → List WorkerReading
  unfolding unwrap_record pick rows normalize_worker
  normalize_workers raw =
      map (λ row. normalize_worker (object row)) (worker_rows (unwrap_record raw))

  abbrev day_text : Json ℕ → Text
  day_text (string s) = s
  day_text v = to_text v

  -- `Array.isArray(days) ? days.map(String) : null`
  abbrev days_of : Json ℕ → Option (List Text)
  days_of (array vs) = some (map day_text (items vs))
  days_of v = none

  abbrev in_hours : Option Text → Option Bool
  in_hours none = none
  in_hours (some state) = some (text_eq (upper js state) (text "RUNNING"))

  -- The status reads nothing but the current state.
  unfoldable pub normalize_scheduler_status : Json ℕ → NormalizedSchedulerStatus
  unfolding unwrap_record pick str get number_or_null upper text_eq scheduler_system_status
  normalize_scheduler_status raw =
      let root = record_or_empty (unwrap_record raw) in
      let current_state = str_at root (keys2 (text "current_state") (text "currentState")) in
      let read : NormalizedSchedulerStatus = record {
        status = SystemStatus.unknown;
        timezone = str_at root (text "timezone" ∷ []);
        recording_days =
            days_of (coalesce (get root (text "recording_days")) (get root (text "recordingDays")));
        school_start_time =
            str_at root (keys2 (text "recording_start_time") (text "recordingStartTime"));
        school_end_time = str_at root (keys2 (text "recording_end_time") (text "recordingEndTime"));
        current_time = none;
        current_state = current_state;
        is_school_day = none;
        is_school_hours = in_hours current_state;
        running_cameras =
            number_at root (keys2 (text "cameras_running_desired") (text "camerasRunningDesired"));
        stopped_cameras =
            number_at root (keys2 (text "cameras_stopped_desired") (text "camerasStoppedDesired"));
        reason = str_at root (text "reason" ∷ []);
        last_run_at = none;
        next_live_window_at = str_at root (keys2 (text "next_start_at") (text "nextStartAt"));
        next_stop_at = str_at root (keys2 (text "next_stop_at") (text "nextStopAt"));
      } in
      record read { status = scheduler_system_status (some read) }

  abbrev pub is_present : Option Text → Bool
  is_present none = false
  is_present (some s) = true

  -- The status of what was read, by the text of its status in upper case. A message that is there
  -- is no empty text.
  unfoldable pub decide_retention : Text → NormalizedRetentionStatus → SystemStatus
  unfolding text_eq retention_system_status
  decide_retention status r =
      if text_eq status (text "ERROR")
      then critical
      else if text_eq status (text "UNKNOWN") || is_present r.message
      then retention_system_status js (some r)
      else if text_eq status (text "RUNNING") || text_eq status (text "HEALTHY")
      then healthy
      else if text_eq status (text "STALE") || text_eq status (text "DEGRADED")
      then warning
      else retention_system_status js (some r)

  unfoldable pub read_retention : Fields ℕ → NormalizedRetentionStatus
  unfolding pick str get as_object number_or_null bool metadata_of
  read_retention root =
      let meta = metadata_of js (pick root (text "metadata" ∷ [])) in
      record {
        status = SystemStatus.unknown;
        worker_name = str_at root (keys2 (text "worker_name") (text "workerName"));
        message = str_at root (text "message" ∷ []);
        dry_run = or_else (bool (pick root (keys2 (text "dry_run") (text "dryRun")))) (
            or_else (bool (in_metadata meta (text "dry_run")))
              (bool (in_metadata meta (text "dryRun"))));
        last_run_at = str_at root (
            keys4 (text "last_seen_at") (text "lastSeenAt") (text "last_run_at")
              (text "lastRunAt"));
        next_run_at = str_at root (keys2 (text "next_run_at") (text "nextRunAt"));
        deleted_segments_count =
            or_else
              (number_at root (keys2 (text "deleted_segments_count") (text "deletedSegmentsCount")))
              (or_else (number_or_null (in_metadata meta (text "deleted_segments_count")))
                (number_or_null (in_metadata meta (text "deleted_count"))));
        failed_deletions_count =
            or_else
              (number_at root (keys2 (text "failed_deletions_count") (text "failedDeletionsCount")))
              (number_or_null (in_metadata meta (text "failed_deletions_count")));
        expired_segments_count =
            or_else
              (number_at root (keys2 (text "expired_segments_count") (text "expiredSegmentsCount")))
              (number_or_null (in_metadata meta (text "expired_segments_count")));
        temp_playback_deleted_count =
            or_else
              (number_at root
                (keys2 (text "temp_playback_deleted_count") (text "tempPlaybackDeletedCount")))
              (number_or_null (in_metadata meta (text "temp_playback_deleted_count")));
        retention_days =
            or_else (number_at root (keys2 (text "retention_days") (text "retentionDays")))
              (number_or_null (in_metadata meta (text "retention_days")));
        temp_playback_retention_minutes =
            or_else
              (number_at root (
                keys2 (text "temp_playback_retention_minutes")
                  (text "tempPlaybackRetentionMinutes")))
              (number_or_null (in_metadata meta (text "temp_playback_retention_minutes")));
      }

  abbrev pub status_text : Fields ℕ → Text
  status_text root = upper js (get_or (str_at root (text "status" ∷ [])) (text "UNKNOWN"))

  unfoldable pub normalize_retention_status : Json ℕ → NormalizedRetentionStatus
  unfolding unwrap_record pick str upper read_retention decide_retention
  normalize_retention_status raw =
      let root = record_or_empty (unwrap_record raw) in
      let read = read_retention root in
      record read { status = decide_retention (status_text root) read }
