-- ===== src/Cameras/Health.antt =====
-- The health of one camera, its stream state and the scheduler, of
-- admin-dashboard/lib/admin/camera-monitoring-normalizer.ts.
pub mod Laws
use telecam.Prelude.{
  Bool, true, false, List, [], ◌∷◌, map, Option, none, some, or_else, get_or, length, ℕ, head?,
}
use telecam.Text.{Text, text}
use telecam.Json.Defs.{
  Json, array, Items, nil, cons, Fields, end, Engine, get, as_record, pick, str, coalesce,
  is_truthy,
}
use telecam.Cameras.Types.{
  CameraHealthEvent, CameraHealthAlert, NormalizedCameraHealth, NormalizedSchedulerStatus,
}
use telecam.Cameras.Status.{map_operational_status}
use telecam.Cameras.Read.{
  keys2, keys3, str_at, strip_sensitive, unwrap_record, record_or_empty, rows, num, optional_num,
}

-- `events[0]?.eventType`
abbrev pub first_event_type : List CameraHealthEvent → Option Text
first_event_type [] = none
first_event_type (e ∷ es) = e.event_type

module _ {N : Type 0} where
  -- The first of three properties that is neither `null` nor `undefined`, else the third.
  abbrev coalesce3 : Fields N → Text → Text → Text → Json N
  coalesce3 fs a b c = coalesce (get fs a) (coalesce (get fs b) (get fs c))

  unfoldable pub normalize_health_event : Fields N → CameraHealthEvent
  unfolding strip_sensitive pick str
  normalize_health_event raw =
      let safe = strip_sensitive raw in
      record {
        id = str_at safe (keys3 (text "id") (text "event_id") (text "eventId"));
        event_type = str_at safe (keys3 (text "event_type") (text "eventType") (text "type"));
        severity = str_at safe (text "severity" ∷ []);
        message = str_at safe (text "message" ∷ []);
        created_at =
            str_at safe
              (text "created_at" ∷ text "createdAt" ∷ text "opened_at" ∷ text "openedAt" ∷ []);
      }

  unfoldable pub normalize_health_alert : Fields N → CameraHealthAlert
  unfolding strip_sensitive pick str
  normalize_health_alert raw =
      let safe = strip_sensitive raw in
      record {
        id = str_at safe (text "id" ∷ []);
        kind = str_at safe (keys3 (text "alert_type") (text "alertType") (text "type"));
        severity = str_at safe (text "severity" ∷ []);
        status = str_at safe (text "status" ∷ []);
        message = str_at safe (keys2 (text "message") (text "title"));
        created_at =
            str_at safe
              (text "opened_at" ∷ text "openedAt" ∷ text "created_at" ∷ text "createdAt" ∷ []);
      }

  -- `isRecord(payload) ? stripSensitive(payload) : {}`
  abbrev pub safe_root : Json N → Fields N
  safe_root raw = strip_sensitive (record_or_empty (unwrap_record raw))

module _ {N : Type 0} (js : Engine N) where
  -- `Array.isArray(alertsRaw) ? alerts.length : num(alertsRaw)`
  abbrev count_alerts : Json N → ℕ → N
  count_alerts (array vs) n = js.of_nat n
  count_alerts v n = num js v

  unfoldable pub normalize_camera_health : Json N → NormalizedCameraHealth N
  unfolding strip_sensitive unwrap_record pick str get rows normalize_health_event
      normalize_health_alert map_operational_status num optional_num is_truthy
  normalize_camera_health raw =
      let root = safe_root raw in
      let raw_status = get_or (str_at root (keys2 (text "status") (text "camera_status"))) [] in
      let desired_state = str_at root (keys2 (text "desired_state") (text "desiredState")) in
      let schedule_reason =
        str_at root (keys3 (text "reason") (text "schedule_reason") (text "scheduleReason")) in
      let alerts_raw = coalesce3 root (text "open_alerts") (text "openAlerts") (text "alerts") in
      let events =
        map normalize_health_event
          (rows (coalesce3 root (text "recent_events") (text "recentEvents") (text "events"))) in
      let alerts = map normalize_health_alert (rows alerts_raw) in
      let last_health_event =
        or_else (first_event_type events)
          (str_at root (keys2 (text "last_health_event") (text "lastHealthEvent"))) in
      record {
        id = get_or (str_at root (keys3 (text "camera_id") (text "cameraId") (text "id"))) [];
        name = str_at root (keys3 (text "camera_name") (text "cameraName") (text "name"));
        school_name = str_at root (keys2 (text "school_name") (text "schoolName"));
        classroom_name = str_at root (keys2 (text "classroom_name") (text "classroomName"));
        status =
            map_operational_status js raw_status desired_state schedule_reason last_health_event;
        raw_status = raw_status;
        desired_state = desired_state;
        schedule_reason = schedule_reason;
        default_quality = str_at root (keys2 (text "default_quality") (text "defaultQuality"));
        last_segment_at = str_at root (keys2 (text "last_segment_at") (text "lastSegmentAt"));
        stream_lag_seconds =
            optional_num js
              (pick root (keys2 (text "stream_lag_seconds") (text "streamLagSeconds")));
        last_segment_age_minutes =
            optional_num js
              (pick root (keys2 (text "last_segment_age_minutes") (text "lastSegmentAgeMinutes")));
        open_alerts_count = count_alerts alerts_raw (length alerts);
        last_health_event = last_health_event;
        playlist_exists =
            is_truthy js (pick root (keys2 (text "playlist_exists") (text "playlistExists")));
        events = events;
        alerts = alerts;
        last_worker_heartbeat = str_at root (
            keys3 (text "last_stream_worker_seen_at") (text "lastWorkerHeartbeat")
              (text "last_worker_heartbeat"));
      }

  unfoldable pub merge_stream_state : NormalizedCameraHealth N → Json N → NormalizedCameraHealth N
  unfolding strip_sensitive unwrap_record pick str map_operational_status
  merge_stream_state health stream_state =
      let root = safe_root stream_state in
      let desired_state =
        or_else (str_at root (keys2 (text "desired_state") (text "desiredState")))
          health.desired_state in
      let schedule_reason =
        or_else (str_at root (keys2 (text "reason") (text "scheduleReason")))
          health.schedule_reason in
      record health {
        desired_state = desired_state;
        schedule_reason = schedule_reason;
        status =
            map_operational_status js health.raw_status desired_state schedule_reason
              health.last_health_event;
      }

  -- `Array.isArray(days) ? days.map(String) : undefined`; `to_text` is `String`.
  abbrev texts_of : (Json N → Text) → Items N → List Text
  texts_of to_text nil = []
  texts_of to_text (cons v vs) = to_text v ∷ texts_of to_text vs

  abbrev days_of : (Json N → Text) → Json N → Option (List Text)
  days_of to_text (array vs) = some (texts_of to_text vs)
  days_of to_text v = none

  unfoldable pub normalize_scheduler_status : (Json N → Text) → Json N → NormalizedSchedulerStatus N
  unfolding unwrap_record pick str get optional_num
  normalize_scheduler_status to_text raw =
      let root = record_or_empty (unwrap_record raw) in
      record {
        timezone = str_at root (text "timezone" ∷ []);
        current_state = str_at root (keys2 (text "current_state") (text "currentState"));
        reason = str_at root (text "reason" ∷ []);
        recording_start_time =
            str_at root (keys2 (text "recording_start_time") (text "recordingStartTime"));
        recording_end_time =
            str_at root (keys2 (text "recording_end_time") (text "recordingEndTime"));
        recording_days =
            days_of to_text
              (coalesce (get root (text "recording_days")) (get root (text "recordingDays")));
        next_start_at = str_at root (keys2 (text "next_start_at") (text "nextStartAt"));
        next_stop_at = str_at root (keys2 (text "next_stop_at") (text "nextStopAt"));
        cameras_running_desired =
            optional_num js
              (pick root (keys2 (text "cameras_running_desired") (text "camerasRunningDesired")));
        cameras_stopped_desired =
            optional_num js
              (pick root (keys2 (text "cameras_stopped_desired") (text "camerasStoppedDesired")));
      }
