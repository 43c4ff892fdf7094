-- ===== src/Cameras/Status.antt =====
-- `mapOperationalStatus` of admin-dashboard/lib/admin/camera-monitoring-normalizer.ts.
pub mod Laws
use telecam.Prelude.{Bool, true, false, not, ◌&&◌, ◌||◌, [], Option, get_or, if◌then◌else◌}
use telecam.Text.{Text, text, text_eq, includes, is_empty}
use telecam.Json.Defs.{Engine}
use telecam.Json.Case.{upper}
use telecam.Cameras.Types.{
  CameraOperationalStatus, online, offline, stopped_by_schedule, no_recent_segment, error, disabled,
  unknown,
}

-- The texts of the decision, in upper case. The time of the last segment is passed by the callers
-- and not read.
pub record Signals : Type 0 where
  pub status : Text
  pub desired : Text
  pub reason : Text
  pub last_event : Text

unfoldable pub decide_status : Signals → CameraOperationalStatus
unfolding text_eq includes
decide_status s =
    if text_eq s.status (text "DISABLED")
    then disabled
    else if text_eq s.status (text "ERROR")
    then error
    else if text_eq s.status (text "OFFLINE")
    then offline
    else if text_eq s.status (text "NO_SEGMENT_UPLOADED")
        || includes s.last_event (text "NO_SEGMENT")
    then no_recent_segment
    else if (text_eq s.status (text "ACTIVE") || text_eq s.status (text "ONLINE"))
        && (text_eq s.desired (text "STOPPED")
            && (includes s.reason (text "WEEKEND")
                || (includes s.reason (text "OUTSIDE_SCHEDULE")
                    || (includes s.reason (text "SCHEDULE") || not (is_empty s.reason)))))
    then stopped_by_schedule
    else if text_eq s.status (text "ACTIVE") && text_eq s.desired (text "STOPPED")
    then stopped_by_schedule
    else if text_eq s.status (text "ONLINE")
        || (text_eq s.status (text "ACTIVE") && text_eq s.desired (text "RUNNING"))
    then online
    else if text_eq s.status (text "ACTIVE") && is_empty s.desired
    then online
    else unknown

module _ {N : Type 0} (js : Engine N) where
  abbrev pub upper_or_empty : Option Text → Text
  upper_or_empty o = upper js (get_or o [])

  unfoldable pub map_operational_status :
      Text → Option Text → Option Text → Option Text → CameraOperationalStatus
  unfolding decide_status upper
  map_operational_status raw_status desired_state schedule_reason last_health_event =
      decide_status (record {
        status = upper js raw_status;
        desired = upper_or_empty desired_state;
        reason = upper_or_empty schedule_reason;
        last_event = upper_or_empty last_health_event;
      })
