-- ===== src/System/Health.antt =====
-- admin-dashboard/lib/admin/system-health.ts
pub mod Laws
use telecam.Prelude.{
  ℕ, suc, ◌+◌, ◌-◌, ◌*◌, min, Bool, true, false, not, ◌&&◌, ◌||◌, List, [], ◌∷◌, ◌++◌, map, filter,
  length, Option, none, some, ltb, leb, ◌==◌, if◌then◌else◌, get_or, or_else,
}
use telecam.Text.{Text, text, text_eq, is_empty, includes, join, decimal}
use telecam.Json.Defs.{Engine}
use telecam.Json.Case.{upper}
use telecam.System.Types.{
  SystemStatus, WorkerStatus, healthy, warning, critical, unknown, running, degraded, stale,
  stopped, error, NormalizedWorker, NormalizedHealthSummary, NormalizedSchedulerStatus,
  NormalizedRetentionStatus,
}

abbrev pub worker_stale_threshold_seconds : ℕ
worker_stale_threshold_seconds = 120

-- The status that a text in upper case names.
unfoldable pub worker_status_of : Text → WorkerStatus
unfolding text_eq
worker_status_of s =
    if text_eq s (text "RUNNING")
    then running
    else if text_eq s (text "HEALTHY")
    then healthy
    else if text_eq s (text "DEGRADED")
    then degraded
    else if text_eq s (text "STALE")
    then stale
    else if text_eq s (text "STOPPED")
    then stopped
    else if text_eq s (text "ERROR")
    then error
    else unknown

-- The status by the age of the last heartbeat.
abbrev pub by_staleness : Option ℕ → ℕ → WorkerStatus
by_staleness none threshold = unknown
by_staleness (some seconds) threshold = if ltb threshold seconds then stale else running

abbrev or_by_staleness : WorkerStatus → Option ℕ → ℕ → WorkerStatus
or_by_staleness unknown seconds threshold = by_staleness seconds threshold
or_by_staleness mapped seconds threshold = mapped

module _ {N : Type 0} (js : Engine N) where
  unfoldable pub map_raw_worker_status : Option Text → WorkerStatus
  unfolding upper worker_status_of
  map_raw_worker_status raw = worker_status_of (upper js (get_or raw []))

  unfoldable pub derive_worker_status : Option Text → Option ℕ → ℕ → WorkerStatus
  unfolding upper map_raw_worker_status
  derive_worker_status raw_status staleness_seconds threshold =
      let effective = upper js (get_or raw_status []) in
      if is_empty effective
      then by_staleness staleness_seconds threshold
      else or_by_staleness (map_raw_worker_status (some effective)) staleness_seconds threshold

-- The result of `countWorkersByStatus`.
pub record WorkerCounts : Type 0 where
  pub healthy : ℕ
  pub stale : ℕ
  pub error : ℕ
  pub total : ℕ

abbrev pub count_worker : WorkerStatus → WorkerCounts → WorkerCounts
count_worker stale c = record c { stale = suc c.stale }
count_worker error c = record c { error = suc c.error }
count_worker stopped c = record c { error = suc c.error }
count_worker running c = record c { healthy = suc c.healthy }
count_worker healthy c = record c { healthy = suc c.healthy }
count_worker degraded c = c
count_worker unknown c = c

unfoldable pub count_workers : List NormalizedWorker → WorkerCounts → WorkerCounts
count_workers [] c = c
count_workers (w ∷ ws) c = count_workers ws (count_worker w.status c)

unfoldable pub count_workers_by_status : List NormalizedWorker → WorkerCounts
unfolding count_workers
count_workers_by_status workers =
    count_workers workers (record { healthy = 0; stale = 0; error = 0; total = length workers })

unfoldable pub derive_system_status_from_workers : List NormalizedWorker → SystemStatus
unfolding count_workers_by_status
derive_system_status_from_workers workers =
    let c = count_workers_by_status workers in
    if length workers == 0
    then unknown
    else if ltb 0 c.error
    then critical
    else if ltb 0 c.stale
    then warning
    else healthy

-- `summary?.field`
abbrev pub of_summary :
    Option NormalizedHealthSummary → (NormalizedHealthSummary → Option ℕ) → Option ℕ
of_summary none f = none
of_summary (some s) f = f s

-- The points off for critical alerts.
abbrev pub alert_points : Option ℕ → ℕ
alert_points none = 0
alert_points (some n) = if ltb 0 n then min 40 (n * 10) else 0

-- The points off for cameras that are offline; `rounded` is `Math.round(a / b * 30)`.
abbrev pub camera_points : (ℕ → ℕ → ℕ) → Option ℕ → Option ℕ → ℕ
camera_points rounded (some a) (some b) =
    if not (a == 0) && not (b == 0) then min 25 (rounded a b) else 0
camera_points rounded _ _ = 0

abbrev pub is_missing : Option NormalizedHealthSummary → Bool
is_missing none = true
is_missing (some s) = false

-- What is taken off is never negative, so a difference that stops at 0 is the last line's
-- `Math.max(0, …)`.
unfoldable pub compute_health_score :
    (ℕ → ℕ → ℕ) → Option NormalizedHealthSummary → List NormalizedWorker → Option ℕ
unfolding count_workers_by_status
compute_health_score rounded summary workers =
    let c = count_workers_by_status workers in
    let score =
      100
      - alert_points (of_summary summary (λ s. s.critical_alerts))
      - camera_points rounded (of_summary summary (λ s. s.cameras_offline))
          (of_summary summary (λ s. s.cameras_total))
      - c.stale * 8
      - c.error * 15 in
    if length workers == 0 && is_missing summary then none else some (min 100 score)

abbrev pub is_critical : SystemStatus → Bool
is_critical critical = true
is_critical _ = false

abbrev pub is_warning : SystemStatus → Bool
is_warning warning = true
is_warning _ = false

abbrev pub retention_status_of : Option NormalizedRetentionStatus → SystemStatus
retention_status_of none = unknown
retention_status_of (some r) = r.status

abbrev pub scheduler_status_of : Option NormalizedSchedulerStatus → SystemStatus
scheduler_status_of none = unknown
scheduler_status_of (some s) = s.status

-- `n && n > limit`
abbrev pub exceeds : Option ℕ → ℕ → Bool
exceeds none limit = false
exceeds (some n) limit = ltb limit n

unfoldable pub derive_overall_system_status :
    Option NormalizedHealthSummary
    → List NormalizedWorker
    → Option NormalizedSchedulerStatus
    → Option NormalizedRetentionStatus
    → SystemStatus
unfolding derive_system_status_from_workers
derive_overall_system_status summary workers scheduler retention =
    let worker_status = derive_system_status_from_workers workers in
    if exceeds (of_summary summary (λ s. s.critical_alerts)) 0
    then critical
    else if is_critical worker_status
    then critical
    else if is_critical (retention_status_of retention)
        || is_critical (scheduler_status_of scheduler)
    then critical
    else if is_warning worker_status
    then warning
    else if exceeds (of_summary summary (λ s. s.open_alerts)) 5
    then warning
    else if is_warning (retention_status_of retention) || is_warning (scheduler_status_of scheduler)
    then warning
    else if is_missing summary && length workers == 0
    then unknown
    else healthy

unfoldable pub scheduler_system_status : Option NormalizedSchedulerStatus → SystemStatus
scheduler_system_status none = unknown
scheduler_system_status (some s) = if is_empty (get_or s.current_state []) then unknown else healthy

module _ {N : Type 0} (js : Engine N) where
  unfoldable pub retention_system_status : Option NormalizedRetentionStatus → SystemStatus
  unfolding upper includes
  retention_system_status none = unknown
  retention_system_status (some r) =
      let raw = upper js (get_or (or_else r.message r.worker_name) []) in
      if is_critical r.status
      then critical
      else if is_warning r.status
      then warning
      else if includes raw (text "UNKNOWN") || includes raw (text "NO RETENTION")
      then warning
      else if get_or r.dry_run false
      then warning
      else r.status

  -- `n && n > 0 ? [note] : []`
  abbrev note_if : Option ℕ → Text → List Text
  note_if none note = []
  note_if (some n) note = if ltb 0 n then (decimal n ++ note) ∷ [] else []

  abbrev is_stale : NormalizedWorker → Bool
  is_stale w = elim w.status [ stale ↦ true | _ ↦ false ]

  abbrev stream_status_of : Option NormalizedHealthSummary → Text
  stream_status_of none = []
  stream_status_of (some s) = get_or s.stream_worker_status []

  unfoldable pub build_system_notes :
      Option NormalizedHealthSummary → List NormalizedWorker → List Text
  unfolding decimal join upper text_eq
  build_system_notes summary workers =
      let stale_workers = filter is_stale workers in
      note_if (of_summary summary (λ s. s.critical_alerts)) (text " critical alert(s) open")
      ++ (note_if (of_summary summary (λ s. s.cameras_offline)) (text " camera(s) offline")
          ++ ((if length stale_workers == 0
                then []
                else (text "Stale workers: " ++ join (text ", ") (map (λ w. w.name) stale_workers))
                  ∷ [])
              ++ (if text_eq (upper js (stream_status_of summary)) (text "STALE")
                  then text "Stream worker heartbeat is stale" ∷ []
                  else [])))
