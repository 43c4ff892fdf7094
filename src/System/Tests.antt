-- ===== src/System/Tests.antt =====
-- A system with one running and one stopped worker.
use telecam.Prelude.{
  ℕ, ◌≡◌, refl, ◌↔◌, ◌||◌, List, [], ◌∷◌, none, some, true, any, Option, ◌*◌, ◌/◌,
}
use telecam.Text.{Text, text}
use telecam.Json.Defs.{Json, object, string, field, end}
use telecam.Json.Examples.{small_engine}
use telecam.Cameras.Read.{record_or_empty, unwrap_record}
use telecam.System.Read.{normalize_retention_status, read_retention, decide_retention, status_text}
use telecam.System.Read.Laws.{is_up, normalize_retention_status-healthy_iff}
use telecam.System.Types.{
  SystemStatus, NormalizedWorker, NormalizedHealthSummary, WorkerStatus, running, stopped, critical,
  healthy,
}
use telecam.System.Health.{
  count_workers_by_status, derive_overall_system_status, compute_health_score, exceeds, of_summary,
  is_critical, retention_status_of, scheduler_status_of,
}
use telecam.System.Health.Laws.{is_down, derive_overall_system_status-critical_iff}

abbrev worker : WorkerStatus → NormalizedWorker
worker status = record {
  id = none;
  name = text "stream";
  worker_type = none;
  status = status;
  raw_status = none;
  effective_status = none;
  last_heartbeat_at = none;
  staleness_seconds = some 5;
  instance_id = none;
  version = none;
  updated_at = none;
}

abbrev workers : List NormalizedWorker
workers = worker running ∷ worker stopped ∷ []

abbrev quiet : NormalizedHealthSummary
quiet = record {
  status = healthy;
  score = none;
  schools_total = some 2;
  cameras_total = some 9;
  cameras_active = none;
  cameras_offline = some 0;
  open_alerts = some 1;
  critical_alerts = some 0;
  warning_alerts = none;
  stream_worker_status = none;
  last_stream_worker_seen_at = none;
  notes = [];
}

abbrev rounded_down : ℕ → ℕ → ℕ
rounded_down a b = a * 30 / b

derive_overall_system_status-critical_iff_example :
    (derive_overall_system_status (some quiet) workers none none ≡ critical) ↔ (
      (exceeds (of_summary (some quiet) (λ s. s.critical_alerts)) 0
        || (any is_down workers
            || (is_critical (retention_status_of none) || is_critical (scheduler_status_of none))))
      ≡ true)
derive_overall_system_status-critical_iff_example =
    derive_overall_system_status-critical_iff (some quiet) workers none none

quiet-full : compute_health_score rounded_down (some quiet) (worker running ∷ []) ≡ some 100
unfolding compute_health_score count_workers_by_status
quiet-full = refl

abbrev no_number : Text → Option ℕ
no_number s = none

abbrev no_text : Json ℕ → Text
no_text v = []

-- A worker that is healthy and says so.
abbrev answer : Json ℕ
answer = object (
    field (text "status") (string (text "HEALTHY"))
      (field (text "message") (string (text "last run ok")) end))

answer-unknown :
    (normalize_retention_status small_engine no_number no_text answer).status ≡ SystemStatus.unknown
unfolding normalize_retention_status read_retention decide_retention unwrap_record
answer-unknown = refl

normalize_retention_status-healthy_iff_example :
    ((normalize_retention_status small_engine no_number no_text answer).status
      ≡ SystemStatus.healthy)
    ↔ ((is_up (status_text small_engine no_number no_text (record_or_empty (unwrap_record answer)))
          ≡ true)
        × ((normalize_retention_status small_engine no_number no_text answer).message ≡ none))
normalize_retention_status-healthy_iff_example =
    normalize_retention_status-healthy_iff small_engine no_number no_text answer
