-- ===== src/System/Requests.antt =====
-- Fetching the system's health: admin-dashboard/lib/admin/system-api.ts, less the storage. The
-- numbers of the answers are natural numbers.
use telecam.Prelude.{ℕ, List, Option}
use telecam.Text.{Text, text}
use telecam.Json.Defs.{Json}
use telecam.Session.World.{Env, M}
use telecam.Session.Queries.{fetch_and}
use telecam.System.Types.{
  NormalizedHealthSummary, NormalizedSchedulerStatus, NormalizedRetentionStatus,
}
use telecam.System.Read.{
  WorkerReading, normalize_workers, normalize_health_summary, normalize_scheduler_status,
  normalize_retention_status,
}

module _ (env : Env ℕ) (number_of : Text → Option ℕ) (to_text : Json ℕ → Text) where
  unfoldable pub get_workers : M ℕ (List WorkerReading)
  get_workers =
      fetch_and env (text "/admin/workers") (text "GET")
        (normalize_workers env.js number_of to_text)

  unfoldable pub get_health_summary : M ℕ NormalizedHealthSummary
  get_health_summary =
      fetch_and env (text "/admin/health/summary") (text "GET")
        (normalize_health_summary env.js number_of to_text)

  unfoldable pub get_scheduler_status : M ℕ NormalizedSchedulerStatus
  get_scheduler_status =
      fetch_and env (text "/admin/scheduler/status") (text "GET")
        (normalize_scheduler_status env.js number_of to_text)

  unfoldable pub get_retention_status : M ℕ NormalizedRetentionStatus
  get_retention_status =
      fetch_and env (text "/admin/retention/status") (text "GET")
        (normalize_retention_status env.js number_of to_text)
