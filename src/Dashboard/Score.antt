-- ===== src/Dashboard/Score.antt =====
-- The health score of the overview: admin-dashboard/lib/health-score.ts. Counts are natural
-- numbers; the percentage of healthy cameras is of any type, with the test `percent < 80`.
pub mod Laws
use telecam.Prelude.{
  ℕ, ◌-◌, ◌*◌, ◌+◌, min, Bool, true, false, ◌&&◌, Option, none, some, if◌then◌else◌, ltb, leb, ◌==◌,
  ◌++◌, [],
}
use telecam.Text.{Text, text, decimal}

pub data HealthLevel : Type 0 where
  good warning critical : HealthLevel

-- The fields of `NormalizedDashboard` that the score reads.
pub record DashboardCounts (P : Type 0) : Type 0 where
  pub cameras_total : ℕ
  pub cameras_offline : ℕ
  pub cameras_healthy_percent : Option P
  pub open_alerts : ℕ
  pub critical_alerts : ℕ
  pub workers_healthy : ℕ
  pub workers_total : ℕ
  pub workers_stale : ℕ

pub record HealthScoreResult : Type 0 where
  pub score : ℕ
  pub level : HealthLevel
  pub label : Text

abbrev pub level_of : ℕ → HealthLevel
level_of score = if leb 90 score then good else if leb 70 score then warning else critical

abbrev label_of : HealthLevel → Text
label_of good = text "Good"
label_of warning = text "Warning"
label_of critical = text "Critical"

-- `if (n > 0) score -= points`
abbrev pub points_if : Bool → ℕ → ℕ
points_if b points = if b then points else 0

module _ {P : Type 0} (below_80 : P → Bool) where
  -- Without a percentage it is 0.
  abbrev pub is_low : Option P → Bool
  is_low none = true
  is_low (some p) = below_80 p

  -- What is taken off is never negative, so a difference that stops at 0 is the score that is
  -- clamped at the end.
  unfoldable pub calculate_score : DashboardCounts P → ℕ
  calculate_score d = min 100 (
      100
      - points_if (ltb 0 d.critical_alerts) 30
      - points_if (ltb 0 d.open_alerts) (min (d.open_alerts * 5) 25)
      - points_if (ltb 0 d.cameras_offline) (min (d.cameras_offline * 5) 25)
      - points_if (ltb 0 d.workers_stale) (min (d.workers_stale * 15) 30)
      - points_if (ltb 0 d.cameras_total && is_low d.cameras_healthy_percent) 15)

  unfoldable pub calculate_health_score : DashboardCounts P → HealthScoreResult
  unfolding calculate_score
  calculate_health_score d =
      let score = calculate_score d in
      record { score = score; level = level_of score; label = label_of (level_of score) }

unfoldable pub worker_summary_label : {P : Type 0} → DashboardCounts P → Text
unfolding decimal
worker_summary_label d =
    if leb d.workers_total 0
    then text "Unknown"
    else if ltb 0 d.workers_stale
    then decimal d.workers_stale
      ++ (text " stale worker" ++ (if d.workers_stale == 1 then [] else text "s"))
    else if leb d.workers_total d.workers_healthy
    then text "All workers healthy"
    else decimal (d.workers_total - d.workers_healthy) ++ text " worker issue(s)"
