-- ===== src/Dashboard/Tests.antt =====
-- An overview with one open alert.
use telecam.Prelude.{ℕ, ◌≡◌, ◌↔◌, ◌≤◌, ◌+◌, Bool, ◌&&◌, false, some, ltb}
use telecam.Dashboard.Score.{DashboardCounts, good, calculate_health_score, is_low}
use telecam.Dashboard.Score.Laws.{calculate_health_score-good_iff}

abbrev overview : DashboardCounts ℕ
overview = record {
  cameras_total = 20;
  cameras_offline = 1;
  cameras_healthy_percent = some 95;
  open_alerts = 1;
  critical_alerts = 0;
  workers_healthy = 5;
  workers_total = 5;
  workers_stale = 0;
}

abbrev below : ℕ → Bool
below p = ltb p 80

abbrev IsFine : DashboardCounts ℕ → Type 0
IsFine d =
    (d.critical_alerts ≡ 0)
    × (d.workers_stale ≡ 0)
    × (d.open_alerts + d.cameras_offline ≤ 2)
    × ((ltb 0 d.cameras_total && is_low below d.cameras_healthy_percent) ≡ false)

calculate_health_score-good_iff_example :
    ((calculate_health_score below overview).level ≡ good) ↔ IsFine overview
calculate_health_score-good_iff_example = calculate_health_score-good_iff below overview
