-- ===== src/Dashboard/Score/Laws.antt =====
-- What the health score tells.
use telecam.Prelude.{ℕ, ◌≡◌, ◌≤◌, ◌<◌, ◌+◌, ◌*◌, ◌-◌, ◌↔◌, min, Bool, false, ◌&&◌, ltb, arith}
use telecam.Dashboard.Score.{
  DashboardCounts, good, level_of, is_low, points_if, calculate_score, calculate_health_score,
}

module _ {P : Type 0} (below_80 : P → Bool) where
  level_of-good : (score : ℕ) → level_of score ≡ good → 90 ≤ score
  level_of-good score h = ground arith

  enough : (c o f s b : ℕ) → 90 ≤ min 100 (100 - c - o - f - s - b) → c + (o + f) + s + b ≤ 10
  enough c o f s b h = omega arith

  points-none : (n k : ℕ) → points_if (ltb 0 n) k ≤ 10 → 10 < k → n ≡ 0
  points-none n k h l = ground arith

  points-five :
      (n : ℕ)
      → points_if (ltb 0 n) (min (n * 5) 25) ≤ 10
      → points_if (ltb 0 n) (min (n * 5) 25) ≡ n * 5
  points-five n h = ground arith

  points-stale : (n : ℕ) → points_if (ltb 0 n) (min (n * 15) 30) ≤ 10 → n ≡ 0
  points-stale n h = ground arith

  points-low : (b : Bool) → points_if b 15 ≤ 10 → b ≡ false
  points-low b h = ground arith

  score-tells :
      (d : DashboardCounts P)
      → 90 ≤ calculate_score below_80 d
      → (d.critical_alerts ≡ 0)
        × (d.workers_stale ≡ 0)
        × (d.open_alerts + d.cameras_offline ≤ 2)
        × ((ltb 0 d.cameras_total && is_low below_80 d.cameras_healthy_percent) ≡ false)
  unfolding calculate_score
  score-tells d h =
      let c = points_if (ltb 0 d.critical_alerts) 30 in
      let o = points_if (ltb 0 d.open_alerts) (min (d.open_alerts * 5) 25) in
      let f = points_if (ltb 0 d.cameras_offline) (min (d.cameras_offline * 5) 25) in
      let s = points_if (ltb 0 d.workers_stale) (min (d.workers_stale * 15) 30) in
      let b = points_if (ltb 0 d.cameras_total && is_low below_80 d.cameras_healthy_percent) 15 in
      let sum = enough c o f s b h in
      let opened = points-five d.open_alerts (omega (arith, sum)) in
      let offline = points-five d.cameras_offline (omega (arith, sum)) in
      (
        points-none d.critical_alerts 30 (omega (arith, sum)) (omega arith),
        points-stale d.workers_stale (omega (arith, sum)),
        omega (arith, sum, opened, offline),
        points-low _ (omega (arith, sum)),
      )

  tells-score :
      (c o f s : ℕ) (low : Bool)
      → c ≡ 0
      → s ≡ 0
      → o + f ≤ 2
      → low ≡ false
      → 90
        ≤ min 100 (
            100
            - points_if (ltb 0 c) 30
            - points_if (ltb 0 o) (min (o * 5) 25)
            - points_if (ltb 0 f) (min (f * 5) 25)
            - points_if (ltb 0 s) (min (s * 15) 30)
            - points_if low 15)
  tells-score c o f s low hc hs hof hl = ground arith

  good-level_of : (score : ℕ) → 90 ≤ score → level_of score ≡ good
  good-level_of score h = ground arith

  -- The overview is good exactly when no critical alert is open, no worker is stale, open alerts
  -- and offline cameras are at most two together, and the percentage of healthy cameras, which is
  -- 0 if it is missing, is not below 80 where there are cameras.
  pub calculate_health_score-good_iff :
      (d : DashboardCounts P)
      → ((calculate_health_score below_80 d).level ≡ good) ↔ (
          (d.critical_alerts ≡ 0)
          × (d.workers_stale ≡ 0)
          × (d.open_alerts + d.cameras_offline ≤ 2)
          × ((ltb 0 d.cameras_total && is_low below_80 d.cameras_healthy_percent) ≡ false))
  unfolding calculate_health_score calculate_score
  calculate_health_score-good_iff d = (
    (λ h. score-tells d (level_of-good (calculate_score below_80 d) h)),
    (λ (hc, hs, hof, hl). good-level_of _ (
        tells-score d.critical_alerts d.open_alerts d.cameras_offline d.workers_stale _ hc hs hof
          hl)),
  )
