-- ===== src/System/Health/Laws.antt =====
-- What the health of the system says of its workers and alerts.
use telecam.Prelude.{
  ℕ, suc, ◌+◌, ◌-◌, ◌*◌, min, ◌≡◌, refl, ◌↔◌, ◌∙◌, Bool, true, false, ◌&&◌, ◌||◌, List, [], ◌∷◌,
  length, Option, none, some, ltb, ◌==◌, if◌then◌else◌, any, count, arith, ap, sym, Bool-cases, inl,
  inr,
}
use telecam.System.Types.{
  SystemStatus, WorkerStatus, healthy, warning, critical, unknown, running, stale, stopped, error,
  NormalizedWorker, NormalizedHealthSummary, NormalizedSchedulerStatus, NormalizedRetentionStatus,
}
use telecam.System.Health.{
  WorkerCounts, count_worker, count_workers, count_workers_by_status,
  derive_system_status_from_workers, derive_overall_system_status, compute_health_score, exceeds,
  of_summary, is_critical, is_warning, retention_status_of, scheduler_status_of, is_missing,
  camera_points, alert_points,
}

abbrev down : WorkerStatus → Bool
down error = true
down stopped = true
down _ = false

abbrev late : WorkerStatus → Bool
late stale = true
late _ = false

abbrev up : WorkerStatus → Bool
up running = true
up healthy = true
up _ = false

abbrev pub is_down : NormalizedWorker → Bool
is_down w = down w.status

abbrev pub is_late : NormalizedWorker → Bool
is_late w = late w.status

abbrev pub is_up : NormalizedWorker → Bool
is_up w = up w.status

-- The counts from `c` on.
pub record IsTally (c : WorkerCounts) (ws : List NormalizedWorker) (d : WorkerCounts) : Type 0 where
  pub healthy : d.healthy ≡ c.healthy + count is_up ws
  pub stale : d.stale ≡ c.stale + count is_late ws
  pub error : d.error ≡ c.error + count is_down ws
  pub total : d.total ≡ c.total

-- One worker adds to at most one count.
count_worker_lem :
    (status : WorkerStatus) (c : WorkerCounts)
    → ((count_worker status c).healthy ≡ (if up status then suc c.healthy else c.healthy))
      × ((count_worker status c).stale ≡ (if late status then suc c.stale else c.stale))
      × ((count_worker status c).error ≡ (if down status then suc c.error else c.error))
      × ((count_worker status c).total ≡ c.total)
count_worker_lem running c = (refl, refl, refl, refl)
count_worker_lem _ c = (refl, refl, refl, refl)

count_cons :
    (p : NormalizedWorker → Bool) (w : NormalizedWorker) (ws : List NormalizedWorker) (n : ℕ)
    → (if p w then suc n else n) + count p ws ≡ n + count p (w ∷ ws)
count_cons p w ws n = elim (Bool-cases (p w)) [ inl e ↦ ground arith | inr e ↦ ground arith ]

count_workers-IsTally :
    (ws : List NormalizedWorker) (c : WorkerCounts) → IsTally c ws (count_workers ws c)
unfolding count_workers
count_workers-IsTally [] c = record {
  healthy = omega arith;
  stale = omega arith;
  error = omega arith;
  total = refl;
}
count_workers-IsTally (w ∷ ws) c =
    let t = count_workers-IsTally ws (count_worker w.status c) in
    let (h, l, d, n) = count_worker_lem w.status c in
    record {
      healthy = t.healthy ∙ ap (λ k. k + count is_up ws) h ∙ count_cons is_up w ws c.healthy;
      stale = t.stale ∙ ap (λ k. k + count is_late ws) l ∙ count_cons is_late w ws c.stale;
      error = t.error ∙ ap (λ k. k + count is_down ws) d ∙ count_cons is_down w ws c.error;
      total = t.total ∙ n;
    }

abbrev pub no_workers : ℕ → WorkerCounts
no_workers total = record { healthy = 0; stale = 0; error = 0; total = total }

-- The workers are counted by status: running or healthy, stale, in error or stopped; the total is
-- their number.
pub count_workers_by_status-IsTally :
    (ws : List NormalizedWorker) → IsTally (no_workers (length ws)) ws (count_workers_by_status ws)
unfolding count_workers_by_status
count_workers_by_status-IsTally ws = count_workers-IsTally ws (no_workers (length ws))

some_counted :
    (p : NormalizedWorker → Bool) (ws : List NormalizedWorker) → ltb 0 (count p ws) ≡ any p ws
some_counted p [] = refl
some_counted p (w ∷ ws) = elim (Bool-cases (p w)) [
  | inl e ↦ ground arith
  | inr e ↦ ground (arith, some_counted p ws)
]

error_counted :
    (ws : List NormalizedWorker) → ltb 0 (count_workers_by_status ws).error ≡ any is_down ws
error_counted ws =
    let e = (count_workers_by_status-IsTally ws).error in
    let same : (count_workers_by_status ws).error ≡ count is_down ws = omega arith in
    rw same (some_counted is_down ws)

stale_counted :
    (ws : List NormalizedWorker) → ltb 0 (count_workers_by_status ws).stale ≡ any is_late ws
stale_counted ws =
    let e = (count_workers_by_status-IsTally ws).stale in
    let same : (count_workers_by_status ws).stale ≡ count is_late ws = omega arith in
    rw same (some_counted is_late ws)

workers_critical :
    (ws : List NormalizedWorker)
    → is_critical (derive_system_status_from_workers ws) ≡ any is_down ws
unfolding derive_system_status_from_workers
workers_critical [] = refl
workers_critical (w ∷ ws) = ground (arith, error_counted (w ∷ ws))

is_critical_iff : (s : SystemStatus) → (s ≡ critical) ↔ (is_critical s ≡ true)
is_critical_iff critical = (λ h. refl, λ h. refl)
is_critical_iff _ = (λ h. cc, λ h. cc)

-- The ladder of the decision is critical in its first three steps only.
ladder_critical :
    (alerts workers others late many notes missing : Bool)
    → is_critical (
        if alerts
        then critical
        else if workers
        then critical
        else if others
        then critical
        else if late
        then warning
        else if many
        then warning
        else if notes
        then warning
        else if missing
        then unknown
        else healthy)
      ≡ (alerts || (workers || others))
ladder_critical true workers others late many notes missing = refl
ladder_critical false true others late many notes missing = refl
ladder_critical false false true late many notes missing = refl
ladder_critical false false false true many notes missing = refl
ladder_critical false false false false true notes missing = refl
ladder_critical false false false false false true missing = refl
ladder_critical false false false false false false true = refl
ladder_critical false false false false false false false = refl

-- The system is critical exactly when a critical alert is open, a worker is in error or stopped,
-- or the retention or the scheduler is critical.
pub derive_overall_system_status-critical_iff :
    (summary : Option NormalizedHealthSummary) (ws : List NormalizedWorker)
    (scheduler : Option NormalizedSchedulerStatus) (retention : Option NormalizedRetentionStatus)
    → (derive_overall_system_status summary ws scheduler retention ≡ critical) ↔ (
        (exceeds (of_summary summary (λ s. s.critical_alerts)) 0
          || (any is_down ws
              || (is_critical (retention_status_of retention)
                  || is_critical (scheduler_status_of scheduler))))
        ≡ true)
unfolding derive_overall_system_status
derive_overall_system_status-critical_iff summary ws scheduler retention =
    rw
      (
        ← workers_critical ws,
        ← ladder_critical (exceeds (of_summary summary (λ s. s.critical_alerts)) 0)
            (is_critical (derive_system_status_from_workers ws))
            (is_critical (retention_status_of retention)
              || is_critical (scheduler_status_of scheduler))
            (is_warning (derive_system_status_from_workers ws))
            (exceeds (of_summary summary (λ s. s.open_alerts)) 5)
            (is_warning (retention_status_of retention)
              || is_warning (scheduler_status_of scheduler))
            (is_missing summary && length ws == 0),
      )
      (is_critical_iff (derive_overall_system_status summary ws scheduler retention))

alert_points-zero : (o : Option ℕ) → alert_points o ≡ 0 → exceeds o 0 ≡ false
alert_points-zero none h = refl
alert_points-zero (some n) h = ground arith

-- Nothing was taken off a full score.
full_score :
    (missing : Bool) (a k s e : ℕ)
    → (if missing then none else some (min 100 (100 - a - k - s * 8 - e * 15))) ≡ some 100
    → (a ≡ 0) × ((s ≡ 0) × (e ≡ 0))
full_score true a k s e h = cc
full_score false a k s e h =
    let full : min 100 (100 - a - k - s * 8 - e * 15) ≡ 100 = cc in
    (omega arith, (omega arith, omega arith))

-- If the health score is a hundred, no critical alert is open and no worker is stale, in error or
-- stopped.
pub compute_health_score-full :
    (rounded : ℕ → ℕ → ℕ) (summary : Option NormalizedHealthSummary) (ws : List NormalizedWorker)
    → compute_health_score rounded summary ws ≡ some 100
    → (exceeds (of_summary summary (λ s. s.critical_alerts)) 0 ≡ false)
      × ((any is_late ws ≡ false) × (any is_down ws ≡ false))
unfolding compute_health_score
compute_health_score-full rounded summary ws h =
    let c = count_workers_by_status ws in
    let alerts = of_summary summary (λ s. s.critical_alerts) in
    let (a, (s, e)) =
      full_score (length ws == 0 && is_missing summary) (alert_points alerts)
        (camera_points rounded (of_summary summary (λ s. s.cameras_offline))
          (of_summary summary (λ s. s.cameras_total)))
        c.stale c.error h in
    (
      alert_points-zero alerts a,
      (sym (stale_counted ws) ∙ ground arith, sym (error_counted ws) ∙ ground arith),
    )
