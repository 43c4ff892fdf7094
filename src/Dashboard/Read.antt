-- ===== src/Dashboard/Read.antt =====
-- Reading the overview: admin-dashboard/lib/admin/dashboard-types.ts, dashboard-normalizer.ts and
-- dashboard-api.ts. Arithmetic on numbers is a parameter, `to_text` is `String`. The maximum of a
-- difference and 0 is decided by whether the difference is below 0.
use telecam.Prelude.{
  ℕ, suc, Bool, ◌||◌, List, [], ◌∷◌, map, Option, none, some, get_or, if◌then◌else◌,
}
use telecam.Text.{Text, text, text_eq}
use telecam.Json.Defs.{
  Json, undefined, string, Fields, end, Engine, pick, get, as_record, coalesce, is_truthy,
}
use telecam.Json.Case.{upper}
use telecam.Json.Numbers.{Arithmetic}
use telecam.Session.World.{Env, M}
use telecam.Session.Queries.{fetch_and}
use telecam.Cameras.Read.{keys2, keys3, num, optional_num}
use telecam.Alerts.Read.{text_of}

pub record OverviewWorker : Type 0 where
  pub name : Text
  pub status : Text

pub record NormalizedDashboard (N : Type 0) : Type 0 where
  pub schools_total : N
  pub schools_active : N
  pub parents_total : N
  pub parents_active : N
  pub children_total : N
  pub cameras_total : N
  pub cameras_active : N
  pub cameras_offline : N
  pub cameras_healthy : N
  pub cameras_healthy_percent : Option N
  pub open_alerts : N
  pub critical_alerts : N
  pub warning_alerts : N
  pub subscriptions_active : N
  pub subscriptions_trial : N
  pub monthly_revenue_etb : N
  pub pending_payments_etb : N
  pub playback_requests_today : N
  pub playback_denied_today : N
  pub login_failures_today : N
  pub storage_gb : Option N
  pub storage_bytes : Option N
  pub workers_healthy : N
  pub workers_total : N
  pub workers_stale : N
  pub worker_statuses : List OverviewWorker
  pub backend_health_score_percent : Option N
  pub cached : Bool

-- A key of a worker, the key without `_worker_status`, and its name.
pub record WorkerKey : Type 0 where
  pub key : Text
  pub short : Text
  pub name : Text

abbrev worker_key : Text → Text → Text → WorkerKey
worker_key key short name = record { key = key; short = short; name = name }

abbrev worker_keys : List WorkerKey
worker_keys =
    worker_key (text "stream_worker_status") (text "stream") (text "Stream Worker")
    ∷ worker_key (text "health_worker_status") (text "health") (text "Health Worker")
    ∷ worker_key (text "alert_worker_status") (text "alert") (text "Alert Worker")
    ∷ worker_key (text "scheduler_worker_status") (text "scheduler") (text "Scheduler Worker")
    ∷ worker_key (text "retention_worker_status") (text "retention") (text "Retention Worker")
    ∷ []

-- The loop that counts.
unfoldable pub count_healthy : List OverviewWorker → ℕ
unfolding text_eq
count_healthy [] = 0
count_healthy (w ∷ ws) =
    let rest = count_healthy ws in
    if text_eq w.status (text "RUNNING") || text_eq w.status (text "HEALTHY")
    then suc rest
    else rest

unfoldable pub count_stale : List OverviewWorker → ℕ
unfolding text_eq
count_stale [] = 0
count_stale (w ∷ ws) =
    let rest = count_stale ws in if text_eq w.status (text "STALE") then suc rest else rest

pub record OverviewWorkers (N : Type 0) : Type 0 where
  pub statuses : List OverviewWorker
  pub healthy : N
  pub total : N
  pub stale : N

module _ {N : Type 0} where
  -- `isRecord(raw.data) ? raw.data : raw`, of a record that has it
  abbrev data_or : Fields N → Option (Fields N) → Fields N
  data_or fs none = fs
  data_or fs (some inner) = inner

  unfoldable pub unwrap_dashboard : Json N → Fields N
  unfolding as_record get
  unwrap_dashboard raw = elim (as_record raw) [
    | none ↦ end
    | some fs ↦ data_or fs (as_record (get fs (text "data")))
  ]

  -- `isRecord(flat[key]) ? flat[key] : flat`
  abbrev part : Fields N → Text → Fields N
  part flat key = data_or flat (as_record (get flat key))

  -- `workersNested ? pick(workersNested, [key]) : undefined`
  abbrev in_nested : Option (Fields N) → Text → Json N
  in_nested none key = undefined
  in_nested (some fs) key = pick fs (key ∷ [])

module _ {N : Type 0} (js : Engine N) (a : Arithmetic N) (to_text : Json N → Text) where
  abbrev worker_status : Fields N → WorkerKey → OverviewWorker
  worker_status flat k = record {
    name = k.name;
    status = upper js (
        text_of js to_text (
          coalesce (pick flat (k.key ∷ [])) (
            coalesce (in_nested (as_record (get flat (text "workers"))) k.short)
              (string (text "UNKNOWN")))));
  }

  -- What the nested record says, where it says it.
  abbrev said : Option (Fields N) → Text → N → N
  said none key n = n
  said (some fs) key n = get_or (optional_num js (get fs key)) n

  unfoldable pub extract_worker_statuses : Fields N → OverviewWorkers N
  unfolding upper pick get as_record count_healthy count_stale optional_num
  extract_worker_statuses flat =
      let nested = as_record (get flat (text "workers")) in
      let statuses = map (worker_status flat) worker_keys in
      record {
        statuses = statuses;
        healthy = said nested (text "healthy") (js.of_nat (count_healthy statuses));
        total = said nested (text "total") (js.of_nat 5);
        stale = said nested (text "stale") (js.of_nat (count_stale statuses));
      }

  abbrev number_at : Fields N → List Text → N
  number_at fs keys = num js (pick fs keys)

  abbrev above_zero : N → Bool
  above_zero n = a.less (js.of_nat 0) n

  -- `Math.max(n - m, 0)`
  abbrev excess : N → N → N
  excess n m = if a.less (a.minus n m) (js.of_nat 0) then js.of_nat 0 else a.minus n m

  -- `direct ?? (cents !== null ? cents / 100 : 0)`
  abbrev in_etb : Option N → Option N → N
  in_etb (some n) cents = n
  in_etb none none = js.of_nat 0
  in_etb none (some cents) = a.over cents (js.of_nat 100)

  abbrev denominator : N → N → N
  denominator active total =
      if above_zero active then active else if above_zero total then total else js.of_nat 0

  abbrev numerator : N → N → N → N
  numerator healthy active offline =
      if above_zero healthy
      then healthy
      else if above_zero active
      then excess active offline
      else js.of_nat 0

  abbrev percent : N → N → Option N
  percent n d =
      if above_zero d
      then some (a.over (a.round (a.times (a.over n d) (js.of_nat 1000))) (js.of_nat 10))
      else none

  -- `warningFromApi !== undefined ? num(warningFromApi) : ...`
  abbrev warnings : Json N → N → N
  warnings undefined otherwise = otherwise
  warnings v otherwise = num js v

  unfoldable pub normalize_dashboard_data : Json N → NormalizedDashboard N
  unfolding unwrap_dashboard as_record get pick num optional_num extract_worker_statuses is_truthy
  normalize_dashboard_data raw =
      let flat = unwrap_dashboard raw in
      let schools = part flat (text "schools") in
      let parents = part flat (text "parents") in
      let cameras = part flat (text "cameras") in
      let alerts = part flat (text "alerts") in
      let subscriptions = part flat (text "subscriptions") in
      let billing = part flat (text "billing") in
      let playback = part flat (text "playback") in
      let storage = part flat (text "storage") in
      let cameras_total = number_at cameras (keys2 (text "total") (text "cameras_total")) in
      let cameras_active = number_at cameras (keys2 (text "active") (text "cameras_active")) in
      let cameras_offline = number_at cameras (keys2 (text "offline") (text "cameras_offline")) in
      let cameras_healthy =
        number_at cameras
          (text "healthy" ∷ text "cameras_healthy" ∷ text "online" ∷ text "cameras_online" ∷ []) in
      let healthy = numerator cameras_healthy cameras_active cameras_offline in
      let open_alerts = number_at alerts (keys2 (text "open") (text "open_alerts")) in
      let critical_alerts = number_at alerts (keys2 (text "critical") (text "critical_alerts")) in
      let workers = extract_worker_statuses flat in
      record {
        schools_total = number_at schools (keys2 (text "total") (text "schools_total"));
        schools_active = number_at schools (keys2 (text "active") (text "schools_active"));
        parents_total = number_at parents (keys2 (text "total") (text "parents_total"));
        parents_active = number_at parents (keys2 (text "active") (text "parents_active"));
        children_total =
            number_at (part flat (text "children")) (keys2 (text "total") (text "children_total"));
        cameras_total = cameras_total;
        cameras_active = cameras_active;
        cameras_offline = cameras_offline;
        cameras_healthy = healthy;
        cameras_healthy_percent = percent healthy (denominator cameras_active cameras_total);
        open_alerts = open_alerts;
        critical_alerts = critical_alerts;
        warning_alerts =
            warnings (pick alerts (keys2 (text "warning") (text "warning_alerts")))
              (excess open_alerts critical_alerts);
        subscriptions_active =
            number_at subscriptions (keys2 (text "active") (text "subscriptions_active"));
        subscriptions_trial =
            number_at subscriptions (keys2 (text "trial") (text "subscriptions_trial"));
        monthly_revenue_etb =
            in_etb
              (optional_num js (
                coalesce (pick flat (keys2 (text "monthly_revenue_etb") (text "monthlyRevenueEtb")))
                  (pick billing (keys2 (text "monthly_revenue_etb") (text "monthlyRevenueEtb")))))
              (optional_num js
                (pick billing (keys2 (text "monthly_revenue_cents") (text "monthlyRevenueCents"))));
        pending_payments_etb =
            in_etb
              (optional_num js (
                coalesce
                  (pick flat (keys2 (text "pending_payments_etb") (text "pendingPaymentsEtb")))
                  (pick billing (
                    keys3 (text "pending_payments_etb") (text "pendingPaymentsEtb")
                      (text "pending_payments")))))
              (optional_num js (
                pick billing
                  (keys2 (text "pending_payments_cents") (text "pendingPaymentsCents"))));
        playback_requests_today =
            number_at playback (keys2 (text "requests_today") (text "playback_requests_today"));
        playback_denied_today =
            number_at playback (keys2 (text "denied_today") (text "playback_denied_today"));
        login_failures_today =
            number_at (part flat (text "auth"))
              (keys2 (text "login_failures_today") (text "loginFailuresToday"));
        storage_gb = optional_num js (
            coalesce (pick storage (keys2 (text "total_gb") (text "storage_total_gb")))
              (pick flat (text "storage_total_gb" ∷ [])));
        storage_bytes =
            optional_num js
              (pick storage (keys2 (text "total_bytes") (text "storage_total_bytes")));
        workers_healthy = workers.healthy;
        workers_total = workers.total;
        workers_stale = workers.stale;
        worker_statuses = workers.statuses;
        backend_health_score_percent = optional_num js (
            pick flat
              (keys2 (text "system_health_score_percent") (text "systemHealthScorePercent")));
        cached = is_truthy js (get flat (text "cached"));
      }

module _ {N : Type 0} (env : Env N) (a : Arithmetic N) (to_text : Json N → Text) where
  unfoldable pub get_admin_dashboard : M N (NormalizedDashboard N)
  get_admin_dashboard =
      fetch_and env (text "/admin/dashboard") (text "GET")
        (normalize_dashboard_data env.js a to_text)
