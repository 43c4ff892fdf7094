-- ===== src/Alerts/Summary.antt =====
-- The counts of the alerts and how a delivery is shown, of
-- admin-dashboard/lib/admin/alerts-normalizer.ts. The day of today is a parameter.
use telecam.Prelude.{
  ℕ, ◌+◌, ◌≡◌, refl, ◌∙◌, Bool, true, false, not, ◌&&◌, ◌||◌, List, [], ◌∷◌, ◌++◌, map, filter,
  count, length, Option, none, some, get_or, if◌then◌else◌, arith, Bool-cases, inl, inr, ltb,
  length-filter, count-ext,
}
use telecam.Text.{Text, text, text_eq, is_empty, starts_with, join}
use telecam.Text.Laws.{text_eq_sound}
use telecam.Json.Defs.{Engine}
use telecam.Json.Case.{upper}
use telecam.AuditLogs.Logs.{add_if}
use telecam.Alerts.Sanitize.{ends_line}
use telecam.Alerts.Types.{
  AlertSeverity, AlertStatus, critical, warning, opened, acknowledged, resolved, NormalizedAlert,
  NormalizedAlertDelivery, AlertsSummary, DeliveryDisplayStatus, sent, pending, failed, not_sent,
  na, display_name,
}

abbrev pub is_open : AlertStatus → Bool
is_open opened = true
is_open _ = false

abbrev pub is_acknowledged : AlertStatus → Bool
is_acknowledged acknowledged = true
is_acknowledged _ = false

abbrev pub is_resolved : AlertStatus → Bool
is_resolved resolved = true
is_resolved _ = false

abbrev pub is_critical : AlertSeverity → Bool
is_critical critical = true
is_critical _ = false

abbrev pub is_warning : AlertSeverity → Bool
is_warning warning = true
is_warning _ = false

module _ {N : Type 0} where
  -- `alert.resolvedAt?.startsWith(todayKey)`
  abbrev pub resolved_on : Text → NormalizedAlert N → Bool
  resolved_on today alert = elim alert.resolved_at [ none ↦ false | some t ↦ starts_with t today ]

  abbrev pub is_pressing : (AlertSeverity → Bool) → NormalizedAlert N → Bool
  is_pressing p alert = p alert.severity && not (is_resolved alert.status)

  -- One turn of the loop.
  abbrev pub count_alert : Text → NormalizedAlert N → AlertsSummary → AlertsSummary
  count_alert today alert s = record s {
    opened = add_if (is_open alert.status) s.opened;
    acknowledged = add_if (is_acknowledged alert.status) s.acknowledged;
    critical = add_if (is_pressing is_critical alert) s.critical;
    warning = add_if (is_pressing is_warning alert) s.warning;
    resolved_today = add_if (resolved_on today alert) s.resolved_today;
  }

  unfoldable pub count_alerts : Text → List (NormalizedAlert N) → AlertsSummary → AlertsSummary
  unfolding starts_with
  count_alerts today [] s = s
  count_alerts today (alert ∷ alerts) s = count_alerts today alerts (count_alert today alert s)

  -- What the loop has counted.
  pub record IsCount (today : Text) (s : AlertsSummary) (alerts : List (NormalizedAlert N))
      (t : AlertsSummary) : Type 0 where
    pub opened : t.opened ≡ s.opened + count (λ a. is_open a.status) alerts
    pub acknowledged :
        t.acknowledged ≡ s.acknowledged + count (λ a. is_acknowledged a.status) alerts
    pub critical : t.critical ≡ s.critical + count (is_pressing is_critical) alerts
    pub warning : t.warning ≡ s.warning + count (is_pressing is_warning) alerts
    pub resolved_today : t.resolved_today ≡ s.resolved_today + count (resolved_on today) alerts
    pub telegram_failures : t.telegram_failures ≡ s.telegram_failures

  counted :
      (n : ℕ) (p : NormalizedAlert N → Bool) (alert : NormalizedAlert N)
      (alerts : List (NormalizedAlert N))
      → add_if (p alert) n + count p alerts ≡ n + count p (alert ∷ alerts)
  counted n p alert alerts = elim (Bool-cases (p alert)) [
    | inl e ↦ ground arith
    | inr e ↦ ground arith
  ]

  pub count_alerts-IsCount :
      (today : Text) (alerts : List (NormalizedAlert N)) (s : AlertsSummary)
      → IsCount today s alerts (count_alerts today alerts s)
  unfolding count_alerts
  count_alerts-IsCount today [] s = record {
    opened = omega arith;
    acknowledged = omega arith;
    critical = omega arith;
    warning = omega arith;
    resolved_today = omega arith;
    telegram_failures = refl;
  }
  count_alerts-IsCount today (alert ∷ alerts) s =
      let rest = count_alerts-IsCount today alerts (count_alert today alert s) in
      record {
        opened = rest.opened ∙ counted s.opened (λ a. is_open a.status) alert alerts;
        acknowledged =
            rest.acknowledged ∙ counted s.acknowledged (λ a. is_acknowledged a.status) alert alerts;
        critical = rest.critical ∙ counted s.critical (is_pressing is_critical) alert alerts;
        warning = rest.warning ∙ counted s.warning (is_pressing is_warning) alert alerts;
        resolved_today =
            rest.resolved_today ∙ counted s.resolved_today (resolved_on today) alert alerts;
        telegram_failures = rest.telegram_failures;
      }

module _ {N : Type 0} (js : Engine N) where
  abbrev is_failure : NormalizedAlertDelivery N → Bool
  is_failure d =
      let status = upper js (get_or d.status []) in
      text_eq status (text "FAILED") || text_eq status (text "ERROR")

  abbrev pub no_alerts : ℕ → AlertsSummary
  no_alerts failures = record {
    opened = 0;
    critical = 0;
    warning = 0;
    acknowledged = 0;
    resolved_today = 0;
    telegram_failures = failures;
  }

  unfoldable pub compute_alerts_summary :
      Text → List (NormalizedAlert N) → List (NormalizedAlertDelivery N) → AlertsSummary
  unfolding count_alerts upper text_eq
  compute_alerts_summary today alerts deliveries =
      count_alerts today alerts (no_alerts (length (filter is_failure deliveries)))

  -- The status that a text in upper case shows as, if any.
  abbrev display_of : Text → Option DeliveryDisplayStatus
  display_of s =
      if text_eq s (text "SENT") || (text_eq s (text "DELIVERED") || text_eq s (text "SUCCESS"))
      then some sent
      else if text_eq s (text "PENDING") || (text_eq s (text "QUEUED") || text_eq s (text "RETRY"))
      then some pending
      else if text_eq s (text "FAILED") || text_eq s (text "ERROR")
      then some failed
      else none

  unfoldable pub map_delivery_display_status : Option Text → DeliveryDisplayStatus
  unfolding upper text_eq
  map_delivery_display_status status =
      get_or (display_of (upper js (get_or status [])))
        (if is_empty (get_or status []) then na else not_sent)

  -- `s.replace(/^./, (c) => c.toUpperCase())`: a character above 0xffff is two units, of which the
  -- first has no upper case.
  unfoldable pub capitalize : Text → Text
  unfolding upper
  capitalize [] = []
  capitalize (c ∷ s) = if ends_line (c ∷ s) || ltb 0xffff c then c ∷ s else upper js (c ∷ []) ++ s

  unfoldable pub summarize_deliveries_for_alert : List (NormalizedAlertDelivery N) → Text
  unfolding capitalize map_delivery_display_status join
  summarize_deliveries_for_alert [] = text "N/A"
  summarize_deliveries_for_alert (d ∷ ds) = join (text " · ") (
      map
        (λ e.
          capitalize (get_or e.channel (text "Delivery"))
          ++ (text ": " ++ display_name (map_delivery_display_status e.status)))
        (d ∷ ds))

  abbrev pub is_failed : DeliveryDisplayStatus → Bool
  is_failed failed = true
  is_failed _ = false

  shown_failed :
      (s : Text) (otherwise : DeliveryDisplayStatus)
      → is_failed otherwise ≡ false
      → (text_eq s (text "FAILED") || text_eq s (text "ERROR"))
        ≡ is_failed (get_or (display_of s) otherwise)
  shown_failed s otherwise h = elim (Bool-cases (text_eq s (text "FAILED"))) [
    | inl e ↦ rw (text_eq_sound s (text "FAILED") e) (unfold text_eq in refl)
    | inr e ↦ elim (Bool-cases (text_eq s (text "ERROR"))) [
      | inl f ↦ rw (text_eq_sound s (text "ERROR") f) (unfold text_eq in refl)
      | inr f ↦ ground arith
    ]
  ]

  failure-is_failed :
      (d : NormalizedAlertDelivery N)
      → is_failure d ≡ is_failed (map_delivery_display_status d.status)
  unfolding map_delivery_display_status
  failure-is_failed d =
      shown_failed (upper js (get_or d.status []))
        (if is_empty (get_or d.status []) then na else not_sent) (ground arith)

  -- The summary of the alerts counts those that are open, acknowledged, resolved today, and
  -- critical or a warning and not resolved; its number of telegram failures is the number of
  -- deliveries, on any channel, that are shown as failed.
  pub compute_alerts_summary-counts :
      (today : Text) (alerts : List (NormalizedAlert N))
      (deliveries : List (NormalizedAlertDelivery N))
      → IsCount today
          (no_alerts (count (λ d. is_failed (map_delivery_display_status d.status)) deliveries))
          alerts
          (compute_alerts_summary today alerts deliveries)
  unfolding compute_alerts_summary
  compute_alerts_summary-counts today alerts deliveries =
      rw (length-filter is_failure deliveries, count-ext failure-is_failed deliveries)
        (count_alerts-IsCount today alerts _)
