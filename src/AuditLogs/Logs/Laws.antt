-- ===== src/AuditLogs/Logs/Laws.antt =====
-- The summary counts what it says, and the actions that can be chosen have categories.
use telecam.Prelude.{
  ℕ, ◌+◌, ◌≡◌, refl, ◌∙◌, Bool, true, false, ◌||◌, List, [], ◌∷◌, length, arith, All, count,
  Bool-cases, inl, inr,
}
use telecam.Text.{Text, text, text_eq, includes, starts_with}
use telecam.Text.Laws.{text_eq_iff}
use telecam.Json.Defs.{Engine}
use telecam.Json.Case.{upper}
use telecam.AuditLogs.Logs.{
  AuditLogCategory, other, NormalizedAuditLog, AuditLogsSummary, category_of, audit_actions,
  is_admin_category, is_billing, is_alert, count_log, count_logs, compute_audit_logs_summary,
  add_if, no_logs,
}

abbrev pub is_other : AuditLogCategory → Bool
is_other other = true
is_other _ = false

-- Every action that the filter of the page offers has a category other than other.
pub audit_actions-categorized : All (λ a. is_other (category_of a) ≡ false) audit_actions
unfolding category_of
audit_actions-categorized = assumption refl

or_implied : (a b : Bool) → (a ≡ true → b ≡ true) → (a || b) ≡ b
or_implied true b h = let e = h refl in cc
or_implied false b h = refl

login_failed-eq :
    (s : Text)
    → (text_eq s (text "AUTH_LOGIN_FAILED") || includes s (text "LOGIN_FAILED"))
      ≡ includes s (text "LOGIN_FAILED")
login_failed-eq s =
    or_implied (text_eq s (text "AUTH_LOGIN_FAILED")) (includes s (text "LOGIN_FAILED"))
      λ h. rw ((text_eq_iff s (text "AUTH_LOGIN_FAILED")).0 h) (unfold includes starts_with in refl)

access_denied-eq :
    (s : Text)
    → (text_eq s (text "PLAYBACK_ACCESS_DENIED") || includes s (text "ACCESS_DENIED"))
      ≡ includes s (text "ACCESS_DENIED")
access_denied-eq s =
    or_implied (text_eq s (text "PLAYBACK_ACCESS_DENIED")) (includes s (text "ACCESS_DENIED")) λ h.
      rw ((text_eq_iff s (text "PLAYBACK_ACCESS_DENIED")).0 h) (unfold includes starts_with in refl)

module _ {N : Type 0} (js : Engine N) where
  abbrev pub mentions : Text → NormalizedAuditLog N → Bool
  mentions word log = includes (upper js log.action) word

  -- What was counted before, and the logs.
  pub record IsCount (s : AuditLogsSummary) (logs : List (NormalizedAuditLog N))
      (t : AuditLogsSummary) : Type 0 where
    pub total : t.total ≡ s.total
    pub login_failures :
        t.login_failures ≡ s.login_failures + count (mentions (text "LOGIN_FAILED")) logs
    pub playback_denials :
        t.playback_denials ≡ s.playback_denials + count (mentions (text "ACCESS_DENIED")) logs
    pub admin_actions :
        t.admin_actions ≡ s.admin_actions + count (λ log. is_admin_category log.category) logs
    pub billing_actions :
        t.billing_actions ≡ s.billing_actions + count (λ log. is_billing log.category) logs
    pub alert_actions :
        t.alert_actions ≡ s.alert_actions + count (λ log. is_alert log.category) logs

  counted_as :
      {b : Bool} (n : ℕ) (p : NormalizedAuditLog N → Bool) (log : NormalizedAuditLog N)
      (logs : List (NormalizedAuditLog N))
      → b ≡ p log
      → add_if b n + count p logs ≡ n + count p (log ∷ logs)
  counted_as n p log logs h = elim (Bool-cases (p log)) [
    | inl e ↦ let same = h ∙ e in ground arith
    | inr e ↦ let same = h ∙ e in ground arith
  ]

  count_logs-IsCount :
      (logs : List (NormalizedAuditLog N)) (s : AuditLogsSummary)
      → IsCount s logs (count_logs js logs s)
  unfolding count_logs
  count_logs-IsCount [] s = record {
    total = refl;
    login_failures = omega arith;
    playback_denials = omega arith;
    admin_actions = omega arith;
    billing_actions = omega arith;
    alert_actions = omega arith;
  }
  count_logs-IsCount (log ∷ logs) s =
      let c = count_logs-IsCount logs (count_log js log s) in
      record {
        total = c.total;
        login_failures =
            c.login_failures
            ∙ counted_as s.login_failures (mentions (text "LOGIN_FAILED")) log logs
                (login_failed-eq (upper js log.action));
        playback_denials =
            c.playback_denials
            ∙ counted_as s.playback_denials (mentions (text "ACCESS_DENIED")) log logs
                (access_denied-eq (upper js log.action));
        admin_actions =
            c.admin_actions
            ∙ counted_as s.admin_actions (λ log. is_admin_category log.category) log logs refl;
        billing_actions =
            c.billing_actions
            ∙ counted_as s.billing_actions (λ log. is_billing log.category) log logs refl;
        alert_actions =
            c.alert_actions
            ∙ counted_as s.alert_actions (λ log. is_alert log.category) log logs refl;
      }

  -- The summary has as many logs as there are, and each of its numbers counts the logs that it is
  -- named for: a failed login is any action that mentions LOGIN_FAILED, a denied playback any that
  -- mentions ACCESS_DENIED.
  pub compute_audit_logs_summary-IsCount :
      (logs : List (NormalizedAuditLog N))
      → IsCount (no_logs js (length logs)) logs (compute_audit_logs_summary js logs)
  unfolding compute_audit_logs_summary
  compute_audit_logs_summary-IsCount logs = count_logs-IsCount logs (no_logs js (length logs))
