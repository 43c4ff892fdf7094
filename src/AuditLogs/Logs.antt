-- ===== src/AuditLogs/Logs.antt =====
-- Audit logs as the dashboard shows them: admin-dashboard/lib/admin/audit-logs-types.ts, and the
-- categories, the summary and the search of audit-logs-utils.ts.
pub mod Laws
use telecam.Prelude.{
  ℕ, suc, Bool, true, false, ◌||◌, List, [], ◌∷◌, ◌++◌, map, filter, length, Option, none, some,
  if◌then◌else◌, get_or,
}
use telecam.Text.{Text, text, text_eq, starts_with, includes, trim, is_empty, join}
use telecam.Json.Defs.{Json, null, string, Fields, Engine, get, str, as_object, is_truthy}
use telecam.Json.Case.{upper, lower}
use telecam.Search.{filled_parts}

pub data AuditLogCategory : Type 0 where
  auth playback admin camera school billing alert system other : AuditLogCategory

pub record NormalizedAuditLog (N : Type 0) : Type 0 where
  pub id : Text
  pub action : Text
  pub category : AuditLogCategory
  pub user_id : Option Text
  pub user_name : Option Text
  pub user_email : Option Text
  pub user_role : Option Text
  pub school_id : Option Text
  pub school_name : Option Text
  pub camera_id : Option Text
  pub camera_name : Option Text
  pub ip_address : Option Text
  pub user_agent : Option Text
  pub request_id : Option Text
  -- `null`, or an object
  pub metadata : Json N
  pub created_at : Option Text

pub record AuditLogsSummary : Type 0 where
  pub total : ℕ
  pub login_failures : ℕ
  pub playback_denials : ℕ
  pub admin_actions : ℕ
  pub billing_actions : ℕ
  pub alert_actions : ℕ

-- The category of an action in upper case.
unfoldable pub category_of : Text → AuditLogCategory
unfolding starts_with includes
category_of a =
    if starts_with a (text "AUTH_")
    then auth
    else if starts_with a (text "PLAYBACK_")
    then playback
    else if starts_with a (text "SUBSCRIPTION_")
        || (starts_with a (text "PAYMENT_")
            || (starts_with a (text "INVOICE_") || starts_with a (text "REVENUE_")))
    then billing
    else if starts_with a (text "ALERT_")
    then alert
    else if starts_with a (text "CAMERA_")
    then camera
    else if starts_with a (text "SCHOOL_")
    then school
    else if starts_with a (text "ADMIN_")
        || (starts_with a (text "CLASSROOM_")
            || (starts_with a (text "CHILD_") || starts_with a (text "PARENT_")))
    then admin
    else if includes a (text "WORKER") || includes a (text "SYSTEM")
    then system
    else other

-- The values of `AUDIT_ACTION_OPTIONS`; each label is its value.
abbrev pub audit_actions : List Text
audit_actions = map text (
    "AUTH_LOGIN_SUCCESS" ∷ "AUTH_LOGIN_FAILED" ∷ "AUTH_LOGOUT" ∷ "AUTH_TOKEN_REFRESH"
    ∷ "AUTH_PASSWORD_CHANGED" ∷ "AUTH_FORCE_PASSWORD_CHANGE_COMPLETED" ∷ "ADMIN_USER_CREATED"
    ∷ "ADMIN_USER_UPDATED" ∷ "ADMIN_USER_ROLE_CHANGED" ∷ "ADMIN_USER_STATUS_CHANGED"
    ∷ "ADMIN_USER_PASSWORD_RESET" ∷ "ADMIN_USER_FORCE_PASSWORD_CHANGE_SET"
    ∷ "PLAYBACK_LIVE_REQUESTED" ∷ "PLAYBACK_TIMELINE_REQUESTED" ∷ "PLAYBACK_RECORDING_REQUESTED"
    ∷ "PLAYBACK_ACCESS_DENIED" ∷ "SCHOOL_CREATED" ∷ "SCHOOL_UPDATED" ∷ "CLASSROOM_CREATED"
    ∷ "CLASSROOM_UPDATED" ∷ "CHILD_CREATED" ∷ "CHILD_UPDATED" ∷ "PARENT_CREATED"
    ∷ "PARENT_ASSIGNED_TO_CHILD" ∷ "CAMERA_CREATED" ∷ "CAMERA_UPDATED" ∷ "ALERT_ACKNOWLEDGED"
    ∷ "ALERT_RESOLVED" ∷ "SUBSCRIPTION_CREATED" ∷ "SUBSCRIPTION_STATUS_UPDATED"
    ∷ "SUBSCRIPTION_EXTENDED" ∷ "PAYMENT_CREATED" ∷ "PAYMENT_APPROVED" ∷ "PAYMENT_REJECTED"
    ∷ "INVOICE_CREATED" ∷ "INVOICE_MARKED_PAID" ∷ "INVOICE_VOIDED" ∷ [])

abbrev pub is_admin_category : AuditLogCategory → Bool
is_admin_category admin = true
is_admin_category school = true
is_admin_category camera = true
is_admin_category _ = false

abbrev pub is_billing : AuditLogCategory → Bool
is_billing billing = true
is_billing _ = false

abbrev pub is_alert : AuditLogCategory → Bool
is_alert alert = true
is_alert _ = false

-- `if (b) n += 1`
abbrev pub add_if : Bool → ℕ → ℕ
add_if b n = if b then suc n else n

module _ {N : Type 0} where
  -- The string at the first of the keys that is not blank.
  unfoldable pub first_string : Fields N → List Text → Option Text
  first_string fs [] = none
  first_string fs (key ∷ keys) =
      let rest = first_string fs keys in elim (str (get fs key)) [ none ↦ rest | some s ↦ some s ]

  unfoldable pub extract_request_id : Json N → Option Text
  unfolding first_string as_object get str
  extract_request_id metadata = elim (as_object metadata) [
    | none ↦ none
    | some fs ↦
        first_string fs
          (text "request_id" ∷ text "requestId" ∷ text "correlation_id" ∷ text "trace_id" ∷ [])
  ]

module _ {N : Type 0} (js : Engine N) where
  unfoldable pub categorize_audit_action : Text → AuditLogCategory
  unfolding category_of upper
  categorize_audit_action action = category_of (upper js action)

  -- One turn of the loop of the summary.
  abbrev pub count_log : NormalizedAuditLog N → AuditLogsSummary → AuditLogsSummary
  count_log log s =
      let action = upper js log.action in
      record s {
        login_failures =
            add_if
              (text_eq action (text "AUTH_LOGIN_FAILED") || includes action (text "LOGIN_FAILED"))
              s.login_failures;
        playback_denials =
            add_if
              (text_eq action (text "PLAYBACK_ACCESS_DENIED")
                || includes action (text "ACCESS_DENIED"))
              s.playback_denials;
        admin_actions = add_if (is_admin_category log.category) s.admin_actions;
        billing_actions = add_if (is_billing log.category) s.billing_actions;
        alert_actions = add_if (is_alert log.category) s.alert_actions;
      }

  unfoldable pub count_logs : List (NormalizedAuditLog N) → AuditLogsSummary → AuditLogsSummary
  unfolding upper text_eq includes
  count_logs [] s = s
  count_logs (log ∷ logs) s = count_logs logs (count_log log s)

  abbrev pub no_logs : ℕ → AuditLogsSummary
  no_logs total = record {
    total = total;
    login_failures = 0;
    playback_denials = 0;
    admin_actions = 0;
    billing_actions = 0;
    alert_actions = 0;
  }

  unfoldable pub compute_audit_logs_summary : List (NormalizedAuditLog N) → AuditLogsSummary
  unfolding count_logs
  compute_audit_logs_summary logs = count_logs logs (no_logs (length logs))

  -- `log.metadata ? JSON.stringify(log.metadata).toLowerCase() : ""`
  abbrev metadata_text : Json N → Text
  metadata_text v = if is_truthy js v then lower js (js.stringify v) else []

  abbrev log_parts : NormalizedAuditLog N → List (Option Text)
  log_parts log =
      some log.action
      ∷ log.user_name
      ∷ log.user_email
      ∷ log.user_id
      ∷ log.school_name
      ∷ log.school_id
      ∷ log.camera_name
      ∷ log.camera_id
      ∷ log.ip_address
      ∷ log.user_agent
      ∷ some (metadata_text log.metadata)
      ∷ []

  unfoldable pub filter_audit_logs_client_side :
      List (NormalizedAuditLog N) → Text → List (NormalizedAuditLog N)
  unfolding is_truthy lower trim filled_parts join includes
  filter_audit_logs_client_side logs search =
      let q = lower js (trim search) in
      if is_empty q
      then logs
      else filter (λ log. includes (lower js (join (text " ") (filled_parts (log_parts log)))) q)
          logs
