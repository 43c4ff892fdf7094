-- ===== src/Alerts/Types.antt =====
-- admin-dashboard/lib/admin/alerts-types.ts. What may be missing is an `Option`; the metadata is
-- the list of its properties.
use telecam.Prelude.{ℕ, List, Option}
use telecam.Text.{Text, text}
use telecam.Json.Defs.{Fields}

pub data AlertSeverity : Type 0 where
  critical warning info unknown : AlertSeverity

pub data AlertStatus : Type 0 where
  opened acknowledged resolved unknown : AlertStatus

pub data DeliveryDisplayStatus : Type 0 where
  sent pending failed not_sent na : DeliveryDisplayStatus

-- The texts that the types stand for.
abbrev pub severity_name : AlertSeverity → Text
severity_name critical = text "critical"
severity_name warning = text "warning"
severity_name info = text "info"
severity_name unknown = text "unknown"

abbrev pub alert_status_name : AlertStatus → Text
alert_status_name opened = text "open"
alert_status_name acknowledged = text "acknowledged"
alert_status_name resolved = text "resolved"
alert_status_name unknown = text "unknown"

abbrev pub display_name : DeliveryDisplayStatus → Text
display_name sent = text "sent"
display_name pending = text "pending"
display_name failed = text "failed"
display_name not_sent = text "not_sent"
display_name na = text "na"

pub record AlertFilters : Type 0 where
  pub status : Option Text
  pub severity : Option Text
  pub alert_type : Option Text
  pub school_id : Option Text
  pub camera_id : Option Text
  pub search : Option Text
  pub limit : Option ℕ
  pub offset : Option ℕ

pub record NormalizedAlert (N : Type 0) : Type 0 where
  pub id : Text
  pub alert_type : Text
  pub severity : AlertSeverity
  pub status : AlertStatus
  pub title : Text
  pub message : Text
  pub school_id : Option Text
  pub school_name : Option Text
  pub camera_id : Option Text
  pub camera_name : Option Text
  pub created_at : Option Text
  pub updated_at : Option Text
  pub acknowledged_at : Option Text
  pub resolved_at : Option Text
  pub metadata : Option (Fields N)

pub record NormalizedAlertDelivery (N : Type 0) : Type 0 where
  pub id : Option Text
  pub alert_id : Text
  pub channel : Option Text
  pub recipient : Option Text
  pub status : Option Text
  pub delivery_kind : Option Text
  pub attempt_count : Option N
  pub last_error : Option Text
  pub sent_at : Option Text
  pub created_at : Option Text

pub record AlertsListResult (N : Type 0) : Type 0 where
  pub alerts : List (NormalizedAlert N)
  pub total : N
  pub limit : N
  pub offset : N

pub record AlertsSummary : Type 0 where
  pub opened : ℕ
  pub critical : ℕ
  pub warning : ℕ
  pub acknowledged : ℕ
  pub resolved_today : ℕ
  pub telegram_failures : ℕ
