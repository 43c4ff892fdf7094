-- ===== src/Alerts/Read.antt =====
-- Reading alerts and deliveries: admin-dashboard/lib/admin/alerts-normalizer.ts. `to_text` is
-- `String`.
pub mod Laws
use telecam.Prelude.{
  Bool, true, false, not, List, [], ◌∷◌, map, filter, length, Option, none, some, get_or, or_else,
  if◌then◌else◌,
}
use telecam.Text.{Text, text, text_eq, is_empty, includes}
use telecam.Json.Defs.{
  Json, undefined, null, string, number, array, object, Items, Fields, end, Engine, get, as_record,
  pick, str, items, is_nullish,
}
use telecam.Json.Case.{lower}
use telecam.Cameras.Read.{keys2, keys3, str_at, record_or_empty, num, unwrap_record}
use telecam.AuditLogs.Read.{data_or_self, pagination_of}
use telecam.Alerts.Sanitize.{sanitize_metadata, alert_mask}
use telecam.Alerts.Types.{
  AlertSeverity, AlertStatus, critical, warning, info, opened, acknowledged, resolved,
  NormalizedAlert, NormalizedAlertDelivery, AlertsListResult,
}
use telecam.Alerts.Types

abbrev pub severity_of : Text → AlertSeverity
severity_of s =
    if text_eq s (text "critical")
    then critical
    else if text_eq s (text "warning")
    then warning
    else if text_eq s (text "info")
    then info
    else AlertSeverity.unknown

abbrev pub alert_status_of : Text → AlertStatus
alert_status_of s =
    if text_eq s (text "open")
    then opened
    else if text_eq s (text "acknowledged")
    then acknowledged
    else if text_eq s (text "resolved")
    then resolved
    else AlertStatus.unknown

-- `status === "acknowledged" ? updatedAt : null`
abbrev pub when_acknowledged : AlertStatus → Option Text → Option Text
when_acknowledged acknowledged updated_at = updated_at
when_acknowledged _ updated_at = none

-- `Array.isArray(v) ? v : []`
abbrev pub array_items : {N : Type 0} → Json N → List (Json N)
array_items (array vs) = items vs
array_items v = []

module _ {N : Type 0} (js : Engine N) (to_text : Json N → Text) where
  -- `String(value ?? "")`; the text of a text is itself.
  abbrev pub text_of : Json N → Text
  text_of undefined = []
  text_of null = []
  text_of (string s) = s
  text_of v = to_text v

  unfoldable pub normalize_severity : Json N → AlertSeverity
  unfolding lower text_eq
  normalize_severity value = severity_of (lower js (text_of value))

  unfoldable pub normalize_status : Json N → AlertStatus
  unfolding lower text_eq
  normalize_status value = alert_status_of (lower js (text_of value))

  abbrev sanitized : Option (Fields N) → Option (Fields N)
  sanitized none = none
  sanitized (some fs) = some (sanitize_metadata fs end)

  abbrev parsed_record : Option (Json N) → Option (Fields N)
  parsed_record none = none
  parsed_record (some v) = sanitized (as_record v)

  unfoldable pub parse_metadata : Json N → Option (Fields N)
  unfolding as_record
  parse_metadata undefined = none
  parse_metadata null = none
  parse_metadata (string s) = parsed_record (js.parse s)
  parse_metadata v = sanitized (as_record v)

  unfoldable pub mask_recipient : Option Text → Option Text → Option Text
  unfolding lower includes
  mask_recipient channel none = none
  mask_recipient channel (some recipient) =
      if is_empty recipient
      then some recipient
      else if includes (lower js (get_or channel [])) (text "telegram")
      then some alert_mask
      else some recipient

  unfoldable pub normalize_alert : Json N → NormalizedAlert N
  unfolding pick str normalize_severity normalize_status parse_metadata
  normalize_alert raw =
      let row = record_or_empty raw in
      let status = normalize_status (pick row (text "status" ∷ [])) in
      let title = get_or (str_at row (text "title" ∷ [])) [] in
      let updated_at = str_at row (keys2 (text "updated_at") (text "updatedAt")) in
      record {
        id = get_or (str_at row (text "id" ∷ [])) [];
        alert_type =
            get_or (str_at row (keys3 (text "alert_type") (text "alertType") (text "type")))
              (text "UNKNOWN");
        severity = normalize_severity (pick row (text "severity" ∷ []));
        status = status;
        title = title;
        message = get_or (str_at row (text "message" ∷ [])) title;
        school_id = str_at row (keys2 (text "school_id") (text "schoolId"));
        school_name = str_at row (keys2 (text "school_name") (text "schoolName"));
        camera_id = str_at row (keys2 (text "camera_id") (text "cameraId"));
        camera_name = str_at row (keys2 (text "camera_name") (text "cameraName"));
        created_at =
            str_at row
              (text "opened_at" ∷ text "openedAt" ∷ text "created_at" ∷ text "createdAt" ∷ []);
        updated_at = updated_at;
        acknowledged_at = when_acknowledged status updated_at;
        resolved_at = str_at row (keys2 (text "resolved_at") (text "resolvedAt"));
        metadata = parse_metadata (pick row (text "metadata" ∷ []));
      }

  -- `a || b`
  abbrev or_number : N → N → N
  or_number a b = if js.is_falsy a then b else a

  -- `num(pagination ? pick(pagination, [key]) : otherwise)`
  abbrev page_number : Option (Fields N) → Text → N → N
  page_number none key otherwise = num js (number otherwise)
  page_number (some fs) key otherwise = num js (pick fs (key ∷ []))

  abbrev list_of_root : Fields N → AlertsListResult N
  list_of_root root =
      let payload = data_or_self js root in
      let alerts =
        map normalize_alert
          (array_items (pick payload (text "alerts" ∷ text "data" ∷ text "items" ∷ []))) in
      let pagination = pagination_of js root payload in
      let found = js.of_nat (length alerts) in
      record {
        alerts = alerts;
        total = page_number pagination (text "total") found;
        limit = or_number (page_number pagination (text "limit") found) found;
        offset = page_number pagination (text "offset") (js.of_nat 0);
      }

  unfoldable pub normalize_alerts_list : Json N → AlertsListResult N
  unfolding pick get as_record num normalize_alert
  normalize_alerts_list (array vs) = record {
    alerts = map normalize_alert (items vs);
    total = js.of_nat (length (items vs));
    limit = js.of_nat (length (items vs));
    offset = js.of_nat 0;
  }
  normalize_alerts_list (object fs) = list_of_root fs
  normalize_alerts_list v = list_of_root end

  -- `n || null`
  abbrev number_or_null : N → Option N
  number_or_null n = if js.is_falsy n then none else some n

  unfoldable pub normalize_alert_delivery : Json N → NormalizedAlertDelivery N
  unfolding pick str num mask_recipient
  normalize_alert_delivery raw =
      let row = record_or_empty raw in
      let channel = str_at row (text "channel" ∷ []) in
      record {
        id = str_at row (text "id" ∷ []);
        alert_id = get_or (str_at row (keys2 (text "alert_id") (text "alertId"))) [];
        channel = channel;
        recipient = mask_recipient channel (str_at row (text "recipient" ∷ []));
        status = str_at row (text "status" ∷ []);
        delivery_kind = str_at row (keys2 (text "delivery_kind") (text "deliveryKind"));
        attempt_count = number_or_null (
            num js
              (pick row (keys3 (text "attempts") (text "attempt_count") (text "attemptCount"))));
        last_error = str_at row (keys2 (text "last_error") (text "lastError"));
        sent_at =
            str_at row
              (text "delivered_at" ∷ text "deliveredAt" ∷ text "sent_at" ∷ text "sentAt" ∷ []);
        created_at = str_at row (keys2 (text "created_at") (text "createdAt"));
      }

  -- The rows of an answer: an array, or one of three properties of an object.
  abbrev delivery_rows : Json N → List (Json N)
  delivery_rows (array vs) = items vs
  delivery_rows (object fs) =
      array_items (pick fs (text "deliveries" ∷ text "data" ∷ text "items" ∷ []))
  delivery_rows v = []

  unfoldable pub normalize_alert_deliveries : Json N → List (NormalizedAlertDelivery N)
  unfolding unwrap_record pick normalize_alert_delivery
  normalize_alert_deliveries raw =
      filter (λ d. not (is_empty d.alert_id))
        (map normalize_alert_delivery (delivery_rows (unwrap_record raw)))
