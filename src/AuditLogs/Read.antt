-- ===== src/AuditLogs/Read.antt =====
-- Reading audit logs: admin-dashboard/lib/admin/audit-logs-normalizer.ts.
pub mod Laws
use telecam.Prelude.{List, [], ◌∷◌, map, length, Option, none, some, or_else, get_or, ℕ}
use telecam.Text.{Text, text}
use telecam.Json.Defs.{
  Json, null, object, array, Fields, end, Engine, get, as_record, as_number, pick, str,
}
use telecam.Cameras.Read.{keys2, keys3, str_at, record_or_empty, rows}
use telecam.AuditLogs.Sanitize.{sanitize_metadata_record}
use telecam.AuditLogs.Logs.{NormalizedAuditLog, categorize_audit_action, extract_request_id}

pub record AuditLogsPage (N : Type 0) : Type 0 where
  pub logs : List (NormalizedAuditLog N)
  pub limit : N
  pub offset : N
  pub total : N

-- `id ? names.get(id) ?? null : null`, for an id that is no empty text
abbrev pub name_of : Option Text → (Text → Option Text) → Option Text
name_of none names = none
name_of (some id) names = names id

module _ {N : Type 0} (js : Engine N) where
  -- `raw && typeof raw === "object" ? sanitizeMetadataRecord(raw) : null`
  unfoldable pub metadata_of : Json N → Json N
  metadata_of (object fs) = sanitize_metadata_record js (object fs)
  metadata_of (array vs) = sanitize_metadata_record js (array vs)
  metadata_of v = null

  -- `camera_names` is the lookup in the map of the names, or finds nothing.
  unfoldable pub normalize_audit_log : Json N → (Text → Option Text) → NormalizedAuditLog N
  unfolding pick str metadata_of extract_request_id categorize_audit_action
  normalize_audit_log raw camera_names =
      let row = record_or_empty raw in
      let action = get_or (str_at row (text "action" ∷ [])) (text "UNKNOWN") in
      let metadata = metadata_of (pick row (text "metadata" ∷ [])) in
      let camera_id = str_at row (keys2 (text "camera_id") (text "cameraId")) in
      record {
        id = get_or (str_at row (text "id" ∷ [])) [];
        action = action;
        category = categorize_audit_action js action;
        user_id = str_at row (keys2 (text "user_id") (text "userId"));
        user_name = str_at row (keys3 (text "user_name") (text "userName") (text "full_name"));
        user_email = str_at row (keys3 (text "user_email") (text "userEmail") (text "email"));
        user_role = str_at row (keys3 (text "user_role") (text "userRole") (text "role"));
        school_id = str_at row (keys2 (text "school_id") (text "schoolId"));
        school_name = str_at row (keys2 (text "school_name") (text "schoolName"));
        camera_id = camera_id;
        camera_name = name_of camera_id camera_names;
        ip_address = str_at row (keys2 (text "ip_address") (text "ipAddress"));
        user_agent = str_at row (keys2 (text "user_agent") (text "userAgent"));
        request_id = extract_request_id metadata;
        metadata = metadata;
        created_at = str_at row (keys2 (text "created_at") (text "createdAt"));
      }

  -- `source && typeof source[key] === "number" ? source[key] : otherwise`
  abbrev number_or : Option (Fields N) → Text → N → N
  number_or none key otherwise = otherwise
  number_or (some fs) key otherwise = get_or (as_number (get fs key)) otherwise

  -- `isRecord(root.data) ? root.data : root`
  abbrev pub data_or_self : Fields N → Fields N
  data_or_self root = get_or (as_record (get root (text "data"))) root

  abbrev pub pagination_of : Fields N → Fields N → Option (Fields N)
  pagination_of root payload =
      or_else (as_record (get root (text "pagination")))
        (as_record (get payload (text "pagination")))

  unfoldable pub normalize_audit_logs_page : Json N → AuditLogsPage N
  unfolding pick get as_record as_number rows normalize_audit_log
  normalize_audit_logs_page raw =
      let root = record_or_empty raw in
      let payload = data_or_self root in
      let found = rows (
        pick payload
          (text "audit_logs" ∷ text "auditLogs" ∷ text "logs" ∷ text "data" ∷ text "items" ∷ [])) in
      let source = pagination_of root payload in
      let logs = map (λ row. normalize_audit_log (object row) (λ id. none)) found in
      record {
        logs = logs;
        limit = number_or source (text "limit") (js.of_nat (length logs));
        offset = number_or source (text "offset") (js.of_nat 0);
        total = number_or source (text "total") (js.of_nat (length logs));
      }

  unfoldable pub normalize_audit_logs : Json N → List (NormalizedAuditLog N)
  normalize_audit_logs raw = (normalize_audit_logs_page raw).logs

abbrev with_name : {N : Type 0} → Option Text → NormalizedAuditLog N → NormalizedAuditLog N
with_name none log = log
with_name (some name) log = record log { camera_name = some name }

-- The names of the map win, and what has none there keeps the name it has.
unfoldable pub enrich_audit_logs_with_camera_names :
    {N : Type 0} → List (NormalizedAuditLog N) → (Text → Option Text) → List (NormalizedAuditLog N)
enrich_audit_logs_with_camera_names logs camera_names =
    map (λ log. with_name (name_of log.camera_id camera_names) log) logs
