-- ===== src/AuditLogs/Tests.antt =====
-- Metadata with secrets in an array and in a nested object.
use telecam.Prelude.{some, [], ◌∷◌, none, length, ◌≡◌, refl, ℕ}
use telecam.Text.{text, text_eq, includes, decimal, starts_with, utf16_length}
use telecam.Json.Defs.{
  null, Json, object, string, number, array, cons, nil, field, end, insert, assign,
}
use telecam.Json.Case.{lower}
use telecam.Json.Examples.{small_engine}
use telecam.Session.World.{Env}
use telecam.Session.SignedIn.{Triple, Anything}
use telecam.AuditLogs.Requests.{get_audit_logs, get_audit_logs-Hidden, Hidden, no_filters}
use telecam.AuditLogs.Sanitize.{
  sanitize_metadata_record, sanitize_fields, is_sensitive_metadata_key, mask,
}
use telecam.AuditLogs.Logs.{NormalizedAuditLog, playback, no_logs, compute_audit_logs_summary}
use telecam.AuditLogs.Logs.Laws.{IsCount, compute_audit_logs_summary-IsCount}

abbrev metadata : Json ℕ
metadata = object (
    field (text "camera") (string (text "front gate")) (
      field (text "list")
        (array (cons (object (field (text "API_Key") (string (text "k1")) end)) nil))
        (field (text "password") (number 7) end)))

metadata_sanitized :
    sanitize_metadata_record small_engine metadata
    ≡ object (
        field (text "camera") (string (text "front gate")) (
          field
            (text "list")
            (array (cons (object (field (text "API_Key") (string mask) end)) nil))
            (field (text "password") (string mask) end)))
unfolding sanitize_metadata_record sanitize_fields is_sensitive_metadata_key assign insert text_eq
    lower includes starts_with decimal utf16_length
metadata_sanitized = refl

abbrev denied_log : NormalizedAuditLog ℕ
denied_log = record {
  id = text "l1";
  action = text "playback_access_denied";
  category = playback;
  user_id = none;
  user_name = none;
  user_email = none;
  user_role = none;
  school_id = none;
  school_name = none;
  camera_id = none;
  camera_name = none;
  ip_address = none;
  user_agent = none;
  request_id = none;
  metadata = null;
  created_at = none;
}

compute_audit_logs_summary-IsCount_example :
    IsCount small_engine
      (no_logs small_engine (length (denied_log ∷ [])))
      (denied_log ∷ [])
      (compute_audit_logs_summary small_engine (denied_log ∷ []))
compute_audit_logs_summary-IsCount_example =
    compute_audit_logs_summary-IsCount small_engine (denied_log ∷ [])

abbrev empty_server : Env ℕ
empty_server = record {
  js = small_engine;
  server = λ sent request. some (record { status = 200; text = text "{}" });
  api_base_url = text "https://x";
  app_name = text "d";
  fresh_fingerprint = λ sent. text "f";
}

-- The logs of a server that answers with an empty object.
get_audit_logs-Hidden_example :
    Triple Anything
      (get_audit_logs empty_server
        (λ ps. text "limit=50")
        no_filters
        (some (λ id. some (text "front gate"))))
      (Hidden empty_server (λ ps. text "limit=50"))
get_audit_logs-Hidden_example =
    get_audit_logs-Hidden empty_server (λ ps. text "limit=50") no_filters
      (some (λ id. some (text "front gate")))
