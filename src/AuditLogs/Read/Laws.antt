-- ===== src/AuditLogs/Read/Laws.antt =====
-- What is read as an audit log.
use telecam.Prelude.{List, [], ◌∷◌, map, Option, none, some, All}
use telecam.Text.{Text}
use telecam.Json.Defs.{
  Json, undefined, null, boolean, number, string, array, object, Fields, Engine,
}
use telecam.Json.Clean.{IsClean}
use telecam.Cameras.Read.{rows}
use telecam.AuditLogs.Clean.{Hides, sanitize_metadata_record-Hides}
use telecam.AuditLogs.Logs.{NormalizedAuditLog}
use telecam.AuditLogs.Read.{
  metadata_of, normalize_audit_log, normalize_audit_logs_page, enrich_audit_logs_with_camera_names,
  name_of, with_name,
}

module _ {N : Type 0} (js : Engine N) where
  abbrev pub HidesMetadata : NormalizedAuditLog N → Type 0
  HidesMetadata log = Hides js log.metadata

  pub metadata_of-Hides : (v : Json N) → Hides js (metadata_of js v)
  unfolding metadata_of IsClean
  metadata_of-Hides (object fs) = sanitize_metadata_record-Hides js (object fs)
  metadata_of-Hides (array vs) = sanitize_metadata_record-Hides js (array vs)
  metadata_of-Hides undefined = tt
  metadata_of-Hides null = tt
  metadata_of-Hides (boolean b) = tt
  metadata_of-Hides (number n) = tt
  metadata_of-Hides (string s) = tt

  normalize_audit_log-HidesMetadata :
      (raw : Json N) (names : Text → Option Text) → HidesMetadata (normalize_audit_log js raw names)
  unfolding normalize_audit_log
  normalize_audit_log-HidesMetadata raw names = metadata_of-Hides _

  read-HideMetadata :
      (names : Text → Option Text) (found : List (Fields N))
      → All HidesMetadata (map (λ row. normalize_audit_log js (object row) names) found)
  read-HideMetadata names [] = tt
  read-HideMetadata names (row ∷ found) =
      (normalize_audit_log-HidesMetadata (object row) names, read-HideMetadata names found)

  with_name-HidesMetadata :
      (o : Option Text) (log : NormalizedAuditLog N)
      → HidesMetadata log
      → HidesMetadata (with_name o log)
  with_name-HidesMetadata none log h = h
  with_name-HidesMetadata (some name) log h = h

  pub enriched-HideMetadata :
      (names : Text → Option Text) (logs : List (NormalizedAuditLog N))
      → All HidesMetadata logs
      → All HidesMetadata (enrich_audit_logs_with_camera_names logs names)
  unfolding enrich_audit_logs_with_camera_names
  enriched-HideMetadata names [] h = tt
  enriched-HideMetadata names (log ∷ logs) (h, hs) = (
    with_name-HidesMetadata (name_of log.camera_id names) log h,
    enriched-HideMetadata names logs hs,
  )

  pub normalize_audit_logs_page-HideMetadata :
      (raw : Json N) → All HidesMetadata (normalize_audit_logs_page js raw).logs
  unfolding normalize_audit_logs_page
  normalize_audit_logs_page-HideMetadata raw = read-HideMetadata (λ id. none) (rows _)
