-- ===== src/System/Read/Laws.antt =====
-- What is read of the retention and of the workers.
use telecam.Prelude.{
  ℕ, ◌≡◌, ◌≢◌, refl, ◌↔◌, Bool, true, false, ◌||◌, List, [], ◌∷◌, map, Option, none, some, All,
  arith, Bool-cases, if◌then◌else◌, inl, inr,
}
use telecam.Text.{Text, text, text_eq}
use telecam.Text.Laws.{text_eq_sound}
use telecam.Json.Defs.{Json, Fields, object, Engine}
use telecam.Cameras.Read.{record_or_empty, unwrap_record}
use telecam.AuditLogs.Clean.{Hides}
use telecam.AuditLogs.Read.Laws.{metadata_of-Hides}
use telecam.System.Types.{SystemStatus, healthy, warning, critical, NormalizedRetentionStatus}
use telecam.System.Health.{retention_system_status}
use telecam.System.Read.{
  WorkerReading, normalize_worker, normalize_workers, worker_rows, decide_retention, read_retention,
  is_present, status_text, normalize_retention_status,
}

-- A status, in upper case, that says that the worker is up.
abbrev pub is_up : Text → Bool
is_up status = text_eq status (text "RUNNING") || text_eq status (text "HEALTHY")

module _ (js : Engine ℕ) (number_of : Text → Option ℕ) (to_text : Json ℕ → Text) where
  abbrev pub HidesMetadata : WorkerReading → Type 0
  HidesMetadata reading = Hides js reading.metadata

  read-HideMetadata :
      (found : List (Fields ℕ))
      → All HidesMetadata (map (λ row. normalize_worker js number_of to_text (object row)) found)
  unfolding normalize_worker
  read-HideMetadata [] = tt
  read-HideMetadata (row ∷ found) = (metadata_of-Hides js _, read-HideMetadata found)

  -- Whatever the answer, the metadata of every worker that is read holds nothing but the mask
  -- under a sensitive key, at any depth.
  pub normalize_workers-HideMetadata :
      (raw : Json ℕ) → All HidesMetadata (normalize_workers js number_of to_text raw)
  unfolding normalize_workers
  normalize_workers-HideMetadata raw =
      read-HideMetadata (worker_rows js number_of to_text (unwrap_record raw))

  retention_system_status-not_healthy :
      (r : NormalizedRetentionStatus)
      → r.status ≡ SystemStatus.unknown
      → retention_system_status js (some r) ≢ healthy
  unfolding retention_system_status
  retention_system_status-not_healthy r h = ground arith

  -- A text that says that the worker is up says nothing else.
  up_excludes :
      (status : Text)
      → is_up status ≡ true
      → (text_eq status (text "ERROR") ≡ false) × (text_eq status (text "UNKNOWN") ≡ false)
  up_excludes status h = elim (Bool-cases (text_eq status (text "RUNNING"))) [
    | inl e ↦ rw (text_eq_sound status (text "RUNNING") e) (unfold text_eq in (refl, refl))
    | inr e ↦
        let f : text_eq status (text "HEALTHY") ≡ true = ground arith in
        rw (text_eq_sound status (text "HEALTHY") f) (unfold text_eq in (refl, refl))
  ]

  ladder-healthy_iff :
      (bad gone told up late : Bool) (x : SystemStatus)
      → x ≢ healthy
      → (up ≡ true → (bad ≡ false) × (gone ≡ false))
      → ((if bad
            then critical
            else if gone || told
            then x
            else if up
            then healthy
            else if late
            then warning
            else x)
          ≡ healthy)
        ↔ ((up ≡ true) × (told ≡ false))
  ladder-healthy_iff bad gone told up late x n h = ground arith

  absent_iff : (o : Option Text) → (is_present js number_of to_text o ≡ false) ↔ (o ≡ none)
  absent_iff none = (λ _. refl, λ _. refl)
  absent_iff (some s) = (λ e. cc, λ e. cc)

  decide_retention-healthy_iff :
      (status : Text) (r : NormalizedRetentionStatus)
      → r.status ≡ SystemStatus.unknown
      → (decide_retention js number_of to_text status r ≡ healthy)
        ↔ ((is_up status ≡ true) × (r.message ≡ none))
  unfolding decide_retention
  decide_retention-healthy_iff status r h =
      let ladder =
        ladder-healthy_iff (text_eq status (text "ERROR")) (text_eq status (text "UNKNOWN"))
          (is_present js number_of to_text r.message) (is_up status)
          (text_eq status (text "STALE") || text_eq status (text "DEGRADED"))
          (retention_system_status js (some r)) (retention_system_status-not_healthy r h)
          (up_excludes status) in
      let absent = absent_iff r.message in
      (λ e. ((ladder.0 e).0, absent.0 (ladder.0 e).1), λ (u, m). ladder.1 (u, absent.1 m))

  -- The retention is read as healthy exactly when its status is RUNNING or HEALTHY in any case and
  -- there is no message.
  pub normalize_retention_status-healthy_iff :
      (raw : Json ℕ)
      → ((normalize_retention_status js number_of to_text raw).status ≡ healthy) ↔ (
          (is_up (status_text js number_of to_text (record_or_empty (unwrap_record raw))) ≡ true)
          × ((normalize_retention_status js number_of to_text raw).message ≡ none))
  unfolding normalize_retention_status read_retention
  normalize_retention_status-healthy_iff raw =
      decide_retention-healthy_iff
        (status_text js number_of to_text (record_or_empty (unwrap_record raw)))
        (read_retention js number_of to_text (record_or_empty (unwrap_record raw))) refl
