-- ===== src/Cameras/Summary.antt =====
-- `computeCameraStatusSummary` of admin-dashboard/lib/admin/camera-monitoring-normalizer.ts.
use telecam.Prelude.{
  ℕ, suc, ◌+◌, ◌≡◌, refl, Bool, true, false, List, [], ◌∷◌, length, filter, arith, Bool-cases, inl,
  inr, ◌∙◌,
}
use telecam.Cameras.Types.{
  CameraOperationalStatus, online, offline, stopped_by_schedule, no_recent_segment, error, disabled,
  unknown, NormalizedCameraStatus, CameraStatusSummary,
}

-- `plus` is the addition of numbers.
module _ {N : Type 0} (plus : N → N → N) (zero_alerts : N) where
  -- One turn of the `switch`.
  unfoldable pub count_status :
      CameraOperationalStatus → CameraStatusSummary N → CameraStatusSummary N
  count_status online s = record s { online = suc s.online }
  count_status offline s = record s { offline = suc s.offline }
  count_status stopped_by_schedule s = record s { stopped_by_schedule = suc s.stopped_by_schedule }
  count_status no_recent_segment s = record s { no_recent_segment = suc s.no_recent_segment }
  count_status error s = record s { error = suc s.error }
  count_status disabled s = record s { disabled = suc s.disabled }
  count_status unknown s = s

  abbrev counting : NormalizedCameraStatus N → CameraStatusSummary N → CameraStatusSummary N
  counting c s = record s { open_alerts = plus s.open_alerts c.open_alerts }

  -- The loop.
  unfoldable pub count_cameras :
      List (NormalizedCameraStatus N) → CameraStatusSummary N → CameraStatusSummary N
  unfolding count_status
  count_cameras [] s = s
  count_cameras (c ∷ cs) s = count_cameras cs (count_status c.status (counting c s))

  abbrev nothing_counted : ℕ → CameraStatusSummary N
  nothing_counted total = record {
    total = total;
    online = 0;
    offline = 0;
    stopped_by_schedule = 0;
    no_recent_segment = 0;
    error = 0;
    disabled = 0;
    open_alerts = zero_alerts;
  }

  unfoldable pub compute_camera_status_summary :
      List (NormalizedCameraStatus N) → CameraStatusSummary N
  unfolding count_cameras
  compute_camera_status_summary cameras = count_cameras cameras (nothing_counted (length cameras))

  abbrev pub is_unknown : CameraOperationalStatus → Bool
  is_unknown unknown = true
  is_unknown _ = false

  -- The sum of the counts.
  abbrev pub counted : CameraStatusSummary N → ℕ
  counted s =
      s.online + s.offline + s.stopped_by_schedule + s.no_recent_segment + s.error + s.disabled

  abbrev pub unknowns : List (NormalizedCameraStatus N) → ℕ
  unknowns cs = length (filter (λ c. is_unknown c.status) cs)

  counted-count_status :
      (status : CameraOperationalStatus) (s : CameraStatusSummary N)
      → is_unknown status ≡ false
      → counted (count_status status s) ≡ suc (counted s)
  unfolding count_status
  counted-count_status unknown s h = cc
  counted-count_status online s h = omega arith
  counted-count_status offline s h = omega arith
  counted-count_status stopped_by_schedule s h = omega arith
  counted-count_status no_recent_segment s h = omega arith
  counted-count_status error s h = omega arith
  counted-count_status disabled s h = omega arith

  total-count_status :
      (status : CameraOperationalStatus) (s : CameraStatusSummary N)
      → (count_status status s).total ≡ s.total
  unfolding count_status
  total-count_status online s = refl
  total-count_status _ s = refl

  total-count_cameras :
      (cs : List (NormalizedCameraStatus N)) (s : CameraStatusSummary N)
      → (count_cameras cs s).total ≡ s.total
  unfolding count_cameras
  total-count_cameras [] s = refl
  total-count_cameras (c ∷ cs) s =
      total-count_cameras cs (count_status c.status (counting c s))
      ∙ total-count_status c.status (counting c s)

  unknown-eq : (status : CameraOperationalStatus) → is_unknown status ≡ true → status ≡ unknown
  unknown-eq unknown h = refl
  unknown-eq _ h = cc

  count_status-unknown :
      (status : CameraOperationalStatus) (s : CameraStatusSummary N)
      → is_unknown status ≡ true
      → counted (count_status status s) ≡ counted s
  unfolding count_status
  count_status-unknown status s h = rw (unknown-eq status h, count_status) refl

  counted-count_cameras :
      (cs : List (NormalizedCameraStatus N)) (s : CameraStatusSummary N)
      → counted (count_cameras cs s) + unknowns cs ≡ counted s + length cs
  unfolding count_cameras
  counted-count_cameras [] s = omega arith
  counted-count_cameras (c ∷ cs) s =
      let rest = counted-count_cameras cs (count_status c.status (counting c s)) in
      elim (Bool-cases (is_unknown c.status)) [
        | inl e ↦
            let same = count_status-unknown c.status (counting c s) e in
            let skipped : unknowns (c ∷ cs) ≡ suc (unknowns cs) = ground arith in omega arith
        | inr e ↦
            let more = counted-count_status c.status (counting c s) e in
            let skipped : unknowns (c ∷ cs) ≡ unknowns cs = ground arith in omega arith
      ]

  -- Every camera is in the total, and the six counts and the cameras of unknown status add up to
  -- the number of cameras.
  pub compute_camera_status_summary-counts :
      (cs : List (NormalizedCameraStatus N))
      → ((compute_camera_status_summary cs).total ≡ length cs)
        × (counted (compute_camera_status_summary cs) + unknowns cs ≡ length cs)
  unfolding compute_camera_status_summary
  compute_camera_status_summary-counts cs =
      let start = nothing_counted (length cs) in
      let sum = counted-count_cameras cs start in (total-count_cameras cs start, omega arith)
