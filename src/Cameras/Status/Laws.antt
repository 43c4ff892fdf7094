-- ===== src/Cameras/Status/Laws.antt =====
-- What the decision on a camera's status comes down to.
use telecam.Prelude.{◌≡◌, refl, Bool, true, false, not, ◌&&◌, ◌||◌, [], ◌∷◌, if◌then◌else◌}
use telecam.Text.{Text, text, text_eq, includes, is_empty}
use telecam.Text.Laws.{text_eq_iff}
use telecam.Cameras.Types.{
  CameraOperationalStatus, online, offline, stopped_by_schedule, no_recent_segment, error, disabled,
  unknown,
}
use telecam.Cameras.Status.{Signals, decide_status}

-- What a camera that reports itself as ACTIVE is, by what the schedule wants of it.
abbrev pub of_desired : Text → CameraOperationalStatus
of_desired desired =
    if is_empty desired
    then online
    else if text_eq desired (text "STOPPED")
    then stopped_by_schedule
    else if text_eq desired (text "RUNNING")
    then online
    else unknown

-- The decision without the tests that others imply.
unfoldable pub reference_status : Signals → CameraOperationalStatus
unfolding text_eq includes
reference_status s =
    if text_eq s.status (text "DISABLED")
    then disabled
    else if text_eq s.status (text "ERROR")
    then error
    else if text_eq s.status (text "OFFLINE")
    then offline
    else if text_eq s.status (text "NO_SEGMENT_UPLOADED")
        || includes s.last_event (text "NO_SEGMENT")
    then no_recent_segment
    else if text_eq s.status (text "ONLINE")
    then (if text_eq s.desired (text "STOPPED") && not (is_empty s.reason)
        then stopped_by_schedule
        else online)
    else if text_eq s.status (text "ACTIVE")
    then of_desired s.desired
    else unknown

active_not_online :
    (s : Text) → text_eq s (text "ACTIVE") ≡ true → text_eq s (text "ONLINE") ≡ false
active_not_online s h = rw ((text_eq_iff s (text "ACTIVE")).0 h) (unfold text_eq in refl)

-- The four tests of the reason come down to whether there is one.
abbrev reason_test : Text → Bool
reason_test reason =
    includes reason (text "WEEKEND")
    || (includes reason (text "OUTSIDE_SCHEDULE")
        || (includes reason (text "SCHEDULE") || not (is_empty reason)))

some_test : (a b c : Bool) → (a || (b || (c || true))) ≡ true
some_test true b c = refl
some_test false true c = refl
some_test false false true = refl
some_test false false false = refl

reason_test-eq : (reason : Text) → reason_test reason ≡ not (is_empty reason)
reason_test-eq [] = unfold includes in refl
reason_test-eq (c ∷ reason) =
    some_test (includes (c ∷ reason) (text "WEEKEND"))
      (includes (c ∷ reason) (text "OUTSIDE_SCHEDULE")) (includes (c ∷ reason) (text "SCHEDULE"))

empty_not_stopped : (d : Text) → is_empty d ≡ true → text_eq d (text "STOPPED") ≡ false
unfolding text_eq
empty_not_stopped [] h = refl
empty_not_stopped (c ∷ d) h = cc

-- The tests behind the first four, for a camera that is not both ACTIVE and ONLINE.
reported-eq :
    (is_online is_active is_stopped is_running is_reason no_wish : Bool)
    → (is_active ≡ true → is_online ≡ false)
    → (no_wish ≡ true → is_stopped ≡ false)
    → (if (is_active || is_online) && (is_stopped && is_reason)
        then stopped_by_schedule
        else if is_active && is_stopped
        then stopped_by_schedule
        else if is_online || (is_active && is_running)
        then online
        else if is_active && no_wish
        then online
        else unknown)
      ≡ (if is_online
          then (if is_stopped && is_reason then stopped_by_schedule else online)
          else if is_active
          then (if no_wish
              then online
              else if is_stopped
              then stopped_by_schedule
              else if is_running
              then online
              else unknown)
          else unknown)
reported-eq true true is_stopped is_running is_reason no_wish h k = let e = h refl in cc
reported-eq true false true is_running true no_wish h k = refl
reported-eq true false true is_running false no_wish h k = refl
reported-eq true false false is_running is_reason no_wish h k = refl
reported-eq false false is_stopped is_running is_reason no_wish h k = refl
reported-eq false true true is_running is_reason true h k = let e = k refl in cc
reported-eq false true true is_running true false h k = refl
reported-eq false true true is_running false false h k = refl
reported-eq false true false true is_reason true h k = refl
reported-eq false true false false is_reason true h k = refl
reported-eq false true false true is_reason false h k = refl
reported-eq false true false false is_reason false h k = refl

-- The status of a camera is the shorter decision that asks of the schedule's reason only whether
-- there is one, and for a camera that reports ACTIVE only what the schedule wants.
pub decide_status-eq : (s : Signals) → decide_status s ≡ reference_status s
unfolding decide_status reference_status
decide_status-eq s = rw (
  reason_test-eq s.reason,
  reported-eq (text_eq s.status (text "ONLINE")) (text_eq s.status (text "ACTIVE"))
      (text_eq s.desired (text "STOPPED")) (text_eq s.desired (text "RUNNING"))
      (not (is_empty s.reason)) (is_empty s.desired) (active_not_online s.status)
      (empty_not_stopped s.desired),
)
