-- ===== src/Cameras/Health/Laws.antt =====
-- The stream state of a camera is merged once and for all.
use telecam.Prelude.{◌≡◌, refl, Option, none, some, or_else}
use telecam.Text.{Text, text}
use telecam.Json.Defs.{Json, Engine}
use telecam.Cameras.Types.{NormalizedCameraHealth}
use telecam.Cameras.Read.{keys2, str_at}
use telecam.Cameras.Health.{safe_root, merge_stream_state}

or_else_twice : (a b : Option Text) → or_else a (or_else a b) ≡ or_else a b
or_else_twice none b = refl
or_else_twice (some s) b = refl

module _ {N : Type 0} (js : Engine N) where
  -- Merging the same stream state into the health of a camera again changes nothing.
  pub merge_stream_state_twice :
      (health : NormalizedCameraHealth N) (state : Json N)
      → merge_stream_state js (merge_stream_state js health state) state
        ≡ merge_stream_state js health state
  unfolding merge_stream_state
  merge_stream_state_twice health state =
      let root = safe_root state in
      let wish =
        or_else_twice (str_at root (keys2 (text "desired_state") (text "desiredState")))
          health.desired_state in
      let reason =
        or_else_twice (str_at root (keys2 (text "reason") (text "scheduleReason")))
          health.schedule_reason in
      rw (wish, reason) refl
