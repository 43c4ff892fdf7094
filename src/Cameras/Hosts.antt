-- ===== src/Cameras/Hosts.antt =====
-- The hosts of camera streams: `isPrivateOrTailscaleHost` and `getRtspHostWarning` of
-- admin-dashboard/lib/rtsp-validation.ts. `parse_url` is the protocol and the host name that
-- `new URL` reads, or none where it throws.
use telecam.Prelude.{
  ℕ, Bool, true, false, not, ◌&&◌, ◌||◌, List, [], ◌∷◌, all, Option, none, some, leb, ◌==◌,
  if◌then◌else◌,
}
use telecam.Text.{Text, text, text_eq, is_empty}
use telecam.Text.Digits.{is_digit, number_from, split_dots}
use telecam.Json.Defs.{Engine}
use telecam.Json.Case.{lower}

-- `/^\d+$/`
abbrev is_number : Text → Bool
is_number s = not (is_empty s) && all is_digit s

abbrev in_private_range : ℕ → ℕ → Bool
in_private_range a b =
    if a == 10
    then true
    else if a == 172 && (leb 16 b && leb b 31)
    then true
    else if a == 192 && b == 168
    then true
    else a == 100 && (leb 64 b && leb b 127)

-- Four numbers; nothing else is private.
abbrev private_parts : List Text → Bool
private_parts (a ∷ b ∷ c ∷ d ∷ []) =
    if is_number a && (is_number b && (is_number c && is_number d))
    then in_private_range (number_from 0 a) (number_from 0 b)
    else false
private_parts _ = false

module _ {N : Type 0} (js : Engine N) where
  unfoldable pub is_private_or_tailscale_host : Text → Bool
  unfolding lower text_eq split_dots
  is_private_or_tailscale_host host =
      let h = lower js host in
      if text_eq h (text "localhost") || (text_eq h (text "127.0.0.1") || text_eq h (text "::1"))
      then false
      else private_parts (split_dots h)

  abbrev warning_of : Option (Text × Text) → Option Text
  warning_of none = none
  warning_of (some (protocol, host)) =
      if not (text_eq protocol (text "rtsp:"))
      then none
      else if text_eq host (text "localhost") || text_eq host (text "127.0.0.1")
      then some
          (text "localhost/127.0.0.1 is usually not reachable from the server unless intentional.")
      else if not (is_private_or_tailscale_host host)
      then some (
          text
            "Public IP detected. For production, use Tailscale/private IP instead of public RTSP.")
      else none

  unfoldable pub get_rtsp_host_warning : (Text → Option (Text × Text)) → Text → Option Text
  unfolding is_private_or_tailscale_host text_eq
  get_rtsp_host_warning parse_url url = warning_of (parse_url url)
