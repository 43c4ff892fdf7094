-- ===== src/Alerts/Sanitize.antt =====
-- `sanitizeMetadata` of admin-dashboard/lib/admin/alerts-normalizer.ts.
use telecam.Prelude.{Bool, true, false, ◌&&◌, ◌||◌, List, [], ◌∷◌, map, any, ◌==◌, if◌then◌else◌}
use telecam.Text.{Text, text, starts_with, includes, ascii_lower}
use telecam.Json.Defs.{
  Json, undefined, null, boolean, number, string, array, object, Fields, end, field, assign,
}

-- The alternatives of `SENSITIVE_KEY_PATTERN`.
abbrev pub sensitive_words : List Text
sensitive_words = map text (
    "token" ∷ "secret" ∷ "password" ∷ "key" ∷ "rtsp" ∷ "url" ∷ "signed" ∷ "credential"
    ∷ "authorization" ∷ "chat_id" ∷ "recipient" ∷ [])

-- `SENSITIVE_KEY_PATTERN.test(key)`, in any case
unfoldable pub is_sensitive_key : Text → Bool
unfolding includes ascii_lower
is_sensitive_key key = any (includes (map ascii_lower key)) sensitive_words

-- Eight bullets.
abbrev pub alert_mask : Text
alert_mask = text "••••••••"

abbrev pub ends_line : Text → Bool
ends_line [] = true
ends_line (c ∷ s) = c == 10 || c == 13 || c == 0x2028 || c == 0x2029

-- What `.*` can run over: the text up to the end of its line.
unfoldable pub first_line : Text → Text
first_line [] = []
first_line (c ∷ s) = let rest = first_line s in if ends_line (c ∷ s) then [] else c ∷ rest

-- A question mark with `sig=` behind it.
unfoldable pub has_signature : Text → Bool
unfolding includes
has_signature [] = false
has_signature (c ∷ s) =
    let later = has_signature s in (c == b'?' && includes s (text "sig=")) || later

abbrev behind_first : Text → Bool
behind_first [] = false
behind_first (c ∷ s) = has_signature s

-- What is left of a text behind a prefix, if it has the prefix.
unfoldable pub signed_behind : Text → Text → Bool
unfolding has_signature first_line
signed_behind s [] = behind_first (first_line s)
signed_behind [] (d ∷ p) = false
signed_behind (c ∷ s) (d ∷ p) = let rest = signed_behind s p in c == d && rest

-- `/^rtsp:/i.test(value) || /^https?:\/\/.+\?.*sig=/i.test(value)`
unfoldable pub is_sensitive_text : Text → Bool
unfolding starts_with signed_behind ascii_lower
is_sensitive_text value =
    let lowered = map ascii_lower value in
    starts_with lowered (text "rtsp:")
    || (signed_behind lowered (text "http://") || signed_behind lowered (text "https://"))

module _ {N : Type 0} where
  unfoldable mutual
    -- The value that the loop assigns to a key that is not sensitive.
    pub sanitize_value : Json N → Json N
    sanitize_value (object fs) = object (sanitize_metadata fs end)
    sanitize_value (string s) = string (if is_sensitive_text s then alert_mask else s)
    sanitize_value undefined = undefined
    sanitize_value null = null
    sanitize_value (boolean b) = boolean b
    sanitize_value (number n) = number n
    sanitize_value (array vs) = array vs

    -- The loop, from the properties assigned so far.
    pub sanitize_metadata : Fields N → Fields N → Fields N
    sanitize_metadata end out = out
    sanitize_metadata (field key v fs) out =
        let clean = sanitize_value v in
        sanitize_metadata fs (
          if is_sensitive_key key then assign key (string alert_mask) out else assign key clean out)
