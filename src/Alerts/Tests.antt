-- ===== src/Alerts/Tests.antt =====
-- Metadata with a secret in an array.
use telecam.Prelude.{ℕ, ◌≡◌, refl, List, [], ◌∷◌, none, some, count, if◌then◌else◌}
use telecam.Text.{Text, ascii_lower, text, text_eq, includes, starts_with}
use telecam.Json.Defs.{
  Json, Engine, object, string, array, Items, cons, nil, Fields, field, end, assign, insert,
  as_record, get, has,
}
use telecam.Json.Case.{lower}
use telecam.Json.Examples.{small_engine}
use telecam.Session.World.{Env}
use telecam.Session.SignedIn.{Triple, Anything}
use telecam.Alerts.Sanitize.{sanitize_metadata, is_sensitive_key, is_sensitive_text, alert_mask}
use telecam.Alerts.Types.{AlertFilters}
use telecam.Alerts.Read.{normalize_alert, normalize_alert_delivery, mask_recipient}
use telecam.Alerts.Summary.{
  IsCount, no_alerts, is_failed, map_delivery_display_status, compute_alerts_summary,
  compute_alerts_summary-counts,
}
use telecam.Alerts.Requests.{
  get_alerts, get_alerts-Masked, MaskedAlerts, get_alert_deliveries, get_alert_deliveries-Masked,
  MaskedDeliveries,
}
use telecam.Alerts.Lookup.{HasDistinctKeys, shown, get-sanitize_metadata}

abbrev secrets : Items ℕ
secrets = cons (object (field (text "token") (string (text "t1")) end)) nil

abbrev metadata : Fields ℕ
metadata =
    field (text "link") (string (text "HTTPS://h/a?x=1&sig=2"))
      (field (text "Token") (string (text "t0")) (field (text "list") (array secrets) end))

metadata_sanitized :
    sanitize_metadata metadata end
    ≡ field
        (text "link")
        (string alert_mask)
        (field (text "Token") (string alert_mask) (field (text "list") (array secrets) end))
unfolding sanitize_metadata is_sensitive_key is_sensitive_text assign insert text_eq includes
    starts_with
metadata_sanitized = refl

metadata-HasDistinctKeys : HasDistinctKeys metadata
unfolding has text_eq
metadata-HasDistinctKeys = assumption refl

-- The token in the array is shown.
list_is_shown : shown metadata (text "list") ≡ array secrets
unfolding has get text_eq includes ascii_lower
list_is_shown = refl

get-sanitize_metadata_example :
    get (sanitize_metadata metadata end) (text "list") ≡ shown metadata (text "list")
get-sanitize_metadata_example =
    get-sanitize_metadata metadata (text "list") metadata-HasDistinctKeys

-- A server that answers every request with one alert whose metadata is a text.
abbrev alert_engine : Engine ℕ
alert_engine = record small_engine {
  parse = λ s.
      if text_eq s (text "answer")
      then some (array (cons (object (field (text "metadata") (string (text "{}")) end)) nil))
      else some (object metadata);
}

abbrev answering : Env ℕ
answering = record {
  js = alert_engine;
  server = λ sent request. some (record { status = 200; text = text "answer" });
  api_base_url = text "https://x";
  app_name = text "d";
  fresh_fingerprint = λ sent. text "f";
}

abbrev one_parameter : List (Text × Text) → Text
one_parameter ps = text "limit=500"

abbrev same_text : Text → Text
same_text s = s

abbrev plain : Json ℕ → Text
plain v = []

abbrev everything : AlertFilters
everything = record {
  status = none;
  severity = none;
  alert_type = none;
  school_id = none;
  camera_id = none;
  search = none;
  limit = none;
  offset = none;
}

get_alerts-Masked_example :
    Triple Anything
      (get_alerts answering plain one_parameter same_text everything)
      (MaskedAlerts answering plain one_parameter same_text)
get_alerts-Masked_example = get_alerts-Masked answering plain one_parameter same_text everything

get_alert_deliveries-Masked_example :
    Triple Anything
      (get_alert_deliveries answering plain one_parameter same_text)
      (MaskedDeliveries answering plain one_parameter same_text)
get_alert_deliveries-Masked_example =
    get_alert_deliveries-Masked answering plain one_parameter same_text

abbrev delivery : Json ℕ
delivery = object (
    field (text "alert_id") (string (text "a1")) (
      field (text "channel") (string (text "Telegram")) (
        field (text "recipient") (string (text "@guard"))
          (field (text "status") (string (text "failed")) end))))

delivery-masked : (normalize_alert_delivery small_engine plain delivery).recipient ≡ some alert_mask
unfolding normalize_alert_delivery mask_recipient lower includes as_record text_eq
delivery-masked = refl

compute_alerts_summary-counts_example :
    IsCount
      (text "2026-01-01")
      (no_alerts small_engine (
        count
          (λ d. is_failed small_engine (map_delivery_display_status small_engine d.status))
          (normalize_alert_delivery small_engine plain delivery ∷ [])))
      (normalize_alert small_engine plain delivery ∷ [])
      (compute_alerts_summary small_engine
        (text "2026-01-01")
        (normalize_alert small_engine plain delivery ∷ [])
        (normalize_alert_delivery small_engine plain delivery ∷ []))
compute_alerts_summary-counts_example =
    compute_alerts_summary-counts small_engine (text "2026-01-01")
      (normalize_alert small_engine plain delivery ∷ [])
      (normalize_alert_delivery small_engine plain delivery ∷ [])
