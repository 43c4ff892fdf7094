-- ===== src/Alerts/Requests.antt =====
-- Fetching and changing alerts: admin-dashboard/lib/admin/alerts-api.ts. `to_text` is `String`,
-- `encode` is `encodeURIComponent`.
use telecam.Prelude.{
  ◌||◌, ◌==◌, ◌++◌, List, [], ◌∷◌, Option, none, some, get_or, ℕ, All, if◌then◌else◌, Bool-cases,
  inl, inr,
}
use telecam.Text.{Text, text, text_eq, decimal}
use telecam.Json.Defs.{Json, unwrap_payload}
use telecam.Json.Case.{upper}
use telecam.Session.World.{
  World, Env, M, Failure, api_error, other_error, network_error, pure, throw, catch_with,
}
use telecam.Session.SignedIn.{Triple, Anything, pure-Triple, throw-Triple, catch_with-Triple}
use telecam.Session.Queries.{set_if, set_unless_all, query_of, fetch_and, fetch_and-Triple}
use telecam.Alerts.Types.{AlertFilters, AlertsListResult, NormalizedAlert, NormalizedAlertDelivery}
use telecam.Alerts.Read.{normalize_alert, normalize_alerts_list, normalize_alert_deliveries}
use telecam.Alerts.Read.Laws.{
  MasksMetadata, normalize_alerts_list-MaskMetadata, IsMasked, normalize_alert_deliveries-AreMasked,
}

module _ {N : Type 0} (env : Env N) (to_text : Json N → Text)
    (search_params : List (Text × Text) → Text) (encode : Text → Text) where
  -- `if (offset !== undefined) query.set("offset", String(offset))`
  abbrev set_offset : Option ℕ → List (Text × Text)
  set_offset none = []
  set_offset (some n) = (text "offset", decimal n) ∷ []

  unfoldable pub build_alerts_query : AlertFilters → Text
  unfolding decimal text_eq upper
  build_alerts_query p = query_of (
      search_params (
        (text "limit", decimal (get_or p.limit 500))
        ∷ (set_offset p.offset
            ++ (set_unless_all (text "status") p.status (upper env.js)
                ++ (set_unless_all (text "severity") p.severity (upper env.js)
                    ++ (set_unless_all (text "alert_type") p.alert_type (λ s. s)
                        ++ (set_if (text "school_id") p.school_id
                            ++ set_if (text "camera_id") p.camera_id)))))))

  unfoldable pub get_alerts : AlertFilters → M N (AlertsListResult N)
  get_alerts p =
      fetch_and env (text "/admin/alerts" ++ build_alerts_query p) (text "GET")
        (normalize_alerts_list env.js to_text)

  abbrev alert_path : Text → Text → Text
  alert_path id action = text "/admin/alerts/" ++ (encode id ++ action)

  abbrev patch_alert : Text → Text → M N (NormalizedAlert N)
  patch_alert id action =
      fetch_and env (alert_path id action) (text "PATCH")
        (λ raw. normalize_alert env.js to_text (unwrap_payload raw))

  unfoldable pub acknowledge_alert : Text → M N (NormalizedAlert N)
  acknowledge_alert id = patch_alert id (text "/acknowledge")

  unfoldable pub resolve_alert : Text → M N (NormalizedAlert N)
  resolve_alert id = patch_alert id (text "/resolve")

  -- Without permission or without the route there are no deliveries.
  abbrev pub no_deliveries : Failure N → M N (List (NormalizedAlertDelivery N))
  no_deliveries (api_error message status body) =
      if status == 403 || status == 404 then pure [] else throw (api_error message status body)
  no_deliveries (other_error message) = throw (other_error message)
  no_deliveries network_error = throw network_error

  unfoldable pub get_alert_deliveries : M N (List (NormalizedAlertDelivery N))
  get_alert_deliveries =
      catch_with
        (fetch_and env (text "/admin/alert-deliveries") (text "GET")
          (normalize_alert_deliveries env.js to_text))
        no_deliveries

  -- What is shown of what the server answers.
  abbrev pub MaskedAlerts : AlertsListResult N → World → Type 0
  MaskedAlerts result v = All (MasksMetadata env.js to_text) result.alerts

  abbrev pub MaskedDeliveries : List (NormalizedAlertDelivery N) → World → Type 0
  MaskedDeliveries ds v = All (IsMasked env.js to_text) ds

  -- Whatever the server answers, the alerts that the request returns hold nothing but the mask
  -- under a sensitive key of their metadata, at any depth outside of arrays, also where the
  -- metadata came as a text.
  pub get_alerts-Masked : (p : AlertFilters) → Triple Anything (get_alerts p) MaskedAlerts
  unfolding get_alerts
  get_alerts-Masked p =
      fetch_and-Triple env (text "/admin/alerts" ++ build_alerts_query p) (text "GET")
        (normalize_alerts_list env.js to_text)
        (λ raw w. normalize_alerts_list-MaskMetadata env.js to_text raw)

  no_deliveries-Masked : (e : Failure N) → Triple Anything (no_deliveries e) MaskedDeliveries
  no_deliveries-Masked (api_error message status body) =
      elim (Bool-cases (status == 403 || status == 404)) [
        | inl e ↦ rw e (pure-Triple [] (λ w _. tt))
        | inr e ↦ rw e (throw-Triple (api_error message status body))
      ]
  no_deliveries-Masked (other_error message) = throw-Triple (other_error message)
  no_deliveries-Masked network_error = throw-Triple network_error

  -- Whatever the server answers, every delivery that the request returns names its alert, and on a
  -- channel whose name mentions telegram, in any case, a recipient that is not empty is the mask.
  pub get_alert_deliveries-Masked : Triple Anything get_alert_deliveries MaskedDeliveries
  unfolding get_alert_deliveries
  get_alert_deliveries-Masked =
      catch_with-Triple
        (fetch_and-Triple env (text "/admin/alert-deliveries") (text "GET")
          (normalize_alert_deliveries env.js to_text)
          (λ raw w. normalize_alert_deliveries-AreMasked env.js to_text raw))
        no_deliveries-Masked
