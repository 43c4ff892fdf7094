-- ===== src/Alerts/Filter.antt =====
-- The search of the alerts and the names of their schools, of
-- admin-dashboard/lib/admin/alerts-normalizer.ts.
use telecam.Prelude.{
  Bool, true, false, not, ◌||◌, List, [], ◌∷◌, map, filter, Option, none, some, or_else,
  if◌then◌else◌,
}
use telecam.Text.{Text, text, text_eq, is_empty, trim, includes}
use telecam.Json.Defs.{Engine}
use telecam.Json.Case.{lower}
use telecam.Search.{haystack_of}
use telecam.Alerts.Types.{NormalizedAlert, AlertFilters, severity_name, alert_status_name}

abbrev same : Option Text → Text → Bool
same none value = false
same (some s) value = text_eq s value

module _ {N : Type 0} (js : Engine N) where
  -- `!(wanted && wanted !== "all") || name === f(wanted)`
  abbrev pub fits : Option Text → (Text → Text) → Text → Bool
  fits none f name = true
  fits (some wanted) f name =
      if is_empty wanted || text_eq wanted (text "all") then true else text_eq name (f wanted)

  -- `!wanted || id === wanted`
  abbrev pub fits_id : Option Text → Option Text → Bool
  fits_id none id = true
  fits_id (some wanted) id = if is_empty wanted then true else same id wanted

  abbrev pub alert_parts : NormalizedAlert N → List (Option Text)
  alert_parts a =
      some a.message
      ∷ some a.title
      ∷ some a.alert_type
      ∷ a.school_name
      ∷ a.camera_name
      ∷ a.school_id
      ∷ a.camera_id
      ∷ []

  abbrev pub search_of : AlertFilters → Text
  search_of filters = elim filters.search [ none ↦ [] | some s ↦ lower js (trim s) ]

  -- The body of the filter, with its early returns.
  unfoldable pub passes_filters : AlertFilters → NormalizedAlert N → Bool
  unfolding text_eq lower trim includes haystack_of
  passes_filters filters a =
      if not (fits filters.status (lower js) (alert_status_name a.status))
      then false
      else if not (fits filters.severity (lower js) (severity_name a.severity))
      then false
      else if not (fits filters.alert_type (λ s. s) a.alert_type)
      then false
      else if not (fits_id filters.school_id a.school_id)
      then false
      else if not (fits_id filters.camera_id a.camera_id)
      then false
      else if is_empty (search_of filters)
      then true
      else includes (haystack_of js (alert_parts a)) (search_of filters)

  unfoldable pub filter_alerts_client_side :
      List (NormalizedAlert N) → AlertFilters → List (NormalizedAlert N)
  unfolding passes_filters
  filter_alerts_client_side alerts filters = filter (passes_filters filters) alerts

-- `new Map(schools.map((s) => [s.id, s.name])).get(id)`: the last name of an id counts.
unfoldable pub name_in : List (Text × Text) → Text → Option Text
unfolding text_eq
name_in [] id = none
name_in ((key, name) ∷ schools) id =
    let later = name_in schools id in or_else later (if text_eq key id then some name else none)

abbrev pub known_name : List (Text × Text) → Option Text → Option Text
known_name schools none = none
known_name schools (some []) = none
known_name schools (some (c ∷ s)) = name_in schools (c ∷ s)

-- A name that is there is kept.
abbrev with_school_name : {N : Type 0} → List (Text × Text) → NormalizedAlert N → NormalizedAlert N
with_school_name schools a = record a {
  school_name = or_else a.school_name (known_name schools a.school_id);
}

unfoldable pub enrich_alerts_with_school_names :
    {N : Type 0} → List (NormalizedAlert N) → List (Text × Text) → List (NormalizedAlert N)
unfolding name_in
enrich_alerts_with_school_names alerts schools = map (with_school_name schools) alerts
