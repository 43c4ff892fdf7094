-- ===== src/Schools/Requests.antt =====
-- Fetching and changing schools: admin-dashboard/lib/admin/schools-api.ts. `to_text` is `String`,
-- `encode` is `encodeURIComponent`.
use telecam.Prelude.{
  Bool, true, false, ◌==◌, List, [], ◌∷◌, ◌++◌, any, Option, none, some, get_or, if◌then◌else◌,
}
use telecam.Text.{Text, text}
use telecam.Json.Defs.{Json, object, string, number, Fields, field, end}
use telecam.Json.Numbers.{Arithmetic}
use telecam.Session.World.{
  Env, M, Failure, api_error, other_error, network_error, pure, throw, catch_with, ◌>>=◌,
}
use telecam.Session.Provider.{fetch_page}
use telecam.Session.Queries.{by_method, fetch_and}
use telecam.Schools.Address.{encode_school_address}
use telecam.Schools.Types.{
  School, SchoolDetail, SchoolAdmin, RevenueShare, ClassroomSummary, ChildSummary, StorageUsageRow,
}
use telecam.Schools.Read.{
  normalize_schools, normalize_school_detail, normalize_school_admins, normalize_revenue_share,
  normalize_classroom_summaries, normalize_child_summaries, normalize_storage_usage,
}
use telecam.Schools.Form.{
  SchoolFormValues, CreateSchoolInput, form_values_to_create_input, meta_of_form,
  build_school_api_body, default_school_timezone,
}

-- `UpdateSchoolInput`, of which nothing need be there; the name and the status are not read.
pub record UpdateSchoolInput : Type 0 where
  pub timezone : Option Text
  pub city : Option Text
  pub address : Option Text
  pub contact_name : Option Text
  pub contact_phone : Option Text
  pub contact_email : Option Text
  pub notes : Option Text

pub record SetRevenueShareInput (N : Type 0) : Type 0 where
  pub percentage : N
  pub active_from : Text

-- `buildAddressFromInput`
unfoldable pub build_address_from_input : CreateSchoolInput → Text
unfolding encode_school_address
build_address_from_input input = encode_school_address (meta_of_form input)

abbrev is_filled : Option Text → Bool
is_filled none = false
is_filled (some []) = false
is_filled (some (c ∷ s)) = true

abbrev phone_field : {N : Type 0} → Option Text → Fields N → Fields N
phone_field none rest = rest
phone_field (some phone) rest = field (text "phone") (string phone) rest

-- The address of a limited update, as `buildAddressFromInput` builds it.
abbrev limited_address : UpdateSchoolInput → Text
limited_address input = encode_school_address (record {
  timezone = some (get_or input.timezone default_school_timezone);
  city = input.city;
  contact_name = input.contact_name;
  contact_email = input.contact_email;
  notes = input.notes;
  street_address = input.address;
})

unfoldable pub limited_body : {N : Type 0} → UpdateSchoolInput → Fields N
unfolding encode_school_address
limited_body input = phone_field input.contact_phone (
    if any is_filled (
      input.timezone ∷ input.city ∷ input.address ∷ input.contact_name ∷ input.contact_email
      ∷ input.notes ∷ [])
    then field (text "address") (string (limited_address input)) end
    else end)

module _ {N : Type 0} (env : Env N) (to_text : Json N → Text) (encode : Text → Text) where
  abbrev school_path : Text → Text → Text
  school_path id rest = text "/admin/schools/" ++ (encode id ++ rest)

  -- `await apiFetch(path, { method, body: JSON.stringify(body) })`
  abbrev pub send_body : Text → Text → Json N → M N (Json N)
  send_body path method body = fetch_page env path (by_method method (some (env.js.stringify body)))

  unfoldable pub get_schools : M N (List (School N))
  get_schools =
      fetch_and env (text "/admin/schools") (text "GET") (normalize_schools env.js to_text)

  unfoldable pub get_school : Text → M N (SchoolDetail N)
  get_school id =
      fetch_and env (school_path id []) (text "GET") (normalize_school_detail env.js to_text)

  unfoldable pub create_school_from_form : SchoolFormValues → M N (SchoolDetail N)
  unfolding form_values_to_create_input build_address_from_input
  create_school_from_form values = do
    raw ← send_body (text "/admin/schools") (text "POST") (
        let input = form_values_to_create_input values in
        object (
          field (text "name") (string input.name) (
            field (text "address") (string (build_address_from_input input))
              (field (text "phone") (string (get_or input.contact_phone [])) end))))
    pure (normalize_school_detail env.js to_text raw)

  unfoldable pub update_school_from_form : Text → SchoolFormValues → Bool → M N (SchoolDetail N)
  unfolding build_school_api_body
  update_school_from_form id values can_set_status = do
    raw ←
        send_body (school_path id []) (text "PATCH")
          (object (build_school_api_body values can_set_status))
    pure (normalize_school_detail env.js to_text raw)

  unfoldable pub update_school_limited : Text → UpdateSchoolInput → M N (SchoolDetail N)
  unfolding limited_body
  update_school_limited id input = do
    raw ← send_body (school_path id []) (text "PATCH") (object (limited_body input))
    pure (normalize_school_detail env.js to_text raw)

  unfoldable pub get_school_admins : Text → M N (List SchoolAdmin)
  get_school_admins id =
      fetch_and env (school_path id (text "/admins")) (text "GET")
        (normalize_school_admins env.js to_text)

  unfoldable pub assign_school_admin : Text → Text → M N (Unit {0})
  assign_school_admin id user_id = do
    raw ←
        send_body (school_path id (text "/admins")) (text "POST")
          (object (field (text "user_id") (string user_id) end))
    pure tt

  -- Without the route there is no share.
  abbrev no_share : Failure N → M N (Option (RevenueShare N))
  no_share (api_error message status body) =
      if status == 404 then pure none else throw (api_error message status body)
  no_share (other_error message) = throw (other_error message)
  no_share network_error = throw network_error

  unfoldable pub get_school_revenue_share : Arithmetic N → Text → M N (Option (RevenueShare N))
  get_school_revenue_share a id =
      catch_with
        (fetch_and env (school_path id (text "/revenue-share")) (text "GET")
          (normalize_revenue_share env.js to_text a))
        no_share

  -- What is shown when the answer is no share.
  abbrev share_of_input : Arithmetic N → SetRevenueShareInput N → RevenueShare N
  share_of_input a input = record {
    id = none;
    school_id = none;
    school_share_percent = input.percentage;
    platform_share_percent = a.minus (env.js.of_nat 100) input.percentage;
    effective_from = some input.active_from;
    effective_to = none;
  }

  unfoldable pub set_school_revenue_share :
      Arithmetic N → Text → SetRevenueShareInput N → M N (RevenueShare N)
  set_school_revenue_share a id input = do
    raw ← send_body (school_path id (text "/revenue-share")) (text "POST") (
        object (
          field (text "percentage") (number input.percentage)
            (field (text "active_from") (string input.active_from) end)))
    pure (get_or (normalize_revenue_share env.js to_text a raw) (share_of_input a input))

  unfoldable pub get_school_classrooms : Text → M N (List (ClassroomSummary N))
  get_school_classrooms id =
      fetch_and env (school_path id (text "/classrooms")) (text "GET")
        (normalize_classroom_summaries env.js to_text)

  unfoldable pub get_school_children : Text → M N (List ChildSummary)
  get_school_children id =
      fetch_and env (school_path id (text "/children")) (text "GET")
        (normalize_child_summaries env.js to_text)

  unfoldable pub get_school_storage_usage : Text → M N (List (StorageUsageRow N))
  get_school_storage_usage id =
      fetch_and env (text "/admin/storage-usage?school_id=" ++ encode id) (text "GET")
        (normalize_storage_usage env.js to_text)
