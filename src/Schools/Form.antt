-- ===== src/Schools/Form.antt =====
-- The form of a school: admin-dashboard/lib/school-form.ts, less its checks by a library. What may
-- be missing is an `Option`.
pub mod Laws
use telecam.Prelude.{
  Bool, true, false, List, [], ◌∷◌, ◌++◌, Option, none, some, get_or, if◌then◌else◌,
}
use telecam.Text.{Text, text}
use telecam.Json.Defs.{Fields, Json, string, field, end}
use telecam.Schools.Address.{SchoolMetaFields, encode_school_address}
use telecam.Schools.Types.{SchoolStatus, active, disabled, unknown, SchoolDetail}

-- The status is `ACTIVE` or `DISABLED`.
pub record SchoolFormValues : Type 0 where
  pub name : Text
  pub status : Text
  pub timezone : Text
  pub city : Option Text
  pub address : Option Text
  pub contact_name : Option Text
  pub contact_phone : Option Text
  pub contact_email : Option Text
  pub notes : Option Text

-- `CreateSchoolInput`, as the form fills it; it has the fields of the form.
abbrev pub CreateSchoolInput : Type 0
CreateSchoolInput = SchoolFormValues

abbrev pub default_school_timezone : Text
default_school_timezone = text "Africa/Addis_Ababa"

abbrev form_status : SchoolStatus → Text
form_status disabled = text "DISABLED"
form_status _ = text "ACTIVE"

unfoldable pub school_detail_to_form_values : {N : Type 0} → SchoolDetail N → SchoolFormValues
school_detail_to_form_values d = record {
  name = d.school.name;
  status = form_status d.school.status;
  timezone = get_or d.school.timezone default_school_timezone;
  city = some (get_or d.school.city []);
  address = some (get_or d.school.address []);
  contact_name = some (get_or d.school.contact_name []);
  contact_phone = some (get_or d.school.contact_phone []);
  contact_email = some (get_or d.school.contact_email []);
  notes = some (get_or d.notes []);
}

unfoldable pub form_values_to_create_input : SchoolFormValues → CreateSchoolInput
form_values_to_create_input values = record {
  name = values.name;
  status = values.status;
  timezone = values.timezone;
  city = values.city;
  address = values.address;
  contact_name = values.contact_name;
  contact_phone = values.contact_phone;
  contact_email = values.contact_email;
  notes = values.notes;
}

abbrev pub meta_of_form : SchoolFormValues → SchoolMetaFields
meta_of_form values = record {
  timezone = some values.timezone;
  city = values.city;
  contact_name = values.contact_name;
  contact_email = values.contact_email;
  notes = values.notes;
  street_address = values.address;
}

-- The properties of the body, in their order.
unfoldable pub build_school_api_body : {N : Type 0} → SchoolFormValues → Bool → Fields N
unfolding encode_school_address
build_school_api_body values include_status = field (text "name") (string values.name) (
    field (text "address") (string (encode_school_address (meta_of_form values))) (
      field (text "phone") (string (get_or values.contact_phone []))
        (if include_status then field (text "status") (string values.status) end else end)))
