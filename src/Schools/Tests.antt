-- ===== src/Schools/Tests.antt =====
-- A school in Addis Ababa, with a street and without one.
use telecam.Prelude.{ℕ, ◌≡◌, refl, true, [], ◌∷◌, none, some, get_or}
use telecam.Text.{Text, text, text_eq, trim, starts_with, includes}
use telecam.Json.Defs.{Json, object, string, Fields, field, end, get, pick, str, has, as_record}
use telecam.Json.Examples.{small_engine}
use telecam.Cameras.Read.{str_at, unwrap_record}
use telecam.Schools.Address.{SchoolMetaFields, encode_school_address, decode_school_address}
use telecam.Schools.Address.Laws.{IsPlainMeta, decode-encode_school_address}
use telecam.Schools.Read.{nested_or_self, normalize_school, normalize_school_detail}
use telecam.Schools.Read.Laws.{IsReadFrom, normalize_school-IsReadFrom}
use telecam.Schools.Form.{school_detail_to_form_values, build_school_api_body}
use telecam.Schools.Form.Laws.{build_school_api_body-address}

abbrev plain : Json ℕ → Text
plain v = []

abbrev zone : Text
zone = text "Africa/Addis_Ababa"

abbrev no_street : SchoolMetaFields
no_street = record {
  timezone = some zone;
  city = some (text "Addis: Bole");
  contact_name = none;
  contact_email = none;
  notes = none;
  street_address = none;
}

no_street-IsPlainMeta : IsPlainMeta no_street
unfolding trim includes starts_with
no_street-IsPlainMeta = record {
  timezone = (record { trimmed = refl; one_line = assumption refl; unmarked = refl }, refl);
  city = (record { trimmed = refl; one_line = assumption refl; unmarked = refl }, refl);
  contact_name = tt;
  contact_email = tt;
  notes = tt;
  street = refl;
  street_unmarked = refl;
  street_filled = refl;
}

decode-encode_school_address_example :
    decode_school_address (some (encode_school_address no_street)) ≡ no_street
decode-encode_school_address_example = decode-encode_school_address no_street no_street-IsPlainMeta

abbrev row : Fields ℕ
row = field (text "address") (string (encode_school_address no_street)) end

row-address : str_at row (text "address" ∷ []) ≡ some (encode_school_address no_street)
unfolding pick get has str trim encode_school_address text_eq
row-address = refl

normalize_school-IsReadFrom_example :
    IsReadFrom no_street (normalize_school small_engine plain (object row))
normalize_school-IsReadFrom_example =
    normalize_school-IsReadFrom small_engine plain no_street row no_street-IsPlainMeta row-address

row-nested :
    nested_or_self small_engine plain (text "school") (unwrap_record (object row)) ≡ object row
unfolding unwrap_record as_record pick has text_eq
row-nested = refl

build_school_api_body-address_example :
    get {N = ℕ}
      (build_school_api_body
        (school_detail_to_form_values (normalize_school_detail small_engine plain (object row)))
        true)
      (text "address")
    ≡ string (
        encode_school_address (record no_street {
          street_address = some (get_or none (encode_school_address no_street));
        }))
build_school_api_body-address_example =
    build_school_api_body-address small_engine plain no_street zone (object row) row true row-nested
      no_street-IsPlainMeta refl row-address

-- A second line of the notes is read as a field of its own.
abbrev two_lines : SchoolMetaFields
two_lines = record no_street { notes = some (text "call first\ncity: Adama") }

notes_overwrite :
    (decode_school_address (some (encode_school_address two_lines))).city ≡ some (text "Adama")
unfolding decode_school_address encode_school_address
notes_overwrite = refl
