-- ===== src/Schools/Form/Laws.antt =====
-- Saving the form of a school that nobody has changed.
use telecam.Prelude.{◌≡◌, refl, ap, Bool, [], ◌∷◌, Option, none, some, or_else, get_or}
use telecam.Text.{Text, text, trim, text_eq}
use telecam.Json.Defs.{Json, Fields, object, string, Engine, get, as_record}
use telecam.Cameras.Read.{str_at, unwrap_record}
use telecam.Schools.Address.{
  SchoolMetaFields, line_if, meta_lines, address_of, encode_school_address,
}
use telecam.Schools.Address.Laws.{IsPlainMeta}
use telecam.Schools.Types.{SchoolDetail}
use telecam.Schools.Read.{normalize_school_detail, nested_or_self}
use telecam.Schools.Read.Laws.{IsReadFrom, normalize_school-IsReadFrom, decoded}
use telecam.Schools.Form.{school_detail_to_form_values, meta_of_form, build_school_api_body}

-- A field that is missing is written as one that is empty.
line_if-get_or : (key : Text) (o : Option Text) → line_if key (some (get_or o [])) ≡ line_if key o
line_if-get_or key none = refl
line_if-get_or key (some []) = refl
line_if-get_or key (some (c ∷ s)) = refl

-- The detail of a school whose fields are those of an address.
pub record IsDetailOf {N : Type 0} (m : SchoolMetaFields) (d : SchoolDetail N) : Type 0 where
  pub school : IsReadFrom m d.school
  pub notes : d.notes ≡ m.notes

abbrev street_kept : SchoolMetaFields → SchoolMetaFields
street_kept m = record m {
  street_address = some (get_or m.street_address (encode_school_address m));
}

get_or-or_else : (o : Option Text) (s : Text) → get_or (or_else o (some s)) [] ≡ get_or o s
get_or-or_else none s = refl
get_or-or_else (some a) s = refl

filled_form-encode :
    {N : Type 0} (m : SchoolMetaFields) (d : SchoolDetail N) (zone : Text)
    → m.timezone ≡ some zone
    → IsDetailOf m d
    → encode_school_address (meta_of_form (school_detail_to_form_values d))
      ≡ encode_school_address (street_kept m)
unfolding encode_school_address meta_lines school_detail_to_form_values
filled_form-encode m d zone z r =
    let zoned = record m { timezone = some zone } in
    rw
      (
        r.school.timezone,
        r.school.city,
        r.school.contact_name,
        r.school.contact_email,
        r.notes,
        r.school.address,
        z,
        line_if-get_or (text "city") m.city,
        line_if-get_or (text "contact_name") m.contact_name,
        line_if-get_or (text "contact_email") m.contact_email,
        line_if-get_or (text "notes") m.notes,
      )
      (ap (λ s. address_of (meta_lines zoned) (trim s))
        (get_or-or_else m.street_address (encode_school_address zoned)))

module _ {N : Type 0} (js : Engine N) (to_text : Json N → Text) where
  -- The row of an answer, as it is or under `school`.
  detail-IsDetailOf :
      (m : SchoolMetaFields) (raw : Json N) (fs : Fields N)
      → nested_or_self js to_text (text "school") (unwrap_record raw) ≡ object fs
      → IsPlainMeta m
      → str_at fs (text "address" ∷ []) ≡ some (encode_school_address m)
      → IsDetailOf m (normalize_school_detail js to_text raw)
  unfolding normalize_school_detail as_record
  detail-IsDetailOf m raw fs r p e = record {
    school = rw r (normalize_school-IsReadFrom js to_text m fs p e);
    notes = rw r (ap (λ x. x.notes) (decoded js to_text m fs p e));
  }

  -- Saving the form of a school with plain fields and a time zone, without a change, sends the
  -- address it had, if it has a street; without a street the old encoded address becomes the
  -- street of the new one.
  pub build_school_api_body-address :
      (m : SchoolMetaFields) (zone : Text) (raw : Json N) (fs : Fields N) (include_status : Bool)
      → nested_or_self js to_text (text "school") (unwrap_record raw) ≡ object fs
      → IsPlainMeta m
      → m.timezone ≡ some zone
      → str_at fs (text "address" ∷ []) ≡ some (encode_school_address m)
      → get {N = N}
          (build_school_api_body
            (school_detail_to_form_values (normalize_school_detail js to_text raw))
            include_status)
          (text "address")
        ≡ string (
            encode_school_address (record m {
              street_address = some (get_or m.street_address (encode_school_address m));
            }))
  unfolding build_school_api_body get text_eq
  build_school_api_body-address m zone raw fs include_status r p z e = ap string (
      filled_form-encode m (normalize_school_detail js to_text raw) zone z
        (detail-IsDetailOf m raw fs r p e))
