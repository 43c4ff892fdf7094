-- ===== src/Schools/Read/Laws.antt =====
-- A school that was stored with plain fields.
use telecam.Prelude.{◌≡◌, ap, ◌∙◌, [], ◌∷◌, some, or_else}
use telecam.Text.{Text, text}
use telecam.Json.Defs.{Json, Fields, object, Engine, as_record}
use telecam.Cameras.Read.{str_at}
use telecam.Schools.Address.{SchoolMetaFields, encode_school_address, decode_school_address}
use telecam.Schools.Address.Laws.{IsPlainMeta, decode-encode_school_address}
use telecam.Schools.Types.{School}
use telecam.Schools.Read.{normalize_school}

-- The fields of an address in a school.
pub record IsReadFrom {N : Type 0} (m : SchoolMetaFields) (s : School N) : Type 0 where
  pub timezone : s.timezone ≡ m.timezone
  pub city : s.city ≡ m.city
  pub contact_name : s.contact_name ≡ m.contact_name
  pub contact_email : s.contact_email ≡ m.contact_email
  -- Without a street, the whole text is shown.
  pub address : s.address ≡ or_else m.street_address (some (encode_school_address m))

module _ {N : Type 0} (js : Engine N) (to_text : Json N → Text) where
  pub decoded :
      (m : SchoolMetaFields) (fs : Fields N)
      → IsPlainMeta m
      → str_at fs (text "address" ∷ []) ≡ some (encode_school_address m)
      → decode_school_address (str_at fs (text "address" ∷ [])) ≡ m
  decoded m fs p e = ap decode_school_address e ∙ decode-encode_school_address m p

  -- A school whose row has the encoded address of plain fields is read with these fields; its
  -- address is the street, or the whole encoded text if there is no street.
  pub normalize_school-IsReadFrom :
      (m : SchoolMetaFields) (fs : Fields N)
      → IsPlainMeta m
      → str_at fs (text "address" ∷ []) ≡ some (encode_school_address m)
      → IsReadFrom m (normalize_school js to_text (object fs))
  unfolding normalize_school as_record
  normalize_school-IsReadFrom m fs p e =
      let d = decoded m fs p e in
      record {
        timezone = ap (λ x. x.timezone) d;
        city = ap (λ x. x.city) d;
        contact_name = ap (λ x. x.contact_name) d;
        contact_email = ap (λ x. x.contact_email) d;
        address =
            ap (λ x. or_else x.street_address (str_at fs (text "address" ∷ []))) d
            ∙ ap (or_else m.street_address) e;
      }
