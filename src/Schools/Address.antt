-- ===== src/Schools/Address.antt =====
-- What a school's address holds besides the street: `encodeSchoolAddress` and
-- `decodeSchoolAddress` of admin-dashboard/lib/admin/schools-normalizer.ts.
pub mod Blocks
pub mod Laws
use telecam.Prelude.{List, [], ◌∷◌, ◌++◌, Option, none, some, get_or, length, drop, if◌then◌else◌}
use telecam.Text.{Text, text, text_eq, trim, join, is_empty, starts_with}
use telecam.Text.Split.{cut, find, split_lines}

abbrev pub meta_start : Text
meta_start = text "---school-meta---"

abbrev pub meta_end : Text
meta_end = text "---end-meta---"

pub record SchoolMetaFields : Type 0 where
  pub timezone : Option Text
  pub city : Option Text
  pub contact_name : Option Text
  pub contact_email : Option Text
  pub notes : Option Text
  pub street_address : Option Text

-- `s || undefined`
abbrev pub filled : Text → Option Text
filled [] = none
filled (c ∷ s) = some (c ∷ s)

-- `if (value) metaLines.push(`${key}: ${value}`)`
abbrev pub line_if : Text → Option Text → List Text
line_if key none = []
line_if key (some []) = []
line_if key (some (c ∷ s)) = (key ++ (text ": " ++ c ∷ s)) ∷ []

unfoldable pub meta_lines : SchoolMetaFields → List Text
meta_lines m =
    line_if (text "timezone") m.timezone
    ++ (line_if (text "city") m.city
        ++ (line_if (text "contact_name") m.contact_name
            ++ (line_if (text "contact_email") m.contact_email ++ line_if (text "notes") m.notes)))

-- The end of `encodeSchoolAddress`.
unfoldable pub address_of : List Text → Text → Text
unfolding trim join
address_of [] street = street
address_of (l ∷ ls) street =
    trim (meta_start ++ 10 ∷ (join (10 ∷ []) (l ∷ ls) ++ 10 ∷ (meta_end ++ 10 ∷ street)))

unfoldable pub encode_school_address : SchoolMetaFields → Text
unfolding meta_lines trim address_of
encode_school_address m = address_of (meta_lines m) (trim (get_or m.street_address []))

-- The five assignments of the loop, in their order.
unfoldable pub assign_field : Text → Text → SchoolMetaFields → SchoolMetaFields
unfolding text_eq
assign_field key value m =
    let m1 = if text_eq key (text "timezone") then record m { timezone = some value } else m in
    let m2 = if text_eq key (text "city") then record m1 { city = some value } else m1 in
    let m3 =
      if text_eq key (text "contact_name") then record m2 { contact_name = some value } else m2 in
    let m4 =
      if text_eq key (text "contact_email") then record m3 { contact_email = some value } else m3 in
    if text_eq key (text "notes") then record m4 { notes = some value } else m4

unfoldable pub read_line : Text → SchoolMetaFields → SchoolMetaFields
unfolding cut trim assign_field
read_line line m = elim (cut b':' line) [
  | none ↦ m
  | some (key, value) ↦ assign_field (trim key) (trim value) m
]

unfoldable pub read_lines : List Text → SchoolMetaFields → SchoolMetaFields
unfolding read_line
read_lines [] m = m
read_lines (line ∷ lines) m = read_lines lines (read_line line m)

abbrev pub only_street : Option Text → SchoolMetaFields
only_street street = record {
  timezone = none;
  city = none;
  contact_name = none;
  contact_email = none;
  notes = none;
  street_address = street;
}

-- The text from the start of the block on: the block with its mark and the text from the end mark
-- on, if there is one.
abbrev pub decode_block : Text → Option (Text × Text) → SchoolMetaFields
decode_block tail none = read_lines (split_lines (drop (length meta_start) tail)) (only_street none)
decode_block tail (some (block, rest)) =
    read_lines (split_lines (drop (length meta_start) block))
      (only_street (filled (trim (drop (length meta_end) rest))))

abbrev pub decode_from : Text → Option (Text × Text) → SchoolMetaFields
decode_from raw none = only_street (filled (trim raw))
decode_from raw (some (before_block, tail)) = decode_block tail (find meta_end tail)

unfoldable pub decode_school_address : Option Text → SchoolMetaFields
unfolding find trim split_lines read_lines
decode_school_address address = let raw = get_or address [] in decode_from raw (find meta_start raw)
