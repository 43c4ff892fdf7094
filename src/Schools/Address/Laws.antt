-- ===== src/Schools/Address/Laws.antt =====
-- What was put into a school's address is read back from it.
use telecam.Prelude.{
  ◌≡◌, refl, ap, sym, ◌∙◌, false, List, [], ◌∷◌, ◌++◌, Option, none, some, get_or, All, ◌==◌,
}
use mathlib.Core.List.{append_assoc, append-nil}
use mathlib.Core.Path.{subst}
use telecam.Text.{Text, text, trim, is_empty, includes, starts_with}
use telecam.Text.Split.{cut, IsLine, onto}
use telecam.Schools.Address.{
  SchoolMetaFields, meta_start, meta_end, filled, line_if, meta_lines, address_of,
  encode_school_address, assign_field, read_line, read_lines, only_street, decode_school_address,
}
use telecam.Schools.Address.Blocks.{Lacks, decode-address_of}

-- A value that a line of the block can hold.
pub record IsPlain (v : Text) : Type 0 where
  pub trimmed : trim v ≡ v
  pub one_line : IsLine v
  pub unmarked : Lacks meta_end v

abbrev pub IsPlainOption : Option Text → Type 0
IsPlainOption none = Unit
IsPlainOption (some v) = IsPlain v × (is_empty v ≡ false)

-- Keys hold no dash, with which the end mark starts.
abbrev HasNoDash : Text → Type 0
HasNoDash = All (λ c. (c == b'-') ≡ false)

Lacks-behind : (key s : Text) → HasNoDash key → Lacks meta_end s → Lacks meta_end (key ++ s)
unfolding includes starts_with
Lacks-behind [] s h n = n
Lacks-behind (c ∷ key) s (h, hs) n = rw h (Lacks-behind key s hs n)

IsLine-behind : (key s : Text) → IsLine key → IsLine s → IsLine (key ++ s)
IsLine-behind [] s h l = l
IsLine-behind (c ∷ key) s (h, hs) l = (h, IsLine-behind key s hs l)

-- What the lines of a block must be.
abbrev FitBlock : List Text → Type 0
FitBlock ls = All IsLine ls × All (Lacks meta_end) ls

line_if-FitBlock :
    (key : Text) (o : Option Text) (ls : List Text)
    → HasNoDash (key ++ text ": ")
    → IsLine (key ++ text ": ")
    → IsPlainOption o
    → FitBlock ls
    → FitBlock (line_if key o ++ ls)
line_if-FitBlock key none ls d l p f = f
line_if-FitBlock key (some []) ls d l p f = f
line_if-FitBlock key (some (c ∷ s)) ls d l (p, e) (f, g) =
    let same = append_assoc key (text ": ") (c ∷ s) in
    (
      (subst IsLine same (IsLine-behind (key ++ text ": ") (c ∷ s) l p.one_line), f),
      (subst (Lacks meta_end) same (Lacks-behind (key ++ text ": ") (c ∷ s) d p.unmarked), g),
    )

-- A key: no colon, and no white space around it.
abbrev IsKey : Text → Type 0
IsKey key = All (λ c. (c == b':') ≡ false) key × (trim key ≡ key)

cut-key :
    (key s : Text) → All (λ c. (c == b':') ≡ false) key → cut b':' (key ++ b':' ∷ s) ≡ some (key, s)
unfolding cut
cut-key [] s h = refl
cut-key (c ∷ key) s (h, hs) = rw h (ap (onto c) (cut-key key s hs))

abbrev assigned : Text → Option Text → SchoolMetaFields → SchoolMetaFields
assigned key none m = m
assigned key (some v) m = assign_field key v m

abbrev read_cut : SchoolMetaFields → Option (Text × Text) → SchoolMetaFields
read_cut m o = elim o [ none ↦ m | some (key, value) ↦ assign_field (trim key) (trim value) m ]

read_line-key :
    (key v : Text) (m : SchoolMetaFields)
    → IsKey key
    → trim v ≡ v
    → read_line (key ++ (text ": " ++ v)) m ≡ assign_field key v m
unfolding read_line trim
read_line-key key v m (h, t) e =
    ap (read_cut m) (cut-key key (32 ∷ v) h)
    ∙ ap (λ k. assign_field k (trim (32 ∷ v)) m) t
    ∙ ap (λ y. assign_field key y m) e

read-line_if :
    (key : Text) (o : Option Text) (ls : List Text) (m : SchoolMetaFields)
    → IsKey key
    → IsPlainOption o
    → read_lines (line_if key o ++ ls) m ≡ read_lines ls (assigned key o m)
unfolding read_lines
read-line_if key none ls m k p = refl
read-line_if key (some []) ls m k (p, e) = absurd (cc)
read-line_if key (some (c ∷ s)) ls m k (p, e) =
    ap (read_lines ls) (read_line-key key (c ∷ s) m k p.trimmed)

-- A field that was missing holds what was assigned to its key.
module _ (m : SchoolMetaFields) where
  assigned-timezone :
      (o : Option Text)
      → m.timezone ≡ none
      → assigned (text "timezone") o m ≡ record m { timezone = o }
  unfolding assign_field
  assigned-timezone none e = ap (λ t. record m { timezone = t }) e
  assigned-timezone (some v) e = refl

  assigned-city :
      (o : Option Text) → m.city ≡ none → assigned (text "city") o m ≡ record m { city = o }
  unfolding assign_field
  assigned-city none e = ap (λ t. record m { city = t }) e
  assigned-city (some v) e = refl

  assigned-contact_name :
      (o : Option Text)
      → m.contact_name ≡ none
      → assigned (text "contact_name") o m ≡ record m { contact_name = o }
  unfolding assign_field
  assigned-contact_name none e = ap (λ t. record m { contact_name = t }) e
  assigned-contact_name (some v) e = refl

  assigned-contact_email :
      (o : Option Text)
      → m.contact_email ≡ none
      → assigned (text "contact_email") o m ≡ record m { contact_email = o }
  unfolding assign_field
  assigned-contact_email none e = ap (λ t. record m { contact_email = t }) e
  assigned-contact_email (some v) e = refl

  assigned-notes :
      (o : Option Text) → m.notes ≡ none → assigned (text "notes") o m ≡ record m { notes = o }
  unfolding assign_field
  assigned-notes none e = ap (λ t. record m { notes = t }) e
  assigned-notes (some v) e = refl

-- Fields that an address can hold: values of one line without white space around them and without
-- the end mark, and a street without white space around it and without the start mark.
pub record IsPlainMeta (m : SchoolMetaFields) : Type 0 where
  pub timezone : IsPlainOption m.timezone
  pub city : IsPlainOption m.city
  pub contact_name : IsPlainOption m.contact_name
  pub contact_email : IsPlainOption m.contact_email
  pub notes : IsPlainOption m.notes
  pub street : trim (get_or m.street_address []) ≡ get_or m.street_address []
  pub street_unmarked : includes (get_or m.street_address []) meta_start ≡ false
  pub street_filled : filled (get_or m.street_address []) ≡ m.street_address

meta_lines-FitBlock : (m : SchoolMetaFields) → IsPlainMeta m → FitBlock (meta_lines m)
unfolding meta_lines
meta_lines-FitBlock m p =
    line_if-FitBlock (text "timezone") m.timezone _ (assumption refl) (assumption refl) p.timezone (
      line_if-FitBlock (text "city") m.city _ (assumption refl) (assumption refl) p.city (
        line_if-FitBlock (text "contact_name") m.contact_name _ (assumption refl) (assumption refl)
          p.contact_name
          (line_if-FitBlock (text "contact_email") m.contact_email _ (assumption refl)
            (assumption refl) p.contact_email
            (subst FitBlock (append-nil (line_if (text "notes") m.notes)) (
              line_if-FitBlock (text "notes") m.notes [] (assumption refl) (assumption refl) p.notes
                (tt, tt))))))

abbrev after_city : SchoolMetaFields → SchoolMetaFields → SchoolMetaFields
after_city m start = assigned (text "city") m.city (assigned (text "timezone") m.timezone start)

abbrev after_email : SchoolMetaFields → SchoolMetaFields → SchoolMetaFields
after_email m start =
    assigned (text "contact_email") m.contact_email
      (assigned (text "contact_name") m.contact_name (after_city m start))

read-meta_lines :
    (m start : SchoolMetaFields)
    → IsPlainMeta m
    → read_lines (meta_lines m) start ≡ assigned (text "notes") m.notes (after_email m start)
unfolding meta_lines trim read_lines
read-meta_lines m start p =
    read-line_if (text "timezone") m.timezone _ start (assumption refl, refl) p.timezone
    ∙ read-line_if (text "city") m.city _ _ (assumption refl, refl) p.city
    ∙ read-line_if (text "contact_name") m.contact_name _ (after_city m start)
        (assumption refl, refl) p.contact_name
    ∙ read-line_if (text "contact_email") m.contact_email _ _ (assumption refl, refl)
        p.contact_email
    ∙ ap (λ ls. read_lines ls (after_email m start))
        (sym (append-nil (line_if (text "notes") m.notes)))
    ∙ read-line_if (text "notes") m.notes [] (after_email m start) (assumption refl, refl) p.notes

assigned_all :
    (m : SchoolMetaFields)
    → assigned (text "notes") m.notes (after_email m (only_street m.street_address)) ≡ m
assigned_all m =
    let start = only_street m.street_address in
    let timed = record start { timezone = m.timezone } in
    let placed = record timed { city = m.city } in
    let named = record placed { contact_name = m.contact_name } in
    let mailed = record named { contact_email = m.contact_email } in
    ap
      (λ x. assigned (text "notes") m.notes (
        assigned (text "contact_email") m.contact_email
          (assigned (text "contact_name") m.contact_name (assigned (text "city") m.city x))))
      (assigned-timezone start m.timezone refl)
    ∙ ap
        (λ x. assigned (text "notes") m.notes (
          assigned (text "contact_email") m.contact_email
            (assigned (text "contact_name") m.contact_name x)))
        (assigned-city timed m.city refl)
    ∙ ap (λ x. assigned (text "notes") m.notes (assigned (text "contact_email") m.contact_email x))
        (assigned-contact_name placed m.contact_name refl)
    ∙ ap (assigned (text "notes") m.notes) (assigned-contact_email named m.contact_email refl)
    ∙ assigned-notes mailed m.notes refl

-- What is encoded into the address of a school is read back as it was, if the fields hold one line
-- each, without white space around it and without the end mark, and the street has no white space
-- around it and no start mark; no field is an empty text.
pub decode-encode_school_address :
    (m : SchoolMetaFields)
    → IsPlainMeta m
    → decode_school_address (some (encode_school_address m)) ≡ m
unfolding encode_school_address
decode-encode_school_address m p =
    let fit = meta_lines-FitBlock m p in
    ap (λ s. decode_school_address (some (address_of (meta_lines m) s))) p.street
    ∙ decode-address_of (meta_lines m) (get_or m.street_address []) fit.0 fit.1 p.street
        p.street_unmarked
    ∙ ap (λ o. read_lines (meta_lines m) (only_street o)) p.street_filled
    ∙ read-meta_lines m (only_street m.street_address) p
    ∙ assigned_all m
