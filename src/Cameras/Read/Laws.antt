-- ===== src/Cameras/Read/Laws.antt =====
-- What the readers of cameras and schools promise.
use telecam.Prelude.{
  ◌≡◌, refl, Bool, true, not, List, [], ◌∷◌, map, filter, any, ◌++◌, ◌∙◌, some, arith, All,
  Bool-cases, ap, inl, inr, if◌then◌else◌,
}
use telecam.Text.{Text, text, text_eq, is_empty, ascii_upper}
use telecam.Text.Laws.{text_eq_iff}
use telecam.Json.Defs.{Json, undefined, Fields, end, field, Engine, get}
use telecam.Cameras.Types.{NormalizedSchool}
use telecam.Cameras.Read.{
  is_sensitive, strip_sensitive, normalize_camera_row, normalize_school_camera_status,
  normalize_schools, rows, unwrap_record, normalize_school_row,
}

-- What must not be shown, as pairs of words, and how such a pair is spelled as a key: with an
-- underscore between the words, or with a capital.
abbrev word_pairs : List (Text × Text)
word_pairs =
    (text "rtsp", text "url")
    ∷ (text "encrypted", text "rtsp")
    ∷ (text "signed", text "url")
    ∷ (text "playlist", text "key")
    ∷ (text "hls", text "url")
    ∷ (text "playback", text "url")
    ∷ []

abbrev capitalised : Text → Text
capitalised [] = []
capitalised (c ∷ s) = ascii_upper c ∷ s

abbrev spellings : List (Text × Text) → List Text
spellings [] = []
spellings ((a, b) ∷ rest) = (a ++ b'_' ∷ b) ∷ (a ++ capitalised b) ∷ spellings rest

abbrev pub names_secret : Text → Bool
names_secret key = any (text_eq key) (spellings word_pairs)

is_sensitive-eq : (key : Text) → is_sensitive key ≡ names_secret key
unfolding is_sensitive ascii_upper
is_sensitive-eq key = refl

module _ {N : Type 0} where
  get-strip :
      (fs : Fields N) (key : Text)
      → get (strip_sensitive fs) key ≡ (if is_sensitive key then undefined else get fs key)
  unfolding strip_sensitive get
  get-strip end key = ground arith
  get-strip (field k v fs) key = elim (Bool-cases (text_eq k key)) [
    | inl same ↦
        let e = ap is_sensitive ((text_eq_iff k key).0 same) in ground (arith, get-strip fs key)
    | inr differ ↦ ground (arith, get-strip fs key)
  ]

  -- An object without its sensitive properties reads as missing under the keys that spell rtsp
  -- url, encrypted rtsp, signed url, playlist key, hls url or playback url, with an underscore or
  -- with a capital, and as before under all others.
  pub get-strip_sensitive :
      (fs : Fields N) (key : Text)
      → get (strip_sensitive fs) key ≡ (if names_secret key then undefined else get fs key)
  get-strip_sensitive fs key =
      get-strip fs key ∙ ap (λ b. if b then undefined else get fs key) (is_sensitive-eq key)

filter-All :
    (p : NormalizedSchool → Bool) (xs : List NormalizedSchool) → All (λ x. p x ≡ true) (filter p xs)
filter-All p [] = tt
filter-All p (x ∷ xs) = elim (Bool-cases (p x)) [
  | inl e ↦ rw (e, filter, All) (e, filter-All p xs)
  | inr e ↦ rw (e, filter, All) (filter-All p xs)
]

module _ {N : Type 0} (js : Engine N) where
  -- Every school that is read from any value has an id that is not empty.
  pub normalize_schools-HaveIds :
      (raw : Json N) → All (λ s. not (is_empty s.id) ≡ true) (normalize_schools js raw)
  unfolding normalize_schools
  normalize_schools-HaveIds raw =
      filter-All (λ school. not (is_empty school.id))
        (map (normalize_school_row js) (rows (unwrap_record raw)))

  of_school :
      (id name : Text) (fss : List (Fields N))
      → All
          (λ c. (c.school_id ≡ some id) × (c.school_name ≡ some name))
          (map (λ row. normalize_camera_row js row (some id) (some name)) fss)
  unfolding normalize_camera_row
  of_school id name [] = tt
  of_school id name (fs ∷ fss) = ((refl, refl), of_school id name fss)

  -- Every camera of a school's answer carries the school id and name of the answer, whatever its
  -- own row says.
  pub normalize_school_camera_status-of_school :
      (raw : Json N)
      → let r = normalize_school_camera_status js raw in
        All (λ c. (c.school_id ≡ some r.school_id) × (c.school_name ≡ some r.school_name)) r.cameras
  unfolding normalize_school_camera_status
  normalize_school_camera_status-of_school raw = of_school _ _ _
