-- ===== src/Json/Defs.antt =====
-- Values of type `unknown`, as they come from `JSON.parse` or are missing, and what the sources
-- take from the JavaScript engine: numbers, the case mappings and JSON itself. An object is the
-- list of its own properties in the order of `Object.entries`.
use telecam.Prelude.{
  ℕ, Bool, true, false, ◌||◌, List, [], ◌∷◌, Option, none, some, if◌then◌else◌, not,
}
use telecam.Text.{Text, text, text_eq, trim, is_empty}

mutual
  pub data Json (N : Type 0) : Type 0 where
    undefined : Json N
    null : Json N
    boolean : Bool → Json N
    number : N → Json N
    string : Text → Json N
    array : Items N → Json N
    object : Fields N → Json N

  pub data Items (N : Type 0) : Type 0 where
    nil : Items N
    cons : Json N → Items N → Items N

  pub data Fields (N : Type 0) : Type 0 where
    end : Fields N
    field : Text → Json N → Fields N → Fields N

-- The engine. `N` is the type of numbers; `upper_above` and `lower_above` are the case mappings
-- of a code point that is not ASCII, the second with the text before and behind it.
pub record Engine (N : Type 0) : Type 0 where
  pub is_finite : N → Bool
  -- 0 and NaN
  pub is_falsy : N → Bool
  pub parse_number : Text → N
  pub of_nat : ℕ → N
  pub upper_above : ℕ → Text
  pub lower_above : Text → ℕ → Text → Text
  pub parse : Text → Option (Json N)
  pub stringify : Json N → Text

abbrev pub proto : Text
proto = text "__proto__"

module _ {N : Type 0} where
  abbrev pub items : Items N → List (Json N)
  items nil = []
  items (cons v vs) = v ∷ items vs

  -- `obj[key]`, for keys that no prototype has
  unfoldable pub get : Fields N → Text → Json N
  get end key = undefined
  get (field k v fs) key = if text_eq k key then v else get fs key

  -- `key in obj`
  unfoldable pub has : Fields N → Text → Bool
  has end key = false
  has (field k v fs) key = text_eq k key || has fs key

  -- `obj[key] = v`: a new property goes to the end, also one whose key is an index. Assigning to `__proto__` adds none.
  unfoldable pub insert : Text → Json N → Fields N → Fields N
  insert key v end = field key v end
  insert key v (field k w fs) = if text_eq k key then field k v fs else field k w (insert key v fs)

  unfoldable pub assign : Text → Json N → Fields N → Fields N
  unfolding insert
  assign key v fs = if text_eq key proto then fs else insert key v fs

  -- The `isRecord` of the normalizers: an object that is no array.
  unfoldable pub as_record : Json N → Option (Fields N)
  as_record (object fs) = some fs
  as_record v = none

  -- The `pick` of the normalizers: the value at the first key that is there.
  unfoldable pub pick : Fields N → List Text → Json N
  unfolding get has
  pick fs [] = undefined
  pick fs (k ∷ ks) = if has fs k then get fs k else pick fs ks

  -- The `str` of the normalizers: a string that is not blank.
  unfoldable pub str : Json N → Option Text
  str (string s) = if is_empty (trim s) then none else some s
  str v = none

  abbrev pub is_nullish : Json N → Bool
  is_nullish undefined = true
  is_nullish null = true
  is_nullish v = false

  -- `a ?? b`
  abbrev pub coalesce : Json N → Json N → Json N
  coalesce a b = if is_nullish a then b else a

  -- The `isRecord` of session-store.ts lets arrays through, which have none of the properties read.
  unfoldable pub as_object : Json N → Option (Fields N)
  as_object (object fs) = some fs
  as_object (array vs) = some end
  as_object v = none

  -- `typeof v === "string" ? v : undefined`
  unfoldable pub as_string : Json N → Option Text
  as_string (string s) = some s
  as_string v = none

  unfoldable pub as_number : Json N → Option N
  as_number (number n) = some n
  as_number v = none

  abbrev pub is_true : Json N → Bool
  is_true (boolean b) = b
  is_true v = false

  -- `Boolean(v)`
  unfoldable pub is_truthy : Engine N → Json N → Bool
  is_truthy js undefined = false
  is_truthy js null = false
  is_truthy js (boolean b) = b
  is_truthy js (number n) = not (js.is_falsy n)
  is_truthy js (string s) = not (is_empty s)
  is_truthy js v = true

  -- `"data" in raw ? raw.data : raw`, for a record
  unfoldable pub unwrap_payload : Json N → Json N
  unfolding as_object get has
  unwrap_payload raw = elim (as_object raw) [
    | none ↦ raw
    | some fs ↦ if has fs (text "data") then get fs (text "data") else raw
  ]
