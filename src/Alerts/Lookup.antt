-- ===== src/Alerts/Lookup.antt =====
-- What is read under each key of metadata that the sanitizer of alerts has been over, and where its
-- care ends.
use telecam.Prelude.{
  ◌≡◌, refl, ap, ◌∙◌, Bool, false, not, ◌&&◌, ◌∷◌, [], map, any, Bool-cases, inl, inr, arith,
  if◌then◌else◌,
}
use mathlib.Core.Path.{subst}
use telecam.Text.{Text, text, text_eq, includes, ascii_lower}
use telecam.Text.Laws.{text_eq_iff}
use telecam.Json.Defs.{
  Json, undefined, null, boolean, number, string, array, object, Fields, end, field, get, has,
  assign, insert, proto,
}
use telecam.Alerts.Sanitize.{
  is_sensitive_key, is_sensitive_text, alert_mask, sanitize_value, sanitize_metadata,
}

-- The words that a key must not mention, in any case.
abbrev pub mentions_secret : Text → Bool
mentions_secret key = any (includes (map ascii_lower key)) (
    map text (
      "token" ∷ "secret" ∷ "password" ∷ "key" ∷ "rtsp" ∷ "url" ∷ "signed" ∷ "credential"
      ∷ "authorization" ∷ "chat_id" ∷ "recipient" ∷ []))

is_sensitive_key-eq : (key : Text) → is_sensitive_key key ≡ mentions_secret key
unfolding is_sensitive_key
is_sensitive_key-eq key = refl

module _ {N : Type 0} where
  -- An object has a property once.
  abbrev pub HasDistinctKeys : Fields N → Type 0
  HasDistinctKeys end = Unit
  HasDistinctKeys (field k v fs) = (has fs k ≡ false) × HasDistinctKeys fs

  -- A value under a key that mentions nothing secret: an array is not looked into.
  abbrev pub shown_value : Json N → Json N
  shown_value (object fs) = object (sanitize_metadata fs end)
  shown_value (string s) = string (if is_sensitive_text s then alert_mask else s)
  shown_value (array vs) = array vs
  shown_value v = v

  -- What is shown under a key.
  abbrev pub shown : Fields N → Text → Json N
  shown fs key =
      if has fs key && not (text_eq key proto)
      then (if mentions_secret key then string alert_mask else shown_value (get fs key))
      else undefined

  shown_value-eq : (v : Json N) → sanitize_value v ≡ shown_value v
  unfolding sanitize_value
  shown_value-eq (object fs) = refl
  shown_value-eq (string s) = refl
  shown_value-eq (array vs) = refl
  shown_value-eq undefined = refl
  shown_value-eq null = refl
  shown_value-eq (boolean b) = refl
  shown_value-eq (number n) = refl

  get-insert :
      (k : Text) (v : Json N) (out : Fields N) (key : Text)
      → get (insert k v out) key ≡ (if text_eq k key then v else get out key)
  unfolding get insert
  get-insert k v end key = refl
  get-insert k v (field j w out) key = elim (Bool-cases (text_eq j k)) [
    | inl same ↦ let e = ap (λ x. text_eq x key) ((text_eq_iff j k).0 same) in ground arith
    | inr differ ↦ elim (Bool-cases (text_eq k key)) [
      | inl hit ↦
          let e = ap (λ x. text_eq j x) ((text_eq_iff k key).0 hit) in
          ground (arith, get-insert k v out key)
      | inr miss ↦ ground (arith, get-insert k v out key)
    ]
  ]

  get-assign :
      (k : Text) (v : Json N) (out : Fields N) (key : Text)
      → get (assign k v out) key
        ≡ (if text_eq k key && not (text_eq key proto) then v else get out key)
  unfolding assign
  get-assign k v out key = elim (Bool-cases (text_eq k key)) [
    | inl hit ↦
        let e = ap (λ x. text_eq x proto) ((text_eq_iff k key).0 hit) in
        ground (arith, get-insert k v out key)
    | inr miss ↦ ground (arith, get-insert k v out key)
  ]

  -- What the loop assigns.
  abbrev cell : Text → Json N → Json N
  cell k v = if is_sensitive_key k then string alert_mask else sanitize_value v

  sanitize_metadata-step :
      (k : Text) (v : Json N) (fs out : Fields N)
      → sanitize_metadata (field k v fs) out ≡ sanitize_metadata fs (assign k (cell k v) out)
  unfolding sanitize_value
  sanitize_metadata-step k v fs out = elim (Bool-cases (is_sensitive_key k)) [
    | inl e ↦ rw e refl
    | inr e ↦ rw e refl
  ]

  looked_up :
      (fs out : Fields N) (key : Text)
      → HasDistinctKeys fs
      → get (sanitize_metadata fs out) key
        ≡ (if has fs key && not (text_eq key proto) then cell key (get fs key) else get out key)
  unfolding get has sanitize_value
  looked_up end out key d = refl
  looked_up (field k v fs) out key (fresh, d) =
      ap (λ x. get x key) (sanitize_metadata-step k v fs out)
      ∙ looked_up fs (assign k (cell k v) out) key d
      ∙ elim (Bool-cases (text_eq k key)) [
        | inl hit ↦
            let e = (text_eq_iff k key).0 hit in
            let none_left : has fs key ≡ false = subst (λ x. has fs x ≡ false) e fresh in
            let same = ap (λ x. cell x v) e in ground (arith, get-assign k (cell k v) out key)
        | inr miss ↦ ground (arith, get-assign k (cell k v) out key)
      ]

  -- Under any key of metadata whose keys differ, other than __proto__, the sanitizer of alerts
  -- leaves the mask if the key mentions one of eleven words (token, secret, password and so on) in
  -- any case, and else the value: a text, masked if it is an address of a stream or a signed one;
  -- an object, sanitized in turn; and an array as it is, with whatever its objects hold. Under
  -- __proto__, and where there was nothing, there is nothing.
  pub get-sanitize_metadata :
      (fs : Fields N) (key : Text)
      → HasDistinctKeys fs
      → get (sanitize_metadata fs end) key ≡ shown fs key
  unfolding get
  get-sanitize_metadata fs key d =
      looked_up fs end key d
      ∙ ap
          (λ b.
            if has fs key && not (text_eq key proto)
            then (if b then string alert_mask else sanitize_value (get fs key))
            else undefined)
          (is_sensitive_key-eq key)
      ∙ ap
          (λ v.
            if has fs key && not (text_eq key proto)
            then (if mentions_secret key then string alert_mask else v)
            else undefined)
          (shown_value-eq (get fs key))
