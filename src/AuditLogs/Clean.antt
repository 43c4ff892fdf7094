-- ===== src/AuditLogs/Clean.antt =====
-- What the sanitizer of the audit logs promises.
use telecam.Prelude.{ℕ, suc, ◌≡◌, refl, Bool, true, false, Bool-cases, inl, inr, if◌then◌else◌}
use telecam.Text.{Text}
use telecam.Json.Defs.{
  Json, undefined, null, boolean, number, string, array, object, Items, nil, cons, Fields, end,
  field, Engine, assign,
}
use telecam.Json.Clean.{IsClean, IsCleanItems, IsCleanFields, assign-IsCleanFields}
use telecam.AuditLogs.Sanitize.{
  index_fields, mask, is_sensitive_metadata_key, sanitize_metadata_value, sanitize_items,
  sanitize_property, sanitize_fields, sanitize_metadata_record, or_null, assign_nested,
}

module _ {N : Type 0} (js : Engine N) where
  -- No sensitive key, at any depth, objects in arrays included, holds anything but the mask.
  abbrev pub Hides : Json N → Type 0
  Hides = IsClean mask (is_sensitive_metadata_key js) true

  abbrev HidesItems : Items N → Type 0
  HidesItems = IsCleanItems mask (is_sensitive_metadata_key js) true

  abbrev HidesFields : Fields N → Type 0
  HidesFields = IsCleanFields mask (is_sensitive_metadata_key js) true

  or_null-Hides : (fs : Fields N) → HidesFields fs → Hides (or_null fs)
  unfolding IsClean
  or_null-Hides end h = tt
  or_null-Hides (field k v fs) h = h

  choice-Hides : (b : Bool) (v w : Json N) → Hides v → Hides w → Hides (if b then v else w)
  choice-Hides true v w hv hw = hv
  choice-Hides false v w hv hw = hw

  -- A key that is not sensitive may be given any clean value.
  assign_plain :
      (key : Text) (v : Json N) (out : Fields N)
      → is_sensitive_metadata_key js key ≡ false
      → Hides v
      → HidesFields out
      → HidesFields (assign key v out)
  assign_plain key v out e c h =
      assign-IsCleanFields mask (is_sensitive_metadata_key js) true key v out (λ s. cc) c h

  assign_masked :
      (key : Text) (out : Fields N) → HidesFields out → HidesFields (assign key (string mask) out)
  unfolding IsClean
  assign_masked key out h =
      assign-IsCleanFields mask (is_sensitive_metadata_key js) true key (string mask) out
        (λ s. refl) tt h

  assign_nested-Hides :
      (key : Text) (nested out : Fields N)
      → is_sensitive_metadata_key js key ≡ false
      → HidesFields nested
      → HidesFields out
      → HidesFields (assign_nested js key nested out)
  unfolding IsClean
  assign_nested-Hides key end out e c h = h
  assign_nested-Hides key (field k v fs) out e c h =
      assign_plain key (object (field k v fs)) out e c h

  mutual
    unfolding sanitize_metadata_value IsClean

    value-Hides : (key : Text) (v : Json N) → Hides (sanitize_metadata_value js key v)
    value-Hides key (string s) =
        choice-Hides (is_sensitive_metadata_key js key) (string mask) _ tt tt
    value-Hides key (array vs) =
        choice-Hides (is_sensitive_metadata_key js key) (string mask) _ tt
          (λ _. items-Hides key 0 vs)
    value-Hides key (object fs) =
        choice-Hides (is_sensitive_metadata_key js key) (string mask) _ tt
          (or_null-Hides (sanitize_fields js fs end) (fields-Hides fs end tt))
    value-Hides key undefined = choice-Hides (is_sensitive_metadata_key js key) null undefined tt tt
    value-Hides key null = choice-Hides (is_sensitive_metadata_key js key) null null tt tt
    value-Hides key (boolean b) =
        choice-Hides (is_sensitive_metadata_key js key) (string mask) (boolean b) tt tt
    value-Hides key (number n) =
        choice-Hides (is_sensitive_metadata_key js key) (string mask) (number n) tt tt

    items-Hides : (key : Text) (i : ℕ) (vs : Items N) → HidesItems (sanitize_items js key i vs)
    items-Hides key i nil = tt
    items-Hides key i (cons v vs) = (value-Hides _ v, items-Hides key (suc i) vs)

    property-Hides :
        (key : Text) (v : Json N) (out : Fields N)
        → is_sensitive_metadata_key js key ≡ false
        → HidesFields out
        → HidesFields (sanitize_property js key v out)
    property-Hides key (object fs) out e h =
        assign_nested-Hides key (sanitize_fields js fs end) out e (fields-Hides fs end tt) h
    property-Hides key (array vs) out e h =
        assign_plain key (array (sanitize_items js key 0 vs)) out e (λ _. items-Hides key 0 vs) h
    property-Hides key undefined out e h = assign_plain key undefined out e tt h
    property-Hides key null out e h = assign_plain key null out e tt h
    property-Hides key (boolean b) out e h = assign_plain key (boolean b) out e tt h
    property-Hides key (number n) out e h = assign_plain key (number n) out e tt h
    property-Hides key (string s) out e h = assign_plain key (string s) out e tt h

    fields-Hides : (fs out : Fields N) → HidesFields out → HidesFields (sanitize_fields js fs out)
    fields-Hides end out h = h
    fields-Hides (field key v fs) out h = elim (Bool-cases (is_sensitive_metadata_key js key)) [
      | inl e ↦ rw (e) (fields-Hides fs (assign key (string mask) out) (assign_masked key out h))
      | inr e ↦
          rw (e) (fields-Hides fs (sanitize_property js key v out) (property-Hides key v out e h))
    ]

  -- What is left of an audit log's metadata holds nothing but the mask under a sensitive key, at
  -- any depth, in arrays too, whatever the metadata was.
  pub sanitize_metadata_record-Hides : (v : Json N) → Hides (sanitize_metadata_record js v)
  unfolding sanitize_metadata_record IsClean
  sanitize_metadata_record-Hides (object fs) =
      or_null-Hides (sanitize_fields js fs end) (fields-Hides fs end tt)
  sanitize_metadata_record-Hides undefined = tt
  sanitize_metadata_record-Hides null = tt
  sanitize_metadata_record-Hides (boolean b) = tt
  sanitize_metadata_record-Hides (number n) = tt
  sanitize_metadata_record-Hides (string s) = tt
  sanitize_metadata_record-Hides (array vs) =
      or_null-Hides (sanitize_fields js (index_fields 0 vs) end)
        (fields-Hides (index_fields 0 vs) end tt)
