-- ===== src/Alerts/Clean.antt =====
-- What the sanitizer of alerts promises.
use telecam.Prelude.{refl, false, Bool-cases, inl, inr}
use telecam.Json.Defs.{
  Json, undefined, null, boolean, number, string, array, object, Fields, end, field, assign,
}
use telecam.Json.Clean.{IsClean, IsCleanFields, assign-IsCleanFields}
use telecam.Alerts.Sanitize.{is_sensitive_key, alert_mask, sanitize_value, sanitize_metadata}

module _ {N : Type 0} where
  -- No sensitive key holds anything but the mask, at any depth, but not inside arrays.
  abbrev pub Masks : Fields N → Type 0
  Masks = IsCleanFields alert_mask is_sensitive_key false

  abbrev MasksValue : Json N → Type 0
  MasksValue = IsClean alert_mask is_sensitive_key false

  mutual
    unfolding sanitize_value IsClean

    value-Masks : (v : Json N) → MasksValue (sanitize_value v)
    value-Masks (object fs) = fields-Masks fs end tt
    value-Masks (string s) = tt
    value-Masks undefined = tt
    value-Masks null = tt
    value-Masks (boolean b) = tt
    value-Masks (number n) = tt
    value-Masks (array vs) = λ h. cc

    fields-Masks : (fs out : Fields N) → Masks out → Masks (sanitize_metadata fs out)
    fields-Masks end out h = h
    fields-Masks (field key v fs) out h = elim (Bool-cases (is_sensitive_key key)) [
      | inl e ↦ rw e (
          fields-Masks fs (assign key (string alert_mask) out) (
            assign-IsCleanFields alert_mask is_sensitive_key false key (string alert_mask) out
              (λ s. refl) tt h))
      | inr e ↦ rw e (
          fields-Masks fs (assign key (sanitize_value v) out) (
            assign-IsCleanFields alert_mask is_sensitive_key false key (sanitize_value v) out
              (λ s. cc) (value-Masks v) h))
    ]

  -- What is left of an alert's metadata holds nothing but the mask under a sensitive key, at any
  -- depth outside of arrays.
  pub sanitize_metadata-Masks : (fs : Fields N) → Masks (sanitize_metadata fs end)
  unfolding IsClean
  sanitize_metadata-Masks fs = fields-Masks fs end tt
