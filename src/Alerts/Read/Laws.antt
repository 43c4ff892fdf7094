-- ===== src/Alerts/Read/Laws.antt =====
-- What is read as an alert or a delivery.
use telecam.Prelude.{
  ◌≡◌, true, false, not, List, [], ◌∷◌, map, filter, Option, none, some, All, get_or, arith,
  Bool-cases, inl, inr,
}
use telecam.Text.{Text, text, includes, is_empty}
use telecam.Json.Defs.{
  Json, undefined, null, boolean, number, string, array, object, Fields, Engine, as_record, items,
}
use telecam.Json.Case.{lower}
use telecam.Cameras.Read.{str_at, record_or_empty, unwrap_record}
use telecam.Alerts.Sanitize.{alert_mask}
use telecam.Alerts.Clean.{Masks, sanitize_metadata-Masks}
use telecam.Alerts.Types.{NormalizedAlert, NormalizedAlertDelivery}
use telecam.Alerts.Read.{
  sanitized, parsed_record, parse_metadata, normalize_alert, normalize_alerts_list, mask_recipient,
  normalize_alert_delivery, normalize_alert_deliveries, delivery_rows, array_items,
}

module _ {N : Type 0} (js : Engine N) (to_text : Json N → Text) where
  abbrev pub MasksOption : Option (Fields N) → Type 0
  MasksOption none = Unit
  MasksOption (some fs) = Masks fs

  abbrev pub MasksMetadata : NormalizedAlert N → Type 0
  MasksMetadata alert = MasksOption alert.metadata

  sanitized-Masks : (o : Option (Fields N)) → MasksOption (sanitized js to_text o)
  sanitized-Masks none = tt
  sanitized-Masks (some fs) = sanitize_metadata-Masks fs

  parsed_record-Masks : (o : Option (Json N)) → MasksOption (parsed_record js to_text o)
  parsed_record-Masks none = tt
  parsed_record-Masks (some v) = sanitized-Masks (as_record v)

  parse_metadata-Masks : (v : Json N) → MasksOption (parse_metadata js to_text v)
  unfolding parse_metadata
  parse_metadata-Masks undefined = tt
  parse_metadata-Masks null = tt
  parse_metadata-Masks (string s) = parsed_record-Masks (js.parse s)
  parse_metadata-Masks (boolean b) = tt
  parse_metadata-Masks (number n) = tt
  parse_metadata-Masks (array vs) = tt
  parse_metadata-Masks (object fs) = sanitize_metadata-Masks fs

  pub normalize_alert-MasksMetadata :
      (raw : Json N) → MasksMetadata (normalize_alert js to_text raw)
  unfolding normalize_alert
  normalize_alert-MasksMetadata raw = parse_metadata-Masks _

  alerts-MaskMetadata :
      (raws : List (Json N)) → All MasksMetadata (map (normalize_alert js to_text) raws)
  alerts-MaskMetadata [] = tt
  alerts-MaskMetadata (raw ∷ raws) = (normalize_alert-MasksMetadata raw, alerts-MaskMetadata raws)

  -- Whatever the answer, metadata in a text included.
  pub normalize_alerts_list-MaskMetadata :
      (raw : Json N) → All MasksMetadata (normalize_alerts_list js to_text raw).alerts
  unfolding normalize_alerts_list
  normalize_alerts_list-MaskMetadata (array vs) = alerts-MaskMetadata (items vs)
  normalize_alerts_list-MaskMetadata (object fs) = alerts-MaskMetadata (array_items _)
  normalize_alerts_list-MaskMetadata undefined = tt
  normalize_alerts_list-MaskMetadata null = tt
  normalize_alerts_list-MaskMetadata (string s) = tt
  normalize_alerts_list-MaskMetadata (boolean b) = tt
  normalize_alerts_list-MaskMetadata (number n) = tt

  -- A telegram recipient is not shown, and every delivery has an alert.
  abbrev pub IsMasked : NormalizedAlertDelivery N → Type 0
  IsMasked d =
      (includes (lower js (get_or d.channel [])) (text "telegram") ≡ true
        → (r : Text) → d.recipient ≡ some r
        → is_empty r ≡ false
        → r ≡ alert_mask)
      × (is_empty d.alert_id ≡ false)

  mask_recipient-alert_mask :
      (channel recipient : Option Text)
      → includes (lower js (get_or channel [])) (text "telegram") ≡ true
      → (r : Text) → mask_recipient js to_text channel recipient ≡ some r
      → is_empty r ≡ false
      → r ≡ alert_mask
  unfolding mask_recipient
  mask_recipient-alert_mask channel none h r e f = cc
  mask_recipient-alert_mask channel (some recipient) h r e f = ground arith

  kept-AreMasked :
      (raws : List (Json N))
      → All IsMasked
          (filter (λ d. not (is_empty d.alert_id)) (map (normalize_alert_delivery js to_text) raws))
  unfolding normalize_alert_delivery
  kept-AreMasked [] = tt
  kept-AreMasked (raw ∷ raws) =
      elim (Bool-cases (is_empty (normalize_alert_delivery js to_text raw).alert_id)) [
        | inl e ↦ rw (e, All) (kept-AreMasked raws)
        | inr e ↦
            rw (e, All)
              (
                (
                  mask_recipient-alert_mask (normalize_alert_delivery js to_text raw).channel
                      (str_at (record_or_empty raw) (text "recipient" ∷ [])),
                  e,
                ),
                kept-AreMasked raws,
              )
      ]

  pub normalize_alert_deliveries-AreMasked :
      (raw : Json N) → All IsMasked (normalize_alert_deliveries js to_text raw)
  unfolding normalize_alert_deliveries
  normalize_alert_deliveries-AreMasked raw =
      kept-AreMasked (delivery_rows js to_text (unwrap_record raw))
