-- ===== src/Billing/Read.antt =====
-- Reading subscriptions, payments and invoices: admin-dashboard/lib/admin/billing-normalizer.ts,
-- and `computeDaysRemaining` of billing-utils.ts. `to_text` is `String`.
use telecam.Prelude.{
  ℕ, ◌-◌, Bool, true, false, not, ◌&&◌, List, [], ◌∷◌, map, filter, Option, none, some, get_or,
  if◌then◌else◌,
}
use telecam.Text.{Text, text, text_eq, is_empty, trim, includes}
use telecam.Json.Defs.{Json, boolean, object, Engine, pick, str, get, has, as_record}
use telecam.Json.Case.{upper, lower}
use telecam.Search.{haystack_of}
use telecam.Session.Storage.{truthy}
use telecam.Cameras.Read.{keys2, keys3, str_at, record_or_empty, rows, unwrap_record, num}
use telecam.Alerts.Read.{text_of}
use telecam.Schools.Read.{rows_under}
use telecam.Billing.Types.{
  SubscriptionStatus, active, trial, expired, cancelled, past_due, blocked, disabled, PaymentStatus,
  pending, approved, rejected, refunded, InvoiceStatus, open_invoice, paid, void, voided, overdue,
  PaymentMethod, bank_transfer, telebirr, cash, manual, BillingFilters, NormalizedSubscription,
  NormalizedPayment, NormalizedInvoice, BillingItem,
}

abbrev subscription_status_of : Text → SubscriptionStatus
subscription_status_of s =
    if text_eq s (text "ACTIVE")
    then active
    else if text_eq s (text "TRIAL")
    then trial
    else if text_eq s (text "EXPIRED")
    then expired
    else if text_eq s (text "CANCELLED")
    then cancelled
    else if text_eq s (text "PAST_DUE")
    then past_due
    else if text_eq s (text "BLOCKED")
    then blocked
    else if text_eq s (text "DISABLED")
    then disabled
    else SubscriptionStatus.unknown

abbrev payment_status_of : Text → PaymentStatus
payment_status_of s =
    if text_eq s (text "PENDING")
    then pending
    else if text_eq s (text "APPROVED")
    then approved
    else if text_eq s (text "REJECTED")
    then rejected
    else if text_eq s (text "REFUNDED")
    then refunded
    else PaymentStatus.unknown

abbrev invoice_status_of : Text → InvoiceStatus
invoice_status_of s =
    if text_eq s (text "OPEN")
    then open_invoice
    else if text_eq s (text "PAID")
    then paid
    else if text_eq s (text "VOID")
    then void
    else if text_eq s (text "VOIDED")
    then voided
    else if text_eq s (text "OVERDUE")
    then overdue
    else InvoiceStatus.unknown

abbrev payment_method_of : Text → PaymentMethod
payment_method_of s =
    if text_eq s (text "BANK_TRANSFER")
    then bank_transfer
    else if text_eq s (text "TELEBIRR")
    then telebirr
    else if text_eq s (text "CASH")
    then cash
    else if text_eq s (text "MANUAL")
    then manual
    else PaymentMethod.unknown

-- `status === "VOID" || status === "VOIDED"`
abbrev is_void : InvoiceStatus → Bool
is_void void = true
is_void voided = true
is_void s = false

-- The UTC day of today, and the one of a text that `Date` can read. Days are counted from the
-- earliest that `Date` knows.
pub record Calendar : Type 0 where
  pub today : ℕ
  pub day_of : Text → Option ℕ

-- A day that has passed leaves none: the difference stops at 0.
unfoldable pub compute_days_remaining : Calendar → Option Text → Option ℕ
compute_days_remaining calendar ends_at = elim (truthy ends_at) [
  | none ↦ none
  | some s ↦ elim (calendar.day_of s) [ none ↦ none | some day ↦ some (day - calendar.today) ]
]

abbrev amount_keys : List Text
amount_keys = text "amount_cents" ∷ text "amountCents" ∷ text "amount_minor" ∷ text "amount" ∷ []

abbrev playback_keys : List Text
playback_keys =
    text "allowed_playback"
    ∷ text "allowedPlayback"
    ∷ text "playback_allowed"
    ∷ text "playbackAllowed"
    ∷ []

module _ {N : Type 0} where
  abbrev optional_bool : Json N → Option Bool
  optional_bool (boolean b) = some b
  optional_bool v = none

  -- The value under the key of a record that has it, else the record itself.
  unfoldable pub unwrap_detail : Text → Json N → Json N
  unfolding unwrap_record has get
  unwrap_detail key raw =
      let payload = unwrap_record raw in
      elim (as_record payload) [
        | none ↦ payload
        | some fs ↦ if has fs key then get fs key else payload
      ]

module _ {N : Type 0} (js : Engine N) (to_text : Json N → Text) where
  unfoldable pub normalize_subscription_status : Json N → SubscriptionStatus
  unfolding upper text_eq
  normalize_subscription_status value = subscription_status_of (upper js (text_of js to_text value))

  unfoldable pub normalize_payment_status : Json N → PaymentStatus
  unfolding upper text_eq
  normalize_payment_status value = payment_status_of (upper js (text_of js to_text value))

  unfoldable pub normalize_invoice_status : Json N → InvoiceStatus
  unfolding upper text_eq
  normalize_invoice_status value = invoice_status_of (upper js (text_of js to_text value))

  unfoldable pub normalize_payment_method : Json N → PaymentMethod
  unfolding upper text_eq
  normalize_payment_method value = payment_method_of (upper js (text_of js to_text value))

  unfoldable pub normalize_payment : Json N → NormalizedPayment N
  unfolding pick str num normalize_payment_status normalize_payment_method
  normalize_payment raw =
      let row = record_or_empty raw in
      record {
        id = get_or (str_at row (text "id" ∷ [])) [];
        parent_id = str_at row (keys2 (text "parent_id") (text "parentId"));
        parent_name = str_at row (keys2 (text "parent_name") (text "parentName"));
        parent_email = str_at row (keys2 (text "parent_email") (text "parentEmail"));
        school_id = str_at row (keys2 (text "school_id") (text "schoolId"));
        school_name = str_at row (keys2 (text "school_name") (text "schoolName"));
        subscription_id = str_at row (keys2 (text "subscription_id") (text "subscriptionId"));
        invoice_id = str_at row (keys2 (text "invoice_id") (text "invoiceId"));
        amount_cents = num js (pick row amount_keys);
        currency = get_or (str_at row (text "currency" ∷ [])) (text "ETB");
        method =
            normalize_payment_method
              (pick row (keys3 (text "method") (text "payment_method") (text "paymentMethod")));
        status = normalize_payment_status (pick row (text "status" ∷ []));
        reference = str_at row (text "reference" ∷ []);
        notes = str_at row (text "notes" ∷ []);
        paid_at = str_at row (keys2 (text "paid_at") (text "paidAt"));
        approved_at = str_at row (keys2 (text "approved_at") (text "approvedAt"));
        rejected_at = str_at row (keys2 (text "rejected_at") (text "rejectedAt"));
        created_at = str_at row (keys2 (text "created_at") (text "createdAt"));
        updated_at = str_at row (keys2 (text "updated_at") (text "updatedAt"));
      }

  unfoldable pub normalize_payments : Json N → List (NormalizedPayment N)
  unfolding unwrap_record pick rows normalize_payment
  normalize_payments raw =
      map (λ row. normalize_payment (object row))
        (rows_under js to_text (keys3 (text "payments") (text "data") (text "items"))
          (unwrap_record raw))

  unfoldable pub normalize_invoice : Json N → NormalizedInvoice N
  unfolding pick str num normalize_invoice_status
  normalize_invoice raw =
      let row = record_or_empty raw in
      let status = normalize_invoice_status (pick row (text "status" ∷ [])) in
      let updated_at = str_at row (keys2 (text "updated_at") (text "updatedAt")) in
      record {
        id = get_or (str_at row (text "id" ∷ [])) [];
        invoice_number = str_at row (keys2 (text "invoice_number") (text "invoiceNumber"));
        parent_id = str_at row (keys2 (text "parent_id") (text "parentId"));
        parent_name = str_at row (keys2 (text "parent_name") (text "parentName"));
        parent_email = str_at row (keys2 (text "parent_email") (text "parentEmail"));
        school_id = str_at row (keys2 (text "school_id") (text "schoolId"));
        school_name = str_at row (keys2 (text "school_name") (text "schoolName"));
        subscription_id = str_at row (keys2 (text "subscription_id") (text "subscriptionId"));
        amount_cents = num js (pick row amount_keys);
        currency = get_or (str_at row (text "currency" ∷ [])) (text "ETB");
        status = status;
        description = str_at row (keys2 (text "description") (text "notes"));
        due_date = str_at row (keys2 (text "due_date") (text "dueDate"));
        paid_at = str_at row (keys2 (text "paid_at") (text "paidAt"));
        voided_at = if is_void status then updated_at else none;
        created_at = str_at row (keys2 (text "created_at") (text "createdAt"));
        updated_at = updated_at;
      }

  unfoldable pub normalize_invoices : Json N → List (NormalizedInvoice N)
  unfolding unwrap_record pick rows normalize_invoice
  normalize_invoices raw =
      map (λ row. normalize_invoice (object row))
        (rows_under js to_text (keys3 (text "invoices") (text "data") (text "items"))
          (unwrap_record raw))

  unfoldable pub normalize_payment_detail : Json N → NormalizedPayment N
  unfolding unwrap_detail normalize_payment
  normalize_payment_detail raw = normalize_payment (unwrap_detail (text "payment") raw)

  unfoldable pub normalize_invoice_detail : Json N → NormalizedInvoice N
  unfolding unwrap_detail normalize_invoice
  normalize_invoice_detail raw = normalize_invoice (unwrap_detail (text "invoice") raw)

module _ {N : Type 0} (js : Engine N) (to_text : Json N → Text) (calendar : Calendar) where
  unfoldable pub normalize_subscription : Json N → NormalizedSubscription
  unfolding pick str normalize_subscription_status compute_days_remaining
  normalize_subscription raw =
      let row = record_or_empty raw in
      let ends_at = str_at row (keys2 (text "ends_at") (text "endsAt")) in
      record {
        id = get_or (str_at row (text "id" ∷ [])) [];
        parent_id = str_at row (keys2 (text "parent_id") (text "parentId"));
        parent_name = str_at row (keys2 (text "parent_name") (text "parentName"));
        parent_email = str_at row (keys2 (text "parent_email") (text "parentEmail"));
        school_id = str_at row (keys2 (text "school_id") (text "schoolId"));
        school_name = str_at row (keys2 (text "school_name") (text "schoolName"));
        child_id = str_at row (keys2 (text "child_id") (text "childId"));
        child_name = str_at row (keys2 (text "child_name") (text "childName"));
        status = normalize_subscription_status js to_text (pick row (text "status" ∷ []));
        plan = str_at row (keys3 (text "plan") (text "plan_type") (text "planType"));
        starts_at = str_at row (keys2 (text "starts_at") (text "startsAt"));
        ends_at = ends_at;
        days_remaining = compute_days_remaining calendar ends_at;
        playback_allowed = optional_bool (pick row playback_keys);
        created_at = str_at row (keys2 (text "created_at") (text "createdAt"));
        updated_at = str_at row (keys2 (text "updated_at") (text "updatedAt"));
      }

  unfoldable pub normalize_subscriptions : Json N → List NormalizedSubscription
  unfolding unwrap_record pick rows normalize_subscription
  normalize_subscriptions raw =
      map (λ row. normalize_subscription (object row))
        (rows_under js to_text (keys3 (text "subscriptions") (text "data") (text "items"))
          (unwrap_record raw))

  unfoldable pub normalize_subscription_detail : Json N → NormalizedSubscription
  unfolding unwrap_detail normalize_subscription
  normalize_subscription_detail raw =
      normalize_subscription (unwrap_detail (text "subscription") raw)

module _ {N T : Type 0} (js : Engine N) (view : T → BillingItem) where
  -- `filters.status && filters.status !== "all" && item.status !== filters.status`
  abbrev misses_billing_status : Option Text → Option Text → Bool
  misses_billing_status wanted status = elim (truthy wanted) [
    | none ↦ false
    | some w ↦
        not (text_eq w (text "all")) && elim status [ none ↦ true | some s ↦ not (text_eq s w) ]
  ]

  abbrev item_parts : BillingItem → List (Option Text)
  item_parts i =
      i.parent_name ∷ i.parent_email ∷ i.school_name ∷ i.reference ∷ i.invoice_number ∷ i.status
      ∷ []

  unfoldable pub filter_billing_items : List T → BillingFilters → List T
  unfolding lower trim text_eq includes haystack_of
  filter_billing_items items filters =
      let q = lower js (trim (get_or filters.search [])) in
      filter
        (λ t.
          if misses_billing_status filters.status (view t).status
          then false
          else if is_empty q
          then true
          else includes (haystack_of js (item_parts (view t))) q)
        items
