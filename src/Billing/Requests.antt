-- ===== src/Billing/Requests.antt =====
-- Fetching and changing subscriptions, payments and invoices:
-- admin-dashboard/lib/admin/billing-api.ts. `to_text` is `String`, `encode` is
-- `encodeURIComponent`, `search_params` is `URLSearchParams`. The inputs that are sent as they are are given as their JSON value.
use telecam.Prelude.{List, [], ◌++◌, Option, none, some, get_or}
use telecam.Text.{Text, text, text_eq}
use telecam.Json.Defs.{Json, object, string, number, Fields, field, end}
use telecam.Json.Case.{upper}
use telecam.Session.World.{Env, M, pure, catch_with, ◌>>=◌}
use telecam.Session.Provider.{fetch_page}
use telecam.Session.Queries.{by_method, fetch_and, set_if, set_unless_all, query_of, no_rows}
use telecam.Billing.Types.{
  BillingFilters, NormalizedSubscription, NormalizedPayment, NormalizedInvoice,
}
use telecam.Billing.Amounts.{CreatePaymentInput, CreateInvoiceInput}
use telecam.Billing.Read.{
  Calendar, normalize_subscriptions, normalize_subscription_detail, normalize_payments,
  normalize_payment_detail, normalize_invoices, normalize_invoice_detail,
}

module _ {N : Type 0} (env : Env N) (search_params : List (Text × Text) → Text) where
  unfoldable pub build_billing_query : Option BillingFilters → Text
  unfolding upper text_eq
  build_billing_query none = query_of (search_params [])
  build_billing_query (some p) = query_of (
      search_params (
        set_if (text "school_id") p.school_id
        ++ (set_if (text "parent_id") p.parent_id
            ++ (set_unless_all (text "status") p.status (upper env.js)
                ++ set_unless_all (text "method") p.method (upper env.js)))))

module _ {N : Type 0} (env : Env N) (to_text : Json N → Text) (encode : Text → Text) where
  -- Sends a body and reads the answer.
  abbrev send_and : {A : Type 0} → Text → Text → Json N → (Json N → A) → M N A
  send_and path method body read = do
    raw ← fetch_page env path (by_method method (some (env.js.stringify body)))
    pure (read raw)

  abbrev item_path : Text → Text → Text → Text
  item_path kind id action = kind ++ (encode id ++ action)

  unfoldable pub get_subscriptions :
      (List (Text × Text) → Text)
      → Calendar
      → Option BillingFilters
      → M N (List NormalizedSubscription)
  unfolding build_billing_query
  get_subscriptions search_params calendar params =
      catch_with
        (fetch_and env (text "/admin/subscriptions" ++ build_billing_query env search_params params)
          (text "GET") (normalize_subscriptions env.js to_text calendar))
        no_rows

  unfoldable pub create_subscription : Calendar → Json N → M N NormalizedSubscription
  create_subscription calendar input =
      send_and (text "/admin/subscriptions") (text "POST") input
        (normalize_subscription_detail env.js to_text calendar)

  unfoldable pub update_subscription_status : Calendar → Text → Json N → M N NormalizedSubscription
  update_subscription_status calendar id input =
      send_and (item_path (text "/admin/subscriptions/") id (text "/status")) (text "PATCH") input
        (normalize_subscription_detail env.js to_text calendar)

  unfoldable pub extend_subscription : Calendar → Text → Json N → M N NormalizedSubscription
  extend_subscription calendar id input =
      send_and (item_path (text "/admin/subscriptions/") id (text "/extend")) (text "PATCH") input
        (normalize_subscription_detail env.js to_text calendar)

  unfoldable pub get_payments :
      (List (Text × Text) → Text) → Option BillingFilters → M N (List (NormalizedPayment N))
  unfolding build_billing_query
  get_payments search_params params =
      catch_with
        (fetch_and env (text "/admin/payments" ++ build_billing_query env search_params params)
          (text "GET") (normalize_payments env.js to_text))
        no_rows

  abbrev payment_body : CreatePaymentInput N → Fields N
  payment_body input = field (text "parent_id") (string input.parent_id) (
      field (text "school_id") (string input.school_id) (
        field (text "amount_cents") (number input.amount_cents) (
          field (text "currency") (string (get_or input.currency (text "ETB"))) (
            field (text "method") (string input.method) (
              field (text "reference") (string (get_or input.reference [])) (
                field (text "notes") (string (get_or input.notes [])) (
                  field (text "subscription_id") (string (get_or input.subscription_id []))
                    end)))))))

  unfoldable pub create_payment : CreatePaymentInput N → M N (NormalizedPayment N)
  create_payment input =
      send_and (text "/admin/payments") (text "POST") (object (payment_body input))
        (normalize_payment_detail env.js to_text)

  unfoldable pub approve_payment : Text → Option (Json N) → M N (NormalizedPayment N)
  approve_payment id input =
      send_and (item_path (text "/admin/payments/") id (text "/approve")) (text "PATCH")
        (get_or input (object end)) (normalize_payment_detail env.js to_text)

  unfoldable pub reject_payment : Text → Text → M N (NormalizedPayment N)
  reject_payment id notes =
      send_and (item_path (text "/admin/payments/") id (text "/reject")) (text "PATCH")
        (object (field (text "notes") (string notes) end)) (normalize_payment_detail env.js to_text)

  unfoldable pub get_invoices :
      (List (Text × Text) → Text) → Option BillingFilters → M N (List (NormalizedInvoice N))
  unfolding build_billing_query
  get_invoices search_params params =
      catch_with
        (fetch_and env (text "/admin/invoices" ++ build_billing_query env search_params params)
          (text "GET") (normalize_invoices env.js to_text))
        no_rows

  abbrev invoice_body : CreateInvoiceInput N → Fields N
  invoice_body input = field (text "parent_id") (string input.parent_id) (
      field (text "school_id") (string input.school_id) (
        field (text "amount_cents") (number input.amount_cents) (
          field (text "currency") (string (get_or input.currency (text "ETB"))) (
            field (text "due_date") (string input.due_date)
              (field (text "subscription_id") (string (get_or input.subscription_id [])) end)))))

  unfoldable pub create_invoice : CreateInvoiceInput N → M N (NormalizedInvoice N)
  create_invoice input =
      send_and (text "/admin/invoices") (text "POST") (object (invoice_body input))
        (normalize_invoice_detail env.js to_text)

  unfoldable pub mark_invoice_paid : Text → M N (NormalizedInvoice N)
  mark_invoice_paid id =
      send_and (item_path (text "/admin/invoices/") id (text "/mark-paid")) (text "PATCH")
        (object end) (normalize_invoice_detail env.js to_text)

  -- The input of `voidInvoice` is not sent.
  unfoldable pub void_invoice : Text → M N (NormalizedInvoice N)
  void_invoice id =
      send_and (item_path (text "/admin/invoices/") id (text "/void")) (text "PATCH") (object end)
        (normalize_invoice_detail env.js to_text)
