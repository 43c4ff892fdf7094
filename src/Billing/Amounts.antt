-- ===== src/Billing/Amounts.antt =====
-- Amounts of money: `toMinorUnits` of a text and of a number, in
-- admin-dashboard/lib/admin/billing-utils.ts, and the conversions of the forms of payments and
-- invoices, in admin-dashboard/lib/billing-form.ts. Numbers and their arithmetic are JavaScript's,
-- a parameter.
pub mod Laws
use telecam.Prelude.{
  Bool, not, ◌||◌, List, [], ◌∷◌, filter, Option, none, some, ◌==◌, if◌then◌else◌,
}
use telecam.Text.{Text, text, trim, is_empty, starts_with}
use telecam.Text.Digits.{is_digit, split_dots}
use telecam.Json.Defs.{Engine}
use telecam.Json.Numbers.{Arithmetic}
use telecam.Session.Storage.{truthy}

-- `amount.replace(/,/g, "")`, and `s.replace(/\D/g, "")`
abbrev pub without_commas : Text → Text
without_commas = filter (λ c. not (c == b','))

abbrev pub only_digits : Text → Text
only_digits = filter is_digit

-- `.padEnd(2, "0").slice(0, 2)`
abbrev pub two_digits : Text → Text
two_digits [] = text "00"
two_digits (a ∷ []) = a ∷ b'0' ∷ []
two_digits (a ∷ b ∷ s) = a ∷ b ∷ []

module _ {N : Type 0} (js : Engine N) (a : Arithmetic N) where
  -- `Number(digits || "0")`
  abbrev pub number_or_zero : Text → N
  number_or_zero s = js.parse_number (if is_empty s then text "0" else s)

  -- `Number(whole) * 100 + Number(frac || "0")`
  abbrev pub cents_from : Text → Text → N
  cents_from whole frac =
      a.plus (a.times (number_or_zero (only_digits whole)) (js.of_nat 100))
        (number_or_zero (two_digits (only_digits frac)))

  -- The cents of an amount that was split at its dots.
  abbrev pub cents_of : List Text → N
  cents_of [] = js.of_nat 0
  cents_of (whole ∷ []) = cents_from whole []
  cents_of (whole ∷ frac ∷ rest) = cents_from whole frac

  -- What follows the sign.
  abbrev pub signed_cents : Text → N
  signed_cents [] = js.of_nat 0
  signed_cents (c ∷ s) =
      if starts_with (c ∷ s) (text "-")
      then a.negate (cents_of (split_dots s))
      else cents_of (split_dots (c ∷ s))

  unfoldable pub to_minor_units : Text → N
  unfolding trim starts_with split_dots
  to_minor_units amount = signed_cents (trim (without_commas amount))

  -- The branch of a number.
  unfoldable pub minor_units_of_number : N → N
  minor_units_of_number amount =
      if not (js.is_finite amount) || a.at_most amount (js.of_nat 0)
      then js.of_nat 0
      else a.round (a.times amount (js.of_nat 100))

-- The result of a conversion that may throw an error with a message.
pub data Converted (A : Type 0) : Type 0 where
  converted : A → Converted A
  failed : Text → Converted A

pub record PaymentFormValues : Type 0 where
  pub parent_id : Text
  pub school_id : Text
  pub amount : Text
  pub currency : Text
  pub method : Text
  pub reference : Option Text
  pub notes : Option Text
  pub subscription_id : Option Text

pub record InvoiceFormValues : Type 0 where
  pub parent_id : Text
  pub school_id : Text
  pub amount : Text
  pub currency : Text
  pub due_date : Text
  pub description : Text
  pub notes : Option Text
  pub subscription_id : Option Text

pub record CreatePaymentInput (N : Type 0) : Type 0 where
  pub parent_id : Text
  pub school_id : Text
  pub amount_cents : N
  pub currency : Option Text
  pub method : Text
  pub reference : Option Text
  pub notes : Option Text
  pub subscription_id : Option Text

pub record CreateInvoiceInput (N : Type 0) : Type 0 where
  pub parent_id : Text
  pub school_id : Text
  pub amount_cents : N
  pub currency : Option Text
  pub due_date : Text
  pub subscription_id : Option Text

-- `currency || "ETB"`
abbrev or_etb : Text → Text
or_etb s = if is_empty s then text "ETB" else s

abbrev pub payment_of : {N : Type 0} → PaymentFormValues → N → CreatePaymentInput N
payment_of values cents = record {
  parent_id = values.parent_id;
  school_id = values.school_id;
  amount_cents = cents;
  currency = some (or_etb values.currency);
  method = values.method;
  reference = values.reference;
  notes = values.notes;
  subscription_id = truthy values.subscription_id;
}

abbrev invoice_of : {N : Type 0} → InvoiceFormValues → N → CreateInvoiceInput N
invoice_of values cents = record {
  parent_id = values.parent_id;
  school_id = values.school_id;
  amount_cents = cents;
  currency = some (or_etb values.currency);
  due_date = values.due_date;
  subscription_id = truthy values.subscription_id;
}

abbrev pub not_positive : Text
not_positive = text "Amount must be greater than zero"

module _ {N : Type 0} (js : Engine N) (a : Arithmetic N) where
  -- `if (cents <= 0) throw`
  abbrev pub if_positive : {A : Type 0} → N → A → Converted A
  if_positive cents input =
      if a.at_most cents (js.of_nat 0) then failed not_positive else converted input

  unfoldable pub payment_form_to_input : PaymentFormValues → Converted (CreatePaymentInput N)
  unfolding to_minor_units
  payment_form_to_input values =
      let cents = to_minor_units js a values.amount in if_positive cents (payment_of values cents)

  unfoldable pub invoice_form_to_input : InvoiceFormValues → Converted (CreateInvoiceInput N)
  unfolding to_minor_units
  invoice_form_to_input values =
      let cents = to_minor_units js a values.amount in if_positive cents (invoice_of values cents)
