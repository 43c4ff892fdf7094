-- ===== src/Billing/Tests.antt =====
-- A payment of 1200.50.
use telecam.Prelude.{
  ℕ, ◌≡◌, refl, ◌+◌, ◌*◌, ◌-◌, ◌/◌, [], some, none, arith, leb, ltb, ◌==◌, if◌then◌else◌,
}
use telecam.Text.{text, trim, trim_start, trim_end, is_space, decimal, decimal_from, starts_with}
use telecam.Text.Digits.{number_from, split_dots}
use telecam.Json.Defs.{Engine}
use telecam.Json.Numbers.{Arithmetic}
use telecam.Json.Examples.{small_engine}
use telecam.Billing.Amounts.{
  PaymentFormValues, to_minor_units, payment_form_to_input, payment_of, failed, converted,
  not_positive,
}
use telecam.Billing.Amounts.Laws.{IsExact, payment_form_to_input-amount_text}

abbrev fees : PaymentFormValues
fees = record {
  parent_id = text "p1";
  school_id = text "s1";
  amount = text "1200.50";
  currency = [];
  method = text "CASH";
  reference = none;
  notes = none;
  subscription_id = some [];
}

-- Numbers that are natural numbers.
abbrev natural : Engine ℕ
natural = record small_engine { parse_number = number_from 0 }

abbrev naturals : Arithmetic ℕ
naturals = record {
  plus = λ m n. m + n;
  minus = λ m n. m - n;
  times = λ m n. m * n;
  over = λ m n. m / n;
  round = λ n. n;
  less = ltb;
  at_most = leb;
  negate = λ n. 0;
}

naturals-IsExact : IsExact natural naturals
naturals-IsExact = record {
  reads = λ s h l. refl;
  multiplies = λ m n l. refl;
  adds = λ m n l. refl;
  compares = λ n l. ground arith;
}

commas_are_dropped : to_minor_units natural naturals (text " 1,200.5 ") ≡ 120050
unfolding to_minor_units trim trim_start trim_end is_space starts_with split_dots
commas_are_dropped = refl

third_digit_is_dropped : to_minor_units natural naturals (text "0.019 ETB") ≡ 1
unfolding to_minor_units trim trim_start trim_end is_space starts_with split_dots
third_digit_is_dropped = refl

payment_form_to_input-amount_text_example : payment_form_to_input natural naturals fees ≡ (
    if 1200 * 100 + 50 == 0
    then failed not_positive
    else converted (payment_of fees (1200 * 100 + 50)))
unfolding decimal decimal_from
payment_form_to_input-amount_text_example =
    payment_form_to_input-amount_text natural naturals fees 1200 50 naturals-IsExact (omega arith)
      (omega arith) refl
