-- ===== src/Billing/Amounts/Laws.antt =====
-- Amounts as they are usually written are read exactly.
use telecam.Prelude.{
  ℕ, ◌+◌, ◌*◌, ◌/◌, ◌%◌, ◌<◌, ◌≡◌, refl, ap, sym, ◌∙◌, if◌then◌else◌, true, false, [], ◌∷◌, ◌++◌,
  arith, All, ◌==◌,
}
use telecam.Text.{Text, text, decimal, is_space, trim, starts_with}
use telecam.Text.Digits.{
  is_digit, number_from, split_dots, IsDigits, IsTight, decimal_from-IsDigits,
  number_from-decimal_from, filter-digits, split_dots-digits, split_dots-append, trim_of_IsTight,
}
use telecam.Json.Defs.{Engine}
use telecam.Json.Numbers.{Arithmetic}
use telecam.Billing.Amounts.{
  without_commas, only_digits, number_or_zero, two_digits, cents_of, signed_cents, to_minor_units,
  if_positive, not_positive, PaymentFormValues, converted, failed, payment_of,
  payment_form_to_input,
}

-- Below this, JavaScript's numbers compute with natural numbers exactly: 2 ^ 53.
abbrev pub exact_below : ℕ
exact_below = 9007199254740992

-- What is used of JavaScript's numbers: `Number` of digits, where that of the empty text is 0, and
-- that natural numbers are computed exactly and compared with 0 below the bound.
pub record IsExact {N : Type 0} (js : Engine N) (a : Arithmetic N) : Type 0 where
  pub reads :
      (s : Text)
      → IsDigits s
      → number_from 0 s < exact_below
      → js.parse_number s ≡ js.of_nat (number_from 0 s)
  pub multiplies :
      (m n : ℕ) → m * n < exact_below → a.times (js.of_nat m) (js.of_nat n) ≡ js.of_nat (m * n)
  pub adds :
      (m n : ℕ) → m + n < exact_below → a.plus (js.of_nat m) (js.of_nat n) ≡ js.of_nat (m + n)
  pub compares : (n : ℕ) → n < exact_below → a.at_most (js.of_nat n) (js.of_nat 0) ≡ (n == 0)

abbrev pub fraction : ℕ → Text
fraction f = (b'0' + f / 10) ∷ (b'0' + f % 10) ∷ []

-- An amount with a whole part and two digits behind the dot.
abbrev pub amount_text : ℕ → ℕ → Text
amount_text whole f = decimal whole ++ b'.' ∷ fraction f

decimal-IsDigits : (n : ℕ) → IsDigits (decimal n)
unfolding decimal
decimal-IsDigits n = decimal_from-IsDigits (n + 1) n [] tt

number_from-decimal : (n : ℕ) → number_from 0 (decimal n) ≡ n
unfolding decimal
number_from-decimal n = number_from-decimal_from (n + 1) n [] (omega arith)

fraction-IsDigits : (f : ℕ) → f < 100 → IsDigits (fraction f)
fraction-IsDigits f h = (ground arith, (ground arith, tt))

-- Neither a comma nor white space.
abbrev IsClean : ℕ → Type 0
IsClean c = ((c == b',') ≡ false) × (is_space c ≡ false)

digit-IsClean : (c : ℕ) → is_digit c ≡ true → IsClean c
unfolding is_space
digit-IsClean c h = (ground arith, ground arith)

digits-AreClean : (s : Text) → IsDigits s → All IsClean s
digits-AreClean [] h = tt
digits-AreClean (c ∷ s) (h, hs) = (digit-IsClean c h, digits-AreClean s hs)

written-AreClean : (s t : Text) → IsDigits s → IsDigits t → All IsClean (s ++ b'.' ∷ t)
unfolding is_space
written-AreClean [] t hs ht = ((refl, refl), digits-AreClean t ht)
written-AreClean (c ∷ s) t (h, hs) ht = (digit-IsClean c h, written-AreClean s t hs ht)

without_commas_of_clean : (s : Text) → All IsClean s → without_commas s ≡ s
without_commas_of_clean [] h = refl
without_commas_of_clean (c ∷ s) ((h, _), hs) = ground (arith, without_commas_of_clean s hs)

AreClean-IsTight : (s : Text) → All IsClean s → IsTight s
AreClean-IsTight [] h = tt
AreClean-IsTight (c ∷ s) ((_, h), hs) = (h, AreClean-IsTight s hs)

no_sign : (c : ℕ) (s : Text) → is_digit c ≡ true → starts_with (c ∷ s) (text "-") ≡ false
unfolding starts_with
no_sign c s h = ground arith

number_of_fraction : (f : ℕ) → f < 100 → number_from 0 (fraction f) ≡ f
number_of_fraction f h = omega arith

module _ {N : Type 0} (js : Engine N) (a : Arithmetic N) where
  signed_cents-written :
      (s t : Text)
      → IsDigits s
      → signed_cents js a (s ++ b'.' ∷ t) ≡ cents_of js a (split_dots (s ++ b'.' ∷ t))
  unfolding starts_with
  signed_cents-written [] t h = refl
  signed_cents-written (c ∷ s) t (h, hs) = rw (no_sign c (s ++ b'.' ∷ t) h) refl

  number_or_zero-eq :
      (s : Text) (n : ℕ)
      → IsExact js a
      → IsDigits s
      → number_from 0 s ≡ n
      → n < exact_below
      → number_or_zero js a (only_digits s) ≡ js.of_nat n
  number_or_zero-eq [] n exact h e l =
      exact.reads (text "0") (refl, tt) (omega arith) ∙ ap js.of_nat e
  number_or_zero-eq (c ∷ s) n exact h e l =
      ap (number_or_zero js a) (filter-digits (c ∷ s) h)
      ∙ exact.reads (c ∷ s) h (rw e l)
      ∙ ap js.of_nat e

  cents_of-written :
      (whole f : ℕ)
      → IsExact js a
      → f < 100
      → whole * 100 + f < exact_below
      → cents_of js a (decimal whole ∷ fraction f ∷ []) ≡ js.of_nat (whole * 100 + f)
  cents_of-written whole f exact h l =
      let digits = fraction-IsDigits f h in
      let wholes =
        number_or_zero-eq (decimal whole) whole exact (decimal-IsDigits whole)
          (number_from-decimal whole) (omega arith) in
      let cents =
        number_or_zero-eq (fraction f) f exact digits (number_of_fraction f h) (omega arith) in
      let two : number_or_zero js a (two_digits (only_digits (fraction f))) ≡ js.of_nat f =
        ap (λ t. number_or_zero js a (two_digits t)) (filter-digits (fraction f) digits)
        ∙ sym (ap (number_or_zero js a) (filter-digits (fraction f) digits))
        ∙ cents in
      ap
        (λ n.
          a.plus (a.times n (js.of_nat 100))
            (number_or_zero js a (two_digits (only_digits (fraction f)))))
        wholes
      ∙ ap (λ n. a.plus (a.times (js.of_nat whole) (js.of_nat 100)) n) two
      ∙ ap (λ n. a.plus n (js.of_nat f)) (exact.multiplies whole 100 (omega arith))
      ∙ exact.adds (whole * 100) f l

  to_minor_units-amount_text :
      (whole f : ℕ)
      → IsExact js a
      → f < 100
      → whole * 100 + f < exact_below
      → to_minor_units js a (amount_text whole f) ≡ js.of_nat (whole * 100 + f)
  unfolding to_minor_units
  to_minor_units-amount_text whole f exact h l =
      let digits = decimal-IsDigits whole in
      let cents = fraction-IsDigits f h in
      let clean = written-AreClean (decimal whole) (fraction f) digits cents in
      ap (λ t. signed_cents js a (trim t)) (without_commas_of_clean (amount_text whole f) clean)
      ∙ ap (signed_cents js a) (trim_of_IsTight (amount_text whole f) (AreClean-IsTight _ clean))
      ∙ signed_cents-written (decimal whole) (fraction f) digits
      ∙ ap (cents_of js a) (
          split_dots-append (decimal whole) (fraction f) digits
          ∙ ap (λ ps. decimal whole ∷ ps) (split_dots-digits (fraction f) cents))
      ∙ cents_of-written whole f exact h l

  -- A payment whose amount is written as a whole number, a dot and two digits, with fewer than 2 ^
  -- 53 cents in all, is converted with exactly that many cents, and refused if they are zero,
  -- where the numbers of JavaScript read digits and compute with natural numbers exactly below
  -- that bound.
  pub payment_form_to_input-amount_text :
      (values : PaymentFormValues) (whole f : ℕ)
      → IsExact js a
      → f < 100
      → whole * 100 + f < exact_below
      → values.amount ≡ amount_text whole f
      → payment_form_to_input js a values ≡ (
          if whole * 100 + f == 0
          then failed not_positive
          else converted (payment_of values (js.of_nat (whole * 100 + f))))
  unfolding payment_form_to_input
  payment_form_to_input-amount_text values whole f exact h l e =
      let cents = ap (to_minor_units js a) e ∙ to_minor_units-amount_text whole f exact h l in
      ap (λ c. if_positive js a c (payment_of values c)) cents
      ∙ ap
          (λ b.
            if b
            then failed not_positive
            else converted (payment_of values (js.of_nat (whole * 100 + f))))
          (exact.compares (whole * 100 + f) l)
