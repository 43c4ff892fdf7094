-- ===== src/Text/Digits.antt =====
-- Numbers written as texts: splitting at a dot, and reading decimal digits, as the sources do it.
use telecam.Prelude.{
  ℕ, suc, zero, ◌+◌, ◌*◌, ◌-◌, ◌/◌, ◌%◌, ◌<◌, ◌≡◌, refl, ap, ◌∙◌, Bool, true, false, ◌&&◌, List, [],
  ◌∷◌, ◌++◌, filter, leb, ltb, ◌==◌, if◌then◌else◌, arith, All, Bool-cases, inl, inr,
}
use telecam.Text.{Text, is_space, trim, trim_start, trim_end, decimal_from}

abbrev first_onto : ℕ → List Text → List Text
first_onto c [] = (c ∷ []) ∷ []
first_onto c (part ∷ parts) = (c ∷ part) ∷ parts

-- `s.split(".")`
unfoldable pub split_dots : Text → List Text
split_dots [] = [] ∷ []
split_dots (c ∷ s) = let rest = split_dots s in if c == b'.' then [] ∷ rest else first_onto c rest

abbrev pub is_digit : ℕ → Bool
is_digit c = leb b'0' c && leb c b'9'

abbrev pub number_from : ℕ → Text → ℕ
number_from n [] = n
number_from n (c ∷ s) = number_from (n * 10 + (c - b'0')) s

abbrev pub IsDigits : Text → Type 0
IsDigits = All (λ c. is_digit c ≡ true)

IsDigits-last : (n : ℕ) → is_digit (b'0' + n % 10) ≡ true
IsDigits-last n = ground arith

pub decimal_from-IsDigits :
    (fuel n : ℕ) (done : Text) → IsDigits done → IsDigits (decimal_from fuel n done)
unfolding decimal_from
decimal_from-IsDigits zero n done h = h
decimal_from-IsDigits (suc fuel) n done h = elim (Bool-cases (ltb n 10)) [
  | inl e ↦ rw e (IsDigits-last n, h)
  | inr e ↦ rw e (decimal_from-IsDigits fuel (n / 10) ((b'0' + n % 10) ∷ done) (IsDigits-last n, h))
]

last_digit : (n : ℕ) → ltb n 10 ≡ true → 0 * 10 + (b'0' + n % 10 - b'0') ≡ n
last_digit n e = ground arith

next_digit : (n : ℕ) → n / 10 * 10 + (b'0' + n % 10 - b'0') ≡ n
next_digit n = omega arith

fewer : (n fuel : ℕ) → ltb n 10 ≡ false → n < suc fuel → n / 10 < fuel
fewer n fuel e h = ground arith

-- The digits of a number are read as the number, in front of what is there.
pub number_from-decimal_from :
    (fuel n : ℕ) (done : Text)
    → n < fuel
    → number_from 0 (decimal_from fuel n done) ≡ number_from n done
unfolding decimal_from
number_from-decimal_from zero n done h = ground arith
number_from-decimal_from (suc fuel) n done h = elim (Bool-cases (ltb n 10)) [
  | inl e ↦ rw e (ap (λ m. number_from m done) (last_digit n e))
  | inr e ↦ rw e (
      number_from-decimal_from fuel (n / 10) ((b'0' + n % 10) ∷ done) (fewer n fuel e h)
      ∙ ap (λ m. number_from m done) (next_digit n))
]

pub filter-digits : (s : Text) → IsDigits s → filter is_digit s ≡ s
filter-digits [] h = refl
filter-digits (c ∷ s) (h, hs) = ground (arith, filter-digits s hs)

no_dot : (c : ℕ) → is_digit c ≡ true → (c == b'.') ≡ false
no_dot c h = ground arith

pub split_dots-digits : (s : Text) → IsDigits s → split_dots s ≡ s ∷ []
unfolding split_dots
split_dots-digits [] h = refl
split_dots-digits (c ∷ s) (h, hs) = rw (no_dot c h, split_dots-digits s hs) refl

pub split_dots-append : (s t : Text) → IsDigits s → split_dots (s ++ b'.' ∷ t) ≡ s ∷ split_dots t
unfolding split_dots
split_dots-append [] t h = refl
split_dots-append (c ∷ s) t (h, hs) = rw (no_dot c h, split_dots-append s t hs) refl

-- No white space.
abbrev pub IsTight : Text → Type 0
IsTight = All (λ c. is_space c ≡ false)

trim_start_of_IsTight : (s : Text) → IsTight s → trim_start s ≡ s
unfolding trim_start
trim_start_of_IsTight [] h = refl
trim_start_of_IsTight (c ∷ s) (h, hs) = rw h refl

trim_end_of_IsTight : (s : Text) → IsTight s → trim_end s ≡ s
unfolding trim_end
trim_end_of_IsTight [] h = refl
trim_end_of_IsTight (c ∷ s) (h, hs) = rw (h, trim_end_of_IsTight s hs) refl

pub trim_of_IsTight : (s : Text) → IsTight s → trim s ≡ s
unfolding trim
trim_of_IsTight s h = rw (trim_start_of_IsTight s h) (trim_end_of_IsTight s h)
