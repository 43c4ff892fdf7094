-- ===== src/Prelude/Lists.antt =====
-- Lists measured by native numbers, under the library's names, and the array methods that the
-- sources call.
use Prim.Native.Nat.{ℕ, zero, suc, ◌+◌, ◌-◌, ◌≤◌, ◌<◌, min}
use mathlib.Core.Path.{◌≡◌, refl, ap, sym}
use mathlib.Core.Logic.{inl, inr, ◌≢◌, ◌↔◌}
use mathlib.Core.Bool.{Bool, true, false, ◌&&◌, ◌||◌}
use mathlib.Core.List.{List, [], ◌∷◌, ◌++◌}
use mathlib.Core.Option.{Option, none, some}
use telecam.Prelude.Tests.{Bool-cases}
use native.Mathlib.Omega.{arith}
use native.Mathlib.Nat.{zero-add, suc-add}

module _ {ℓ} {A : Type ℓ} where
  abbrev pub length : List A → ℕ
  length [] = 0
  length (x ∷ xs) = suc (length xs)

  abbrev pub take : ℕ → List A → List A
  take zero xs = []
  take (suc n) [] = []
  take (suc n) (x ∷ xs) = x ∷ take n xs

  abbrev pub drop : ℕ → List A → List A
  drop zero xs = xs
  drop (suc n) [] = []
  drop (suc n) (x ∷ xs) = drop n xs

  abbrev pub head? : List A → Option A
  head? [] = none
  head? (x ∷ xs) = some x

  -- `xs.some(p)`
  abbrev pub any : (A → Bool) → List A → Bool
  any p [] = false
  any p (x ∷ xs) = p x || any p xs

  -- `xs.every(p)`
  abbrev pub all : (A → Bool) → List A → Bool
  all p [] = true
  all p (x ∷ xs) = p x && all p xs

  -- `xs.filter(p)`, by a Boolean test
  abbrev pub filter : (A → Bool) → List A → List A
  filter p [] = []
  filter p (x ∷ xs) = let rest = filter p xs in elim (p x) [ true ↦ x ∷ rest | false ↦ rest ]

  abbrev pub count : (A → Bool) → List A → ℕ
  count p [] = 0
  count p (x ∷ xs) = let rest = count p xs in elim (p x) [ true ↦ suc rest | false ↦ rest ]

  pub length-filter : (p : A → Bool) (xs : List A) → length (filter p xs) ≡ count p xs
  length-filter p [] = refl
  length-filter p (x ∷ xs) = elim (Bool-cases (p x)) [
    | inl e ↦ ground (arith, length-filter p xs)
    | inr e ↦ ground (arith, length-filter p xs)
  ]

  pub count-ext : {p q : A → Bool} → ((x : A) → p x ≡ q x) → (xs : List A) → count p xs ≡ count q xs
  count-ext h [] = refl
  count-ext {q} h (x ∷ xs) =
      let same = h x in
      elim (Bool-cases (q x)) [
        | inl e ↦ ground (arith, count-ext h xs)
        | inr e ↦ ground (arith, count-ext h xs)
      ]

  pub take-append-drop : (n : ℕ) (xs : List A) → take n xs ++ drop n xs ≡ xs
  take-append-drop zero xs = refl
  take-append-drop (suc n) [] = refl
  take-append-drop (suc n) (x ∷ xs) = ap (λ t. x ∷ t) (take-append-drop n xs)

  pub length-take : (n : ℕ) (xs : List A) → length (take n xs) ≡ min n (length xs)
  length-take zero xs = omega arith
  length-take (suc n) [] = omega arith
  length-take (suc n) (x ∷ xs) = omega (arith, length-take n xs)

  pub length-drop : (n : ℕ) (xs : List A) → length (drop n xs) ≡ length xs - n
  length-drop zero xs = omega arith
  length-drop (suc n) [] = omega arith
  length-drop (suc n) (x ∷ xs) = omega (arith, length-drop n xs)

  pub drop-nil : (n : ℕ) → drop n [] ≡ []
  drop-nil zero = refl
  drop-nil (suc n) = refl

  pub drop-drop : (m n : ℕ) (xs : List A) → drop m (drop n xs) ≡ drop (n + m) xs
  drop-drop m zero xs = rw zero-add
  drop-drop m (suc n) [] = rw (drop-nil m) (sym (drop-nil (suc n + m)))
  drop-drop m (suc n) (x ∷ xs) = rw suc-add (drop-drop m n xs)

  pub take-add : (m n : ℕ) (xs : List A) → take (m + n) xs ≡ take m xs ++ take n (drop m xs)
  take-add zero n xs = rw zero-add
  take-add (suc m) zero [] = rw suc-add
  take-add (suc m) (suc n) [] = rw suc-add
  take-add (suc m) n (x ∷ xs) = rw suc-add (ap (λ t. x ∷ t) (take-add m n xs))

  pub take_of_length-le : (n : ℕ) (xs : List A) → length xs ≤ n → take n xs ≡ xs
  take_of_length-le zero [] h = refl
  take_of_length-le zero (x ∷ xs) h = absurd (omega arith)
  take_of_length-le (suc n) [] h = refl
  take_of_length-le (suc n) (x ∷ xs) h = ap (λ t. x ∷ t) (take_of_length-le n xs (omega arith))

  pub length-pos : (xs : List A) → xs ≢ [] → 0 < length xs
  length-pos [] h = absurd (h refl)
  length-pos (x ∷ xs) h = omega arith

module _ {ℓ κ} {A : Type ℓ} (P : A → Type κ) where
  abbrev pub All : List A → Type κ
  All [] = Unit
  All (x ∷ xs) = P x × All xs

  pub All-intro : ((x : A) → P x) → (xs : List A) → All xs
  All-intro h [] = tt
  All-intro h (x ∷ xs) = (h x, All-intro h xs)

pub All-map {ℓ κ μ} :
    {A : Type ℓ} {P : A → Type κ} {Q : A → Type μ}
    → ((x : A) → P x → Q x)
    → (xs : List A) → All P xs
    → All Q xs
All-map h [] _ = tt
All-map h (x ∷ xs) (p, ps) = (h x p, All-map h xs ps)

-- `xs.every(p)` and `xs.some(p)` as predicates.
pub all_iff {ℓ} :
    {A : Type ℓ} (p : A → Bool) (xs : List A) → (all p xs ≡ true) ↔ All (λ x. p x ≡ true) xs
all_iff p [] = (λ _. tt, λ _. refl)
all_iff p (x ∷ xs) = ground (arith, all_iff p xs)

pub any-false_iff {ℓ} :
    {A : Type ℓ} (p : A → Bool) (xs : List A) → (any p xs ≡ false) ↔ All (λ x. p x ≡ false) xs
any-false_iff p [] = (λ _. tt, λ _. refl)
any-false_iff p (x ∷ xs) = ground (arith, any-false_iff p xs)
