-- ===== src/Text/Laws.antt =====
-- What the string operations of `Text` satisfy.
use telecam.Prelude.{◌≡◌, refl, ◌↔◌, true, false, [], ◌∷◌, ◌++◌, arith, ap, ◌∙◌}
use telecam.Text.{Text, text_eq, starts_with, includes, is_space, trim_start, trim_end, trim}

pub text_eq_refl : (s : Text) → text_eq s s ≡ true
unfolding text_eq
text_eq_refl [] = refl
text_eq_refl (c ∷ s) = ground (arith, text_eq_refl s)

pub text_eq_sound : (s t : Text) → text_eq s t ≡ true → s ≡ t
unfolding text_eq
text_eq_sound [] [] h = refl
text_eq_sound [] (d ∷ t) h = ground arith
text_eq_sound (c ∷ s) [] h = ground arith
text_eq_sound (c ∷ s) (d ∷ t) h = ground (arith, text_eq_sound s t)

pub text_eq_iff : (s t : Text) → (text_eq s t ≡ true) ↔ (s ≡ t)
text_eq_iff s t = ground (arith, text_eq_sound s t, text_eq_refl s)

pub starts_with-append : (p s : Text) → starts_with (p ++ s) p ≡ true
unfolding starts_with
starts_with-append [] [] = refl
starts_with-append [] (d ∷ t) = refl
starts_with-append (c ∷ p) s = ground (arith, starts_with-append p s)

pub starts_with_refl : (s : Text) → starts_with s s ≡ true
unfolding starts_with
starts_with_refl [] = refl
starts_with_refl (c ∷ s) = ground (arith, starts_with_refl s)

pub includes-append_left : (a b p : Text) → includes b p ≡ true → includes (a ++ b) p ≡ true
unfolding includes
includes-append_left [] b p h = h
includes-append_left (c ∷ a) b p h = ground (arith, includes-append_left a b p h)

pub includes_of_starts_with : (s p : Text) → starts_with s p ≡ true → includes s p ≡ true
unfolding includes
includes_of_starts_with [] p h = h
includes_of_starts_with (c ∷ s) p h = ground arith

pub includes-middle : (a p b : Text) → includes (a ++ (p ++ b)) p ≡ true
includes-middle a p b =
    includes-append_left a (p ++ b) p (includes_of_starts_with (p ++ b) p (starts_with-append p b))

-- No white space at the front.
abbrev IsFlush : Text → Type 0
IsFlush [] = Unit
IsFlush (c ∷ s) = is_space c ≡ false

trim_start-IsFlush : (s : Text) → IsFlush (trim_start s)
unfolding trim_start
trim_start-IsFlush [] = tt
trim_start-IsFlush (c ∷ s) = ground (arith, trim_start-IsFlush s)

trim_end-IsFlush : (s : Text) → IsFlush s → IsFlush (trim_end s)
unfolding trim_end
trim_end-IsFlush [] h = tt
trim_end-IsFlush (c ∷ s) h = ground arith

trim_start_of_IsFlush : (s : Text) → IsFlush s → trim_start s ≡ s
unfolding trim_start
trim_start_of_IsFlush [] h = refl
trim_start_of_IsFlush (c ∷ s) h = ground arith

pub trim_end_idem : (s : Text) → trim_end (trim_end s) ≡ trim_end s
unfolding trim_end
trim_end_idem [] = refl
trim_end_idem (c ∷ s) = ground (arith, trim_end_idem s)

pub trim_idem : (s : Text) → trim (trim s) ≡ trim s
unfolding trim
trim_idem s =
    ap trim_end (
      trim_start_of_IsFlush (trim_end (trim_start s))
        (trim_end-IsFlush (trim_start s) (trim_start-IsFlush s)))
    ∙ trim_end_idem (trim_start s)
