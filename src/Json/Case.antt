-- ===== src/Json/Case.antt =====
-- `toUpperCase` and `toLowerCase`: the ASCII characters by their table, the others as the engine
-- maps them.
use telecam.Prelude.{ℕ, ◌<◌, ◌≡◌, refl, [], ◌∷◌, ◌++◌, map, ltb, arith, All, if◌then◌else◌, sym}
use telecam.Text.{Text, ascii_upper, ascii_lower}
use telecam.Json.Defs.{Engine}
use mathlib.Core.List.{append_assoc, append-nil}

module _ {N : Type 0} (js : Engine N) where
  unfoldable pub upper : Text → Text
  unfolding ascii_upper
  upper [] = []
  upper (c ∷ s) = (if ltb c 128 then ascii_upper c ∷ [] else js.upper_above c) ++ upper s

  unfoldable pub lower_from : Text → Text → Text
  unfolding ascii_lower
  lower_from done [] = []
  lower_from done (c ∷ s) =
      (if ltb c 128 then ascii_lower c ∷ [] else js.lower_above done c s)
      ++ lower_from (done ++ c ∷ []) s

  unfoldable pub lower : Text → Text
  unfolding lower_from
  lower s = lower_from [] s

abbrev pub IsAscii : ℕ → Type 0
IsAscii c = c < 128

module _ {N : Type 0} (js : Engine N) where
  pub upper-ascii : (s : Text) → All IsAscii s → upper js s ≡ map ascii_upper s
  unfolding upper
  upper-ascii [] h = refl
  upper-ascii (c ∷ s) h = ground (arith, upper-ascii s h.1)

  pub upper-append : (s t : Text) → upper js (s ++ t) ≡ upper js s ++ upper js t
  unfolding upper
  upper-append [] t = refl
  upper-append (c ∷ s) t = rw (upper-append s t) (sym (append_assoc _ (upper js s) (upper js t)))

  -- The ASCII characters of a text are mapped wherever they stand.
  pub lower_from-ascii :
      (done p s : Text)
      → All IsAscii p
      → lower_from js done (p ++ s) ≡ map ascii_lower p ++ lower_from js (done ++ p) s
  unfolding lower_from
  lower_from-ascii done [] s h = rw append-nil
  lower_from-ascii done (c ∷ p) s h =
      rw (lower_from-ascii (done ++ c ∷ []) p s h.1, append_assoc) (ground arith)
