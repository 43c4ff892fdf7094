-- ===== src/Json/Laws.antt =====
-- Property access after assignment.
use telecam.Prelude.{◌≡◌, refl, arith, if◌then◌else◌}
use telecam.Text.{Text, text_eq}
use telecam.Text.Laws.{text_eq_iff}
use telecam.Json.Defs.{Json, Fields, field, end, get, insert}

module _ {N : Type 0} where
  pub get-insert :
      (k j : Text) (v : Json N) (fs : Fields N)
      → get (insert k v fs) j ≡ (if text_eq k j then v else get fs j)
  unfolding get insert
  get-insert k j v end = refl
  get-insert k j v (field i w fs) =
      ground (arith, text_eq_iff k j, text_eq_iff i k, text_eq_iff i j, get-insert k j v fs)
