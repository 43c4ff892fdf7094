-- ===== src/Search.antt =====
-- The search of a list: `matchesSearch` of admin-dashboard/lib/list-controls.ts.
use telecam.Prelude.{Bool, true, List, [], ◌∷◌, Option, none, some, if◌then◌else◌}
use telecam.Text.{Text, text, is_empty, trim, join, includes}
use telecam.Json.Defs.{Engine}
use telecam.Json.Case.{lower}

-- `parts.filter(Boolean)`
unfoldable pub filled_parts : List (Option Text) → List Text
filled_parts [] = []
filled_parts (none ∷ parts) = filled_parts parts
filled_parts (some [] ∷ parts) = filled_parts parts
filled_parts (some (c ∷ s) ∷ parts) = (c ∷ s) ∷ filled_parts parts

module _ {N : Type 0} (js : Engine N) where
  -- `parts.filter(Boolean).join(" ").toLowerCase()`
  unfoldable pub haystack_of : List (Option Text) → Text
  unfolding filled_parts lower join
  haystack_of parts = lower js (join (text " ") (filled_parts parts))

  unfoldable pub matches_search : List (Option Text) → Text → Bool
  unfolding haystack_of lower trim includes
  matches_search haystack_parts query =
      let q = lower js (trim query) in
      if is_empty q then true else includes (haystack_of haystack_parts) q
