-- ===== src/Json/Examples.antt =====
-- An engine for tests: numbers are natural numbers, the text `{}` is the only JSON, and no letter
-- above ASCII has another case.
use telecam.Prelude.{ℕ, true, ◌==◌, [], ◌∷◌, none, some, if◌then◌else◌}
use telecam.Text.{text, text_eq}
use telecam.Json.Defs.{Engine, object, end}

abbrev pub small_engine : Engine ℕ
small_engine = record {
  is_finite = λ n. true;
  is_falsy = λ n. n == 0;
  parse_number = λ s. 0;
  of_nat = λ n. n;
  upper_above = λ c. c ∷ [];
  lower_above = λ before c behind. c ∷ [];
  parse = λ s. if text_eq s (text "{}") then some (object end) else none;
  stringify = λ v. text "{}";
}
