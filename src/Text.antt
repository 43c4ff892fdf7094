-- ===== src/Text.antt =====
-- JavaScript strings as the sources use them. A text is the list of its code points; a lone
-- surrogate is a code point of its own.
pub mod Laws
pub mod Split
pub mod Digits
use Prim.Native.Char.{code}
use telecam.Prelude.{
  ℕ, zero, suc, ◌+◌, ◌-◌, ◌/◌, ◌%◌, Bool, true, false, ◌&&◌, ◌||◌, List, [], ◌∷◌, ◌++◌, String, ltb,
  leb, ◌==◌, if◌then◌else◌,
}

abbrev pub Text : Type 0
Text = List ℕ

-- A literal of the source.
abbrev pub text : String → Text
text String.[] = []
text (String.◌∷◌ c s) = code c ∷ text s

abbrev pub is_empty : Text → Bool
is_empty [] = true
is_empty (c ∷ s) = false

-- `s === t`
unfoldable pub text_eq : Text → Text → Bool
text_eq [] [] = true
text_eq [] (d ∷ t) = false
text_eq (c ∷ s) [] = false
text_eq (c ∷ s) (d ∷ t) = c == d && text_eq s t

-- `s.startsWith(p)`
unfoldable pub starts_with : Text → Text → Bool
starts_with s [] = true
starts_with [] (d ∷ p) = false
starts_with (c ∷ s) (d ∷ p) = c == d && starts_with s p

-- `s.includes(p)`
unfoldable pub includes : Text → Text → Bool
unfolding starts_with
includes [] p = starts_with [] p
includes (c ∷ s) p = starts_with (c ∷ s) p || includes s p

-- White space and line terminators, which `trim` removes and `\s` matches.
unfoldable pub is_space : ℕ → Bool
is_space c =
    (leb 9 c && leb c 13)
    || c == 32
    || c == 0xa0
    || c == 0x1680
    || (leb 0x2000 c && leb c 0x200a)
    || c == 0x2028
    || c == 0x2029
    || c == 0x202f
    || c == 0x205f
    || c == 0x3000
    || c == 0xfeff

unfoldable pub trim_start : Text → Text
unfolding is_space
trim_start [] = []
trim_start (c ∷ s) = if is_space c then trim_start s else c ∷ s

unfoldable pub trim_end : Text → Text
unfolding is_space
trim_end [] = []
trim_end (c ∷ s) = let rest = trim_end s in if is_space c && is_empty rest then [] else c ∷ rest

-- `s.trim()`
unfoldable pub trim : Text → Text
unfolding trim_start trim_end
trim s = trim_end (trim_start s)

-- `s.length`, in UTF-16 code units
unfoldable pub utf16_length : Text → ℕ
utf16_length [] = 0
utf16_length (c ∷ s) = (if ltb c 0x10000 then 1 else 2) + utf16_length s

-- `parts.join(sep)`
unfoldable pub join : Text → List Text → Text
join sep [] = []
join sep (p ∷ []) = p
join sep (p ∷ q ∷ ps) = p ++ (sep ++ join sep (q ∷ ps))

-- `s.split(sep)[0]` for a separator of one character
unfoldable pub before : ℕ → Text → Text
before sep [] = []
before sep (c ∷ s) = if c == sep then [] else c ∷ before sep s

-- `s.replace(/-/g, "_")`
unfoldable pub replace_dashes : Text → Text
replace_dashes [] = []
replace_dashes (c ∷ s) = (if c == b'-' then b'_' else c) ∷ replace_dashes s

-- `s.replace(/\s+/g, "_")`: one underscore for each run; the flag says that a run is open.
unfoldable pub replace_spaces_from : Bool → Text → Text
unfolding is_space
replace_spaces_from open_run [] = []
replace_spaces_from open_run (c ∷ s) =
    let rest = replace_spaces_from (is_space c) s in
    if is_space c then (if open_run then rest else b'_' ∷ rest) else c ∷ rest

unfoldable pub replace_spaces : Text → Text
unfolding replace_spaces_from
replace_spaces s = replace_spaces_from false s

-- The case mappings of the ASCII characters.
unfoldable pub ascii_upper : ℕ → ℕ
ascii_upper c = if leb b'a' c && leb c b'z' then c - 32 else c

unfoldable pub ascii_lower : ℕ → ℕ
ascii_lower c = if leb b'A' c && leb c b'Z' then c + 32 else c

-- `${n}` for a natural number. The fuel `n + 1` is more than the number of digits.
unfoldable pub decimal_from : ℕ → ℕ → Text → Text
decimal_from zero n done = done
decimal_from (suc fuel) n done =
    let rest = decimal_from fuel (n / 10) ((b'0' + n % 10) ∷ done) in
    if ltb n 10 then (b'0' + n % 10) ∷ done else rest

unfoldable pub decimal : ℕ → Text
unfolding decimal_from
decimal n = decimal_from (n + 1) n []
