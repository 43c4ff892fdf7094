-- ===== src/Text/Split.antt =====
-- `indexOf` with the `slice` behind it, and `split` into lines, as the sources use them.
use telecam.Prelude.{
  ◌≡◌, refl, ap, sym, ◌∙◌, ◌&&◌, ℕ, Bool, true, false, List, [], ◌∷◌, ◌++◌, Option, none, some,
  ◌==◌, if◌then◌else◌, arith, All,
}
use mathlib.Core.List.{append_assoc}
use telecam.Text.{Text, join, starts_with, includes, is_empty, trim_end, is_space}

abbrev pub onto : ℕ → Option (Text × Text) → Option (Text × Text)
onto c none = none
onto c (some (b, t)) = some (c ∷ b, t)

-- The texts before and behind the first `sep`.
unfoldable pub cut : ℕ → Text → Option (Text × Text)
cut sep [] = none
cut sep (c ∷ s) = let rest = cut sep s in if c == sep then some ([], s) else onto c rest

-- The text before the first `p`, and the text from it on.
unfoldable pub find : Text → Text → Option (Text × Text)
unfolding starts_with
find p [] = if starts_with [] p then some ([], []) else none
find p (c ∷ s) =
    let rest = find p s in if starts_with (c ∷ s) p then some ([], c ∷ s) else onto c rest

abbrev push_first : ℕ → List Text → List Text
push_first c [] = (c ∷ []) ∷ []
push_first c (l ∷ ls) = (c ∷ l) ∷ ls

-- `s.split("\n")`
unfoldable pub split_lines : Text → List Text
split_lines [] = [] ∷ []
split_lines (c ∷ s) = let rest = split_lines s in if c == 10 then [] ∷ rest else push_first c rest

-- Every line with its end.
abbrev pub unlines : List Text → Text
unlines [] = []
unlines (l ∷ ls) = l ++ 10 ∷ unlines ls

abbrev pub IsLine : Text → Type 0
IsLine = All (λ c. (c == 10) ≡ false)

split_lines-line : (l s : Text) → IsLine l → split_lines (l ++ 10 ∷ s) ≡ l ∷ split_lines s
unfolding split_lines
split_lines-line [] s h = refl
split_lines-line (c ∷ l) s (h, hs) = rw (h, split_lines-line l s hs) refl

pub split_lines-unlines :
    (ls : List Text) → All IsLine ls → split_lines (unlines ls) ≡ ls ++ [] ∷ []
unfolding split_lines
split_lines-unlines [] h = refl
split_lines-unlines (l ∷ ls) (h, hs) =
    split_lines-line l (unlines ls) h ∙ ap (λ t. l ∷ t) (split_lines-unlines ls hs)

-- What has no line end does not reach over one.
starts_with-line : (l p s : Text) → IsLine p → starts_with (l ++ 10 ∷ s) p ≡ starts_with l p
unfolding starts_with
starts_with-line [] [] s h = refl
starts_with-line (c ∷ l) [] s h = refl
starts_with-line [] (d ∷ p) s (h, hs) = ground arith
starts_with-line (c ∷ l) (d ∷ p) s (h, hs) = rw (starts_with-line l p s hs) refl

abbrev pub behind : Text → Option (Text × Text) → Option (Text × Text)
behind a none = none
behind a (some (b, t)) = some (a ++ b, t)

onto-behind : (c : ℕ) (a : Text) (o : Option (Text × Text)) → onto c (behind a o) ≡ behind (c ∷ a) o
onto-behind c a none = refl
onto-behind c a (some (b, t)) = refl

onto_one : (c : ℕ) (o : Option (Text × Text)) → onto c o ≡ behind (c ∷ []) o
onto_one c none = refl
onto_one c (some (b, t)) = refl

find-line :
    (p l s : Text)
    → IsLine p
    → includes l p ≡ false
    → find p (l ++ 10 ∷ s) ≡ behind (l ++ 10 ∷ []) (find p s)
unfolding find includes
find-line p [] s h n = rw (starts_with-line [] p s h ∙ n) (onto_one 10 (find p s))
find-line p (c ∷ l) s h n =
    let here : starts_with (c ∷ l) p ≡ false = ground arith in
    let later : includes l p ≡ false = ground arith in
    rw (starts_with-line (c ∷ l) p s h ∙ here)
      (ap (onto c) (find-line p l s h later) ∙ onto-behind c (l ++ 10 ∷ []) (find p s))

behind-behind : (a b : Text) (o : Option (Text × Text)) → behind a (behind b o) ≡ behind (a ++ b) o
behind-behind a b none = refl
behind-behind a b (some (x, t)) = ap (λ y. some (y, t)) (sym (append_assoc a b x))

abbrev Lacks : Text → Text → Type 0
Lacks p l = includes l p ≡ false

find-start : (p s : Text) → starts_with s p ≡ true → find p s ≡ some ([], s)
unfolding find
find-start p [] h = rw h refl
find-start p (c ∷ s) h = rw h refl

-- Behind lines that lack it, a text is found at once.
pub find-unlines :
    (p : Text) (ls : List Text) (s : Text)
    → IsLine p
    → All (λ l. includes l p ≡ false) ls
    → starts_with s p ≡ true
    → find p (unlines ls ++ s) ≡ some (unlines ls, s)
find-unlines p [] s h ns e = find-start p s e
find-unlines p (l ∷ ls) s h (n, ns) e =
    ap (find p) (append_assoc l (10 ∷ unlines ls) s)
    ∙ find-line p l (unlines ls ++ s) h n
    ∙ ap (behind (l ++ 10 ∷ [])) (find-unlines p ls s h ns e)
    ∙ ap (λ y. some (y, s)) (append_assoc l (10 ∷ []) (unlines ls))

pub join-unlines :
    (l : Text) (ls : List Text) (s : Text)
    → join (10 ∷ []) (l ∷ ls) ++ 10 ∷ s ≡ unlines (l ∷ ls) ++ s
unfolding join
join-unlines l [] s = sym (append_assoc l (10 ∷ []) s)
join-unlines l (q ∷ ls) s =
    append_assoc l (10 ∷ join (10 ∷ []) (q ∷ ls)) (10 ∷ s)
    ∙ ap (λ t. l ++ 10 ∷ t) (join-unlines q ls s)
    ∙ sym (append_assoc l (10 ∷ unlines (q ∷ ls)) s)

is_empty-append : (a b : Text) → is_empty b ≡ false → is_empty (a ++ b) ≡ false
is_empty-append [] b h = h
is_empty-append (c ∷ a) b h = refl

and_false : (a b : Bool) → b ≡ false → (a && b) ≡ false
and_false true b h = h
and_false false b h = refl

pub trim_end-append :
    (a b : Text) → is_empty (trim_end b) ≡ false → trim_end (a ++ b) ≡ a ++ trim_end b
unfolding trim_end
trim_end-append [] b h = refl
trim_end-append (c ∷ a) b h =
    let rest = trim_end-append a b h in
    rw rest (
      rw (and_false (is_space c) (is_empty (a ++ trim_end b)) (is_empty-append a (trim_end b) h))
        refl)
