-- ===== src/Schools/Address/Blocks.antt =====
-- The block of lines in a school's address, and the street behind it.
use telecam.Prelude.{
  ◌≡◌, refl, ap, sym, ◌∙◌, false, List, [], ◌∷◌, ◌++◌, none, some, All, arith, if◌then◌else◌,
}
use telecam.Text.{Text, trim, trim_start, trim_end, is_empty, includes, starts_with}
use telecam.Text.Laws.{trim_end_idem}
use telecam.Text.Split.{
  find, IsLine, onto, unlines, find-unlines, split_lines-unlines, join-unlines, trim_end-append,
}
use telecam.Schools.Address.{
  SchoolMetaFields, meta_start, meta_end, filled, address_of, read_line, read_lines, only_street,
  decode_from, decode_school_address,
}

abbrev pub Lacks : Text → Text → Type 0
Lacks p l = includes l p ≡ false

find-none : (p s : Text) → Lacks p s → find p s ≡ none
unfolding find includes
find-none p [] h = rw h refl
find-none p (c ∷ s) h =
    let here : starts_with (c ∷ s) p ≡ false = ground arith in
    let later : Lacks p s = ground arith in rw here (ap (onto c) (find-none p s later))

filled-trim : (s : Text) → trim s ≡ s → filled (trim s) ≡ filled s
filled-trim s h = ap filled h

-- The street behind the end mark.
abbrev street_part : Text → Text
street_part [] = []
street_part (c ∷ s) = 10 ∷ c ∷ s

street_part-trim : (s : Text) → trim s ≡ s → filled (trim (street_part s)) ≡ filled s
unfolding trim
street_part-trim [] h = refl
street_part-trim (c ∷ s) h = ap filled h

trimmed_end : (s : Text) → trim s ≡ s → trim_end s ≡ s
unfolding trim
trimmed_end s h = ap trim_end (sym h) ∙ trim_end_idem (trim_start s) ∙ h

end_block :
    (street : Text)
    → trim street ≡ street
    → trim_end (meta_end ++ 10 ∷ street) ≡ meta_end ++ street_part street
unfolding trim_end
end_block [] h = refl
end_block (c ∷ s) h =
    ap (λ x. meta_end ++ (if is_empty x then [] else 10 ∷ x)) (trimmed_end (c ∷ s) h)

abbrev head_block : List Text → Text
head_block ls = meta_start ++ 10 ∷ unlines ls

address_of-blocks :
    (l : Text) (ls : List Text) (street : Text)
    → trim street ≡ street
    → address_of (l ∷ ls) street ≡ head_block (l ∷ ls) ++ (meta_end ++ street_part street)
unfolding address_of trim
address_of-blocks l ls street h =
    ap (λ t. trim_end (meta_start ++ 10 ∷ t)) (join-unlines l ls (meta_end ++ 10 ∷ street))
    ∙ trim_end-append (head_block (l ∷ ls)) (meta_end ++ 10 ∷ street)
        (ap is_empty (end_block street h))
    ∙ ap (λ t. head_block (l ∷ ls) ++ t) (end_block street h)

read_lines-blank :
    (ls : List Text) (m : SchoolMetaFields) → read_lines (ls ++ [] ∷ []) m ≡ read_lines ls m
unfolding read_lines
read_lines-blank [] m = refl
read_lines-blank (l ∷ ls) m = read_lines-blank ls (read_line l m)

meta_end-IsLine : IsLine meta_end
meta_end-IsLine = assumption refl

decode_blocks :
    (ls : List Text) (street : Text)
    → All IsLine ls
    → All (Lacks meta_end) ls
    → trim street ≡ street
    → decode_school_address (some (head_block ls ++ (meta_end ++ street_part street)))
      ≡ read_lines ls (only_street (filled street))
unfolding decode_school_address
decode_blocks ls street h n t =
    rw (find-unlines meta_end ls (meta_end ++ street_part street) meta_end-IsLine n refl) (
      ap (λ b. read_lines b (only_street (filled (trim (street_part street)))))
        (split_lines-unlines ls h)
      ∙ read_lines-blank ls (only_street (filled (trim (street_part street))))
      ∙ ap (λ o. read_lines ls (only_street o)) (street_part-trim street t))

-- The address of any lines that the block can hold.
pub decode-address_of :
    (ls : List Text) (street : Text)
    → All IsLine ls
    → All (Lacks meta_end) ls
    → trim street ≡ street
    → Lacks meta_start street
    → decode_school_address (some (address_of ls street))
      ≡ read_lines ls (only_street (filled street))
decode-address_of [] street h n t lacks =
    unfold decode_school_address address_of in
    (ap (decode_from street) (find-none meta_start street lacks)
      ∙ ap (λ o. only_street o) (filled-trim street t))
decode-address_of (l ∷ ls) street h n t lacks =
    ap (λ a. decode_school_address (some a)) (address_of-blocks l ls street t)
    ∙ decode_blocks (l ∷ ls) street h n t
