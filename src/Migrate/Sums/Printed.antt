-- ===== src/Migrate/Sums/Printed.antt =====
-- What is read from an atlas.sum as it is printed.
use go_signalium.Base.{
  ℕ, ◌≡◌, refl, sym, ap, ◌∙◌, Bool, true, false, not, ◌&&◌, some, List, [], ◌∷◌, ◌++◌, map, All,
  ◌==◌, arith,
}
use mathlib.Core.List.{append_assoc}
use go_signalium.Base.Text.{Text}
use go_signalium.Domain.{ok}
use go_signalium.Migrate.{Sum}
use go_signalium.Migrate.Sums.{
  is_space, trim_left, trim_right, trim_space, split_lines, add_word, words, fields, trim_prefix,
  sum_of, read_lines, read_after_first, read_atlas_sum,
}

-- A word has a byte, and no white space.
abbrev pub is_word : Text → Bool
is_word [] = false
is_word (b ∷ []) = not (is_space b)
is_word (b ∷ c ∷ t) = not (is_space b) && is_word (c ∷ t)

abbrev pub line_of : Sum → Text
line_of s = s.name ++ (32 ∷ 104 ∷ 49 ∷ 58 ∷ s.hash)

-- The lines, a newline after each.
abbrev pub print_lines : List Text → Text
print_lines [] = []
print_lines (l ∷ ls) = l ++ (10 ∷ print_lines ls)

-- The file: the checksum of the directory, and a line for each sum.
abbrev pub print_sums : Text → List Sum → Text
print_sums dir ss = print_lines (dir ∷ map line_of ss)

abbrev pub IsSum : Sum → Type 0
IsSum s = (is_word s.name ≡ true) × (is_word s.hash ≡ true)

-- The words of a line.
words-append : (w t : Text) → is_word w ≡ true → words (w ++ (32 ∷ t)) ≡ (w, fields t)
unfolding words fields
words-append [] t h = absurd (ground arith)
words-append (b ∷ []) t h = ground arith
words-append (b ∷ c ∷ u) t h = ground (arith, words-append (c ∷ u) t)

words-word : (w : Text) → is_word w ≡ true → words w ≡ (w, [])
unfolding words
words-word [] h = absurd (ground arith)
words-word (b ∷ []) h = ground arith
words-word (b ∷ c ∷ u) h = ground (arith, words-word (c ∷ u))

fields-line_of : (s : Sum) → IsSum s → fields (line_of s) ≡ s.name ∷ (104 ∷ 49 ∷ 58 ∷ s.hash) ∷ []
unfolding fields
fields-line_of s (n, h) =
    let e : fields (104 ∷ 49 ∷ 58 ∷ s.hash) ≡ (104 ∷ 49 ∷ 58 ∷ s.hash) ∷ [] =
      ap (λ (p : Text × List Text). add_word p.0 p.1)
        (words-word (104 ∷ 49 ∷ 58 ∷ s.hash) (solid s.hash h)) in
    rw (words-append s.name (104 ∷ 49 ∷ 58 ∷ s.hash) n, e) (kept s.name n)
  where
    solid : (t : Text) → is_word t ≡ true → is_word (104 ∷ 49 ∷ 58 ∷ t) ≡ true
    solid [] h = absurd (ground arith)
    solid (b ∷ t) h = h

    kept :
        (w : Text)
        → is_word w ≡ true
        → add_word w ((104 ∷ 49 ∷ 58 ∷ s.hash) ∷ []) ≡ w ∷ (104 ∷ 49 ∷ 58 ∷ s.hash) ∷ []
    kept [] h = absurd (ground arith)
    kept (b ∷ w) h = refl

-- A text whose last byte is no white space.
abbrev ends_solid : Text → Bool
ends_solid [] = false
ends_solid (b ∷ []) = not (is_space b)
ends_solid (b ∷ c ∷ t) = ends_solid (c ∷ t)

trim_right-solid : (t : Text) → ends_solid t ≡ true → trim_right (t ++ (10 ∷ [])) ≡ t
unfolding trim_right
trim_right-solid [] h = absurd (ground arith)
trim_right-solid (b ∷ []) h = ground arith
trim_right-solid (b ∷ c ∷ u) h = ground (arith, trim_right-solid (c ∷ u))

-- The lines with a newline between two of them.
abbrev join_lines : Text → List Text → Text
join_lines l [] = l
join_lines l (m ∷ ms) = l ++ (10 ∷ join_lines m ms)

print_lines-join_lines :
    (l : Text) (ls : List Text) → print_lines (l ∷ ls) ≡ join_lines l ls ++ (10 ∷ [])
print_lines-join_lines l [] = refl
print_lines-join_lines l (m ∷ ms) =
    ap (λ t. l ++ (10 ∷ t)) (print_lines-join_lines m ms)
    ∙ sym (append_assoc l (10 ∷ join_lines m ms) (10 ∷ []))

-- A line that is read back: it begins and ends with a byte that is no white space, and has no newline.
no_newline : Text → Bool
no_newline [] = true
no_newline (b ∷ t) = not (b == 10) && no_newline t

abbrev IsLine : Text → Type 0
IsLine l = (ends_solid l ≡ true) × (no_newline l ≡ true)

split_lines-append :
    (l t : Text) → no_newline l ≡ true → split_lines (l ++ (10 ∷ t)) ≡ l ∷ split_lines t
unfolding split_lines no_newline
split_lines-append [] t h = refl
split_lines-append (b ∷ l) t h = ground (arith, split_lines-append l t)

split_lines-line : (l : Text) → no_newline l ≡ true → split_lines l ≡ l ∷ []
unfolding split_lines no_newline
split_lines-line [] h = refl
split_lines-line (b ∷ l) h = ground (arith, split_lines-line l)

split_lines-join_lines :
    (l : Text) (ls : List Text) → All IsLine (l ∷ ls) → split_lines (join_lines l ls) ≡ l ∷ ls
split_lines-join_lines l [] ((e, n), _) = split_lines-line l n
split_lines-join_lines l (m ∷ ms) ((e, n), h) =
    split_lines-append l (join_lines m ms) n ∙ ap (λ ls. l ∷ ls) (split_lines-join_lines m ms h)

ends_solid-append : (c : ℕ) (s t : Text) → ends_solid t ≡ true → ends_solid (s ++ (c ∷ t)) ≡ true
ends_solid-append c [] [] h = absurd (ground arith)
ends_solid-append c [] (b ∷ t) h = h
ends_solid-append c (a ∷ []) t h = ends_solid-append c [] t h
ends_solid-append c (a ∷ b ∷ s) t h = ends_solid-append c (b ∷ s) t h

ends_solid-join_lines :
    (l : Text) (ls : List Text) → All IsLine (l ∷ ls) → ends_solid (join_lines l ls) ≡ true
ends_solid-join_lines l [] ((e, n), _) = e
ends_solid-join_lines l (m ∷ ms) (_, h) =
    ends_solid-append 10 l (join_lines m ms) (ends_solid-join_lines m ms h)

no_newline-append :
    (s t : Text) → no_newline s ≡ true → no_newline t ≡ true → no_newline (s ++ (32 ∷ t)) ≡ true
unfolding no_newline
no_newline-append [] t h k = k
no_newline-append (b ∷ s) t h k = ground (arith, no_newline-append s t)

word-IsLine : (w : Text) → is_word w ≡ true → IsLine w
unfolding no_newline
word-IsLine [] h = absurd (ground arith)
word-IsLine (b ∷ []) h = ground arith
word-IsLine (b ∷ c ∷ u) h = ground (arith, word-IsLine (c ∷ u))

hash-IsLine : (w : Text) → IsLine w → IsLine (104 ∷ 49 ∷ 58 ∷ w)
unfolding no_newline
hash-IsLine [] (e, n) = absurd (ground arith)
hash-IsLine (b ∷ w) (e, n) = (e, n)

line_of-IsLine : (s : Sum) → IsSum s → IsLine (line_of s)
line_of-IsLine s (n, h) =
    let a = word-IsLine s.name n in
    let b = hash-IsLine s.hash (word-IsLine s.hash h) in
    (ends_solid-append 32 s.name _ b.0, no_newline-append s.name _ a.1 b.1)

lines-IsLine : (ss : List Sum) → All IsSum ss → All IsLine (map line_of ss)
lines-IsLine [] h = tt
lines-IsLine (s ∷ ss) (h, hs) = (line_of-IsLine s h, lines-IsLine ss hs)

trim_left-join_lines :
    (l : Text) (ls : List Text)
    → is_word l ≡ true
    → trim_left (join_lines l ls ++ (10 ∷ [])) ≡ join_lines l ls ++ (10 ∷ [])
unfolding trim_left
trim_left-join_lines [] ls h = absurd (ground arith)
trim_left-join_lines (b ∷ []) [] h = ground arith
trim_left-join_lines (b ∷ []) (m ∷ ms) h = ground arith
trim_left-join_lines (b ∷ c ∷ u) [] h = ground arith
trim_left-join_lines (b ∷ c ∷ u) (m ∷ ms) h = ground arith

read_lines-line_of : (ss : List Sum) → All IsSum ss → read_lines (map line_of ss) ≡ ok ss
unfolding read_lines sum_of trim_prefix
read_lines-line_of [] h = refl
read_lines-line_of (s ∷ ss) (h, hs) = rw (fields-line_of s h, read_lines-line_of ss hs) refl

-- An atlas.sum that was printed from the checksum of the directory and the files with their hashes,
-- none of them empty or with white space in it, is read back as these files and hashes.
pub read_atlas_sum-print_sums :
    (dir : Text) (ss : List Sum)
    → is_word dir ≡ true
    → All IsSum ss
    → read_atlas_sum (some (print_sums dir ss)) ≡ ok ss
unfolding read_atlas_sum trim_space read_after_first
read_atlas_sum-print_sums dir ss d h =
    let k : All IsLine (dir ∷ map line_of ss) = (word-IsLine dir d, lines-IsLine ss h) in
    rw
      (
        print_lines-join_lines dir (map line_of ss),
        trim_left-join_lines dir (map line_of ss) d,
        trim_right-solid (join_lines dir (map line_of ss))
            (ends_solid-join_lines dir (map line_of ss) k),
        split_lines-join_lines dir (map line_of ss) k,
      )
      (read_lines-line_of ss h)
