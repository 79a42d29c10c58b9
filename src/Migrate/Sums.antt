-- ===== src/Migrate/Sums.antt =====
-- readAtlasSum of internal/db/migrate.go, with what it uses of the package strings. The file is ASCII.
pub mod Printed
use go_signalium.Base.{
  ℕ, Bool, ◌&&◌, ◌||◌, Option, none, some, List, [], ◌∷◌, leb, ◌==◌, if◌then◌else◌,
}
use go_signalium.Base.Text.{Text, codes}
use go_signalium.Domain.{Result, ok, err, bad_params, unavailable}
use go_signalium.Repo.Messages.{Link}
use go_signalium.Migrate.{Sum, Hasher, File, Database, run_migrations}

-- unicode.IsSpace of an ASCII byte
abbrev pub is_space : ℕ → Bool
is_space b = b == 32 || (leb 9 b && leb b 13)

unfoldable pub trim_left : Text → Text
trim_left [] = []
trim_left (b ∷ t) = let rest = trim_left t in if is_space b then rest else b ∷ t

-- A byte before what is left of the text after it.
abbrev pub trim_before : ℕ → Text → Text
trim_before b [] = if is_space b then [] else b ∷ []
trim_before b (c ∷ u) = b ∷ c ∷ u

unfoldable pub trim_right : Text → Text
trim_right [] = []
trim_right (b ∷ t) = trim_before b (trim_right t)

-- strings.TrimSpace
unfoldable pub trim_space : Text → Text
unfolding trim_left trim_right
trim_space t = trim_right (trim_left t)

abbrev pub onto_first : ℕ → List Text → List Text
onto_first b [] = (b ∷ []) ∷ []
onto_first b (l ∷ ls) = (b ∷ l) ∷ ls

-- strings.Split(t, "\n")
unfoldable pub split_lines : Text → List Text
split_lines [] = [] ∷ []
split_lines (b ∷ t) = let rest = split_lines t in if b == 10 then [] ∷ rest else onto_first b rest

abbrev pub add_word : Text → List Text → List Text
add_word [] ws = ws
add_word (b ∷ w) ws = (b ∷ w) ∷ ws

-- strings.Fields: the word that begins at once, and those after it.
unfoldable pub words : Text → Text × List Text
words [] = ([], [])
words (b ∷ t) = let (w, ws) = words t in if is_space b then ([], add_word w ws) else (b ∷ w, ws)

unfoldable pub fields : Text → List Text
unfolding words
fields t = let (w, ws) = words t in add_word w ws

-- strings.TrimPrefix(t, "h1:")
unfoldable pub trim_prefix : Text → Text
trim_prefix [] = []
trim_prefix (a ∷ []) = a ∷ []
trim_prefix (a ∷ b ∷ []) = a ∷ b ∷ []
trim_prefix (a ∷ b ∷ c ∷ t) = if a == 104 && (b == 49 && c == 58) then t else a ∷ b ∷ c ∷ t

-- A line has the name of a file and its hash.
unfoldable pub sum_of : List Text → Option Sum
unfolding trim_prefix
sum_of [] = none
sum_of (n ∷ []) = none
sum_of (n ∷ h ∷ []) = some (record { name = n; hash = trim_prefix h })
sum_of (n ∷ h ∷ x ∷ xs) = none

abbrev pub add_sum : Option Sum → Result (List Sum) → Result (List Sum)
add_sum none r = err bad_params
add_sum (some s) (err x) = err x
add_sum (some s) (ok ss) = ok (s ∷ ss)

unfoldable pub read_lines : List Text → Result (List Sum)
unfolding fields sum_of
read_lines [] = ok []
read_lines (l ∷ ls) = add_sum (sum_of (fields l)) (read_lines ls)

-- The first line, the checksum of the directory, is skipped.
unfoldable pub read_after_first : List Text → Result (List Sum)
unfolding read_lines
read_after_first [] = ok []
read_after_first (l ∷ ls) = read_lines ls

-- readAtlasSum, with the embedded file where there is one
unfoldable pub read_atlas_sum : Option Text → Result (List Sum)
unfolding trim_space split_lines read_after_first
read_atlas_sum none = err unavailable
read_atlas_sum (some raw) = read_after_first (split_lines (trim_space raw))

-- runMigrations, under the lock and past the table of revisions.
unfoldable pub run_from_atlas_sum :
    Hasher → Option Text → List File → (ℕ → Link) → Database → Result (Unit {0}) × Database
unfolding read_atlas_sum run_migrations
run_from_atlas_sum H raw files links db = elim (read_atlas_sum raw) [
  | err x ↦ (err x, db)
  | ok sums ↦ run_migrations H sums files links db
]
