-- ===== src/Service/Filename.antt =====
-- sanitizeFilename of internal/service/send_message.go, with what it uses of path/filepath, regexp and
-- unicode/utf8: file names are bytes, and the expression replaces runes.
use go_signalium.Base.{
  ℕ, zero, suc, ◌≡◌, refl, ◌↔◌, Bool, true, false, Bool-cases, inl, inr, ap, ◌∙◌, ◌&&◌, ◌||◌, [],
  ◌∷◌, leb, ◌==◌, All, if◌then◌else◌, arith, if_elim,
}
use go_signalium.Base.Text.{Text, codes, text_eq}

abbrev between : ℕ → ℕ → ℕ → Bool
between low high b = leb low b && leb b high

-- A continuation byte of UTF-8.
abbrev is_tail : ℕ → Bool
is_tail b = between 128 191 b

-- The bytes that a rune takes up past its first one, `bytes` being what follows the first byte. An
-- invalid sequence is one byte long.
abbrev tails1 : Bool → Text → ℕ
tails1 second [] = 0
tails1 second (b ∷ t) = if second then 1 else 0

abbrev tails2 : Bool → Text → ℕ
tails2 second [] = 0
tails2 second (b ∷ []) = 0
tails2 second (b ∷ c ∷ t) = if second && is_tail c then 2 else 0

abbrev tails3 : Bool → Text → ℕ
tails3 second [] = 0
tails3 second (b ∷ []) = 0
tails3 second (b ∷ c ∷ []) = 0
tails3 second (b ∷ c ∷ d ∷ t) = if second && (is_tail c && is_tail d) then 3 else 0

abbrev head_in : ℕ → ℕ → Text → Bool
head_in low high [] = false
head_in low high (b ∷ t) = between low high b

unfoldable pub rune_tails : ℕ → Text → ℕ
rune_tails a t =
    if between 194 223 a
    then tails1 (head_in 128 191 t) t
    else if a == 224
    then tails2 (head_in 160 191 t) t
    else if a == 237
    then tails2 (head_in 128 159 t) t
    else if between 225 239 a
    then tails2 (head_in 128 191 t) t
    else if a == 240
    then tails3 (head_in 144 191 t) t
    else if between 241 243 a
    then tails3 (head_in 128 191 t) t
    else if a == 244
    then tails3 (head_in 128 143 t) t
    else 0

-- [A-Za-z0-9._-]
unfoldable pub is_allowed : ℕ → Bool
is_allowed b =
    between 65 90 b || (between 97 122 b || (between 48 57 b || (b == 46 || (b == 95 || b == 45))))

-- filenameAllowed.ReplaceAllString(s, "_"); `skip` bytes belong to a rune that was replaced.
unfoldable pub replace_disallowed : ℕ → Text → Text
unfolding is_allowed rune_tails
replace_disallowed skip [] = []
replace_disallowed (suc skip) (b ∷ t) = replace_disallowed skip t
replace_disallowed zero (b ∷ t) = elim (is_allowed b) [
  | true ↦ b ∷ replace_disallowed 0 t
  | false ↦ 95 ∷ replace_disallowed (rune_tails b t) t
]

-- filepath.Base: the last element, without the slashes at the end; "." for "", "/" for slashes alone.
abbrev has_slash : Text → Bool
has_slash [] = false
has_slash (b ∷ t) = b == 47 || has_slash t

unfoldable pub last_element : Text → Text
last_element [] = []
last_element (b ∷ t) = let rest = last_element t in if has_slash (b ∷ t) then rest else b ∷ t

abbrev all_slashes : Text → Bool
all_slashes [] = true
all_slashes (b ∷ t) = b == 47 && all_slashes t

unfoldable pub strip_slashes : Text → Text
strip_slashes [] = []
strip_slashes (b ∷ t) = let rest = strip_slashes t in if all_slashes (b ∷ t) then [] else b ∷ rest

unfoldable pub base_of : Text → Text
unfolding strip_slashes last_element
base_of [] = codes "."
base_of (b ∷ t) = if all_slashes (b ∷ t) then codes "/" else last_element (strip_slashes (b ∷ t))

abbrev pub starts_with_dot : Text → Bool
starts_with_dot [] = false
starts_with_dot (b ∷ t) = b == 46

abbrev pub is_empty : Text → Bool
is_empty [] = true
is_empty (b ∷ t) = false

unfoldable pub sanitize_filename : Text → Text
unfolding replace_disallowed base_of
sanitize_filename raw =
    let base = base_of raw in
    if is_empty base || (text_eq base (codes ".") || text_eq base (codes "/"))
    then []
    else let cleaned = replace_disallowed 0 base in
      if is_empty cleaned || starts_with_dot cleaned then [] else cleaned

-- What a stored name looks like.
abbrev pub IsSafe : Text → Type 0
IsSafe s = All (λ b. is_allowed b ≡ true) s × (starts_with_dot s ≡ false)

replace_disallowed-All :
    (skip : ℕ) (s : Text) → All (λ b. is_allowed b ≡ true) (replace_disallowed skip s)
unfolding replace_disallowed
replace_disallowed-All skip [] = tt
replace_disallowed-All (suc skip) (b ∷ t) = replace_disallowed-All skip t
replace_disallowed-All zero (b ∷ t) = elim (Bool-cases (is_allowed b)) [
  | inl e ↦ rw (e, replace_disallowed) (e, replace_disallowed-All 0 t)
  | inr e ↦ rw (e, replace_disallowed) (refl, replace_disallowed-All (rune_tails b t) t)
]

sanitize_filename-IsSafe : (raw : Text) → IsSafe (sanitize_filename raw)
unfolding sanitize_filename
sanitize_filename-IsSafe raw =
    if_elim IsSafe rejected [] (if bad then [] else cleaned) (λ _. (tt, refl))
      (λ _.
        if_elim IsSafe bad [] cleaned (λ _. (tt, refl))
          (λ e. (
            replace_disallowed-All 0 (base_of raw),
            no_dot (is_empty cleaned) (starts_with_dot cleaned) e,
          )))
  where
    cleaned : Text
    cleaned = replace_disallowed 0 (base_of raw)

    bad : Bool
    bad = is_empty cleaned || starts_with_dot cleaned

    rejected : Bool
    rejected =
        is_empty (base_of raw)
        || (text_eq (base_of raw) (codes ".") || text_eq (base_of raw) (codes "/"))

    no_dot : (a b : Bool) → (a || b) ≡ false → b ≡ false
    no_dot a b e = ground arith

allowed-not-slash : (b : ℕ) → is_allowed b ≡ true → (b == 47) ≡ false
unfolding is_allowed
allowed-not-slash b h = ground arith

abbrev AllAllowed : Text → Type 0
AllAllowed = All (λ b. is_allowed b ≡ true)

strip_slashes_keeps : (s : Text) → AllAllowed s → strip_slashes s ≡ s
unfolding strip_slashes
strip_slashes_keeps [] h = refl
strip_slashes_keeps (b ∷ t) h =
    rw (allowed-not-slash b h.0) (ap (λ r. b ∷ r) (strip_slashes_keeps t h.1))

has_slash_none : (s : Text) → AllAllowed s → has_slash s ≡ false
has_slash_none [] h = refl
has_slash_none (b ∷ t) h = rw (allowed-not-slash b h.0) (has_slash_none t h.1)

last_element_keeps : (s : Text) → has_slash s ≡ false → last_element s ≡ s
unfolding last_element
last_element_keeps [] h = refl
last_element_keeps (b ∷ t) h = ground arith

base_of_keeps : (b : ℕ) (t : Text) → AllAllowed (b ∷ t) → base_of (b ∷ t) ≡ b ∷ t
unfolding base_of
base_of_keeps b t h =
    let e : all_slashes (b ∷ t) ≡ false = rw (allowed-not-slash b h.0) refl in
    ap (λ x. if x then codes "/" else last_element (strip_slashes (b ∷ t))) e
    ∙ (ap last_element (strip_slashes_keeps (b ∷ t) h)
        ∙ last_element_keeps (b ∷ t) (has_slash_none (b ∷ t) h))

replace_disallowed_keeps : (s : Text) → AllAllowed s → replace_disallowed 0 s ≡ s
unfolding replace_disallowed
replace_disallowed_keeps [] h = refl
replace_disallowed_keeps (b ∷ t) h =
    rw (h.0, replace_disallowed) (ap (λ r. b ∷ r) (replace_disallowed_keeps t h.1))

sanitize_filename_keeps : (s : Text) → IsSafe s → sanitize_filename s ≡ s
unfolding sanitize_filename text_eq
sanitize_filename_keeps [] h = refl
sanitize_filename_keeps (b ∷ t) (h, d) =
    rw (base_of_keeps b t h, replace_disallowed_keeps (b ∷ t) h, d, allowed-not-slash b h.0) refl

-- A sanitized name holds letters, digits, dots, underscores and dashes only, so no slash, and does
-- not begin with a dot; and a name is kept exactly if it is such a one already.
sanitize_filename_lem :
    (raw : Text) → IsSafe (sanitize_filename raw) × (IsSafe raw ↔ (sanitize_filename raw ≡ raw))
sanitize_filename_lem raw = (
  sanitize_filename-IsSafe raw,
  (sanitize_filename_keeps raw, λ e. rw e at (sanitize_filename-IsSafe raw)),
)
