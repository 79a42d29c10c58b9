-- ===== src/Base/Decimal.antt =====
-- strconv.FormatInt(·, 10) and strconv.ParseInt(·, 10, 64) of Go's standard library.
use native.Mathlib.Nat.{pow-suc}
use go_signalium.Base.Tests.{ltb, leb, ◌==◌, if◌then◌else◌, if_elim}
use Prim.Native.Nat.{ℕ, zero, suc, ◌+◌, ◌-◌, ◌*◌, ◌/◌, ◌%◌, ◌^◌, ◌≤◌, ◌<◌}
use mathlib.Core.Path.{◌≡◌, refl, ◌∙◌, ap}
use mathlib.Core.Bool.{true, ◌&&◌}
use mathlib.Core.Option.{Option, none, some}
use mathlib.Core.List.{[], ◌∷◌}
use native.Mathlib.Omega.{arith}
use go_signalium.Base.Lists.{length}
use go_signalium.Base.Text.{Text, is_set}
use go_signalium.Base.Int.{ℤ, pos, negsuc}

-- The digits of n before `acc`; the fuel is the number of digits at most.
unfoldable pub digits : ℕ → ℕ → Text → Text
digits zero n acc = acc
digits (suc f) n acc =
    let rest = digits f (n / 10) ((48 + n % 10) ∷ acc) in if ltb n 10 then (48 + n) ∷ acc else rest

-- An int64 has 19 digits at most.
unfoldable pub format_int : ℤ → Text
unfolding digits
format_int (pos n) = digits 19 n []
format_int (negsuc n) = b'-' ∷ digits 19 (suc n) []

unfoldable pub parse_digits : ℕ → Text → Option ℕ
parse_digits n [] = some n
parse_digits n (c ∷ t) =
    let rest = parse_digits (n * 10 + (c - 48)) t in if leb 48 c && ltb c 58 then rest else none

abbrev below : ℕ → Option ℕ → Option ℕ
below limit none = none
below limit (some n) = if ltb n limit then some n else none

-- At least one digit, and a value below the limit.
unfoldable pub parse_below : ℕ → Text → Option ℕ
parse_below limit [] = none
parse_below limit (c ∷ t) = below limit (parse_digits 0 (c ∷ t))

abbrev negated : ℕ → ℤ
negated zero = pos 0
negated (suc n) = negsuc n

abbrev as_pos : Option ℕ → Option ℤ
as_pos none = none
as_pos (some n) = some (pos n)

abbrev as_neg : Option ℕ → Option ℤ
as_neg none = none
as_neg (some n) = some (negated n)

unfoldable pub parse_int : Text → Option ℤ
unfolding parse_below
parse_int [] = none
parse_int (c ∷ t) =
    if c == b'-'
    then as_neg (parse_below 9223372036854775809 t)
    else if c == b'+'
    then as_pos (parse_below 9223372036854775808 t)
    else as_pos (parse_below 9223372036854775808 (c ∷ t))

parse_digit :
    (n d : ℕ) (acc : Text)
    → d < 10
    → parse_digits n ((48 + d) ∷ acc) ≡ parse_digits (n * 10 + d) acc
unfolding parse_digits
parse_digit n d acc h = ground arith

digits_parse :
    (f n : ℕ) (acc : Text) → n < 10 ^ f → parse_digits 0 (digits f n acc) ≡ parse_digits n acc
unfolding digits
digits_parse zero n acc h = ap (λ (k : ℕ). parse_digits k acc) (omega arith)
digits_parse (suc f) n acc h =
    if_elim (λ t. parse_digits 0 t ≡ parse_digits n acc) (ltb n 10) ((48 + n) ∷ acc)
      (digits f (n / 10) ((48 + n % 10) ∷ acc))
      (λ e. parse_digit 0 n acc (ground arith) ∙ ap (λ (k : ℕ). parse_digits k acc) (omega arith))
      (λ e.
        digits_parse f (n / 10) ((48 + n % 10) ∷ acc) (omega (arith, pow-suc 10 f))
        ∙ parse_digit (n / 10) (n % 10) acc (omega arith)
        ∙ ap (λ (k : ℕ). parse_digits k acc) (omega arith))

pub length-digits : (f n : ℕ) (acc : Text) → length (digits f n acc) ≤ f + length acc
unfolding digits
length-digits zero n acc = omega arith
length-digits (suc f) n acc = ground (arith, length-digits f (n / 10) ((48 + n % 10) ∷ acc))

abbrev StartsWithDigit : Text → Type 0
StartsWithDigit [] = ⊥
StartsWithDigit (c ∷ t) = 48 ≤ c

digits-StartsWithDigit : (f n : ℕ) (acc : Text) → StartsWithDigit (digits (suc f) n acc)
unfolding digits
digits-StartsWithDigit zero n acc =
    if_elim StartsWithDigit (ltb n 10) ((48 + n) ∷ acc) ((48 + n % 10) ∷ acc) (λ _. omega arith)
      (λ _. omega arith)
digits-StartsWithDigit (suc f) n acc =
    if_elim StartsWithDigit (ltb n 10) ((48 + n) ∷ acc)
      (digits (suc f) (n / 10) ((48 + n % 10) ∷ acc)) (λ _. omega arith)
      (λ _. digits-StartsWithDigit f (n / 10) ((48 + n % 10) ∷ acc))

parse_below-some :
    (limit n : ℕ) (t : Text)
    → StartsWithDigit t
    → parse_digits 0 t ≡ some n
    → n < limit
    → parse_below limit t ≡ some n
unfolding parse_below
parse_below-some limit n [] s e h = absurd s
parse_below-some limit n (c ∷ t) s e h = rw e (ground arith)

parse_int_plain :
    (n : ℕ) (t : Text)
    → StartsWithDigit t
    → parse_digits 0 t ≡ some n
    → n < 9223372036854775808
    → parse_int t ≡ some (pos n)
unfolding parse_int
parse_int_plain n [] s e h = absurd s
parse_int_plain n (c ∷ t) s e h =
    ground (arith, parse_below-some 9223372036854775808 n (c ∷ t) s e h)

-- An int64 written in decimal is read back.
abbrev pub IsInt64 : ℤ → Type 0
IsInt64 (pos n) = n < 9223372036854775808
IsInt64 (negsuc n) = n < 9223372036854775808

pub parse_int-format_int : (z : ℤ) → IsInt64 z → parse_int (format_int z) ≡ some z
unfolding format_int parse_digits
parse_int-format_int (pos n) h =
    parse_int_plain n (digits 19 n []) (digits-StartsWithDigit 18 n [])
      (digits_parse 19 n [] (omega arith)) h
parse_int-format_int (negsuc n) h =
    unfold parse_int in
    rw (
      parse_below-some 9223372036854775809 (suc n) (digits 19 (suc n) [])
        (digits-StartsWithDigit 18 (suc n) []) (digits_parse 19 (suc n) [] (omega arith))
        (omega arith))

-- It is at most 20 bytes long, so that it fits the columns VARCHAR(25).
pub length-format_int : (z : ℤ) → length (format_int z) ≤ 20
unfolding format_int
length-format_int (pos n) = omega (arith, length-digits 19 n [])
length-format_int (negsuc n) = omega (arith, length-digits 19 (suc n) [])

is_set_digit : (t : Text) → StartsWithDigit t → is_set (some t) ≡ true
unfolding is_set
is_set_digit [] h = absurd h
is_set_digit (c ∷ t) h = refl

pub is_set-format_int : (z : ℤ) → is_set (some (format_int z)) ≡ true
unfolding format_int is_set
is_set-format_int (pos n) = is_set_digit (digits 19 n []) (digits-StartsWithDigit 18 n [])
is_set-format_int (negsuc n) = refl
