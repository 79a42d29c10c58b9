-- ===== src/Tests/Codec.antt =====
-- A lossless codec for the errors of the wire: every text goes behind its length.
use go_signalium.Base.{ℕ, zero, suc, ◌≡◌, refl, Option, none, some, List, [], ◌∷◌, ◌++◌, length}
use go_signalium.Base.Text.{Text}
use go_signalium.Base.Int.{pos, negsuc}
use go_signalium.Api.Errors.Types.{
  ErrorCode, invalid_argument, conflict, not_found, internal, custom_server, Param, text, number,
}
use go_signalium.Api.Errors.{Codec, Serializable}
use go_signalium.Api.Errors.RoundTrip.{IsLossless}

abbrev write_text : Text → Text → Text
write_text t rest = length t ∷ (t ++ rest)

-- The first n elements, and what follows.
abbrev cons_to : ℕ → Option (Text × Text) → Option (Text × Text)
cons_to b none = none
cons_to b (some (t, rest)) = some (b ∷ t, rest)

read_text : ℕ → Text → Option (Text × Text)
read_text zero input = some ([], input)
read_text (suc n) [] = none
read_text (suc n) (b ∷ input) = cons_to b (read_text n input)

read_text-append : (t rest : Text) → read_text (length t) (t ++ rest) ≡ some (t, rest)
unfolding read_text
read_text-append [] rest = refl
read_text-append (b ∷ t) rest = rw (read_text-append t rest) refl

abbrev write_param : Param → Text → Text
write_param (text t) rest = 0 ∷ write_text t rest
write_param (number (pos n)) rest = 1 ∷ n ∷ rest
write_param (number (negsuc n)) rest = 2 ∷ n ∷ rest

abbrev Pair : Type 0
Pair = Text × Param

abbrev textual : Option (Text × Text) → Option (Param × Text)
textual none = none
textual (some (t, rest)) = some (text t, rest)

abbrev read_param : Text → Option (Param × Text)
read_param [] = none
read_param (k ∷ []) = none
read_param (zero ∷ n ∷ rest) = textual (read_text n rest)
read_param (suc zero ∷ n ∷ rest) = some (number (pos n), rest)
read_param (suc (suc k) ∷ n ∷ rest) = some (number (negsuc n), rest)

read_param-write_param :
    (p : Param) (rest : Text) → read_param (write_param p rest) ≡ some (p, rest)
read_param-write_param (text t) rest = rw (read_text-append t rest) refl
read_param-write_param (number (pos n)) rest = refl
read_param-write_param (number (negsuc n)) rest = refl

write_pairs : List Pair → Text
write_pairs [] = []
write_pairs ((k, p) ∷ ps) = write_text k (write_param p (write_pairs ps))

abbrev write_params : List Pair → Text
write_params ps = length ps ∷ write_pairs ps

abbrev with_key : Text → Option (Param × Text) → Option (Pair × Text)
with_key k none = none
with_key k (some (p, rest)) = some ((k, p), rest)

abbrev keyed : Option (Text × Text) → Option (Pair × Text)
keyed none = none
keyed (some (k, rest)) = with_key k (read_param rest)

abbrev read_pair : Text → Option (Pair × Text)
read_pair [] = none
read_pair (n ∷ input) = keyed (read_text n input)

abbrev pair_onto : Pair → Option (List Pair) → Option (List Pair)
pair_onto x none = none
pair_onto x (some xs) = some (x ∷ xs)

read_pairs : ℕ → Text → Option (List Pair)
read_pairs zero input = some []
read_pairs (suc n) input = elim (read_pair input) [
  | none ↦ none
  | some (x, rest) ↦ pair_onto x (read_pairs n rest)
]

read_pair-write_text :
    (k : Text) (p : Param) (rest : Text)
    → read_pair (write_text k (write_param p rest)) ≡ some ((k, p), rest)
read_pair-write_text k p rest =
    rw (read_text-append k (write_param p rest)) (rw (read_param-write_param p rest) refl)

read_pairs-write_pairs : (ps : List Pair) → read_pairs (length ps) (write_pairs ps) ≡ some ps
unfolding read_pairs write_pairs
read_pairs-write_pairs [] = refl
read_pairs-write_pairs ((k, p) ∷ ps) =
    rw (read_pair-write_text k p (write_pairs ps), read_pairs) (rw (read_pairs-write_pairs ps) refl)

abbrev read_params : Text → Option (List Pair)
read_params [] = none
read_params (n ∷ input) = read_pairs n input

abbrev write_code : ErrorCode → ℕ
write_code invalid_argument = 0
write_code conflict = 1
write_code not_found = 2
write_code internal = 3
write_code custom_server = 4

abbrev read_code : ℕ → ErrorCode
read_code zero = invalid_argument
read_code (suc zero) = conflict
read_code (suc (suc zero)) = not_found
read_code (suc (suc (suc zero))) = internal
read_code (suc (suc (suc (suc n)))) = custom_server

read_code-write_code : (c : ErrorCode) → read_code (write_code c) ≡ c
read_code-write_code invalid_argument = refl
read_code-write_code conflict = refl
read_code-write_code not_found = refl
read_code-write_code internal = refl
read_code-write_code custom_server = refl

abbrev write_error : Serializable → Text
write_error s =
    write_code s.error_code ∷ write_text s.error_name (write_text s.error_instance_id s.params)

abbrev third : ℕ → Text → Option (Text × Text) → Option Serializable
third c name none = none
third c name (some (id, params)) = some (record {
  error_code = read_code c;
  error_name = name;
  error_instance_id = id;
  params = params;
})

abbrev second : ℕ → Option (Text × Text) → Option Serializable
second c none = none
second c (some (name, [])) = none
second c (some (name, n ∷ rest)) = third c name (read_text n rest)

abbrev read_error : Text → Option Serializable
read_error [] = none
read_error (c ∷ []) = none
read_error (c ∷ n ∷ input) = second c (read_text n input)

read_error-write_error : (s : Serializable) → read_error (write_error s) ≡ some s
read_error-write_error s =
    rw (read_text-append s.error_name (write_text s.error_instance_id s.params)) (
      rw (read_text-append s.error_instance_id s.params)
        (rw (read_code-write_code s.error_code) refl))

abbrev pub codec : Codec
unfolding read_text write_pairs read_pairs
codec = record {
  write_params = write_params;
  read_params = read_params;
  write_error = write_error;
  read_error = read_error;
}

pub codec-IsLossless : IsLossless codec
unfolding codec read_pairs
codec-IsLossless = record {
  params_back = read_pairs-write_pairs;
  error_back = read_error-write_error;
}
