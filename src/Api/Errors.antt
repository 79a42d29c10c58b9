-- ===== src/Api/Errors.antt =====
-- errors.conjure.go with conjureerrors/error_registry.conjure.go: the seven errors of the wire, how they
-- are written and read, and the registry of their names. The JSON codec is a parameter.
pub mod Types
pub mod RoundTrip
use go_signalium.Base.{
  Bool, true, false, ◌||◌, Option, none, some, List, [], ◌∷◌, ◌++◌, ℕ, if◌then◌else◌,
}
use go_signalium.Base.Text.{Text, codes, text_eq}
use go_signalium.Api.Errors.Types.{
  Kind, ErrorCode, Param, text, Fields, find, type_of, ErrorType, ◌>>=◌,
}

-- An error as it is at hand: its type with the fields, its instance, and the safe and the unsafe
-- parameters of what caused it.
pub record Instance : Type 0 where
  pub kind : Kind
  pub fields : Fields kind
  pub instance_id : Text
  pub cause_safe : List (Text × Param)
  pub cause_unsafe : List (Text × Param)

-- safeParams
unfoldable pub safe_params : Instance → List (Text × Param)
unfolding type_of
safe_params e =
    (type_of e.kind).parameters e.fields
    ++ ((codes "errorInstanceId", text e.instance_id)
        ∷ (codes "errorName", text (type_of e.kind).name)
        ∷ [])

abbrev add_absent : Option Param → Text → Param → List (Text × Param) → List (Text × Param)
add_absent none k p ps = ps ++ ((k, p) ∷ [])
add_absent (some q) k p ps = ps

abbrev merged : List (Text × Param) → List (Text × Param) → List (Text × Param)
merged ps [] = ps
merged ps ((k, p) ∷ own) = merged (add_absent (find k ps) k p ps) own

-- SafeParams: those of the cause win.
unfoldable pub all_safe_params : Instance → List (Text × Param)
unfolding safe_params find
all_safe_params e = merged e.cause_safe (safe_params e)

-- unsafeParams is empty for every type.
unfoldable pub all_unsafe_params : Instance → List (Text × Param)
all_unsafe_params e = merged e.cause_unsafe []

-- errors.SerializableError, with the parameters as JSON.
pub record Serializable : Type 0 where
  pub error_code : ErrorCode
  pub error_name : Text
  pub error_instance_id : Text
  pub params : Text

-- encoding/json: a document is read to its fields, if it is one.
pub record Codec : Type 0 where
  pub write_params : List (Text × Param) → Text
  pub read_params : Text → Option (List (Text × Param))
  pub write_error : Serializable → Text
  pub read_error : Text → Option Serializable

-- MarshalJSON. The JSON keys of the fields, which it writes, are those of Parameters().
unfoldable pub marshal : Codec → Instance → Text
unfolding type_of
marshal c e = c.write_error (record {
  error_code = (type_of e.kind).code;
  error_name = (type_of e.kind).name;
  error_instance_id = e.instance_id;
  params = c.write_params ((type_of e.kind).parameters e.fields);
})

-- UnmarshalJSON of a type. It compares neither the name nor the code.
unfoldable pub unmarshal : Codec → Kind → Text → Option Instance
unfolding type_of
unmarshal c k body = do
  s ← c.read_error body
  ps ← c.read_params s.params
  fields ← (type_of k).read ps
  some (record {
    kind = k;
    fields = fields;
    instance_id = s.error_instance_id;
    cause_safe = [];
    cause_unsafe = [];
  })

-- RegisterErrorType panics on a name that is taken.
abbrev pub Registry : Type 0
Registry = List (Text × Kind)

unfoldable pub registered : Text → Registry → Option Kind
registered n [] = none
registered n ((m, k) ∷ r) = if text_eq m n then some k else registered n r

abbrev is_none {ℓ} : {A : Type ℓ} → Option A → Bool
is_none none = true
is_none (some a) = false

unfoldable pub register_error_type : Text → Kind → Registry → Option Registry
unfolding registered
register_error_type n k r = if is_none (registered n r) then some ((n, k) ∷ r) else none

-- init
unfoldable pub init : Option Registry
unfolding register_error_type type_of
init = do
  a ←
      register_error_type (type_of Kind.attachment_upload_failed).name Kind.attachment_upload_failed
        []
  b ← register_error_type (type_of Kind.idempotency_conflict).name Kind.idempotency_conflict a
  c ← register_error_type (type_of Kind.internal_service_error).name Kind.internal_service_error b
  d ← register_error_type (type_of Kind.invalid_signal_message).name Kind.invalid_signal_message c
  e ← register_error_type (type_of Kind.sender_mismatch).name Kind.sender_mismatch d
  f ← register_error_type (type_of Kind.signal_cli_unavailable).name Kind.signal_cli_unavailable e
  register_error_type (type_of Kind.signal_message_not_found).name Kind.signal_message_not_found f

-- The decoder of the client: the type by the name, or a generic error.
pub data Decoded : Type 0 where
  known : Instance → Decoded
  generic : Serializable → Decoded

abbrev known_as : Codec → Text → Serializable → Option Kind → Option Decoded
known_as c body s none = some (generic s)
known_as c body s (some k) = do e ← unmarshal c k body; some (known e)

unfoldable pub decode_conjure_error : Codec → Registry → Text → Option Decoded
unfolding registered unmarshal
decode_conjure_error c r body = do
  s ← c.read_error body
  known_as c body s (registered s.error_name r)

-- A client decodes with the registry that start-up filled; none where the registration panics.
unfoldable pub client_decode : Codec → Text → Option Decoded
unfolding init decode_conjure_error
client_decode c body = do r ← init; decode_conjure_error c r body
