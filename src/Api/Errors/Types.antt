-- ===== src/Api/Errors/Types.antt =====
-- The seven types of errors.conjure.go: the fields of each, its name, its code and its parameters.
use go_signalium.Base.{Option, none, some, List, [], ◌∷◌, if◌then◌else◌}
use go_signalium.Base.Text.{Text, codes, text_eq}
use go_signalium.Base.Int.{ℤ, pos}

-- errors.ErrorCode of conjure-go-contract, as far as the errors use it.
pub data ErrorCode : Type 0 where
  invalid_argument conflict not_found internal custom_server : ErrorCode

pub data Param : Type 0 where
  text : Text → Param
  number : ℤ → Param

-- The Go types, which the registry holds.
pub data Kind : Type 0 where
  attachment_upload_failed idempotency_conflict internal_service_error : Kind
  invalid_signal_message sender_mismatch signal_cli_unavailable signal_message_not_found : Kind

unfoldable pub find : Text → List (Text × Param) → Option Param
find k [] = none
find k ((j, p) ∷ ps) = if text_eq j k then some p else find k ps

-- What the methods of a type say: Name, Code, Parameters, and how UnmarshalJSON fills its struct.
-- encoding/json reads the fields of a struct by their tags: a field that is not there keeps its zero
-- value, and one of another type is an error.
pub record ErrorType (F : Type 0) : Type 0 where
  pub name : Text
  pub code : ErrorCode
  pub parameters : F → List (Text × Param)
  pub read : List (Text × Param) → Option F

abbrev as_text : Option Param → Option Text
as_text none = some []
as_text (some (text t)) = some t
as_text (some (number n)) = none

abbrev as_number : Option Param → Option ℤ
as_number none = some (pos 0)
as_number (some (number n)) = some n
as_number (some (text t)) = none

infixl 5 ◌>>=◌
abbrev pub ◌>>=◌ {ℓ κ} : {A : Type ℓ} {B : Type κ} → Option A → (A → Option B) → Option B
none >>= f = none
some a >>= f = f a

unfoldable pub attachment_upload_failed_type : ErrorType Text
unfolding find
attachment_upload_failed_type = record {
  name = codes "Signalium:AttachmentUploadFailed";
  code = custom_server;
  parameters = λ filename. (codes "filename", text filename) ∷ [];
  read = λ ps. as_text (find (codes "filename") ps);
}

unfoldable pub idempotency_conflict_type : ErrorType Text
unfolding find
idempotency_conflict_type = record {
  name = codes "Signalium:IdempotencyConflict";
  code = conflict;
  parameters = λ key. (codes "idempotencyKey", text key) ∷ [];
  read = λ ps. as_text (find (codes "idempotencyKey") ps);
}

unfoldable pub internal_service_error_type : ErrorType (Unit {0})
internal_service_error_type = record {
  name = codes "Signalium:InternalServiceError";
  code = internal;
  parameters = λ u. [];
  read = λ ps. some tt;
}

-- Two fields of text.
abbrev read_two : Text → Text → List (Text × Param) → Option (Text × Text)
read_two j k ps = do a ← as_text (find j ps); b ← as_text (find k ps); some (a, b)

unfoldable pub invalid_signal_message_type : ErrorType (Text × Text)
unfolding find
invalid_signal_message_type = record {
  name = codes "Signalium:InvalidSignalMessage";
  code = invalid_argument;
  parameters = λ f. (codes "field", text f.0) ∷ (codes "reason", text f.1) ∷ [];
  read = read_two (codes "field") (codes "reason");
}

unfoldable pub sender_mismatch_type : ErrorType (Text × Text)
unfolding find
sender_mismatch_type = record {
  name = codes "Signalium:SenderMismatch";
  code = conflict;
  parameters = λ f. (codes "configured", text f.0) ∷ (codes "requested", text f.1) ∷ [];
  read = read_two (codes "configured") (codes "requested");
}

abbrev read_host_port : List (Text × Param) → Option (Text × ℤ)
read_host_port ps = do
  host ← as_text (find (codes "host") ps)
  port ← as_number (find (codes "port") ps)
  some (host, port)

unfoldable pub signal_cli_unavailable_type : ErrorType (Text × ℤ)
unfolding find
signal_cli_unavailable_type = record {
  name = codes "Signalium:SignalCliUnavailable";
  code = custom_server;
  parameters = λ f. (codes "host", text f.0) ∷ (codes "port", number f.1) ∷ [];
  read = read_host_port;
}

unfoldable pub signal_message_not_found_type : ErrorType Text
unfolding find
signal_message_not_found_type = record {
  name = codes "Signalium:SignalMessageNotFound";
  code = not_found;
  parameters = λ id. (codes "id", text id) ∷ [];
  read = λ ps. as_text (find (codes "id") ps);
}

abbrev pub Fields : Kind → Type 0
Fields Kind.attachment_upload_failed = Text
Fields Kind.idempotency_conflict = Text
Fields Kind.internal_service_error = Unit {0}
Fields Kind.invalid_signal_message = Text × Text
Fields Kind.sender_mismatch = Text × Text
Fields Kind.signal_cli_unavailable = Text × ℤ
Fields Kind.signal_message_not_found = Text

unfoldable pub type_of : (k : Kind) → ErrorType (Fields k)
unfolding attachment_upload_failed_type idempotency_conflict_type internal_service_error_type
    invalid_signal_message_type sender_mismatch_type signal_cli_unavailable_type
    signal_message_not_found_type
type_of Kind.attachment_upload_failed = attachment_upload_failed_type
type_of Kind.idempotency_conflict = idempotency_conflict_type
type_of Kind.internal_service_error = internal_service_error_type
type_of Kind.invalid_signal_message = invalid_signal_message_type
type_of Kind.sender_mismatch = sender_mismatch_type
type_of Kind.signal_cli_unavailable = signal_cli_unavailable_type
type_of Kind.signal_message_not_found = signal_message_not_found_type
