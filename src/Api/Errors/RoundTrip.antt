-- ===== src/Api/Errors/RoundTrip.antt =====
-- An error of the wire is read back as it was written, and what its safe parameters are.
use go_signalium.Base.{◌≡◌, refl, ◌∙◌, Option, none, some, List, [], ◌∷◌, ◌++◌, arith}
use go_signalium.Base.Text.{Text, text_eq, text_eq_iff}
use go_signalium.Api.Errors.Types.{Kind, Param, Fields, find, type_of}
use go_signalium.Api.Errors.{
  Instance, safe_params, add_absent, merged, all_safe_params, Serializable, Codec, marshal,
  unmarshal, Registry, registered, init, known, decode_conjure_error, client_decode,
}

-- The fields of a type are read back as its Parameters gives them.
read-parameters : (k : Kind) (f : Fields k) → (type_of k).read ((type_of k).parameters f) ≡ some f
unfolding type_of text_eq
read-parameters Kind.attachment_upload_failed f = refl
read-parameters Kind.idempotency_conflict f = refl
read-parameters Kind.internal_service_error f = refl
read-parameters Kind.invalid_signal_message f = refl
read-parameters Kind.sender_mismatch f = refl
read-parameters Kind.signal_cli_unavailable f = refl
read-parameters Kind.signal_message_not_found f = refl

-- The names differ, so that each is registered.
abbrev all_registered : Registry
all_registered =
    ((type_of Kind.signal_message_not_found).name, Kind.signal_message_not_found)
    ∷ ((type_of Kind.signal_cli_unavailable).name, Kind.signal_cli_unavailable)
    ∷ ((type_of Kind.sender_mismatch).name, Kind.sender_mismatch)
    ∷ ((type_of Kind.invalid_signal_message).name, Kind.invalid_signal_message)
    ∷ ((type_of Kind.internal_service_error).name, Kind.internal_service_error)
    ∷ ((type_of Kind.idempotency_conflict).name, Kind.idempotency_conflict)
    ∷ ((type_of Kind.attachment_upload_failed).name, Kind.attachment_upload_failed)
    ∷ []

init_lem : init ≡ some all_registered
unfolding init text_eq
init_lem = refl

registered-name : (k : Kind) → registered (type_of k).name all_registered ≡ some k
unfolding registered type_of text_eq
registered-name Kind.attachment_upload_failed = refl
registered-name Kind.idempotency_conflict = refl
registered-name Kind.internal_service_error = refl
registered-name Kind.invalid_signal_message = refl
registered-name Kind.sender_mismatch = refl
registered-name Kind.signal_cli_unavailable = refl
registered-name Kind.signal_message_not_found = refl

-- encoding/json reads what it wrote.
pub record IsLossless (c : Codec) : Type 0 where
  pub params_back : (ps : List (Text × Param)) → c.read_params (c.write_params ps) ≡ some ps
  pub error_back : (s : Serializable) → c.read_error (c.write_error s) ≡ some s

-- What a client has of an error.
abbrev pub uncaused : Instance → Instance
uncaused e = record e { cause_safe = []; cause_unsafe = [] }

abbrev serialized : Codec → Instance → Serializable
serialized c e = record {
  error_code = (type_of e.kind).code;
  error_name = (type_of e.kind).name;
  error_instance_id = e.instance_id;
  params = c.write_params ((type_of e.kind).parameters e.fields);
}

unmarshal-marshal :
    (c : Codec) (e : Instance) → IsLossless c → unmarshal c e.kind (marshal c e) ≡ some (uncaused e)
unfolding marshal unmarshal
unmarshal-marshal c e l = rw (l.error_back (serialized c e)) (
    rw (l.params_back ((type_of e.kind).parameters e.fields))
      (rw (read-parameters e.kind e.fields) refl))

-- Start-up registers the seven names without a panic, and with that registry a client reads each of
-- the seven errors back as the server's error, with its type, all its parameters and its instance id;
-- the cause alone stays behind.
pub decode-marshal :
    (c : Codec) (e : Instance)
    → IsLossless c
    → client_decode c (marshal c e) ≡ some (known (uncaused e))
unfolding client_decode decode_conjure_error
decode-marshal c e l =
    let read : c.read_error (marshal c e) ≡ some (serialized c e) =
      unfold marshal in l.error_back (serialized c e) in
    rw init_lem (rw read (rw (registered-name e.kind) (rw (unmarshal-marshal c e l) refl)))

abbrev or_else : Option Param → Option Param → Option Param
or_else none o = o
or_else (some p) o = some p

find-append :
    (k : Text) (ps qs : List (Text × Param)) → find k (ps ++ qs) ≡ or_else (find k ps) (find k qs)
unfolding find
find-append k [] qs = refl
find-append k ((j, p) ∷ ps) qs = ground (arith, find-append k ps qs)

find-merged :
    (k : Text) (ps own : List (Text × Param))
    → find k (merged ps own) ≡ or_else (find k ps) (find k own)
unfolding find
find-merged k ps [] = ground arith
find-merged k ps ((j, p) ∷ own) =
    find-merged k (add_absent (find j ps) j p ps) own
    ∙ ground (arith, find-append k ps ((j, p) ∷ []), text_eq_iff j k)

-- Each safe parameter of an error is that of its cause, where the cause has one of the name, and else
-- its own.
pub find-all_safe_params :
    (k : Text) (e : Instance)
    → find k (all_safe_params e) ≡ or_else (find k e.cause_safe) (find k (safe_params e))
unfolding all_safe_params
find-all_safe_params k e = find-merged k e.cause_safe (safe_params e)
