-- ===== src/Handler/Multipart.antt =====
-- internal/handler/multipart.go: POST /api/v1/signal-messages. The body is a sequence of parts; the
-- decoder of the metadata, which is codecs.JSON's, is a parameter.
use go_signalium.Base.{ℕ, Bool, true, false, Option, none, some, if◌then◌else◌}
use go_signalium.Base.Text.{Text, codes, text_eq}
use go_signalium.Domain.{
  Err, not_found, idempotency_conflict, constraint, unavailable, bad_params, remote, end_of_parts,
  invalid_signal_message, sender_mismatch, attachment_upload_failed, signal_message_not_found,
  wire_idempotency_conflict, signal_cli_unavailable, internal_service_error, Result, ok, err,
}
use go_signalium.Service.Enqueue.{
  CreateMessage, Parts, eof, broken, part, EnqueueResult, Env, State, enqueue,
}
use go_signalium.Storage.{Objects}
use go_signalium.Service.Enqueue.Rollback.{Answers, Failed, Subset, enqueue-Subset}
use go_signalium.Handler.{map_to_conjure_error}

pub record RawPart : Type 0 where
  pub form_name : Text
  pub file_name : Text
  pub content_type : Text
  pub body : Text

-- What multipart.Reader.NextPart yields: parts, then io.EOF or another error.
pub data RawParts : Type 0 where
  finished : RawParts
  torn : RawParts
  next : RawPart → RawParts → RawParts

pub record Request : Type 0 where
  pub is_post : Bool
  pub body : Option RawParts

-- Next, until it gives an error: the attachments, up to the first part with another name.
unfoldable pub attachment_parts : RawParts → Parts
attachment_parts finished = eof
attachment_parts torn = broken (invalid_signal_message "attachments")
attachment_parts (next p rest) =
    let others = attachment_parts rest in
    if text_eq p.form_name (codes "attachments")
    then part (record { filename = p.file_name; content_type = p.content_type }) others
    else if text_eq p.form_name (codes "metadata")
    then broken (invalid_signal_message "metadata")
    else broken (invalid_signal_message "part")

-- splitMetadata with toCreateMessage
unfoldable pub split_metadata :
    (Text → Option CreateMessage) → RawParts → Result (CreateMessage × Parts)
unfolding attachment_parts
split_metadata decode finished = err (invalid_signal_message "metadata")
split_metadata decode torn = err (invalid_signal_message "metadata")
split_metadata decode (next p rest) =
    if text_eq p.form_name (codes "metadata")
    then elim (decode p.body) [
      | none ↦ err (invalid_signal_message "metadata")
      | some m ↦ ok (m, attachment_parts rest)
    ]
    else err (invalid_signal_message "metadata")

-- The answer: 202 with the id, or an error's.
pub data Response : Type 0 where
  accepted : ℕ → Response
  refused : Err → Response

abbrev pub answer : Result EnqueueResult × State → Response × State
answer (ok r, s) = (accepted r.id, s)
answer (err x, s) = (refused (map_to_conjure_error x), s)

-- ServeHTTP
unfoldable pub serve_http :
    (Text → Option CreateMessage) → Text → Env → Request → State → Response × State
unfolding split_metadata map_to_conjure_error
serve_http decode sender e q s =
    if q.is_post
    then elim q.body [
      | none ↦ (refused (invalid_signal_message "contentType"), s)
      | some parts ↦ elim (split_metadata decode parts) [
        | err x ↦ (refused x, s)
        | ok r ↦ answer (enqueue sender e r.0 (some r.1) s)
      ]
    ]
    else (refused (invalid_signal_message "method"), s)

-- The errors that have a code of their own on the wire.
abbrev pub IsWire : Err → Type 0
IsWire wire_idempotency_conflict = Unit
IsWire (invalid_signal_message field) = Unit
IsWire (signal_message_not_found id) = Unit
IsWire (sender_mismatch a b) = Unit
IsWire (attachment_upload_failed name) = Unit
IsWire signal_cli_unavailable = Unit
IsWire internal_service_error = Unit
IsWire not_found = ⊥
IsWire idempotency_conflict = ⊥
IsWire constraint = ⊥
IsWire unavailable = ⊥
IsWire bad_params = ⊥
IsWire remote = ⊥
IsWire end_of_parts = ⊥

map_to_conjure_error-IsWire : (x : Err) → IsWire (map_to_conjure_error x)
unfolding map_to_conjure_error
map_to_conjure_error-IsWire wire_idempotency_conflict = tt
map_to_conjure_error-IsWire (invalid_signal_message field) = tt
map_to_conjure_error-IsWire (signal_message_not_found id) = tt
map_to_conjure_error-IsWire (sender_mismatch a b) = tt
map_to_conjure_error-IsWire (attachment_upload_failed name) = tt
map_to_conjure_error-IsWire signal_cli_unavailable = tt
map_to_conjure_error-IsWire internal_service_error = tt
map_to_conjure_error-IsWire not_found = tt
map_to_conjure_error-IsWire idempotency_conflict = tt
map_to_conjure_error-IsWire constraint = tt
map_to_conjure_error-IsWire unavailable = tt
map_to_conjure_error-IsWire bad_params = tt
map_to_conjure_error-IsWire remote = tt
map_to_conjure_error-IsWire end_of_parts = tt

abbrev AllWire : Result (CreateMessage × Parts) → Type 0
AllWire (ok r) = Unit
AllWire (err x) = IsWire x

split_metadata-AllWire :
    (decode : Text → Option CreateMessage) (parts : RawParts)
    → AllWire (split_metadata decode parts)
unfolding split_metadata
split_metadata-AllWire decode finished = tt
split_metadata-AllWire decode torn = tt
split_metadata-AllWire decode (next p rest) =
    named (text_eq p.form_name (codes "metadata")) (decode p.body)
  where
    named :
        (b : Bool) (d : Option CreateMessage)
        → AllWire (
            if b
            then elim d [
              | none ↦ err (invalid_signal_message "metadata")
              | some m ↦ ok (m, attachment_parts rest)
            ]
            else err (invalid_signal_message "metadata"))
    named false d = tt
    named true none = tt
    named true (some m) = tt

-- What a refusal means: an error of the wire, and a store without new objects.
abbrev pub IsRefusal : Objects → Response × State → Type 0
IsRefusal s0 (accepted id, s) = Unit
IsRefusal s0 (refused x, s) = IsWire x × Subset s.objects s0

-- Where the object store answers, a request that is refused gets an error of the wire, and no object
-- is in the store that was not there before it.
pub serve_http-IsRefusal :
    (decode : Text → Option CreateMessage) (sender : Text) (e : Env) (q : Request) (s : State)
    → Answers e
    → IsRefusal s.objects (serve_http decode sender e q s)
unfolding serve_http
serve_http-IsRefusal decode sender e q s answers = routed q.is_post q.body
  where
    enqueued :
        (r : Result EnqueueResult × State)
        → (Failed r.0 → Subset r.1.objects s.objects)
        → IsRefusal s.objects (answer r)
    enqueued (ok r, s') h = tt
    enqueued (err x, s') h = (map_to_conjure_error-IsWire x, h tt)

    split :
        (r : Result (CreateMessage × Parts))
        → AllWire r
        → IsRefusal s.objects
            (elim r [ err x ↦ (refused x, s) | ok r ↦ answer (enqueue sender e r.0 (some r.1) s) ])
    split (err x) w = (w, λ o i. i)
    split (ok (m, parts)) w =
        enqueued (enqueue sender e m (some parts) s)
          (enqueue-Subset sender e m (some parts) s answers)

    routed :
        (b : Bool) (body : Option RawParts)
        → IsRefusal s.objects (
            if b
            then elim body [
              | none ↦ (refused (invalid_signal_message "contentType"), s)
              | some parts ↦ elim (split_metadata decode parts) [
                | err x ↦ (refused x, s)
                | ok r ↦ answer (enqueue sender e r.0 (some r.1) s)
              ]
            ]
            else (refused (invalid_signal_message "method"), s))
    routed false body = (tt, λ o i. i)
    routed true none = (tt, λ o i. i)
    routed true (some parts) =
        split (split_metadata decode parts) (split_metadata-AllWire decode parts)
