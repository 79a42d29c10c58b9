-- ===== src/Handler.antt =====
-- internal/handler: the operational endpoints over the table, the errors and the shapes of the wire.
pub mod Operations
pub mod Multipart
pub mod Statistics
pub mod Proxy
use go_signalium.Base.{
  ℕ, ◌+◌, Bool, true, false, Option, none, some, List, [], ◌∷◌, map, ltb, leb, if◌then◌else◌,
}
use go_signalium.Base.Text.{Text, is_set}
use go_signalium.Base.Int.{ℤ, pos, negsuc, int32, int32_of}
use go_signalium.Domain.{
  Message, Attachment, Status, pending, sending, sent, failed, permanent_failed, timed_out, unknown,
  Err, not_found, idempotency_conflict, constraint, unavailable, bad_params, remote, end_of_parts,
  invalid_signal_message, sender_mismatch, attachment_upload_failed, signal_message_not_found,
  wire_idempotency_conflict, signal_cli_unavailable, internal_service_error, Result, ok, err,
}
use go_signalium.Repo.{Table}
use go_signalium.Repo.Messages.{Link}
use go_signalium.Repo.Messages
use go_signalium.Repo.Listing.{ListFilters, list, count_of}

-- coalescePositive, coalesceNonNegative, with the narrowing to int32.
unfoldable pub coalesce_positive : Option ℤ → ℤ → ℤ
coalesce_positive none fallback = fallback
coalesce_positive (some (pos n)) fallback = if ltb 0 n then int32 n else fallback
coalesce_positive (some (negsuc n)) fallback = fallback

unfoldable pub coalesce_non_negative : Option ℤ → ℤ
coalesce_non_negative none = pos 0
coalesce_non_negative (some (pos n)) = int32 n
coalesce_non_negative (some (negsuc n)) = pos 0

-- mapToConjureError
unfoldable pub map_to_conjure_error : Err → Err
map_to_conjure_error wire_idempotency_conflict = wire_idempotency_conflict
map_to_conjure_error (invalid_signal_message field) = invalid_signal_message field
map_to_conjure_error (signal_message_not_found id) = signal_message_not_found id
map_to_conjure_error (sender_mismatch a b) = sender_mismatch a b
map_to_conjure_error (attachment_upload_failed name) = attachment_upload_failed name
map_to_conjure_error signal_cli_unavailable = signal_cli_unavailable
map_to_conjure_error internal_service_error = internal_service_error
map_to_conjure_error not_found = signal_message_not_found none
map_to_conjure_error idempotency_conflict = wire_idempotency_conflict
map_to_conjure_error constraint = internal_service_error
map_to_conjure_error unavailable = internal_service_error
map_to_conjure_error bad_params = internal_service_error
map_to_conjure_error remote = internal_service_error
map_to_conjure_error end_of_parts = internal_service_error

-- notFoundOrInternal
unfoldable pub not_found_or_internal : ℕ → Err → Err
unfolding map_to_conjure_error
not_found_or_internal id x = elim x [
  | not_found ↦ signal_message_not_found (some id)
  | y ↦ map_to_conjure_error y
]

-- The attachments of the wire; a size of 2 ^ 53 or more is no SafeLong and is left out.
pub record WireAttachment : Type 0 where
  pub bucket : Text
  pub filename : Text
  pub mime_type : Option Text
  pub size : Option ℕ

unfoldable pub to_conjure_attachment : Attachment → WireAttachment
to_conjure_attachment a = record {
  bucket = a.bucket;
  filename = a.filename;
  mime_type = if is_set (some a.mime_type) then some a.mime_type else none;
  size = if ltb 0 a.size then (if ltb a.size 9007199254740992 then some a.size else none) else none;
}

-- toConjureAttachments
unfoldable pub to_conjure_attachments : List Attachment → List WireAttachment
unfolding to_conjure_attachment
to_conjure_attachments = map to_conjure_attachment

pub record SignalMessageInfo : Type 0 where
  pub id : ℕ
  pub external_id : Text
  pub idempotency_key : Option Text
  pub recipient : Option Text
  pub group_id : Option Text
  pub sender_phone_number : Text
  pub content : Text
  pub attachments : List WireAttachment
  pub attempts : ℕ
  pub max_attempts : ℤ
  pub next_attempt_at : ℕ
  pub timeout_at : Option ℕ
  pub status : Status
  pub last_error : Option Text
  pub result_id : Option Text
  pub quote_result_id : Option Text
  pub correlation_id : Text
  pub created_at : ℕ
  pub modified_at : ℕ

-- domainToConjure
unfoldable pub domain_to_conjure : Message → SignalMessageInfo
unfolding to_conjure_attachments
domain_to_conjure m = record {
  id = m.id;
  external_id = m.external_id;
  idempotency_key = m.idempotency_key;
  recipient = m.recipient;
  group_id = m.group_id;
  sender_phone_number = m.sender_phone_number;
  content = m.content;
  attachments = to_conjure_attachments m.attachments;
  attempts = m.attempts;
  max_attempts = m.max_attempts;
  next_attempt_at = m.next_attempt_at;
  timeout_at = m.timeout_at;
  status = m.status;
  last_error = m.last_error;
  result_id = m.result_id;
  quote_result_id = m.quote_result_id;
  correlation_id = m.correlation_id;
  created_at = m.created_at;
  modified_at = m.modified_at;
}

-- isOperatorAssignableStatus
unfoldable pub is_operator_assignable_status : Status → Bool
is_operator_assignable_status pending = true
is_operator_assignable_status sent = true
is_operator_assignable_status failed = true
is_operator_assignable_status permanent_failed = true
is_operator_assignable_status timed_out = true
is_operator_assignable_status sending = false
is_operator_assignable_status (unknown t) = false

-- A message for the wire, or its error by one of the two mappings.
abbrev pub respond : (Err → Err) → Result Message → Result SignalMessageInfo
respond f (ok m) = ok (domain_to_conjure m)
respond f (err x) = err (f x)

-- GetSignalMessage
unfoldable pub get_signal_message : Link → ℕ → Table → Result SignalMessageInfo
unfolding domain_to_conjure not_found_or_internal
get_signal_message link id t = respond (not_found_or_internal id) (Messages.get_by_id link id t)

-- UpdateSignalMessage
unfoldable pub update_signal_message :
    Link → ℕ → ℕ → Status → Table → Result SignalMessageInfo × Table
unfolding is_operator_assignable_status domain_to_conjure not_found_or_internal
update_signal_message link now id target t =
    let (r, t') = Messages.update_status link now id target t in
    if is_operator_assignable_status target
    then (respond (not_found_or_internal id) r, t')
    else (err (invalid_signal_message "status"), t)

-- ResendSignalMessage: three round trips.
unfoldable pub resend_signal_message :
    Link → Link → Link → ℕ → ℕ → Table → Result SignalMessageInfo × Table
unfolding domain_to_conjure not_found_or_internal map_to_conjure_error
resend_signal_message look write again now id t = elim (Messages.get_by_id look id t) [
  | err x ↦ (err (not_found_or_internal id x), t)
  | ok m ↦
      let (r, t') = Messages.resend write now id t in
      elim r [
        | err x ↦ (err (map_to_conjure_error x), t')
        | ok u ↦ (respond (not_found_or_internal id) (Messages.get_by_id again id t'), t')
      ]
]

-- intPtrToInt32
unfoldable pub int_ptr_to_int32 : Option ℤ → Option ℤ
int_ptr_to_int32 none = none
int_ptr_to_int32 (some z) = some (int32_of z)

-- The query parameters of a listing.
pub record ListQuery : Type 0 where
  pub q : Option Text
  pub limit : Option ℤ
  pub offset : Option ℤ
  pub created_at_from : Option ℕ
  pub created_at_to : Option ℕ
  pub status : Option Status
  pub attempts : Option ℤ

unfoldable pub list_filters : ListQuery → ListFilters
unfolding coalesce_positive coalesce_non_negative int_ptr_to_int32
list_filters p = record {
  q = p.q;
  status = p.status;
  attempts = int_ptr_to_int32 p.attempts;
  created_at_from = p.created_at_from;
  created_at_to = p.created_at_to;
  limit = coalesce_positive p.limit (pos 50);
  offset = coalesce_non_negative p.offset;
}

pub record SignalMessageList : Type 0 where
  pub items : List SignalMessageInfo
  pub total : ℕ

-- ListSignalMessages: two round trips, over the tables that they find.
unfoldable pub list_signal_messages :
    (Text → Text → Bool) → Link → Link → ListQuery → Table → Table → Result SignalMessageList
unfolding list_filters domain_to_conjure map_to_conjure_error
list_signal_messages ilike link link' p t t' = elim (list ilike link (list_filters p) t) [
  | err x ↦ err (map_to_conjure_error x)
  | ok rows ↦ elim (count_of ilike link' (list_filters p) t') [
    | err x ↦ err (map_to_conjure_error x)
    | ok n ↦ ok (record { items = map domain_to_conjure rows; total = n })
  ]
]
