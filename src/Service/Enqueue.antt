-- ===== src/Service/Enqueue.antt =====
-- internal/service/send_message.go: a request is validated, its attachments are streamed to the object
-- store, and its row is inserted. Times count from Go's zero time, so that a time before now exists.
pub mod Rollback
pub mod Validation
pub mod Keys
pub mod Rows
pub mod Uploads
use go_signalium.Base.{
  ℕ, zero, suc, ◌+◌, ◌-◌, ◌*◌, ◌/◌, Bool, true, false, not, ◌&&◌, ◌||◌, Option, none, some, List,
  [], ◌∷◌, ◌++◌, ◌==◌, leb, ltb, length, if◌then◌else◌,
}
use go_signalium.Base.Text.{Text, codes, text_eq, is_set}
use go_signalium.Base.Int.{ℤ, pos, negsuc, int32, int64, is_positive}
use go_signalium.Domain.{
  Message, Attachment, Err, not_found, Result, ok, err, invalid_signal_message, sender_mismatch,
  attachment_upload_failed,
}
use go_signalium.Repo.{Table}
use go_signalium.Repo.Insert.{InsertParams}
use go_signalium.Repo.Messages.{Link}
use go_signalium.Repo.Messages
use go_signalium.Storage.{Objects, ObjectRef, to_ref, put, remove}
use go_signalium.Service.Filename.{sanitize_filename, is_empty}

pub record CreateMessage : Type 0 where
  pub external_id : Text
  pub idempotency_key : Option Text
  pub recipient : Option Text
  pub group_id : Option Text
  pub sender_phone_number : Option Text
  pub content : Text
  pub quote_result_id : Option Text
  pub timeout_seconds : Option ℤ
  pub max_attempts : Option ℤ

pub record AttachmentPart : Type 0 where
  pub filename : Text
  pub content_type : Text

-- What the iterator AttachmentParts yields: parts, then io.EOF or another error.
pub data Parts : Type 0 where
  eof : Parts
  broken : Err → Parts
  part : AttachmentPart → Parts → Parts

pub record EnqueueResult : Type 0 where
  pub id : ℕ
  pub idempotent : Bool

-- `uuid` is the text of uuid.New(), `row_id` what the database draws; `put_link` is asked at each upload.
pub record Env : Type 0 where
  pub bucket : Text
  pub uuid : Text
  pub row_id : ℕ
  pub clock : ℕ
  pub db_now : ℕ
  pub lookup_link : Link
  pub insert_link : Link
  pub put_link : ℕ → Link
  pub remove_link : ObjectRef → Link

pub record State : Type 0 where
  pub table : Table
  pub objects : Objects

-- The bytes of the white space that begins a text: unicode.IsSpace of its first rune.
abbrev space2 : ℕ → ℕ → ℕ
space2 a b = if a == 194 && (b == 133 || b == 160) then 2 else 0

abbrev is_space3 : ℕ → ℕ → ℕ → Bool
is_space3 a b c =
    a == 225 && (b == 154 && c == 128)
    || (a == 226 && (b == 128 && (leb 128 c && leb c 138 || (c == 168 || (c == 169 || c == 175))))
        || (a == 226 && (b == 129 && c == 159) || a == 227 && (b == 128 && c == 128)))

abbrev space : Text → ℕ
space [] = 0
space (a ∷ []) = if a == 32 || leb 9 a && leb a 13 then 1 else 0
space (a ∷ b ∷ []) = if a == 32 || leb 9 a && leb a 13 then 1 else space2 a b
space (a ∷ b ∷ c ∷ t) =
    if a == 32 || leb 9 a && leb a 13 then 1 else if is_space3 a b c then 3 else space2 a b

-- strings.TrimSpace(s) == ""; `skip` bytes belong to a rune that was trimmed.
unfoldable pub is_blank : ℕ → Text → Bool
is_blank skip [] = true
is_blank (suc skip) (b ∷ t) = is_blank skip t
is_blank zero (b ∷ t) = elim (space (b ∷ t)) [ zero ↦ false | suc n ↦ is_blank n t ]

-- senderPhoneNumber is set, and not the configured one.
unfoldable pub is_other_sender : Text → Option Text → Bool
is_other_sender sender none = false
is_other_sender sender (some s) = is_set (some s) && not (text_eq s sender)

abbrev pub or_empty : Option Text → Text
or_empty none = []
or_empty (some t) = t

abbrev is_equal : Bool → Bool → Bool
is_equal true b = b
is_equal false b = not b

-- validate
unfoldable pub validate : Text → CreateMessage → Result (Unit {0})
unfolding is_blank is_other_sender
validate sender m =
    if is_blank 0 m.external_id || ltb 255 (length m.external_id)
    then err (invalid_signal_message "externalId")
    else if is_blank 0 m.content
    then err (invalid_signal_message "content")
    else if is_equal (is_set m.recipient) (is_set m.group_id)
    then err (invalid_signal_message "recipient|groupId")
    else if is_other_sender sender m.sender_phone_number
    then err (sender_mismatch sender (or_empty m.sender_phone_number))
    else ok tt

-- rollback: each failure is logged and skipped.
unfoldable pub rollback : Env → List Attachment → Objects → Objects
rollback e [] s = s
rollback e (a ∷ refs) s = rollback e refs (remove (e.remove_link (to_ref a)) (to_ref a) s).1

abbrev pub attachment : ObjectRef → AttachmentPart → Attachment
attachment r p = record {
  bucket = r.bucket;
  filename = r.key;
  mime_type = p.content_type;
  size = 0;
}

-- id.String() + "/" + filename
abbrev pub object_key : Env → Text → Text
object_key e name = e.uuid ++ (47 ∷ name)

-- uploadAll: `done` are the attachments so far, `i` of them.
unfoldable pub upload_all :
    Env → ℕ → Parts → List Attachment → Objects → Result (List Attachment) × Objects
unfolding rollback
upload_all e i eof done s = (ok done, s)
upload_all e i (broken x) done s = (err (attachment_upload_failed []), rollback e done s)
upload_all e i (part p rest) done s = elim (sanitize_filename p.filename) [
  | [] ↦ (err (invalid_signal_message "attachments"), rollback e done s)
  | b ∷ t ↦
      let (r, s') = put (e.put_link i) e.bucket (object_key e (b ∷ t)) s in
      elim r [
        | ok ref ↦ upload_all e (i + 1) rest (done ++ (attachment ref p ∷ [])) s'
        | err x ↦ (err (attachment_upload_failed (b ∷ t)), rollback e done s')
      ]
]

-- A request without parts has no iterator.
unfoldable pub upload : Env → Option Parts → Objects → Result (List Attachment) × Objects
unfolding upload_all
upload e none s = (ok [], s)
upload e (some parts) s = upload_all e 0 parts [] s

-- int32(*m.MaxAttempts), or 5
unfoldable pub max_attempts_of : Option ℤ → ℤ
max_attempts_of none = pos 5
max_attempts_of (some (pos n)) = if ltb 0 n then int32 n else pos 5
max_attempts_of (some (negsuc n)) = pos 5

-- t.Add(d), in nanoseconds
abbrev add_duration : ℕ → ℤ → ℕ
add_duration t (pos d) = t + d
add_duration t (negsuc d) = t - (d + 1)

-- now + TimeoutSeconds * time.Second, where the product wraps; the column holds microseconds.
unfoldable pub timeout_at_of : ℕ → Option ℤ → Option ℕ
timeout_at_of clock none = none
timeout_at_of clock (some (pos n)) =
    if ltb 0 n then some (add_duration clock (int64 (n * 1000000000)) / 1000) else none
timeout_at_of clock (some (negsuc n)) = none

unfoldable pub insert_params : Text → Env → CreateMessage → List Attachment → InsertParams
unfolding max_attempts_of timeout_at_of
insert_params sender e m attachments = record {
  external_id = m.external_id;
  idempotency_key = m.idempotency_key;
  recipient = m.recipient;
  group_id = m.group_id;
  sender_phone_number = sender;
  content = m.content;
  attachments = attachments;
  max_attempts = max_attempts_of m.max_attempts;
  timeout_at = timeout_at_of e.clock m.timeout_seconds;
  correlation_id = e.uuid;
}

-- The lookup of the key: the row that has it, none, or an error.
abbrev existing : Result Message → Result (Option ℕ)
existing (ok row) = ok (some row.id)
existing (err x) = elim x [ not_found ↦ ok none | y ↦ err y ]

unfoldable pub find_existing : Env → CreateMessage → Table → Result (Option ℕ)
find_existing e m t =
    if is_set m.idempotency_key
    then existing (Messages.get_by_idempotency_key e.lookup_link (or_empty m.idempotency_key) t)
    else ok none

-- Enqueue, past the upload, the lookup and the validation.
unfoldable pub insert_row :
    Text
    → Env
    → CreateMessage
    → Result (List Attachment) × Objects
    → Table
    → Result EnqueueResult × State
unfolding insert_params rollback
insert_row sender e m (err x, s) t = (err x, record { table = t; objects = s })
insert_row sender e m (ok refs, s) t =
    let (r, t') =
      Messages.insert e.insert_link e.db_now e.row_id (insert_params sender e m refs) t in
    elim r [
      | ok row ↦
          (ok (record { id = row.id; idempotent = false }), record { table = t'; objects = s })
      | err x ↦ (err x, record { table = t'; objects = rollback e refs s })
    ]

unfoldable pub after_lookup :
    Text
    → Env
    → CreateMessage
    → Option Parts
    → State
    → Result (Option ℕ)
    → Result EnqueueResult × State
unfolding upload insert_row
after_lookup sender e m parts s (err x) = (err x, s)
after_lookup sender e m parts s (ok (some id)) = (ok (record { id = id; idempotent = true }), s)
after_lookup sender e m parts s (ok none) = insert_row sender e m (upload e parts s.objects) s.table

unfoldable pub enqueue :
    Text → Env → CreateMessage → Option Parts → State → Result EnqueueResult × State
unfolding find_existing after_lookup
enqueue sender e m parts s = elim (validate sender m) [
  | err x ↦ (err x, s)
  | ok _ ↦ after_lookup sender e m parts s (find_existing e m s.table)
]
