-- ===== src/Domain.antt =====
-- internal/domain: the plain types that the repo, the service, the handlers and the worker share,
-- and the error values that they exchange.
pub mod StatusText
pub mod Column
use go_signalium.Base.{ℕ, String, Bool, true, false, Option, List}
use go_signalium.Base.Text.{Text}
use go_signalium.Base.Int

-- `SignalMessageStatus` is a string type: a text that is none of the six is `unknown`.
pub data Status : Type 0 where
  pending sending sent failed permanent_failed timed_out : Status
  unknown : Text → Status

unfoldable pub is_terminal : Status → Bool
is_terminal sent = true
is_terminal permanent_failed = true
is_terminal timed_out = true
is_terminal pending = false
is_terminal sending = false
is_terminal failed = false
is_terminal (unknown t) = false

pub record Attachment : Type 0 where
  pub bucket : Text
  pub filename : Text
  pub mime_type : Text
  pub size : ℕ

-- `SignalMessage`. Identifiers and times are numbers.
pub record Message : Type 0 where
  pub id : ℕ
  pub external_id : Text
  pub idempotency_key : Option Text
  pub recipient : Option Text
  pub group_id : Option Text
  pub sender_phone_number : Text
  pub content : Text
  pub attachments : List Attachment
  pub attempts : ℕ
  pub max_attempts : Int.ℤ
  pub next_attempt_at : ℕ
  pub timeout_at : Option ℕ
  pub status : Status
  pub last_error : Option Text
  pub result_id : Option Text
  pub quote_result_id : Option Text
  pub correlation_id : Text
  pub created_at : ℕ
  pub modified_at : ℕ

-- Go `error` values: the two sentinels of the domain, a statement that Postgres refuses, a peer
-- that cannot be reached or that refuses, and the Conjure errors of the wire.
pub data Err : Type 0 where
  not_found idempotency_conflict : Err
  constraint : Err
  unavailable : Err
  bad_params : Err
  remote : Err
  end_of_parts : Err
  invalid_signal_message : String → Err
  sender_mismatch : Text → Text → Err
  attachment_upload_failed : Text → Err
  signal_message_not_found : Option ℕ → Err
  wire_idempotency_conflict : Err
  signal_cli_unavailable : Err
  internal_service_error : Err

pub data Result {ℓ} (A : Type ℓ) : Type ℓ where
  ok : A → Result A
  err : Err → Result A
