-- ===== src/Signal/Params.antt =====
-- internal/signal/message_builder.go: the JSON-RPC parameters of a send.
use go_signalium.Base.{◌≡◌, true, ◌⊎◌, Option, none, some, List, [], ◌∷◌, arith, if◌then◌else◌}
use go_signalium.Base.Text.{Text, is_set}
use go_signalium.Base.Int.{ℤ, pos}
use go_signalium.Base.Decimal.{
  format_int, parse_int, IsInt64, parse_int-format_int, is_set-format_int,
}
use go_signalium.Domain.{Message, Result, ok, err, bad_params}

pub record SendParams : Type 0 where
  pub account : Text
  pub message : Text
  pub attachments : List Text
  pub recipient : List Text
  pub group_id : List Text
  pub quote_timestamp : ℤ
  pub quote_author : Text

abbrev or_empty : Option Text → Text
or_empty none = []
or_empty (some t) = t

abbrev and_then : Result SendParams → (SendParams → Result SendParams) → Result SendParams
and_then (ok p) f = f p
and_then (err e) f = err e

abbrev plain : Text → Message → List Text → SendParams
plain account m paths = record {
  account = account;
  message = m.content;
  attachments = paths;
  recipient = [];
  group_id = [];
  quote_timestamp = pos 0;
  quote_author = [];
}

abbrev quoted : Text → SendParams → Option ℤ → Result SendParams
quoted account p none = err bad_params
quoted account p (some ts) = ok (record p { quote_timestamp = ts; quote_author = account })

-- The switch on the target: a recipient that is set comes first.
unfoldable pub with_target : Message → SendParams → Result SendParams
with_target m p =
    if is_set m.recipient
    then ok (record p { recipient = or_empty m.recipient ∷ [] })
    else if is_set m.group_id
    then ok (record p { group_id = or_empty m.group_id ∷ [] })
    else err bad_params

unfoldable pub with_quote : Text → Message → SendParams → Result SendParams
with_quote account m p =
    if is_set m.quote_result_id
    then quoted account p (parse_int (or_empty m.quote_result_id))
    else ok p

-- BuildSendParams
unfoldable pub build_send_params : Text → Message → List Text → Result SendParams
unfolding with_target with_quote
build_send_params account m paths =
    if is_set (some account)
    then if is_set (some m.content)
      then and_then (with_target m (plain account m paths)) (with_quote account m)
      else err bad_params
    else err bad_params

-- What a built request holds.
pub record IsFaithful (account : Text) (m : Message) (paths : List Text) (p : SendParams)
    : Type 0 where
  pub sender : (p.account ≡ account) × (is_set (some account) ≡ true)
  pub body : (p.message ≡ m.content) × (is_set (some m.content) ≡ true)
  pub files : p.attachments ≡ paths
  pub target :
      ((r : Text) × (m.recipient ≡ some r) × (p.recipient ≡ r ∷ []) × (p.group_id ≡ []))
      ⊎ ((g : Text) × (m.group_id ≡ some g) × (p.recipient ≡ []) × (p.group_id ≡ g ∷ []))

-- A request that is built goes out from the configured account with the content and the files of the
-- message, to exactly one target, the message's own.
pub build_send_params-IsFaithful :
    (account : Text) (m : Message) (paths : List Text) (p : SendParams)
    → build_send_params account m paths ≡ ok p
    → IsFaithful account m paths p
unfolding build_send_params is_set
build_send_params-IsFaithful account m paths p h = record {
  sender = ground arith;
  body = ground arith;
  files = ground arith;
  target = ground arith;
}

-- A message that quotes the result id of an earlier send quotes the timestamp of that send, by the
-- configured account.
build_send_params_quotes :
    (account : Text) (m : Message) (paths : List Text) (ts : ℤ) (p : SendParams)
    → IsInt64 ts
    → m.quote_result_id ≡ some (format_int ts)
    → build_send_params account m paths ≡ ok p
    → (p.quote_timestamp ≡ ts) × (p.quote_author ≡ account)
unfolding build_send_params
build_send_params_quotes account m paths ts p h q e =
    ground (arith, parse_int-format_int ts h, is_set-format_int ts)
