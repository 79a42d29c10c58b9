-- ===== src/Service/Payload.antt =====
-- The payloads of internal/service/slack.go. The texts of times and durations are parameters.
use go_signalium.Base.{
  ℕ, zero, suc, ◌+◌, ◌≤◌, Option, none, some, List, [], ◌∷◌, ◌++◌, leb, length, length-append,
  arith, if◌then◌else◌,
}
use go_signalium.Base.Text.{Text, codes, is_set}
use go_signalium.Base.Int.{pos}
use go_signalium.Base.Decimal.{format_int}
use go_signalium.Domain.{Message}

pub record SlackText : Type 0 where
  pub type : Text
  pub text : Text

pub record SlackBlock : Type 0 where
  pub type : Text
  pub text : Option SlackText
  pub fields : List SlackText

pub record SlackPayload : Type 0 where
  pub channel : Text
  pub blocks : List SlackBlock

abbrev pub take : ℕ → Text → Text
take zero t = []
take (suc n) [] = []
take (suc n) (b ∷ t) = b ∷ take n t

-- truncate: at most n bytes, and an ellipsis where some are cut off
unfoldable pub truncate : Text → ℕ → Text
truncate t n = if leb (length t) n then t else take n t ++ (226 ∷ 128 ∷ 166 ∷ [])

-- errString
unfoldable pub err_string : Option Text → Text
err_string none = codes "<nil>"
err_string (some t) = t

abbrev pub text_of : Option Text → Text
text_of none = []
text_of (some t) = t

unfoldable pub target_of : Message → Text
target_of m =
    if is_set m.group_id
    then codes "group=" ++ text_of m.group_id
    else if is_set m.recipient
    then codes "recipient=" ++ text_of m.recipient
    else codes "unknown"

abbrev mrkdwn : Text → SlackText
mrkdwn t = record { type = codes "mrkdwn"; text = t }

abbrev pub titled : Text → SlackBlock
titled t = record { type = codes "section"; text = some (mrkdwn t); fields = [] }

abbrev pub listed : List SlackText → SlackBlock
listed fs = record { type = codes "section"; text = none; fields = fs }

-- slackPermanentFailurePayload, `age` being the time since the row was created
unfoldable pub slack_permanent_failure_payload :
    (ℕ → Text) → Text → Message → Option Text → SlackPayload
unfolding truncate err_string target_of
slack_permanent_failure_payload rfc3339 age m cause = record {
  channel = [];
  blocks =
      titled (
        codes "*Signal message permanently failed after "
        ++ (format_int (pos m.attempts) ++ (codes " attempts (" ++ (age ++ codes ")*"))))
      ∷ listed (
          mrkdwn (codes "*External ID:* " ++ m.external_id)
          ∷ mrkdwn (codes "*Target:* " ++ target_of m)
          ∷ mrkdwn (codes "*Created:* " ++ rfc3339 m.created_at)
          ∷ mrkdwn (codes "*Content:* " ++ truncate m.content 256)
          ∷ mrkdwn (codes "*Error:* " ++ err_string cause)
          ∷ [])
      ∷ [];
}

-- slackAttachmentErrorPayload
unfoldable pub slack_attachment_error_payload : Text → Text → Option Text → SlackPayload
unfolding err_string
slack_attachment_error_payload bucket key cause = record {
  channel = [];
  blocks =
      titled (codes "*Failed to download attachment from object storage*")
      ∷ listed (
          mrkdwn (codes "*Bucket:* " ++ bucket)
          ∷ mrkdwn (codes "*Key:* " ++ key)
          ∷ mrkdwn (codes "*Error:* " ++ err_string cause)
          ∷ [])
      ∷ [];
}

length-take : (n : ℕ) (t : Text) → length (take n t) ≤ n
length-take zero t = omega arith
length-take (suc n) [] = omega arith
length-take (suc n) (b ∷ t) = omega (arith, length-take n t)

-- A truncated text is at most the three bytes of the ellipsis longer than its bound.
pub length-truncate : (t : Text) (n : ℕ) → length (truncate t n) ≤ n + 3
unfolding truncate
length-truncate t n =
    ground (arith, length-take n t, length-append (take n t) (226 ∷ 128 ∷ 166 ∷ []))
