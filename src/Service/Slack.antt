-- ===== src/Service/Slack.antt =====
-- internal/service/slack.go: which events of a message are posted to Slack.
use go_signalium.Base.{ℕ, Bool, not, ◌&&◌, ◌||◌, List, ◌∷◌, if◌then◌else◌}
use go_signalium.Base.Text.{Text, is_set}
use mathlib.Core.Option.{some}

pub record SlackConfig : Type 0 where
  pub enabled : Bool
  pub webhook_url : Text
  pub on_permanent_failure : Bool
  pub on_attachment_error : Bool

-- Enabled
unfoldable pub is_enabled : SlackConfig → Bool
is_enabled c = c.enabled && is_set (some c.webhook_url)

-- The posts that were tried: a row that failed for good, or an object that could not be fetched.
pub data Post : Type 0 where
  permanent_failure : ℕ → Post
  attachment_error : Text → Text → Post

-- NotifyPermanentFailure, NotifyAttachmentError: a post is best effort, and its failure is swallowed.
unfoldable pub notify_permanent_failure : SlackConfig → ℕ → List Post → List Post
unfolding is_enabled
notify_permanent_failure c id posts =
    if not (is_enabled c) || not c.on_permanent_failure then posts else permanent_failure id ∷ posts

unfoldable pub notify_attachment_error : SlackConfig → Text → Text → List Post → List Post
unfolding is_enabled
notify_attachment_error c bucket key posts =
    if not (is_enabled c) || not c.on_attachment_error
    then posts
    else attachment_error bucket key ∷ posts
