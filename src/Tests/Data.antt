-- ===== src/Tests/Data.antt =====
-- The rows, the configuration and the answers of the outside that the tests share.
use go_signalium.Base.{ℕ, Bool, true, false, Option, none, some, [], ◌∷◌}
use go_signalium.Base.Text.{codes}
use go_signalium.Base.Int.{pos}
use go_signalium.Domain.{Message, Status, pending, sending, failed, ok, err, unavailable}
use go_signalium.Repo.{Row, Table}
use go_signalium.Repo.Messages.{up}
use go_signalium.Service.Backoff.{fixed_point}
use go_signalium.Storage.Download.{fetched}
use go_signalium.Storage.Download
use go_signalium.Worker.{Config, Counters, Env, World}

-- A message with one group, no attachment and at most three attempts.
abbrev pub message : ℕ → Status → ℕ → ℕ → Option ℕ → Message
message id status attempts next deadline = record {
  id = id;
  external_id = id ∷ [];
  idempotency_key = none;
  recipient = none;
  group_id = some (codes "g");
  sender_phone_number = codes "+1";
  content = codes "hi";
  attachments = [];
  attempts = attempts;
  max_attempts = pos 3;
  next_attempt_at = next;
  timeout_at = deadline;
  status = status;
  last_error = none;
  result_id = none;
  quote_result_id = none;
  correlation_id = codes "c";
  created_at = 1;
  modified_at = 1;
}

abbrev pub row : ℕ → Status → ℕ → ℕ → Option ℕ → Row
row id status attempts next deadline = record {
  message = message id status attempts next deadline;
  deleted_at = none;
}

-- One row that is due, one whose lease runs, one that failed, one past its deadline.
abbrev pub waiting : Row
waiting = row 1 pending 0 5 none

abbrev pub leased : Row
leased = row 2 sending 1 900 none

abbrev pub broken : Row
broken = row 3 failed 1 7 none

abbrev pub late : Row
late = row 4 pending 0 5 (some 9)

abbrev pub table : Table
table = waiting ∷ leased ∷ broken ∷ late ∷ []

abbrev pub unlocked : ℕ → Bool
unlocked id = false

abbrev pub config : Config
config = record {
  lease_duration = 300000;
  base_backoff = 5000;
  max_backoff = 3600000;
  account = codes "+1";
  slack = record {
    enabled = true;
    webhook_url = codes "u";
    on_permanent_failure = true;
    on_attachment_error = false;
  };
}

-- Every object is fetched.
abbrev pub storage : Download.Env
storage = record {
  tmp_dir = codes "/tmp";
  made = true;
  fetch = λ r. fetched (codes "f");
  removed = λ p. true;
  survives = λ p. false;
}

-- Everything answers; the daemon's timestamp is 77.
abbrev pub fine : Env
fine = record {
  float = fixed_point;
  draw = 1;
  db_now = 10;
  clock = 10000;
  locked = unlocked;
  claim_link = up;
  disk = storage;
  directory = λ id. id ∷ [];
  local_path = λ p. p.name;
  accepted = true;
  reply = ok (pos 77);
  sent_link = λ i. up;
  ctx_done = λ i. false;
  slept = λ i. true;
  fail_link = up;
  message_of = λ x. codes "e";
}

-- The daemon does not answer.
abbrev pub silent : Env
silent = record fine { accepted = false; reply = err unavailable }

abbrev pub quiet : Counters
quiet = record {
  claims = 0;
  sends_ok = 0;
  sends_failed = 0;
  sent = 0;
  permanent_failed = 0;
  retries = 0;
}

abbrev pub world : World
world = record {
  table = table;
  counters = quiet;
  posts = [];
  frames = [];
  local = record { directories = []; files = [] };
}
