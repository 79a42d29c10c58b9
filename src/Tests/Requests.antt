-- ===== src/Tests/Requests.antt =====
-- Requests, their attachments, the operators' endpoints and the inbound events.
use go_signalium.Base.{
  ◌≡◌, ◌↔◌, ◌≢◌, select, first, count, refl, ◌↔◌, Bool, true, false, Option, none, some, List, [],
  ◌∷◌, Memᴰ, length,
}
use go_signalium.Base.Text.{Text, codes, is_set, text_eq}
use go_signalium.Base.Int.{pos}
use go_signalium.Domain.{ok}
use go_signalium.Repo.{Row, get_by_idempotency_key}
use go_signalium.Repo.Messages.{up, down, lost, ts_tz}
use go_signalium.Repo.Messages
use go_signalium.Repo.Insert.{new_row, clashes}
use go_signalium.Repo.Insert
use go_signalium.Repo.Listing.{ListFilters, list_rows, count_rows, matches}
use go_signalium.Repo.Listing.Pages.{IsOrdered, page, list-count}
use go_signalium.Service.Filename.{
  is_allowed, sanitize_filename, replace_disallowed, base_of, strip_slashes, last_element,
  rune_tails,
}
use go_signalium.Service.Enqueue.{
  CreateMessage, Parts, eof, part, Env, State, validate, enqueue, is_blank, is_other_sender,
  find_existing, after_lookup, upload, upload_all, insert_row, insert_params, max_attempts_of,
  timeout_at_of, rollback,
}
use go_signalium.Storage.{put, remove}
use go_signalium.Service.Enqueue.Rollback.{Subset, enqueue-Subset}
use go_signalium.Service.Enqueue.Validation.{IsAcceptable, validate_iff}
use go_signalium.Service.Enqueue.Keys.{enqueue_again}
use go_signalium.Handler.Multipart.{
  finished, next, Request, IsRefusal, serve_http, serve_http-IsRefusal,
}
use go_signalium.Inbound.{Codec, Ignore, Delivery, InboundEnvelope, run}
use go_signalium.Inbound.Redelivery.{run_again}
use go_signalium.Tests.Data.{table}

-- "../a b.txt"
sanitized : sanitize_filename (codes "../a b.txt") ≡ codes "a_b.txt"
unfolding sanitize_filename replace_disallowed base_of strip_slashes last_element rune_tails
    is_allowed text_eq
sanitized = refl

-- A rune of two bytes becomes one underscore; a hidden file is rejected.
sanitized_rune : sanitize_filename (195 ∷ 169 ∷ codes ".txt") ≡ codes "_.txt"
unfolding sanitize_filename replace_disallowed base_of strip_slashes last_element rune_tails
    is_allowed text_eq
sanitized_rune = refl

sanitized_hidden : sanitize_filename (codes "dir/.bashrc") ≡ []
unfolding sanitize_filename replace_disallowed base_of strip_slashes last_element rune_tails
    is_allowed text_eq
sanitized_hidden = refl

abbrev pub request : CreateMessage
request = record {
  external_id = codes "x";
  idempotency_key = some (codes "k");
  recipient = some (codes "+2");
  group_id = none;
  sender_phone_number = none;
  content = codes "hi";
  quote_result_id = none;
  timeout_seconds = some (pos 60);
  max_attempts = none;
}

validate_iff_example : (validate (codes "+1") request ≡ ok tt) ↔ IsAcceptable (codes "+1") request
validate_iff_example = validate_iff (codes "+1") request

abbrev pub answering : Env
answering = record {
  bucket = codes "b";
  uuid = codes "u";
  row_id = 9;
  clock = 5000000;
  db_now = 10;
  lookup_link = up;
  insert_link = up;
  put_link = λ i. up;
  remove_link = λ r. up;
}

-- The insert fails after an upload.
abbrev failing : Env
failing = record answering { insert_link = down }

up-not-lost : up ≢ lost
up-not-lost e = cc

abbrev state : State
state = record { table = table; objects = [] }

abbrev one_file : Option Parts
one_file = some (part (record { filename = codes "a.txt"; content_type = codes "t" }) eof)

enqueue-Subset_example : Subset (enqueue (codes "+1") failing request one_file state).1.objects []
unfolding enqueue validate is_blank is_other_sender is_set text_eq find_existing after_lookup upload
    upload_all sanitize_filename replace_disallowed base_of strip_slashes last_element rune_tails
    is_allowed put insert_row insert_params max_attempts_of timeout_at_of rollback remove select
    first count Messages.insert Messages.get_by_idempotency_key get_by_idempotency_key ts_tz
    Insert.insert new_row clashes
enqueue-Subset_example =
    enqueue-Subset (codes "+1") failing request one_file state
      (record { puts = λ i e. up-not-lost e; removals = λ r. refl }) tt

-- The same request twice; the second time the insert would fail.
enqueue_again_example :
    enqueue
      (codes "+1")
      failing
      request
      none
      (enqueue (codes "+1") answering request one_file state).1
    ≡ (
      ok (record { id = 9; idempotent = true }),
      (enqueue (codes "+1") answering request one_file state).1,
    )
unfolding enqueue validate is_blank is_other_sender is_set text_eq find_existing after_lookup upload
    upload_all sanitize_filename replace_disallowed base_of strip_slashes last_element rune_tails
    is_allowed put insert_row insert_params max_attempts_of timeout_at_of rollback remove select
    first count Messages.insert Messages.get_by_idempotency_key get_by_idempotency_key ts_tz
    Insert.insert new_row clashes
enqueue_again_example =
    enqueue_again (codes "+1") answering failing request one_file none state
      (enqueue (codes "+1") answering request one_file state).1
      (record { id = 9; idempotent = false }) refl refl refl

abbrev upload_request : Request
upload_request = record {
  is_post = true;
  body = some (
      next
        (record {
          form_name = codes "metadata";
          file_name = [];
          content_type = [];
          body = codes "m";
        })
        finished);
}

serve_http-IsRefusal_example :
    IsRefusal [] (serve_http (λ b. some request) (codes "+1") failing upload_request state)
serve_http-IsRefusal_example =
    serve_http-IsRefusal (λ b. some request) (codes "+1") failing upload_request state
      (record { puts = λ i e. up-not-lost e; removals = λ r. refl })

abbrev contains_h : Text → Text → Bool
contains_h content q = true

abbrev everything : ListFilters
everything = record {
  q = none;
  status = none;
  attempts = none;
  created_at_from = none;
  created_at_to = none;
  limit = pos 50;
  offset = pos 0;
}

list-count_example :
    (xs : List Row) × (list_rows contains_h (page everything 4 0) table ≡ ok xs)
    × (length xs ≡ 4)
    × IsOrdered xs
    × ((r : Row) → Memᴰ r xs ↔ (Memᴰ r table × (matches contains_h everything r ≡ true)))
unfolding count_rows matches count ts_tz
list-count_example = list-count contains_h everything table 4 refl

abbrev typed : InboundEnvelope
typed = record {
  source = codes "+3";
  source_uuid = none;
  timestamp = pos 7;
  data_message = none;
  edit = none;
  receipt = false;
  sync = none;
  typing = false;
  call = false;
}

abbrev codec : Codec
codec = record {
  wrapper = λ p. some p;
  envelope = λ t. some typed;
  marshal = λ a. some (codes "[]");
}

abbrev keep_all : Ignore
keep_all = record { typing = false; receipt = false; sync_message = false; call_message = false }

abbrev report : Delivery
report = record {
  event = record { method = codes "receive"; params = codes "p" };
  link = up;
  now = 3;
}

run_again_example :
    run codec keep_all (report ∷ report ∷ []) (run codec keep_all (report ∷ []) [])
    ≡ run codec keep_all (report ∷ []) []
run_again_example =
    run_again codec keep_all (report ∷ []) (report ∷ report ∷ []) [] (refl, tt)
      (Memᴰ.head refl, (Memᴰ.head refl, tt))
