-- ===== src/Tests/Sending.antt =====
-- The worker, the backoff and the request that it sends.
use go_signalium.Base.{
  ◌≤◌, ◌≡◌, refl, ◌⊎◌, Bool, true, false, none, some, [], ◌∷◌, Memᴰ, arith, ltb, count,
}
use go_signalium.Base.Text.{codes, is_set}
use go_signalium.Base.Int.{pos}
use go_signalium.Base.Decimal.{format_int, parse_int, parse_digits}
use go_signalium.Domain.{Message, ok, sending}
use go_signalium.Repo.{Row, is_eligible}
use go_signalium.Repo.Messages.{up, down, interval_from_duration}
use go_signalium.Service.Backoff.{fixed_point, backoff, full_jitter, capped, backoff-le-max}
use go_signalium.Signal.Params.{
  SendParams, IsFaithful, build_send_params, build_send_params-IsFaithful,
}
use go_signalium.Worker.{World, Env, mark_sent, dispatch, tick, drain}
use go_signalium.Worker.Loop.{is_ok, mark_sent_retries}
use go_signalium.Worker.Dispatch.{Ends, verdict, dispatch_settles}
use go_signalium.Worker.Drain.{is_ready, drain_ends, tick_sends_eligible}
use go_signalium.Tests.Data.{message, waiting, table, config, fine, silent, world}

backoff_capped : backoff fixed_point 9007199254740991 40 5000 3600000 ≡ 3600000
unfolding backoff full_jitter capped
backoff_capped = refl

backoff-le-max_example : backoff fixed_point 1 3 5000 3600000 ≤ 3600000
backoff-le-max_example = backoff-le-max fixed_point 1 3 5000 3600000 (omega arith)

abbrev quoting : Message
quoting = record (message 1 sending 1 310 none) { quote_result_id = some (codes "77") }

abbrev request : SendParams
request = record {
  account = codes "+1";
  message = codes "hi";
  attachments = [];
  recipient = [];
  group_id = codes "g" ∷ [];
  quote_timestamp = pos 77;
  quote_author = codes "+1";
}

builds_request : build_send_params (codes "+1") quoting [] ≡ ok request
unfolding build_send_params is_set parse_int parse_digits
builds_request = refl

build_send_params-IsFaithful_example : IsFaithful (codes "+1") quoting [] request
build_send_params-IsFaithful_example =
    build_send_params-IsFaithful (codes "+1") quoting [] request builds_request

-- The first try finds the database down.
abbrev flaky : Env
flaky = record fine { sent_link = λ i. elim (ltb 0 i) [ true ↦ up | false ↦ down ] }

mark_sent_retries_example : is_ok (mark_sent flaky 1 (format_int (pos 77)) table).0 ≡ true
mark_sent_retries_example = mark_sent_retries flaky 1 (pos 77) (λ j. (refl, refl)) table

dispatch_settles_example :
    (s : Row) × Memᴰ s (dispatch config silent waiting.message world).table
    × (s.id ≡ 1)
    × Ends config silent waiting.message (verdict config silent waiting.message world) s
dispatch_settles_example =
    dispatch_settles config silent waiting.message world waiting
      (record { can_fail = refl; can_send = refl; patient = λ j. (refl, refl) }) (omega arith)
      (Memᴰ.head refl) refl

tick_sends_eligible_example :
    ((tick config fine world).1.frames ≡ [])
    ⊎ ((r : Row) × (p : SendParams) × Memᴰ r table
        × (is_eligible 10 r ≡ true)
        × (false ≡ false)
        × ((tick config fine world).1.frames ≡ p ∷ [])
        × (p.message ≡ r.content))
tick_sends_eligible_example = tick_sends_eligible config fine world

drain_ends_example :
    (res : Bool × World) × (drain 3 config (λ j. fine) (λ j. false) 1 world ≡ some res)
unfolding is_ready count interval_from_duration
drain_ends_example =
    drain_ends 3 config (λ j. fine) (λ j. false) 1 11 world (λ j. (omega arith, omega arith))
      (omega arith)
