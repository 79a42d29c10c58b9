-- ===== src/Tests/Daemon.antt =====
-- The clients of the daemon: one call over TCP, and a call over HTTP with its retries.
use go_signalium.Base.{
  ◌∷◌, Memᴰ, arith, ℕ, ◌≡◌, ◌≢◌, refl, true, false, ◌==◌, Option, none, some, [], if◌then◌else◌,
}
use go_signalium.Base.Text.{Text, codes, is_set, text_eq}
use go_signalium.Base.Int.{ℤ, pos}
use go_signalium.Domain.{ok}
use go_signalium.Signal.Tcp.{
  RpcFrame, answered, set, new_tcp_client, open_gate, response_of, dispatch_frame, trim_frame,
  route_frame, connected, register, taken, conclude, unregister,
}
use go_signalium.Signal.Tcp.System.{
  Stage, gated, registered, awaiting, leaving, finished, dialing, reading, System, start, go,
  of_client, Step, Reach, begin, later,
}
use go_signalium.Signal.Tcp.Calls.{life, Meant}
use go_signalium.Signal.Tcp.Promises.{Trace, here, next, lines, Lives, Trace-Lives, Reach-runs}
use go_signalium.Signal.Tcp.{start_close, fail_pending, flag_shutdown}
use go_signalium.Signal.Tcp.System.{Dialer}
use go_signalium.Signal.Tcp.Shutdown.{Released, stopped_releases}
use go_signalium.Repo.{Row}
use go_signalium.Worker.{Env, dispatch}
use go_signalium.Worker.Delivery.{Recorded, dispatch_delivers}
use go_signalium.Tests.Data.{config, fine, waiting, world}
use go_signalium.Handler.Proxy.{list_groups}
use go_signalium.Handler.Proxy.Groups.{list_groups_answers, Outcome}
use go_signalium.Signal.Http.{ListGroupsResponse, HttpAnswer, unreachable, unread, replied}

-- Every line is the response to call a, with timestamp 7.
abbrev call : Text
call = codes "a"

abbrev frame : RpcFrame
frame = record { id = some call; method = []; params = []; result = codes "7"; error = none }

abbrev decode : Text → Option RpcFrame
decode t = some frame

abbrev timestamp : Text → Option ℤ
timestamp t = some (pos 7)

abbrev dialed : System
dialed = record start {
  client = open_gate (record new_tcp_client { conn = true; conn_gen = 1 });
  dialer = reading;
}

abbrev entered : System
entered = go dialed call (Stage.waiting 0)

abbrev passed : System
passed = go entered call gated

abbrev enrolled : System
enrolled =
    go
      (of_client passed (record passed.client {
        pending = set passed.client.pending call true;
        channel = set passed.client.channel call none;
      }))
      call registered

abbrev written : System
written = go enrolled call awaiting

abbrev heard : System
heard = of_client written (record written.client {
  pending = set written.client.pending call false;
  channel = set written.client.channel call (some (response_of frame));
})

abbrev received : System
received = go (of_client heard (taken call heard.client)) call (leaving (answered (pos 7)))

Reach-written : Reach decode timestamp written
unfolding new_tcp_client connected register text_eq
Reach-written =
    later
      (later
        (later (later (later begin (Step.dial refl refl)) (Step.enter call refl))
          (Step.pass call refl refl))
        (Step.enrol call refl refl))
      (Step.write call refl)

answer_comes : Trace decode timestamp written received
unfolding new_tcp_client dispatch_frame trim_frame route_frame is_set conclude text_eq
answer_comes = next (next here (Step.line (codes "x") refl refl)) (Step.receive call refl refl)

abbrev departed : System
departed =
    go
      (of_client received
        (record received.client { pending = set received.client.pending call false }))
      call (finished (answered (pos 7)))

run_through : Trace decode timestamp start departed
unfolding new_tcp_client connected register unregister dispatch_frame trim_frame route_frame is_set
    conclude text_eq
run_through =
    next
      (next
        (next
          (next
            (next
              (next (next (next here (Step.dial refl refl)) (Step.enter call refl))
                (Step.pass call refl refl))
              (Step.enrol call refl refl))
            (Step.write call refl))
          (Step.line (codes "x") refl refl))
        (Step.receive call refl refl))
      (Step.depart call refl)

-- The daemon's reply is that of the call.
abbrev replying : Env
replying = record fine { reply = ok (pos 7) }

dispatch_delivers_example :
    (s : Row) × Memᴰ s (dispatch config replying waiting.message world).table
    × (s.id ≡ 1)
    × Recorded decode timestamp run_through call s
unfolding text_eq
dispatch_delivers_example =
    dispatch_delivers decode timestamp config replying waiting.message world waiting run_through
      call (answered (pos 7)) refl refl
      (record { can_fail = refl; can_send = refl; patient = λ j. (refl, refl) }) (omega arith)
      (Memᴰ.head refl) refl

Trace-Lives_example :
    Lives decode timestamp
      (Meant decode (lines decode timestamp answer_comes) call)
      (life written call)
      (life received call)
Trace-Lives_example = Trace-Lives decode timestamp Reach-written answer_comes call

Reach-runs_example :
    ((line : Text) → dispatch_frame decode line written.client ≢ none)
    × (written.dialer ≡ dialing → connected written.client ≢ none)
Reach-runs_example = Reach-runs decode timestamp Reach-written

-- Two attempts fail, and the third answers.
abbrev answers : ℕ → HttpAnswer
answers i = if i == 2 then replied 200 (codes "ok") else if i == 1 then unread 503 else unreachable

-- One group, with one member that has a number.
abbrev groups : ListGroupsResponse
groups = record {
  failed = false;
  result =
      record {
        id = codes "g";
        name = codes "n";
        description = [];
        members = record { number = some (codes "+2"); uuid = [] } ∷ [];
      }
      ∷ [];
}

list_groups_answers_example :
    Outcome
      (λ t. some groups)
      answers
      0
      4
      (list_groups (λ t. some groups) answers (λ i. false) (pos 3))
list_groups_answers_example =
    list_groups_answers (λ t. some groups) answers (λ i. false) (pos 3) (λ j. refl)

-- The client is closed before its first dial, while the call waits for the connection.
abbrev closing : System
closing = record (go start call (Stage.waiting 0)) {
  client = start_close new_tcp_client;
  done = true;
}

abbrev over : System
over = record closing {
  client = flag_shutdown (fail_pending closing.client);
  dialer = Dialer.stopped;
}

Reach-over : Reach decode timestamp over
unfolding new_tcp_client start_close fail_pending flag_shutdown text_eq
Reach-over =
    later
      (later
        (later (later (later (later begin (Step.enter call refl)) Step.close) Step.cancel)
          (Step.give_up refl refl))
        (Step.fail_all refl))
      (Step.flag refl)

stopped_releases_example : Released over
stopped_releases_example = stopped_releases decode timestamp Reach-over refl
