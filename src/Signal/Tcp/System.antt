-- ===== src/Signal/Tcp/System.antt =====
-- The goroutines of internal/signal/tcp_client.go, interleaved at its critical sections: the dial
-- loop with its reader, Close, and any number of calls of sendAwait. A call is named by its id, which
-- uuid.NewString makes its own.
use go_signalium.Base.{ℕ, ◌≡◌, Bool, true, false, ◌||◌, Option, none, some, if◌then◌else◌}
use go_signalium.Base.Text.{Text}
use go_signalium.Base.Int.{ℤ}
use go_signalium.Signal.Tcp.{
  RpcFrame, RpcResponse, Outcome, disconnected, shutdown, timed_out, cancelled, not_written, Client,
  set, new_tcp_client, dispatch_frame, fail_pending, flag_shutdown, connected, hung_up, rearmed,
  start_close, register, unregister, taken, conclude,
}

-- Where a call stands. `waiting g` waits for the channel dialOnce that it read; `leaving` is the return
-- before the deferred delete.
pub data Stage : Type 0 where
  absent : Stage
  waiting : ℕ → Stage
  gated : Stage
  registered : Stage
  awaiting : Stage
  leaving : Outcome → Stage
  finished : Outcome → Stage

-- Where dialLoop stands: before a dial, in the reader, before failPending, before and after the check
-- of `closed`, in markShutdown, and past its end.
pub data Dialer : Type 0 where
  dialing reading lost released rearming ending flagging stopped : Dialer

pub record System : Type 0 where
  pub client : Client
  pub stage : Text → Stage
  pub dialer : Dialer
  pub done : Bool

abbrev pub start : System
start = record { client = new_tcp_client; stage = λ id. absent; dialer = dialing; done = false }

abbrev pub go : System → Text → Stage → System
go s id st = record s { stage = set s.stage id st }

abbrev pub of_client : System → Client → System
of_client s c = record s { client = c }

module _ (decode : Text → Option RpcFrame) (timestamp : Text → Option ℤ) where
  pub data Step (s : System) : System → Type 0 where
    -- dialLoop
    dial :
        {c : Client}
        → s.dialer ≡ dialing
        → connected s.client ≡ some c
        → Step s (record s { client = c; dialer = reading })
    give_up : s.dialer ≡ dialing → s.done ≡ true → Step s (record s { dialer = ending })
    line :
        (l : Text) {c : Client}
        → s.dialer ≡ reading
        → dispatch_frame decode l s.client ≡ some c
        → Step s (of_client s c)
    end_of_file : s.dialer ≡ reading → Step s (record s { dialer = lost })
    release :
        s.dialer ≡ lost → Step s (record s { client = fail_pending s.client; dialer = released })
    hang_up :
        s.dialer ≡ released
        → Step s (record s {
          client = hung_up s.client;
          dialer = if s.client.closed || s.done then ending else rearming;
        })
    rearm : s.dialer ≡ rearming → Step s (record s { client = rearmed s.client; dialer = dialing })
    fail_all :
        s.dialer ≡ ending → Step s (record s { client = fail_pending s.client; dialer = flagging })
    flag :
        s.dialer ≡ flagging
        → Step s (record s { client = flag_shutdown s.client; dialer = stopped })
    -- Close
    close : Step s (of_client s (start_close s.client))
    cancel : Step s (record s { done = true })
    -- waitConnected
    enter :
        (id : Text)
        → s.stage id ≡ absent
        → Step s (go s id (if s.client.closed then finished shutdown else waiting s.client.gate))
    pass :
        (id : Text) {g : ℕ}
        → s.stage id ≡ waiting g
        → s.client.opened g ≡ true
        → Step s (go s id gated)
    leave_gate :
        (id : Text) {g : ℕ}
        → s.stage id ≡ waiting g
        → Step s (go s id (finished (if s.done then shutdown else cancelled)))
    -- sendAwait
    refuse :
        (id : Text)
        → s.stage id ≡ gated
        → register id s.client ≡ none
        → Step s (go s id (finished shutdown))
    enrol :
        (id : Text) {c : Client}
        → s.stage id ≡ gated
        → register id s.client ≡ some c
        → Step s (go (of_client s c) id registered)
    write : (id : Text) → s.stage id ≡ registered → Step s (go s id awaiting)
    fail_write :
        (id : Text)
        → s.stage id ≡ registered
        → Step s (go s id (leaving (if s.client.conn then not_written else disconnected)))
    receive :
        (id : Text) {r : RpcResponse}
        → s.stage id ≡ awaiting
        → s.client.channel id ≡ some r
        → Step s (go (of_client s (taken id s.client)) id (leaving (conclude timestamp r)))
    expire : (id : Text) → s.stage id ≡ awaiting → Step s (go s id (leaving timed_out))
    abandon :
        (id : Text)
        → s.stage id ≡ awaiting
        → Step s (go s id (leaving (if s.done then shutdown else cancelled)))
    depart :
        (id : Text) {o : Outcome}
        → s.stage id ≡ leaving o
        → Step s (go (of_client s (unregister id s.client)) id (finished o))

  pub data Reach : System → Type 0 where
    begin : Reach start
    later : {s t : System} → Reach s → Step s t → Reach t
