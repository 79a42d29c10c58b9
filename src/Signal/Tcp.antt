-- ===== src/Signal/Tcp.antt =====
-- internal/signal/tcp_client.go: the state that the goroutines of the JSON-RPC client share, and each
-- critical section over it as one function. Closing a channel twice panics, and a send into a full
-- channel blocks the reader: both are `none`.
pub mod System
pub mod Frames
pub mod Invariant
pub mod Says
pub mod Calls
pub mod Promises
pub mod Winding
pub mod Shutdown
pub mod Wire
use go_signalium.Base.{
  ℕ, ◌+◌, ◌*◌, ◌%◌, ◌^◌, Bool, true, false, not, ◌&&◌, ◌||◌, Option, none, some, List, [], ◌∷◌,
  ◌++◌, ◌==◌, ltb, length, if◌then◌else◌,
}
use go_signalium.Base.Text.{Text, text_eq, is_set}
use go_signalium.Base.Int.{ℤ, pos}
use go_signalium.Inbound.{Event}

pub record RpcError : Type 0 where
  pub code : ℤ
  pub message : Text

-- rpcFrame, as json.Unmarshal leaves it.
pub record RpcFrame : Type 0 where
  pub id : Option Text
  pub method : Text
  pub params : Text
  pub result : Text
  pub error : Option RpcError

pub record RpcResponse : Type 0 where
  pub result : Text
  pub error : Option RpcError
  pub disconnect : Bool

-- What a call of Send gives: the timestamp, or an error.
pub data Outcome : Type 0 where
  answered : ℤ → Outcome
  disconnected shutdown timed_out cancelled not_written : Outcome
  daemon_error : RpcError → Outcome

-- The fields under `mu`. `channel` holds what is buffered for a call, whose channel has room for one
-- response; `gate` numbers the channels dialOnce, and `opened` are those that are closed.
pub record Client : Type 0 where
  pub conn : Bool
  pub conn_gen : ℕ
  pub pending : Text → Bool
  pub channel : Text → Option RpcResponse
  pub closed : Bool
  pub gate : ℕ
  pub opened : ℕ → Bool
  pub events : List Event
  pub dropped : List Text

abbrev pub set {ℓ} : {A : Type ℓ} → (Text → A) → Text → A → Text → A
set f id a j = if text_eq j id then a else f j

-- NewTCPClient
unfoldable pub new_tcp_client : Client
new_tcp_client = record {
  conn = false;
  conn_gen = 0;
  pending = λ id. false;
  channel = λ id. none;
  closed = false;
  gate = 0;
  opened = λ g. false;
  events = [];
  dropped = [];
}

-- The trailing newlines, returns and blanks of a frame are cut off.
abbrev is_trimmed : ℕ → Bool
is_trimmed b = b == 10 || (b == 13 || b == 32)

unfoldable pub trim_frame : Text → Text
trim_frame [] = []
trim_frame (b ∷ t) = elim (trim_frame t) [
  | [] ↦ if is_trimmed b then [] else b ∷ []
  | c ∷ u ↦ b ∷ c ∷ u
]

abbrev pub response_of : RpcFrame → RpcResponse
response_of f = record { result = f.result; error = f.error; disconnect = false }

-- ch <- r
abbrev pub buffer : Text → RpcResponse → Client → Option Client
buffer id r c = elim (c.channel id) [
  | none ↦ some (record c { channel = set c.channel id (some r) })
  | some old ↦ none
]

abbrev id_of : Option Text → Text
id_of none = []
id_of (some id) = id

-- A response goes to the call that waits for it, and a notification to the events, which have room for
-- 64; more are dropped.
unfoldable pub route_frame : RpcFrame → Client → Option Client
route_frame f c =
    if is_set f.id
    then if c.pending (id_of f.id)
      then buffer (id_of f.id) (response_of f)
          (record c { pending = set c.pending (id_of f.id) false })
      else some c
    else if not (is_set (some f.method))
    then some c
    else if ltb (length c.events) 64
    then some
        (record c { events = c.events ++ (record { method = f.method; params = f.params } ∷ []) })
    else some (record c { dropped = f.method ∷ c.dropped })

unfoldable pub dispatch_frame : (Text → Option RpcFrame) → Text → Client → Option Client
unfolding trim_frame route_frame
dispatch_frame decode line c = elim (trim_frame line) [
  | [] ↦ some c
  | b ∷ t ↦ elim (decode (b ∷ t)) [ none ↦ some c | some f ↦ route_frame f c ]
]

abbrev pub gone : RpcResponse
gone = record { result = []; error = none; disconnect = true }

-- A select with a default: a full channel is left as it is.
abbrev pub offer : Option RpcResponse → RpcResponse → Option RpcResponse
offer none r = some r
offer (some old) r = some old

-- failPending
unfoldable pub fail_pending : Client → Client
fail_pending c = record c {
  pending = λ id. false;
  channel = λ id. if c.pending id then offer (c.channel id) gone else c.channel id;
}

abbrev pub open_gate : Client → Client
open_gate c = record c { opened = λ g. if g == c.gate then true else c.opened g }

-- markShutdown, past its failPending
unfoldable pub flag_shutdown : Client → Client
flag_shutdown c =
    let c' = record c { closed = true } in if c.opened c.gate then c' else open_gate c'

unfoldable pub mark_shutdown : Client → Client
unfolding fail_pending flag_shutdown
mark_shutdown c = flag_shutdown (fail_pending c)

-- dialLoop, past a dial: `close(c.dialOnce)` of a closed channel panics.
unfoldable pub connected : Client → Option Client
connected c =
    if c.opened c.gate
    then none
    else some (open_gate (record c { conn = true; conn_gen = (c.conn_gen + 1) % 2 ^ 64 }))

unfoldable pub hung_up : Client → Client
hung_up c = record c { conn = false }

-- c.dialOnce = make(chan struct{})
unfoldable pub rearmed : Client → Client
rearmed c = record c { gate = c.gate + 1 }

-- Close, up to its wait
unfoldable pub start_close : Client → Client
start_close c = record c { closed = true }

-- sendAwait: the call's channel enters the map, unless the client is closed; and leaves it.
unfoldable pub register : Text → Client → Option Client
register id c =
    if c.closed
    then none
    else some (record c { pending = set c.pending id true; channel = set c.channel id none })

unfoldable pub unregister : Text → Client → Client
unregister id c = record c { pending = set c.pending id false }

-- ch received
abbrev pub taken : Text → Client → Client
taken id c = record c { channel = set c.channel id none }

-- What sendAwait makes of a response. `timestamp` decodes a result, where it has one.
unfoldable pub conclude : (Text → Option ℤ) → RpcResponse → Outcome
conclude timestamp r = if r.disconnect then disconnected else elim r.error [
  | some e ↦ daemon_error e
  | none ↦ elim (timestamp r.result) [ none ↦ answered (pos 0) | some ts ↦ answered ts ]
]

-- nextBackoff, in nanoseconds
unfoldable pub next_backoff : ℕ → ℕ → ℕ
next_backoff cur max = if ltb max (cur * 2) then max else cur * 2
