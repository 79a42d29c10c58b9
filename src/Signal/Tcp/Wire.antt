-- ===== src/Signal/Tcp/Wire.antt =====
-- internal/signal/tcp_client.go, between the client's state and the socket: the lines that readLoop makes
-- of the stream, the frames that writeFrame puts on it, the waits of dialLoop between failed dials, and
-- fireAndForget.
use mathlib.Core.Path.{sym}
use mathlib.Core.List.{append-nil, append_assoc}
use go_signalium.Base.{
  ℕ, zero, suc, ◌≤◌, ◌≡◌, refl, ap, ◌∙◌, Bool, false, Option, none, some, List, [], ◌∷◌, ◌++◌, map,
  ◌==◌, if◌then◌else◌, arith, All,
}
use go_signalium.Base.Text.{Text}
use go_signalium.Base.Int.{pos}
use go_signalium.Signal.Tcp.{
  Client, RpcFrame, Outcome, answered, disconnected, not_written, dispatch_frame, next_backoff,
}

-- ReadBytes('\n') until the end of the stream: each line with its newline, and what is left after the
-- last one, if there is something.
abbrev onto : ℕ → List Text → List Text
onto b [] = (b ∷ []) ∷ []
onto b (l ∷ ls) = (b ∷ l) ∷ ls

unfoldable pub lines_of : Text → List Text
lines_of [] = []
lines_of (b ∷ t) = let rest = lines_of t in if b == 10 then (b ∷ []) ∷ rest else onto b rest

-- readLoop over a stream that ends; `none` where a frame blocks the reader.
abbrev each_line : (Text → Option RpcFrame) → List Text → Client → Option Client
each_line decode [] c = some c
each_line decode (l ∷ ls) c = elim (dispatch_frame decode l c) [
  | none ↦ none
  | some c' ↦ each_line decode ls c'
]

unfoldable pub read_loop : (Text → Option RpcFrame) → Text → Client → Option Client
unfolding lines_of
read_loop decode stream c = each_line decode (lines_of stream) c

-- writeFrame: the body and a newline. writeMu keeps the frames apart.
unfoldable pub write_frame : Text → Text → Text
write_frame body stream = stream ++ (body ++ (10 ∷ []))

unfoldable pub write_all : List Text → Text → Text
unfolding write_frame
write_all [] stream = stream
write_all (b ∷ bs) stream = write_all bs (write_frame b stream)

-- encoding/json writes no newline into a document.
abbrev pub IsOneLine : Text → Type 0
IsOneLine t = All (λ b. (b == 10) ≡ false) t

lines_of-line :
    (body rest : Text)
    → IsOneLine body
    → lines_of (body ++ (10 ∷ rest)) ≡ (body ++ (10 ∷ [])) ∷ lines_of rest
unfolding lines_of
lines_of-line [] rest h = refl
lines_of-line (b ∷ t) rest h = rw (h.0, lines_of-line t rest h.1) refl

-- The stream that a list of frames makes.
abbrev pub stream_of : List Text → Text
stream_of [] = []
stream_of (b ∷ bs) = b ++ (10 ∷ stream_of bs)

write_all-stream_of :
    (bs : List Text) (stream : Text) → write_all bs stream ≡ stream ++ stream_of bs
unfolding write_all
write_all-stream_of [] stream = sym (append-nil stream)
write_all-stream_of (b ∷ bs) stream =
    write_all-stream_of bs (write_frame b stream) ∙ simp append_assoc

lines_of-stream_of :
    (bs : List Text) → All IsOneLine bs → lines_of (stream_of bs) ≡ map (λ b. b ++ (10 ∷ [])) bs
unfolding lines_of
lines_of-stream_of [] h = refl
lines_of-stream_of (b ∷ bs) h =
    lines_of-line b (stream_of bs) h.0 ∙ ap (◌∷◌ (b ++ (10 ∷ []))) (lines_of-stream_of bs h.1)

-- The frames that are written one after another, none of them with a newline inside, are the lines that
-- a reader of the stream makes of it, each with its newline, and no other.
lines_of-write_all :
    (bs : List Text) → All IsOneLine bs → lines_of (write_all bs []) ≡ map (λ b. b ++ (10 ∷ [])) bs
lines_of-write_all bs h = ap lines_of (write_all-stream_of bs []) ∙ lines_of-stream_of bs h

-- The waits of dialLoop while dials fail, in nanoseconds: from half a second on.
unfoldable pub backoff_after : ℕ → ℕ
unfolding next_backoff
backoff_after zero = 500000000
backoff_after (suc failures) = next_backoff (backoff_after failures) 30000000000

-- A reconnect waits half a second at least and half a minute at most, and never less than after one
-- failure fewer.
pub record IsPaced (failures : ℕ) : Type 0 where
  pub low : 500000000 ≤ backoff_after failures
  pub high : backoff_after failures ≤ 30000000000
  pub grows : backoff_after failures ≤ backoff_after (suc failures)

within :
    (failures : ℕ) → (500000000 ≤ backoff_after failures) × (backoff_after failures ≤ 30000000000)
unfolding backoff_after
within zero = omega arith
within (suc failures) = ground (arith, within failures)

pub backoff_after-IsPaced : (failures : ℕ) → IsPaced failures
backoff_after-IsPaced failures = record {
  low = (within failures).0;
  high = (within failures).1;
  grows = unfold backoff_after in ground (arith, within failures);
}

-- fireAndForget, past waitConnected: the answer is the zero SendResult.
unfoldable pub fire_and_forget : Bool → Bool → Outcome
fire_and_forget conn written =
    if conn then (if written then answered (pos 0) else not_written) else disconnected
