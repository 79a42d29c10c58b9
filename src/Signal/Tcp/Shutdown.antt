-- ===== src/Signal/Tcp/Shutdown.antt =====
-- The end of internal/signal/tcp_client.go: what markShutdown and Close leave for the calls that are still
-- under way.
use go_signalium.Base.{ℕ, ◌≡◌, ◌⊎◌, true, false, Option, none, arith}
use go_signalium.Base.Text.{Text}
use go_signalium.Base.Int.{ℤ}
use go_signalium.Signal.Tcp.{RpcFrame, register}
use go_signalium.Signal.Tcp.System.{waiting, Dialer, System, Reach}
use go_signalium.Signal.Tcp.Invariant.{is_open, is_some, Reach-Inv}
use go_signalium.Signal.Tcp.Winding.{Reach-Winding}

-- What the end of the dial loop leaves to the calls: none registers, each that waits for a connection
-- waits for a closed channel, and each that waits for its answer has a response or a cancelled context.
pub record Released (s : System) : Type 0 where
  pub refused : (id : Text) → register id s.client ≡ none
  pub let_in : (id : Text) (g : ℕ) → s.stage id ≡ waiting g → s.client.opened g ≡ true
  pub woken :
      (id : Text)
      → is_open (s.stage id) ≡ true
      → (is_some (s.client.channel id) ≡ true) ⊎ (s.done ≡ true)

module _ (decode : Text → Option RpcFrame) (timestamp : Text → Option ℤ) where
  -- In every state that the client can reach in which its dial loop has ended, no call is left to its
  -- own context or timeout: a call that waits for the connection waits for a channel that is closed, a
  -- call that has yet to register is refused, and a call that has registered has a response or finds
  -- the context of the client cancelled.
  pub stopped_releases :
      {s : System} → Reach decode timestamp s → s.dialer ≡ Dialer.stopped → Released s
  unfolding register
  stopped_releases {s} r d =
      let w = Reach-Winding decode timestamp r in
      let i = Reach-Inv decode timestamp r in
      record {
        refused = λ id. ground (arith, w.shut d);
        let_in = λ id g h. ground (arith, w.known id g h, w.past g, w.last (ground arith));
        woken = λ id h.
            let empty : s.done ≡ false → s.client.pending id ≡ false =
              λ k. w.drained (ground arith) k id in
            ground (arith, i.heard id h, empty);
      }
