-- ===== src/Signal/Tcp/Says.antt =====
-- sendAwait of internal/signal/tcp_client.go: what a response says to its call.
use go_signalium.Base.{◌≡◌, refl, true, false, Option, none, some, if_elim}
use go_signalium.Base.Text.{Text}
use go_signalium.Base.Int.{ℤ, pos}
use go_signalium.Signal.Tcp.{
  RpcResponse, RpcError, Outcome, answered, disconnected, daemon_error, conclude,
}

-- What a response says: the loss of the connection, the error of the daemon, or the timestamp of its
-- result; a result that cannot be decoded says 0.
pub data Says (timestamp : Text → Option ℤ) (r : RpcResponse) : Outcome → Type 0 where
  lost : r.disconnect ≡ true → Says timestamp r disconnected
  refused :
      {e : RpcError} → r.disconnect ≡ false → r.error ≡ some e → Says timestamp r (daemon_error e)
  stamped :
      {ts : ℤ}
      → r.disconnect ≡ false
      → r.error ≡ none
      → timestamp r.result ≡ some ts
      → Says timestamp r (answered ts)
  unread :
      r.disconnect ≡ false
      → r.error ≡ none
      → timestamp r.result ≡ none
      → Says timestamp r (answered (pos 0))

pub conclude-Says :
    (timestamp : Text → Option ℤ) (r : RpcResponse) → Says timestamp r (conclude timestamp r)
unfolding conclude
conclude-Says timestamp r =
    if_elim (Says timestamp r) r.disconnect disconnected _ (λ d. lost d)
      (λ d. judged r.error d refl)
  where
    decoded :
        (o : Option ℤ)
        → r.disconnect ≡ false
        → r.error ≡ none
        → timestamp r.result ≡ o
        → Says timestamp r (elim o [ none ↦ answered (pos 0) | some ts ↦ answered ts ])
    decoded none d x h = unread d x h
    decoded (some ts) d x h = stamped d x h

    judged :
        (o : Option RpcError)
        → r.disconnect ≡ false
        → r.error ≡ o
        → Says timestamp r (elim o [
          | some e ↦ daemon_error e
          | none ↦ elim (timestamp r.result) [ none ↦ answered (pos 0) | some ts ↦ answered ts ]
        ])
    judged none d x = decoded (timestamp r.result) d x refl
    judged (some e) d x = refused d x
