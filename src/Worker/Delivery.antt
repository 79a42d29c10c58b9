-- ===== src/Worker/Delivery.antt =====
-- The outbox worker over the TCP client: what internal/worker/worker.go records of a send whose answer
-- is that of a call of internal/signal/tcp_client.go.
use go_signalium.Base.{
  ◌<◌, ◌^◌, ◌≡◌, ◌≢◌, refl, sym, ap, Bool, true, false, ◌∙◌, ◌⊎◌, inl, inr, some, Option, List, map,
  Memᴰ, arith, if◌then◌else◌,
}
use go_signalium.Base.Text.{Text}
use go_signalium.Base.Int.{ℤ}
use go_signalium.Base.Decimal.{format_int}
use go_signalium.Domain.{
  Message, Result, ok, err, remote, unavailable, sent, failed, permanent_failed,
}
use go_signalium.Repo.{Row, is_exhausted}
use go_signalium.Signal.Params.{SendParams, build_send_params}
use go_signalium.Signal.Tcp.{
  RpcFrame, Outcome, answered, disconnected, shutdown, timed_out, cancelled, not_written,
  daemon_error,
}
use go_signalium.Signal.Tcp.System.{finished, System, start}
use go_signalium.Signal.Tcp.Promises.{Trace, lines, Answered, Trace-Answered}
use go_signalium.Storage.Download.{LocalPath}
use go_signalium.Worker.{Config, Env, World, dispatch}
use go_signalium.Worker.Dispatch.{
  of_build, of_download, download_of, verdict, IsConnected, Ends, dispatch_settles,
}

-- What Send returns to dispatch: the timestamp, or an error.
abbrev pub reply_of : Outcome → Result ℤ
reply_of (answered ts) = ok ts
reply_of (daemon_error e) = err remote
reply_of disconnected = err unavailable
reply_of shutdown = err unavailable
reply_of timed_out = err unavailable
reply_of cancelled = err unavailable
reply_of not_written = err unavailable

answered-reply_of : (o : Outcome) (ts : ℤ) → reply_of o ≡ ok ts → o ≡ answered ts
answered-reply_of (answered t) ts h = ground arith
answered-reply_of (daemon_error e) ts h = absurd (ground arith)
answered-reply_of disconnected ts h = absurd (ground arith)
answered-reply_of shutdown ts h = absurd (ground arith)
answered-reply_of timed_out ts h = absurd (ground arith)
answered-reply_of cancelled ts h = absurd (ground arith)
answered-reply_of not_written ts h = absurd (ground arith)

module _ (c : Config) (e : Env) (m : Message) where
  -- A verdict with a timestamp is the daemon's reply.
  reply-verdict : (w : World) (ts : ℤ) → verdict c e m w ≡ ok ts → e.reply ≡ ok ts
  unfolding verdict
  reply-verdict w ts = downloaded (download_of c e m w).0
    where
      built : (b : Result SendParams) → of_build c e m b ≡ ok ts → e.reply ≡ ok ts
      built (err x) h = absurd (ground arith)
      built (ok p) h = h

      downloaded : (d : Result (List LocalPath)) → of_download c e m d ≡ ok ts → e.reply ≡ ok ts
      downloaded (err x) h = absurd (ground arith)
      downloaded (ok paths) h = built (build_send_params c.account m (map e.local_path paths)) h

module _ (decode : Text → Option RpcFrame) (timestamp : Text → Option ℤ) where
  -- A row that is SENT by a frame with the id of a call, or is not SENT.
  abbrev pub Recorded : {t : System} → Trace decode timestamp start t → Text → Row → Type 0
  Recorded run call s =
      ((ts : ℤ) × Answered decode timestamp (lines decode timestamp run) call ts
        × (s.status ≡ sent)
        × (s.result_id ≡ some (format_int ts)))
      ⊎ (s.status ≢ sent)

  -- Where the reply of the daemon is that of a call over TCP, at the end of any run of the client, and
  -- the links hold, a dispatch leaves the row of its message SENT only where a frame with the call's own
  -- id and no error was read, with the timestamp of that frame's result, or 0 where the result cannot be
  -- decoded; otherwise the row is not SENT.
  pub dispatch_delivers :
      (c : Config) (e : Env) (m : Message) (w : World) (r : Row) {t : System}
      (run : Trace decode timestamp start t) (call : Text) (o : Outcome)
      → t.stage call ≡ finished o
      → e.reply ≡ reply_of o
      → IsConnected c e m
      → c.max_backoff < 2 ^ 53
      → Memᴰ r w.table
      → r.message ≡ m
      → (s : Row) × Memᴰ s (dispatch c e m w).table × (s.id ≡ m.id) × Recorded run call s
  dispatch_delivers c e m w r {t} run call o h q k b i j =
      let (s, n, a, x) = dispatch_settles c e m w r k b i j in
      (s, n, a, recorded s (verdict c e m w) refl x)
    where
      ended : (ts : ℤ) → verdict c e m w ≡ ok ts → t.stage call ≡ finished (answered ts)
      ended ts v = h ∙ ap finished (answered-reply_of o ts (sym q ∙ reply-verdict c e m w ts v))

      not_sent :
          (b : Bool) (s : Row)
          → s.status ≡ (if b then permanent_failed else failed)
          → s.status ≢ sent
      not_sent true s a z = ground arith
      not_sent false s a z = ground arith

      recorded :
          (s : Row) (v : Result ℤ) → verdict c e m w ≡ v → Ends c e m v s → Recorded run call s
      recorded s (ok ts) v (st, res) =
          inl (ts, Trace-Answered decode timestamp run call ts (ended ts v), st, res)
      recorded s (err x) v (st, _, _) = inr (not_sent (is_exhausted m) s st)
