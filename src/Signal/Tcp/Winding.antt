-- ===== src/Signal/Tcp/Winding.antt =====
-- internal/signal/tcp_client.go: what the channels dialOnce, Close and markShutdown hold to in every state
-- that the client can reach.
use go_signalium.Base.{ℕ, ◌<◌, ◌≤◌, ◌≡◌, refl, Bool, true, false, ◌||◌, Option, arith}
use go_signalium.Base.Text.{Text}
use go_signalium.Base.Int.{ℤ}
use go_signalium.Signal.Tcp.{
  RpcFrame, Client, new_tcp_client, fail_pending, flag_shutdown, connected, hung_up, rearmed,
  start_close, register, unregister,
}
use go_signalium.Signal.Tcp.System.{
  Stage, waiting, Dialer, System, start, go, of_client, Step, Reach, begin, later,
}
use go_signalium.Signal.Tcp.Frames.{Routed, quiet, answer, dispatch_frame-Routed}

-- The dial loop has a connection, or had it since the channel dialOnce was made.
abbrev has_dialed : Dialer → Bool
has_dialed Dialer.dialing = false
has_dialed Dialer.reading = true
has_dialed Dialer.lost = true
has_dialed Dialer.released = true
has_dialed Dialer.rearming = true
has_dialed Dialer.ending = false
has_dialed Dialer.flagging = false
has_dialed Dialer.stopped = true

-- The dial loop is past its last dial; past its last failPending.
abbrev is_ending : Dialer → Bool
is_ending Dialer.dialing = false
is_ending Dialer.reading = false
is_ending Dialer.lost = false
is_ending Dialer.released = false
is_ending Dialer.rearming = false
is_ending Dialer.ending = true
is_ending Dialer.flagging = true
is_ending Dialer.stopped = true

abbrev is_failed : Dialer → Bool
is_failed Dialer.dialing = false
is_failed Dialer.reading = false
is_failed Dialer.lost = false
is_failed Dialer.released = false
is_failed Dialer.rearming = false
is_failed Dialer.ending = false
is_failed Dialer.flagging = true
is_failed Dialer.stopped = true

-- Every channel dialOnce before the last is closed, and the last one after a dial and after
-- markShutdown; a call waits for one of them. The dial loop ends on a client that is closed or whose
-- context is cancelled, and where it is only closed, nothing is pending after the last failPending.
pub record Winding (s : System) : Type 0 where
  pub past : (g : ℕ) → g < s.client.gate → s.client.opened g ≡ true
  pub last : has_dialed s.dialer ≡ true → s.client.opened s.client.gate ≡ true
  pub known : (id : Text) (g : ℕ) → s.stage id ≡ waiting g → g ≤ s.client.gate
  pub cause : is_ending s.dialer ≡ true → (s.done || s.client.closed) ≡ true
  pub drained :
      is_failed s.dialer ≡ true → s.done ≡ false → (id : Text) → s.client.pending id ≡ false
  pub shut : s.dialer ≡ Dialer.stopped → s.client.closed ≡ true

Winding-start : Winding start
unfolding new_tcp_client
Winding-start = record {
  past = λ g h. absurd (omega arith);
  last = λ h. cc;
  known = λ id g h. cc;
  cause = λ h. cc;
  drained = λ h k id. refl;
  shut = λ h. cc;
}

-- A call that moves, the client being left alone.
go-Winding :
    (s : System) (id : Text) (st : Stage)
    → Winding s
    → ((g : ℕ) → st ≡ waiting g → g ≤ s.client.gate)
    → Winding (go s id st)
go-Winding s id st w h = record {
  past = w.past;
  last = w.last;
  known = λ j g. ground (arith, w.known j g, h g);
  cause = w.cause;
  drained = w.drained;
  shut = w.shut;
}

module _ (decode : Text → Option RpcFrame) (timestamp : Text → Option ℤ) where
  Routed-Winding :
      (s : System) (c : Client) (l : Text)
      → Routed decode l s.client c
      → s.dialer ≡ Dialer.reading
      → Winding s
      → Winding (of_client s c)
  Routed-Winding s c l (quiet p ch g o) d w = record {
    past = λ h. ground (arith, w.past h, o h);
    last = λ h. ground (arith, w.last, o c.gate);
    known = λ id h. ground (arith, w.known id h);
    cause = λ h. cc;
    drained = λ h. cc;
    shut = λ h. cc;
  }
  Routed-Winding s c l (answer id f a p e) d w = record {
    past = λ h. rw e (w.past h);
    last = λ h. rw e (w.last h);
    known = λ id h. rw e (w.known id h);
    cause = λ h. cc;
    drained = λ h. cc;
    shut = λ h. cc;
  }

  Step-Winding : {s t : System} → Step decode timestamp s t → Winding s → Winding t
  unfolding connected fail_pending hung_up rearmed flag_shutdown start_close register unregister
  Step-Winding (Step.dial d e) w = record {
    past = λ g h. ground (arith, w.past g);
    last = λ h. ground (arith, w.last);
    known = λ id g. ground (arith, w.known id g);
    cause = λ h. ground (arith, w.cause);
    drained = λ h k id. ground (arith, w.drained);
    shut = λ h. ground (arith, w.shut);
  }
  Step-Winding {s} (Step.line l {c} d e) w =
      Routed-Winding s c l (dispatch_frame-Routed decode l s.client c e) d w
  Step-Winding (Step.give_up d k) w = record {
    past = w.past;
    last = λ h. cc;
    known = w.known;
    cause = λ h. ground arith;
    drained = λ h. cc;
    shut = λ h. cc;
  }
  Step-Winding (Step.end_of_file d) w = record {
    past = w.past;
    last = λ h. w.last (ground arith);
    known = w.known;
    cause = λ h. cc;
    drained = λ h. cc;
    shut = λ h. cc;
  }
  Step-Winding (Step.release d) w = record {
    past = w.past;
    last = λ h. w.last (ground arith);
    known = w.known;
    cause = λ h. cc;
    drained = λ h. cc;
    shut = λ h. cc;
  }
  Step-Winding (Step.hang_up d) w = record {
    past = w.past;
    last = λ h. w.last (ground arith);
    known = w.known;
    cause = λ h. ground arith;
    drained = λ h. ground arith;
    shut = λ h. ground arith;
  }
  Step-Winding (Step.rearm d) w = record {
    past = λ g h. ground (arith, w.past g);
    last = λ h. cc;
    known = λ id g. ground (arith, w.known id g);
    cause = λ h. cc;
    drained = λ h. cc;
    shut = λ h. cc;
  }
  Step-Winding (Step.fail_all d) w = record {
    past = w.past;
    last = λ h. cc;
    known = w.known;
    cause = λ h. w.cause (ground arith);
    drained = λ h k id. refl;
    shut = λ h. cc;
  }
  Step-Winding (Step.flag d) w = record {
    past = λ g h. ground (arith, w.past g);
    last = λ h. ground (arith, w.last);
    known = λ id g. ground (arith, w.known id g);
    cause = λ h. ground (arith, w.cause);
    drained = λ h k id. ground (arith, w.drained (ground arith) k id);
    shut = λ h. ground (arith, w.shut);
  }
  Step-Winding Step.close w = record {
    past = w.past;
    last = w.last;
    known = w.known;
    cause = λ h. ground arith;
    drained = w.drained;
    shut = λ h. refl;
  }
  Step-Winding Step.cancel w = record {
    past = w.past;
    last = w.last;
    known = w.known;
    cause = λ h. refl;
    drained = λ h k. cc;
    shut = w.shut;
  }
  Step-Winding {s} (Step.enter id d) w = go-Winding s id _ w (λ g h. ground arith)
  Step-Winding {s} (Step.pass id d o) w = go-Winding s id _ w (λ g h. cc)
  Step-Winding {s} (Step.leave_gate id d) w = go-Winding s id _ w (λ g h. cc)
  Step-Winding {s} (Step.refuse id d e) w = go-Winding s id _ w (λ g h. cc)
  Step-Winding {s} (Step.write id d) w = go-Winding s id _ w (λ g h. cc)
  Step-Winding {s} (Step.fail_write id d) w = go-Winding s id _ w (λ g h. cc)
  Step-Winding {s} (Step.expire id d) w = go-Winding s id _ w (λ g h. cc)
  Step-Winding {s} (Step.abandon id d) w = go-Winding s id _ w (λ g h. cc)
  Step-Winding (Step.enrol id {c} d e) w = record {
    past = λ g h. ground (arith, w.past g);
    last = λ h. ground (arith, w.last);
    known = λ id g. ground (arith, w.known id g);
    cause = λ h. ground (arith, w.cause);
    drained = λ h k id. ground (arith, w.drained);
    shut = λ h. ground (arith, w.shut);
  }
  Step-Winding (Step.receive id d e) w = record {
    past = w.past;
    last = w.last;
    known = λ j g. ground (arith, w.known j g);
    cause = w.cause;
    drained = w.drained;
    shut = w.shut;
  }
  Step-Winding (Step.depart id d) w = record {
    past = w.past;
    last = w.last;
    known = λ j g. ground (arith, w.known j g);
    cause = w.cause;
    drained = λ h k j. ground (arith, w.drained h k j);
    shut = w.shut;
  }

  pub Reach-Winding : {s : System} → Reach decode timestamp s → Winding s
  Reach-Winding begin = Winding-start
  Reach-Winding (later r st) = Step-Winding st (Reach-Winding r)
