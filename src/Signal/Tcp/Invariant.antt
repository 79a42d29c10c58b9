-- ===== src/Signal/Tcp/Invariant.antt =====
-- What holds in every state that the client can reach.
use go_signalium.Base.{ℕ, ◌<◌, ◌≡◌, refl, ◌⊎◌, Bool, true, false, Option, none, some, arith}
use go_signalium.Base.Text.{Text, text_eq_sound}
use go_signalium.Base.Int.{ℤ}
use go_signalium.Signal.Tcp.{
  RpcFrame, RpcResponse, Client, new_tcp_client, fail_pending, flag_shutdown, connected, hung_up,
  rearmed, start_close, register, unregister,
}
use go_signalium.Signal.Tcp.System.{
  Stage, absent, waiting, gated, registered, awaiting, leaving, finished, Dialer, dialing, System,
  start, go, of_client, Step, Reach, begin, later,
}
use go_signalium.Signal.Tcp.Frames.{Routed, quiet, answer, dispatch_frame-Routed}

-- A call that has its channel in use.
abbrev pub is_open : Stage → Bool
is_open registered = true
is_open awaiting = true
is_open absent = false
is_open (waiting g) = false
is_open gated = false
is_open (leaving o) = false
is_open (finished o) = false

abbrev pub is_registered : Stage → Bool
is_registered registered = true
is_registered awaiting = true
is_registered (leaving o) = true
is_registered absent = false
is_registered (waiting g) = false
is_registered gated = false
is_registered (finished o) = false

abbrev pub is_some : Option RpcResponse → Bool
is_some none = false
is_some (some r) = true

-- A channel that a response is to go to is empty; a call that waits is among the pending ones or has
-- its response; only calls under way are pending; and the channel dialOnce is open before a dial.
pub record Inv (s : System) : Type 0 where
  pub room : (id : Text) → s.client.pending id ≡ true → s.client.channel id ≡ none
  pub heard :
      (id : Text)
      → is_open (s.stage id) ≡ true
      → (s.client.pending id ≡ true) ⊎ (is_some (s.client.channel id) ≡ true)
  pub own : (id : Text) → s.client.pending id ≡ true → is_registered (s.stage id) ≡ true
  pub shut : s.dialer ≡ dialing → s.client.opened s.client.gate ≡ false
  pub fresh : (g : ℕ) → s.client.gate < g → s.client.opened g ≡ false

Inv-start : Inv start
unfolding new_tcp_client
Inv-start = record {
  room = λ id h. refl;
  heard = λ id h. cc;
  own = λ id h. cc;
  shut = λ h. refl;
  fresh = λ g h. refl;
}

-- A call that moves, the client being left alone.
go-Inv :
    (s : System) (id : Text) (st : Stage)
    → Inv s
    → (is_open st ≡ true → is_open (s.stage id) ≡ true)
    → (is_registered (s.stage id) ≡ true → is_registered st ≡ true)
    → Inv (go s id st)
go-Inv s id st i h k = record {
  room = i.room;
  heard = λ j. ground (arith, i.heard j, text_eq_sound j id);
  own = λ j. ground (arith, i.own j, text_eq_sound j id);
  shut = i.shut;
  fresh = i.fresh;
}

module _ (decode : Text → Option RpcFrame) (timestamp : Text → Option ℤ) where
  Routed-Inv :
      (s : System) (c : Client) (l : Text)
      → Routed decode l s.client c
      → s.dialer ≡ Dialer.reading
      → Inv s
      → Inv (of_client s c)
  Routed-Inv s c l (quiet p ch g o) d i = record {
    room = λ id. ground (arith, i.room id, p id, ch id);
    heard = λ id. ground (arith, i.heard id, p id, ch id);
    own = λ id. ground (arith, i.own id, p id);
    shut = ground arith;
    fresh = λ h. ground (arith, i.fresh h, o h);
  }
  Routed-Inv s c l (answer id f a p e) d i = record {
    room = λ j. rw e (ground (arith, i.room j));
    heard = λ j. rw e (ground (arith, i.heard j));
    own = λ j. rw e (ground (arith, i.own j));
    shut = ground arith;
    fresh = λ g. rw e (i.fresh g);
  }

  -- Every step keeps the invariant.
  pub Step-Inv : {s t : System} → Step decode timestamp s t → Inv s → Inv t
  unfolding connected fail_pending hung_up rearmed flag_shutdown start_close register unregister
  Step-Inv (Step.dial d e) i = record {
    room = λ id. ground (arith, i.room id);
    heard = λ id. ground (arith, i.heard id);
    own = λ id. ground (arith, i.own id);
    shut = ground arith;
    fresh = λ g h. ground (arith, i.fresh g);
  }
  Step-Inv {s} (Step.line l {c} d e) i =
      Routed-Inv s c l (dispatch_frame-Routed decode l s.client c e) d i
  Step-Inv (Step.release d) i = record {
    room = λ id. ground (arith, i.room id);
    heard = λ id. ground (arith, i.heard id, i.room id);
    own = λ id. ground (arith, i.own id);
    shut = ground arith;
    fresh = λ g h. ground (arith, i.fresh g);
  }
  Step-Inv (Step.fail_all d) i = record {
    room = λ id. ground (arith, i.room id);
    heard = λ id. ground (arith, i.heard id, i.room id);
    own = λ id. ground (arith, i.own id);
    shut = ground arith;
    fresh = λ g h. ground (arith, i.fresh g);
  }
  Step-Inv (Step.give_up d h) i = record {
    room = i.room;
    heard = i.heard;
    own = i.own;
    shut = λ e. cc;
    fresh = i.fresh;
  }
  Step-Inv (Step.end_of_file d) i = record {
    room = i.room;
    heard = i.heard;
    own = i.own;
    shut = λ e. cc;
    fresh = i.fresh;
  }
  Step-Inv (Step.hang_up d) i = record {
    room = i.room;
    heard = i.heard;
    own = i.own;
    shut = λ e. ground arith;
    fresh = i.fresh;
  }
  Step-Inv (Step.rearm d) i = record {
    room = i.room;
    heard = i.heard;
    own = i.own;
    shut = λ e. i.fresh _ (omega arith);
    fresh = λ g h. i.fresh g (omega arith);
  }
  Step-Inv (Step.flag d) i = record {
    room = λ id. ground (arith, i.room id);
    heard = λ id. ground (arith, i.heard id);
    own = λ id. ground (arith, i.own id);
    shut = λ e. cc;
    fresh = λ g h. ground (arith, i.fresh g);
  }
  Step-Inv Step.close i = record {
    room = i.room;
    heard = i.heard;
    own = i.own;
    shut = i.shut;
    fresh = i.fresh;
  }
  Step-Inv Step.cancel i = record {
    room = i.room;
    heard = i.heard;
    own = i.own;
    shut = i.shut;
    fresh = i.fresh;
  }
  Step-Inv {s} (Step.enter id d) i = go-Inv s id _ i (λ h. ground arith) (λ h. ground arith)
  Step-Inv {s} (Step.pass id d o) i = go-Inv s id _ i (λ h. cc) (λ h. ground arith)
  Step-Inv {s} (Step.leave_gate id d) i = go-Inv s id _ i (λ h. cc) (λ h. ground arith)
  Step-Inv {s} (Step.refuse id d e) i = go-Inv s id _ i (λ h. cc) (λ h. ground arith)
  Step-Inv {s} (Step.enrol id {c} d e) i = record {
    room = λ j. ground (arith, i.room j);
    heard = λ j. ground (arith, i.heard j);
    own = λ j. ground (arith, i.own j);
    shut = ground arith;
    fresh = λ g. ground (arith, i.fresh g);
  }
  Step-Inv {s} (Step.write id d) i = go-Inv s id _ i (λ h. ground arith) (λ h. refl)
  Step-Inv {s} (Step.fail_write id d) i = go-Inv s id _ i (λ h. cc) (λ h. refl)
  Step-Inv (Step.receive id d e) i = record {
    room = λ j. ground (arith, i.room j);
    heard = λ j. ground (arith, i.heard j);
    own = λ j. ground (arith, i.own j);
    shut = i.shut;
    fresh = i.fresh;
  }
  Step-Inv {s} (Step.expire id d) i = go-Inv s id _ i (λ h. cc) (λ h. refl)
  Step-Inv {s} (Step.abandon id d) i = go-Inv s id _ i (λ h. cc) (λ h. refl)
  Step-Inv (Step.depart id d) i = record {
    room = λ j. ground (arith, i.room j);
    heard = λ j. ground (arith, i.heard j);
    own = λ j. ground (arith, i.own j);
    shut = i.shut;
    fresh = λ g h. ground (arith, i.fresh g);
  }

  pub Reach-Inv : {s : System} → Reach decode timestamp s → Inv s
  Reach-Inv begin = Inv-start
  Reach-Inv (later r st) = Step-Inv st (Reach-Inv r)
