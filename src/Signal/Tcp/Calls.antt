-- ===== src/Signal/Tcp/Calls.antt =====
-- The life of a call: what a caller of Send may rely on, and that the client keeps to it.
use go_signalium.Base.{
  List, [], ◌∷◌, Memᴰ, ℕ, ◌≡◌, refl, inl, inr, Bool, true, false, Option, none, some, arith,
  if_elim, Bool-cases, if◌then◌else◌,
}
use go_signalium.Base.Text.{Text, text_eq, text_eq_sound}
use go_signalium.Base.Int.{ℤ}
use go_signalium.Signal.Tcp.{
  response_of, RpcFrame, RpcResponse, Outcome, answered, disconnected, shutdown, timed_out,
  cancelled, not_written, daemon_error, Client, set, fail_pending, connected, conclude,
  flag_shutdown, gone, offer, hung_up, rearmed, start_close, register, unregister,
}
use go_signalium.Signal.Tcp.Says.{Says, conclude-Says}
use go_signalium.Signal.Tcp.System.{
  Stage, absent, waiting, gated, registered, awaiting, leaving, finished, System, go, Step,
}
use go_signalium.Signal.Tcp.Frames.{Carries, Routed, quiet, answer, dispatch_frame-Routed}
use go_signalium.Signal.Tcp.Invariant.{Inv}

-- The abstract call: not under way, waiting, with a response, or over with an outcome.
pub data Life : Type 0 where
  unborn under_way : Life
  delivered : RpcResponse → Life
  ended : Outcome → Life

abbrev pub is_answer : Outcome → Bool
is_answer (answered ts) = true
is_answer disconnected = false
is_answer shutdown = false
is_answer timed_out = false
is_answer cancelled = false
is_answer not_written = false
is_answer (daemon_error e) = true

abbrev pub in_use : Option RpcResponse → Life
in_use none = under_way
in_use (some r) = delivered r

abbrev pub view : Stage → Option RpcResponse → Life
view absent ch = unborn
view (waiting g) ch = unborn
view gated ch = unborn
view registered ch = in_use ch
view awaiting ch = in_use ch
view (leaving o) ch = ended o
view (finished o) ch = ended o

abbrev pub life : System → Text → Life
life s id = view (s.stage id) (s.client.channel id)

-- One response at most is delivered, of those that are `meant` for the call, and a timestamp or an
-- error of the daemon is what a delivered response says.
pub data Next (timestamp : Text → Option ℤ) (meant : RpcResponse → Type 0)
    : Life → Life → Type 0 where
  stay : {l : Life} → Next timestamp meant l l
  refuse : {o : Outcome} → is_answer o ≡ false → Next timestamp meant unborn (ended o)
  begin : Next timestamp meant unborn under_way
  deliver : {r : RpcResponse} → meant r → Next timestamp meant under_way (delivered r)
  give_up : {o : Outcome} → is_answer o ≡ false → Next timestamp meant under_way (ended o)
  settle :
      {r : RpcResponse} {o : Outcome}
      → Says timestamp r o
      → Next timestamp meant (delivered r) (ended o)
  abandon :
      {r : RpcResponse} {o : Outcome}
      → is_answer o ≡ false
      → Next timestamp meant (delivered r) (ended o)

-- The response that failPending sends, or that of a frame with the call's id in one of some lines.
pub data Meant (decode : Text → Option RpcFrame) (ls : List Text) (id : Text)
    : RpcResponse → Type 0 where
  torn : Meant decode ls id gone
  replied :
      (l : Text) (f : RpcFrame)
      → Memᴰ l ls
      → Carries decode l id f
      → Meant decode ls id (response_of f)

-- The lines that a step reads.
abbrev pub step_lines :
    {decode : Text → Option RpcFrame} {timestamp : Text → Option ℤ} {s t : System}
    → Step decode timestamp s t
    → List Text
step_lines (Step.line l d e) = l ∷ []
step_lines st = []

module _ (decode : Text → Option RpcFrame) (timestamp : Text → Option ℤ) (ls : List Text) where
  -- A waiting call that ends without a response.
  in_use-Next :
      {meant : RpcResponse → Type 0} (ch : Option RpcResponse) (o : Outcome)
      → is_answer o ≡ false
      → Next timestamp meant (in_use ch) (ended o)
  in_use-Next none o h = give_up h
  in_use-Next (some r) o h = abandon h

  go-Next :
      (s : System) (id j : Text) (st : Stage)
      → Next timestamp (Meant decode ls id) (life s id) (view st (s.client.channel id))
      → Next timestamp (Meant decode ls j) (life s j) (life (go s id st) j)
  go-Next s id j st n =
      if_elim (λ x. Next timestamp (Meant decode ls j) (life s j) (view x (s.client.channel j)))
        (text_eq j id) st (s.stage j) (λ e. rw (text_eq_sound j id e) n) (λ _. stay)

  -- A call that moves, its channel being written.
  go_channel-Next :
      (s : System) (id j : Text) (st : Stage) (ch : Option RpcResponse)
      → Next timestamp (Meant decode ls id) (life s id) (view st ch)
      → Next timestamp
          (Meant decode ls j)
          (life s j)
          (view (set s.stage id st j) (set s.client.channel id ch j))
  go_channel-Next s id j st ch n = elim (Bool-cases (text_eq j id)) [
    | inl e ↦ rw e (rw (text_eq_sound j id e) n)
    | inr e ↦ rw e stay
  ]

  -- A response that arrives in an empty channel.
  arrive :
      {meant : RpcResponse → Type 0} (st : Stage) (r : RpcResponse) (ch : Option RpcResponse)
      → meant r
      → ch ≡ none
      → Next timestamp meant (view st ch) (view st (some r))
  arrive absent r ch m e = stay
  arrive (waiting g) r ch m e = stay
  arrive gated r ch m e = stay
  arrive registered r ch m e = rw e (deliver m)
  arrive awaiting r ch m e = rw e (deliver m)
  arrive (leaving o) r ch m e = stay
  arrive (finished o) r ch m e = stay

  fail_pending-Next :
      (s : System) (j : Text)
      → Inv s
      → Next timestamp
          (Meant decode ls j)
          (life s j)
          (view (s.stage j) ((fail_pending s.client).channel j))
  unfolding fail_pending
  fail_pending-Next s j i =
      if_elim (λ ch. Next timestamp (Meant decode ls j) (life s j) (view (s.stage j) ch))
        (s.client.pending j) (offer (s.client.channel j) gone) (s.client.channel j)
        (λ p. rw (i.room j p) (arrive (s.stage j) gone none torn refl)) (λ _. stay)

  Routed-Next :
      (s : System) (c : Client) (l j : Text)
      → Memᴰ l ls
      → Routed decode l s.client c
      → Inv s
      → Next timestamp (Meant decode ls j) (life s j) (view (s.stage j) (c.channel j))
  Routed-Next s c l j k (quiet p ch g o) i = rw (ch j) stay
  Routed-Next s c l j k (answer id f a p e) i = rw e (
      if_elim (λ ch. Next timestamp (Meant decode ls j) (life s j) (view (s.stage j) ch))
        (text_eq j id) (some (response_of f)) (s.client.channel j)
        (λ q.
          arrive (s.stage j) (response_of f) (s.client.channel j)
            (rw (text_eq_sound j id q) (replied l f k a)) (i.room j (rw (text_eq_sound j id q) p)))
        (λ _. stay))

  entered :
      {meant : RpcResponse → Type 0} (g : ℕ) (b : Bool) (ch : Option RpcResponse)
      → Next timestamp meant unborn (view (if b then finished shutdown else waiting g) ch)
  entered g true ch = refuse refl
  entered g false ch = stay

  -- Whatever step the client takes, each call takes a step of its life, or none. The responses are among those of `ls`, which holds what the step reads.
  pub Step-Next :
      {s t : System}
      → (st : Step decode timestamp s t) → ((l : Text) → Memᴰ l (step_lines st) → Memᴰ l ls)
      → Inv s
      → (id : Text) → Next timestamp (Meant decode ls id) (life s id) (life t id)
  unfolding connected hung_up rearmed flag_shutdown start_close register unregister
  Step-Next {s} (Step.dial {c} d e) sub i j =
      let q : c.channel ≡ s.client.channel = ground arith in rw q stay
  Step-Next {s} (Step.line l {c} d e) sub i j =
      Routed-Next s c l j (sub l (Memᴰ.head refl)) (dispatch_frame-Routed decode l s.client c e) i
  Step-Next {s} (Step.release d) sub i j = fail_pending-Next s j i
  Step-Next {s} (Step.fail_all d) sub i j = fail_pending-Next s j i
  Step-Next (Step.give_up d h) sub i j = stay
  Step-Next (Step.end_of_file d) sub i j = stay
  Step-Next (Step.hang_up d) sub i j = stay
  Step-Next (Step.rearm d) sub i j = stay
  Step-Next {s} (Step.flag d) sub i j =
      let q : (flag_shutdown s.client).channel ≡ s.client.channel = ground arith in rw q stay
  Step-Next Step.close sub i j = stay
  Step-Next Step.cancel sub i j = stay
  Step-Next {s} (Step.enter id d) sub i j =
      go-Next s id j _ (rw d (entered s.client.gate s.client.closed (s.client.channel id)))
  Step-Next {s} (Step.pass id d o) sub i j = go-Next s id j gated (rw d stay)
  Step-Next {s} (Step.leave_gate id d) sub i j = go-Next s id j _ (rw d (refuse (ground arith)))
  Step-Next {s} (Step.refuse id d e) sub i j = go-Next s id j _ (rw d (refuse refl))
  Step-Next {s} (Step.enrol id {c} d e) sub i j =
      let q : c.channel ≡ set s.client.channel id none = ground arith in
      rw q (go_channel-Next s id j registered none (rw d begin))
  Step-Next {s} (Step.write id d) sub i j = go-Next s id j _ (rw d stay)
  Step-Next {s} (Step.fail_write id d) sub i j =
      go-Next s id j _ (rw d (in_use-Next _ _ (ground arith)))
  Step-Next {s} (Step.receive id {r} d e) sub i j =
      go_channel-Next s id j (leaving (conclude timestamp r)) none
        (rw (d, e) (settle (conclude-Says timestamp r)))
  Step-Next {s} (Step.expire id d) sub i j = go-Next s id j _ (rw d (in_use-Next _ _ refl))
  Step-Next {s} (Step.abandon id d) sub i j =
      go-Next s id j _ (rw d (in_use-Next _ _ (ground arith)))
  Step-Next {s} (Step.depart id d) sub i j = go-Next s id j _ (rw d stay)
