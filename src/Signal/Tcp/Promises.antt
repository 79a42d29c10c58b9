-- ===== src/Signal/Tcp/Promises.antt =====
-- What the client promises over any run of its goroutines.
use go_signalium.Base.{
  ◌⊎◌, inl, inr, List, ◌++◌, Memᴰ, ◌≡◌, ◌≢◌, refl, ap, true, false, Option, none, some, [], ◌∷◌,
  arith, if_elim, if◌then◌else◌,
}
use go_signalium.Base.Text.{Text, is_set}
use go_signalium.Base.Int.{ℤ, pos}
use go_signalium.Signal.Tcp.{
  RpcFrame, RpcResponse, new_tcp_client, answered, gone, Outcome, Client, set, dispatch_frame,
  route_frame, buffer, fail_pending, connected, id_of, response_of, trim_frame,
}
use go_signalium.Signal.Tcp.System.{dialing, finished, System, start, Step, Reach, begin, later}
use go_signalium.Signal.Tcp.Invariant.{is_open, is_some, Reach-Inv}
use mathlib.Core.List.Memᴰ
use mathlib.Core.Path.{subst}
use go_signalium.Signal.Tcp.Calls.{
  Life, unborn, delivered, ended, Next, Meant, torn, replied, view, step_lines, life, Step-Next,
}
use go_signalium.Signal.Tcp.Says.{Says, lost, refused, stamped, unread}
use go_signalium.Signal.Tcp.Frames.{Carries}

module _ (decode : Text → Option RpcFrame) (timestamp : Text → Option ℤ) where
  -- A run from one state to another.
  pub data Trace (s : System) : System → Type 0 where
    here : Trace s s
    next : {t u : System} → Trace s t → Step decode timestamp t u → Trace s u

  -- The lines that a run reads.
  pub lines : {s t : System} → Trace s t → List Text
  lines here = []
  lines (next tr st) = step_lines st ++ lines tr

  -- A life from one point to another.
  pub data Lives (meant : RpcResponse → Type 0) (l : Life) : Life → Type 0 where
    same : Lives meant l l
    then_ : {m n : Life} → Lives meant l m → Next timestamp meant m n → Lives meant l n

  Reach-Trace : {s t : System} → Reach decode timestamp s → Trace s t → Reach decode timestamp t
  Reach-Trace r here = r
  Reach-Trace r (next tr st) = later (Reach-Trace r tr) st

  Trace-Lives_in :
      (ls : List Text) {s t : System}
      → Reach decode timestamp s
      → (tr : Trace s t) → ((l : Text) → Memᴰ l (lines tr) → Memᴰ l ls)
      → (id : Text) → Lives (Meant decode ls id) (life s id) (life t id)
  unfolding lines
  Trace-Lives_in ls r here sub id = same
  Trace-Lives_in ls r (next tr st) sub id =
      then_ (Trace-Lives_in ls r tr (λ l m. sub l (Memᴰ.append_right (step_lines st) m)) id) (
        Step-Next decode timestamp ls st (λ l m. sub l (Memᴰ.append_left (lines tr) m))
          (Reach-Inv decode timestamp (Reach-Trace r tr)) id)

  -- Over any interleaving of the reader, the dial loop, Close and the callers, each call of Send lives
  -- the abstract life of a call: it gets at most one response, which is that of a frame with its id in a
  -- line that was read, or the loss of the connection; and a call that ends with a timestamp or with an
  -- error of the daemon ends with what that response says: an error where its frame has one, else the
  -- timestamp of its result, or 0 where the result cannot be decoded.
  pub Trace-Lives :
      {s t : System}
      → Reach decode timestamp s
      → (tr : Trace s t) (id : Text) → Lives (Meant decode (lines tr) id) (life s id) (life t id)
  Trace-Lives r tr id = Trace-Lives_in (lines tr) r tr (λ l m. m) id

  -- A life that is over with an answer had a response that gives it.
  abbrev Given : (RpcResponse → Type 0) → ℤ → Type 0
  Given meant ts = (r : RpcResponse) × meant r × Says timestamp r (answered ts)

  abbrev Facts : (RpcResponse → Type 0) → ℤ → Life → Type 0
  Facts meant ts l =
      ((r : RpcResponse) → l ≡ delivered r → meant r) × (l ≡ ended (answered ts) → Given meant ts)

  Next-Facts :
      {meant : RpcResponse → Type 0} {m n : Life} (ts : ℤ)
      → Next timestamp meant m n
      → Facts meant ts m
      → Facts meant ts n
  Next-Facts ts Next.stay f = f
  Next-Facts ts (Next.refuse h) f = (λ r e. absurd (ground arith), λ e. absurd (ground arith))
  Next-Facts ts Next.begin f = (λ r e. absurd (ground arith), λ e. absurd (ground arith))
  Next-Facts {meant} ts (Next.deliver k) f =
      (λ r e. subst meant (ground arith) k, λ e. absurd (ground arith))
  Next-Facts ts (Next.give_up h) f = (λ r e. absurd (ground arith), λ e. absurd (ground arith))
  Next-Facts ts (Next.settle {r} k) f = (
    λ r' e. absurd (ground arith),
    λ e. (r, f.0 r refl, subst (Says timestamp r) (ground arith) k),
  )
  Next-Facts ts (Next.abandon h) f = (λ r e. absurd (ground arith), λ e. absurd (ground arith))

  Lives-Facts :
      {meant : RpcResponse → Type 0} {l : Life} (ts : ℤ) → Lives meant unborn l → Facts meant ts l
  Lives-Facts ts same = (λ r e. absurd (ground arith), λ e. absurd (ground arith))
  Lives-Facts ts (then_ ls n) = Next-Facts ts n (Lives-Facts ts ls)

  -- A call that ends with a timestamp read it from a frame with its own id, which has no error: it is
  -- that of the frame's result, or 0 where the result cannot be decoded.
  pub record Answered (ls : List Text) (id : Text) (ts : ℤ) : Type 0 where
    pub line : Text
    pub frame : RpcFrame
    pub arrived : Memᴰ line ls
    pub carried : Carries decode line id frame
    pub no_error : frame.error ≡ none
    pub said : (timestamp frame.result ≡ some ts) ⊎ ((timestamp frame.result ≡ none) × (ts ≡ pos 0))

  Says-Answered :
      (ls : List Text) (id : Text) (ts : ℤ) (l : Text) (f : RpcFrame) (o : Outcome)
      → Memᴰ l ls
      → Carries decode l id f
      → o ≡ answered ts
      → Says timestamp (response_of f) o
      → Answered ls id ts
  Says-Answered ls id ts l f o m k q (lost d) = absurd (ground arith)
  Says-Answered ls id ts l f o m k q (refused d x) = absurd (ground arith)
  Says-Answered ls id ts l f o m k q (stamped d x h) = record {
    line = l;
    frame = f;
    arrived = m;
    carried = k;
    no_error = x;
    said = inl (ground arith);
  }
  Says-Answered ls id ts l f o m k q (unread d x h) = record {
    line = l;
    frame = f;
    arrived = m;
    carried = k;
    no_error = x;
    said = inr (h, ground arith);
  }

  gone_silent : (ts : ℤ) (o : Outcome) → o ≡ answered ts → Says timestamp gone o → ⊥
  gone_silent ts o q (lost d) = ground arith
  gone_silent ts o q (refused d x) = ground arith
  gone_silent ts o q (stamped d x h) = ground arith
  gone_silent ts o q (unread d x h) = ground arith

  answered-by :
      (ls : List Text) (id : Text) (ts : ℤ) (r : RpcResponse)
      → Meant decode ls id r
      → Says timestamp r (answered ts)
      → Answered ls id ts
  answered-by ls id ts r torn q = absurd (gone_silent ts (answered ts) refl q)
  answered-by ls id ts r (replied l f m k) q = Says-Answered ls id ts l f (answered ts) m k refl q

  -- In every run from the start, a call that ends with a timestamp got it from a frame with its own id
  -- in a line that the client read, and never from that of another call.
  pub Trace-Answered :
      {t : System} (tr : Trace start t) (id : Text) (ts : ℤ)
      → t.stage id ≡ finished (answered ts)
      → Answered (lines tr) id ts
  unfolding new_tcp_client
  Trace-Answered {t} tr id ts h =
      let (r, m, q) =
        (Lives-Facts ts (Trace-Lives begin tr id)).1 (ap (λ st. view st (t.client.channel id)) h) in
      answered-by (lines tr) id ts r m q

  route_frame_runs :
      (f : RpcFrame) (c : Client)
      → ((id : Text) → c.pending id ≡ true → c.channel id ≡ none)
      → route_frame f c ≢ none
  unfolding route_frame
  route_frame_runs f c room =
      if_elim (λ o. o ≢ none) (is_set f.id)
        (if c.pending (id_of f.id)
          then buffer (id_of f.id) (response_of f)
              (record c { pending = set c.pending (id_of f.id) false })
          else some c)
        _
        (λ _.
          if_elim (λ o. o ≢ none) (c.pending (id_of f.id)) _ (some c)
            (λ p e. ground (arith, room (id_of f.id))) (λ _ e. cc))
        (λ _ e. ground arith)

  dispatch_frame_runs :
      (line : Text) (c : Client)
      → ((id : Text) → c.pending id ≡ true → c.channel id ≡ none)
      → dispatch_frame decode line c ≢ none
  unfolding dispatch_frame
  dispatch_frame_runs line c room = trimmed (trim_frame line)
    where
      decoded : (o : Option RpcFrame) → elim o [ none ↦ some c | some f ↦ route_frame f c ] ≢ none
      decoded none e = cc
      decoded (some f) e = route_frame_runs f c room e

      trimmed :
          (l : Text)
          → elim l [
            | [] ↦ some c
            | b ∷ t ↦ elim (decode (b ∷ t)) [ none ↦ some c | some f ↦ route_frame f c ]
          ]
            ≢ none
      trimmed [] e = cc
      trimmed (b ∷ t) e = decoded (decode (b ∷ t)) e

  -- No frame ever blocks the reader on a full channel, and no dial closes a channel that is closed.
  pub Reach-runs :
      {s : System}
      → Reach decode timestamp s
      → ((line : Text) → dispatch_frame decode line s.client ≢ none)
        × (s.dialer ≡ dialing → connected s.client ≢ none)
  unfolding connected
  Reach-runs {s} r =
      let i = Reach-Inv decode timestamp r in
      (λ line. dispatch_frame_runs line s.client i.room, λ d e. ground (arith, i.shut))

  -- Once the connection is lost and failPending has run, every call that waits has its response.
  release_wakes :
      {s : System}
      → Reach decode timestamp s
      → (id : Text) → is_open (s.stage id) ≡ true
      → ((fail_pending s.client).pending id ≡ false)
        × (is_some ((fail_pending s.client).channel id) ≡ true)
  unfolding fail_pending
  release_wakes r id h =
      let i = Reach-Inv decode timestamp r in (refl, ground (arith, i.heard id, i.room id))
