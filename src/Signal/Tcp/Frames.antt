-- ===== src/Signal/Tcp/Frames.antt =====
-- What a frame does to the calls of the client.
use go_signalium.Base.{
  if◌then◌else◌, if_elim, ltb, length, not, ◌++◌, List, [], ◌∷◌, ℕ, ◌≡◌, refl, ap, Bool, true,
  false, Option, none, some, arith,
}
use go_signalium.Base.Text.{Text}
use go_signalium.Base.Text.{is_set}
use go_signalium.Inbound.{Event}
use go_signalium.Signal.Tcp.{
  RpcFrame, Client, set, buffer, id_of, response_of, route_frame, trim_frame, dispatch_frame,
}

-- A line holds a frame with the id of a call.
pub record Carries (decode : Text → Option RpcFrame) (line : Text) (id : Text) (f : RpcFrame)
    : Type 0 where
  pub read : decode (trim_frame line) ≡ some f
  pub meant : f.id ≡ some id

-- What a frame does: nothing to the calls, or it answers one pending call.
pub data Routed (decode : Text → Option RpcFrame) (line : Text) (c : Client) (c' : Client)
    : Type 0 where
  quiet :
      ((id : Text) → c'.pending id ≡ c.pending id)
      → ((id : Text) → c'.channel id ≡ c.channel id)
      → c'.gate ≡ c.gate
      → ((g : ℕ) → c'.opened g ≡ c.opened g)
      → Routed decode line c c'
  answer :
      (id : Text) (f : RpcFrame)
      → Carries decode line id f
      → c.pending id ≡ true
      → c' ≡ record c {
        pending = set c.pending id false;
        channel = set c.channel id (some (response_of f));
      }
      → Routed decode line c c'

module _ (decode : Text → Option RpcFrame) (line : Text) (c c' : Client) where
  buffer-Routed :
      (id : Text) (f : RpcFrame)
      → Carries decode line id f
      → c.pending id ≡ true
      → buffer id (response_of f) (record c { pending = set c.pending id false }) ≡ some c'
      → Routed decode line c c'
  buffer-Routed id f k p e = answer id f k p (ground arith)

  same-Routed : Option.some c ≡ some c' → Routed decode line c c'
  same-Routed e =
      let q : c' ≡ c = ground arith in
      quiet (λ id. rw q refl) (λ id. rw q refl) (rw q refl) (λ g. rw q refl)

  -- A notification reaches the events or is dropped.
  notified-Routed :
      (b : Bool) (es : List Event) (ms : List Text)
      → (if b then some (record c { events = es }) else some (record c { dropped = ms })) ≡ some c'
      → Routed decode line c c'
  notified-Routed true es ms e =
      let q : c' ≡ record c { events = es } = ground arith in
      quiet (λ id. rw q refl) (λ id. rw q refl) (rw q refl) (λ g. rw q refl)
  notified-Routed false es ms e =
      let q : c' ≡ record c { dropped = ms } = ground arith in
      quiet (λ id. rw q refl) (λ id. rw q refl) (rw q refl) (λ g. rw q refl)

  id_of-is_set : (o : Option Text) → is_set o ≡ true → o ≡ some (id_of o)
  unfolding is_set
  id_of-is_set none h = absurd (ground arith)
  id_of-is_set (some t) h = refl

  route_frame-Routed :
      (f : RpcFrame)
      → decode (trim_frame line) ≡ some f
      → route_frame f c ≡ some c'
      → Routed decode line c c'
  unfolding route_frame
  route_frame-Routed f k =
      if_elim P (is_set f.id) (if c.pending (id_of f.id) then answered_by else some c)
        (if not (is_set (some f.method)) then some c else noted)
        (λ i.
          if_elim P (c.pending (id_of f.id)) answered_by (some c)
            (λ h. buffer-Routed (id_of f.id) f (record { read = k; meant = id_of-is_set f.id i }) h)
            (λ _. same-Routed))
        (λ _.
          if_elim P (not (is_set (some f.method))) (some c) noted (λ _. same-Routed)
            (λ _. notified-Routed (ltb (length c.events) 64) _ _))
    where
      P : Option Client → Type 0
      P o = o ≡ some c' → Routed decode line c c'

      answered_by : Option Client
      answered_by =
          buffer (id_of f.id) (response_of f)
            (record c { pending = set c.pending (id_of f.id) false })

      noted : Option Client
      noted =
          if ltb (length c.events) 64
          then some (record c {
            events = c.events ++ (record { method = f.method; params = f.params } ∷ []);
          })
          else some (record c { dropped = f.method ∷ c.dropped })

  pub dispatch_frame-Routed : dispatch_frame decode line c ≡ some c' → Routed decode line c c'
  unfolding dispatch_frame
  dispatch_frame-Routed = trimmed (trim_frame line) refl
    where
      decoded :
          (o : Option RpcFrame)
          → decode (trim_frame line) ≡ o
          → elim o [ none ↦ some c | some f ↦ route_frame f c ] ≡ some c'
          → Routed decode line c c'
      decoded none k e = same-Routed e
      decoded (some f) k e = route_frame-Routed f k e

      trimmed :
          (l : Text)
          → trim_frame line ≡ l
          → elim l [
            | [] ↦ some c
            | b ∷ t ↦ elim (decode (b ∷ t)) [ none ↦ some c | some f ↦ route_frame f c ]
          ]
            ≡ some c'
          → Routed decode line c c'
      trimmed [] q e = same-Routed e
      trimmed (b ∷ t) q e = decoded (decode (b ∷ t)) (ap decode q) e
