-- ===== src/Inbound/Redelivery.antt =====
-- The listener and the redeliveries that the daemon makes after a reconnect.
use go_signalium.Base.{
  ℕ, ◌≡◌, refl, true, false, Option, none, some, List, [], ◌∷◌, arith, All, if_elim, map, ==_refl,
  Memᴰ,
}
use go_signalium.Base.Text.{text_eq_refl}
use go_signalium.Base.Int.{ℤ, pos, negsuc}
use go_signalium.Repo.Messages.{Link, up, down, lost}
use go_signalium.Inbound.{
  Codec, Ignore, Event, InsertInboundParams, InboundTable, Delivery, captured, is_redelivery,
  is_same_timestamp, has_delivery, insert_inbound, insert, handle, run, is_anonymous, to_capture,
  parse_envelope,
}

is_same_timestamp_refl : (z : ℤ) → is_same_timestamp z z ≡ true
is_same_timestamp_refl (pos n) = ==_refl n
is_same_timestamp_refl (negsuc n) = ==_refl n

is_redelivery_refl : (p : InsertInboundParams) → is_redelivery p p ≡ true
is_redelivery_refl p =
    ground (arith, text_eq_refl p.source, is_same_timestamp_refl p.source_timestamp)

-- What is in the table stays.
has_delivery-handle :
    (c : Codec) (ignore : Ignore) (link : Link) (now : ℕ) (ev : Event) (p : InsertInboundParams)
    (t : InboundTable)
    → has_delivery p t ≡ true
    → has_delivery p (handle c ignore link now ev t) ≡ true
unfolding handle insert insert_inbound has_delivery
has_delivery-handle c ignore link now ev p t h = ground arith

has_delivery-run :
    (c : Codec) (ignore : Ignore) (ds : List Delivery) (p : InsertInboundParams) (t : InboundTable)
    → has_delivery p t ≡ true
    → has_delivery p (run c ignore ds t) ≡ true
unfolding run
has_delivery-run c ignore [] p t h = h
has_delivery-run c ignore (d ∷ ds) p t h =
    has_delivery-run c ignore ds p (handle c ignore d.link d.now d.event t)
      (has_delivery-handle c ignore d.link d.now d.event p t h)

-- No insert changes a table that has the delivery.
handle_known :
    (c : Codec) (ignore : Ignore) (link : Link) (now : ℕ) (ev : Event) (t : InboundTable)
    → ((p : InsertInboundParams) → captured c ignore ev ≡ some p → has_delivery p t ≡ true)
    → handle c ignore link now ev t ≡ t
unfolding handle insert insert_inbound
handle_known c ignore link now ev t h = made (captured c ignore ev) h
  where
    blocked :
        (l : Link) (p : InsertInboundParams) → has_delivery p t ≡ true → (insert l now p t).1 ≡ t
    blocked up p e = rw e refl
    blocked down p e = refl
    blocked lost p e = rw e refl

    made :
        (o : Option InsertInboundParams)
        → ((p : InsertInboundParams) → o ≡ some p → has_delivery p t ≡ true)
        → elim o [ none ↦ t | some p ↦ (insert link now p t).1 ] ≡ t
    made none k = refl
    made (some p) k = blocked link p (k p refl)

-- Every delivery of a list reached its table.
abbrev AllUp : List Delivery → Type 0
AllUp = All (λ d. d.link ≡ up)

handle_up :
    (c : Codec) (ignore : Ignore) (now : ℕ) (ev : Event) (p : InsertInboundParams)
    (t : InboundTable)
    → captured c ignore ev ≡ some p
    → has_delivery p (handle c ignore up now ev t) ≡ true
unfolding handle insert insert_inbound has_delivery
handle_up c ignore now ev p t h = ground (arith, is_redelivery_refl p)

-- A delivery that reached the table is there at the end.
there-run :
    (c : Codec) (ignore : Ignore) (ev : Event) (p : InsertInboundParams) (ds : List Delivery)
    (t : InboundTable)
    → AllUp ds
    → captured c ignore ev ≡ some p
    → Memᴰ ev (map (λ d. d.event) ds)
    → has_delivery p (run c ignore ds t) ≡ true
unfolding run
there-run c ignore ev p [] t u h m = elim m [ ]
there-run c ignore ev p (d ∷ ds) t u h (Memᴰ.tail m) =
    there-run c ignore ev p ds (handle c ignore d.link d.now d.event t) u.1 h m
there-run c ignore ev p (d ∷ ds) t u h (Memᴰ.head e) =
    has_delivery-run c ignore ds p (handle c ignore d.link d.now d.event t)
      (rw (u.0, ← e) (handle_up c ignore d.now ev p t h))

-- Whatever the daemon reports again after a run whose inserts reached the table, in whatever order,
-- at whatever time and with whatever links, changes nothing.
pub run_again :
    (c : Codec) (ignore : Ignore) (ds again : List Delivery) (t : InboundTable)
    → AllUp ds
    → All (λ d. Memᴰ d.event (map (λ x. x.event) ds)) again
    → run c ignore again (run c ignore ds t) ≡ run c ignore ds t
unfolding run
run_again c ignore ds [] t u a = refl
run_again c ignore ds (d ∷ again) t u a =
    rw
      (handle_known c ignore d.link d.now d.event (run c ignore ds t)
        (λ p h. there-run c ignore d.event p ds t u h a.0))
      (run_again c ignore ds again t u a.1)

-- No two rows have the same source and timestamp, and none lacks one of them.
abbrev pub IsDistinct : InboundTable → Type 0
IsDistinct [] = Unit
IsDistinct (r ∷ t) =
    (has_delivery r.params t ≡ false)
    × (is_anonymous r.params.source r.params.source_timestamp ≡ false)
    × IsDistinct t

captured-not-anonymous :
    (c : Codec) (ignore : Ignore) (ev : Event) (p : InsertInboundParams)
    → captured c ignore ev ≡ some p
    → is_anonymous p.source p.source_timestamp ≡ false
unfolding captured to_capture parse_envelope
captured-not-anonymous c ignore ev p h = ground arith

insert_inbound-IsDistinct :
    (now : ℕ) (p : InsertInboundParams) (t : InboundTable)
    → is_anonymous p.source p.source_timestamp ≡ false
    → IsDistinct t
    → IsDistinct (insert_inbound now p t).1
unfolding insert_inbound
insert_inbound-IsDistinct now p t h w =
    if_elim (λ (x : ℕ × InboundTable). IsDistinct x.1) (has_delivery p t) (0, t)
      (1, record { params = p; received_at = now } ∷ t) (λ _. w) (λ e. (e, h, w))

insert-IsDistinct :
    (link : Link) (now : ℕ) (p : InsertInboundParams) (t : InboundTable)
    → is_anonymous p.source p.source_timestamp ≡ false
    → IsDistinct t
    → IsDistinct (insert link now p t).1
unfolding insert insert_inbound
insert-IsDistinct down now p t h w = w
insert-IsDistinct up now p t h w = insert_inbound-IsDistinct now p t h w
insert-IsDistinct lost now p t h w = insert_inbound-IsDistinct now p t h w

handle-IsDistinct :
    (c : Codec) (ignore : Ignore) (link : Link) (now : ℕ) (ev : Event) (t : InboundTable)
    → IsDistinct t
    → IsDistinct (handle c ignore link now ev t)
unfolding handle
handle-IsDistinct c ignore link now ev t w = made (captured c ignore ev) refl
  where
    made :
        (o : Option InsertInboundParams)
        → captured c ignore ev ≡ o
        → IsDistinct (elim o [ none ↦ t | some p ↦ (insert link now p t).1 ])
    made none q = w
    made (some p) q = insert-IsDistinct link now p t (captured-not-anonymous c ignore ev p q) w

-- Whatever the daemon reports, and whatever becomes of the inserts, no two rows get the same source
-- and timestamp, and no row lacks one of the two.
pub run-IsDistinct :
    (c : Codec) (ignore : Ignore) (ds : List Delivery) (t : InboundTable)
    → IsDistinct t
    → IsDistinct (run c ignore ds t)
unfolding run
run-IsDistinct c ignore [] t w = w
run-IsDistinct c ignore (d ∷ ds) t w =
    run-IsDistinct c ignore ds (handle c ignore d.link d.now d.event t)
      (handle-IsDistinct c ignore d.link d.now d.event t w)
