-- ===== src/Server/Delivery.antt =====
-- From POST /api/v1/signal-messages to the daemon: a request that is enqueued, and the tick of a worker
-- that comes after it.
use mathlib.Core.Path.{subst}
use go_signalium.Base.{
  ℕ, ◌^◌, ◌≤◌, ◌<◌, ◌≡◌, refl, sym, ap, ◌∙◌, Bool, true, false, ◌||◌, List, [], Option, some, none,
  ◌∷◌, arith, Memᴰ,
}
use go_signalium.Base.Text.{Text, is_set}
use go_signalium.Domain.{Attachment, sent, Message, Result, ok, err}
use go_signalium.Repo.{Row, is_eligible, in_time, claim_row}
use go_signalium.Repo.Claim.{is_available}
use go_signalium.Repo.Messages.{up, ts_tz}
use go_signalium.Service.Enqueue.{
  CreateMessage, EnqueueResult, Parts, State, enqueue, timeout_at_of, validate, is_blank,
  after_lookup, find_existing, upload,
}
use go_signalium.Service.Enqueue.Validation.{IsAcceptable, validate_iff}
use go_signalium.Base.Decimal.{format_int}
use go_signalium.Base.Int.{ℤ}
use go_signalium.Service.Enqueue
use go_signalium.Service.Enqueue.Rows.{IsRowOf, enqueue_inserts}
use go_signalium.Worker.{Config, Env, World, tick}
use go_signalium.Worker.Drain.{counted}
use go_signalium.Worker.Dispatch.{IsConnected, Ends, verdict}
use go_signalium.Server.Settled.{claimed_row, IsClaimed, claims_only, tick_settles, verdict-text}

enqueue_valid :
    (sender : Text) (ee : Enqueue.Env) (m : CreateMessage) (parts : Option Parts) (s s' : State)
    (r : EnqueueResult)
    → enqueue sender ee m parts s ≡ (ok r, s')
    → validate sender m ≡ ok tt
unfolding enqueue
enqueue_valid sender ee m parts s s' r = passed (validate sender m)
  where
    passed :
        (v : Result (Unit {0}))
        → elim v as (λ _. Result EnqueueResult × State) [
          | err x ↦ (err x, s)
          | ok _ ↦ after_lookup sender ee m parts s (find_existing ee m s.table)
        ]
          ≡ (ok r, s')
        → v ≡ ok tt
    passed (err x) h = absurd (ground arith)
    passed (ok u) h = refl

not_blank : (t : Text) → is_blank 0 t ≡ false → is_set (some t) ≡ true
unfolding is_blank is_set
not_blank [] h = ground arith
not_blank (b ∷ t) h = refl

some_target :
    (sender : Text) (m : CreateMessage)
    → IsAcceptable sender m
    → (is_set m.recipient || is_set m.group_id) ≡ true
some_target sender m a = ground (arith, a.target)

-- The row of a request is to be had from the time of its insert on, unless it is locked or overdue.
new-available :
    (sender : Text) (ee : Enqueue.Env) (m : CreateMessage) (refs : List Attachment) (row : Row)
    (now : ℕ) (locked : ℕ → Bool)
    → IsRowOf sender ee m refs row
    → ee.db_now ≤ now
    → in_time now (ts_tz (timeout_at_of ee.clock m.timeout_seconds)) ≡ true
    → locked row.id ≡ false
    → is_available now locked row ≡ true
unfolding is_eligible
new-available sender ee m refs row now locked o le t l =
    ground (arith, o.live.0, o.due.0, o.due.2, in_deadline)
  where
    in_deadline : in_time now row.timeout_at ≡ true
    in_deadline = ap (in_time now) o.deadline ∙ t

-- The verdict on the claimed row of a request without attachments.
row_verdict :
    (c : Config) (e : Env) (sender : Text) (ee : Enqueue.Env) (m : CreateMessage)
    (refs : List Attachment) (row : Row) (w : World)
    → IsRowOf sender ee m refs row
    → refs ≡ []
    → is_set (some c.account) ≡ true
    → IsAcceptable sender m
    → verdict c e (claimed_row c e row).message w ≡ e.reply
unfolding claim_row
row_verdict c e sender ee m refs row w o none_stored acc a =
    verdict-text c e (claimed_row c e row).message w (o.body.1 ∙ none_stored) acc
      (ap (λ t. is_set (some t)) o.body.0 ∙ not_blank m.content a.content)
      (ap (λ t. is_set t || is_set row.group_id) o.target.0
        ∙ ap (λ t. is_set m.recipient || is_set t) o.target.1
        ∙ some_target sender m a)
      (ap is_set o.live.1 ∙ unfold is_set in refl)

-- A request without attachments that is enqueued anew is delivered by the tick that comes after it:
-- where the worker finds no other row to claim, the request's deadline has not passed, its row is not
-- locked, the links hold, the account is set, the ceiling of the backoff is below 2^53 and the daemon
-- answers with a timestamp, the tick leaves the row of the request SENT with that timestamp.
pub enqueue_delivers :
    (c : Config) (e : Env) (sender : Text) (ee : Enqueue.Env) (m : CreateMessage) (s s' : State)
    (r : EnqueueResult) (w : World) (ts : ℤ)
    → enqueue sender ee m none s ≡ (ok r, s')
    → r.idempotent ≡ false
    → w.table ≡ s'.table
    → ((q : Row) → Memᴰ q s.table → is_available e.db_now e.locked q ≡ false)
    → ee.db_now ≤ e.db_now
    → in_time e.db_now (ts_tz (timeout_at_of ee.clock m.timeout_seconds)) ≡ true
    → e.locked r.id ≡ false
    → e.claim_link ≡ up
    → ((n : Message) → IsConnected c e n)
    → is_set (some c.account) ≡ true
    → c.max_backoff < 2 ^ 53
    → e.reply ≡ ok ts
    → (row : Row) × Memᴰ row (tick c e w).1.table
      × (row.id ≡ r.id)
      × (row.status ≡ sent)
      × (row.result_id ≡ some (format_int ts))
enqueue_delivers c e sender ee m s s' r w ts h fresh wt none_else le t l link con acc b reply =
    let (refs, row, u, _, added, o, names) = enqueue_inserts sender ee m none s s' r h fresh in
    let a : IsAcceptable sender m =
      (validate_iff sender m).0 (enqueue_valid sender ee m none s s' r h) in
    let av : is_available e.db_now e.locked row ≡ true =
      new-available sender ee m refs row e.db_now e.locked o le t (ap e.locked (sym names) ∙ l) in
    let k : IsClaimed c e (row ∷ s.table) row = claims_only c e s.table row link av (only row av) in
    let n = (claimed_row c e row).message in
    let (q, d) = tick_settles c e w s.table row (wt ∙ added) k (con n) b in
    let v = row_verdict c e sender ee m refs row (counted c e w) o u acc a in
    let (st, res) = subst (λ x. Ends c e n x q) (v ∙ reply) d.ends in
    (q, d.stands, d.names ∙ sym names, st, res)
  where
    only :
        (row : Row)
        → is_available e.db_now e.locked row ≡ true
        → (q : Row) → Memᴰ q (row ∷ s.table)
        → is_available e.db_now e.locked q ≡ true
        → q ≡ row
    only row av q (Memᴰ.head x) v = x
    only row av q (Memᴰ.tail i) v = absurd (ground (arith, none_else q i))
