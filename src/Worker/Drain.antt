-- ===== src/Worker/Drain.antt =====
-- tick and the drain loop of internal/worker/worker.go.
use mathlib.Core.Option.{some-injective}
use go_signalium.Base.{
  ℕ, zero, suc, ◌+◌, ◌≤◌, ◌<◌, ◌≡◌, refl, sym, ap, ◌∙◌, ◌⊎◌, inl, inr, Bool, true, false, ◌&&◌,
  arith, Option, none, some, ◌∷◌, if◌then◌else◌, if_elim, Memᴰ, map, count, ==_refl,
}
use go_signalium.Domain.{Message, Err, Result, ok, err}
use go_signalium.Repo.{
  Row, Table, is_live, is_claimable, is_eligible, has_id, update_where, claim_row, sent_row,
  failed_row,
}
use go_signalium.Repo
use go_signalium.Repo.Claim.{claim_pending_lem}
use go_signalium.Repo.Updates.{count-update_where-le, count-update_where-lt}
use go_signalium.Repo.Messages.{Link, up, down, lost, interval_from_duration, write, one}
use go_signalium.Repo.Messages
use go_signalium.Worker.{Config, Env, World, count_in, tick, drain, dispatch}
use go_signalium.Signal.Params.{SendParams, build_send_params-IsFaithful}
use go_signalium.Worker.Reports.{Accepts, nothing, dispatch-Accepts}
use go_signalium.Worker.Reports
use go_signalium.Worker.Dispatch.{Written, untouched, as_sent, as_failed, dispatch-Written}

-- The row may be claimed by the time T, if it is due.
unfoldable pub is_ready : ℕ → Row → Bool
is_ready T r = is_live r && is_claimable T r.status r.next_attempt_at

eligible-is_ready : (now T : ℕ) (r : Row) → now ≤ T → is_eligible now r ≡ true → is_ready T r ≡ true
unfolding is_eligible is_ready
eligible-is_ready now T r le h = ground arith

claimed-not-ready :
    (now lease T : ℕ) (r : Row) → T ≤ now + lease → is_ready T (claim_row now lease r) ≡ false
unfolding is_ready claim_row
claimed-not-ready now lease T r le = ground arith

Written-count :
    (c : Config) (e : Env) (m : Message) (T : ℕ) (t t' : Table)
    → Written c e m t t'
    → count (is_ready T) t' ≤ count (is_ready T) t
unfolding is_ready sent_row failed_row
Written-count c e m T t t' (untouched h) = rw h (omega arith)
Written-count c e m T t t' (as_sent ts h) =
    rw h (
      count-update_where-le (is_ready T) (has_id m.id) (sent_row e.db_now _) (λ r _. ground arith)
        t)
Written-count c e m T t t' (as_failed x h) = rw h (
    count-update_where-le (is_ready T) (has_id m.id) (failed_row e.db_now _ _) (λ r _. ground arith)
      t)

claim_ok :
    (link : Link) (o : Option Row) (t t' : Table) (m : Message)
    → (write link t (one o, t')).0 ≡ ok m
    → (r : Row) × (o ≡ some r) × (m ≡ r.message) × ((write link t (one o, t')).1 ≡ t')
claim_ok up none t t' m h = absurd (ground arith)
claim_ok up (some r) t t' m h = (r, refl, ground arith, refl)
claim_ok down o t t' m h = absurd (ground arith)
claim_ok lost o t t' m h = absurd (ground arith)

-- What a claim that came back says of the table.
pub record Took (c : Config) (e : Env) (t : Table) (m : Message) (t' : Table) (r : Row)
    : Type 0 where
  pub eligible : is_eligible e.db_now r ≡ true
  pub unlocked : e.locked r.id ≡ false
  pub stood : Memᴰ r t
  pub message : m ≡ (claim_row e.db_now (interval_from_duration c.lease_duration) r).message
  pub written :
      t'
      ≡ update_where (has_id r.id) (claim_row e.db_now (interval_from_duration c.lease_duration)) t

pub took :
    (c : Config) (e : Env) (t : Table) (m : Message)
    → (Messages.claim_pending e.claim_link e.db_now c.lease_duration e.locked t).0 ≡ ok m
    → (r : Row) × Took c e t m
        (Messages.claim_pending e.claim_link e.db_now c.lease_duration e.locked t).1
        r
unfolding Messages.claim_pending
took c e t m h =
    let lease = interval_from_duration c.lease_duration in
    let (s, hs, hm, ht) =
      claim_ok e.claim_link (Repo.claim_pending e.db_now lease e.locked t).0 t
        (Repo.claim_pending e.db_now lease e.locked t).1 m h in
    elim (claim_pending_lem e.db_now lease e.locked t) [
      | inl n ↦ absurd (ground (arith, n.nothing))
      | inr (r, k) ↦ (
        r,
        record {
          eligible = k.eligible;
          unlocked = k.unlocked;
          stood = k.stands;
          message = hm ∙ ap (λ (x : Row). x.message) (some-injective _ _ (sym hs ∙ k.returned));
          written = ht ∙ k.written;
        },
      )
    ]

pub Result-cases : (r : Result Message) → ((m : Message) × (r ≡ ok m)) ⊎ ((x : Err) × (r ≡ err x))
Result-cases (ok m) = inl (m, refl)
Result-cases (err x) = inr (x, refl)

abbrev pub claimed : Config → Env → World → Result Message × Table
claimed c e w = Messages.claim_pending e.claim_link e.db_now c.lease_duration e.locked w.table

abbrev pub counted : Config → Env → World → World
counted c e w =
    count_in (λ k. record k { claims = k.claims + 1 }) (record w { table = (claimed c e w).1 })

pub tick_ok :
    (c : Config) (e : Env) (w : World) (m : Message)
    → (claimed c e w).0 ≡ ok m
    → tick c e w ≡ (true, dispatch c e m (counted c e w))
unfolding tick
tick_ok c e w m h = rw (h, tick)

pub tick_err :
    (c : Config) (e : Env) (w : World) (x : Err)
    → (claimed c e w).0 ≡ err x
    → tick c e w ≡ (false, counted c e w)
unfolding tick
tick_err c e w x h = rw (h, tick)

Took-lowers :
    (c : Config) (e : Env) (T : ℕ) (t t' : Table) (m : Message) (r : Row)
    → e.db_now ≤ T
    → T ≤ e.db_now + interval_from_duration c.lease_duration
    → Took c e t m t' r
    → count (is_ready T) t' < count (is_ready T) t
Took-lowers c e T t t' m r le ge k = rw k.written (
    count-update_where-lt (is_ready T) (has_id r.id)
      (claim_row e.db_now (interval_from_duration c.lease_duration))
      (λ s _. claimed-not-ready e.db_now (interval_from_duration c.lease_duration) T s ge) r t
      k.stood (==_refl r.id) (eligible-is_ready e.db_now T r le k.eligible))

-- A tick that claims leaves fewer rows ready by a time within its lease.
tick_lowers :
    (c : Config) (e : Env) (T : ℕ) (w : World)
    → e.db_now ≤ T
    → T ≤ e.db_now + interval_from_duration c.lease_duration
    → (tick c e w).0 ≡ true
    → count (is_ready T) (tick c e w).1.table < count (is_ready T) w.table
tick_lowers c e T w le ge h = elim (Result-cases (claimed c e w).0) [
  | inr (x, q) ↦ absurd (ground (arith, tick_err c e w x q))
  | inl (m, q) ↦
      let (r, k) = took c e w.table m q in
      rw (tick_ok c e w m q) (
        omega (
          arith,
          Took-lowers c e T w.table (claimed c e w).1 m r le ge k,
          Written-count c e m T (claimed c e w).1 (dispatch c e m (counted c e w)).table
              (dispatch-Written c e m (counted c e w)),
        ))
]

-- A drain ends after at most as many ticks as rows are ready, and one more, if its ticks fall within
-- one lease: T is no earlier than any of them and no later than the end of the lease that each writes.
pub drain_ends :
    (fuel : ℕ) (c : Config) (envs : ℕ → Env) (cancelled : ℕ → Bool) (i T : ℕ) (w : World)
    → ((j : ℕ)
        → ((envs j).db_now ≤ T) × (T ≤ (envs j).db_now + interval_from_duration c.lease_duration))
    → count (is_ready T) w.table < fuel
    → (res : Bool × World) × (drain fuel c envs cancelled i w ≡ some res)
unfolding drain
drain_ends zero c envs cancelled i T w near h = absurd (omega arith)
drain_ends (suc fuel) c envs cancelled i T w near h =
    if_elim Ends (tick c (envs i) w).0
      (if cancelled i then some (true, after) else drain fuel c envs cancelled (i + 1) after)
      (some (false, after))
      (λ more.
        if_elim Ends (cancelled i) (some (true, after)) (drain fuel c envs cancelled (i + 1) after)
          (λ _. ((true, after), refl))
          (λ _.
            drain_ends fuel c envs cancelled (i + 1) T after near
              (omega (arith, tick_lowers c (envs i) T w (near i).0 (near i).1 more))))
      (λ _. ((false, after), refl))
  where
    after : World
    after = (tick c (envs i) w).1

    Ends : Option (Bool × World) → Type 0
    Ends o = (res : Bool × World) × (o ≡ some res)

-- The daemon is given a message only by a tick that claimed its row while the row was live, due, not
-- leased to another claim and within its deadline: otherwise the frames stay as they are.
pub tick_sends_eligible :
    (c : Config) (e : Env) (w : World)
    → ((tick c e w).1.frames ≡ w.frames)
      ⊎ ((r : Row) × (p : SendParams) × Memᴰ r w.table
          × (is_eligible e.db_now r ≡ true)
          × (e.locked r.id ≡ false)
          × ((tick c e w).1.frames ≡ p ∷ w.frames)
          × (p.message ≡ r.content))
tick_sends_eligible c e w = elim (Result-cases (claimed c e w).0) [
  | inr (x, q) ↦ inl (rw (tick_err c e w x q))
  | inl (m, q) ↦
      let (r, k) = took c e w.table m q in
      rw (tick_ok c e w m q) (sends m r k (dispatch-Accepts c e m (counted c e w)))
]
  where
    sends :
        (m : Message) (r : Row)
        → Took c e w.table m (claimed c e w).1 r
        → Accepts c e m (counted c e w) (dispatch c e m (counted c e w)).frames
        → ((dispatch c e m (counted c e w)).frames ≡ w.frames)
          ⊎ ((r : Row) × (p : SendParams) × Memᴰ r w.table
              × (is_eligible e.db_now r ≡ true)
              × (e.locked r.id ≡ false)
              × ((dispatch c e m (counted c e w)).frames ≡ p ∷ w.frames)
              × (p.message ≡ r.content))
    sends m r k (nothing h) = inl h
    sends m r k (Reports.one paths p d b h) = inr (
      r,
      p,
      k.stood,
      k.eligible,
      k.unlocked,
      h,
      (build_send_params-IsFaithful c.account m (map e.local_path paths) p b).body.0
          ∙ unfold claim_row in (ap (λ (n : Message). n.content) k.message),
    )
