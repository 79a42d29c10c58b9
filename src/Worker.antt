-- ===== src/Worker.antt =====
-- internal/worker/worker.go: one claim, its dispatch, and the drain loop, over the state that they
-- change. What the outside answers during a dispatch is an `Env`.
pub mod Loop
pub mod Dispatch
pub mod Reports
pub mod Drain
pub mod Tidy
pub mod Reaper
pub mod Sweeper
pub mod Pace
pub mod Delivery
use go_signalium.Base.{
  ℕ, zero, suc, ◌+◌, ◌/◌, Bool, true, false, ◌&&◌, Option, none, some, List, [], ◌∷◌, map, ltb,
  ◌==◌, not, if◌then◌else◌, select,
}
use go_signalium.Base.Text.{Text}
use go_signalium.Base.Int.{ℤ}
use go_signalium.Base.Decimal.{format_int}
use go_signalium.Domain.{Message, Attachment, Err, Result, ok, err}
use go_signalium.Repo.{Table, is_exhausted}
use go_signalium.Repo.Messages.{Link}
use go_signalium.Repo.Messages
use go_signalium.Service.Backoff.{Float64, backoff}
use go_signalium.Service.Slack.{SlackConfig, Post, is_enabled, notify_permanent_failure}
use go_signalium.Storage.{ObjectRef}
use go_signalium.Storage.Download.{LocalPath, Disk, download_all, cleanup_local}
use go_signalium.Storage.Download
use go_signalium.Signal.Params.{SendParams, build_send_params}

-- WorkerConfig, in nanoseconds, with the account and the notifier's configuration.
pub record Config : Type 0 where
  pub lease_duration : ℕ
  pub base_backoff : ℕ
  pub max_backoff : ℕ
  pub account : Text
  pub slack : SlackConfig

-- The counters of internal/metrics/outbox.go that the worker moves.
pub record Counters : Type 0 where
  pub claims : ℕ
  pub sends_ok : ℕ
  pub sends_failed : ℕ
  pub sent : ℕ
  pub permanent_failed : ℕ
  pub retries : ℕ

-- `frames` are the sends that the daemon accepted, and `local` the files below the temporary directory.
pub record World : Type 0 where
  pub table : Table
  pub counters : Counters
  pub posts : List Post
  pub frames : List SendParams
  pub local : Disk

-- `db_now` is the database's time in microseconds, `clock` the worker's in nanoseconds. The daemon may
-- accept a frame and not answer. `directory` is the text of an id, and `local_path` of a path. `sent_link`, `ctx_done` and `slept` are asked at each try of MarkSent.
pub record Env : Type 0 where
  pub float : Float64
  pub draw : ℕ
  pub db_now : ℕ
  pub clock : ℕ
  pub locked : ℕ → Bool
  pub claim_link : Link
  pub disk : Download.Env
  pub directory : ℕ → Text
  pub local_path : LocalPath → Text
  pub accepted : Bool
  pub reply : Result ℤ
  pub sent_link : ℕ → Link
  pub ctx_done : ℕ → Bool
  pub slept : ℕ → Bool
  pub fail_link : Link
  pub message_of : Err → Text

abbrev pub count_in : (Counters → Counters) → World → World
count_in f w = record w { counters = f w.counters }

-- toRefs
abbrev pub to_refs : List Attachment → List ObjectRef
to_refs = map λ a. record { bucket = a.bucket; key = a.filename }

-- markSent: `tries` are left, `i` were made, and `last` is the error of the one before.
unfoldable pub mark_sent_loop : ℕ → ℕ → Err → Env → ℕ → Text → Table → Result (Unit {0}) × Table
mark_sent_loop zero i last e id result_id t = (err last, t)
mark_sent_loop (suc tries) i last e id result_id t =
    let (r, t') = Messages.mark_sent (e.sent_link i) e.db_now id result_id t in
    elim r [
      | ok _ ↦ (ok tt, t')
      | err x ↦
          let again = mark_sent_loop tries (i + 1) x e id result_id t' in
          if e.ctx_done i
          then (err x, t')
          else if ltb i 2 && not (e.slept i)
          then (err x, t')
          else again
    ]

unfoldable pub mark_sent : Env → ℕ → Text → Table → Result (Unit {0}) × Table
unfolding mark_sent_loop
mark_sent e id result_id t = mark_sent_loop 3 0 Err.unavailable e id result_id t

-- The time that `fail` writes, in the database's microseconds.
unfoldable pub next_attempt : Config → Env → Message → ℕ
next_attempt c e m =
    (e.clock + backoff e.float e.draw m.attempts c.base_backoff c.max_backoff) / 1000

-- fail, past a successful MarkFailed
unfoldable pub report_permanent : Config → Message → World → World
report_permanent c m w =
    if is_enabled c.slack
    then record w { posts = notify_permanent_failure c.slack m.id w.posts }
    else w

unfoldable pub report_failure : Config → Message → World → World
unfolding report_permanent
report_failure c m w =
    if is_exhausted m
    then report_permanent c m
        (count_in (λ k. record k { permanent_failed = k.permanent_failed + 1 }) w)
    else (count_in (λ k. record k { retries = k.retries + 1 }) w)

unfoldable pub fail : Config → Env → Message → Err → World → World
fail c e m cause w =
    let (r, t') =
      Messages.mark_failed e.fail_link e.db_now m.id (e.message_of cause) (next_attempt c e m)
        w.table in
    elim r [ ok _ ↦ report_failure c m (record w { table = t' }) | err x ↦ record w { table = t' } ]

-- dispatch, past the answer of the daemon
unfoldable pub settle : Config → Env → Message → Result ℤ → World → World
settle c e m (err x) w =
    fail c e m x (count_in (λ k. record k { sends_failed = k.sends_failed + 1 }) w)
settle c e m (ok ts) w =
    let w' = count_in (λ k. record k { sends_ok = k.sends_ok + 1 }) w in
    let (r, t') = mark_sent e m.id (format_int ts) w'.table in
    elim r [
      | ok _ ↦ count_in (λ k. record k { sent = k.sent + 1 }) (record w' { table = t' })
      | err x ↦ record w' { table = t' }
    ]

unfoldable pub send : Config → Env → Message → Result SendParams → World → World
send c e m (err x) w = fail c e m x w
send c e m (ok p) w =
    settle c e m e.reply (if e.accepted then record w { frames = p ∷ w.frames } else w)

-- dispatch, past the download. The deferred CleanupLocal runs after whatever follows.
unfoldable pub after_download :
    Config → Env → Message → Result (List LocalPath) × Disk → World → World
after_download c e m (err x, d) w = fail c e m x (record w { local = d })
after_download c e m (ok paths, d) w =
    let w' =
      send c e m (build_send_params c.account m (map e.local_path paths))
        (record w { local = d }) in
    record w' { local = cleanup_local e.disk (e.directory m.id) w'.local }

unfoldable pub dispatch : Config → Env → Message → World → World
dispatch c e m w =
    after_download c e m (download_all e.disk (e.directory m.id) (to_refs m.attachments) w.local) w

-- tick: true where a row was claimed.
unfoldable pub tick : Config → Env → World → Bool × World
tick c e w =
    let (r, t') = Messages.claim_pending e.claim_link e.db_now c.lease_duration e.locked w.table in
    let w' = count_in (λ k. record k { claims = k.claims + 1 }) (record w { table = t' }) in
    elim r [ ok m ↦ (true, dispatch c e m w') | err x ↦ (false, w') ]

-- The inner loop of runSingle, and the body of its case of the timer: whether the goroutine returns,
-- and the state. `none` where the fuel ran out.
unfoldable pub drain : ℕ → Config → (ℕ → Env) → (ℕ → Bool) → ℕ → World → Option (Bool × World)
drain zero c envs cancelled i w = none
drain (suc fuel) c envs cancelled i w =
    let (claimed, w') = tick c (envs i) w in
    let rest = drain fuel c envs cancelled (i + 1) w' in
    if claimed then (if cancelled i then some (true, w') else rest) else some (false, w')

unfoldable pub on_timer : ℕ → Config → (ℕ → Env) → (ℕ → Bool) → World → Option (Bool × World)
on_timer fuel c envs cancelled w =
    let (claimed, w') = tick c (envs 0) w in
    if claimed then drain fuel c envs cancelled 1 w' else some (false, w')
