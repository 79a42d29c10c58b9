-- ===== src/Server/Lifecycle.antt =====
-- The background goroutines that fx starts and stops: internal/worker/worker.go (RegisterLifecycle, Run,
-- runSingle, runConcurrent), internal/worker/cleanup.go, internal/worker/timeout_reaper.go and
-- internal/service/inbound_listener.go (Start, Stop, run). They have one shape: Start launches loops
-- that wait for a timer, an event or the cancellation; Stop cancels and waits for them up to a deadline.
pub mod Sound
pub mod Stopping
pub mod Draining
use go_signalium.Base.{ℕ, List, ◌+◌, Bool, true, false, ◌≡◌, ltb, ◌==◌, if◌then◌else◌}
use go_signalium.Base.Text.{Text}
use go_signalium.Base.Int.{ℤ}
use go_signalium.Worker.Pace.{goroutines_of}
use go_signalium.Worker.Sweeper

-- A kind of background work: whether Start launches it, in how many goroutines, whether its body runs
-- once on boot, whether its source of events can end it, and whether a body that finds the context
-- cancelled ends its goroutine.
pub record Job : Type 0 where
  pub enabled : Bool
  pub goroutines : ℕ
  pub on_boot : Bool
  pub can_close : Bool
  pub leaves_early : Bool

unfoldable pub worker_job : ℤ → Job
unfolding goroutines_of
worker_job concurrency = record {
  enabled = true;
  goroutines = goroutines_of concurrency;
  on_boot = false;
  can_close = false;
  leaves_early = true;
}

unfoldable pub cleanup_job : Bool → List Text → ℕ → Job
unfolding Sweeper.enabled
cleanup_job on directories ttl = record {
  enabled = Sweeper.enabled on directories ttl;
  goroutines = 1;
  on_boot = true;
  can_close = false;
  leaves_early = false;
}

unfoldable pub reaper_job : Bool → Job
reaper_job enabled = record {
  enabled = enabled;
  goroutines = 1;
  on_boot = true;
  can_close = false;
  leaves_early = false;
}

unfoldable pub listener_job : Bool → Job
listener_job enabled = record {
  enabled = enabled;
  goroutines = 1;
  on_boot = false;
  can_close = true;
  leaves_early = false;
}

-- A goroutine was spawned and has not run yet, runs its body, waits in its select, or is not there.
pub data Thread : Type 0 where
  spawned working selecting returned : Thread

-- What was called: nothing, Start with the work disabled, Start, Stop that still waits, Stop that
-- returned nil, Stop that returned its context's error.
pub data Phase : Type 0 where
  fresh off live draining drained gave_up : Phase

pub record Life : Type 0 where
  pub phase : Phase
  pub thread : ℕ → Thread
  pub runs : ℕ

unfoldable pub newborn : Life
newborn = record { phase = fresh; thread = λ k. returned; runs = 0 }

-- The context of the loops is cancelled.
abbrev pub is_cancelled : Phase → Bool
is_cancelled fresh = false
is_cancelled off = false
is_cancelled live = false
is_cancelled draining = true
is_cancelled drained = true
is_cancelled gave_up = true

abbrev pub becomes : ℕ → Thread → (ℕ → Thread) → ℕ → Thread
becomes k x threads j = if j == k then x else threads j

-- Start spawns the goroutines and returns.
unfoldable pub launch : Job → Life → Life
launch j s =
    if j.enabled
    then record s { phase = live; thread = λ k. if ltb k j.goroutines then spawned else returned }
    else record s { phase = off }

abbrev pub begun : Job → Thread
begun j = if j.on_boot then working else selecting

-- A select with several cases ready takes any of them: a timer may win over the cancellation. fx calls
-- Start once; Stop may come before it, which changes nothing, and more than once.
pub data Step (j : Job) : Life → Life → Type 0 where
  starts : (s : Life) → s.phase ≡ fresh → Step j s (launch j s)
  begins :
      (s : Life) (k : ℕ)
      → s.thread k ≡ spawned
      → Step j s (record s {
        thread = becomes k (begun j) s.thread;
        runs = if j.on_boot then s.runs + 1 else s.runs;
      })
  fires :
      (s : Life) (k : ℕ)
      → s.thread k ≡ selecting
      → Step j s (record s { thread = becomes k working s.thread; runs = s.runs + 1 })
  ends :
      (s : Life) (k : ℕ)
      → s.thread k ≡ working
      → Step j s (record s { thread = becomes k selecting s.thread })
  sees_cancel :
      (s : Life) (k : ℕ)
      → s.thread k ≡ selecting
      → is_cancelled s.phase ≡ true
      → Step j s (record s { thread = becomes k returned s.thread })
  leaves :
      (s : Life) (k : ℕ)
      → j.leaves_early ≡ true
      → s.thread k ≡ working
      → is_cancelled s.phase ≡ true
      → Step j s (record s { thread = becomes k returned s.thread })
  closes :
      (s : Life) (k : ℕ)
      → j.can_close ≡ true
      → s.thread k ≡ selecting
      → Step j s (record s { thread = becomes k returned s.thread })
  stops : (s : Life) → s.phase ≡ live → Step j s (record s { phase = draining })
  stops_off : (s : Life) → s.phase ≡ off → Step j s (record s { phase = drained })
  drains :
      (s : Life)
      → s.phase ≡ draining
      → ((k : ℕ) → s.thread k ≡ returned)
      → Step j s (record s { phase = drained })
  gives_up : (s : Life) → s.phase ≡ draining → Step j s (record s { phase = gave_up })
  stops_early : (s : Life) → s.phase ≡ fresh → Step j s s
  stops_again : (s : Life) → s.phase ≡ drained → Step j s s
  waits_again : (s : Life) → s.phase ≡ gave_up → Step j s (record s { phase = draining })

pub data Reach (j : Job) (s : Life) : Life → Type 0 where
  here : Reach j s s
  next : {t u : Life} → Reach j s t → Step j t u → Reach j s u
