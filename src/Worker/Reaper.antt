-- ===== src/Worker/Reaper.antt =====
-- internal/worker/timeout_reaper.go: one tick of the reaper, over the table and the metrics of
-- internal/metrics/outbox.go that it moves.
use mathlib.Core.Path.{subst}
use go_signalium.Repo.Stats.Age.{is_waiting, count-is_waiting, Sampled, oldest_of-OldestAge}
use go_signalium.Base.{
  ℕ, ◌+◌, ◌≡◌, ◌∙◌, refl, ap, Bool, true, false, ◌&&◌, not, ltb, if◌then◌else◌, [], ◌∷◌, count,
  arith,
}
use go_signalium.Base.Int.{ℤ}
use go_signalium.Domain.{Result, ok, err}
use go_signalium.Repo.{Row, Table, is_overdue, update_where, timed_out_row}
use go_signalium.Repo
use go_signalium.Repo.Messages.{Link, up, down, lost}
use go_signalium.Repo.Messages
use go_signalium.Repo.Stats.{Backlog, backlog_stats}
use go_signalium.Repo.Sweeps.{mark_timed_out_lem}
use go_signalium.Worker.Loop.{is_up}

-- The counter of TIMED_OUT rows, and the two gauges of the backlog.
pub record Gauges : Type 0 where
  pub timed_out : ℕ
  pub depth : ℕ
  pub oldest_age : ℤ

-- IncTerminalN(StatusTimedOut, n)
abbrev pub inc_timed_out : ℕ → Gauges → Gauges
inc_timed_out n g = if ltb 0 n then record g { timed_out = g.timed_out + n } else g

-- SetBacklog
abbrev pub set_backlog : Backlog → Gauges → Gauges
set_backlog b g = record g { depth = b.depth; oldest_age = b.oldest }

-- reap: two round trips, at the database's times `now` and `later`.
abbrev sweep_gauges : Result ℕ → Gauges → Gauges
sweep_gauges (err x) g = g
sweep_gauges (ok n) g = if ltb 0 n then inc_timed_out n g else g

abbrev sample_gauges : Result Backlog → Gauges → Gauges
sample_gauges (err x) g = g
sample_gauges (ok b) g = set_backlog b g

unfoldable pub reap : Link → Link → ℕ → ℕ → Table × Gauges → Table × Gauges
reap link link' now later (t, g) =
    let (r, t') = Messages.mark_timed_out link now t in
    (t', sample_gauges (backlog_stats link' later t') (sweep_gauges r g))

abbrev pub is_down : Link → Bool
is_down up = false
is_down down = true
is_down lost = false

-- The rows that still wait for their delivery after a sweep at `now`.
abbrev pub waits : ℕ → Row → Bool
waits now r = is_waiting r && not (is_overdue now r)

count-swept :
    (now : ℕ) (t : Table)
    → count is_waiting (update_where (is_overdue now) (timed_out_row now) t) ≡ count (waits now) t
unfolding count update_where timed_out_row
count-swept now [] = refl
count-swept now (r ∷ rs) = ground (arith, count-swept now rs)

abbrev swept : ℕ → Table → Table
swept now t = update_where (is_overdue now) (timed_out_row now) t

module _ (later : ℕ) (t : Table) (g : Gauges) where
  sample-timed_out :
      (l : Link) → (sample_gauges (backlog_stats l later t) g).timed_out ≡ g.timed_out
  unfolding backlog_stats
  sample-timed_out up = refl
  sample-timed_out down = refl
  sample-timed_out lost = refl

  sample-depth :
      (l : Link)
      → (sample_gauges (backlog_stats l later t) g).depth
        ≡ (if is_up l then count is_waiting t else g.depth)
  unfolding backlog_stats
  sample-depth up = count-is_waiting t
  sample-depth down = refl
  sample-depth lost = refl

  sample-Sampled :
      (l : Link)
      → Sampled l later t g.oldest_age (sample_gauges (backlog_stats l later t) g).oldest_age
  unfolding backlog_stats
  sample-Sampled up = oldest_of-OldestAge later t
  sample-Sampled down = refl
  sample-Sampled lost = refl

-- The counter of a sweep leaves the gauge of the age alone.
sweep-oldest_age : (r : Result ℕ) (g : Gauges) → (sweep_gauges r g).oldest_age ≡ g.oldest_age
sweep-oldest_age (err x) g = refl
sweep-oldest_age (ok n) g = ground arith

-- What a tick leaves, by the links of its two round trips.
pub record Reaped (link link' : Link) (now later : ℕ) (t : Table) (g : Gauges) (t' : Table)
    (g' : Gauges) : Type 0 where
  pub table : t' ≡ (if is_down link then t else (Repo.mark_timed_out now t).1)
  pub overdue : count (is_overdue now) t' ≡ (if is_down link then count (is_overdue now) t else 0)
  pub counted : g'.timed_out ≡ g.timed_out + (if is_up link then count (is_overdue now) t else 0)
  pub depth : g'.depth ≡ (
      if is_up link'
      then (if is_down link then count is_waiting t else count (waits now) t)
      else g.depth)
  pub age : Sampled link' later t' g.oldest_age g'.oldest_age

-- A tick's two steps are independent: the sweep leaves no row overdue where its statement ran, the
-- counter grows by the rows flipped where the answer arrived, and the gauges are, where their sample
-- arrived, the number of PENDING and FAILED rows that the sweep left and the age in whole seconds of the
-- one of them that was created first, or 0, and as they were where it did not, whatever became of the
-- other step.
pub reap_lem :
    (link link' : Link) (now later : ℕ) (t : Table) (g : Gauges)
    → let (t', g') = reap link link' now later (t, g) in Reaped link link' now later t g t' g'
unfolding reap Messages.mark_timed_out Repo.mark_timed_out
reap_lem up link' now later t g = record {
  table = refl;
  overdue = (mark_timed_out_lem now t).none_left;
  counted =
      sample-timed_out later (swept now t) (sweep_gauges (ok (count (is_overdue now) t)) g) link'
      ∙ ground arith;
  depth =
      sample-depth later (swept now t) (sweep_gauges (ok (count (is_overdue now) t)) g) link'
      ∙ ap (λ n. if is_up link' then n else (sweep_gauges (ok (count (is_overdue now) t)) g).depth)
          (count-swept now t)
      ∙ ground arith;
  age =
      subst
        (λ a.
          Sampled link' later (swept now t) a
            (sample_gauges (backlog_stats link' later (swept now t))
              (sweep_gauges (ok (count (is_overdue now) t)) g)).oldest_age)
        (sweep-oldest_age (ok (count (is_overdue now) t)) g)
        (sample-Sampled later (swept now t) (sweep_gauges (ok (count (is_overdue now) t)) g) link');
}
reap_lem down link' now later t g = record {
  table = refl;
  overdue = refl;
  counted = sample-timed_out later t g link' ∙ omega arith;
  depth = sample-depth later t g link';
  age = sample-Sampled later t g link';
}
reap_lem lost link' now later t g = record {
  table = refl;
  overdue = (mark_timed_out_lem now t).none_left;
  counted = sample-timed_out later (swept now t) g link' ∙ omega arith;
  depth =
      sample-depth later (swept now t) g link'
      ∙ ap (λ n. if is_up link' then n else g.depth) (count-swept now t);
  age = sample-Sampled later (swept now t) g link';
}
