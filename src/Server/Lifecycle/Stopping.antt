-- ===== src/Server/Lifecycle/Stopping.antt =====
-- What Start and Stop promise of the background goroutines.
use go_signalium.Base.{◌<◌, ◌⊎◌, ℕ, ◌≤◌, ◌≡◌, refl, ◌∙◌, ap, true, false, arith, inl, inr}
use go_signalium.Server.Lifecycle.{
  Job, spawned, begins, returned, drained, Life, newborn, Step, starts, fires, ends, sees_cancel,
  leaves, closes, stops, stops_off, drains, gives_up, stops_early, stops_again, waits_again, Reach,
  here, next,
}
use go_signalium.Server.Lifecycle.Sound.{IsSound, newborn-IsSound, Reach-IsSound}

module _ (j : Job) where
  -- There are no goroutines but those that were launched.
  pub Reach-bounded :
      {s : Life} → Reach j newborn s → (k : ℕ) → j.goroutines ≤ k → s.thread k ≡ returned
  Reach-bounded r = (Reach-IsSound j (newborn-IsSound j) r).bounded

  -- Nothing happens after Stop returned nil.
  at_rest : {s t : Life} → s.phase ≡ drained → IsSound j s → Step j s t → t ≡ s
  at_rest p v (starts s q) = absurd (ground arith)
  at_rest p v (begins s k e) = absurd (ground (arith, v.quiet (rw p refl) k))
  at_rest p v (fires s k e) = absurd (ground (arith, v.quiet (rw p refl) k))
  at_rest p v (ends s k e) = absurd (ground (arith, v.quiet (rw p refl) k))
  at_rest p v (sees_cancel s k e c) = absurd (ground (arith, v.quiet (rw p refl) k))
  at_rest p v (leaves s k l e c) = absurd (ground (arith, v.quiet (rw p refl) k))
  at_rest p v (closes s k c e) = absurd (ground (arith, v.quiet (rw p refl) k))
  at_rest p v (stops s q) = absurd (ground arith)
  at_rest p v (stops_off s q) = absurd (ground arith)
  at_rest p v (drains s q all) = absurd (ground arith)
  at_rest p v (gives_up s q) = absurd (ground arith)
  at_rest p v (stops_early s q) = refl
  at_rest p v (stops_again s q) = refl
  at_rest p v (waits_again s q) = absurd (ground arith)

  stays : {s t : Life} → s.phase ≡ drained → IsSound j s → Reach j s t → t ≡ s
  stays p v here = refl
  stays {s} p v (next {t} r st) =
      let e = stays p v r in at_rest (ap (λ (x : Life). x.phase) e ∙ p) (Reach-IsSound j v r) st ∙ e

  -- What holds of a job at any time.
  pub record Promises (s : Life) : Type 0 where
    pub disabled : j.enabled ≡ false → s.runs ≡ 0
    pub stopped : s.phase ≡ drained → (k : ℕ) → s.thread k ≡ returned
    pub booted :
        s.phase ≡ drained → j.enabled ≡ true → j.on_boot ≡ true → 0 < j.goroutines → 1 ≤ s.runs
    pub final : s.phase ≡ drained → (t : Life) → Reach j s t → t ≡ s

  -- Start being called once, whatever timers, events and calls of Stop come in whatever order: work that
  -- is disabled never runs; once a Stop after it returned nil no goroutine is left, so that no body runs
  -- any more and nothing changes; and work that runs on boot has by then run at least once, even where
  -- Stop came before its goroutine began.
  pub Reach-Promises : (s : Life) → Reach j newborn s → Promises s
  Reach-Promises s r =
      let v = Reach-IsSound j (newborn-IsSound j) r in
      record {
        disabled = v.idle;
        stopped = λ p. v.quiet (rw p refl);
        booted = λ p e o h. ran p (v.quiet (rw p refl) 0) (v.boots e o (rw p refl) 0 h);
        final = λ p t q. stays p v q;
      }
    where
      ran :
          s.phase ≡ drained
          → s.thread 0 ≡ returned
          → (s.thread 0 ≡ spawned) ⊎ (1 ≤ s.runs)
          → 1 ≤ s.runs
      ran p q (inl e) = absurd (ground arith)
      ran p q (inr e) = e
