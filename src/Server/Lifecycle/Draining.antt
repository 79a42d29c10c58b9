-- ===== src/Server/Lifecycle/Draining.antt =====
-- Stop of the background goroutines: the drain can always come to its end.
use mathlib.Core.Path.{subst}
use go_signalium.Base.{
  ◌+◌, if◌then◌else◌, ℕ, zero, suc, ◌<◌, ◌≡◌, refl, ◌∙◌, true, false, arith, ◌==◌, ==_refl, leb,
  Bool-cases, ◌⊎◌, inl, inr,
}
use go_signalium.Server.Lifecycle.Stopping.{Reach-bounded}
use go_signalium.Server.Lifecycle.{
  newborn, Job, Thread, spawned, begun, begins, working, selecting, returned, draining, drained,
  Life, becomes, ends, sees_cancel, drains, Reach, here, next,
}

module _ (j : Job) where
  Reach-trans : {s t u : Life} → Reach j s t → Reach j t u → Reach j s u
  Reach-trans r here = r
  Reach-trans r (next q st) = next (Reach-trans r q) st

  -- From a state that drains to one where more goroutines have returned.
  record Settles (s t : Life) : Type 0 where
    path : Reach j s t
    phase : t.phase ≡ draining
    kept : (k : ℕ) → s.thread k ≡ returned → t.thread k ≡ returned

  Settles-trans : {s t u : Life} → Settles s t → Settles t u → Settles s u
  Settles-trans a b = record {
    path = Reach-trans a.path b.path;
    phase = b.phase;
    kept = λ k h. b.kept k (a.kept k h);
  }

  becomes_self : (k : ℕ) (x : Thread) (f : ℕ → Thread) → becomes k x f k ≡ x
  becomes_self k x f = rw (==_refl k) refl

  becomes_keeps : (k i : ℕ) (f : ℕ → Thread) → f i ≡ returned → becomes k returned f i ≡ returned
  becomes_keeps k i f h = ground arith

  becomes_other :
      (k i : ℕ) (x : Thread) (f : ℕ → Thread)
      → (f k ≡ returned → ⊥)
      → f i ≡ returned
      → becomes k x f i ≡ returned
  becomes_other k i x f h e = elim (Bool-cases (i == k)) [
    | inl q ↦ let same : i ≡ k = ground arith in absurd (h (subst (λ y. f y ≡ returned) same e))
    | inr q ↦ rw q e
  ]

  -- A goroutine that waits sees the cancellation; one that works comes to its select first.
  leave_select :
      (s : Life) (k : ℕ)
      → s.phase ≡ draining
      → s.thread k ≡ selecting
      → (t : Life) × Settles s t × (t.thread k ≡ returned)
  leave_select s k p e = (
    record s { thread = becomes k returned s.thread },
    record {
      path = next here (sees_cancel s k e (rw p refl));
      phase = p;
      kept = λ i h. becomes_keeps k i s.thread h;
    },
    becomes_self k returned s.thread,
  )

  leave_work :
      (s : Life) (k : ℕ)
      → s.phase ≡ draining
      → s.thread k ≡ working
      → (t : Life) × Settles s t × (t.thread k ≡ returned)
  leave_work s k p e =
      let s' : Life = record s { thread = becomes k selecting s.thread } in
      let step : Settles s s' = record {
        path = next here (ends s k e);
        phase = p;
        kept = λ i h. becomes_other k i selecting s.thread (λ q. ground arith) h;
      } in
      let (t, q, h) = leave_select s' k p (becomes_self k selecting s.thread) in
      (t, Settles-trans step q, h)

  begin_first :
      (s : Life) (k : ℕ)
      → s.phase ≡ draining
      → s.thread k ≡ spawned
      → (t : Life) × Settles s t × (t.phase ≡ draining) × (t.thread k ≡ begun j)
  begin_first s k p e = (
    record s {
      thread = becomes k (begun j) s.thread;
      runs = if j.on_boot then s.runs + 1 else s.runs;
    },
    record {
      path = next here (begins s k e);
      phase = p;
      kept = λ i h. becomes_other k i (begun j) s.thread (λ q. ground arith) h;
    },
    p,
    becomes_self k (begun j) s.thread,
  )

  finish :
      (s : Life) (k : ℕ) (x : Thread)
      → s.phase ≡ draining
      → s.thread k ≡ x
      → (t : Life) × Settles s t × (t.thread k ≡ returned)
  finish s k spawned p e =
      let (t, a, q, b) = begin_first s k p e in
      let (u, c, h) = either t q b (Bool-cases j.on_boot) in (u, Settles-trans a c, h)
    where
      either :
          (t : Life)
          → t.phase ≡ draining
          → t.thread k ≡ begun j
          → (j.on_boot ≡ true) ⊎ (j.on_boot ≡ false)
          → (u : Life) × Settles t u × (u.thread k ≡ returned)
      either t q b (inl o) = leave_work t k q (b ∙ ground arith)
      either t q b (inr o) = leave_select t k q (b ∙ ground arith)
  finish s k working p e = leave_work s k p e
  finish s k selecting p e = leave_select s k p e
  finish s k returned p e = (s, record { path = here; phase = p; kept = λ i h. h }, e)

  finish_all :
      (s : Life) (n : ℕ)
      → s.phase ≡ draining
      → (t : Life) × Settles s t × ((k : ℕ) → k < n → t.thread k ≡ returned)
  finish_all s zero p =
      (s, record { path = here; phase = p; kept = λ i h. h }, λ k h. absurd (omega arith))
  finish_all s (suc n) p =
      let (t, a, done) = finish_all s n p in
      let (u, b, last) = finish t n (t.thread n) a.phase refl in
      (u, Settles-trans a b, λ k h. each t u b done last k h (Bool-cases (k == n)))
    where
      each :
          (t u : Life)
          → Settles t u
          → ((k : ℕ) → k < n → t.thread k ≡ returned)
          → u.thread n ≡ returned
          → (k : ℕ) → k < suc n
          → ((k == n) ≡ true) ⊎ ((k == n) ≡ false)
          → u.thread k ≡ returned
      each t u b done last k h (inl e) = let same : k ≡ n = ground arith in rw same last
      each t u b done last k h (inr e) = b.kept k (done k (ground arith))

  -- In every reachable state in which Stop waits, it can return nil: each goroutine that has not begun
  -- begins, each that works comes to its select, and each that waits there sees the cancellation.
  pub stop_returns :
      (s : Life)
      → Reach j newborn s
      → s.phase ≡ draining
      → (t : Life) × Reach j s t × (t.phase ≡ drained)
  stop_returns s r p =
      let (t, a, done) = finish_all s j.goroutines p in
      (
        record t { phase = drained },
        next a.path (drains t a.phase (λ k. all t a done k (Bool-cases (leb j.goroutines k)))),
        refl,
      )
    where
      all :
          (t : Life)
          → Settles s t
          → ((k : ℕ) → k < j.goroutines → t.thread k ≡ returned)
          → (k : ℕ) → (leb j.goroutines k ≡ true) ⊎ (leb j.goroutines k ≡ false)
          → t.thread k ≡ returned
      all t a done k (inl h) = a.kept k (Reach-bounded j r k (ground arith))
      all t a done k (inr h) = done k (ground arith)
