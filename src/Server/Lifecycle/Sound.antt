-- ===== src/Server/Lifecycle/Sound.antt =====
-- What holds of the background goroutines at any time.
use mathlib.Core.Path.{subst}
use go_signalium.Base.{
  ◌<◌, ◌⊎◌, ◌≢◌, sym, ℕ, ◌+◌, ◌≤◌, ◌≡◌, refl, ◌∙◌, Bool, true, false, arith, ltb, ◌==◌,
  if◌then◌else◌, Bool-cases, inl, inr, if_elim,
}
use go_signalium.Server.Lifecycle.{
  Job, Thread, spawned, working, begun, begins, selecting, returned, Phase, fresh, off, live,
  draining, drained, gave_up, Life, newborn, becomes, launch, Step, starts, fires, ends,
  sees_cancel, leaves, closes, stops, stops_off, drains, gives_up, stops_early, stops_again,
  waits_again, Reach, here, next,
}

-- Loops may be there once they were launched and until Stop has seen them end.
abbrev may_work : Phase → Bool
may_work fresh = false
may_work off = false
may_work live = true
may_work draining = true
may_work drained = false
may_work gave_up = true

abbrev is_launched : Phase → Bool
is_launched fresh = false
is_launched off = false
is_launched live = true
is_launched draining = true
is_launched drained = true
is_launched gave_up = true

module _ (j : Job) where
  pub record IsSound (s : Life) : Type 0 where
    pub bounded : (k : ℕ) → j.goroutines ≤ k → s.thread k ≡ returned
    pub quiet : may_work s.phase ≡ false → (k : ℕ) → s.thread k ≡ returned
    pub enabled : may_work s.phase ≡ true → j.enabled ≡ true
    pub boots :
        j.enabled ≡ true
        → j.on_boot ≡ true
        → is_launched s.phase ≡ true
        → (k : ℕ) → k < j.goroutines
        → (s.thread k ≡ spawned) ⊎ (1 ≤ s.runs)
    pub unstarted : s.phase ≡ off → j.enabled ≡ false
    pub idle : j.enabled ≡ false → s.runs ≡ 0

  pub newborn-IsSound : IsSound newborn
  unfolding newborn
  newborn-IsSound = record {
    bounded = λ k h. refl;
    quiet = λ h k. refl;
    enabled = λ h. ground arith;
    boots = λ e o h k l. ground arith;
    unstarted = λ h. ground arith;
    idle = λ h. refl;
  }

  abbrev launched : Life → Life
  launched s = record s {
    phase = live;
    thread = λ k. if ltb k j.goroutines then spawned else returned;
  }

  launch-IsSound : (s : Life) → s.phase ≡ fresh → IsSound s → IsSound (launch j s)
  unfolding launch
  launch-IsSound s p v =
      if_elim IsSound j.enabled (launched s) (record s { phase = off })
        (λ e. record {
          bounded = λ k h. ground arith;
          quiet = λ h k. ground arith;
          enabled = λ h. e;
          boots = λ n o h k l. inl (ground arith);
          unstarted = λ h. ground arith;
          idle = v.idle;
        })
        (λ e. record {
          bounded = v.bounded;
          quiet = λ h k. v.quiet (rw p refl) k;
          enabled = λ h. ground arith;
          boots = λ n o h k l. ground arith;
          unstarted = λ h. e;
          idle = v.idle;
        })

  -- A goroutine that is there moves, and a body begins or not.
  moves-IsSound :
      (s : Life) (k m : ℕ) (x : Thread)
      → s.runs ≤ m
      → may_work s.phase ≡ true
      → (j.goroutines ≤ k → ⊥)
      → (j.on_boot ≡ true → (s.thread k ≡ spawned) ⊎ (1 ≤ s.runs) → 1 ≤ m)
      → IsSound s
      → IsSound (record s { thread = becomes k x s.thread; runs = m })
  moves-IsSound s k m x le w b boot v = record {
    bounded = λ i h. other i h (ground arith);
    quiet = λ h. ground arith;
    enabled = v.enabled;
    boots = λ n o h i l. started n o h i l (v.boots n o h i l) (Bool-cases (i == k));
    unstarted = v.unstarted;
    idle = λ h. ground (arith, v.enabled w);
  }
    where
      other : (i : ℕ) → j.goroutines ≤ i → (i == k) ≡ false → becomes k x s.thread i ≡ returned
      other i h ne = rw ne (v.bounded i h)

      started :
          j.enabled ≡ true
          → j.on_boot ≡ true
          → is_launched s.phase ≡ true
          → (i : ℕ) → i < j.goroutines
          → (s.thread i ≡ spawned) ⊎ (1 ≤ s.runs)
          → ((i == k) ≡ true) ⊎ ((i == k) ≡ false)
          → (becomes k x s.thread i ≡ spawned) ⊎ (1 ≤ m)
      started n o h i l q (inl e) =
          let same : i ≡ k = ground arith in
          let at : k < j.goroutines = subst (λ y. y < j.goroutines) same l in
          inr (boot o (v.boots n o h k at))
      started n o h i l (inl q) (inr e) = inl (rw e q)
      started n o h i l (inr q) (inr e) = inr (omega arith)

  -- A goroutine that has not returned.
  there :
      (s : Life) (k : ℕ)
      → (s.thread k ≡ returned → ⊥)
      → IsSound s
      → (may_work s.phase ≡ true) × (j.goroutines ≤ k → ⊥)
  there s k h v = elim (Bool-cases (may_work s.phase)) [
    | inl e ↦ (e, λ le. h (v.bounded k le))
    | inr e ↦ absurd (h (v.quiet e k))
  ]

  abbrev ended : Thread → Bool
  ended spawned = false
  ended working = false
  ended selecting = false
  ended returned = true

  steps-IsSound :
      (s : Life) (k m : ℕ) (x : Thread)
      → s.runs ≤ m
      → ended (s.thread k) ≡ false
      → (j.on_boot ≡ true → (s.thread k ≡ spawned) ⊎ (1 ≤ s.runs) → 1 ≤ m)
      → IsSound s
      → IsSound (record s { thread = becomes k x s.thread; runs = m })
  steps-IsSound s k m x le h boot v =
      let (w, b) = there s k (λ e. ground arith) v in moves-IsSound s k m x le w b boot v

  -- A goroutine that works or waits was begun.
  goes-IsSound :
      (s : Life) (k m : ℕ) (x y : Thread)
      → s.runs ≤ m
      → s.thread k ≡ y
      → ended y ≡ false
      → (y ≡ spawned → ⊥)
      → IsSound s
      → IsSound (record s { thread = becomes k x s.thread; runs = m })
  goes-IsSound s k m x y le e h n v = steps-IsSound s k m x le (rw e h) (λ o q. begun_before q) v
    where
      begun_before : (s.thread k ≡ spawned) ⊎ (1 ≤ s.runs) → 1 ≤ m
      begun_before (inl q) = absurd (n (sym e ∙ q))
      begun_before (inr q) = omega arith

  -- Stop, and what becomes of its wait.
  phase-IsSound :
      (s : Life) (p : Phase)
      → may_work s.phase ≡ true
      → (may_work p ≡ false → (k : ℕ) → s.thread k ≡ returned)
      → p ≢ off
      → IsSound s
      → IsSound (record s { phase = p })
  phase-IsSound s p w q n v = record {
    bounded = v.bounded;
    quiet = q;
    enabled = λ h. v.enabled w;
    boots = λ e o h. v.boots e o (ground arith);
    unstarted = λ h. absurd (n h);
    idle = v.idle;
  }

  Step-IsSound : {s t : Life} → Step j s t → IsSound s → IsSound t
  Step-IsSound (starts s p) v = launch-IsSound s p v
  Step-IsSound (begins s k e) v =
      steps-IsSound s k (if j.on_boot then s.runs + 1 else s.runs) (begun j) (ground arith)
        (rw e refl) (λ o q. ground arith) v
  Step-IsSound (fires s k e) v =
      goes-IsSound s k (s.runs + 1) working selecting (omega arith) e refl (λ q. cc) v
  Step-IsSound (ends s k e) v =
      goes-IsSound s k s.runs selecting working (omega arith) e refl (λ q. cc) v
  Step-IsSound (sees_cancel s k e c) v =
      goes-IsSound s k s.runs returned selecting (omega arith) e refl (λ q. cc) v
  Step-IsSound (leaves s k l e c) v =
      goes-IsSound s k s.runs returned working (omega arith) e refl (λ q. cc) v
  Step-IsSound (closes s k c e) v =
      goes-IsSound s k s.runs returned selecting (omega arith) e refl (λ q. cc) v
  Step-IsSound (stops s p) v =
      phase-IsSound s draining (rw p refl) (λ h. absurd (ground arith)) (λ h. cc) v
  Step-IsSound (stops_off s p) v = record {
    bounded = v.bounded;
    quiet = λ h k. v.quiet (rw p refl) k;
    enabled = λ h. ground arith;
    boots = λ e o h k l. absurd (ground (arith, v.unstarted p));
    unstarted = λ h. v.unstarted p;
    idle = v.idle;
  }
  Step-IsSound (drains s p all) v = phase-IsSound s drained (rw p refl) (λ h. all) (λ h. cc) v
  Step-IsSound (gives_up s p) v =
      phase-IsSound s gave_up (rw p refl) (λ h. absurd (ground arith)) (λ h. cc) v
  Step-IsSound (stops_early s p) v = v
  Step-IsSound (stops_again s p) v = v
  Step-IsSound (waits_again s p) v =
      phase-IsSound s draining (rw p refl) (λ h. absurd (ground arith)) (λ h. cc) v

  pub Reach-IsSound : {s t : Life} → IsSound s → Reach j s t → IsSound t
  Reach-IsSound v here = v
  Reach-IsSound v (next r st) = Step-IsSound st (Reach-IsSound v r)
