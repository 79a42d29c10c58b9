-- ===== src/Repo/Stats/Age.antt =====
-- The age that the reaper samples: that of the oldest row which waits.
use mathlib.Core.Path.{subst}
use go_signalium.Base.{
  if◌then◌else◌, Bool, ◌&&◌, suc, ap, ◌∙◌, count, ℕ, ◌+◌, ◌*◌, ◌-◌, ◌/◌, ◌≤◌, ◌<◌, ◌≡◌, refl, sym,
  ◌⊎◌, inl, inr, true, false, Option, none, some, [], ◌∷◌, Memᴰ, Bool-cases, leb, arith, select,
  Mem-select, select-Mem,
}
use go_signalium.Base.Int.{ℤ, pos}
use go_signalium.Domain.{
  Status, pending, sending, sent, failed, permanent_failed, timed_out, unknown,
}
use go_signalium.Repo.{Row, Table, is_null}
use go_signalium.Repo.Messages.{Link, up, down, lost}
use go_signalium.Repo.Stats.{in_backlog, is_awaiting, oldest_of, age_seconds, minus}

-- A number of seconds is a span of microseconds, rounded to the nearest.
abbrev pub IsSpan : ℕ → ℕ → Type 0
IsSpan n d = (n * 1000000 ≤ d + 500000) × (d < n * 1000000 + 500000)

-- The age of a time in seconds, negative where the time is yet to come.
abbrev pub IsAge : ℕ → ℕ → ℤ → Type 0
IsAge now t a =
    ((n : ℕ) × (t ≤ now) × (a ≡ pos n) × IsSpan n (now - t))
    ⊎ ((n : ℕ) × (now < t) × (a ≡ minus n) × IsSpan n (t - now))

-- A row that waits for its delivery: PENDING or FAILED, and not deleted.
abbrev waits_in : Status → Bool
waits_in pending = true
waits_in sending = false
waits_in sent = false
waits_in failed = true
waits_in permanent_failed = false
waits_in timed_out = false
waits_in (unknown t) = false

abbrev pub is_waiting : Row → Bool
is_waiting r = is_null r.deleted_at && waits_in r.status

waits-is_awaiting : (x : Status) → is_awaiting x ≡ waits_in x
waits-is_awaiting pending = refl
waits-is_awaiting sending = refl
waits-is_awaiting sent = refl
waits-is_awaiting failed = refl
waits-is_awaiting permanent_failed = refl
waits-is_awaiting timed_out = refl
waits-is_awaiting (unknown t) = refl

is_waiting-in_backlog : (r : Row) → in_backlog r ≡ is_waiting r
is_waiting-in_backlog r = ap (λ b. is_null r.deleted_at && b) (waits-is_awaiting r.status)

pub count-is_waiting : (t : Table) → count in_backlog t ≡ count is_waiting t
unfolding count
count-is_waiting [] = refl
count-is_waiting (r ∷ t) =
    ap (λ n. if in_backlog r then suc n else n) (count-is_waiting t)
    ∙ ap (λ b. if b then suc (count is_waiting t) else count is_waiting t) (is_waiting-in_backlog r)

-- The age of the oldest row that waits, or 0 where there is none.
pub data OldestAge (now : ℕ) (t : Table) (a : ℤ) : Type 0 where
  nothing : ((q : Row) → Memᴰ q t → is_waiting q ≡ false) → a ≡ pos 0 → OldestAge now t a
  of_row :
      (r : Row)
      → Memᴰ r t
      → is_waiting r ≡ true
      → ((q : Row) → Memᴰ q t → is_waiting q ≡ true → r.created_at ≤ q.created_at)
      → IsAge now r.created_at a
      → OldestAge now t a

-- The gauge of the age, by the link of the sample.
abbrev pub Sampled : Link → ℕ → Table → ℤ → ℤ → Type 0
Sampled up now t before a = OldestAge now t a
Sampled down now t before a = a ≡ before
Sampled lost now t before a = a ≡ before

age_seconds-IsAge : (now t : ℕ) → IsAge now t (age_seconds now (some t))
unfolding age_seconds
age_seconds-IsAge now t = elim (Bool-cases (leb t now)) [
  | inl e ↦ rw e (inl (_, ground arith, refl, rounds (now - t)))
  | inr e ↦ rw e (inr (_, ground arith, refl, rounds (t - now)))
]
  where
    rounds : (d : ℕ) → IsSpan ((d + 500000) / 1000000) d
    rounds d = (omega arith, omega arith)

-- What MIN(created_at) takes from rows: none, or the time of one that is no later than any.
abbrev Oldest : Table → Option ℕ → Type 0
Oldest t o =
    (((q : Row) → Memᴰ q t → ⊥) × (o ≡ none))
    ⊎ ((r : Row) × Memᴰ r t
        × ((q : Row) → Memᴰ q t → r.created_at ≤ q.created_at)
        × (o ≡ some r.created_at))

oldest : (t : Table) → Oldest t (oldest_of t)
unfolding oldest_of
oldest [] = inl (λ q m. elim m [ ], refl)
oldest (r ∷ rs) = elim (oldest rs) [
  | inl (h, e) ↦ inr (r, Memᴰ.head refl, alone h, rw (e, oldest_of) refl)
  | inr (s, m, h, e) ↦ elim (Bool-cases (leb r.created_at s.created_at)) [
    | inl l ↦ inr (r, Memᴰ.head refl, before s h (ground arith), rw (e, l) refl)
    | inr l ↦ inr (s, Memᴰ.tail m, after s h (ground arith), rw (e, l) refl)
  ]
]
  where
    alone : ((q : Row) → Memᴰ q rs → ⊥) → (q : Row) → Memᴰ q (r ∷ rs) → r.created_at ≤ q.created_at
    alone h q (Memᴰ.head e) = rw e (omega arith)
    alone h q (Memᴰ.tail i) = absurd (h q i)

    before :
        (s : Row)
        → ((q : Row) → Memᴰ q rs → s.created_at ≤ q.created_at)
        → r.created_at ≤ s.created_at
        → (q : Row) → Memᴰ q (r ∷ rs)
        → r.created_at ≤ q.created_at
    before s h l q (Memᴰ.head e) = rw e (omega arith)
    before s h l q (Memᴰ.tail i) = omega (arith, h q i)

    after :
        (s : Row)
        → ((q : Row) → Memᴰ q rs → s.created_at ≤ q.created_at)
        → s.created_at ≤ r.created_at
        → (q : Row) → Memᴰ q (r ∷ rs)
        → s.created_at ≤ q.created_at
    after s h l q (Memᴰ.head e) = rw e l
    after s h l q (Memᴰ.tail i) = h q i

pub oldest_of-OldestAge :
    (now : ℕ) (t : Table) → OldestAge now t (age_seconds now (oldest_of (select in_backlog t)))
oldest_of-OldestAge now t = found (oldest (select in_backlog t))
  where
    waiting : (q : Row) → Memᴰ q t → is_waiting q ≡ true → Memᴰ q (select in_backlog t)
    waiting q m h = select-Mem in_backlog q t m (is_waiting-in_backlog q ∙ h)

    found :
        Oldest (select in_backlog t) (oldest_of (select in_backlog t))
        → OldestAge now t (age_seconds now (oldest_of (select in_backlog t)))
    found (inl (none_there, e)) =
        nothing
          (λ q m. elim (Bool-cases (is_waiting q)) [
            | inl h ↦ absurd (none_there q (waiting q m h))
            | inr h ↦ h
          ])
          (rw e (unfold age_seconds in refl))
    found (inr (r, m, first_one, e)) =
        let (i, h) = Mem-select in_backlog r t m in
        of_row r i (sym (is_waiting-in_backlog r) ∙ h) (λ q k g. first_one q (waiting q k g))
          (subst (λ o. IsAge now r.created_at (age_seconds now o)) (sym e)
            (age_seconds-IsAge now r.created_at))
