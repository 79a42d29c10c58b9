-- ===== src/Repo/Stats/Groups.antt =====
-- What the groups of StatsCounts and StatsPerDay hold.
use go_signalium.Base.{
  ℕ, suc, ◌+◌, ◌≡◌, refl, sym, ap, Bool, true, false, ◌&&◌, Option, none, some, List, [], ◌∷◌, ◌==◌,
  if◌then◌else◌, if_elim, count, arith, ◌∙◌,
}
use go_signalium.Base.Text.{Text, text_eq, text_eq_refl, text_eq_sound}
use go_signalium.Domain.{Status}
use go_signalium.Repo.{Row, Table}
use go_signalium.Repo.Stats.{
  DayCount, one_if, is_sent, is_failed, tally, no_rows, on_day, bump_day, place_day, add_row,
  is_recent, group_days,
}

abbrev tallied : Row → Option DayCount → Option DayCount
tallied r none = none
tallied r (some d) = some (tally r d)

on_day-bump_day :
    (x y : Text) (r : Row) (ds : List DayCount)
    → on_day y (bump_day x r ds) ≡ (if text_eq x y then tallied r (on_day y ds) else on_day y ds)
unfolding on_day bump_day
on_day-bump_day x y r [] = ground arith
on_day-bump_day x y r (d ∷ ds) = ground (
  arith,
  on_day-bump_day x y r ds,
  text_eq_sound d.date x,
  text_eq_sound d.date y,
  text_eq_sound x y,
  text_eq_refl x,
)

on_day-place_day :
    (before : Text → Text → Bool) (y : Text) (d : DayCount) (ds : List DayCount)
    → on_day d.date ds ≡ none
    → on_day y (place_day before d ds) ≡ (if text_eq d.date y then some d else on_day y ds)
unfolding on_day place_day
on_day-place_day before y d [] h = refl
on_day-place_day before y d (d' ∷ ds) h = ground (
  arith,
  on_day-place_day before y d ds,
  text_eq_sound d.date y,
  text_eq_sound d'.date y,
  text_eq_refl y,
)

if_cong {ℓ} :
    {A : Type ℓ} {b : Bool} {x y : A} (z : A)
    → (b ≡ true → x ≡ y)
    → (if b then x else z) ≡ (if b then y else z)
if_cong {b = true} z h = h refl
if_cong {b = false} z h = refl

abbrev of_day : Text → Option DayCount → DayCount
of_day x none = no_rows x
of_day x (some d) = d

on_day-add_row :
    (before : Text → Text → Bool) (x y : Text) (r : Row) (ds : List DayCount)
    → on_day y (add_row before x r ds)
      ≡ (if text_eq x y then some (tally r (of_day y (on_day y ds))) else on_day y ds)
unfolding add_row
on_day-add_row before x y r ds = found (on_day x ds) refl
  where
    same : text_eq x y ≡ true → on_day x ds ≡ on_day y ds
    same h = ap (λ z. on_day z ds) (text_eq_sound x y h)

    date : text_eq x y ≡ true → x ≡ y
    date h = text_eq_sound x y h

    found :
        (o : Option DayCount)
        → on_day x ds ≡ o
        → on_day y
            (elim o [ none ↦ place_day before (tally r (no_rows x)) ds | some d ↦ bump_day x r ds ])
          ≡ (if text_eq x y then some (tally r (of_day y (on_day y ds))) else on_day y ds)
    found none q =
        on_day-place_day before y (tally r (no_rows x)) ds q
        ∙ if_cong _ (λ h. rw (sym (same h) ∙ q, date h) refl)
    found (some d) q = on_day-bump_day x y r ds ∙ if_cong _ (λ h. rw (sym (same h) ∙ q) refl)

module _ (before : Text → Text → Bool) (day : ℕ → Text) (now : ℕ) (y : Text) where
  -- The rows of the window whose day is y, and those of them that have such a status.
  abbrev pub of_window : Row → Bool
  of_window r = is_recent now r && text_eq (day r.created_at) y

  abbrev pub of_window_with : (Status → Bool) → Row → Bool
  of_window_with p r = of_window r && p r.status

  -- The day as an independent count over the whole table.
  abbrev pub counted_day : Table → Option DayCount
  counted_day t =
      if count of_window t == 0
      then none
      else some (record {
        date = y;
        sent = count (of_window_with is_sent) t;
        failed = count (of_window_with is_failed) t;
      })

  abbrev stat : ℕ → ℕ → DayCount
  stat i j = record { date = y; sent = i; failed = j }

  one_more :
      (a b c : Bool) (n i j : ℕ)
      → (if a
          then some (stat (i + one_if b) (j + one_if c))
          else if n == 0
          then none
          else some (stat i j))
        ≡ (if (if a then suc n else n) == 0
            then none
            else some (stat (if a && b then suc i else i) (if a && c then suc j else j)))
  one_more a b c n i j = ground arith

  -- Each day of the last thirty on which a live row was created has the number of its SENT rows and
  -- that of its FAILED, PERMANENT_FAILED and TIMED_OUT rows, and no other day has an entry.
  none_with :
      (p : Status → Bool) (t : Table) → count of_window t ≡ 0 → count (of_window_with p) t ≡ 0
  unfolding count
  none_with p [] h = refl
  none_with p (r ∷ rs) h = ground (arith, none_with p rs)

  abbrev numbers : Table → DayCount
  numbers t = record {
    date = y;
    sent = count (of_window_with is_sent) t;
    failed = count (of_window_with is_failed) t;
  }

  of_day_eq : (t : Table) → of_day y (counted_day t) ≡ numbers t
  of_day_eq t =
      if_elim (λ o. of_day y o ≡ numbers t) (count of_window t == 0) none (some (numbers t))
        (λ h. ground (arith, none_with is_sent t, none_with is_failed t)) (λ _. refl)

  pub group_days_lem : (t : Table) → on_day y (group_days before day now t) ≡ counted_day t
  unfolding group_days count
  group_days_lem [] = refl
  group_days_lem (r ∷ rs) =
      if_elim (λ ds. on_day y ds ≡ counted_day (r ∷ rs)) (is_recent now r)
        (add_row before (day r.created_at) r (group_days before day now rs))
        (group_days before day now rs)
        (λ h.
          on_day-add_row before (day r.created_at) y r (group_days before day now rs)
          ∙ added (group_days_lem rs) h)
        (λ h. group_days_lem rs ∙ skipped h)
    where
      skipped : is_recent now r ≡ false → counted_day rs ≡ counted_day (r ∷ rs)
      skipped h = rw h refl

      added :
          on_day y (group_days before day now rs) ≡ counted_day rs
          → is_recent now r ≡ true
          → (if text_eq (day r.created_at) y
              then some (tally r (of_day y (on_day y (group_days before day now rs))))
              else on_day y (group_days before day now rs))
            ≡ counted_day (r ∷ rs)
      added ih h =
          rw (ih, of_day_eq rs, h)
            (one_more (text_eq (day r.created_at) y) (is_sent r.status) (is_failed r.status)
              (count of_window rs) (count (of_window_with is_sent) rs)
              (count (of_window_with is_failed) rs))
