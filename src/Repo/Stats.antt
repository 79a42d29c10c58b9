-- ===== src/Repo/Stats.antt =====
-- The statements StatsCounts, StatsPerDay and BacklogStats with their wrappers in
-- internal/repo/messages.go. The text of a calendar day, and the order of texts, are parameters.
pub mod Groups
pub mod Age
use go_signalium.Base.{
  ℕ, zero, suc, ◌+◌, ◌-◌, ◌/◌, ◌≡◌, Bool, ◌&&◌, ◌||◌, Option, none, some, List, [], ◌∷◌, leb, ◌==◌,
  if◌then◌else◌, select, count, arith,
}
use go_signalium.Base.Text.{Text, text_eq, text_eq_refl, text_eq_sound}
use go_signalium.Base.Int.{ℤ, pos, negsuc}
use go_signalium.Domain.{
  Status, pending, sending, sent, failed, permanent_failed, timed_out, Result, ok,
}
use go_signalium.Repo.{Row, Table, is_live}
use go_signalium.Repo.Listing.{rank}
use go_signalium.Repo.Messages.{Link, read}

abbrev pub is_same_status : Status → Status → Bool
is_same_status s s' = rank s == rank s'

pub record StatusCount : Type 0 where
  pub status : Status
  pub count : ℕ

-- The values of the enumeration.
abbrev pub statuses : List Status
statuses = pending ∷ sending ∷ sent ∷ failed ∷ permanent_failed ∷ timed_out ∷ []

abbrev pub with_status : Status → Row → Bool
with_status s r = is_live r && is_same_status r.status s

-- GROUP BY status: a row for each value that occurs.
unfoldable pub group_counts : List Status → Table → List StatusCount
group_counts [] t = []
group_counts (s ∷ ss) t =
    let rest = group_counts ss t in
    if count (with_status s) t == 0
    then rest
    else record { status = s; count = count (with_status s) t } ∷ rest

unfoldable pub stats_counts : Link → Table → Result (List StatusCount)
unfolding group_counts
stats_counts link t = read link (ok (group_counts statuses t))

pub record DayCount : Type 0 where
  pub date : Text
  pub sent : ℕ
  pub failed : ℕ

abbrev pub is_sent : Status → Bool
is_sent s = is_same_status s sent

-- status IN ('FAILED', 'PERMANENT_FAILED', 'TIMED_OUT')
abbrev pub is_failed : Status → Bool
is_failed s =
    is_same_status s failed || (is_same_status s permanent_failed || is_same_status s timed_out)

abbrev pub one_if : Bool → ℕ
one_if b = if b then 1 else 0

abbrev pub tally : Row → DayCount → DayCount
tally r d = record {
  date = d.date;
  sent = d.sent + one_if (is_sent r.status);
  failed = d.failed + one_if (is_failed r.status);
}

abbrev pub no_rows : Text → DayCount
no_rows x = record { date = x; sent = 0; failed = 0 }

-- The group of a day.
unfoldable pub on_day : Text → List DayCount → Option DayCount
on_day x [] = none
on_day x (d ∷ ds) = let rest = on_day x ds in if text_eq d.date x then some d else rest

unfoldable pub bump_day : Text → Row → List DayCount → List DayCount
bump_day x r [] = []
bump_day x r (d ∷ ds) =
    let rest = bump_day x r ds in if text_eq d.date x then tally r d ∷ ds else d ∷ rest

-- ORDER BY day
unfoldable pub place_day : (Text → Text → Bool) → DayCount → List DayCount → List DayCount
place_day before d [] = d ∷ []
place_day before d (d' ∷ ds) =
    let rest = place_day before d ds in if before d.date d'.date then d ∷ d' ∷ ds else d' ∷ rest

unfoldable pub add_row : (Text → Text → Bool) → Text → Row → List DayCount → List DayCount
unfolding on_day bump_day place_day
add_row before x r ds = elim (on_day x ds) [
  | none ↦ place_day before (tally r (no_rows x)) ds
  | some d ↦ bump_day x r ds
]

-- created_at >= now() - interval '30 days', in microseconds
abbrev pub is_recent : ℕ → Row → Bool
is_recent now r = is_live r && leb now (r.created_at + 2592000000000)

unfoldable pub group_days : (Text → Text → Bool) → (ℕ → Text) → ℕ → Table → List DayCount
unfolding add_row
group_days before day now [] = []
group_days before day now (r ∷ rs) =
    let rest = group_days before day now rs in
    if is_recent now r then add_row before (day r.created_at) r rest else rest

unfoldable pub stats_per_day :
    (Text → Text → Bool) → (ℕ → Text) → Link → ℕ → Table → Result (List DayCount)
unfolding group_days
stats_per_day before day link now t = read link (ok (group_days before day now t))

-- status IN ('PENDING', 'FAILED')
abbrev pub is_awaiting : Status → Bool
is_awaiting s = is_same_status s pending || is_same_status s failed

abbrev pub in_backlog : Row → Bool
in_backlog r = is_live r && is_awaiting r.status

-- MIN(created_at)
unfoldable pub oldest_of : Table → Option ℕ
oldest_of [] = none
oldest_of (r ∷ rs) = elim (oldest_of rs) [
  | none ↦ some r.created_at
  | some t ↦ if leb r.created_at t then some r.created_at else some t
]

abbrev pub minus : ℕ → ℤ
minus zero = pos 0
minus (suc n) = negsuc n

-- EXTRACT(EPOCH FROM …)::bigint rounds to the nearest second, and a half away from zero.
unfoldable pub age_seconds : ℕ → Option ℕ → ℤ
age_seconds now none = pos 0
age_seconds now (some t) =
    if leb t now then pos ((now - t + 500000) / 1000000) else minus ((t - now + 500000) / 1000000)

pub record Backlog : Type 0 where
  pub depth : ℕ
  pub oldest : ℤ

-- BacklogStats, with the age in seconds
unfoldable pub backlog_stats : Link → ℕ → Table → Result Backlog
unfolding oldest_of age_seconds
backlog_stats link now t = read link (
    ok (record {
      depth = count in_backlog t;
      oldest = age_seconds now (oldest_of (select in_backlog t));
    }))
