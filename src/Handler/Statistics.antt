-- ===== src/Handler/Statistics.antt =====
-- GetSignalMessagesStats of internal/handler/signal_messages.go, over the two statistics of the table.
use go_signalium.Base.{
  ℕ, zero, suc, Bool, true, false, Option, none, some, List, [], ◌∷◌, map, ltb, if◌then◌else◌,
  count, first,
}
use go_signalium.Base.Text.{Text, text_eq}
use go_signalium.Domain.{Status, Result, ok, err}
use go_signalium.Repo.{Table}
use go_signalium.Repo.Listing.{rank}
use go_signalium.Repo.Messages.{Link}
use go_signalium.Repo.Stats.{
  StatusCount, is_same_status, with_status, stats_counts, DayCount, stats_per_day,
}
use go_signalium.Handler.{map_to_conjure_error}

pub record DayStat : Type 0 where
  pub date : Text
  pub sent : ℕ
  pub failed : ℕ

-- A map from the status, with what it lacks as `none`.
pub record SignalMessageStats : Type 0 where
  pub counts : Status → Option ℕ
  pub per_day : List DayStat

-- stats.Counts[key] = c.Count, for each of the rows
unfoldable pub set_counts : List StatusCount → (Status → Option ℕ) → Status → Option ℕ
set_counts [] m = m
set_counts (c ∷ cs) m = set_counts cs (λ s. if is_same_status c.status s then some c.count else m s)

abbrev pub day_stat : DayCount → DayStat
day_stat d = record { date = d.date; sent = d.sent; failed = d.failed }

-- GetSignalMessagesStats: two round trips, over the tables that they find.
unfoldable pub get_signal_messages_stats :
    (Text → Text → Bool) → (ℕ → Text) → Link → Link → ℕ → Table → Table → Result SignalMessageStats
unfolding set_counts map_to_conjure_error
get_signal_messages_stats before day link link' now t t' = elim (stats_counts link t) [
  | err x ↦ err (map_to_conjure_error x)
  | ok counts ↦ elim (stats_per_day before day link' now t') [
    | err x ↦ err (map_to_conjure_error x)
    | ok days ↦ ok (record { counts = set_counts counts (λ s. none); per_day = map day_stat days })
  ]
]

-- A count that a map leaves out where it is zero.
abbrev pub positive : ℕ → Option ℕ
positive zero = none
positive (suc n) = some (suc n)

is_listed : Status → List Status → Bool
is_listed s [] = false
is_listed s (s' ∷ ss) = let rest = is_listed s ss in if is_same_status s' s then true else rest

abbrev or_else : Option ℕ → Option ℕ → Option ℕ
or_else none m = m
or_else (some n) m = some n

-- The last row of a status.
pick : Status → List StatusCount → Option ℕ
pick s [] = none
pick s (c ∷ cs) = or_else (pick s cs) (if is_same_status c.status s then some c.count else none)

abbrev pub on_stat : Text → List DayStat → Option DayStat
on_stat y = first λ d. text_eq d.date y

abbrev pub stat_of : Option DayCount → Option DayStat
stat_of none = none
stat_of (some d) = some (day_stat d)

-- The live rows of a status of the enumeration, by an independent count.
abbrev pub counted_status : Status → Table → Option ℕ
counted_status s t = if ltb (rank s) 6 then positive (count (with_status s) t) else none
