-- ===== src/Tests/Statistics.antt =====
-- The statistics and the reaper.
use go_signalium.Base.{ℕ, Bool, false}
use go_signalium.Base.Text.{Text, codes}
use go_signalium.Base.Int.{pos}
use go_signalium.Repo.Messages.{up, lost}
use go_signalium.Worker.Reaper.{Gauges, Reaped, reap, reap_lem}
use go_signalium.Tests.Data.{table}

abbrev day : ℕ → Text
day t = codes "d"

abbrev before : Text → Text → Bool
before s t = false

abbrev gauges : Gauges
gauges = record { timed_out = 4; depth = 9; oldest_age = pos 60 }

-- The answer of the sweep is lost, and the sample arrives.
reap_lem_example :
    Reaped lost up 10 11 table gauges
      (reap lost up 10 11 (table, gauges)).0
      (reap lost up 10 11 (table, gauges)).1
reap_lem_example = reap_lem lost up 10 11 table gauges
