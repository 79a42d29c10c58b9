-- ===== src/Tests/Service.antt =====
-- The service as a whole, and the start and stop of its goroutines.
use go_signalium.Base.{
  refl, true, [], ◌∷◌, Memᴰ, first, count, some, All-Mem, arith, none, false, ◌≡◌,
}
use go_signalium.Base.Int.{pos, int64}
use go_signalium.Base.Text.{codes, is_set, text_eq}
use go_signalium.Domain.{sent, Result, ok}
use go_signalium.Repo.Messages.{up, down, lost, ts_tz}
use go_signalium.Server.Lifecycle.{
  Job, reaper_job, Life, newborn, launch, working, selecting, returned, draining, drained, becomes,
  starts, begins, ends, sees_cancel, stops, drains, Reach, here, next,
}
use go_signalium.Server.Lifecycle.Stopping.{Promises, Reach-Promises}
use go_signalium.Base.Decimal.{format_int}
use go_signalium.Repo.{Row, is_eligible, get_by_idempotency_key}
use go_signalium.Repo.Claim.{is_available}
use go_signalium.Repo.Insert.{new_row, clashes}
use go_signalium.Repo.Insert
use go_signalium.Repo.Messages
use go_signalium.Service.Enqueue.{
  State, EnqueueResult, enqueue, validate, is_blank, is_other_sender, find_existing, after_lookup,
  upload, insert_row, insert_params, max_attempts_of, timeout_at_of,
}
use go_signalium.Base.{ℕ}
use go_signalium.Repo.Messages.{interval_from_duration}
use go_signalium.Server.Delivery.{enqueue_delivers}
use go_signalium.Worker.{tick}
use go_signalium.Tests.Requests.{request, answering}
use go_signalium.Tests.Data.{leased, unlocked, broken, config, fine, world}

-- The reaper is started and Stop is called at once; its goroutine begins, ends its first sweep and sees
-- the cancellation, and Stop returns.
abbrev job : Job
job = reaper_job true

abbrev started : Life
started = record (launch job newborn) { phase = draining }

abbrev booted : Life
booted = record started { thread = becomes 0 working started.thread; runs = 1 }

abbrev swept : Life
swept = record booted { thread = becomes 0 selecting booted.thread }

abbrev gone : Life
gone = record swept { thread = becomes 0 returned swept.thread }

abbrev stopped : Life
stopped = record gone { phase = drained }

all_gone : (k : ℕ) → gone.thread k ≡ returned
unfolding launch reaper_job newborn
all_gone k = ground arith

reaper_stops : Reach job newborn stopped
unfolding newborn launch reaper_job
reaper_stops =
    next
      (next
        (next
          (next (next (next here (starts newborn refl)) (stops (launch job newborn) refl))
            (begins started 0 refl))
          (ends booted 0 refl))
        (sees_cancel swept 0 refl refl))
      (drains gone refl all_gone)

Reach-Promises_example : Promises job stopped
Reach-Promises_example = Reach-Promises job stopped reaper_stops

-- Nothing is due but the request that comes.
abbrev calm : State
calm = record { table = leased ∷ broken ∷ []; objects = [] }

abbrev after : Result EnqueueResult × State
after = enqueue (codes "+1") answering request none calm

abbrev made : EnqueueResult
made = record { id = 9; idempotent = false }

is_made : after ≡ (ok made, after.1)
unfolding enqueue validate is_blank is_other_sender is_set text_eq find_existing after_lookup upload
    insert_row insert_params max_attempts_of timeout_at_of first count Messages.insert
    Messages.get_by_idempotency_key get_by_idempotency_key ts_tz Insert.insert new_row clashes
is_made = refl

calm-unavailable : (q : Row) → Memᴰ q calm.table → is_available 10 unlocked q ≡ false
unfolding is_eligible
calm-unavailable q i =
    All-Mem (λ x. is_available 10 unlocked x ≡ false) {xs = calm.table} (refl, (refl, tt)) i

enqueue_delivers_example :
    (row : Row) × Memᴰ row (tick config fine (record world { table = after.1.table })).1.table
    × (row.id ≡ 9)
    × (row.status ≡ sent)
    × (row.result_id ≡ some (format_int (pos 77)))
unfolding timeout_at_of ts_tz is_set int64
enqueue_delivers_example =
    enqueue_delivers config fine (codes "+1") answering request calm after.1 made
      (record world { table = after.1.table }) (pos 77) is_made refl refl calm-unavailable
      (omega arith) refl refl refl
      (λ n. record { can_fail = refl; can_send = refl; patient = λ j. (refl, refl) }) refl
      (omega arith) refl
