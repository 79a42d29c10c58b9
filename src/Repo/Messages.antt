-- ===== src/Repo/Messages.antt =====
-- internal/repo/messages.go: the typed wrapper that the service, the handlers and the worker call.
-- Each call is one round trip to Postgres, which may fail before or after its statement commits.
use go_signalium.Base.{ℕ, ◌/◌, Bool, Option, none, some, ◌==◌, if◌then◌else◌}
use go_signalium.Base.Text.{Text}
use go_signalium.Domain.{Message, Status, Result, ok, err, not_found, unavailable}
use go_signalium.Repo.{Row, Table}
use go_signalium.Repo
use go_signalium.Repo.Insert.{InsertParams}
use go_signalium.Repo.Insert

-- `down`: the statement did not run. `lost`: it committed, and the answer did not arrive.
pub data Link : Type 0 where
  up down lost : Link

abbrev pub read {ℓ} : {A : Type ℓ} → Link → Result A → Result A
read up r = r
read down r = err unavailable
read lost r = err unavailable

abbrev pub write {ℓ} : {A : Type ℓ} → Link → Table → Result A × Table → Result A × Table
write up t r = r
write down t r = (err unavailable, t)
write lost t r = (err unavailable, r.1)

-- rowToDomain
abbrev pub row_to_domain : Row → Message
row_to_domain r = r.message

-- pgx.ErrNoRows becomes domain.ErrNotFound.
abbrev pub one : Option Row → Result Message
one none = err not_found
one (some r) = ok (row_to_domain r)

-- tsTz: the zero time is written as NULL.
unfoldable pub ts_tz : Option ℕ → Option ℕ
ts_tz none = none
ts_tz (some t) = if t == 0 then none else some t

-- intervalFromDuration: a duration of nanoseconds in whole microseconds.
unfoldable pub interval_from_duration : ℕ → ℕ
interval_from_duration d = d / 1000

abbrev pub one_row : Result Row → Result Message
one_row (ok r) = ok (row_to_domain r)
one_row (err e) = err e

unfoldable pub insert : Link → ℕ → ℕ → InsertParams → Table → Result Message × Table
unfolding ts_tz
insert link now id p t =
    let (r, t') = Insert.insert now id (record p { timeout_at = ts_tz p.timeout_at }) t in
    write link t (one_row r, t')

unfoldable pub get_by_id : Link → ℕ → Table → Result Message
get_by_id link id t = read link (one (Repo.get_by_id id t))

unfoldable pub get_by_external_id : Link → Text → Table → Result Message
get_by_external_id link external t = read link (one (Repo.get_by_external_id external t))

unfoldable pub get_by_idempotency_key : Link → Text → Table → Result Message
get_by_idempotency_key link key t = read link (one (Repo.get_by_idempotency_key key t))

unfoldable pub claim_pending : Link → ℕ → ℕ → (ℕ → Bool) → Table → Result Message × Table
unfolding interval_from_duration
claim_pending link now lease locked t =
    let (r, t') = Repo.claim_pending now (interval_from_duration lease) locked t in
    write link t (one r, t')

unfoldable pub mark_sent : Link → ℕ → ℕ → Text → Table → Result (Unit {0}) × Table
mark_sent link now id result_id t = write link t (Repo.mark_sent now id result_id t)

-- next_attempt_at is NOT NULL; the callers pass no zero time.
unfoldable pub mark_failed : Link → ℕ → ℕ → Text → ℕ → Table → Result (Unit {0}) × Table
mark_failed link now id last_error next t =
    write link t (ok tt, Repo.mark_failed now id last_error next t)

unfoldable pub mark_timed_out : Link → ℕ → Table → Result ℕ × Table
mark_timed_out link now t = let (n, t') = Repo.mark_timed_out now t in write link t (ok n, t')

unfoldable pub resend : Link → ℕ → ℕ → Table → Result (Unit {0}) × Table
resend link now id t = write link t (ok tt, Repo.resend now id t)

unfoldable pub update_status : Link → ℕ → ℕ → Status → Table → Result Message × Table
update_status link now id s t =
    let (r, t') = Repo.update_status now id s t in write link t (one r, t')
