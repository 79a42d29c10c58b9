-- ===== src/Repo.antt =====
-- internal/repo/queries/signal_messages.sql with internal/repo/sqlc and migrations/: the table
-- signalium.signal_messages and the statements over it. One statement is one atomic step; `now` is
-- the database's now() in microseconds. The proofs are in the modules below.
pub mod Updates
pub mod Insert
pub mod Claim
pub mod Run
pub mod Sweeps
pub mod Messages
pub mod Listing
pub mod Stats
use go_signalium.Base.{
  ℕ, ◌+◌, Bool, true, false, not, ◌&&◌, Option, none, some, List, [], ◌∷◌, ltb, leb, ◌==◌,
  if◌then◌else◌, length, select, first, count,
}
use go_signalium.Base.Text.{Text, text_eq}
use go_signalium.Base.Int.{leb_ℕ}
use go_signalium.Domain.{
  Message, Status, pending, sending, sent, failed, permanent_failed, timed_out, unknown, Result, ok,
  err, constraint,
}

-- A row: what `rowToDomain` hands out, and the column that it leaves out.
pub record Row : Type 0 where
  pub message : Message
  pub open message use *
  pub deleted_at : Option ℕ

abbrev pub Table : Type 0
Table = List Row

abbrev pub is_null : Option ℕ → Bool
is_null none = true
is_null (some t) = false

abbrev pub is_live : Row → Bool
is_live r = is_null r.deleted_at

-- WHERE signal_message_id = id
abbrev pub has_id : ℕ → Row → Bool
has_id id r = r.id == id

abbrev pub set_message : Row → Message → Row
set_message r m = record r { message = m }

-- UPDATE … SET f WHERE p
unfoldable pub update_where : (Row → Bool) → (Row → Row) → Table → Table
update_where p f [] = []
update_where p f (r ∷ rs) = (if p r then f r else r) ∷ update_where p f rs

abbrev pub exists : (Row → Bool) → Table → Bool
exists p t = ltb 0 (count p t)

-- ClaimPending
-- status = 'PENDING' OR (status = 'SENDING' AND next_attempt_at < now())
abbrev pub is_claimable : ℕ → Status → ℕ → Bool
is_claimable now pending next = true
is_claimable now sending next = ltb next now
is_claimable now sent next = false
is_claimable now failed next = false
is_claimable now permanent_failed next = false
is_claimable now timed_out next = false
is_claimable now (unknown t) next = false

-- timeout_at IS NULL OR timeout_at > now()
abbrev pub in_time : ℕ → Option ℕ → Bool
in_time now none = true
in_time now (some t) = ltb now t

unfoldable pub is_eligible : ℕ → Row → Bool
is_eligible now r =
    is_live r
    && (is_claimable now r.status r.next_attempt_at
        && (leb r.next_attempt_at now && in_time now r.timeout_at))

-- ORDER BY next_attempt_at LIMIT 1; among equal times the first of the table.
unfoldable pub soonest : Table → Option Row
soonest [] = none
soonest (r ∷ rs) = elim (soonest rs) [
  | none ↦ some r
  | some s ↦ if leb r.next_attempt_at s.next_attempt_at then some r else some s
]

unfoldable pub claim_row : ℕ → ℕ → Row → Row
claim_row now lease r = set_message r (record r.message {
  status = sending;
  attempts = r.attempts + 1;
  next_attempt_at = now + lease;
  modified_at = now;
})

-- SKIP LOCKED passes over the rows that other transactions hold.
unfoldable pub claim_pending : ℕ → ℕ → (ℕ → Bool) → Table → Option Row × Table
claim_pending now lease locked t =
    elim (soonest (select (λ r. is_eligible now r && not (locked r.id)) t)) [
      | none ↦ (none, t)
      | some r ↦ (some (claim_row now lease r), update_where (has_id r.id) (claim_row now lease) t)
    ]

-- MarkSent
unfoldable pub sent_row : ℕ → Text → Row → Row
sent_row now result_id r =
    set_message r
      (record r.message { status = sent; result_id = some result_id; modified_at = now })

-- result_id is VARCHAR(25): a longer value fails where a row is to take it.
unfoldable pub mark_sent : ℕ → ℕ → Text → Table → Result (Unit {0}) × Table
mark_sent now id result_id t =
    if exists (has_id id) t && ltb 25 (length result_id)
    then (err constraint, t)
    else (ok tt, update_where (has_id id) (sent_row now result_id) t)

-- MarkFailed
-- attempts >= max_attempts
abbrev pub is_exhausted : Message → Bool
is_exhausted m = leb_ℕ m.max_attempts m.attempts

unfoldable pub failed_row : ℕ → Text → ℕ → Row → Row
failed_row now last_error next r = set_message r (record r.message {
  status = if is_exhausted r.message then permanent_failed else failed;
  last_error = some last_error;
  next_attempt_at = next;
  modified_at = now;
})

unfoldable pub mark_failed : ℕ → ℕ → Text → ℕ → Table → Table
mark_failed now id last_error next t = update_where (has_id id) (failed_row now last_error next) t

-- MarkTimedOut
-- status IN ('PENDING', 'SENDING', 'FAILED')
abbrev pub is_open : Status → Bool
is_open pending = true
is_open sending = true
is_open failed = true
is_open sent = false
is_open permanent_failed = false
is_open timed_out = false
is_open (unknown t) = false

unfoldable pub is_overdue : ℕ → Row → Bool
is_overdue now r = is_live r && (is_open r.status && not (in_time now r.timeout_at))

unfoldable pub timed_out_row : ℕ → Row → Row
timed_out_row now r = set_message r (record r.message { status = timed_out; modified_at = now })

-- The number of rows comes back beside the table.
unfoldable pub mark_timed_out : ℕ → Table → ℕ × Table
mark_timed_out now t =
    (count (is_overdue now) t, update_where (is_overdue now) (timed_out_row now) t)

-- Resend
-- status IN ('FAILED', 'TIMED_OUT', 'PERMANENT_FAILED')
abbrev pub is_resendable : Status → Bool
is_resendable failed = true
is_resendable timed_out = true
is_resendable permanent_failed = true
is_resendable pending = false
is_resendable sending = false
is_resendable sent = false
is_resendable (unknown t) = false

unfoldable pub resend_row : ℕ → Row → Row
resend_row now r = set_message r (record r.message {
  status = pending;
  attempts = 0;
  next_attempt_at = now;
  last_error = none;
  modified_at = now;
})

unfoldable pub resend : ℕ → ℕ → Table → Table
resend now id t = update_where (λ r. has_id id r && is_resendable r.status) (resend_row now) t

-- UpdateStatus
unfoldable pub status_row : ℕ → Status → Row → Row
status_row now s r = set_message r (record r.message { status = s; modified_at = now })

unfoldable pub update_status : ℕ → ℕ → Status → Table → Option Row × Table
update_status now id s t = (
  first (λ r. has_id id r && is_live r)
      (update_where (λ r. has_id id r && is_live r) (status_row now s) t),
  update_where (λ r. has_id id r && is_live r) (status_row now s) t,
)

-- GetByID, GetByExternalID, GetByIdempotencyKey. The last one reads deleted rows too.
unfoldable pub get_by_id : ℕ → Table → Option Row
get_by_id id t = first (λ r. has_id id r && is_live r) t

unfoldable pub get_by_external_id : Text → Table → Option Row
get_by_external_id external t = first (λ r. text_eq r.external_id external && is_live r) t

-- NULL is equal to no key.
abbrev pub has_key : Text → Option Text → Bool
has_key k none = false
has_key k (some j) = text_eq j k

unfoldable pub get_by_idempotency_key : Text → Table → Option Row
get_by_idempotency_key key t = first (λ r. has_key key r.idempotency_key) t
