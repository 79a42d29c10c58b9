-- ===== src/Handler/Operations.antt =====
-- What the operational endpoints answer, and what they do to the table.
use go_signalium.Base.{
  ℕ, ◌≡◌, refl, Bool, true, false, ◌&&◌, Option, none, some, arith, if_elim, ap, Memᴰ,
  if◌then◌else◌, first-Mem, &&-eq-true,
}
use go_signalium.Domain.{Status, sending, Result, ok, err, Err, signal_message_not_found}
use go_signalium.Repo.{
  Row, Table, update_status, update_where, status_row, has_id, is_live, is_resendable, resend_row,
  get_by_id,
}
use go_signalium.Repo
use go_signalium.Repo.Updates.{first-update_where, Mem-update_where}
use go_signalium.Repo.Messages.{Link, up, down, lost}
use go_signalium.Repo.Messages
use go_signalium.Handler.{
  SignalMessageInfo, domain_to_conjure, is_operator_assignable_status, update_signal_message,
  resend_signal_message, respond, not_found_or_internal,
}

-- What an operator sees of a row after a resend.
abbrev pub resent : ℕ → Row → Row
resent now r = if is_resendable r.status then resend_row now r else r

abbrev pub resend_outcome : ℕ → ℕ → Table → Option Row → Result SignalMessageInfo × Table
resend_outcome now id t none = (err (signal_message_not_found (some id)), t)
resend_outcome now id t (some r) =
    (ok (domain_to_conjure (resent now r).message), Repo.resend now id t)

get_by_id-resend :
    (now id : ℕ) (t : Table) (r : Row)
    → get_by_id id t ≡ some r
    → get_by_id id (Repo.resend now id t) ≡ some (resent now r)
unfolding get_by_id Repo.resend resend_row
get_by_id-resend now id t r q =
    let here : has_id id r ≡ true =
      (&&-eq-true (has_id id r) (is_live r)
        (first-Mem (λ x. has_id id x && is_live x) r t q).1).0 in
    let e : (has_id id r && is_resendable r.status) ≡ is_resendable r.status = rw here refl in
    rw e at (
      first-update_where (λ x. has_id id x && is_live x)
        (λ x. has_id id x && is_resendable x.status) (resend_row now) (λ x. refl) t r q)

-- While the links hold, a resend of an id that no live row has answers SignalMessageNotFound with the
-- id and changes nothing; else it answers the row as it is afterwards: PENDING with no attempt made
-- where the row had FAILED, TIMED_OUT or PERMANENT_FAILED, and as it was in the other statuses.
resend_signal_message_lem :
    (now id : ℕ) (t : Table)
    → resend_signal_message up up up now id t ≡ resend_outcome now id t (get_by_id id t)
unfolding resend_signal_message Messages.get_by_id Messages.resend not_found_or_internal
resend_signal_message_lem now id t = looked_up (get_by_id id t) refl
  where
    looked_up :
        (o : Option Row)
        → get_by_id id t ≡ o
        → elim (Messages.one o) [
          | err x ↦ (err (not_found_or_internal id x), t)
          | ok m ↦ (
            respond (not_found_or_internal id) (Messages.get_by_id up id (Repo.resend now id t)),
            Repo.resend now id t,
          )
        ]
          ≡ resend_outcome now id t o
    looked_up none q = refl
    looked_up (some r) q = rw (get_by_id-resend now id t r q) refl

-- A row that the update of a status to other than SENDING leaves SENDING is untouched.
untouched :
    (now id : ℕ) (target : Status) (t : Table) (r : Row)
    → is_operator_assignable_status target ≡ true
    → r.status ≡ sending
    → Memᴰ r (Repo.update_status now id target t).1
    → Memᴰ r t
unfolding Repo.update_status status_row is_operator_assignable_status
untouched now id target t r a h m =
    let (q, i, e) = Mem-update_where (λ x. has_id id x && is_live x) (status_row now target) t m in
    kept q i (has_id id q && is_live q) e
  where
    kept :
        (q : Row)
        → Memᴰ q t
        → (b : Bool) → r ≡ (if b then status_row now target q else q)
        → Memᴰ r t
    kept q i false e = rw e i
    kept q i true e = let s : r.status ≡ target = ap (λ x. x.status) e in absurd (ground arith)

-- An operator's update never makes a row SENDING: a row that is SENDING afterwards was so before, and
-- is as it was, whatever becomes of the round trip.
update_signal_message_sending :
    (link : Link) (now id : ℕ) (target : Status) (t : Table) (r : Row)
    → r.status ≡ sending
    → Memᴰ r (update_signal_message link now id target t).1
    → Memᴰ r t
unfolding update_signal_message Messages.update_status
update_signal_message_sending link now id target t r h =
    if_elim (λ (x : Result SignalMessageInfo × Table). Memᴰ r x.1 → Memᴰ r t)
      (is_operator_assignable_status target)
      (
        respond (not_found_or_internal id) (Messages.update_status link now id target t).0,
        (Messages.update_status link now id target t).1,
      )
      (err (Err.invalid_signal_message "status"), t) (reached link) (λ _ m. m)
  where
    reached :
        (l : Link)
        → is_operator_assignable_status target ≡ true
        → Memᴰ r (Messages.update_status l now id target t).1
        → Memᴰ r t
    reached up a m = untouched now id target t r a h m
    reached down a m = m
    reached lost a m = untouched now id target t r a h m
