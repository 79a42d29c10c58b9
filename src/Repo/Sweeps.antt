-- ===== src/Repo/Sweeps.antt =====
-- What the reaper's sweep and the operator's resend do to the table.
use go_signalium.Base.{ℕ, ◌≤◌, true, false, ◌&&◌, ◌≡◌, refl, arith, Memᴰ, count}
use go_signalium.Repo.{
  Row, Table, update_where, has_id, is_live, in_time, is_overdue, is_resendable, is_eligible,
  timed_out_row, mark_timed_out, resend_row, resend,
}
use go_signalium.Repo.Updates.{
  update_where_miss, update_where_hit, update_where_none, count-update_where_zero,
}

timed_out-in_time : (now : ℕ) (r : Row) → is_overdue now (timed_out_row now r) ≡ false
unfolding is_overdue timed_out_row
timed_out-in_time now r = ground arith

-- What a sweep of the reaper does: `n` rows come back as flipped.
pub record Swept (now : ℕ) (t : Table) (n : ℕ) (t' : Table) : Type 0 where
  pub counted : n ≡ count (is_overdue now) t
  pub none_left : count (is_overdue now) t' ≡ 0
  pub flipped : (r : Row) → Memᴰ r t → is_overdue now r ≡ true → Memᴰ (timed_out_row now r) t'
  pub kept : (r : Row) → Memᴰ r t → is_overdue now r ≡ false → Memᴰ r t'
  pub again : mark_timed_out now t' ≡ (0, t')

-- A sweep leaves no row overdue, flips every overdue row to TIMED_OUT, keeps every other row as it
-- is, returns the number of rows it flipped, and changes nothing when it is run again.
pub mark_timed_out_lem :
    (now : ℕ) (t : Table) → Swept now t (mark_timed_out now t).0 (mark_timed_out now t).1
unfolding mark_timed_out
mark_timed_out_lem now t =
    let gone : count (is_overdue now) (update_where (is_overdue now) (timed_out_row now) t) ≡ 0 =
      count-update_where_zero (is_overdue now) (timed_out_row now) (timed_out-in_time now) t in
    record {
      counted = refl;
      none_left = gone;
      flipped = λ r m h. update_where_hit (is_overdue now) (timed_out_row now) t m h;
      kept = λ r m h. update_where_miss (is_overdue now) (timed_out_row now) t m h;
      again = λ i. (gone i, update_where_none (is_overdue now) (timed_out_row now) _ gone i);
    }

resent-not-resendable :
    (now id : ℕ) (r : Row)
    → (has_id id (resend_row now r) && is_resendable (resend_row now r).status) ≡ false
unfolding resend_row
resent-not-resendable now id r = ground arith

-- A second resend of the same row changes nothing, whenever it comes.
pub resend_idem :
    (now later id : ℕ) (t : Table) → resend later id (resend now id t) ≡ resend now id t
unfolding resend
resend_idem now later id t =
    update_where_none (λ r. has_id id r && is_resendable r.status) (resend_row later) _
      (count-update_where_zero (λ r. has_id id r && is_resendable r.status) (resend_row now)
        (resent-not-resendable now id) t)

-- A row that may be resent becomes the PENDING row, with no attempt made and due at once, which a
-- claim takes at every later time exactly while the row's deadline has not passed.
resend_revives :
    (now later id : ℕ) (t : Table) (r : Row)
    → Memᴰ r t
    → r.id ≡ id
    → is_live r ≡ true
    → is_resendable r.status ≡ true
    → now ≤ later
    → Memᴰ (resend_row now r) (resend now id t)
      × (is_eligible later (resend_row now r) ≡ in_time later r.timeout_at)
unfolding resend
resend_revives now later id t r m e live ok le = (
  update_where_hit (λ r. has_id id r && is_resendable r.status) (resend_row now) t m (ground arith),
  unfold is_eligible resend_row in ground arith,
)

-- A row whose deadline has passed gains nothing from a resend: it is never claimed, and the next sweep
-- of the reaper takes it back to TIMED_OUT.
pub resend_futile :
    (now later : ℕ) (r : Row)
    → is_live r ≡ true
    → in_time now r.timeout_at ≡ false
    → now ≤ later
    → (is_eligible later (resend_row now r) ≡ false) × (is_overdue later (resend_row now r) ≡ true)
unfolding is_eligible is_overdue resend_row
resend_futile now later r live late le = ground arith
