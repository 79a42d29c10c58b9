-- ===== src/Tests/Outbox.antt =====
-- The table and its statements.
use go_signalium.Base.{
  ℕ, ◌≡◌, refl, ◌≢◌, ◌⊎◌, true, false, none, some, List, [], ◌∷◌, Memᴰ, arith, count, select,
}
use go_signalium.Base.Text.{text_eq}
use go_signalium.Domain.{pending, timed_out}
use go_signalium.Repo.{
  Row, soonest, is_eligible, is_overdue, claim_row, update_where, claim_pending, mark_timed_out,
  timed_out_row, resend_row,
}
use go_signalium.Repo.Insert.{clashes, IsWellFormed}
use go_signalium.Repo.Claim.{ClaimsNone, Claims, claim_pending_lem}
use go_signalium.Repo.Sweeps.{Swept, mark_timed_out_lem, resend_futile}
use go_signalium.Base.{inl, inr}
use go_signalium.Base.Text.{codes}
use go_signalium.Repo.{mark_sent, sent_row}
use go_signalium.Repo.Run.Over.{over_exclusion}
use go_signalium.Repo.Run.Recovery.{lease_expires}
use go_signalium.Repo.Run.{Op, marks_sent, claims, reaps, apply, run}
use go_signalium.Repo.Run.WellFormed.{run-IsWellFormed}
use go_signalium.Repo.Run.Lease.{lease_exclusion}
use go_signalium.Repo.Run.Transitions.{Origin, apply-Origin}
use go_signalium.Tests.Data.{waiting, leased, broken, late, table, unlocked, row}

claims_waiting : (claim_pending 10 300 unlocked table).0 ≡ some (claim_row 10 300 waiting)
unfolding claim_pending soonest select is_eligible
claims_waiting = refl

skips_leased : (claim_pending 10 300 unlocked (leased ∷ broken ∷ late ∷ [])).0 ≡ none
unfolding claim_pending soonest select is_eligible
skips_leased = refl

reaps_late : (mark_timed_out 10 table).0 ≡ 1
unfolding mark_timed_out count is_overdue
reaps_late = refl

claim_pending_lem_example :
    ClaimsNone 10 unlocked table (claim_pending 10 300 unlocked table)
    ⊎ ((r : Row) × Claims 10 300 unlocked table (claim_pending 10 300 unlocked table) r)
claim_pending_lem_example = claim_pending_lem 10 300 unlocked table

pub table-IsWellFormed : IsWellFormed table
unfolding clashes text_eq
table-IsWellFormed = (
  (refl, (refl, (refl, tt))),
  refl,
  ((refl, (refl, tt)), refl, ((refl, tt), refl, (tt, refl, tt))),
)

abbrev history : List (ℕ × Op)
history = (11, claims 300 unlocked) ∷ (12, reaps) ∷ (13, claims 300 unlocked) ∷ []

run-IsWellFormed_example : IsWellFormed (run table history)
run-IsWellFormed_example = run-IsWellFormed table history table-IsWellFormed

abbrev second : Row
second = row 5 pending 0 6 none

-- Row 1 is claimed at 10 for 300; after a sweep, a claim at 12 takes row 5.
lease_exclusion_example : (claim_row 12 300 second).id ≢ (claim_row 10 300 waiting).id
unfolding claim_pending soonest select is_eligible run apply mark_timed_out update_where claim_row
    is_overdue count
lease_exclusion_example =
    lease_exclusion 10 300 unlocked (waiting ∷ second ∷ []) (claim_row 10 300 waiting)
      ((11, reaps) ∷ []) 12 300 unlocked (claim_row 12 300 second) refl (omega arith, refl, tt)
      (omega arith) refl

apply-Origin_example : Origin 10 reaps table (timed_out_row 10 late)
unfolding apply mark_timed_out update_where is_overdue
apply-Origin_example =
    apply-Origin 10 reaps table (timed_out_row 10 late) table-IsWellFormed tt
      (Memᴰ.tail (Memᴰ.tail (Memᴰ.tail (Memᴰ.head refl))))

mark_timed_out_lem_example : Swept 10 table (mark_timed_out 10 table).0 (mark_timed_out 10 table).1
mark_timed_out_lem_example = mark_timed_out_lem 10 table

abbrev expired : Row
expired = row 4 timed_out 1 5 (some 9)

resend_futile_example :
    (is_eligible 12 (resend_row 10 expired) ≡ false)
    × (is_overdue 12 (resend_row 10 expired) ≡ true)
resend_futile_example = resend_futile 10 12 expired refl refl (omega arith)

-- A late MarkSent of row 3, which is FAILED, and a sweep; then a claim at 12 takes row 1.
abbrev late_marks : List (ℕ × Op)
late_marks = (10, marks_sent 3 (codes "7")) ∷ (11, reaps) ∷ []

over_exclusion_example : (claim_row 12 300 waiting).id ≢ broken.id
unfolding claim_pending soonest select is_eligible run apply mark_timed_out update_where claim_row
    is_overdue count mark_sent sent_row timed_out_row
over_exclusion_example =
    over_exclusion table broken late_marks 12 300 unlocked (claim_row 12 300 waiting)
      table-IsWellFormed (Memᴰ.tail (Memᴰ.tail (Memᴰ.head refl))) (inr (inl refl))
      (refl, (refl, tt)) refl

-- Row 1 is claimed at 10 for 300 and its worker is gone; at 311 it may be claimed again.
lease_expires_example :
    Memᴰ (claim_row 10 300 waiting) (run (claim_pending 10 300 unlocked table).1 ((11, reaps) ∷ []))
    × (is_eligible 311 (claim_row 10 300 waiting) ≡ true)
unfolding claim_pending soonest select is_eligible claim_row
lease_expires_example =
    lease_expires 10 300 unlocked table (claim_row 10 300 waiting) ((11, reaps) ∷ []) 311
      table-IsWellFormed refl (omega arith, refl, tt) (omega arith) refl
