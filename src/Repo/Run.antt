-- ===== src/Repo/Run.antt =====
-- Histories: every statement of internal/repo that writes signal_messages, one after another, with
-- the database's time at each.
pub mod WellFormed
pub mod Lease
pub mod Transitions
pub mod Over
pub mod Recovery
use go_signalium.Base.{ℕ, Bool, false, Option, List, [], ◌∷◌, ◌==◌}
use go_signalium.Base.Text.{Text}
use go_signalium.Domain.{Status}
use go_signalium.Repo.{
  Row, Table, claim_pending, mark_sent, mark_failed, mark_timed_out, resend, update_status,
}
use go_signalium.Repo.Insert.{InsertParams, insert}

pub data Op : Type 0 where
  inserts : ℕ → InsertParams → Op
  claims : ℕ → (ℕ → Bool) → Op
  marks_sent : ℕ → Text → Op
  marks_failed : ℕ → Text → ℕ → Op
  reaps : Op
  resends : ℕ → Op
  sets : ℕ → Status → Op

unfoldable pub apply : ℕ → Op → Table → Table
apply now (inserts id p) t = (insert now id p t).1
apply now (claims lease locked) t = (claim_pending now lease locked t).1
apply now (marks_sent id result_id) t = (mark_sent now id result_id t).1
apply now (marks_failed id e next) t = mark_failed now id e next t
apply now reaps t = (mark_timed_out now t).1
apply now (resends id) t = resend now id t
apply now (sets id s) t = (update_status now id s t).1

unfoldable pub run : Table → List (ℕ × Op) → Table
run t [] = t
run t ((now, op) ∷ ops) = run (apply now op t) ops

-- The statement names the row `id`: the holder of a claim and the operator do, claims and the
-- reaper do not.
abbrev pub names : ℕ → Op → Bool
names id (inserts j p) = j == id
names id (claims lease locked) = false
names id (marks_sent j result_id) = j == id
names id (marks_failed j e next) = j == id
names id reaps = false
names id (resends j) = j == id
names id (sets j s) = j == id
