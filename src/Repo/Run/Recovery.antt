-- ===== src/Repo/Run/Recovery.antt =====
-- What becomes of a claim whose worker is never heard of again.
use mathlib.Core.Path.{subst}
use go_signalium.Base.{
  ℕ, ◌+◌, ◌≤◌, ◌<◌, Bool, true, false, ◌&&◌, ◌≡◌, refl, sym, ap, ◌∙◌, some, Option, none, List, [],
  ◌∷◌, arith, Memᴰ, ==_refl,
}
use go_signalium.Domain.{sending}
use go_signalium.Repo.{
  Row, Table, has_id, is_live, is_overdue, is_resendable, is_eligible, in_time, update_where,
  claim_row, claim_pending, sent_row, failed_row, mark_failed, timed_out_row, mark_timed_out,
  resend_row, resend, status_row, update_status,
}
use go_signalium.Repo.Updates.{update_where_hit, update_where_miss, mark_sent_cases}
use go_signalium.Repo.Insert.{insert_cases, IsWellFormed}
use go_signalium.Repo.Run.{
  Op, inserts, claims, marks_sent, marks_failed, reaps, resends, sets, apply, run, names,
}
use go_signalium.Repo.Run.Lease.{claim_result, AreForeign}
use go_signalium.Repo.Run.Over.{claim_passes}
use go_signalium.Repo.Run.WellFormed.{apply-IsWellFormed}

module _ (r : Row) (until later : ℕ) (busy : r.status ≡ sending)
    (lease_end : until ≤ r.next_attempt_at) (past : until < later)
    (timely : in_time later r.timeout_at ≡ true) where
  idle : (now : ℕ) → now ≤ until → is_eligible now r ≡ false
  unfolding is_eligible
  idle now le = ground arith

  in_time_before : (now : ℕ) → now ≤ until → is_overdue now r ≡ false
  unfolding is_overdue
  in_time_before now le = ground (arith, still r.timeout_at timely)
    where
      still : (o : Option ℕ) → in_time later o ≡ true → in_time now o ≡ true
      still none h = refl
      still (some d) h = ground arith

  apply-stands :
      (now : ℕ) (op : Op) (t : Table)
      → now ≤ until
      → names r.id op ≡ false
      → IsWellFormed t
      → Memᴰ r t
      → Memᴰ r (apply now op t)
  unfolding apply mark_failed mark_timed_out resend update_status
  apply-stands now (inserts j p) t le n w m = insert_cases (Memᴰ r) now j p t m (λ _ _. Memᴰ.tail m)
  apply-stands now (claims lease locked) t le n w m =
      claim_passes now lease locked t r w (idle now le) m
  apply-stands now (marks_sent j result_id) t le n w m =
      mark_sent_cases (Memᴰ r) now j result_id t m
        (update_where_miss (has_id j) (sent_row now result_id) t m (ground arith))
  apply-stands now (marks_failed j e next) t le n w m =
      update_where_miss (has_id j) (failed_row now e next) t m (ground arith)
  apply-stands now reaps t le n w m =
      update_where_miss (is_overdue now) (timed_out_row now) t m (in_time_before now le)
  apply-stands now (resends j) t le n w m =
      update_where_miss (λ q. has_id j q && is_resendable q.status) (resend_row now) t m
        (ground arith)
  apply-stands now (sets j x) t le n w m =
      update_where_miss (λ q. has_id j q && is_live q) (status_row now x) t m (ground arith)

  run-stands :
      (t : Table) (ops : List (ℕ × Op))
      → AreForeign r.id until ops
      → IsWellFormed t
      → Memᴰ r t
      → Memᴰ r (run t ops)
  unfolding run
  run-stands t [] f w m = m
  run-stands t ((now, op) ∷ ops) f w m =
      run-stands (apply now op t) ops f.2 (apply-IsWellFormed now op t w)
        (apply-stands now op t f.0 f.1 w m)

-- What a claim wrote into the row that it returned.
claim-wrote :
    (now lease : ℕ) (q r : Row)
    → r ≡ claim_row now lease q
    → is_eligible now q ≡ true
    → (r.status ≡ sending) × (r.next_attempt_at ≡ now + lease) × (is_live r ≡ true)
unfolding claim_row is_eligible
claim-wrote now lease q r e h = (
  ap (λ (x : Row). x.status) e,
  ap (λ (x : Row). x.next_attempt_at) e,
  ap is_live e ∙ ground arith,
)

again_eligible :
    (later until : ℕ) (r : Row)
    → (r.status ≡ sending) × (r.next_attempt_at ≡ until) × (is_live r ≡ true)
    → until < later
    → in_time later r.timeout_at ≡ true
    → is_eligible later r ≡ true
unfolding is_eligible
again_eligible later until r h lt t = ground (arith, h.0, h.1, h.2)

claimed-IsWellFormed :
    (now lease : ℕ) (locked : ℕ → Bool) (t : Table)
    → IsWellFormed t
    → IsWellFormed (claim_pending now lease locked t).1
unfolding apply
claimed-IsWellFormed now lease locked t w = apply-IsWellFormed now (claims lease locked) t w

-- A claim that is never settled is not lost: on a well-formed table, let any statements run up to the
-- end of its lease that do not name the row; then at any time after the lease, while the deadline has
-- not passed, the row stands as the claim left it and is eligible for the next claim.
pub lease_expires :
    (now lease : ℕ) (locked : ℕ → Bool) (t : Table) (r : Row) (ops : List (ℕ × Op)) (later : ℕ)
    → IsWellFormed t
    → (claim_pending now lease locked t).0 ≡ some r
    → AreForeign r.id (now + lease) ops
    → now + lease < later
    → in_time later r.timeout_at ≡ true
    → Memᴰ r (run (claim_pending now lease locked t).1 ops) × (is_eligible later r ≡ true)
lease_expires now lease locked t r ops later w e f past timely =
    let (q, c, at) = claim_result now lease locked t r e in
    let wrote = claim-wrote now lease q r at c.eligible in
    let there : Memᴰ r (claim_pending now lease locked t).1 = rw c.written (
      subst (λ x. Memᴰ x (update_where (has_id q.id) (claim_row now lease) t)) (sym at)
        (update_where_hit (has_id q.id) (claim_row now lease) t c.stands (==_refl q.id))) in
    (
      run-stands r (now + lease) later wrote.0 (omega (arith, wrote.1)) past timely
          (claim_pending now lease locked t).1 ops f (claimed-IsWellFormed now lease locked t w)
          there,
      again_eligible later (now + lease) r wrote past timely,
    )
