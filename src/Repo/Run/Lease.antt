-- ===== src/Repo/Run/Lease.antt =====
-- The lease: ClaimPending writes next_attempt_at = now() + lease, and hands the row out again only
-- after that time.
use go_signalium.Base.{
  ℕ, ◌+◌, ◌≤◌, Bool, false, ◌≡◌, refl, ◌∙◌, if_elim, ◌≢◌, sym, ap, ◌⊎◌, inl, inr, some, List, [],
  ◌∷◌, arith, All, All-Mem, All-of_Mem,
}
use mathlib.Core.Path.{subst}
use go_signalium.Domain.{sending, timed_out}
use go_signalium.Repo.{
  Row, Table, update_where, has_id, is_eligible, claim_row, claim_pending, sent_row, mark_sent,
  failed_row, mark_failed, timed_out_row, mark_timed_out, resend_row, resend, status_row,
  update_status,
}
use go_signalium.Repo.Updates.{mark_sent_cases, All-update_where, Mem-update_where}
use go_signalium.Repo.Insert.{insert, insert_cases, new_row}
use go_signalium.Repo.Claim.{ClaimsNone, Claims, claim_pending_lem}
use go_signalium.Repo.Run.{
  Op, inserts, claims, marks_sent, marks_failed, reaps, resends, sets, apply, run, names,
}

-- No row with this id is eligible up to the time `until`: it is being sent, or it timed out.
abbrev IsHeld : ℕ → ℕ → Row → Type 0
IsHeld id until r =
    r.id ≡ id → ((r.status ≡ sending) × (until ≤ r.next_attempt_at)) ⊎ (r.status ≡ timed_out)

IsHeld-ineligible :
    (id until now : ℕ) (r : Row)
    → IsHeld id until r
    → r.id ≡ id
    → now ≤ until
    → is_eligible now r ≡ false
unfolding is_eligible
IsHeld-ineligible id until now r h e le = elim (h e) [
  | inl (s, n) ↦ ground arith
  | inr s ↦ ground arith
]

module _ (id until : ℕ) where
  claim-IsHeld :
      (now lease : ℕ) (locked : ℕ → Bool) (t : Table)
      → now ≤ until
      → All (IsHeld id until) t
      → All (IsHeld id until) (claim_pending now lease locked t).1
  unfolding claim_row
  claim-IsHeld now lease locked t le a = elim (claim_pending_lem now lease locked t) [
    | inl n ↦ rw n.nothing a
    | inr (r, c) ↦ rw c.written (
        All-update_where (has_id r.id) (claim_row now lease) (IsHeld id until)
          (λ q e h same. absurd (taken r c (ground arith))) t a)
  ]
    where
      taken :
          (r : Row) → Claims now lease locked t (claim_pending now lease locked t) r → r.id ≡ id → ⊥
      taken r c same = ground (
        arith,
        IsHeld-ineligible id until now r (All-Mem (IsHeld id until) a c.stands) same le,
        c.eligible,
      )

  apply-IsHeld :
      (now : ℕ) (op : Op) (t : Table)
      → now ≤ until
      → names id op ≡ false
      → All (IsHeld id until) t
      → All (IsHeld id until) (apply now op t)
  unfolding apply insert new_row mark_sent mark_failed mark_timed_out resend update_status sent_row
      failed_row timed_out_row resend_row status_row
  apply-IsHeld now (inserts j p) t le o a =
      insert_cases (All (IsHeld id until)) now j p t a (λ _ _. (λ same. absurd (ground arith), a))
  apply-IsHeld now (claims lease locked) t le o a = claim-IsHeld now lease locked t le a
  apply-IsHeld now (marks_sent j result_id) t le o a =
      mark_sent_cases (All (IsHeld id until)) now j result_id t a (
        All-update_where (has_id j) (sent_row now result_id) (IsHeld id until)
          (λ q e h same. absurd (ground arith)) t a)
  apply-IsHeld now (marks_failed j e next) t le o a =
      All-update_where (has_id j) (failed_row now e next) (IsHeld id until)
        (λ q e h same. absurd (ground arith)) t a
  apply-IsHeld now reaps t le o a =
      All-update_where _ (timed_out_row now) (IsHeld id until) (λ q e h same. inr refl) t a
  apply-IsHeld now (resends j) t le o a =
      All-update_where _ (resend_row now) (IsHeld id until) (λ q e h same. absurd (ground arith)) t
        a
  apply-IsHeld now (sets j s) t le o a =
      All-update_where _ (status_row now s) (IsHeld id until) (λ q e h same. absurd (ground arith))
        t a

  -- The database time of each statement is at most `until`, and no statement names the row.
  abbrev pub AreForeign : List (ℕ × Op) → Type 0
  AreForeign [] = Unit
  AreForeign ((now, op) ∷ ops) = (now ≤ until) × (names id op ≡ false) × AreForeign ops

  run-IsHeld :
      (t : Table) (ops : List (ℕ × Op))
      → AreForeign ops
      → All (IsHeld id until) t
      → All (IsHeld id until) (run t ops)
  unfolding run
  run-IsHeld t [] f a = a
  run-IsHeld t ((now, op) ∷ ops) f a =
      run-IsHeld (apply now op t) ops f.2 (apply-IsHeld now op t f.0 f.1 a)

pub claim_result :
    (now lease : ℕ) (locked : ℕ → Bool) (t : Table) (r : Row)
    → (claim_pending now lease locked t).0 ≡ some r
    → (q : Row) × Claims now lease locked t (claim_pending now lease locked t) q
      × (r ≡ claim_row now lease q)
claim_result now lease locked t r e = elim (claim_pending_lem now lease locked t) [
  | inl n ↦ absurd (nothing n)
  | inr (q, c) ↦ (q, c, ground (arith, c.returned))
]
  where
    nothing : ClaimsNone now locked t (claim_pending now lease locked t) → ⊥
    nothing n = ground (arith, n.nothing)

pub claimed_id : (now lease : ℕ) (r q : Row) → r ≡ claim_row now lease q → r.id ≡ q.id
unfolding claim_row
claimed_id now lease r q e = ap (λ (x : Row). x.id) e

claim-holds :
    (now lease : ℕ) (locked : ℕ → Bool) (t : Table) (q : Row)
    → All (IsHeld q.id (now + lease)) (update_where (has_id q.id) (claim_row now lease) t)
unfolding claim_row
claim-holds now lease locked t q = All-of_Mem (IsHeld q.id (now + lease)) _ λ x m.
    let (y, _, e) = Mem-update_where (has_id q.id) (claim_row now lease) t m in
    subst (IsHeld q.id (now + lease)) (sym e) (
      if_elim (IsHeld q.id (now + lease)) (has_id q.id y) (claim_row now lease y) y
        (λ h same. inl (refl, omega arith)) (λ h same. absurd (ground arith)))

-- A claimed row is not handed out again while its lease lasts: after the claim, let any statements
-- run up to the end of the lease that do not name the row (other claims, the reaper, inserts, work
-- on other rows); then no claim up to that time returns the row.
pub lease_exclusion :
    (now lease : ℕ) (locked : ℕ → Bool) (t : Table) (r : Row) (ops : List (ℕ × Op))
    (later lease' : ℕ) (locked' : ℕ → Bool) (s : Row)
    → (claim_pending now lease locked t).0 ≡ some r
    → AreForeign r.id (now + lease) ops
    → later ≤ now + lease
    → (claim_pending later lease' locked' (run (claim_pending now lease locked t).1 ops)).0 ≡ some s
    → s.id ≢ r.id
lease_exclusion now lease locked t r ops later lease' locked' s e f le e' same =
    let (q, c, at) = claim_result now lease locked t r e in
    let (p, d, at') =
      claim_result later lease' locked' (run (claim_pending now lease locked t).1 ops) s e' in
    let held : All (IsHeld r.id (now + lease)) (claim_pending now lease locked t).1 = rw c.written (
      subst (λ j. All (IsHeld j (now + lease)) (update_where (has_id q.id) (claim_row now lease) t))
        (sym (claimed_id now lease r q at)) (claim-holds now lease locked t q)) in
    let after : IsHeld r.id (now + lease) p =
      All-Mem (IsHeld r.id (now + lease)) (run-IsHeld r.id (now + lease) _ ops f held) d.stands in
    ground (
      arith,
      IsHeld-ineligible r.id (now + lease) later p after
          (sym (claimed_id later lease' s p at') ∙ same) le,
      d.eligible,
    )
