-- ===== src/Repo/Run/Over.antt =====
-- Rows that no claim of internal/repo/queries/signal_messages.sql hands out again.
use mathlib.Core.Path.{subst}
use go_signalium.Base.{
  ℕ, Bool, true, false, ◌&&◌, ◌≡◌, ◌≢◌, refl, sym, ◌∙◌, ◌⊎◌, inl, inr, some, List, [], ◌∷◌, arith,
  Memᴰ, Bool-cases, ◌==◌,
}
use go_signalium.Domain.{sent, failed, permanent_failed, timed_out}
use go_signalium.Repo.{
  Row, Table, update_where, has_id, is_live, is_overdue, is_resendable, is_eligible, claim_row,
  claim_pending, sent_row, failed_row, mark_failed, timed_out_row, mark_timed_out, resend_row,
  resend, status_row, update_status,
}
use go_signalium.Repo.Updates.{update_where_hit, update_where_miss, mark_sent_cases}
use go_signalium.Repo.Insert.{insert_cases, IsWellFormed}
use go_signalium.Repo.Claim.{Claims, claim_pending_lem}
use go_signalium.Repo.Run.{
  Op, inserts, claims, marks_sent, marks_failed, reaps, resends, sets, apply, run,
}
use go_signalium.Repo.Run.Lease.{claim_result, claimed_id}
use go_signalium.Repo.Run.WellFormed.{apply-IsWellFormed, run-IsWellFormed, same_row}

-- The send of the row came to an end, or its deadline passed.
abbrev pub IsOver : Row → Type 0
IsOver r =
    (r.status ≡ sent) ⊎ (r.status ≡ failed) ⊎ (r.status ≡ permanent_failed) ⊎ (r.status ≡ timed_out)

-- An operator's statement for the row.
abbrev pub is_request : ℕ → Op → Bool
is_request id (inserts j p) = false
is_request id (claims lease locked) = false
is_request id (marks_sent j result_id) = false
is_request id (marks_failed j e next) = false
is_request id reaps = false
is_request id (resends j) = j == id
is_request id (sets j x) = j == id

-- No statement of the history is an operator's for the row.
abbrev pub AreUnasked : ℕ → List (ℕ × Op) → Type 0
AreUnasked id [] = Unit
AreUnasked id ((now, op) ∷ ops) = (is_request id op ≡ false) × AreUnasked id ops

over-ineligible : (now : ℕ) (r : Row) → IsOver r → is_eligible now r ≡ false
unfolding is_eligible
over-ineligible now r h = ground arith

-- A claim leaves a row that is not eligible as it is.
pub claim_passes :
    (now lease : ℕ) (locked : ℕ → Bool) (t : Table) (r : Row)
    → IsWellFormed t
    → is_eligible now r ≡ false
    → Memᴰ r t
    → Memᴰ r (claim_pending now lease locked t).1
claim_passes now lease locked t r w h m = elim (claim_pending_lem now lease locked t) [
  | inl n ↦ rw n.nothing m
  | inr (q, c) ↦
      rw c.written (update_where_miss (has_id q.id) (claim_row now lease) t m (other q c))
]
  where
    clash : (q : Row) → Claims now lease locked t (claim_pending now lease locked t) q → q ≡ r → ⊥
    clash q c e =
        let elig : is_eligible now r ≡ true = subst (λ x. is_eligible now x ≡ true) e c.eligible in
        cc

    other :
        (q : Row)
        → Claims now lease locked t (claim_pending now lease locked t) q
        → has_id q.id r ≡ false
    other q c = elim (Bool-cases (has_id q.id r)) [
      | inl e ↦ absurd (clash q c (same_row t q r w c.stands m (ground arith)))
      | inr e ↦ e
    ]

-- The table has a row of that id, and it is over.
abbrev HasOver : ℕ → Table → Type 0
HasOver id t = (r : Row) × Memᴰ r t × (r.id ≡ id) × IsOver r

module _ (id : ℕ) where
  -- A row of an UPDATE that leaves what is over so.
  updates-HasOver :
      (p : Row → Bool) (f : Row → Row) (t : Table)
      → ((r : Row) → p r ≡ true → r.id ≡ id → ((f r).id ≡ r.id) × IsOver (f r))
      → HasOver id t
      → HasOver id (update_where p f t)
  updates-HasOver p f t keep (r, m, n, o) = elim (Bool-cases (p r)) [
    | inl e ↦ let (same, o') = keep r e n in (f r, update_where_hit p f t m e, same ∙ n, o')
    | inr e ↦ (r, update_where_miss p f t m e, n, o)
  ]

  apply-HasOver :
      (now : ℕ) (op : Op) (t : Table)
      → is_request id op ≡ false
      → IsWellFormed t
      → HasOver id t
      → HasOver id (apply now op t)
  unfolding apply mark_failed mark_timed_out resend update_status sent_row failed_row timed_out_row
  apply-HasOver now (inserts j p) t q w (r, m, n, o) =
      insert_cases (HasOver id) now j p t (r, m, n, o) (λ _ _. (r, Memᴰ.tail m, n, o))
  apply-HasOver now (claims lease locked) t q w (r, m, n, o) =
      (r, claim_passes now lease locked t r w (over-ineligible now r o) m, n, o)
  apply-HasOver now (marks_sent j result_id) t q w h =
      mark_sent_cases (HasOver id) now j result_id t h
        (updates-HasOver (has_id j) (sent_row now result_id) t (λ r _ _. (refl, inl refl)) h)
  apply-HasOver now (marks_failed j e next) t q w h =
      updates-HasOver (has_id j) (failed_row now e next) t (λ r _ _. (refl, ground arith)) h
  apply-HasOver now reaps t q w h =
      updates-HasOver (is_overdue now) (timed_out_row now) t (λ r _ _. (refl, inr (inr (inr refl))))
        h
  apply-HasOver now (resends j) t q w h =
      updates-HasOver (λ r. has_id j r && is_resendable r.status) (resend_row now) t
        (λ r e n. absurd (ground arith)) h
  apply-HasOver now (sets j x) t q w h =
      updates-HasOver (λ r. has_id j r && is_live r) (status_row now x) t
        (λ r e n. absurd (ground arith)) h

  run-HasOver :
      (t : Table) (ops : List (ℕ × Op))
      → AreUnasked id ops
      → IsWellFormed t
      → HasOver id t
      → HasOver id (run t ops)
  unfolding run
  run-HasOver t [] a w h = h
  run-HasOver t ((now, op) ∷ ops) a w h =
      run-HasOver (apply now op t) ops a.1 (apply-IsWellFormed now op t w)
        (apply-HasOver now op t a.0 w h)

-- A row that is SENT, FAILED, PERMANENT_FAILED or TIMED_OUT is not claimed again: from a well-formed
-- table, let any statements of any clients run, the MarkSent and MarkFailed of workers that come late
-- for the row among them, but no Resend and no UpdateStatus of the row; then no claim returns it, at any
-- time.
pub over_exclusion :
    (t : Table) (r : Row) (ops : List (ℕ × Op)) (later lease : ℕ) (locked : ℕ → Bool) (s : Row)
    → IsWellFormed t
    → Memᴰ r t
    → IsOver r
    → AreUnasked r.id ops
    → (claim_pending later lease locked (run t ops)).0 ≡ some s
    → s.id ≢ r.id
over_exclusion t r ops later lease locked s w m o a e same =
    let (q, c, at) = claim_result later lease locked (run t ops) s e in
    let (x, k, n, over) = run-HasOver r.id t ops a w (r, m, refl, o) in
    let one : q ≡ x =
      same_row (run t ops) q x (run-IsWellFormed t ops w) c.stands k
        (sym (claimed_id later lease s q at) ∙ same ∙ sym n) in
    let shut : is_eligible later q ≡ false =
      subst (λ y. is_eligible later y ≡ false) (sym one) (over-ineligible later x over) in
    ground (arith, c.eligible)
