-- ===== src/Repo/Run/Transitions.antt =====
-- The state machine of internal/domain/status.go and docs/persistence.md, as the statements drive it.
use mathlib.Core.Path.{subst}
use go_signalium.Base.{
  ◌+◌, ◌≤◌, ◌<◌, Option, none, some, Bool-cases, leb, if◌then◌else◌, ℕ, Bool, true, ◌&&◌, ◌≡◌, refl,
  sym, ◌⊎◌, inl, inr, ◌∷◌, arith, if_elim, Memᴰ,
}
use go_signalium.Base.Text.{Text}
use go_signalium.Base.Int.{ℤ, pos, negsuc, leb_ℕ}
use go_signalium.Domain.{pending, sending, sent, failed, permanent_failed, timed_out}
use go_signalium.Repo.{
  Row, Table, update_where, has_id, is_live, is_overdue, is_resendable, is_eligible, claim_row,
  claim_pending, sent_row, failed_row, mark_failed, timed_out_row, mark_timed_out, resend_row,
  resend, status_row, update_status,
}
use go_signalium.Repo.Updates.{Mem-update_where, mark_sent_cases}
use go_signalium.Repo.Insert.{insert_cases, new_row, IsWellFormed}
use go_signalium.Repo.Claim.{claim_pending_lem}
use go_signalium.Repo.Run.{
  Op, inserts, claims, marks_sent, marks_failed, reaps, resends, sets, apply, names,
}
use go_signalium.Repo.Run.WellFormed.{same_row}

-- The attempts of a row against its limit.
abbrev pub IsBelow : Row → Type 0
IsBelow r = (n : ℕ) × (r.max_attempts ≡ pos n) × (r.attempts < n)

abbrev pub IsUsedUp : Row → Type 0
IsUsedUp r = (n : ℕ) × (((r.max_attempts ≡ pos n) × (n ≤ r.attempts)) ⊎ (r.max_attempts ≡ negsuc n))

-- The step that each statement may take a row: the arrows of the state machine, each with its guard.
abbrev pub Moves : ℕ → Op → Row → Row → Type 0
Moves now (inserts id p) r s = ⊥
Moves now (claims lease locked) r s =
    ((r.status ≡ pending) ⊎ (r.status ≡ sending))
    × (s.status ≡ sending)
    × (s.attempts ≡ r.attempts + 1)
    × (s.next_attempt_at ≡ now + lease)
Moves now (marks_sent id result_id) r s =
    (r.id ≡ id) × (r.status ≡ sending) × (s.status ≡ sent) × (s.result_id ≡ some result_id)
Moves now (marks_failed id e next) r s =
    (r.id ≡ id)
    × (r.status ≡ sending)
    × (((s.status ≡ failed) × IsBelow r) ⊎ ((s.status ≡ permanent_failed) × IsUsedUp r))
Moves now reaps r s =
    ((r.status ≡ pending) ⊎ (r.status ≡ sending) ⊎ (r.status ≡ failed))
    × (s.status ≡ timed_out)
    × ((d : ℕ) × (r.timeout_at ≡ some d) × (d ≤ now))
Moves now (resends id) r s =
    (r.id ≡ id)
    × ((r.status ≡ failed) ⊎ (r.status ≡ timed_out) ⊎ (r.status ≡ permanent_failed))
    × (s.status ≡ pending)
    × (s.attempts ≡ 0)
Moves now (sets id x) r s = (r.id ≡ id) × (s.status ≡ x)

-- MarkSent and MarkFailed come from a worker that holds the row: it is SENDING.
abbrev pub IsHeld : Op → Table → Type 0
IsHeld (inserts id p) t = Unit {0}
IsHeld (claims lease locked) t = Unit {0}
IsHeld (marks_sent id result_id) t = (r : Row) → Memᴰ r t → r.id ≡ id → r.status ≡ sending
IsHeld (marks_failed id e next) t = (r : Row) → Memᴰ r t → r.id ≡ id → r.status ≡ sending
IsHeld reaps t = Unit {0}
IsHeld (resends id) t = Unit {0}
IsHeld (sets id x) t = Unit {0}

-- The row `s` stands for `r` after the statement: it is `r`, or `r` moved.
pub record Follows (now : ℕ) (op : Op) (r s : Row) : Type 0 where
  pub same_id : s.id ≡ r.id
  pub moved : (s ≡ r) ⊎ Moves now op r s

pub data Origin (now : ℕ) (op : Op) (t : Table) (s : Row) : Type 0 where
  old : (r : Row) → Memᴰ r t → Follows now op r s → Origin now op t s
  new : s.status ≡ pending → s.attempts ≡ 0 → names s.id op ≡ true → Origin now op t s

stays : (now : ℕ) (op : Op) (t : Table) (s : Row) → Memᴰ s t → Origin now op t s
stays now op t s m = old s m (record { same_id = refl; moved = inl refl })

update_where-Origin :
    (now : ℕ) (op : Op) (p : Row → Bool) (f : Row → Row) (t : Table) (s : Row)
    → ((r : Row) → Memᴰ r t → p r ≡ true → ((f r).id ≡ r.id) × Moves now op r (f r))
    → Memᴰ s (update_where p f t)
    → Origin now op t s
update_where-Origin now op p f t s move m =
    let (r, i, e) = Mem-update_where p f t m in
    subst (Origin now op t) (sym e) (
      if_elim (Origin now op t) (p r) (f r) r
        (λ h.
          let (same, step) = move r i h in old r i (record { same_id = same; moved = inr step }))
        (λ h. stays now op t r i))

claimable_moves :
    (now : ℕ) (r : Row) → is_eligible now r ≡ true → (r.status ≡ pending) ⊎ (r.status ≡ sending)
unfolding is_eligible
claimable_moves now r h = ground arith

overdue-Moves :
    (now : ℕ) (r : Row) → is_overdue now r ≡ true → Moves now reaps r (timed_out_row now r)
unfolding is_overdue timed_out_row
overdue-Moves now r h = (ground arith, refl, passed r.timeout_at refl)
  where
    passed : (o : Option ℕ) → r.timeout_at ≡ o → (d : ℕ) × (r.timeout_at ≡ some d) × (d ≤ now)
    passed none e = absurd (ground arith)
    passed (some d) e = (d, e, ground arith)

-- MarkFailed compares the attempts with their limit.
failed_moves :
    (now : ℕ) (e : Text) (next : ℕ) (r : Row)
    → (((failed_row now e next r).status ≡ failed) × IsBelow r)
      ⊎ (((failed_row now e next r).status ≡ permanent_failed) × IsUsedUp r)
unfolding failed_row
failed_moves now e next r = limit r.max_attempts refl
  where
    limit :
        (k : ℤ)
        → r.max_attempts ≡ k
        → (((if leb_ℕ k r.attempts then permanent_failed else failed) ≡ failed) × IsBelow r)
          ⊎ (((if leb_ℕ k r.attempts then permanent_failed else failed) ≡ permanent_failed)
              × IsUsedUp r)
    limit (negsuc n) q = inr (refl, (n, inr q))
    limit (pos n) q = elim (Bool-cases (leb n r.attempts)) [
      | inl h ↦ inr (rw h refl, (n, inl (q, ground arith)))
      | inr h ↦ inl (rw h refl, (n, q, ground arith))
    ]

claim-Origin :
    (now lease : ℕ) (locked : ℕ → Bool) (t : Table) (s : Row)
    → IsWellFormed t
    → Memᴰ s (claim_pending now lease locked t).1
    → Origin now (claims lease locked) t s
unfolding claim_row
claim-Origin now lease locked t s w m = elim (claim_pending_lem now lease locked t) [
  | inl n ↦ stays now _ t s (rw n.nothing at m)
  | inr (q, c) ↦
      update_where-Origin now (claims lease locked) (has_id q.id) (claim_row now lease) t s
        (λ r i h. (
          refl,
          (
            claimable_moves now r (
                subst (λ x. is_eligible now x ≡ true) (same_row t q r w c.stands i (ground arith))
                  c.eligible),
            refl,
            refl,
            refl,
          ),
        ))
        (rw c.written at m)
]

-- Each statement takes each row of a well-formed table along the state machine, and only Insert adds a
-- row, PENDING with no attempt made. Where MarkSent and MarkFailed name a row that is SENDING: claims
-- lead from PENDING or SENDING to SENDING and count an attempt; MarkSent leads from SENDING to SENT,
-- MarkFailed from SENDING to FAILED while attempts are left and to PERMANENT_FAILED once they are used
-- up; the sweep leads to TIMED_OUT, from PENDING, SENDING and FAILED past the deadline; a resend leads
-- back to PENDING from FAILED, PERMANENT_FAILED and TIMED_OUT; and an operator's update to what it names.
pub apply-Origin :
    (now : ℕ) (op : Op) (t : Table) (s : Row)
    → IsWellFormed t
    → IsHeld op t
    → Memᴰ s (apply now op t)
    → Origin now op t s
unfolding apply mark_failed mark_timed_out resend update_status sent_row timed_out_row resend_row
    status_row
apply-Origin now (inserts id p) t s w held m =
    insert_cases (λ x. Memᴰ s x → Origin now (inserts id p) t s) now id p t (stays now _ t s)
      (λ _ _ i. added i) m
  where
    added : Memᴰ s (new_row now id p ∷ t) → Origin now (inserts id p) t s
    added (Memᴰ.head e) =
        subst (Origin now (inserts id p) t) (sym e) (unfold new_row in new refl refl (ground arith))
    added (Memᴰ.tail i) = stays now _ t s i
apply-Origin now (claims lease locked) t s w held m = claim-Origin now lease locked t s w m
apply-Origin now (marks_sent id result_id) t s w held m =
    mark_sent_cases (λ x. Memᴰ s x → Origin now (marks_sent id result_id) t s) now id result_id t
      (stays now _ t s)
      (update_where-Origin now _ (has_id id) (sent_row now result_id) t s
        (λ r i h. (refl, (ground arith, held r i (ground arith), refl, refl))))
      m
apply-Origin now (marks_failed id e next) t s w held m =
    update_where-Origin now _ (has_id id) (failed_row now e next) t s
      (λ r i h. (
        unfold failed_row in refl,
        (ground arith, held r i (ground arith), failed_moves now e next r),
      ))
      m
apply-Origin now reaps t s w held m =
    update_where-Origin now _ (is_overdue now) (timed_out_row now) t s
      (λ r _ h. (refl, overdue-Moves now r h)) m
apply-Origin now (resends id) t s w held m =
    update_where-Origin now _ (λ r. has_id id r && is_resendable r.status) (resend_row now) t s
      (λ r _ h. (refl, (ground arith, ground arith, refl, refl))) m
apply-Origin now (sets id x) t s w held m =
    update_where-Origin now _ (λ r. has_id id r && is_live r) (status_row now x) t s
      (λ r _ h. (refl, (ground arith, refl))) m
