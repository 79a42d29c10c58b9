-- ===== src/Repo/Run/WellFormed.antt =====
-- The constraints of the schema hold in every history.
use go_signalium.Base.{
  Memᴰ, sym, ap, ◌∙◌, ℕ, Bool, true, false, ◌≡◌, refl, inl, inr, List, [], ◌∷◌, arith, map,
  Bool-cases, All, count,
}
use go_signalium.Repo.{
  Row, Table, exists, update_where, has_id, claim_row, claim_pending, sent_row, mark_sent,
  failed_row, mark_failed, timed_out_row, mark_timed_out, resend_row, resend, status_row,
  update_status,
}
use go_signalium.Repo.Updates.{map-update_where, mark_sent_cases}
use go_signalium.Repo.Insert.{
  Identity, identity, clashes, new_row, InsertParams, insert, insert_cases, IsWellFormed,
}
use go_signalium.Repo.Claim.{claim_pending_lem}
use go_signalium.Repo.Run.{
  Op, inserts, claims, marks_sent, marks_failed, reaps, resends, sets, apply, run,
}

-- An UPDATE that keeps the constrained columns of each row keeps the constraints.
update_where-IsWellFormed :
    (p : Row → Bool) (f : Row → Row) (t : Table)
    → ((r : Row) → identity (f r) ≡ identity r)
    → IsWellFormed t
    → IsWellFormed (update_where p f t)
update_where-IsWellFormed p f t same w = rw (map-update_where p f identity same t) w

no_clash :
    (a : Identity) (t : Table)
    → exists (λ r. clashes a (identity r)) t ≡ false
    → All (λ b. clashes a b ≡ false) (map identity t)
unfolding count
no_clash a [] h = tt
no_clash a (r ∷ rs) h = elim (Bool-cases (clashes a (identity r))) [
  | inl e ↦ absurd (clash e)
  | inr e ↦ (e, no_clash a rs (rw (e, count) at h))
]
  where
    clash : clashes a (identity r) ≡ true → ⊥
    clash e = ground arith

insert-IsWellFormed :
    (now id : ℕ) (p : InsertParams) (t : Table)
    → IsWellFormed t
    → IsWellFormed (insert now id p t).1
insert-IsWellFormed now id p t w =
    insert_cases IsWellFormed now id p t w
      (λ e o. unfold new_row in (no_clash (identity (new_row now id p)) t e, o, w))

claim_pending-IsWellFormed :
    (now lease : ℕ) (locked : ℕ → Bool) (t : Table)
    → IsWellFormed t
    → IsWellFormed (claim_pending now lease locked t).1
unfolding claim_row
claim_pending-IsWellFormed now lease locked t w = elim (claim_pending_lem now lease locked t) [
  | inl n ↦ rw n.nothing w
  | inr (r, c) ↦
      rw c.written (update_where-IsWellFormed (has_id r.id) (claim_row now lease) t (λ q. refl) w)
]

pub apply-IsWellFormed :
    (now : ℕ) (op : Op) (t : Table) → IsWellFormed t → IsWellFormed (apply now op t)
unfolding apply mark_sent mark_failed mark_timed_out resend update_status sent_row failed_row
    timed_out_row resend_row status_row
apply-IsWellFormed now (inserts id p) t w = insert-IsWellFormed now id p t w
apply-IsWellFormed now (claims lease locked) t w = claim_pending-IsWellFormed now lease locked t w
apply-IsWellFormed now (marks_sent id result_id) t w =
    mark_sent_cases IsWellFormed now id result_id t w
      (update_where-IsWellFormed (has_id id) (sent_row now result_id) t (λ r. refl) w)
apply-IsWellFormed now (marks_failed id e next) t w =
    update_where-IsWellFormed (has_id id) (failed_row now e next) t (λ r. refl) w
apply-IsWellFormed now reaps t w = update_where-IsWellFormed _ (timed_out_row now) t (λ r. refl) w
apply-IsWellFormed now (resends id) t w =
    update_where-IsWellFormed _ (resend_row now) t (λ r. refl) w
apply-IsWellFormed now (sets id s) t w =
    update_where-IsWellFormed _ (status_row now s) t (λ r. refl) w

-- Whatever statements run on a well-formed table, ids, external ids and idempotency keys stay
-- distinct and every row has exactly one target.
pub run-IsWellFormed : (t : Table) (ops : List (ℕ × Op)) → IsWellFormed t → IsWellFormed (run t ops)
unfolding run
run-IsWellFormed t [] w = w
run-IsWellFormed t ((now, op) ∷ ops) w =
    run-IsWellFormed (apply now op t) ops (apply-IsWellFormed now op t w)

clash_id : (a b : Row) → a.id ≡ b.id → clashes (identity a) (identity b) ≡ true
unfolding clashes
clash_id a b e = ground arith

head_differs :
    (x y : Row) (xs : Table)
    → All (λ b. clashes (identity x) b ≡ false) (map identity xs)
    → Memᴰ y xs
    → x.id ≡ y.id
    → ⊥
head_differs x y [] a m e = elim m [ ]
head_differs x y (q ∷ xs) a (Memᴰ.head h) e =
    let seen : clashes (identity x) (identity q) ≡ true =
      clash_id x q (e ∙ ap (λ (r : Row). r.id) h) in
    cc
head_differs x y (q ∷ xs) a (Memᴰ.tail m) e = head_differs x y xs a.1 m e

-- Rows of a well-formed table with one id are one row.
pub same_row : (t : Table) (r q : Row) → IsWellFormed t → Memᴰ r t → Memᴰ q t → r.id ≡ q.id → r ≡ q
same_row [] r q w m n e = elim m [ ]
same_row (x ∷ xs) r q w (Memᴰ.head h) (Memᴰ.head k) e = h ∙ sym k
same_row (x ∷ xs) r q w (Memᴰ.head h) (Memᴰ.tail n) e =
    absurd (head_differs x q xs w.0 n (sym (ap (λ (y : Row). y.id) h) ∙ e))
same_row (x ∷ xs) r q w (Memᴰ.tail m) (Memᴰ.head k) e =
    absurd (head_differs x r xs w.0 m (sym (e ∙ ap (λ (y : Row). y.id) k)))
same_row (x ∷ xs) r q w (Memᴰ.tail m) (Memᴰ.tail n) e = same_row xs r q w.2 m n e
