-- ===== src/Repo/Claim.antt =====
-- What ClaimPending selects, and what it writes.
use go_signalium.Base.{
  ℕ, ◌≤◌, Bool, true, false, not, ◌&&◌, ◌≡◌, refl, ap, ◌⊎◌, inl, inr, Option, none, some, [], ◌∷◌,
  arith, Memᴰ, Bool-cases, Option-cases, leb, leb→le, select, Mem-select, select-Mem, All, All-Mem,
}
use mathlib.Core.Path.{subst}
use mathlib.Core.Option.{some-injective}
use go_signalium.Repo.{
  Row, Table, has_id, update_where, is_eligible, soonest, claim_row, claim_pending,
}

soonest-eq-none : (t : Table) → soonest t ≡ none → t ≡ []
unfolding soonest
soonest-eq-none [] h = refl
soonest-eq-none (r ∷ rs) h = ground arith

All-le_trans :
    (n m : ℕ) (t : Table)
    → n ≤ m
    → All (λ s. m ≤ s.next_attempt_at) t
    → All (λ s. n ≤ s.next_attempt_at) t
All-le_trans n m [] h a = tt
All-le_trans n m (r ∷ rs) h a = (omega arith, All-le_trans n m rs h a.1)

abbrev IsLeast : Table → Row → Type 0
IsLeast t r = Memᴰ r t × All (λ s. r.next_attempt_at ≤ s.next_attempt_at) t

-- The chosen row is of the list, and no row of it is due earlier.
soonest-IsLeast : (t : Table) (r : Row) → soonest t ≡ some r → IsLeast t r
unfolding soonest
soonest-IsLeast [] r h = cc
soonest-IsLeast (q ∷ rs) r h = elim (Option-cases (soonest rs)) [
  | inl e ↦
      let same : q ≡ r = some-injective _ _ (rw (e, soonest) at h) in
      subst (IsLeast (q ∷ rs)) same (Memᴰ.head refl, (omega arith, rw (soonest-eq-none rs e) tt))
  | inr (s, e) ↦
      let (i, a) = soonest-IsLeast rs s e in
      elim (Bool-cases (leb q.next_attempt_at s.next_attempt_at)) [
        | inl b ↦ subst (IsLeast (q ∷ rs)) (ground arith) (
          Memᴰ.head refl,
          (omega arith, All-le_trans q.next_attempt_at s.next_attempt_at rs (leb→le _ _ b) a),
        )
        | inr b ↦ subst (IsLeast (q ∷ rs)) {x = s} (ground arith) (Memᴰ.tail i, (ground arith, a))
      ]
]

abbrev pub is_available : ℕ → (ℕ → Bool) → Row → Bool
is_available now locked r = is_eligible now r && not (locked r.id)

-- Nothing is claimed, and no row was to be had.
pub record ClaimsNone (now : ℕ) (locked : ℕ → Bool) (t : Table) (res : Option Row × Table)
    : Type 0 where
  pub nothing : res ≡ (none, t)
  pub all_taken : (s : Row) → Memᴰ s t → is_available now locked s ≡ false

-- The row `r` is claimed: it was to be had, it was due first, and it alone is written.
pub record Claims (now lease : ℕ) (locked : ℕ → Bool) (t : Table) (res : Option Row × Table)
    (r : Row) : Type 0 where
  pub stands : Memᴰ r t
  pub eligible : is_eligible now r ≡ true
  pub unlocked : locked r.id ≡ false
  pub first_due :
      (s : Row)
      → Memᴰ s t
      → is_available now locked s ≡ true
      → r.next_attempt_at ≤ s.next_attempt_at
  pub returned : res.0 ≡ some (claim_row now lease r)
  pub written : res.1 ≡ update_where (has_id r.id) (claim_row now lease) t

claim_step :
    (now lease : ℕ) (locked : ℕ → Bool) (t : Table) (o : Option Row)
    → soonest (select (is_available now locked) t) ≡ o
    → claim_pending now lease locked t ≡ elim o [
      | none ↦ (none, t)
      | some r ↦ (some (claim_row now lease r), update_where (has_id r.id) (claim_row now lease) t)
    ]
unfolding claim_pending
claim_step now lease locked t o e = rw (e, claim_pending)

select-eq-nil : (p : Row → Bool) (t : Table) → select p t ≡ [] → (s : Row) → Memᴰ s t → p s ≡ false
select-eq-nil p t h s m = elim (Bool-cases (p s)) [
  | inl e ↦ absurd (elim (rw h at (select-Mem p s t m e)) [ ])
  | inr e ↦ e
]

-- ClaimPending either finds that every row is ineligible or locked and changes nothing, or it claims
-- an eligible unlocked row with the least next_attempt_at, writes that row alone and returns it.
pub claim_pending_lem :
    (now lease : ℕ) (locked : ℕ → Bool) (t : Table)
    → ClaimsNone now locked t (claim_pending now lease locked t)
      ⊎ ((r : Row) × Claims now lease locked t (claim_pending now lease locked t) r)
claim_pending_lem now lease locked t =
    elim (Option-cases (soonest (select (is_available now locked) t))) [
      | inl e ↦ inl (record {
        nothing = claim_step now lease locked t none e;
        all_taken = select-eq-nil (is_available now locked) t (soonest-eq-none _ e);
      })
      | inr (r, e) ↦
          let (i, least) = soonest-IsLeast (select (is_available now locked) t) r e in
          let (m, free) = Mem-select (is_available now locked) r t i in
          inr (
            r,
            record {
              stands = m;
              eligible = ground arith;
              unlocked = ground arith;
              first_due = λ s ms av.
                  All-Mem (λ s. r.next_attempt_at ≤ s.next_attempt_at) least
                    (select-Mem (is_available now locked) s t ms av);
              returned = ap (λ x. x.0) (claim_step now lease locked t (some r) e);
              written = ap (λ x. x.1) (claim_step now lease locked t (some r) e);
            },
          )
    ]
