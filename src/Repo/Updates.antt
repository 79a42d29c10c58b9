-- ===== src/Repo/Updates.antt =====
-- What UPDATE … WHERE does to the rows of a table.
use go_signalium.Base.{
  ◌≤◌, ◌<◌, ℕ, if_elim, Bool, true, false, ◌≡◌, refl, ap, inl, inr, [], ◌∷◌, arith, map, Memᴰ,
  if◌then◌else◌, Bool-cases, count, All, some, first,
}
use go_signalium.Base.Text.{Text}
use go_signalium.Domain.{Result, ok, err, constraint}
use go_signalium.Repo.{has_id, sent_row, mark_sent, Row, Table, update_where}

module _ (p : Row → Bool) (f : Row → Row) where
  -- A row of the new table comes from a row of the old one.
  pub Mem-update_where :
      {s : Row} (t : Table)
      → Memᴰ s (update_where p f t)
      → (r : Row) × Memᴰ r t × (s ≡ (if p r then f r else r))
  unfolding update_where
  Mem-update_where [] m = elim m [ ]
  Mem-update_where (r ∷ rs) (Memᴰ.head e) = (r, Memᴰ.head refl, e)
  Mem-update_where (r ∷ rs) (Memᴰ.tail m) =
      let (q, i, e) = Mem-update_where rs m in (q, Memᴰ.tail i, e)

  pub update_where-Mem :
      {r : Row} (t : Table) → Memᴰ r t → Memᴰ (if p r then f r else r) (update_where p f t)
  unfolding update_where
  update_where-Mem [] m = elim m [ ]
  update_where-Mem (q ∷ rs) (Memᴰ.head e) = Memᴰ.head (rw e)
  update_where-Mem (q ∷ rs) (Memᴰ.tail m) = Memᴰ.tail (update_where-Mem rs m)

  pub update_where_hit :
      {r : Row} (t : Table) → Memᴰ r t → p r ≡ true → Memᴰ (f r) (update_where p f t)
  update_where_hit {r} t m h = rw h at (update_where-Mem {r = r} t m)

  pub update_where_miss :
      {r : Row} (t : Table) → Memᴰ r t → p r ≡ false → Memᴰ r (update_where p f t)
  update_where_miss {r} t m h = rw h at (update_where-Mem {r = r} t m)

  -- A measure of rows that the update leaves alone is left alone over the table.
  pub map-update_where {ℓ} :
      {A : Type ℓ} (g : Row → A)
      → ((r : Row) → g (f r) ≡ g r)
      → (t : Table) → map g (update_where p f t) ≡ map g t
  unfolding update_where
  map-update_where g same [] = refl
  map-update_where g same (r ∷ rs) = elim (Bool-cases (p r)) [
    | inl e ↦ rw (e, same r, map-update_where g same rs)
    | inr e ↦ rw (e, map-update_where g same rs)
  ]

  pub All-update_where {ℓ} :
      (P : Row → Type ℓ)
      → ((r : Row) → p r ≡ true → P r → P (f r))
      → (t : Table) → All P t
      → All P (update_where p f t)
  unfolding update_where
  All-update_where P keep [] a = tt
  All-update_where P keep (r ∷ rs) a = elim (Bool-cases (p r)) [
    | inl e ↦ rw e (keep r e a.0, All-update_where P keep rs a.1)
    | inr e ↦ rw e (a.0, All-update_where P keep rs a.1)
  ]

  -- Where the update makes its own test false, it leaves no row that passes the test.
  pub count-update_where_zero :
      ((r : Row) → p (f r) ≡ false) → (t : Table) → count p (update_where p f t) ≡ 0
  unfolding update_where count
  count-update_where_zero off [] = refl
  count-update_where_zero off (r ∷ rs) = elim (Bool-cases (p r)) [
    | inl e ↦ rw e (rw (off r) (count-update_where_zero off rs))
    | inr e ↦ rw e (rw e (count-update_where_zero off rs))
  ]

-- An update of no row is no update.
pub update_where_none :
    (p : Row → Bool) (f : Row → Row) (t : Table) → count p t ≡ 0 → update_where p f t ≡ t
unfolding update_where count
update_where_none p f [] h = refl
update_where_none p f (r ∷ rs) h = elim (Bool-cases (p r)) [
  | inl e ↦ absurd (omega (arith, rw e at h))
  | inr e ↦ rw e (ap (◌∷◌ r) (update_where_none p f rs (rw e at h)))
]

-- MarkSent leaves the table alone, or writes the rows with the id.
pub mark_sent_cases {ℓ} :
    (P : Table → Type ℓ) (now id : ℕ) (result_id : Text) (t : Table)
    → P t
    → P (update_where (has_id id) (sent_row now result_id) t)
    → P (mark_sent now id result_id t).1
unfolding mark_sent
mark_sent_cases P now id result_id t same done =
    if_elim (λ (x : Result (Unit {0}) × Table). P x.1) _ (err constraint, t)
      (ok tt, update_where (has_id id) (sent_row now result_id) t) (λ _. same) (λ _. done)

module _ (p q : Row → Bool) (f : Row → Row) (off : (r : Row) → q r ≡ true → p (f r) ≡ false) where
  -- An update whose rows do not pass the test `p` afterwards raises no count of `p`, and lowers it
  -- where it meets a row that passed.
  pub count-update_where-le : (t : Table) → count p (update_where q f t) ≤ count p t
  unfolding count update_where
  count-update_where-le [] = omega arith
  count-update_where-le (r ∷ rs) = ground (arith, off r, count-update_where-le rs)

  pub count-update_where-lt :
      (r : Row) (t : Table)
      → Memᴰ r t
      → q r ≡ true
      → p r ≡ true
      → count p (update_where q f t) < count p t
  unfolding count update_where
  count-update_where-lt r [] i h k = elim i [ ]
  count-update_where-lt r (s ∷ rs) (Memᴰ.head e) h k =
      let hs : q s ≡ true = rw e at h in
      let ks : p s ≡ true = rw e at k in ground (arith, off s hs, count-update_where-le rs)
  count-update_where-lt r (s ∷ rs) (Memᴰ.tail i) h k =
      ground (arith, off s, count-update_where-lt r rs i h k)

-- A lookup whose test an update does not touch finds the row that it found before, updated.
pub first-update_where :
    (p q : Row → Bool) (f : Row → Row)
    → ((r : Row) → p (f r) ≡ p r)
    → (t : Table) (r : Row) → first p t ≡ some r
    → first p (update_where q f t) ≡ some (if q r then f r else r)
unfolding first update_where
first-update_where p q f same [] r h = cc
first-update_where p q f same (x ∷ t) r h =
    ground (arith, first-update_where p q f same t r, same x)
