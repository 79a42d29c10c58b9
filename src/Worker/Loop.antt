-- ===== src/Worker/Loop.antt =====
-- markSent of internal/worker/worker.go: the bounded retry of MarkSent.
use go_signalium.Base.{
  ℕ, zero, suc, ◌+◌, ◌≡◌, refl, ap, ◌⊎◌, inl, inr, Bool, true, false, ◌&&◌, ◌||◌, arith, [], ◌∷◌,
  ltb, Bool-cases, if_elim, length,
}
use go_signalium.Base.Int.{ℤ}
use go_signalium.Base.Decimal.{format_int, length-format_int}
use go_signalium.Domain.{Err, Result, ok, err, constraint}
use go_signalium.Repo.{Row, Table, exists, update_where, has_id, sent_row}
use go_signalium.Repo
use go_signalium.Repo.Messages.{Link, up, down, lost, write}
use go_signalium.Repo.Messages
use go_signalium.Worker.{Env, mark_sent_loop, mark_sent}

-- The table once the row is SENT with the timestamp of the send.
abbrev pub sent_table : ℕ → ℕ → ℤ → Table → Table
sent_table now id ts t = update_where (has_id id) (sent_row now (format_int ts)) t

sent_table_idem :
    (now id : ℕ) (ts : ℤ) (t : Table)
    → sent_table now id ts (sent_table now id ts t) ≡ sent_table now id ts t
unfolding update_where sent_row
sent_table_idem now id ts [] = refl
sent_table_idem now id ts (r ∷ rs) = elim (Bool-cases (has_id id r)) [
  | inl e ↦ rw e (rw e (ap (◌∷◌ (sent_row now (format_int ts) r)) (sent_table_idem now id ts rs)))
  | inr e ↦ rw e (rw e (ap (◌∷◌ r) (sent_table_idem now id ts rs)))
]

-- A timestamp always fits the column.
pub repo_mark_sent :
    (now id : ℕ) (ts : ℤ) (t : Table)
    → Repo.mark_sent now id (format_int ts) t ≡ (ok tt, sent_table now id ts t)
unfolding Repo.mark_sent
repo_mark_sent now id ts t =
    if_elim (λ (x : Result (Unit {0}) × Table). x ≡ (ok tt, sent_table now id ts t))
      (exists (has_id id) t && ltb 25 (length (format_int ts))) (err constraint, t)
      (ok tt, sent_table now id ts t) (λ e. absurd (long e)) (λ _. refl)
  where
    long : (exists (has_id id) t && ltb 25 (length (format_int ts))) ≡ true → ⊥
    long e = ground (arith, length-format_int ts)

messages_mark_sent :
    (link : Link) (now id : ℕ) (ts : ℤ) (t : Table)
    → Messages.mark_sent link now id (format_int ts) t
      ≡ write link t (ok tt, sent_table now id ts t)
unfolding Messages.mark_sent
messages_mark_sent link now id ts t = rw (repo_mark_sent now id ts t)

abbrev pub is_ok : Result (Unit {0}) → Bool
is_ok (ok u) = true
is_ok (err x) = false

abbrev pub is_up : Link → Bool
is_up up = true
is_up down = false
is_up lost = false

-- The worker's context stays open through the tries.
abbrev pub IsPatient : Env → Type 0
IsPatient e = (j : ℕ) → (e.ctx_done j ≡ false) × (e.slept j ≡ true)

module _ (e : Env) (id : ℕ) (ts : ℤ) where
  -- The table is as it was or has the row SENT, and has it SENT where the loop reports success.
  abbrev pub Settles : Table → Result (Unit {0}) × Table → Type 0
  Settles t res =
      ((res.1 ≡ t) ⊎ (res.1 ≡ sent_table e.db_now id ts t))
      × (res.0 ≡ ok tt → res.1 ≡ sent_table e.db_now id ts t)

  loop-Settles :
      (tries i : ℕ) (last : Err) (t : Table)
      → Settles t (mark_sent_loop tries i last e id (format_int ts) t)
  unfolding mark_sent_loop
  loop-Settles zero i last t = (inl refl, λ h. absurd (ground arith))
  loop-Settles (suc tries) i last t =
      let done = sent_table e.db_now id ts t in
      let (a, b) = loop-Settles tries (i + 1) Err.unavailable t in
      let (c, d) = loop-Settles tries (i + 1) Err.unavailable done in
      ground (
        arith,
        messages_mark_sent (e.sent_link i) e.db_now id ts t,
        sent_table_idem e.db_now id ts t,
      )

  -- Some of the tries reaches Postgres and back.
  abbrev wins : ℕ → ℕ → Bool
  wins zero i = false
  wins (suc tries) i = is_up (e.sent_link i) || wins tries (i + 1)

  is_ok-loop :
      IsPatient e
      → (tries i : ℕ) (last : Err) (t : Table)
      → is_ok (mark_sent_loop tries i last e id (format_int ts) t).0 ≡ wins tries i
  unfolding mark_sent_loop
  is_ok-loop h zero i last t = refl
  is_ok-loop h (suc tries) i last t = ground (
    arith,
    h i,
    messages_mark_sent (e.sent_link i) e.db_now id ts t,
    is_ok-loop h tries (i + 1) Err.unavailable t,
    is_ok-loop h tries (i + 1) Err.unavailable (sent_table e.db_now id ts t),
  )

  -- markSent leaves the table as it was or with the row SENT, whatever the links do, and where it
  -- reports success the row is SENT.
  pub mark_sent-Settles : (t : Table) → Settles t (mark_sent e id (format_int ts) t)
  unfolding mark_sent
  mark_sent-Settles t = loop-Settles 3 0 Err.unavailable t

  -- While the worker's context stays open, markSent succeeds exactly if one of its three tries gets
  -- through to the database and back.
  pub mark_sent_retries :
      IsPatient e
      → (t : Table)
      → is_ok (mark_sent e id (format_int ts) t).0
        ≡ (is_up (e.sent_link 0) || (is_up (e.sent_link 1) || is_up (e.sent_link 2)))
  unfolding mark_sent
  mark_sent_retries h t = ground (arith, is_ok-loop h 3 0 Err.unavailable t)
