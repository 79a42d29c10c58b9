-- ===== src/Migrate/Again.antt =====
-- A second run of the migrations.
use go_signalium.Base.{
  ℕ, ◌+◌, ◌≡◌, refl, Bool, true, false, Option, none, some, List, [], ◌∷◌, All, arith,
  if◌then◌else◌, if_elim,
}
use mathlib.Core.Path.{subst}
use go_signalium.Base.Text.{Text, text_eq, text_eq_refl}
use go_signalium.Domain.{Result, ok, err, constraint, unavailable, bad_params}
use go_signalium.Repo.Messages.{Link, up, down, lost}
use go_signalium.Migrate.{
  File, MigrationFile, Revision, Database, Hasher, Sum, lookup, is_applied, version_of, add_pending,
  file_of, pending_migrations, apply_one, apply_all, apply_pending, run_migrations, recorded,
}

-- Every version of the first list of revisions is one of the second.
abbrev Grown : List Revision → List Revision → Type 0
Grown a b = (v : Text) → is_applied v a ≡ true → is_applied v b ≡ true

-- Every file is applied.
abbrev AllApplied : List Revision → List MigrationFile → Type 0
AllApplied rs = All (λ m. is_applied m.version rs ≡ true)

apply_one-Grown :
    (link : Link) (m : MigrationFile) (db : Database)
    → Grown db.revisions (apply_one link m db).1.revisions
unfolding apply_one is_applied
apply_one-Grown link m db v h = ground arith

apply_all-Grown :
    (links : ℕ → Link) (i : ℕ) (ms : List MigrationFile) (db : Database)
    → Grown db.revisions (apply_all links i ms db).1.revisions
unfolding apply_all
apply_all-Grown links i [] db v h = h
apply_all-Grown links i (m ∷ ms) db v h =
    let (r, db') = apply_one (links i) m db in
    step r db' (apply_all links (i + 1) ms db') (apply_one-Grown (links i) m db v h)
      (apply_all-Grown links (i + 1) ms db' v)
  where
    Applied : Result (Unit {0}) × Database → Type 0
    Applied o = is_applied v o.1.revisions ≡ true

    step :
        (r : Result (Unit {0})) (db' : Database) (out : Result (Unit {0}) × Database)
        → is_applied v db'.revisions ≡ true
        → (is_applied v db'.revisions ≡ true → Applied out)
        → Applied (elim r [ ok u ↦ out | err x ↦ (err x, db') ])
    step (ok u) db' out k ih = ih k
    step (err x) db' out k ih = k

-- The outcome of a run over some files: where it succeeded, they are applied.
abbrev Covers : List MigrationFile → Result (Unit {0}) × Database → Type 0
Covers ms (ok u, db) = AllApplied db.revisions ms
Covers ms (err x, db) = Unit

apply_one-Covers :
    (link : Link) (m : MigrationFile) (db : Database) → Covers (m ∷ []) (apply_one link m db)
unfolding apply_one is_applied
apply_one-Covers link m db =
    if_elim (Covers (m ∷ [])) (is_applied m.version db.revisions) (err constraint, db)
      (elim link [
        | up ↦ (ok tt, recorded m db)
        | down ↦ (err unavailable, db)
        | lost ↦ (err unavailable, recorded m db)
      ])
      (λ _. tt) (λ _. linked link)
  where
    linked :
        (l : Link)
        → Covers (m ∷ []) (elim l [
          | up ↦ (ok tt, recorded m db)
          | down ↦ (err unavailable, db)
          | lost ↦ (err unavailable, recorded m db)
        ])
    linked up = (rw (text_eq_refl m.version) refl, tt)
    linked down = tt
    linked lost = tt

apply_all-Covers :
    (links : ℕ → Link) (i : ℕ) (ms : List MigrationFile) (db : Database)
    → Covers ms (apply_all links i ms db)
unfolding apply_all
apply_all-Covers links i [] db = tt
apply_all-Covers links i (m ∷ ms) db =
    let (r, db') = apply_one (links i) m db in
    step r db' (apply_one-Covers (links i) m db) (apply_all links (i + 1) ms db')
      (apply_all-Covers links (i + 1) ms db') (apply_all-Grown links (i + 1) ms db' m.version)
  where
    both :
        (db' : Database) (out : Result (Unit {0}) × Database)
        → is_applied m.version db'.revisions ≡ true
        → Covers ms out
        → (is_applied m.version db'.revisions ≡ true → is_applied m.version out.1.revisions ≡ true)
        → Covers (m ∷ ms) out
    both db' (ok u, db'') h c g = (g h, c)
    both db' (err x, db'') h c g = tt

    step :
        (r : Result (Unit {0})) (db' : Database)
        → Covers (m ∷ []) (r, db')
        → (out : Result (Unit {0}) × Database) → Covers ms out
        → (is_applied m.version db'.revisions ≡ true → is_applied m.version out.1.revisions ≡ true)
        → Covers (m ∷ ms) (elim r [ ok u ↦ out | err x ↦ (err x, db') ])
    step (ok u) db' h out c g = both db' out h.0 c g
    step (err x) db' h out c g = tt

-- What the files make of grown revisions: nothing is pending once what was pending is applied.
abbrev Later : List Revision → Result (List MigrationFile) → Result (List MigrationFile) → Type 0
Later b (err x) r' = Unit
Later b (ok ms) r' = AllApplied b ms → r' ≡ ok []

pending-Later :
    (H : Hasher) (h : H.State) (a b : List Revision) (sums : List Sum) (fs : List File)
    → Grown a b
    → Later b (pending_migrations H h a sums fs) (pending_migrations H h b sums fs)
unfolding pending_migrations
pending-Later H h a b sums [] g = λ _. refl
pending-Later H h a b sums (f ∷ fs) g =
    versioned (version_of f.name) (lookup f.name sums)
      (pending-Later H (H.write (H.write h f.name) f.body) a b sums fs g)
  where
    h' : H.State
    h' = H.write (H.write h f.name) f.body

    rest : List Revision → Result (List MigrationFile)
    rest rs = pending_migrations H h' rs sums fs

    added :
        (v want : Text) (r r' : Result (List MigrationFile)) (x y : Bool)
        → is_applied v b ≡ y
        → (x ≡ true → y ≡ true)
        → Later b r r'
        → Later b (add_pending x (file_of f v want) r) (add_pending y (file_of f v want) r')
    added v want (err e) r' x y q k l = tt
    added v want (ok ms) r' true y q k l = λ c. rw (k refl, l c) refl
    added v want (ok ms) r' false y q k l =
        λ c. let t : y ≡ true = ground arith in rw (t, l c.1) refl

    versioned :
        (o : Option Text) (w : Option Text)
        → Later b (rest a) (rest b)
        → Later b
            (elim o [
              | none ↦ err bad_params
              | some v ↦ elim w [
                | none ↦ err bad_params
                | some want ↦
                    if text_eq (H.sum h') want
                    then add_pending (is_applied v a) (file_of f v want) (rest a)
                    else err bad_params
              ]
            ])
            (elim o [
              | none ↦ err bad_params
              | some v ↦ elim w [
                | none ↦ err bad_params
                | some want ↦
                    if text_eq (H.sum h') want
                    then add_pending (is_applied v b) (file_of f v want) (rest b)
                    else err bad_params
              ]
            ])
    versioned none w l = tt
    versioned (some v) none l = tt
    versioned (some v) (some want) l = hashed (text_eq (H.sum h') want)
      where
        hashed :
            (c : Bool)
            → Later b
                (if c
                  then add_pending (is_applied v a) (file_of f v want) (rest a)
                  else err bad_params)
                (if c
                  then add_pending (is_applied v b) (file_of f v want) (rest b)
                  else err bad_params)
        hashed true = added v want (rest a) (rest b) (is_applied v a) (is_applied v b) refl (g v) l
        hashed false = tt

-- A run that succeeds leaves nothing to do: the next one finds no pending migration and changes
-- nothing, whatever becomes of its round trips.
pub run_migrations_again :
    (H : Hasher) (sums : List Sum) (files : List File) (links links' : ℕ → Link) (db db' : Database)
    → run_migrations H sums files links db ≡ (ok tt, db')
    → run_migrations H sums files links' db' ≡ (ok tt, db')
unfolding run_migrations apply_all
run_migrations_again H sums files links links' db db' h =
    rw
      (from (pending_migrations H H.start db.revisions sums files) h
        (pending-Later H H.start db.revisions db'.revisions sums files))
      refl
  where
    from :
        (r : Result (List MigrationFile))
        → apply_pending links r db ≡ (ok tt, db')
        → (Grown db.revisions db'.revisions
            → Later db'.revisions r (pending_migrations H H.start db'.revisions sums files))
        → pending_migrations H H.start db'.revisions sums files ≡ ok []
    from (err x) e l = absurd (ground arith)
    from (ok ms) e l =
        l (subst (λ o. Grown db.revisions o.1.revisions) e (apply_all-Grown links 0 ms db))
          (subst (Covers ms) e (apply_all-Covers links 0 ms db))
