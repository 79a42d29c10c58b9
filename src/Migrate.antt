-- ===== src/Migrate.antt =====
-- internal/db/migrate.go: the migrations that are pending, and their application under the advisory
-- lock, which makes a run the only one. The cumulative sha256 is a parameter.
pub mod Again
pub mod Sums
use go_signalium.Base.{
  ℕ, ◌+◌, Bool, true, false, ◌||◌, Option, none, some, List, [], ◌∷◌, ◌++◌, ◌==◌, if◌then◌else◌,
}
use go_signalium.Base.Text.{Text, text_eq}
use go_signalium.Domain.{Err, Result, ok, err, constraint, unavailable, bad_params}
use go_signalium.Repo.Messages.{Link, up, down, lost}

-- An embedded file.
pub record File : Type 0 where
  pub name : Text
  pub body : Text

pub record MigrationFile : Type 0 where
  pub filename : Text
  pub version : Text
  pub body : Text
  pub expected : Text

-- A row of signalium.schema_migrations.
pub record Revision : Type 0 where
  pub version : Text
  pub filename : Text
  pub content_hash : Text

-- The revisions, and the bodies that were executed, the last one first.
pub record Database : Type 0 where
  pub revisions : List Revision
  pub executed : List Text

-- A hash.Hash: what is written, and the snapshot in base64.
pub record Hasher : Type 1 where
  pub State : Type 0
  pub start : State
  pub write : State → Text → State
  pub sum : State → Text

-- atlas.sum: a file and its hash; the last line of a file counts.
pub record Sum : Type 0 where
  pub name : Text
  pub hash : Text

unfoldable pub lookup : Text → List Sum → Option Text
lookup name [] = none
lookup name (s ∷ sums) = elim (lookup name sums) [
  | some h ↦ some h
  | none ↦ if text_eq s.name name then some s.hash else none
]

unfoldable pub is_applied : Text → List Revision → Bool
is_applied v [] = false
is_applied v (r ∷ rs) = text_eq r.version v || is_applied v rs

-- strings.Cut(name, "_"), the part before the separator.
unfoldable pub version_of : Text → Option Text
version_of [] = none
version_of (b ∷ t) =
    let rest = version_of t in
    if b == 95 then some [] else elim rest [ none ↦ none | some v ↦ some (b ∷ v) ]

-- A pending file goes before those after it.
abbrev pub add_pending :
    Bool → MigrationFile → Result (List MigrationFile) → Result (List MigrationFile)
add_pending done m (err x) = err x
add_pending true m (ok ms) = ok ms
add_pending false m (ok ms) = ok (m ∷ ms)

abbrev pub file_of : File → Text → Text → MigrationFile
file_of f version want = record {
  filename = f.name;
  version = version;
  body = f.body;
  expected = want;
}

-- pendingMigrations, over the sorted files, with hashFile.
unfoldable pub pending_migrations :
    (H : Hasher) → H.State → List Revision → List Sum → List File → Result (List MigrationFile)
unfolding lookup is_applied version_of
pending_migrations H h applied sums [] = ok []
pending_migrations H h applied sums (f ∷ fs) = elim (version_of f.name) [
  | none ↦ err bad_params
  | some version ↦ elim (lookup f.name sums) [
    | none ↦ err bad_params
    | some want ↦
        let h' = H.write (H.write h f.name) f.body in
        let rest = pending_migrations H h' applied sums fs in
        if text_eq (H.sum h') want
        then add_pending (is_applied version applied) (file_of f version want) rest
        else err bad_params
  ]
]

abbrev pub recorded : MigrationFile → Database → Database
recorded m db = record {
  revisions =
      record { version = m.version; filename = m.filename; content_hash = m.expected }
      ∷ db.revisions;
  executed = m.body ∷ db.executed;
}

-- applyOne: one transaction. version is the primary key of the revisions.
unfoldable pub apply_one : Link → MigrationFile → Database → Result (Unit {0}) × Database
unfolding is_applied
apply_one link m db =
    if is_applied m.version db.revisions then (err constraint, db) else elim link [
      | up ↦ (ok tt, recorded m db)
      | down ↦ (err unavailable, db)
      | lost ↦ (err unavailable, recorded m db)
    ]

unfoldable pub apply_all :
    (ℕ → Link) → ℕ → List MigrationFile → Database → Result (Unit {0}) × Database
unfolding apply_one
apply_all links i [] db = (ok tt, db)
apply_all links i (m ∷ ms) db =
    let (r, db') = apply_one (links i) m db in
    elim r [ ok u ↦ apply_all links (i + 1) ms db' | err x ↦ (err x, db') ]

abbrev pub apply_pending :
    (ℕ → Link) → Result (List MigrationFile) → Database → Result (Unit {0}) × Database
apply_pending links (err x) db = (err x, db)
apply_pending links (ok ms) db = apply_all links 0 ms db

-- The run, under the lock.
unfoldable pub run_migrations :
    Hasher → List Sum → List File → (ℕ → Link) → Database → Result (Unit {0}) × Database
unfolding pending_migrations apply_all
run_migrations H sums files links db =
    apply_pending links (pending_migrations H H.start db.revisions sums files) db
