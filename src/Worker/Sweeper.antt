-- ===== src/Worker/Sweeper.antt =====
-- internal/worker/cleanup.go: the sweep of the files that are older than the time to live, below the
-- configured directories. A file is anything that is no directory, and a time a number of nanoseconds.
pub mod Old
pub mod Smooth
use go_signalium.Base.{
  ℕ, ◌+◌, Bool, true, false, not, ◌&&◌, Option, none, some, List, [], ◌∷◌, ltb, if◌then◌else◌,
}
use go_signalium.Base.Text.{Text}

-- What a directory holds, in the order of the names: a file with the time of its last change, or a
-- directory with what it holds, before the entries that come after.
pub data Entries : Type 0 where
  nil : Entries
  file : Text → ℕ → Entries → Entries
  directory : Text → Entries → Entries → Entries

-- By their path, innermost name first: whether a directory can be read, whether a file can be looked
-- at, and whether os.Remove goes through. `ctx_done` is asked at each call of the walk's function.
pub record Env : Type 0 where
  pub clock : ℕ
  pub file_ttl : ℕ
  pub readable : List Text → Bool
  pub known : List Text → Bool
  pub removable : List Text → Bool
  pub ctx_done : ℕ → Bool

-- What a walk leaves, how many files it removed, how often its function was called, and whether the
-- context ended it.
pub record Walk : Type 0 where
  pub left : Entries
  pub removed : ℕ
  pub calls : ℕ
  pub stopped : Bool

abbrev pub cut : Entries → ℕ → Walk
cut es n = record { left = es; removed = 0; calls = n + 1; stopped = true }

-- info.ModTime().Before(cutoff), with the cutoff the time to live before now
abbrev pub is_old : Env → ℕ → Bool
is_old e mtime = ltb (mtime + e.file_ttl) e.clock

abbrev pub goes : Env → List Text → ℕ → Bool
goes e path mtime = e.known path && (is_old e mtime && e.removable path)

-- The walk of the entries of a directory, past `n` calls. That a directory cannot be read is told to
-- the function by a second call.
unfoldable pub sweep_entries : Env → List Text → Entries → ℕ → Walk
sweep_entries e path nil n = record { left = nil; removed = 0; calls = n; stopped = false }
sweep_entries e path (file name mtime rest) n =
    let w = sweep_entries e path rest (n + 1) in
    if e.ctx_done n
    then cut (file name mtime rest) n
    else if goes e (name ∷ path) mtime
    then record w { removed = w.removed + 1 }
    else record w { left = file name mtime w.left }
sweep_entries e path (directory name inside rest) n =
    let v = sweep_entries e (name ∷ path) inside (n + 1) in
    let w = sweep_entries e path rest (if e.readable (name ∷ path) then v.calls else n + 1 + 1) in
    if e.ctx_done n
    then cut (directory name inside rest) n
    else if e.readable (name ∷ path)
    then if v.stopped
      then record v { left = directory name v.left rest }
      else record w { left = directory name v.left w.left; removed = v.removed + w.removed }
    else if e.ctx_done (n + 1)
    then cut (directory name inside rest) (n + 1)
    else record w { left = directory name inside w.left }

abbrev pub is_nil : Entries → Bool
is_nil nil = true
is_nil (file name mtime rest) = false
is_nil (directory name inside rest) = false

-- pruneEmptyChildren, past the reading of the root
unfoldable pub prune_entries : Env → List Text → Entries → Entries
prune_entries e path nil = nil
prune_entries e path (file name mtime rest) = file name mtime (prune_entries e path rest)
prune_entries e path (directory name inside rest) =
    let after = prune_entries e path rest in
    if e.readable (name ∷ path) && (is_nil inside && e.removable (name ∷ path))
    then after
    else directory name inside after

unfoldable pub prune_empty_children : Env → List Text → Entries → Entries
unfolding prune_entries
prune_empty_children e path es = if e.readable path then prune_entries e path es else es

-- filepath.WalkDir over a root that is a directory.
unfoldable pub walk_root : Env → Text → Entries → ℕ → Walk
unfolding sweep_entries
walk_root e dir es n =
    if e.ctx_done n
    then cut es n
    else if e.readable (dir ∷ [])
    then sweep_entries e (dir ∷ []) es (n + 1)
    else record { left = es; removed = 0; calls = n + 1 + 1; stopped = e.ctx_done (n + 1) }

unfoldable pub sweep_dir : Env → Text → Entries → ℕ → Walk
unfolding walk_root prune_empty_children
sweep_dir e dir es n =
    let w = walk_root e dir es n in record w { left = prune_empty_children e (dir ∷ []) w.left }

-- A configured directory: `none` where it is missing, or is no directory, at which the walk's function
-- is called once.
pub record Root : Type 0 where
  pub dir : Text
  pub entries : Option Entries

unfoldable pub sweep : Env → List Root → ℕ → List Root × ℕ
unfolding sweep_dir
sweep e [] n = ([], 0)
sweep e (r ∷ rs) n = elim r.entries [
  | none ↦ let (rest, k) = sweep e rs (n + 1) in (r ∷ rest, k)
  | some es ↦
      let w = sweep_dir e r.dir es n in
      let (rest, k) = sweep e rs w.calls in
      (record r { entries = some w.left } ∷ rest, w.removed + k)
]

-- Enabled, with CleanupOldFilesConfig's directories and its time to live where that is positive
unfoldable pub enabled : Bool → List Text → ℕ → Bool
enabled on [] ttl = false
enabled on (d ∷ ds) ttl = on && ltb 0 ttl
