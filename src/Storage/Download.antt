-- ===== src/Storage/Download.antt =====
-- DownloadAll of internal/storage/object_store.go: the attachments of a message are fetched into its
-- directory below the temporary one. A path is the message and the last element of the object's key.
pub mod Files
use go_signalium.Base.{
  ℕ, ◌≡◌, refl, ◌⊎◌, inl, inr, Bool, true, false, not, ◌&&◌, ◌||◌, Option, none, some, List, [],
  ◌∷◌, ◌++◌, map, Memᴰ, select, if◌then◌else◌, arith, All, Mem-select, select-Mem, Bool-cases,
  first,
}
use go_signalium.Base.Text.{Text, codes, text_eq, is_set}
use go_signalium.Domain.{Err, unavailable, Result, ok, err}
use go_signalium.Service.Filename.{base_of}
use go_signalium.Storage.{ObjectRef}

pub record LocalPath : Type 0 where
  pub directory : Text
  pub name : Text

pub record LocalFile : Type 0 where
  pub path : LocalPath
  pub content : Text

-- The directories of messages, and the files in them.
pub record Disk : Type 0 where
  pub directories : List Text
  pub files : List LocalFile

-- What fetching an object comes to: the object or the file cannot be opened, the copy breaks off, the
-- file cannot be closed, or all of it is there.
pub data Fetch : Type 0 where
  no_object unopened : Fetch
  broken_off unclosed fetched : Text → Fetch

-- `made` and `removed` say whether MkdirAll and os.Remove go through, and `survives` which files
-- os.RemoveAll cannot remove.
pub record Env : Type 0 where
  pub tmp_dir : Text
  pub made : Bool
  pub fetch : ObjectRef → Fetch
  pub removed : LocalPath → Bool
  pub survives : LocalPath → Bool

abbrev pub is_same_path : LocalPath → LocalPath → Bool
is_same_path p q = text_eq p.directory q.directory && text_eq p.name q.name

-- filepath.Join(dir, filepath.Base(ref.Key))
abbrev pub path_of : Text → ObjectRef → LocalPath
path_of id r = record { directory = id; name = base_of r.key }

-- These names lead to a directory, which cannot be opened for writing.
abbrev pub is_directory : LocalPath → Bool
is_directory p =
    text_eq p.name (codes ".") || (text_eq p.name (codes "..") || text_eq p.name (codes "/"))

abbrev pub without_path : LocalPath → List LocalFile → List LocalFile
without_path p fs = select (λ f. not (is_same_path p f.path)) fs

abbrev pub write_file : LocalPath → Text → Disk → Disk
write_file p content d = record d {
  files = record { path = p; content = content } ∷ without_path p d.files;
}

unfoldable pub download_one : Env → Text → ObjectRef → Disk → Result LocalPath × Disk
unfolding base_of
download_one e id r d =
    let p = path_of id r in
    if is_directory p then (err unavailable, d) else elim (e.fetch r) [
      | no_object ↦ (err unavailable, d)
      | unopened ↦ (err unavailable, d)
      | broken_off part ↦ (err unavailable, write_file p part d)
      | unclosed content ↦ (err unavailable, write_file p content d)
      | fetched content ↦ (ok p, write_file p content d)
    ]

abbrev pub has_files : Text → List LocalFile → Bool
has_files id [] = false
has_files id (f ∷ fs) = text_eq f.path.directory id || has_files id fs

-- os.Remove of a directory: only where it is empty.
abbrev pub remove_directory : Text → Disk → Disk
remove_directory id d =
    if has_files id d.files
    then d
    else record d { directories = select (λ j. not (text_eq j id)) d.directories }

abbrev pub remove_path : Bool → LocalPath → Disk → Disk
remove_path true p d = record d { files = without_path p d.files }
remove_path false p d = d

-- cleanupBestEffort
unfoldable pub cleanup_best_effort : Env → Text → List LocalPath → Disk → Disk
cleanup_best_effort e id [] d = remove_directory id d
cleanup_best_effort e id (p ∷ ps) d = cleanup_best_effort e id ps (remove_path (e.removed p) p d)

-- The loop of DownloadAll: `paths` are written.
unfoldable pub download_loop :
    Env → Text → List ObjectRef → List LocalPath → Disk → Result (List LocalPath) × Disk
unfolding download_one cleanup_best_effort
download_loop e id [] paths d = (ok paths, d)
download_loop e id (r ∷ rs) paths d =
    let (o, d') = download_one e id r d in
    elim o [
      | ok p ↦ download_loop e id rs (paths ++ (p ∷ [])) d'
      | err x ↦ (err x, cleanup_best_effort e id paths d')
    ]

unfoldable pub download_all : Env → Text → List ObjectRef → Disk → Result (List LocalPath) × Disk
unfolding download_loop
download_all e id [] d = (ok [], d)
download_all e id (r ∷ rs) d =
    if e.made
    then download_loop e id (r ∷ rs) [] (record d { directories = id ∷ d.directories })
    else (err unavailable, d)

-- os.RemoveAll of the directory of a message
abbrev pub survivors : Env → Text → List LocalFile → List LocalFile
survivors e id fs = select (λ f. not (text_eq f.path.directory id) || e.survives f.path) fs

abbrev remove_all : Env → Text → Disk → Disk
remove_all e id d = record {
  directories =
      if has_files id (survivors e id d.files)
      then d.directories
      else select (λ j. not (text_eq j id)) d.directories;
  files = survivors e id d.files;
}

-- CleanupLocal
unfoldable pub cleanup_local : Env → Text → Disk → Disk
cleanup_local e id d = if is_set (some e.tmp_dir) && is_set (some id) then remove_all e id d else d
