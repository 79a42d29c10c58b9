-- ===== src/Storage/Bucket.antt =====
-- EnsureBucket and EnsureLocalTmpDir of internal/storage/object_store.go, as the service starts.
use go_signalium.Base.{ℕ, Bool, false, ◌||◌, ◌==◌, if◌then◌else◌, some}
use go_signalium.Base.Text.{Text, codes, text_eq, is_set}
use go_signalium.Domain.{Result, ok, err, unavailable}

-- What MinIO answers to MakeBucket: an error of its own has a code and an HTTP status.
pub data MakeBucket : Type 0 where
  made unreachable : MakeBucket
  refused : Text → ℕ → MakeBucket

-- isAlreadyOwned
unfoldable pub is_already_owned : MakeBucket → Bool
is_already_owned made = false
is_already_owned unreachable = false
is_already_owned (refused code status) =
    text_eq code (codes "BucketAlreadyOwnedByYou")
    || (text_eq code (codes "BucketAlreadyExists") || status == 409)

unfoldable pub ensure_bucket : MakeBucket → Result (Unit {0})
unfolding is_already_owned
ensure_bucket made = ok tt
ensure_bucket unreachable = err unavailable
ensure_bucket (refused code status) =
    if is_already_owned (refused code status) then ok tt else err unavailable

-- `mkdir` says whether MkdirAll goes through.
unfoldable pub ensure_local_tmp_dir : Bool → Text → Result (Unit {0})
ensure_local_tmp_dir mkdir dir =
    if is_set (some dir) then (if mkdir then ok tt else err unavailable) else ok tt

-- The hook of internal/storage/module.go
abbrev past_bucket : Bool → Text → Result (Unit {0}) → Result (Unit {0})
past_bucket mkdir dir (ok u) = ensure_local_tmp_dir mkdir dir
past_bucket mkdir dir (err x) = err x

unfoldable pub on_start : MakeBucket → Bool → Text → Result (Unit {0})
unfolding ensure_bucket ensure_local_tmp_dir
on_start answer mkdir dir = past_bucket mkdir dir (ensure_bucket answer)
