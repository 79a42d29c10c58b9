-- ===== src/Tests/Files.antt =====
-- Downloads and the sweep of the temporary files.
use go_signalium.Base.{◌≡◌, refl, true, false, none, List, [], ◌∷◌, if◌then◌else◌, ltb}
use go_signalium.Base.Text.{Text, codes, text_eq, is_set}
use go_signalium.Domain.{Message, pending}
use go_signalium.Storage.{ObjectRef}
use go_signalium.Storage.Download.{Disk, Env, LocalFile, broken_off, fetched, download_all}
use go_signalium.Storage.Download.Files.{Fetched, download_all-Fetched}
use go_signalium.Worker.{to_refs, dispatch}
use go_signalium.Worker.Tidy.{Left, dispatch_tidies}
use go_signalium.Worker.Sweeper.{Entries, nil, file, directory, Walk, sweep_dir}
use go_signalium.Worker.Sweeper
use go_signalium.Worker.Sweeper.Old.{Aged, files, sweep_dir-Aged}
use go_signalium.Worker.Sweeper.Smooth.{IsSmooth, young, has_no_empty, sweep_dir_clears}
use go_signalium.Tests.Data.{message, config, storage, fine, world}

-- Two objects, the second of which breaks off, beside a file of another message.
abbrev refs : List ObjectRef
refs =
    record { bucket = codes "b"; key = codes "k/one" }
    ∷ record { bucket = codes "b"; key = codes "k/two" }
    ∷ []

abbrev flaky : Env
flaky = record storage {
  fetch =
      λ r. if text_eq r.key (codes "k/one") then fetched (codes "f") else broken_off (codes "p");
}

abbrev other : LocalFile
other = record { path = record { directory = codes "n"; name = codes "x" }; content = codes "y" }

abbrev disk : Disk
disk = record { directories = codes "n" ∷ []; files = other ∷ [] }

download_all-Fetched_example :
    Fetched (codes "m") disk.files refs [] (download_all flaky (codes "m") refs disk)
download_all-Fetched_example = download_all-Fetched flaky (codes "m") refs disk (λ p. refl)

-- A message with one attachment.
abbrev attached : Message
attached = record (message 7 pending 1 5 none) {
  attachments =
      record { bucket = codes "b"; filename = codes "k/one"; mime_type = []; size = 1 } ∷ [];
}

dispatch_tidies_example :
    Left
      (7 ∷ [])
      world.local.files
      (to_refs attached.attachments)
      (download_all storage (7 ∷ []) (to_refs attached.attachments) world.local)
      (dispatch config fine attached world).local.files
unfolding is_set
dispatch_tidies_example =
    dispatch_tidies config fine attached world refl refl (λ p. refl) (λ p. refl)

-- Files are old below 50; the directory m has an old file only.
abbrev steady : Sweeper.Env
steady = record {
  clock = 100;
  file_ttl = 50;
  readable = λ p. true;
  known = λ p. true;
  removable = λ p. true;
  ctx_done = λ n. false;
}

abbrev tree : Entries
tree =
    directory (codes "m") (file (codes "a") 10 nil)
      (directory (codes "n") (file (codes "b") 60 nil) (file (codes "c") 20 nil))

abbrev root : Text
root = codes "tmp"

-- The context ends before the third call.
abbrev cancelled : Sweeper.Env
cancelled = record steady { ctx_done = λ n. ltb 2 n }

sweep_dir-Aged_example :
    Aged cancelled
      (root ∷ [])
      tree
      (sweep_dir cancelled root tree 0).removed
      (sweep_dir cancelled root tree 0).left
sweep_dir-Aged_example = sweep_dir-Aged cancelled root tree 0

steady-IsSmooth : IsSmooth steady
steady-IsSmooth = record {
  reads = λ p. refl;
  looks = λ p. refl;
  removes = λ p. refl;
  runs = λ n. refl;
}

sweep_dir_clears_example :
    (files (root ∷ []) (sweep_dir steady root tree 0).left ≡ young steady (files (root ∷ []) tree))
    × (has_no_empty (sweep_dir steady root tree 0).left ≡ true)
    × ((sweep_dir steady root tree 0).stopped ≡ false)
sweep_dir_clears_example = sweep_dir_clears steady steady-IsSmooth root tree 0
