-- ===== src/Worker/Tidy.antt =====
-- What a dispatch of internal/worker/worker.go leaves below the temporary directory, with the download
-- and the cleanup of internal/storage/object_store.go.
use go_signalium.Base.{
  ◌≡◌, refl, ap, inl, inr, ◌||◌, not, true, false, some, List, [], ◌∷◌, map, Memᴰ, arith, if_elim,
  Mem-select,
}
use go_signalium.Base.Text.{Text, text_eq, text_eq_refl, is_set}
use go_signalium.Base.Int.{ℤ}
use go_signalium.Domain.{Message, Err, Result, ok, err}
use go_signalium.Signal.Params.{SendParams, build_send_params}
use go_signalium.Storage.{ObjectRef}
use go_signalium.Storage.Download.{
  LocalPath, LocalFile, Disk, path_of, download_all, cleanup_local, survivors,
}
use go_signalium.Storage.Download.Files.{Within, Fetched, download_all-Fetched}
use go_signalium.Worker.{
  Config, Env, World, to_refs, report_failure, fail, settle, send, after_download, dispatch,
}

-- What is on the disk after a dispatch, by the outcome of its download, and what was before.
abbrev pub Left :
    Text
    → List LocalFile
    → List ObjectRef
    → Result (List LocalPath) × Disk
    → List LocalFile
    → Type 0
Left id fs0 rs (ok paths, d) fs =
    (f : LocalFile) → Memᴰ f fs → Memᴰ f fs0 × (text_eq f.path.directory id ≡ false)
Left id fs0 rs (err x, d) fs = (r : ObjectRef) × Memᴰ r rs × Within fs0 (path_of id r ∷ []) fs

below :
    (id : Text) (rs : List ObjectRef) (p : LocalPath)
    → Memᴰ p (map (path_of id) rs)
    → p.directory ≡ id
below id [] p m = elim m [ ]
below id (r ∷ rs) p (Memᴰ.head e) = ap (λ (q : LocalPath). q.directory) e
below id (r ∷ rs) p (Memᴰ.tail m) = below id rs p m

module _ (c : Config) (e : Env) (m : Message) where
  fail-local : (x : Err) (w : World) → (fail c e m x w).local ≡ w.local
  unfolding fail report_failure
  fail-local x w = ground arith

  settle-local : (r : Result ℤ) (w : World) → (settle c e m r w).local ≡ w.local
  unfolding settle
  settle-local (err x) w = fail-local x _
  settle-local (ok ts) w = ground arith

  send-local : (b : Result SendParams) (w : World) → (send c e m b w).local ≡ w.local
  unfolding send
  send-local (err x) w = fail-local x w
  send-local (ok p) w =
      if_elim (λ v. (settle c e m e.reply v).local ≡ w.local) e.accepted
        (record w { frames = p ∷ w.frames }) w (λ _. settle-local e.reply _)
        (λ _. settle-local e.reply w)

  -- Where the temporary directory is set and every removal goes through, a dispatch whose download
  -- succeeded leaves no file in the directory of its message, whatever became of the send, and adds
  -- none elsewhere; one whose download failed leaves at most one more file than before, that of the
  -- attachment at which it failed.
  pub dispatch_tidies :
      (w : World)
      → is_set (some e.disk.tmp_dir) ≡ true
      → is_set (some (e.directory m.id)) ≡ true
      → ((p : LocalPath) → e.disk.removed p ≡ true)
      → ((p : LocalPath) → e.disk.survives p ≡ false)
      → Left
          (e.directory m.id)
          w.local.files
          (to_refs m.attachments)
          (download_all e.disk (e.directory m.id) (to_refs m.attachments) w.local)
          (dispatch c e m w).local.files
  unfolding dispatch after_download cleanup_local
  dispatch_tidies w t d a b =
      settled (download_all e.disk id (to_refs m.attachments) w.local)
        (download_all-Fetched e.disk id (to_refs m.attachments) w.local a)
    where
      id : Text
      id = e.directory m.id

      gone :
          (fs : List LocalFile) (ps : List LocalPath)
          → ps ≡ map (path_of id) (to_refs m.attachments)
          → Within w.local.files ps fs
          → (f : LocalFile) → Memᴰ f (survivors e.disk id fs)
          → Memᴰ f w.local.files × (text_eq f.path.directory id ≡ false)
      gone fs ps q k f i =
          let (j, h) =
            Mem-select (λ g. not (text_eq g.path.directory id) || e.disk.survives g.path) f fs i in
          let away : text_eq f.path.directory id ≡ false = ground (arith, b f.path) in
          elim (k f j) [
            | inl n ↦ (n, away)
            | inr n ↦
                let at_ : f.path.directory ≡ id =
                  below id (to_refs m.attachments) f.path (rw q at n) in
                absurd (ground (arith, away, text_eq_refl id, at_))
          ]

      swept :
          (v : World) (l : Disk)
          → v.local ≡ l
          → (cleanup_local e.disk id v.local).files ≡ survivors e.disk id l.files
      swept v l q = rw (q, t, d) refl

      settled :
          (x : Result (List LocalPath) × Disk)
          → Fetched id w.local.files (to_refs m.attachments) [] x
          → Left id w.local.files (to_refs m.attachments) x (after_download c e m x w).local.files
      settled (err x, l) (r, i, k) = (r, i, rw (fail-local x (record w { local = l })) k)
      settled (ok ps, l) (q, _, k) = λ f i. gone l.files ps q k f (
          rw
            (swept
              (send c e m (build_send_params c.account m (map e.local_path ps))
                (record w { local = l }))
              l
              (send-local (build_send_params c.account m (map e.local_path ps))
                (record w { local = l })))
            at i)
