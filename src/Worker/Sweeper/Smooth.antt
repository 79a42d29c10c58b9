-- ===== src/Worker/Sweeper/Smooth.antt =====
-- What a sweep clears where nothing fails on its way.
use go_signalium.Base.{
  leb, ℕ, ◌+◌, ◌≡◌, refl, sym, ap, ◌∙◌, Bool, true, false, not, ◌&&◌, List, [], ◌∷◌, ◌++◌, select,
  if◌then◌else◌, arith,
}
use go_signalium.Base.Text.{Text}
use go_signalium.Worker.Sweeper.{
  Entries, nil, file, directory, Env, Walk, is_old, sweep_entries, is_nil, prune_entries,
  prune_empty_children, walk_root, sweep_dir,
}
use go_signalium.Worker.Sweeper.Old.{Found, files, prune_entries-files}

-- Nothing on the way fails, and the context stays open.
pub record IsSmooth (e : Env) : Type 0 where
  pub reads : (path : List Text) → e.readable path ≡ true
  pub looks : (path : List Text) → e.known path ≡ true
  pub removes : (path : List Text) → e.removable path ≡ true
  pub runs : (n : ℕ) → e.ctx_done n ≡ false

-- The files that are not older than the time to live.
abbrev pub young : Env → List Found → List Found
young e = select λ f. leb e.clock (f.mtime + e.file_ttl)

-- No entry is a directory that holds nothing.
pub has_no_empty : Entries → Bool
has_no_empty nil = true
has_no_empty (file name mtime rest) = has_no_empty rest
has_no_empty (directory name inside rest) = not (is_nil inside) && has_no_empty rest

select-append :
    (p : Found → Bool) (xs ys : List Found) → select p (xs ++ ys) ≡ select p xs ++ select p ys
unfolding select
select-append p [] ys = refl
select-append p (x ∷ xs) ys = ground (arith, select-append p xs ys)

-- A file that is old goes, and one that is young stays.
one :
    (path : List Text) (name : Text) (mtime : ℕ) (b y : Bool) (w : Walk) (fs : List Found)
    → y ≡ not b
    → w.stopped ≡ false
    → files path w.left ≡ fs
    → let v : Walk =
        if b && true
        then record w { removed = w.removed + 1 }
        else record w { left = file name mtime w.left } in
      (v.stopped ≡ false)
      × (files path v.left ≡ (if y then record { path = name ∷ path; mtime = mtime } ∷ fs else fs))
unfolding files
one path name mtime true y w fs h a q = rw h (a, q)
one path name mtime false y w fs h a q =
    rw h (a, ap (λ gs. record { path = name ∷ path; mtime = mtime } ∷ gs) q)

module _ (e : Env) (k : IsSmooth e) where
  sweep_entries_clears :
      (path : List Text) (es : Entries) (n : ℕ)
      → ((sweep_entries e path es n).stopped ≡ false)
        × (files path (sweep_entries e path es n).left ≡ young e (files path es))
  unfolding sweep_entries files select
  sweep_entries_clears path nil n = (refl, refl)
  sweep_entries_clears path (file name mtime rest) n =
      let (a, b) = sweep_entries_clears path rest (n + 1) in
      rw (k.runs n, k.looks (name ∷ path), k.removes (name ∷ path))
        (one path name mtime (is_old e mtime) (leb e.clock (mtime + e.file_ttl))
          (sweep_entries e path rest (n + 1)) (young e (files path rest)) (ground arith) a b)
  sweep_entries_clears path (directory name inside rest) n =
      let v = sweep_entries e (name ∷ path) inside (n + 1) in
      let (a, b) = sweep_entries_clears (name ∷ path) inside (n + 1) in
      let (c, d) = sweep_entries_clears path rest v.calls in
      rw (k.runs n, k.reads (name ∷ path), a)
        (
          c,
          rw (b, d)
              (sym (
                select-append (λ f. leb e.clock (f.mtime + e.file_ttl)) (files (name ∷ path) inside)
                  (files path rest))),
        )

  prune_entries_clears :
      (path : List Text) (es : Entries) → has_no_empty (prune_entries e path es) ≡ true
  unfolding prune_entries has_no_empty
  prune_entries_clears path nil = refl
  prune_entries_clears path (file name mtime rest) = prune_entries_clears path rest
  prune_entries_clears path (directory name inside rest) =
      ground (arith, k.reads (name ∷ path), k.removes (name ∷ path), prune_entries_clears path rest)

  -- Where nothing fails on the way, a sweep of a directory leaves exactly the files that are not older
  -- than the time to live, at whatever depth, and no empty directory right below it.
  pub sweep_dir_clears :
      (dir : Text) (es : Entries) (n : ℕ)
      → (files (dir ∷ []) (sweep_dir e dir es n).left ≡ young e (files (dir ∷ []) es))
        × (has_no_empty (sweep_dir e dir es n).left ≡ true)
        × ((sweep_dir e dir es n).stopped ≡ false)
  unfolding sweep_dir walk_root prune_empty_children
  sweep_dir_clears dir es n =
      let (a, b) = sweep_entries_clears (dir ∷ []) es (n + 1) in
      rw (k.runs n, k.reads (dir ∷ []))
        (prune_entries-files e (dir ∷ []) _ ∙ b, prune_entries_clears (dir ∷ []) _, a)
