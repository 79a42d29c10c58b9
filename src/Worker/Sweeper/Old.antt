-- ===== src/Worker/Sweeper/Old.antt =====
-- What a sweep keeps, whatever fails on its way.
use go_signalium.Base.{
  ◌≤◌, ℕ, ◌+◌, ◌≡◌, refl, ap, true, ◌&&◌, List, [], ◌∷◌, ◌++◌, inl, inr, Memᴰ, length,
  length-append, if_elim, if◌then◌else◌, arith,
}
use mathlib.Core.List.Memᴰ
use go_signalium.Base.Text.{Text}
use go_signalium.Worker.Sweeper.{
  Entries, nil, file, directory, Env, Walk, goes, cut, sweep_entries, is_nil, prune_entries,
  prune_empty_children, walk_root, sweep_dir,
}

-- A file, by its path.
pub record Found : Type 0 where
  pub path : List Text
  pub mtime : ℕ

-- All the files below a path.
unfoldable pub files : List Text → Entries → List Found
files path nil = []
files path (file name mtime rest) = record { path = name ∷ path; mtime = mtime } ∷ files path rest
files path (directory name inside rest) = files (name ∷ path) inside ++ files path rest

-- Between two moments every young file stayed, none is new, and so many went.
pub record Aged (e : Env) (path : List Text) (es : Entries) (removed : ℕ) (es' : Entries)
    : Type 0 where
  pub stayed :
      (f : Found)
      → Memᴰ f (files path es)
      → e.clock ≤ f.mtime + e.file_ttl
      → Memᴰ f (files path es')
  pub was : (f : Found) → Memᴰ f (files path es') → Memᴰ f (files path es)
  pub counted : length (files path es') + removed ≡ length (files path es)

module _ (e : Env) where
  Aged-same : (path : List Text) (es : Entries) → Aged e path es 0 es
  Aged-same path es = record { stayed = λ f m h. m; was = λ f m. m; counted = omega arith }

  -- One file less, or one kept.
  Aged-goes :
      (path : List Text) (name : Text) (mtime : ℕ) (rest rest' : Entries) (k : ℕ)
      → goes e (name ∷ path) mtime ≡ true
      → Aged e path rest k rest'
      → Aged e path (file name mtime rest) (k + 1) rest'
  unfolding files
  Aged-goes path name mtime rest rest' k g a = record {
    stayed = λ f m h. keep f h m;
    was = λ f m. Memᴰ.tail (a.was f m);
    counted = omega (arith, a.counted);
  }
    where
      keep :
          (f : Found)
          → e.clock ≤ f.mtime + e.file_ttl
          → Memᴰ f (record { path = name ∷ path; mtime = mtime } ∷ files path rest)
          → Memᴰ f (files path rest')
      keep f h (Memᴰ.head q) = absurd (old (ap (λ (x : Found). x.mtime) q))
        where
          old : f.mtime ≡ mtime → ⊥
          old q = ground arith
      keep f h (Memᴰ.tail m) = a.stayed f m h

  Aged-file :
      (path : List Text) (name : Text) (mtime : ℕ) (rest rest' : Entries) (k : ℕ)
      → Aged e path rest k rest'
      → Aged e path (file name mtime rest) k (file name mtime rest')
  unfolding files
  Aged-file path name mtime rest rest' k a = record {
    stayed = λ f m h. keep f h m;
    was = λ f m. back f m;
    counted = omega (arith, a.counted);
  }
    where
      keep :
          (f : Found)
          → e.clock ≤ f.mtime + e.file_ttl
          → Memᴰ f (record { path = name ∷ path; mtime = mtime } ∷ files path rest)
          → Memᴰ f (record { path = name ∷ path; mtime = mtime } ∷ files path rest')
      keep f h (Memᴰ.head q) = Memᴰ.head q
      keep f h (Memᴰ.tail m) = Memᴰ.tail (a.stayed f m h)

      back :
          (f : Found)
          → Memᴰ f (record { path = name ∷ path; mtime = mtime } ∷ files path rest')
          → Memᴰ f (record { path = name ∷ path; mtime = mtime } ∷ files path rest)
      back f (Memᴰ.head q) = Memᴰ.head q
      back f (Memᴰ.tail m) = Memᴰ.tail (a.was f m)

  Aged-directory :
      (path : List Text) (name : Text) (inside inside' rest rest' : Entries) (j k : ℕ)
      → Aged e (name ∷ path) inside j inside'
      → Aged e path rest k rest'
      → Aged e path (directory name inside rest) (j + k) (directory name inside' rest')
  unfolding files
  Aged-directory path name inside inside' rest rest' j k a b = record {
    stayed = λ f m h. elim (Memᴰ.append_cases (files (name ∷ path) inside) m) [
      | inl i ↦ Memᴰ.append_left (files path rest') (a.stayed f i h)
      | inr i ↦ Memᴰ.append_right (files (name ∷ path) inside') (b.stayed f i h)
    ];
    was = λ f m. elim (Memᴰ.append_cases (files (name ∷ path) inside') m) [
      | inl i ↦ Memᴰ.append_left (files path rest) (a.was f i)
      | inr i ↦ Memᴰ.append_right (files (name ∷ path) inside) (b.was f i)
    ];
    counted = omega (
      arith,
      a.counted,
      b.counted,
      length-append (files (name ∷ path) inside) (files path rest),
      length-append (files (name ∷ path) inside') (files path rest'),
    );
  }

  more :
      {path : List Text} {es es' : Entries} {k : ℕ}
      → Aged e path es (k + 0) es'
      → Aged e path es k es'
  more a = record { stayed = a.stayed; was = a.was; counted = omega (arith, a.counted) }

  fewer :
      {path : List Text} {es es' : Entries} {k : ℕ}
      → Aged e path es (0 + k) es'
      → Aged e path es k es'
  fewer a = record { stayed = a.stayed; was = a.was; counted = omega (arith, a.counted) }

  abbrev Walked : List Text → Entries → Walk → Type 0
  Walked path es w = Aged e path es w.removed w.left

  sweep_entries-Aged :
      (path : List Text) (es : Entries) (n : ℕ) → Walked path es (sweep_entries e path es n)
  unfolding sweep_entries
  sweep_entries-Aged path nil n = Aged-same path nil
  sweep_entries-Aged path (file name mtime rest) n =
      let w = sweep_entries e path rest (n + 1) in
      let ih = sweep_entries-Aged path rest (n + 1) in
      if_elim (Walked path (file name mtime rest)) (e.ctx_done n) (cut (file name mtime rest) n) _
        (λ _. Aged-same path _)
        (λ _.
          if_elim (Walked path (file name mtime rest)) (goes e (name ∷ path) mtime)
            (record w { removed = w.removed + 1 }) (record w { left = file name mtime w.left })
            (λ g. Aged-goes path name mtime rest w.left w.removed g ih)
            (λ _. Aged-file path name mtime rest w.left w.removed ih))
  sweep_entries-Aged path (directory name inside rest) n =
      let v = sweep_entries e (name ∷ path) inside (n + 1) in
      let i = if e.readable (name ∷ path) then v.calls else n + 1 + 1 in
      let w = sweep_entries e path rest i in
      let P : Walk → Type 0 = Walked path (directory name inside rest) in
      let inner = sweep_entries-Aged (name ∷ path) inside (n + 1) in
      let outer = sweep_entries-Aged path rest i in
      if_elim P (e.ctx_done n) (cut (directory name inside rest) n) _ (λ _. Aged-same path _)
        (λ _.
          if_elim P (e.readable (name ∷ path))
            (if v.stopped then record v { left = directory name v.left rest } else record w {
              left = directory name v.left w.left;
              removed = v.removed + w.removed;
            })
            (if e.ctx_done (n + 1)
              then cut (directory name inside rest) (n + 1)
              else record w { left = directory name inside w.left })
            (λ _.
              if_elim P v.stopped (record v { left = directory name v.left rest })
                (record w { left = directory name v.left w.left; removed = v.removed + w.removed })
                (λ _. more (
                  Aged-directory path name inside v.left rest rest v.removed 0 inner
                    (Aged-same path rest)))
                (λ _.
                  Aged-directory path name inside v.left rest w.left v.removed w.removed inner
                    outer))
            (λ _.
              if_elim P (e.ctx_done (n + 1)) (cut (directory name inside rest) (n + 1))
                (record w { left = directory name inside w.left }) (λ _. Aged-same path _)
                (λ _. fewer (
                  Aged-directory path name inside inside rest w.left 0 w.removed
                    (Aged-same (name ∷ path) inside) outer))))

  is_nil-files : (path : List Text) (es : Entries) → is_nil es ≡ true → files path es ≡ []
  unfolding files
  is_nil-files path nil h = refl
  is_nil-files path (file name mtime rest) h = absurd (ground arith)
  is_nil-files path (directory name inside rest) h = absurd (ground arith)

  pub prune_entries-files :
      (path : List Text) (es : Entries) → files path (prune_entries e path es) ≡ files path es
  unfolding prune_entries files
  prune_entries-files path nil = refl
  prune_entries-files path (file name mtime rest) =
      ap (λ fs. record { path = name ∷ path; mtime = mtime } ∷ fs) (prune_entries-files path rest)
  prune_entries-files path (directory name inside rest) =
      if_elim (λ es. files path es ≡ files (name ∷ path) inside ++ files path rest)
        (e.readable (name ∷ path) && (is_nil inside && e.removable (name ∷ path))) _ _
        (λ h. rw (is_nil-files (name ∷ path) inside (ground arith)) (prune_entries-files path rest))
        (λ _. ap (λ fs. files (name ∷ path) inside ++ fs) (prune_entries-files path rest))

  prune_empty_children-files :
      (path : List Text) (es : Entries)
      → files path (prune_empty_children e path es) ≡ files path es
  unfolding prune_empty_children
  prune_empty_children-files path es =
      if_elim (λ x. files path x ≡ files path es) (e.readable path) _ es
        (λ _. prune_entries-files path es) (λ _. refl)

  walk_root-Aged : (dir : Text) (es : Entries) (n : ℕ) → Walked (dir ∷ []) es (walk_root e dir es n)
  unfolding walk_root
  walk_root-Aged dir es n =
      if_elim (Walked (dir ∷ []) es) (e.ctx_done n) (cut es n) _ (λ _. Aged-same _ es)
        (λ _.
          if_elim (Walked (dir ∷ []) es) (e.readable (dir ∷ []))
            (sweep_entries e (dir ∷ []) es (n + 1)) _
            (λ _. sweep_entries-Aged (dir ∷ []) es (n + 1)) (λ _. Aged-same _ es))

  -- Whatever fails on the way, and wherever the context ends the walk, a sweep of a directory removes
  -- no file that is not older than the time to live, makes none, and counts those that it removes.
  pub sweep_dir-Aged :
      (dir : Text) (es : Entries) (n : ℕ)
      → Aged e (dir ∷ []) es (sweep_dir e dir es n).removed (sweep_dir e dir es n).left
  unfolding sweep_dir
  sweep_dir-Aged dir es n =
      let a = walk_root-Aged dir es n in
      let q = prune_empty_children-files (dir ∷ []) (walk_root e dir es n).left in
      record {
        stayed = λ f m h. rw q (a.stayed f m h);
        was = λ f m. a.was f (rw q at m);
        counted = rw q a.counted;
      }
