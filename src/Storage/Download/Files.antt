-- ===== src/Storage/Download/Files.antt =====
-- Which files a download leaves on the disk.
use go_signalium.Base.{
  ◌≡◌, refl, ◌⊎◌, inl, inr, Bool, true, not, List, [], ◌∷◌, ◌++◌, map, Memᴰ, select, if_elim, arith,
  Mem-select, Bool-cases, sym, ◌∙◌,
}
use mathlib.Core.List.{append-nil, append_assoc}
use mathlib.Core.List.Memᴰ
use go_signalium.Base.Text.{Text, text_eq_refl, text_eq_sound}
use go_signalium.Domain.{unavailable, Result, ok, err}
use go_signalium.Storage.{ObjectRef}
use go_signalium.Storage.Download.{
  LocalPath, LocalFile, Disk, Fetch, no_object, unopened, broken_off, unclosed, fetched, Env,
  is_same_path, path_of, is_directory, without_path, write_file, download_one, remove_path,
  cleanup_best_effort, download_loop, download_all, has_files,
}

-- Every file of a disk is one of another disk, or at one of some paths.
abbrev pub Within : List LocalFile → List LocalPath → List LocalFile → Type 0
Within fs0 ps fs = (f : LocalFile) → Memᴰ f fs → Memᴰ f fs0 ⊎ Memᴰ f.path ps

-- There is a file at each of some paths.
abbrev pub Present : List LocalPath → List LocalFile → Type 0
Present ps fs = (p : LocalPath) → Memᴰ p ps → Memᴰ p (map (λ f. f.path) fs)

is_same_path_refl : (p : LocalPath) → is_same_path p p ≡ true
is_same_path_refl p = ground (arith, text_eq_refl p.directory, text_eq_refl p.name)

is_same_path_sound : (p q : LocalPath) → is_same_path p q ≡ true → p ≡ q
is_same_path_sound p q h =
    ground (arith, text_eq_sound p.directory q.directory, text_eq_sound p.name q.name)

write_file-Within :
    (fs0 : List LocalFile) (ps : List LocalPath) (p : LocalPath) (content : Text) (d : Disk)
    → Within fs0 ps d.files
    → Within fs0 (ps ++ (p ∷ [])) (write_file p content d).files
write_file-Within fs0 ps p content d w f (Memᴰ.head e) =
    inr (rw e (Memᴰ.append_right ps (Memᴰ.head refl)))
write_file-Within fs0 ps p content d w f (Memᴰ.tail m) =
    let (i, _) = Mem-select (λ g. not (is_same_path p g.path)) f d.files m in
    elim (w f i) [ inl j ↦ inl j | inr j ↦ inr (Memᴰ.append_left (p ∷ []) j) ]

more-Within :
    (fs0 fs : List LocalFile) (ps qs : List LocalPath) → Within fs0 ps fs → Within fs0 (ps ++ qs) fs
more-Within fs0 fs ps qs w f m = elim (w f m) [
  | inl j ↦ inl j
  | inr j ↦ inr (Memᴰ.append_left qs j)
]

without_path-Within :
    (fs0 fs : List LocalFile) (p : LocalPath) (ps : List LocalPath)
    → Within fs0 (p ∷ ps) fs
    → Within fs0 ps (without_path p fs)
without_path-Within fs0 fs p ps w f m =
    let (i, t) = Mem-select (λ g. not (is_same_path p g.path)) f fs m in kept t (w f i)
  where
    apart : (b : Bool) → b ≡ true → not b ≡ true → ⊥
    apart b e t = ground arith

    kept :
        not (is_same_path p f.path) ≡ true
        → Memᴰ f fs0 ⊎ Memᴰ f.path (p ∷ ps)
        → Memᴰ f fs0 ⊎ Memᴰ f.path ps
    kept t (inl i) = inl i
    kept t (inr (Memᴰ.head e)) = absurd (apart (is_same_path p p) (is_same_path_refl p) (rw e at t))
    kept t (inr (Memᴰ.tail i)) = inr i

-- A path that had a file has one after a write.
write_file-Present :
    (p q : LocalPath) (content : Text) (fs : List LocalFile)
    → Memᴰ q (map (λ f. f.path) fs)
    → Memᴰ q (p ∷ map (λ f. f.path) (without_path p fs))
unfolding select
write_file-Present p q content [] m = elim m [ ]
write_file-Present p q content (f ∷ fs) (Memᴰ.head e) = elim (Bool-cases (is_same_path p f.path)) [
  | inl h ↦ Memᴰ.head (rw (is_same_path_sound p f.path h) e)
  | inr h ↦ rw (h, select) (Memᴰ.tail (Memᴰ.head e))
]
write_file-Present p q content (f ∷ fs) (Memᴰ.tail m) = elim (Bool-cases (is_same_path p f.path)) [
  | inl h ↦ rw (h, select) (write_file-Present p q content fs m)
  | inr h ↦ rw (h, select) (deeper (write_file-Present p q content fs m))
]
  where
    deeper :
        Memᴰ q (p ∷ map (λ g. g.path) (without_path p fs))
        → Memᴰ q (p ∷ f.path ∷ map (λ g. g.path) (without_path p fs))
    deeper (Memᴰ.head e) = Memᴰ.head e
    deeper (Memᴰ.tail i) = Memᴰ.tail (Memᴰ.tail i)

-- The outcome of the fetches of `rs` after `ps`, from the files `fs0`.
abbrev pub Fetched :
    Text
    → List LocalFile
    → List ObjectRef
    → List LocalPath
    → Result (List LocalPath) × Disk
    → Type 0
Fetched id fs0 rs ps (ok qs, d) =
    (qs ≡ ps ++ map (path_of id) rs) × Present qs d.files × Within fs0 qs d.files
Fetched id fs0 rs ps (err x, d) =
    (r : ObjectRef) × Memᴰ r rs × Within fs0 (path_of id r ∷ []) d.files

abbrev One : Text → List LocalFile → ObjectRef → List LocalPath → Result LocalPath × Disk → Type 0
One id fs0 r ps (ok p, d) =
    (p ≡ path_of id r) × Present (ps ++ (p ∷ [])) d.files × Within fs0 (ps ++ (p ∷ [])) d.files
One id fs0 r ps (err x, d) = Within fs0 (ps ++ (path_of id r ∷ [])) d.files

module _ (e : Env) (id : Text) (removals : (p : LocalPath) → e.removed p ≡ true)
    (fs0 : List LocalFile) where
  cleanup-Within :
      (ps extra : List LocalPath) (d : Disk)
      → Within fs0 (ps ++ extra) d.files
      → Within fs0 extra (cleanup_best_effort e id ps d).files
  unfolding cleanup_best_effort
  cleanup-Within [] extra d w =
      if_elim (λ (x : Disk). Within fs0 extra x.files) (has_files id d.files) d _ (λ _. w) (λ _. w)
  cleanup-Within (p ∷ ps) extra d w =
      rw (removals p, cleanup_best_effort)
        (cleanup-Within ps extra (remove_path true p d)
          (without_path-Within fs0 d.files p (ps ++ extra) w))

  download_one-One :
      (r : ObjectRef) (ps : List LocalPath) (d : Disk)
      → Present ps d.files
      → Within fs0 ps d.files
      → One id fs0 r ps (download_one e id r d)
  unfolding download_one
  download_one-One r ps d pr w =
      if_elim (One id fs0 r ps) (is_directory (path_of id r)) (err unavailable, d) _
        (λ _. more-Within fs0 d.files ps (path_of id r ∷ []) w) (λ _. opened (e.fetch r))
    where
      written :
          (content : Text)
          → Within fs0 (ps ++ (path_of id r ∷ [])) (write_file (path_of id r) content d).files
      written content = write_file-Within fs0 ps (path_of id r) content d w

      there :
          (content : Text)
          → Present (ps ++ (path_of id r ∷ [])) (write_file (path_of id r) content d).files
      there content q m = elim (Memᴰ.append_cases ps m) [
        | inl i ↦ write_file-Present (path_of id r) q content d.files (pr q i)
        | inr (Memᴰ.head h) ↦ Memᴰ.head h
        | inr (Memᴰ.tail i) ↦ elim i [ ]
      ]

      opened :
          (o : Fetch)
          → One id fs0 r ps (elim o [
            | no_object ↦ (err unavailable, d)
            | unopened ↦ (err unavailable, d)
            | broken_off part ↦ (err unavailable, write_file (path_of id r) part d)
            | unclosed content ↦ (err unavailable, write_file (path_of id r) content d)
            | fetched content ↦ (ok (path_of id r), write_file (path_of id r) content d)
          ])
      opened no_object = more-Within fs0 d.files ps (path_of id r ∷ []) w
      opened unopened = more-Within fs0 d.files ps (path_of id r ∷ []) w
      opened (broken_off part) = written part
      opened (unclosed content) = written content
      opened (fetched content) = (refl, there content, written content)

  download_loop-Fetched :
      (rs : List ObjectRef) (ps : List LocalPath) (d : Disk)
      → Present ps d.files
      → Within fs0 ps d.files
      → Fetched id fs0 rs ps (download_loop e id rs ps d)
  unfolding download_loop
  download_loop-Fetched [] ps d pr w = (sym (append-nil ps), pr, w)
  download_loop-Fetched (r ∷ rs) ps d pr w =
      let (o, d') = download_one e id r d in
      step o d' (download_one-One r ps d pr w)
        (λ p h k. download_loop-Fetched rs (ps ++ (p ∷ [])) d' h k)
    where
      again :
          (p : LocalPath) (x : Result (List LocalPath) × Disk)
          → p ≡ path_of id r
          → Fetched id fs0 rs (ps ++ (p ∷ [])) x
          → Fetched id fs0 (r ∷ rs) ps x
      again p (ok qs, d') h (q, a, b) =
          (q ∙ append_assoc ps (p ∷ []) (map (path_of id) rs) ∙ rw h refl, a, b)
      again p (err x, d') h (s, m, b) = (s, Memᴰ.tail m, b)

      step :
          (o : Result LocalPath) (d' : Disk)
          → One id fs0 r ps (o, d')
          → ((p : LocalPath)
              → Present (ps ++ (p ∷ [])) d'.files
              → Within fs0 (ps ++ (p ∷ [])) d'.files
              → Fetched id fs0 rs (ps ++ (p ∷ [])) (download_loop e id rs (ps ++ (p ∷ [])) d'))
          → Fetched id fs0 (r ∷ rs) ps (elim o [
            | ok p ↦ download_loop e id rs (ps ++ (p ∷ [])) d'
            | err x ↦ (err x, cleanup_best_effort e id ps d')
          ])
      step (ok p) d' (h, a, b) ih = again p _ h (ih p a b)
      step (err x) d' w' ih = (r, Memᴰ.head refl, cleanup-Within ps (path_of id r ∷ []) d' w')

-- A download that succeeds gives one path for each attachment, in their order, below the directory of
-- the message, has a file at each, and puts no other file on the disk. One that fails leaves at most
-- one file behind, that of the attachment at which it failed, where the removals go through.
pub download_all-Fetched :
    (e : Env) (id : Text) (rs : List ObjectRef) (d : Disk)
    → ((p : LocalPath) → e.removed p ≡ true)
    → Fetched id d.files rs [] (download_all e id rs d)
unfolding download_all
download_all-Fetched e id [] d h = (refl, λ p m. elim m [ ], λ f m. inl m)
download_all-Fetched e id (r ∷ rs) d h =
    if_elim (Fetched id d.files (r ∷ rs) []) e.made _ (err unavailable, d)
      (λ _. download_loop-Fetched e id h d.files (r ∷ rs) [] _ (λ p m. elim m [ ]) (λ f m. inl m))
      (λ _. (r, Memᴰ.head refl, λ f m. inl m))
