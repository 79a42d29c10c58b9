-- ===== src/Service/Enqueue/Uploads.antt =====
-- uploadAll of internal/service/send_message.go: what a request's attachments are once they are uploaded.
use mathlib.Core.Path.{subst}
use mathlib.Core.List.{append-nil, append_assoc}
use go_signalium.Base.{
  ℕ, ◌+◌, ◌≡◌, refl, sym, ◌∙◌, ap, not, Option, none, some, List, [], ◌∷◌, ◌++◌, Memᴰ, Bool-cases,
  inl, inr, arith, select, select-Mem,
}
use go_signalium.Base.Text.{Text, text_eq_sound}
use go_signalium.Domain.{
  Attachment, Result, ok, err, invalid_signal_message, attachment_upload_failed,
}
use go_signalium.Repo.Messages.{Link, up, down, lost}
use go_signalium.Storage.{ObjectRef, Objects, object, to_ref, is_same_ref, put}
use go_signalium.Service.Filename.{sanitize_filename}
use go_signalium.Service.Enqueue.{
  Env, Parts, part, eof, broken, attachment, object_key, upload_all, upload, rollback,
}

-- The attachments are those of the parts, in order: each in the bucket under the key of the request and
-- the clean name of its part, with the part's content type.
abbrev pub AreOf : Env → Parts → List Attachment → Type 0
AreOf e eof [] = Unit {0}
AreOf e eof (a ∷ refs) = ⊥
AreOf e (broken x) refs = ⊥
AreOf e (part p rest) [] = ⊥
AreOf e (part p rest) (a ∷ refs) =
    (a.bucket ≡ e.bucket)
    × (a.filename ≡ e.uuid ++ (47 ∷ sanitize_filename p.filename))
    × (a.mime_type ≡ p.content_type)
    × AreOf e rest refs

-- A request without parts has no attachments.
abbrev pub AreUploads : Env → Option Parts → List Attachment → Type 0
AreUploads e none refs = refs ≡ []
AreUploads e (some parts) refs = AreOf e parts refs

-- Every attachment names an object of the store.
abbrev pub AreStored : List Attachment → Objects → Type 0
AreStored refs s = (a : Attachment) → Memᴰ a refs → Memᴰ (to_ref a) s

put_ok :
    (l : Link) (b k : Text) (s : Objects) (ref : ObjectRef)
    → (put l b k s).0 ≡ ok ref
    → (ref ≡ object b k)
      × Memᴰ ref (put l b k s).1
      × ((o : ObjectRef) → Memᴰ o s → Memᴰ o (put l b k s).1)
unfolding put
put_ok down b k s ref h = absurd (ground arith)
put_ok lost b k s ref h = absurd (ground arith)
put_ok up b k s ref h = let e : ref ≡ object b k = ground arith in (e, Memᴰ.head e, kept)
  where
    kept :
        (o : ObjectRef)
        → Memᴰ o s
        → Memᴰ o (object b k ∷ select (λ x. not (is_same_ref (object b k) x)) s)
    kept o m = elim (Bool-cases (is_same_ref (object b k) o)) [
      | inl e ↦ Memᴰ.head (
          let p : b ≡ o.bucket = text_eq_sound b o.bucket (ground arith) in
          let q : k ≡ o.key = text_eq_sound k o.key (ground arith) in
          sym (ap (λ x. object x k) p ∙ ap (object o.bucket) q))
      | inr e ↦ Memᴰ.tail (select-Mem (λ x. not (is_same_ref (object b k) x)) o s m (rw e refl))
    ]

-- What uploadAll adds to the attachments that it has.
record Adds (e : Env) (ps : Parts) (done refs : List Attachment) (s : Objects) : Type 0 where
  more : List Attachment
  joined : refs ≡ done ++ more
  are_of : AreOf e ps more
  stored : AreStored refs s

module _ (e : Env) where
  with_attachment :
      (done : List Attachment) (a : Attachment) (s s' : Objects)
      → AreStored done s
      → ((o : ObjectRef) → Memᴰ o s → Memᴰ o s')
      → Memᴰ (to_ref a) s'
      → AreStored (done ++ (a ∷ [])) s'
  with_attachment [] a s s' st kept m b (Memᴰ.head h) = rw h m
  with_attachment [] a s s' st kept m b (Memᴰ.tail i) = elim i [ ]
  with_attachment (d ∷ done) a s s' st kept m b (Memᴰ.head h) = kept (to_ref b) (st b (Memᴰ.head h))
  with_attachment (d ∷ done) a s s' st kept m b (Memᴰ.tail i) =
      with_attachment done a s s' (λ x k. st x (Memᴰ.tail k)) kept m b i

  upload_all-Adds :
      (i : ℕ) (ps : Parts) (done refs : List Attachment) (s s' : Objects)
      → AreStored done s
      → upload_all e i ps done s ≡ (ok refs, s')
      → Adds e ps done refs s'
  unfolding upload_all
  upload_all-Adds i eof done refs s s' st h =
      let same : refs ≡ done = ground arith in
      let here : s ≡ s' = ground arith in
      record {
        more = [];
        joined = rw (append-nil done) same;
        are_of = tt;
        stored = rw same (subst (AreStored done) here st);
      }
  upload_all-Adds i (broken x) done refs s s' st h = absurd (ground arith)
  upload_all-Adds i (part p rest) done refs s s' st h =
      named
        (λ ref t st' k.
          upload_all-Adds (i + 1) rest (done ++ (attachment ref p ∷ [])) refs t s' st' k)
        (sanitize_filename p.filename) refl h
    where
      Again : Type 0
      Again =
          (ref : ObjectRef) (t : Objects)
          → AreStored (done ++ (attachment ref p ∷ [])) t
          → upload_all e (i + 1) rest (done ++ (attachment ref p ∷ [])) t ≡ (ok refs, s')
          → Adds e rest (done ++ (attachment ref p ∷ [])) refs s'

      attempt : List ℕ → Result ObjectRef × Objects → Result (List Attachment) × Objects
      attempt name x = elim x.0 [
        | ok ref ↦ upload_all e (i + 1) rest (done ++ (attachment ref p ∷ [])) x.1
        | err y ↦ (err (attachment_upload_failed name), rollback e done x.1)
      ]

      put_cases :
          Again
          → (name : List ℕ) (r : Result ObjectRef) (t : Objects)
          → sanitize_filename p.filename ≡ name
          → put (e.put_link i) e.bucket (object_key e name) s ≡ (r, t)
          → attempt name (r, t) ≡ (ok refs, s')
          → Adds e (part p rest) done refs s'
      put_cases again name (err y) t q u k = absurd (ground arith)
      put_cases again name (ok ref) t q u k =
          let (same, m, kept) =
            put_ok (e.put_link i) e.bucket (object_key e name) s ref
              (ap (λ (x : Result ObjectRef × Objects). x.0) u) in
          let there : (put (e.put_link i) e.bucket (object_key e name) s).1 ≡ t =
            ap (λ (x : Result ObjectRef × Objects). x.1) u in
          let a = attachment ref p in
          let st' : AreStored (done ++ (a ∷ [])) t =
            with_attachment done a s t st (λ o j. subst (Memᴰ o) there (kept o j))
              (subst (Memᴰ ref) there m) in
          let r : Adds e rest (done ++ (a ∷ [])) refs s' = again ref t st' k in
          record {
            more = a ∷ r.more;
            joined = r.joined ∙ append_assoc done (a ∷ []) r.more;
            are_of = (
              ap (λ (x : ObjectRef). x.bucket) same,
              ap (λ (x : ObjectRef). x.key) same ∙ ap (λ (x : List ℕ). e.uuid ++ (47 ∷ x)) (sym q),
              refl,
              r.are_of,
            );
            stored = r.stored;
          }

      named :
          Again
          → (name : List ℕ) → sanitize_filename p.filename ≡ name
          → elim name as (λ _. Result (List Attachment) × Objects) [
            | [] ↦ (err (invalid_signal_message "attachments"), rollback e done s)
            | b ∷ t ↦ attempt (b ∷ t) (put (e.put_link i) e.bucket (object_key e (b ∷ t)) s)
          ]
            ≡ (ok refs, s')
          → Adds e (part p rest) done refs s'
      named again [] q k = absurd (ground arith)
      named again (b ∷ t) q k =
          put_cases again (b ∷ t) (put (e.put_link i) e.bucket (object_key e (b ∷ t)) s).0
            (put (e.put_link i) e.bucket (object_key e (b ∷ t)) s).1 q refl k

-- An upload that succeeds has one attachment for each part, each stored.
pub upload-AreUploads :
    (e : Env) (parts : Option Parts) (s s' : Objects) (refs : List Attachment)
    → upload e parts s ≡ (ok refs, s')
    → AreUploads e parts refs × AreStored refs s'
unfolding upload
upload-AreUploads e none s s' refs h =
    let same : refs ≡ [] = ground arith in (same, λ a m. elim (rw same at m) [ ])
upload-AreUploads e (some parts) s s' refs h =
    let r = upload_all-Adds e 0 parts [] refs s s' (λ a m. elim m [ ]) h in
    (subst (AreOf e parts) (sym r.joined) r.are_of, r.stored)
