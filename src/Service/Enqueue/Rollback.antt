-- ===== src/Service/Enqueue/Rollback.antt =====
-- Enqueue and the object store: what an enqueue that fails leaves behind.
use go_signalium.Base.{
  ℕ, ◌+◌, ◌≡◌, refl, inl, inr, false, Option, none, some, List, [], ◌∷◌, ◌++◌, map, Memᴰ,
  Mem-select, ◌≢◌, not,
}
use go_signalium.Base.Text.{Text}
use go_signalium.Domain.{Attachment, Err, Message, Result, ok, err}
use go_signalium.Repo.{Table}
use go_signalium.Repo.Messages.{Link, up, down, lost}
use go_signalium.Repo.Messages
use go_signalium.Storage.{
  Objects, ObjectRef, object, to_ref, is_same_ref, put, remove, Within, remove-Within,
}
use go_signalium.Service.Filename.{sanitize_filename}
use go_signalium.Service.Enqueue.{
  AttachmentPart, CreateMessage, EnqueueResult, Parts, eof, broken, part, Env, State, attachment,
  object_key, rollback, upload_all, upload, insert_params, insert_row, after_lookup, find_existing,
  enqueue, validate,
}

-- A result that is an error.
abbrev pub Failed {ℓ} : {A : Type ℓ} → Result A → Type 0
Failed (ok a) = ⊥
Failed (err x) = Unit

abbrev pub Subset : Objects → Objects → Type 0
Subset s s0 = (o : ObjectRef) → Memᴰ o s → Memᴰ o s0

-- The store answers: no upload is lost on its way back, and removals take effect.
pub record Answers (e : Env) : Type 0 where
  pub puts : (i : ℕ) → e.put_link i ≢ lost
  pub removals : (r : ObjectRef) → e.remove_link r ≡ up

module _ (e : Env) (answers : Answers e) (s0 : Objects) where
  rollback-Subset :
      (refs : List Attachment) (s : Objects) → Within s0 refs s → Subset (rollback e refs s) s0
  unfolding rollback
  rollback-Subset [] s w = λ o m. elim (w o m) [ inl i ↦ i | inr i ↦ elim i [ ] ]
  rollback-Subset (a ∷ refs) s w =
      rw (answers.removals (to_ref a))
        (rollback-Subset refs (remove up (to_ref a) s).1 (remove-Within s0 a refs s w))

  Mem-snoc :
      (a : Attachment) (o : ObjectRef) (refs : List Attachment)
      → Memᴰ o (map to_ref refs)
      → Memᴰ o (map to_ref (refs ++ (a ∷ [])))
  Mem-snoc a o [] m = elim m [ ]
  Mem-snoc a o (b ∷ refs) (Memᴰ.head q) = Memᴰ.head q
  Mem-snoc a o (b ∷ refs) (Memᴰ.tail i) = Memᴰ.tail (Mem-snoc a o refs i)

  Mem-snoc_last :
      (a : Attachment) (refs : List Attachment) → Memᴰ (to_ref a) (map to_ref (refs ++ (a ∷ [])))
  Mem-snoc_last a [] = Memᴰ.head refl
  Mem-snoc_last a (b ∷ refs) = Memᴰ.tail (Mem-snoc_last a refs)

  -- An upload that went through is named by its attachment.
  put-Within :
      (p : AttachmentPart) (key : Text) (refs : List Attachment) (s : Objects)
      → Within s0 refs s
      → Within s0 (refs ++ (attachment (object e.bucket key) p ∷ [])) (put up e.bucket key s).1
  unfolding put
  put-Within p key refs s w o (Memᴰ.head q) =
      inr (rw q (Mem-snoc_last (attachment (object e.bucket key) p) refs))
  put-Within p key refs s w o (Memᴰ.tail i) =
      let (j, _) = Mem-select (λ x. not (is_same_ref (object e.bucket key) x)) o s i in
      elim (w o j) [
        | inl k ↦ inl k
        | inr k ↦ inr (Mem-snoc (attachment (object e.bucket key) p) o refs k)
      ]

  -- The store after an upload: on an error as before, else with the attachments' objects at most.
  abbrev Uploaded : Result (List Attachment) × Objects → Type 0
  Uploaded (ok refs, s) = Within s0 refs s
  Uploaded (err x, s) = Subset s s0

  abbrev placed :
      ℕ
      → Parts
      → AttachmentPart
      → Text
      → List Attachment
      → Result ObjectRef × Objects
      → Result (List Attachment) × Objects
  placed i rest p name refs (r, s') = elim r [
    | ok ref ↦ upload_all e (i + 1) rest (refs ++ (attachment ref p ∷ [])) s'
    | err x ↦ (err (Err.attachment_upload_failed name), rollback e refs s')
  ]

  upload_all-Uploaded :
      (i : ℕ) (parts : Parts) (refs : List Attachment) (s : Objects)
      → Within s0 refs s
      → Uploaded (upload_all e i parts refs s)
  unfolding upload_all put
  upload_all-Uploaded i eof refs s w = w
  upload_all-Uploaded i (broken x) refs s w = rollback-Subset refs s w
  upload_all-Uploaded i (part p rest) refs s w =
      named (sanitize_filename p.filename)
        (λ ref s' w'. upload_all-Uploaded (i + 1) rest (refs ++ (attachment ref p ∷ [])) s' w')
    where
      Again : Type 0
      Again =
          (ref : ObjectRef) (s' : Objects)
          → Within s0 (refs ++ (attachment ref p ∷ [])) s'
          → Uploaded (upload_all e (i + 1) rest (refs ++ (attachment ref p ∷ [])) s')

      sent :
          (name : Text) (link : Link)
          → link ≢ lost
          → Again
          → Uploaded (placed i rest p name refs (put link e.bucket (object_key e name) s))
      sent name up h again =
          again (object e.bucket (object_key e name)) (put up e.bucket (object_key e name) s).1
            (put-Within p (object_key e name) refs s w)
      sent name down h again = rollback-Subset refs s w
      sent name lost h again = absurd (h refl)

      named :
          (name : Text)
          → Again
          → Uploaded (elim name [
            | [] ↦ (err (Err.invalid_signal_message "attachments"), rollback e refs s)
            | b ∷ t ↦
                placed i rest p (b ∷ t) refs (put (e.put_link i) e.bucket (object_key e (b ∷ t)) s)
          ])
      named [] again = rollback-Subset refs s w
      named (b ∷ t) again = sent (b ∷ t) (e.put_link i) (answers.puts i) again

  -- The outcome of an enqueue: the store as before where it failed.
  abbrev Clean : Result EnqueueResult × State → Type 0
  Clean (r, s) = Failed r → Subset s.objects s0

  inserted :
      (m : CreateMessage) (refs : List Attachment) (s : Objects) (r : Result Message) (t : Table)
      → Within s0 refs s
      → Clean (elim r [
        | ok row ↦
            (ok (record { id = row.id; idempotent = false }), record { table = t; objects = s })
        | err x ↦ (err x, record { table = t; objects = rollback e refs s })
      ])
  inserted m refs s (ok row) t w f = absurd f
  inserted m refs s (err x) t w f = rollback-Subset refs s w

  insert_row-Clean :
      (sender : Text) (m : CreateMessage) (r : Result (List Attachment) × Objects) (t : Table)
      → Uploaded r
      → Clean (insert_row sender e m r t)
  unfolding insert_row
  insert_row-Clean sender m (err x, s) t u = λ f. u
  insert_row-Clean sender m (ok refs, s) t u =
      let (r, t') =
        Messages.insert e.insert_link e.db_now e.row_id (insert_params sender e m refs) t in
      inserted m refs s r t' u

  upload-Uploaded : (parts : Option Parts) → Uploaded (upload e parts s0)
  unfolding upload
  upload-Uploaded none = λ o m. inl m
  upload-Uploaded (some parts) = upload_all-Uploaded 0 parts [] s0 (λ o m. inl m)

after_lookup-Clean :
    (sender : Text) (e : Env) (m : CreateMessage) (parts : Option Parts) (s : State)
    (answers : Answers e) (r : Result (Option ℕ))
    → Clean e answers s.objects (after_lookup sender e m parts s r)
unfolding after_lookup
after_lookup-Clean sender e m parts s answers (err x) = λ f o i. i
after_lookup-Clean sender e m parts s answers (ok (some id)) = λ f. absurd f
after_lookup-Clean sender e m parts s answers (ok none) =
    insert_row-Clean e answers s.objects sender m (upload e parts s.objects) s.table
      (upload-Uploaded e answers s.objects parts)

-- Where the object store answers, an enqueue that fails, for whatever reason and at whatever point,
-- leaves no object behind that was not there before it.
pub enqueue-Subset :
    (sender : Text) (e : Env) (m : CreateMessage) (parts : Option Parts) (s : State)
    → Answers e
    → Failed (enqueue sender e m parts s).0
    → Subset (enqueue sender e m parts s).1.objects s.objects
unfolding enqueue
enqueue-Subset sender e m parts s answers = validated (validate sender m)
  where
    validated :
        (v : Result (Unit {0}))
        → Clean e answers s.objects (elim v [
          | err x ↦ (err x, s)
          | ok _ ↦ after_lookup sender e m parts s (find_existing e m s.table)
        ])
    validated (err x) = λ f o i. i
    validated (ok u) = after_lookup-Clean sender e m parts s answers (find_existing e m s.table)
