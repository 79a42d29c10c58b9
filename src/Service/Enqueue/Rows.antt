-- ===== src/Service/Enqueue/Rows.antt =====
-- Enqueue and the outbox: the row that a fresh request makes.
use go_signalium.Base.{
  ◌≡◌, refl, Bool, true, false, not, ◌||◌, Option, none, some, List, ◌∷◌, arith, if_elim,
}
use go_signalium.Base.Text.{Text}
use go_signalium.Domain.{Message, Attachment, pending, constraint, Result, ok, err}
use go_signalium.Repo.{Row, Table, exists, is_live}
use go_signalium.Repo.Insert.{InsertParams, is_one_target, clashes, identity, new_row}
use go_signalium.Repo.Insert
use go_signalium.Repo.Messages.{Link, up, down, lost, write, one_row, ts_tz}
use go_signalium.Repo.Messages
use go_signalium.Storage.{Objects}
use go_signalium.Service.Enqueue.Uploads.{AreUploads, AreStored, upload-AreUploads}
use go_signalium.Service.Enqueue.{
  CreateMessage, EnqueueResult, Parts, Env, State, upload, insert_params, insert_row, rollback,
  after_lookup, find_existing, enqueue, validate, timeout_at_of,
}
use mathlib.Core.Path.{subst}
use go_signalium.Base.{ℕ}

-- The row of a request, its attachments being stored.
pub record IsRowOf (sender : Text) (e : Env) (m : CreateMessage) (refs : List Attachment) (r : Row)
    : Type 0 where
  pub due : (r.status ≡ pending) × (r.attempts ≡ 0) × (r.next_attempt_at ≡ e.db_now)
  pub live : (is_live r ≡ true) × (r.quote_result_id ≡ none)
  pub deadline : r.timeout_at ≡ ts_tz (timeout_at_of e.clock m.timeout_seconds)
  pub names :
      (r.id ≡ e.row_id) × (r.external_id ≡ m.external_id) × (r.idempotency_key ≡ m.idempotency_key)
  pub body : (r.content ≡ m.content) × (r.attachments ≡ refs) × (r.sender_phone_number ≡ sender)
  pub target :
      (r.recipient ≡ m.recipient)
      × (r.group_id ≡ m.group_id)
      × (is_one_target r.recipient r.group_id ≡ true)

module _ (sender : Text) (e : Env) (m : CreateMessage) (parts : Option Parts) (s : State) where
  -- The outcome of an enqueue: where it made a row, the table has that row more.
  abbrev Makes : Result EnqueueResult × State → Type 0
  Makes (err x, s') = Unit
  Makes (ok r, s') =
      r.idempotent ≡ false
      → (refs : List Attachment) × (row : Row) × (upload e parts s.objects ≡ (ok refs, s'.objects))
        × (s'.table ≡ row ∷ s.table)
        × IsRowOf sender e m refs row
        × (r.id ≡ row.id)

  abbrev finished :
      List Attachment → Objects → Result Message × Table → Result EnqueueResult × State
  finished refs o (r, t) = elim r [
    | ok row ↦ (ok (record { id = row.id; idempotent = false }), record { table = t; objects = o })
    | err x ↦ (err x, record { table = t; objects = rollback e refs o })
  ]

  abbrev stored : List Attachment → InsertParams
  stored refs = record (insert_params sender e m refs) {
    timeout_at = ts_tz (insert_params sender e m refs).timeout_at;
  }

  linked :
      (refs : List Attachment) (o : Objects) (link : Link) (x : Result Row × Table)
      → Makes (finished refs o (one_row x.0, x.1))
      → Makes (finished refs o (write link s.table (one_row x.0, x.1)))
  linked refs o up x k = k
  linked refs o down x k = tt
  linked refs o lost x k = tt

  new_row-IsRowOf :
      (refs : List Attachment)
      → is_one_target m.recipient m.group_id ≡ true
      → IsRowOf sender e m refs (new_row e.db_now e.row_id (stored refs))
  unfolding new_row insert_params
  new_row-IsRowOf refs h = record {
    due = (refl, refl, refl);
    live = (refl, refl);
    deadline = refl;
    names = (refl, refl, refl);
    body = (refl, refl, refl);
    target = (refl, refl, h);
  }

  insert-Makes :
      (refs : List Attachment) (o : Objects)
      → upload e parts s.objects ≡ (ok refs, o)
      → Makes (
          finished refs o (
            one_row (Insert.insert e.db_now e.row_id (stored refs) s.table).0,
            (Insert.insert e.db_now e.row_id (stored refs) s.table).1,
          ))
  unfolding Insert.insert insert_params
  insert-Makes refs o q =
      if_elim (λ (x : Result Row × Table). Makes (finished refs o (one_row x.0, x.1)))
        (clash || not (is_one_target m.recipient m.group_id)) (err constraint, s.table)
        (ok row, row ∷ s.table) (λ _. tt)
        (λ h _. (refs, row, q, refl, new_row-IsRowOf refs (right clash _ h), refl))
    where
      row : Row
      row = new_row e.db_now e.row_id (stored refs)

      clash : Bool
      clash = exists (λ r. clashes (identity row) (identity r)) s.table

      right : (a b : Bool) → (a || not b) ≡ false → b ≡ true
      right a b h = ground arith

  uploaded-Makes :
      (u : Result (List Attachment) × Objects)
      → upload e parts s.objects ≡ u
      → Makes (insert_row sender e m u s.table)
  unfolding insert_row Messages.insert
  uploaded-Makes (err x, o) q = tt
  uploaded-Makes (ok refs, o) q =
      linked refs o e.insert_link (Insert.insert e.db_now e.row_id (stored refs) s.table)
        (insert-Makes refs o q)

  looked_up-Makes : (r : Result (Option ℕ)) → Makes (after_lookup sender e m parts s r)
  unfolding after_lookup
  looked_up-Makes (err x) = tt
  looked_up-Makes (ok (some id)) = λ h. absurd (ground arith)
  looked_up-Makes (ok none) = uploaded-Makes (upload e parts s.objects) refl

  enqueue-Makes : Makes (enqueue sender e m parts s)
  unfolding enqueue
  enqueue-Makes = validated (validate sender m)
    where
      validated :
          (v : Result (Unit {0}))
          → Makes (elim v [
            | err x ↦ (err x, s)
            | ok _ ↦ after_lookup sender e m parts s (find_existing e m s.table)
          ])
      validated (err x) = tt
      validated (ok u) = looked_up-Makes (find_existing e m s.table)

pub enqueue_inserts :
    (sender : Text) (e : Env) (m : CreateMessage) (parts : Option Parts) (s s' : State)
    (r : EnqueueResult)
    → enqueue sender e m parts s ≡ (ok r, s')
    → r.idempotent ≡ false
    → (refs : List Attachment) × (row : Row) × AreUploads e parts refs
      × AreStored refs s'.objects
      × (s'.table ≡ row ∷ s.table)
      × IsRowOf sender e m refs row
      × (r.id ≡ row.id)
enqueue_inserts sender e m parts s s' r h fresh =
    let made : Makes sender e m parts s (ok r, s') =
      subst (Makes sender e m parts s) h (enqueue-Makes sender e m parts s) in
    let (refs, row, u, added, o, names) = made fresh in
    let (are, stored) = upload-AreUploads e parts s.objects s'.objects refs u in
    (refs, row, are, stored, added, o, names)
