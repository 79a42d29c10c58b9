-- ===== src/Service/Enqueue/Keys.antt =====
-- Enqueue and the idempotency keys: a request that comes again.
use go_signalium.Base.{
  ◌≡◌, refl, true, false, not, ◌||◌, Option, none, some, List, ◌∷◌, arith, if_elim, first,
}
use mathlib.Core.Path.{subst}
use go_signalium.Base.Text.{Text, is_set, text_eq_refl}
use go_signalium.Domain.{Message, Attachment, constraint, Result, ok, err}
use go_signalium.Repo.{Row, Table, exists, has_key, get_by_idempotency_key}
use go_signalium.Repo.Insert.{InsertParams, is_one_target, clashes, identity, new_row}
use go_signalium.Repo.Insert
use go_signalium.Repo.Messages.{Link, up, down, lost, write, one, one_row, ts_tz}
use go_signalium.Repo.Messages
use go_signalium.Storage.{Objects}
use go_signalium.Service.Enqueue.{
  CreateMessage, EnqueueResult, Parts, Env, State, upload, insert_params, or_empty, insert_row,
  existing, rollback, after_lookup, find_existing, enqueue, validate,
}

module _ (sender : Text) (m : CreateMessage) where
  abbrev key : Text
  key = or_empty m.idempotency_key

  -- The outcome of an enqueue: where it gave an id, the row that has the key has that id.
  abbrev IsKeyed : Result EnqueueResult × State → Type 0
  IsKeyed (err x, s) = Unit
  IsKeyed (ok r, s) =
      (row : Row) × (get_by_idempotency_key key s.table ≡ some row) × (row.id ≡ r.id)

  abbrev finished :
      Env → List Attachment → Objects → Result Message × Table → Result EnqueueResult × State
  finished e refs s (r, t) = elim r [
    | ok row ↦ (ok (record { id = row.id; idempotent = false }), record { table = t; objects = s })
    | err x ↦ (err x, record { table = t; objects = rollback e refs s })
  ]

  has_key-own : (o : Option Text) → is_set o ≡ true → has_key (or_empty o) o ≡ true
  unfolding is_set
  has_key-own none h = cc
  has_key-own (some t) h = text_eq_refl t

  -- The row that is inserted has the key.
  new_row-key :
      (e : Env) (refs : List Attachment) (p : InsertParams) (t : Table)
      → is_set m.idempotency_key ≡ true
      → p.idempotency_key ≡ m.idempotency_key
      → get_by_idempotency_key key (new_row e.db_now e.row_id p ∷ t)
        ≡ some (new_row e.db_now e.row_id p)
  unfolding get_by_idempotency_key first new_row is_set
  new_row-key e refs p t k q = rw (q, has_key-own m.idempotency_key k) refl

  linked :
      (e : Env) (refs : List Attachment) (s : Objects) (t : Table) (link : Link)
      (x : Result Row × Table)
      → IsKeyed (finished e refs s (one_row x.0, x.1))
      → IsKeyed (finished e refs s (write link t (one_row x.0, x.1)))
  linked e refs s t up x k = k
  linked e refs s t down x k = tt
  linked e refs s t lost x k = tt

  insert-IsKeyed :
      (e : Env) (refs : List Attachment) (s : Objects) (p : InsertParams) (t : Table)
      → is_set m.idempotency_key ≡ true
      → p.idempotency_key ≡ m.idempotency_key
      → IsKeyed (
          finished e refs s (
            one_row (Insert.insert e.db_now e.row_id p t).0,
            (Insert.insert e.db_now e.row_id p t).1,
          ))
  unfolding Insert.insert
  insert-IsKeyed e refs s p t k q =
      if_elim (λ (x : Result Row × Table). IsKeyed (finished e refs s (one_row x.0, x.1)))
        (exists (λ r. clashes (identity (new_row e.db_now e.row_id p)) (identity r)) t
          || not (is_one_target p.recipient p.group_id))
        (err constraint, t) (ok (new_row e.db_now e.row_id p), new_row e.db_now e.row_id p ∷ t)
        (λ _. tt) (λ _. (new_row e.db_now e.row_id p, new_row-key e refs p t k q, refl))

  insert_row-IsKeyed :
      (e : Env) (t : Table) (r : Result (List Attachment) × Objects)
      → is_set m.idempotency_key ≡ true
      → IsKeyed (insert_row sender e m r t)
  unfolding insert_row Messages.insert insert_params
  insert_row-IsKeyed e t (err x, s) k = tt
  insert_row-IsKeyed e t (ok refs, s) k =
      let p = record (insert_params sender e m refs) {
        timeout_at = ts_tz (insert_params sender e m refs).timeout_at;
      } in
      linked e refs s t e.insert_link (Insert.insert e.db_now e.row_id p t)
        (insert-IsKeyed e refs s p t k refl)

  looked_up-IsKeyed :
      (e : Env) (parts : Option Parts) (s : State) (link : Link)
      → is_set m.idempotency_key ≡ true
      → IsKeyed (
          after_lookup sender e m parts s
            (existing (Messages.get_by_idempotency_key link key s.table)))
  unfolding after_lookup Messages.get_by_idempotency_key
  looked_up-IsKeyed e parts s down k = tt
  looked_up-IsKeyed e parts s lost k = tt
  looked_up-IsKeyed e parts s up k = found (get_by_idempotency_key key s.table) refl
    where
      found :
          (o : Option Row)
          → get_by_idempotency_key key s.table ≡ o
          → IsKeyed (after_lookup sender e m parts s (existing (one o)))
      found none q = insert_row-IsKeyed e s.table (upload e parts s.objects) k
      found (some r) q = (r, q, refl)

  enqueue-IsKeyed :
      (e : Env) (parts : Option Parts) (s : State)
      → is_set m.idempotency_key ≡ true
      → IsKeyed (enqueue sender e m parts s)
  unfolding enqueue find_existing
  enqueue-IsKeyed e parts s k = validated (validate sender m)
    where
      validated :
          (v : Result (Unit {0}))
          → IsKeyed (elim v [
            | err x ↦ (err x, s)
            | ok _ ↦ after_lookup sender e m parts s (find_existing e m s.table)
          ])
      validated (err x) = tt
      validated (ok u) = rw k (looked_up-IsKeyed e parts s e.lookup_link k)

-- A request with an idempotency key that was enqueued, and that comes again in whatever circumstances
-- in which the lookup reaches the table, gets the id of the row of the first time, and nothing is
-- uploaded and nothing inserted.
pub enqueue_again :
    (sender : Text) (e e' : Env) (m : CreateMessage) (parts parts' : Option Parts) (s s' : State)
    (r : EnqueueResult)
    → is_set m.idempotency_key ≡ true
    → enqueue sender e m parts s ≡ (ok r, s')
    → e'.lookup_link ≡ up
    → enqueue sender e' m parts' s' ≡ (ok (record { id = r.id; idempotent = true }), s')
unfolding enqueue find_existing Messages.get_by_idempotency_key after_lookup
enqueue_again sender e e' m parts parts' s s' r k done l =
    let (row, found, same) = subst (IsKeyed sender m) done (enqueue-IsKeyed sender m e parts s k) in
    rw (accepted (validate sender m) refl done, k, l, found, same, enqueue) refl
  where
    accepted :
        (v : Result (Unit {0}))
        → validate sender m ≡ v
        → elim v [
          | err x ↦ (err x, s)
          | ok _ ↦ after_lookup sender e m parts s (find_existing e m s.table)
        ]
          ≡ (ok r, s')
        → validate sender m ≡ ok tt
    accepted (err x) q h = ground arith
    accepted (ok u) q h = q
