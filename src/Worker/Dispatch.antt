-- ===== src/Worker/Dispatch.antt =====
-- What a dispatch of internal/worker/worker.go does to the table, the counters, the posts and the
-- frames that the daemon accepted.
use go_signalium.Base.{
  List, map, ◌+◌, ◌/◌, ◌^◌, ◌≤◌, ◌<◌, ◌≡◌, refl, ap, ◌∙◌, ◌⊎◌, inl, inr, ◌≢◌, true, false, ◌||◌,
  arith, some, List, ◌∷◌, if◌then◌else◌, if_elim, ==_refl, Memᴰ,
}
use go_signalium.Base.Int.{ℤ}
use go_signalium.Base.Decimal.{format_int}
use go_signalium.Domain.{Message, Err, Result, ok, err, sent, failed, permanent_failed}
use go_signalium.Repo.{Row, Table, update_where, has_id, sent_row, failed_row, is_exhausted}
use go_signalium.Repo
use go_signalium.Repo.Messages.{Link, up, down, lost, write}
use go_signalium.Repo.Messages
use go_signalium.Repo.Updates.{update_where_miss, update_where_hit}
use go_signalium.Service.Backoff.{backoff-le-max}
use go_signalium.Signal.Params.{SendParams, build_send_params}
use go_signalium.Storage.Download.{LocalPath, Disk, download_all}
use go_signalium.Worker.{
  Config, Env, World, to_refs, mark_sent, next_attempt, report_failure, fail, settle, send,
  after_download, dispatch,
}
use go_signalium.Worker.Loop.{
  sent_table, mark_sent-Settles, mark_sent_retries, is_ok, is_up, IsPatient,
}

module _ (c : Config) (e : Env) (m : Message) where
  abbrev pub of_build : Result SendParams → Result ℤ
  of_build (err x) = err x
  of_build (ok p) = e.reply

  abbrev pub of_download : Result (List LocalPath) → Result ℤ
  of_download (err x) = err x
  of_download (ok paths) = of_build (build_send_params c.account m (map e.local_path paths))

  -- What the send amounts to: the timestamp of the daemon, or the cause of the failure.
  abbrev pub download_of : World → Result (List LocalPath) × Disk
  download_of w = download_all e.disk (e.directory m.id) (to_refs m.attachments) w.local

  unfoldable pub verdict : World → Result ℤ
  verdict w = of_download (download_of w).0

  abbrev pub failed_table : Err → Table → Table
  failed_table x t =
      update_where (has_id m.id) (failed_row e.db_now (e.message_of x) (next_attempt c e m)) t

  -- The table after a dispatch.
  pub data Written (t t' : Table) : Type 0 where
    untouched : t' ≡ t → Written t t'
    as_sent : (ts : ℤ) → t' ≡ sent_table e.db_now m.id ts t → Written t t'
    as_failed : (x : Err) → t' ≡ failed_table x t → Written t t'

  report-table : (w : World) → (report_failure c m w).table ≡ w.table
  unfolding report_failure
  report-table w = ground arith

  fail_table_eq :
      (x : Err) (w : World)
      → (fail c e m x w).table ≡ (write e.fail_link w.table (ok (tt {0}), failed_table x w.table)).1
  unfolding fail Messages.mark_failed Repo.mark_failed
  fail_table_eq x w = ground (arith, report-table (record w { table = failed_table x w.table }))

  by_link :
      (x : Err) (l : Link) (t t' : Table)
      → t' ≡ (write l t (ok (tt {0}), failed_table x t)).1
      → Written t t'
  by_link x up t t' h = as_failed x h
  by_link x down t t' h = untouched h
  by_link x lost t t' h = as_failed x h

  fail-Written : (x : Err) (w : World) → Written w.table (fail c e m x w).table
  fail-Written x w = by_link x e.fail_link w.table (fail c e m x w).table (fail_table_eq x w)

  settled : (ts : ℤ) (t t' : Table) → (t' ≡ t) ⊎ (t' ≡ sent_table e.db_now m.id ts t) → Written t t'
  settled ts t t' (inl h) = untouched h
  settled ts t t' (inr h) = as_sent ts h

  settle_table_eq :
      (ts : ℤ) (w : World)
      → (settle c e m (ok ts) w).table ≡ (mark_sent e m.id (format_int ts) w.table).1
  unfolding settle
  settle_table_eq ts w = ground arith

  settle-Written : (r : Result ℤ) (w : World) → Written w.table (settle c e m r w).table
  unfolding settle
  settle-Written (err x) w = fail-Written x _
  settle-Written (ok ts) w =
      settled ts w.table _ (rw (settle_table_eq ts w) ((mark_sent-Settles e m.id ts w.table).0))

  send-Written : (r : Result SendParams) (w : World) → Written w.table (send c e m r w).table
  unfolding send
  send-Written (err x) w = fail-Written x w
  send-Written (ok p) w =
      if_elim (λ v. Written w.table (settle c e m e.reply v).table) e.accepted
        (record w { frames = p ∷ w.frames }) w (λ _. settle-Written e.reply _)
        (λ _. settle-Written e.reply w)

  download-Written :
      (d : Result (List LocalPath) × Disk) (w : World)
      → Written w.table (after_download c e m d w).table
  unfolding after_download
  download-Written (err x, d) w = fail-Written x (record w { local = d })
  download-Written (ok paths, d) w =
      send-Written (build_send_params c.account m (map e.local_path paths)) (record w { local = d })

  pub dispatch-Written : (w : World) → Written w.table (dispatch c e m w).table
  unfolding dispatch
  dispatch-Written w = download-Written (download_of w) w

  -- A dispatch writes no row but that of its message.
  pub dispatch_others :
      (w : World) (s : Row) → Memᴰ s w.table → s.id ≢ m.id → Memᴰ s (dispatch c e m w).table
  dispatch_others w s i ne = keep (dispatch-Written w)
    where
      other : has_id m.id s ≡ false
      other = ground arith

      keep : {t' : Table} → Written w.table t' → Memᴰ s t'
      keep (untouched h) = rw h i
      keep (as_sent ts h) =
          rw h (update_where_miss (has_id m.id) (sent_row e.db_now (format_int ts)) w.table i other)
      keep (as_failed x h) = rw h (
          update_where_miss (has_id m.id)
            (failed_row e.db_now (e.message_of x) (next_attempt c e m)) w.table i other)

  -- The links hold: MarkFailed gets through, and so does one try of MarkSent.
  pub record IsConnected : Type 0 where
    pub can_fail : e.fail_link ≡ up
    pub can_send : is_up (e.sent_link 0) || (is_up (e.sent_link 1) || is_up (e.sent_link 2)) ≡ true
    pub patient : IsPatient e

  -- The table that the verdict asks for.
  abbrev pub verdict_table : Result ℤ → Table → Table
  verdict_table (ok ts) t = sent_table e.db_now m.id ts t
  verdict_table (err x) t = failed_table x t

  fail_connected :
      (x : Err) (w : World) → e.fail_link ≡ up → (fail c e m x w).table ≡ failed_table x w.table
  fail_connected x w h =
      fail_table_eq x w ∙ ap (λ l. (write l w.table (ok (tt {0}), failed_table x w.table)).1) h

  ok_of : (r : Result (Unit {0})) → is_ok r ≡ true → r ≡ ok tt
  ok_of (ok u) h = refl
  ok_of (err x) h = ground arith

  settle_connected :
      (r : Result ℤ) (w : World) → IsConnected → (settle c e m r w).table ≡ verdict_table r w.table
  unfolding settle
  settle_connected (err x) w k = fail_connected x _ k.can_fail
  settle_connected (ok ts) w k =
      settle_table_eq ts w
      ∙ (mark_sent-Settles e m.id ts w.table).1
          (ok_of _ (mark_sent_retries e m.id ts k.patient w.table ∙ k.can_send))

  send_connected :
      (b : Result SendParams) (w : World)
      → IsConnected
      → (send c e m b w).table ≡ verdict_table (of_build b) w.table
  unfolding send
  send_connected (err x) w k = fail_connected x w k.can_fail
  send_connected (ok p) w k =
      if_elim (λ v. (settle c e m e.reply v).table ≡ verdict_table e.reply w.table) e.accepted
        (record w { frames = p ∷ w.frames }) w (λ _. settle_connected e.reply _ k)
        (λ _. settle_connected e.reply w k)

  download_connected :
      (d : Result (List LocalPath) × Disk) (w : World)
      → IsConnected
      → (after_download c e m d w).table ≡ verdict_table (of_download d.0) w.table
  unfolding after_download
  download_connected (err x, d) w k = fail_connected x (record w { local = d }) k.can_fail
  download_connected (ok paths, d) w k =
      send_connected (build_send_params c.account m (map e.local_path paths))
        (record w { local = d }) k

  dispatch_connected :
      (w : World) → IsConnected → (dispatch c e m w).table ≡ verdict_table (verdict w) w.table
  unfolding dispatch verdict
  dispatch_connected w k = download_connected (download_of w) w k

  -- The row that a verdict asks for.
  abbrev pub Ends : Result ℤ → Row → Type 0
  Ends (ok ts) s = (s.status ≡ sent) × (s.result_id ≡ some (format_int ts))
  Ends (err x) s =
      (s.status ≡ (if is_exhausted m then permanent_failed else failed))
      × (s.last_error ≡ some (e.message_of x))
      × (s.next_attempt_at ≤ (e.clock + c.max_backoff) / 1000)

  named : (r : Row) → r.message ≡ m → has_id m.id r ≡ true
  named r h = rw (ap (λ (n : Message). n.id) h) (==_refl m.id)

  next_attempt-le : c.max_backoff < 2 ^ 53 → next_attempt c e m ≤ (e.clock + c.max_backoff) / 1000
  unfolding next_attempt
  next_attempt-le h =
      omega (arith, backoff-le-max e.float e.draw m.attempts c.base_backoff c.max_backoff h)

  failed_status :
      (r : Row) (x : Err)
      → r.message ≡ m
      → (failed_row e.db_now (e.message_of x) (next_attempt c e m) r).status
        ≡ (if is_exhausted m then permanent_failed else failed)
  unfolding failed_row
  failed_status r x h = ap (λ (n : Message). if is_exhausted n then permanent_failed else failed) h

  row_settles :
      (v : Result ℤ) (t : Table) (r : Row)
      → c.max_backoff < 2 ^ 53
      → Memᴰ r t
      → r.message ≡ m
      → (s : Row) × Memᴰ s (verdict_table v t) × (s.id ≡ m.id) × Ends v s
  row_settles (ok ts) t r h i e' = (
    sent_row e.db_now (format_int ts) r,
    update_where_hit (has_id m.id) (sent_row e.db_now (format_int ts)) t i (named r e'),
    unfold sent_row in (ap (λ (n : Message). n.id) e'),
    unfold sent_row in (refl, refl),
  )
  row_settles (err x) t r h i e' = (
    failed_row e.db_now (e.message_of x) (next_attempt c e m) r,
    update_where_hit (has_id m.id) (failed_row e.db_now (e.message_of x) (next_attempt c e m)) t i
        (named r e'),
    unfold failed_row in (ap (λ (n : Message). n.id) e'),
    (failed_status r x e', unfold failed_row in refl, unfold failed_row in next_attempt-le h),
  )

  -- While the links hold, a dispatch settles the row of its message: SENT with the timestamp that the
  -- daemon answered, or else FAILED with the cause, PERMANENT_FAILED once the attempts are used up, and
  -- due again no later than the ceiling of the backoff.
  pub dispatch_settles :
      (w : World) (r : Row)
      → IsConnected
      → c.max_backoff < 2 ^ 53
      → Memᴰ r w.table
      → r.message ≡ m
      → (s : Row) × Memᴰ s (dispatch c e m w).table × (s.id ≡ m.id) × Ends (verdict w) s
  dispatch_settles w r k h i e' =
      rw (dispatch_connected w k) (row_settles (verdict w) w.table r h i e')
