-- ===== src/Server/Settled.antt =====
-- A tick of a worker that finds one row to claim.
use go_signalium.Base.{
  ℕ, ◌^◌, ◌<◌, ◌≡◌, refl, ap, ◌∙◌, true, false, ◌||◌, List, [], some, ◌∷◌, inl, inr, arith, Memᴰ,
  ==_refl,
}
use go_signalium.Base.Text.{Text, is_set}
use go_signalium.Domain.{Message, ok}
use go_signalium.Repo.{Row, Table, has_id, claim_row, update_where}
use go_signalium.Repo.Claim.{is_available, claim_pending_lem}
use go_signalium.Repo.Updates.{update_where_hit}
use go_signalium.Repo.Messages.{up, ts_tz, interval_from_duration, write, one, Link}
use go_signalium.Repo.Messages
use go_signalium.Worker.{Config, Env, World, to_refs, tick}
use go_signalium.Worker.Drain.{claimed, counted, tick_ok}
use go_signalium.Worker.Dispatch.{
  IsConnected, Ends, verdict, of_build, of_download, dispatch_settles,
}
use go_signalium.Signal.Params.{build_send_params, with_target, with_quote}
use go_signalium.Storage.{ObjectRef}
use go_signalium.Storage.Download.{download_all, Disk}

module _ (c : Config) (e : Env) where
  abbrev pub claimed_row : Row → Row
  claimed_row r = claim_row e.db_now (interval_from_duration c.lease_duration) r

  abbrev pub IsClaimed : Table → Row → Type 0
  IsClaimed t r =
      Messages.claim_pending e.claim_link e.db_now c.lease_duration e.locked t
      ≡ (ok (claimed_row r).message, update_where (has_id r.id) (claimed_row) t)

  -- A claim takes the only row that is to be had.
  pub claims_only :
      (t : Table) (r : Row)
      → e.claim_link ≡ up
      → is_available e.db_now e.locked r ≡ true
      → ((q : Row) → Memᴰ q (r ∷ t) → is_available e.db_now e.locked q ≡ true → q ≡ r)
      → IsClaimed (r ∷ t) r
  unfolding Messages.claim_pending
  claims_only t r l av only =
      elim (claim_pending_lem e.db_now (interval_from_duration c.lease_duration) e.locked (r ∷ t)) [
        | inl n ↦ absurd (ground (arith, n.all_taken r (Memᴰ.head refl)))
        | inr (q, k) ↦
            let same : q ≡ r = only q k.stands (ground (arith, k.eligible, k.unlocked)) in
            rw l (rw k.returned (rw k.written (rw same refl)))
      ]

  -- What a tick on the table leaves of the row: it is settled by the verdict on its message.
  pub record Settled (w : World) (id : ℕ) (content : Text) (n : Message) (s : Row) : Type 0 where
    pub about : (n.id ≡ id) × (n.content ≡ content)
    pub stands : Memᴰ s (tick c e w).1.table
    pub names : s.id ≡ id
    pub ends : Ends c e n (verdict c e n (counted c e w)) s

  pub tick_settles :
      (w : World) (t : Table) (r : Row)
      → w.table ≡ r ∷ t
      → IsClaimed (r ∷ t) r
      → IsConnected c e (claimed_row r).message
      → c.max_backoff < 2 ^ 53
      → (s : Row) × Settled w r.id r.content (claimed_row r).message s
  tick_settles w t r h k con b =
      let claim : claimed c e w
          ≡ (ok (claimed_row r).message, update_where (has_id r.id) claimed_row (r ∷ t)) =
        ap (λ x. Messages.claim_pending e.claim_link e.db_now c.lease_duration e.locked x) h ∙ k in
      let there : Memᴰ (claimed_row r) (claimed c e w).1 =
        rw claim
          (update_where_hit (has_id r.id) claimed_row (r ∷ t) (Memᴰ.head refl) (==_refl r.id)) in
      let (s, i, names, ends) =
        dispatch_settles c e (claimed_row r).message (counted c e w) (claimed_row r) con b there
          refl in
      (
        s,
        record {
          about = unfold claim_row in (refl, refl);
          stands = rw (tick_ok c e w (claimed_row r).message (ap (λ x. x.0) claim)) i;
          names = names ∙ unfold claim_row in refl;
          ends = ends;
        },
      )

-- A message with a target, no quote and no attachment asks for nothing but the daemon's answer.
build_text :
    (c : Config) (e : Env) (n : Message)
    → is_set (some c.account) ≡ true
    → is_set (some n.content) ≡ true
    → (is_set n.recipient || is_set n.group_id) ≡ true
    → is_set n.quote_result_id ≡ false
    → of_build c e n (build_send_params c.account n []) ≡ e.reply
unfolding build_send_params with_target with_quote
build_text c e n a b h q = ground arith

of_no_refs :
    (c : Config) (e : Env) (n : Message) (refs : List ObjectRef) (d : Disk)
    → refs ≡ []
    → of_build c e n (build_send_params c.account n []) ≡ e.reply
    → of_download c e n (download_all e.disk (e.directory n.id) refs d).0 ≡ e.reply
unfolding download_all
of_no_refs c e n refs d h b =
    ap (λ x. of_download c e n (download_all e.disk (e.directory n.id) x d).0) h ∙ b

pub verdict-text :
    (c : Config) (e : Env) (n : Message) (w : World)
    → n.attachments ≡ []
    → is_set (some c.account) ≡ true
    → is_set (some n.content) ≡ true
    → (is_set n.recipient || is_set n.group_id) ≡ true
    → is_set n.quote_result_id ≡ false
    → verdict c e n w ≡ e.reply
unfolding verdict
verdict-text c e n w h a b t q =
    of_no_refs c e n (to_refs n.attachments) w.local (ap to_refs h) (build_text c e n a b t q)
