-- ===== src/Worker/Reports.antt =====
-- What a dispatch of internal/worker/worker.go lets the outside see: the frames that the daemon
-- accepted, the posts to Slack and the counters of terminal rows.
use go_signalium.Base.{◌≡◌, refl, ◌&&◌, arith, List, map, ◌∷◌, if◌then◌else◌, if_elim}
use go_signalium.Base.Int.{ℤ}
use go_signalium.Domain.{Message, Err, Result, ok, err}
use go_signalium.Repo.{is_exhausted}
use go_signalium.Repo.Messages.{up}
use go_signalium.Repo.Messages
use go_signalium.Service.Slack.{Post, permanent_failure, notify_permanent_failure, is_enabled}
use go_signalium.Signal.Params.{SendParams, build_send_params}
use go_signalium.Storage.Download.{LocalPath, Disk}
use go_signalium.Worker.{
  Config, Env, World, report_failure, fail, settle, send, after_download, dispatch,
}
use go_signalium.Worker.Loop.{is_up}
use go_signalium.Worker.Dispatch.{verdict, of_build, of_download, download_of}

module _ (c : Config) (e : Env) (m : Message) where
  -- The Slack posts that a failure adds.
  abbrev alerts : List Post → List Post
  alerts posts =
      if is_up e.fail_link
        && (is_exhausted m && (is_enabled c.slack && c.slack.on_permanent_failure))
      then permanent_failure m.id ∷ posts
      else posts

  fail-posts : (x : Err) (w : World) → (fail c e m x w).posts ≡ alerts w.posts
  unfolding fail report_failure Messages.mark_failed notify_permanent_failure
  fail-posts x w = ground arith

  fail-frames : (x : Err) (w : World) → (fail c e m x w).frames ≡ w.frames
  unfolding fail report_failure Messages.mark_failed
  fail-frames x w = ground arith

  -- What a verdict adds to the posts.
  abbrev pub verdict_posts : Result ℤ → List Post → List Post
  verdict_posts (ok ts) posts = posts
  verdict_posts (err x) posts = alerts posts

  settle-posts : (r : Result ℤ) (w : World) → (settle c e m r w).posts ≡ verdict_posts r w.posts
  unfolding settle
  settle-posts (err x) w = fail-posts x _
  settle-posts (ok ts) w = ground arith

  settle-frames : (r : Result ℤ) (w : World) → (settle c e m r w).frames ≡ w.frames
  unfolding settle
  settle-frames (err x) w = fail-frames x _
  settle-frames (ok ts) w = ground arith

  send-posts :
      (b : Result SendParams) (w : World)
      → (send c e m b w).posts ≡ verdict_posts (of_build c e m b) w.posts
  unfolding send
  send-posts (err x) w = fail-posts x w
  send-posts (ok p) w =
      if_elim (λ v. (settle c e m e.reply v).posts ≡ verdict_posts e.reply w.posts) e.accepted
        (record w { frames = p ∷ w.frames }) w (λ _. settle-posts e.reply _)
        (λ _. settle-posts e.reply w)

  download-posts :
      (d : Result (List LocalPath) × Disk) (w : World)
      → (after_download c e m d w).posts ≡ verdict_posts (of_download c e m d.0) w.posts
  unfolding after_download
  download-posts (err x, d) w = fail-posts x (record w { local = d })
  download-posts (ok paths, d) w =
      send-posts (build_send_params c.account m (map e.local_path paths)) (record w { local = d })

  -- A dispatch posts to Slack once, for its own message, exactly if the send failed, the failure was
  -- recorded, the attempts are used up and the notifier is configured for it; else it posts nothing.
  posts-dispatch : (w : World) → (dispatch c e m w).posts ≡ verdict_posts (verdict c e m w) w.posts
  unfolding dispatch verdict
  posts-dispatch w = download-posts (download_of c e m w) w

  -- The daemon accepted nothing new, or the request that was built from the message and its files.
  pub data Accepts (w : World) (new : List SendParams) : Type 0 where
    nothing : new ≡ w.frames → Accepts w new
    one :
        (paths : List LocalPath) (p : SendParams)
        → (download_of c e m w).0 ≡ ok paths
        → build_send_params c.account m (map e.local_path paths) ≡ ok p
        → new ≡ p ∷ w.frames
        → Accepts w new

  send-Accepts :
      (paths : List LocalPath) (d : Disk) (b : Result SendParams) (w : World)
      → (download_of c e m w).0 ≡ ok paths
      → build_send_params c.account m (map e.local_path paths) ≡ b
      → Accepts w (send c e m b (record w { local = d })).frames
  unfolding send
  send-Accepts paths d (err x) w hd hb = nothing (fail-frames x _)
  send-Accepts paths d (ok p) w hd hb =
      if_elim (λ v. Accepts w (settle c e m e.reply v).frames) e.accepted
        (record w { local = d; frames = p ∷ w.frames }) (record w { local = d })
        (λ _. one paths p hd hb (settle-frames e.reply _)) (λ _. nothing (settle-frames e.reply _))

  download-Accepts :
      (d : Result (List LocalPath) × Disk) (w : World)
      → (download_of c e m w).0 ≡ d.0
      → Accepts w (after_download c e m d w).frames
  unfolding after_download
  download-Accepts (err x, d) w h = nothing (fail-frames x _)
  download-Accepts (ok paths, d) w h =
      send-Accepts paths d (build_send_params c.account m (map e.local_path paths)) w h refl

  -- A dispatch makes the daemon accept at most one frame, and that is the request built from the
  -- message of the dispatch and the files that were fetched for it.
  pub dispatch-Accepts : (w : World) → Accepts w (dispatch c e m w).frames
  unfolding dispatch
  dispatch-Accepts w = download-Accepts (download_of c e m w) w refl
