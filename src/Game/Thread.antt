-- ===== src/Game/Thread.antt =====
-- The game thread: what it makes of any jobs that are posted to it.
use iocpserver.Prelude.{
  ℕ, zero, suc, ◌≡◌, refl, sym, ap, subst, ◌∙◌, ◌>>=◌, Bool, true, false, Option, none, some, List,
  [], ◌∷◌, ◌++◌, slice, if◌then◌else◌, arith, Bool-cases, ◌==◌, inl, inr, ◌^◌, ◌-◌, drop,
}
use iocpserver.Prelude.Int.{ℤ, to_size}
use iocpserver.World.{
  World, Session, Job, DisconnectCb, post_logout, Os, OsCall, call, SendItem, set_session,
}
use iocpserver.SessionManager.{find_by_token, release, push, unregister_active}
use iocpserver.Session.{
  send_packet, send, post_front, disconnect, teardown, notify, run_callback, close_accepted,
  drop_callback,
}
use iocpserver.Packet.Structs.{sp_login}
use iocpserver.Game.Pool.{IsPool, login-IsPool, logout-IsPool}
use iocpserver.Game.Handlers.{answer_login, run_job, drain, run_loop}

close_accepted-game : (w : World) (p : ℕ) → (close_accepted w p).game ≡ w.game
unfolding close_accepted
close_accepted-game w p = ground arith

notify-game : (w : World) (cb : Option DisconnectCb) (sid : ℕ) → (notify w cb sid).game ≡ w.game
unfolding notify run_callback
notify-game w none sid = refl
notify-game w (some post_logout) sid = refl

-- A session's disconnect leaves the players to the job that it posts.
teardown-game : (w : World) (p : ℕ) → (teardown w p).game ≡ w.game
unfolding teardown release push unregister_active drop_callback
teardown-game w p = notify-game _ _ _ ∙ close_accepted-game w p

disconnect-game : (w : World) (p : ℕ) → (disconnect w p).game ≡ w.game
unfolding disconnect
disconnect-game w p = elim (Bool-cases (w.session p).disconnected) [
  | inl before ↦ rw before
  | inr first ↦ rw first (teardown-game _ p)
]

either {ℓ κ} :
    {A : Type ℓ} {B : Type κ} (f : A → B) (b : Bool) (x y : A) (z : B)
    → f x ≡ z
    → f y ≡ z
    → f (if b then x else y) ≡ z
either f true x y z e k = e
either f false x y z e k = k

-- What the other threads do keeps the pool.
abbrev pub AllKeep : List (World → World) → Type 0
AllKeep [] = Unit {0}
AllKeep (others ∷ frames) = ((w : World) → IsPool w.game → IsPool (others w).game) × AllKeep frames

module _ (os : Os) where
  post_front-game :
      (w : World) (p : ℕ) (items : List SendItem) → (post_front os w p items).1.game ≡ w.game
  unfolding post_front
  post_front-game w p [] = refl
  post_front-game w p (item ∷ rest) =
      either (λ (r : Bool × World). r.1.game) (os.send_posted w.calls) (true, posted)
        (false, disconnect posted p) w.game refl (disconnect-game posted p)
    where
      posted : World
      posted = call w (OsCall.wsa_send p (w.session p).accept_socket (drop item.off item.buf))

  send_packet-game : (w : World) (p : ℕ) (bytes : List ℕ) → (send_packet os w p bytes).game ≡ w.game
  unfolding send_packet send
  send_packet-game w p bytes =
      either (λ (v : World). v.game) (w.session p).is_sending (set_session w p queued)
        (post_front os started p (started.session p).send_queue).1 w.game refl
        (post_front-game started p (started.session p).send_queue)
    where
      queued : Session
      queued = record (w.session p) {
        send_queue = (w.session p).send_queue ++ (record { buf = bytes; off = 0 } ∷ []);
      }

      started : World
      started = set_session w p (record queued { is_sending = true })

  module _ (stale : List ℕ → Option (List ℕ))
      (readable : (packet : List ℕ) → (bytes : List ℕ) × (stale packet ≡ some bytes)) where
    answered :
        (w : World) (unique : ℤ) (packet : List ℕ) (q : Option ℕ)
        → IsPool w.game
        → (w' : World) × (answer_login os w unique (some packet) q ≡ some w') × IsPool w'.game
    unfolding answer_login
    answered w unique packet none h = (w, refl, h)
    answered w unique packet (some p) h =
        let (w₁, e, h₁) = login-IsPool w p unique (slice packet 4 300) h in
        let reply =
          sp_login (if to_size unique == 0 then 2 ^ 32 - 1 else 0) (to_size unique)
            (slice packet 4 300) (slice packet 304 300) in
        (send_packet os w₁ p reply, rw e, subst IsPool (sym (send_packet-game w₁ p reply)) h₁)

    pub run_job-IsPool :
        (w : World) (job : Job)
        → IsPool w.game
        → (w' : World) × (run_job os stale job w ≡ some w') × IsPool w'.game
    unfolding run_job
    run_job-IsPool w (Job.logout sid) h = (_, refl, logout-IsPool sid w.game h)
    run_job-IsPool w (Job.login sid unique packet) h =
        let (bytes, e) = readable packet in
        let (w', ran, h') = answered w unique bytes (find_by_token w sid) h in
        (w', ap (λ m. answer_login os w unique m (find_by_token w sid)) e ∙ ran, h')

    -- While every player object is free or in use, once, and what is read in the place of a packet
    -- is defined, the game thread takes any jobs that are in its queue without undefined
    -- behaviour, and afterwards every player object is again free or in use, once.
    pub drain-IsPool :
        (n : ℕ) (w : World)
        → IsPool w.game
        → (w' : World) × (drain os stale n w ≡ some w') × IsPool w'.game
    drain-IsPool zero w h = (w, (unfold drain in refl), h)
    drain-IsPool (suc n) w h = drained (λ v k. drain-IsPool n v k) w.jobs refl
      where
        drained :
            ((v : World)
              → IsPool v.game
              → (w' : World) × (drain os stale n v ≡ some w') × IsPool w'.game)
            → (js : List Job) → w.jobs ≡ js
            → (w' : World) × (drain os stale (suc n) w ≡ some w') × IsPool w'.game
        drained later [] e = (w, (unfold drain in rw e), h)
        drained later (job ∷ jobs) e =
            let (w₁, ran, h₁) =
              run_job-IsPool (record w { jobs = jobs }) job (record { once = h.once }) in
            let (w₂, rest, h₂) = later w₁ h₁ in (w₂, (unfold drain in rw (e, ran) rest), h₂)

    -- The game thread's loop over any number of frames, between which the other threads do anything
    -- that leaves each player object free or in use once, and while the reads through the pointers
    -- into packets that have gone are defined and give any bytes: it meets no other undefined
    -- behaviour, ends, and every player object is again free or in use, once.
    pub run_loop-IsPool :
        (frames : List (World → World)) (w : World)
        → AllKeep frames
        → IsPool w.game
        → (w' : World) × (run_loop os stale frames w ≡ some w') × IsPool w'.game
    unfolding run_loop
    run_loop-IsPool [] w k h = drain-IsPool 100000 w h
    run_loop-IsPool (others ∷ frames) w (keep, k) h =
        let (w₁, ran, h₁) = drain-IsPool 2000 w h in
        let (w₂, rest, h₂) = run_loop-IsPool frames (others w₁) k (keep w₁ h₁) in
        (w₂, ap (λ o. o >>= (λ x. run_loop os stale frames (others x))) ran ∙ rest, h₂)
