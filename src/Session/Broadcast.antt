-- ===== src/Session/Broadcast.antt =====
-- SessionManager::BroadCastActive: a packet to every session in use, of a snapshot of the map.
use iocpserver.Prelude.{
  ℕ, ◌<◌, ◌≡◌, ◌≢◌, refl, sym, ap, subst, ◌∙◌, Bool, true, false, if◌then◌else◌, List, [], ◌∷◌,
  ◌++◌, map, length,
}
use iocpserver.World.{World, set_session, SendItem, Session, OsCall, Os, update_other}
use iocpserver.Session.{send_packet, send, post_front}
use iocpserver.Session.Sending.{CanSend, pending, send_packet_lem}

module _ (os : Os) (bytes : List ℕ) where
  unfoldable pub send_each : List ℕ → World → World
  send_each [] w = w
  send_each (p ∷ ps) w = send_each ps (send_packet os w p bytes)

  unfoldable pub broadcast_active : World → World
  unfolding send_each
  broadcast_active w = send_each (map (λ e. e.1) w.manager.active) w

  abbrev pub IsFresh : ℕ → List ℕ → Type 0
  IsFresh p [] = Unit {0}
  IsFresh p (q ∷ qs) = (p ≢ q) × IsFresh p qs

  abbrev pub AreDistinct : List ℕ → Type 0
  AreDistinct [] = Unit {0}
  AreDistinct (p ∷ ps) = IsFresh p ps × AreDistinct ps

  abbrev pub AllCanSend : World → List ℕ → Type 0
  AllCanSend w [] = Unit {0}
  AllCanSend w (p ∷ ps) = CanSend (w.session p) × AllCanSend w ps

  -- `w'` is `w` with the bytes behind what each of the sessions sends.
  abbrev pub AllGot : World → World → List ℕ → Type 0
  AllGot w w' [] = Unit {0}
  AllGot w w' (p ∷ ps) =
      (CanSend (w'.session p)
        × (pending (w'.session p).send_queue ≡ pending (w.session p).send_queue ++ bytes))
      × AllGot w w' ps

  module _ (accepts : (cs : List OsCall) → os.send_posted cs ≡ true) where
    post_other :
        (w : World) (p q : ℕ) (items : List SendItem)
        → q ≢ p
        → (post_front os w p items).1.session q ≡ w.session q
    unfolding post_front
    post_other w p q [] ne =
        update_other w.session p (record (w.session p) { is_sending = false }) q ne
    post_other w p q (item ∷ rest) ne = rw (accepts w.calls)

    send_packet_other :
        (w : World) (p q : ℕ) → q ≢ p → (send_packet os w p bytes).session q ≡ w.session q
    unfolding send_packet send
    send_packet_other w p q ne = either (w.session p).is_sending
      where
        queued : Session
        queued = record (w.session p) {
          send_queue = (w.session p).send_queue ++ (record { buf = bytes; off = 0 } ∷ []);
        }

        started : Session
        started = record queued { is_sending = true }

        either :
            (b : Bool)
            → (if b
                  then set_session w p queued
                  else (post_front os
                      (set_session w p started)
                      p
                      ((set_session w p started).session p).send_queue).1).session
                q
              ≡ w.session q
        either true = update_other w.session p queued q ne
        either false =
            post_other (set_session w p started) p q
              ((set_session w p started).session p).send_queue ne
            ∙ update_other w.session p started q ne

    send_each_other :
        (ps : List ℕ) (w : World) (q : ℕ) → IsFresh q ps → (send_each ps w).session q ≡ w.session q
    unfolding send_each
    send_each_other [] w q h = refl
    send_each_other (p ∷ ps) w q h =
        send_each_other ps (send_packet os w p bytes) q h.1 ∙ send_packet_other w p q h.0

    -- What holds of sessions that two worlds agree on.
    AllCanSend-same :
        (ps : List ℕ) (w : World) (p : ℕ)
        → IsFresh p ps
        → AllCanSend w ps
        → AllCanSend (send_packet os w p bytes) ps
    AllCanSend-same [] w p h c = tt
    AllCanSend-same (q ∷ qs) w p h c = (
      subst CanSend (sym (send_packet_other w p q (λ e. h.0 (sym e)))) c.0,
      AllCanSend-same qs w p h.1 c.1,
    )

    AllGot-same :
        (ps : List ℕ) (w w' : World) (p : ℕ)
        → IsFresh p ps
        → AllGot (send_packet os w p bytes) w' ps
        → AllGot w w' ps
    AllGot-same [] w w' p h g = tt
    AllGot-same (q ∷ qs) w w' p h g = (
      (
        g.0.0,
        g.0.1
            ∙ ap (λ (s : Session). pending s.send_queue ++ bytes)
                (send_packet_other w p q (λ e. h.0 (sym e))),
      ),
      AllGot-same qs w w' p h.1 g.1,
    )

    send_each_lem :
        (ps : List ℕ) (w : World)
        → 0 < length bytes
        → AreDistinct ps
        → AllCanSend w ps
        → AllGot w (send_each ps w) ps
    unfolding send_each
    send_each_lem [] w some_bytes d c = tt
    send_each_lem (p ∷ ps) w some_bytes d c =
        let w₁ = send_packet os w p bytes in
        let (can, got, _) = send_packet_lem os w p bytes c.0 some_bytes (accepts w.calls) in
        let there = send_each_other ps w₁ p d.0 in
        (
          (subst CanSend (sym there) can, ap (λ (s : Session). pending s.send_queue) there ∙ got),
          AllGot-same ps w (send_each ps w₁) p d.0
              (send_each_lem ps w₁ some_bytes d.1 (AllCanSend-same ps w p d.0 c.1)),
        )

    -- While Winsock accepts every post, and the active sessions are distinct and have well-formed
    -- send states, a broadcast of at least one byte puts its bytes, once, behind what each of them
    -- is sending, and leaves every other session as it is.
    pub broadcast_active_lem :
        (w : World)
        → 0 < length bytes
        → AreDistinct (map (λ e. e.1) w.manager.active)
        → AllCanSend w (map (λ e. e.1) w.manager.active)
        → AllGot w (broadcast_active w) (map (λ e. e.1) w.manager.active)
          × ((q : ℕ)
              → IsFresh q (map (λ e. e.1) w.manager.active)
              → (broadcast_active w).session q ≡ w.session q)
    unfolding broadcast_active
    broadcast_active_lem w some_bytes d c = (
      send_each_lem (map (λ e. e.1) w.manager.active) w some_bytes d c,
      λ q h. send_each_other (map (λ e. e.1) w.manager.active) w q h,
    )
