-- ===== src/Session/Reuse.antt =====
-- A session that was sending when it was disconnected, when the pool hands it out again.
use iocpserver.Prelude.{ℕ, ◌≡◌, refl, ap, ◌∙◌, true, false, some, List, [], ◌∷◌, ◌++◌, ==_refl}
use iocpserver.World.{World, Session, SessionType, Os}
use iocpserver.SessionManager.{stack, get_empty_session, register_active}
use iocpserver.Session.{disconnect, on_accepted, send_packet}
use iocpserver.Session.Lifecycle.{disconnect-Torn}

taken :
    (w : World) (type : SessionType) (p : ℕ) (rest : List ℕ)
    → w.manager.pool type ≡ some (p ∷ rest)
    → (get_empty_session w type ≡ (some p, (get_empty_session w type).1))
      × ((get_empty_session w type).1.session p ≡ w.session p)
unfolding get_empty_session
taken w type p rest e = rw e (refl, refl)

accepted_keeps :
    (w : World) (p : ℕ)
    → (((on_accepted w p).session p).is_sending ≡ (w.session p).is_sending)
      × (((on_accepted w p).session p).send_queue ≡ (w.session p).send_queue)
unfolding on_accepted register_active
accepted_keeps w p = rw (==_refl p) (refl, refl)

-- A session that sends only queues.
queued :
    (os : Os) (w : World) (p : ℕ) (bytes : List ℕ)
    → (w.session p).is_sending ≡ true
    → ((send_packet os w p bytes).calls ≡ w.calls)
      × (((send_packet os w p bytes).session p).send_queue
          ≡ (w.session p).send_queue ++ (record { buf = bytes; off = 0 } ∷ []))
unfolding send_packet
queued os w p bytes e = rw (e, ==_refl p) (refl, refl)

-- When a connected session is disconnected while it sends, it is the next that its pool hands out;
-- once it is accepted again, its first packet is not posted to Winsock, and stands in the queue
-- behind all that the earlier connection had not sent.
pub reuse_stuck :
    (os : Os) (w : World) (p : ℕ) (bytes : List ℕ)
    → (w.session p).disconnected ≡ false
    → (w.session p).is_sending ≡ true
    → let (q, w₁) = get_empty_session (disconnect w p) (w.session p).session_type in
      let w₂ = on_accepted w₁ p in
      let w₃ = send_packet os w₂ p bytes in
      (q ≡ some p)
      × (w₃.calls ≡ w₂.calls)
      × ((w₃.session p).send_queue
          ≡ (w.session p).send_queue ++ (record { buf = bytes; off = 0 } ∷ []))
reuse_stuck os w p bytes live sending =
    let d = disconnect-Torn w p live in
    let (q, same) =
      taken (disconnect w p) (w.session p).session_type p
        (stack (w.manager.pool (w.session p).session_type)) d.pooled in
    let w₁ = (get_empty_session (disconnect w p) (w.session p).session_type).1 in
    let kept = accepted_keeps w₁ p in
    let left = same ∙ d.session in
    let sends =
      queued os (on_accepted w₁ p) p bytes
        (kept.0 ∙ ap (λ (s : Session). s.is_sending) left ∙ sending) in
    (
      ap (λ r. r.0) q,
      sends.0,
      sends.1
          ∙ ap (λ xs. xs ++ (record { buf = bytes; off = 0 } ∷ []))
              (kept.1 ∙ ap (λ (s : Session). s.send_queue) left),
    )
