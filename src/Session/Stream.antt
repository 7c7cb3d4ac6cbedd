-- ===== src/Session/Stream.antt =====
-- A session's sends and completions in any order: what leaves is what was given, in order.
use iocpserver.Prelude.{
  ℕ, ◌+◌, ◌≤◌, ◌<◌, ◌≡◌, refl, sym, ap, ◌∙◌, true, List, [], ◌∷◌, ◌++◌, append-nil, append_assoc,
  arith, length, drop, drop-drop, drop-append_le, length-append, length-drop,
}
use iocpserver.World.{World, Os, SendItem}
use iocpserver.Session.{send_packet, on_send_completed}
use iocpserver.Session.Sending.{CanSend, remaining, pending, send_packet_lem, on_send_completed_lem}

-- A call of `SendPacket`, or a completion of so many bytes.
pub data Event : Type 0 where
  sends : List ℕ → Event
  completes : ℕ → Event

-- No more bytes complete than the posted front item holds.
abbrev pub Fits : List SendItem → ℕ → Type 0
Fits [] n = ⊥
Fits (item ∷ rest) n = n ≤ length (remaining item)

module _ (os : Os) (p : ℕ) where
  unfoldable pub step : World → Event → World
  step w (sends bytes) = send_packet os w p bytes
  step w (completes n) = on_send_completed os w p n

  unfoldable pub run : World → List Event → World
  unfolding step
  run w [] = w
  run w (e ∷ es) = run (step w e) es

  -- What Winsock and the callers keep to: packets are not empty, a completion answers the
  -- outstanding post, and posts are accepted.
  abbrev pub IsPossible : World → Event → Type 0
  IsPossible w (sends bytes) = (0 < length bytes) × (os.send_posted w.calls ≡ true)
  IsPossible w (completes n) =
      (0 < n)
      × ((w.session p).is_sending ≡ true)
      × Fits (w.session p).send_queue n
      × (os.send_posted w.calls ≡ true)

  abbrev pub ArePossible : World → List Event → Type 0
  ArePossible w [] = Unit {0}
  ArePossible w (e ∷ es) = IsPossible w e × ArePossible (step w e) es

-- The bytes given, and the number of those reported as sent.
abbrev pub given : List Event → List ℕ
given [] = []
given (sends bytes ∷ es) = bytes ++ given es
given (completes n ∷ es) = given es

abbrev pub acked : List Event → ℕ
acked [] = 0
acked (sends bytes ∷ es) = acked es
acked (completes n ∷ es) = n + acked es

Fits-front :
    (q : List SendItem) (n : ℕ)
    → Fits q n
    → (item : SendItem) × (rest : List SendItem) × (q ≡ item ∷ rest) × (n ≤ length (remaining item))
Fits-front [] n h = absurd h
Fits-front (item ∷ rest) n h = (item, rest, refl, h)

Fits-pending : (q : List SendItem) (n : ℕ) → Fits q n → n ≤ length (pending q)
Fits-pending [] n h = absurd h
Fits-pending (item ∷ rest) n h = omega (arith, length-append (remaining item) (pending rest))

-- From a session whose send state is well formed, after any sequence of sends and completions that
-- Winsock's rules allow, the send state is well formed, and what is still to be sent is all that
-- was given, in order, less the bytes reported as sent.
pub run_lem :
    (os : Os) (p : ℕ) (w : World) (es : List Event)
    → CanSend (w.session p)
    → ArePossible os p w es
    → let all = pending (w.session p).send_queue ++ given es in
      CanSend ((run os p w es).session p)
      × (acked es ≤ length all)
      × (pending ((run os p w es).session p).send_queue ≡ drop (acked es) all)
unfolding run
run_lem os p w [] c h = (c, omega arith, sym (append-nil (pending (w.session p).send_queue)))
run_lem os p w (sends bytes ∷ es) c (h, hs) =
    let (c', e, _) = send_packet_lem os w p bytes c h.0 h.1 in
    let (c'', b, e') = run_lem os p (send_packet os w p bytes) es c' hs in
    let same =
      ap (λ xs. xs ++ given es) e
      ∙ append_assoc (pending (w.session p).send_queue) bytes (given es) in
    (c'', omega (arith, ap length same), e' ∙ ap (drop (acked es)) same)
run_lem os p w (completes n ∷ es) c (h, hs) =
    let q = (w.session p).send_queue in
    let (item, rest, eq, within) = Fits-front q n h.2 in
    let (c', e, _) = on_send_completed_lem os w p n h.0 item rest c eq h.1 within h.3 in
    let (c'', b, e') = run_lem os p (on_send_completed os w p n) es c' hs in
    let same =
      ap (λ xs. xs ++ given es) e
      ∙ sym (drop-append_le n (pending q) (given es) (Fits-pending q n h.2)) in
    (
      c'',
      omega (
        arith,
        ap length same,
        length-drop n (pending q ++ given es),
        length-append (pending q) (given es),
        Fits-pending q n h.2,
      ),
      e'
          ∙ ap (drop (acked es)) same
          ∙ drop-drop n (acked es) (n + acked es) (pending q ++ given es) refl,
    )
