-- ===== src/Receive/Loop.antt =====
-- The receive loop against the parser of Receive/Frames.
use iocpserver.Prelude.{
  ℕ, zero, suc, ◌≤◌, ◌<◌, ◌≡◌, refl, sym, ap, subst, ◌∙◌, inl, inr, some, List, [], ◌∷◌, length,
  take, drop, length-take, length-drop, arith,
}
use iocpserver.Prelude.Int.{pos}
use iocpserver.RingBuffer.{RingBuffer, advance}
use iocpserver.RingBuffer.Valid.{IsValid, stored, order}
use iocpserver.RingBuffer.Contents.{contents, length-contents}
use iocpserver.RingBuffer.Front.{advance-straight, advance-IsValid, contents-advance}
use iocpserver.World.{World, Os, Session, update_self}
use iocpserver.Packet.Header.{header_size}
use iocpserver.Dispatcher.{Handlers, dispatch}
use iocpserver.Session.{disconnect, recv}
use iocpserver.Receive.{Outcome, done, round, again, breaks, returns, loop, set_ring, dispatched}
use iocpserver.Receive.Frames.{
  Verdict, waiting, malformed, Parsed, parse, stop, cons_frame, parse_short, parse_bad, parse_wait,
  parse_frame,
}
use iocpserver.Receive.Step.{IsSize, round_short, round_bad, round_wait, round_frame}
use iocpserver.Receive.Verdicts.{ring_of, Keep, IsStraight, IsSize-cases, finish, Received}

again_lem : (w : World) → dispatched (some w) ≡ again w
unfolding dispatched
again_lem w = refl

-- A straight ring that is not empty has its positions apart.
unwrapped :
    {r : RingBuffer}
    → IsValid r
    → r.read_pos ≤ r.write_pos
    → 4 ≤ length (contents r)
    → r.read_pos < r.write_pos
unwrapped v s h = ground (arith, length-contents v)

module _ (os : Os) (hs : Handlers World) (p : ℕ) where
  module _ (fuel : ℕ) (w : World) where
    loop_breaks : round hs w p ≡ breaks w → loop os hs (suc fuel) w p ≡ done (recv os w p).1
    unfolding loop
    loop_breaks e = rw (e, loop)

    loop_returns : (w' : World) → round hs w p ≡ returns w' → loop os hs (suc fuel) w p ≡ done w'
    unfolding loop
    loop_returns w' e = rw (e, loop)

    loop-again :
        (w' : World) → round hs w p ≡ again w' → loop os hs (suc fuel) w p ≡ loop os hs fuel w' p
    unfolding loop
    loop-again w' e = rw (e, loop)

  stopped :
      (w : World) (v : Verdict) (out : Outcome)
      → IsStraight (ring_of w p)
      → out ≡ finish os hs p v w
      → Received os hs p w (stop (contents (ring_of w p)) v) out
  stopped w v out s e = record {
    last = w;
    delivered = refl;
    left_over = refl;
    ring_kept = s;
    same_write = refl;
    same_size = refl;
    ended = e;
  }

  -- One frame in front of what the rest of the loop does.
  framed :
      (w w' : World) (size : ℕ) (parsed : Parsed) (out : Outcome)
      → ring_of w' p ≡ advance (ring_of w p) (pos size)
      → size ≤ length (contents (ring_of w p))
      → dispatch hs
          (set_ring w p (advance (ring_of w p) (pos size)))
          p
          (take size (contents (ring_of w p)))
          (length (take size (contents (ring_of w p))))
        ≡ some w'
      → Received os hs p w' parsed out
      → Received os hs p w (cons_frame (take size (contents (ring_of w p))) parsed) out
  framed w w' size parsed out moved fits d r = record {
    last = r.last;
    delivered = (
      w',
      subst
          (λ n.
            dispatch hs (set_ring w p (advance (ring_of w p) (pos n))) p
              (take size (contents (ring_of w p))) (length (take size (contents (ring_of w p))))
            ≡ some w')
          (sym len) d,
      r.delivered,
    );
    left_over = r.left_over;
    ring_kept = r.ring_kept;
    same_write = r.same_write ∙ ap (λ (x : RingBuffer). x.write_pos) moved;
    same_size = r.same_size ∙ ap (λ (x : RingBuffer). x.buffer_size) moved;
    ended = r.ended;
  }
    where
      len : length (take size (contents (ring_of w p))) ≡ size
      len = omega (arith, length-take size (contents (ring_of w p)))

  module _ (w : World) (s : IsStraight (ring_of w p)) (size : ℕ)
      (fits : size ≤ length (contents (ring_of w p))) where
    within : size ≤ stored (ring_of w p)
    within = omega (arith, length-contents s.valid)

    passed-IsStraight : IsStraight (advance (ring_of w p) (pos size))
    passed-IsStraight = record {
      valid = advance-IsValid s.valid size within;
      straight = advance-straight s.valid size within s.straight;
    }

    contents-passed :
        contents (advance (ring_of w p) (pos size)) ≡ drop size (contents (ring_of w p))
    contents-passed = contents-advance s.valid size within

  -- A round that takes a frame, and what the later rounds do.
  loop_frame :
      (fuel k : ℕ) (w : World) (s : IsStraight (ring_of w p))
      → 4 ≤ length (contents (ring_of w p))
      → (good : IsSize (header_size (contents (ring_of w p))))
      → header_size (contents (ring_of w p)) ≤ length (contents (ring_of w p))
      → Keep hs p (take (header_size (contents (ring_of w p))) (contents (ring_of w p)) ∷ [])
      → ((w' : World)
          → contents (ring_of w' p)
            ≡ drop (header_size (contents (ring_of w p))) (contents (ring_of w p))
          → IsStraight (ring_of w' p)
          → Received os hs p w'
              (parse k (drop (header_size (contents (ring_of w p))) (contents (ring_of w p))))
              (loop os hs fuel w' p))
      → Received os hs p w
          (cons_frame
            (take (header_size (contents (ring_of w p))) (contents (ring_of w p)))
            (parse k (drop (header_size (contents (ring_of w p))) (contents (ring_of w p)))))
          (loop os hs (suc fuel) w p)
  loop_frame fuel k w s headed good whole keep later =
      let c = contents (ring_of w p) in
      let size = header_size c in
      let frame = take size c in
      let w₁ = set_ring w p (advance (ring_of w p) (pos size)) in
      let (w₂, d, same) = keep.0 w₁ in
      let moved : ring_of w₁ p ≡ advance (ring_of w p) (pos size) =
        ap (λ (s : Session). s.recv_buffer)
          (update_self w.session p
            (record (w.session p) { recv_buffer = advance (ring_of w p) (pos size) })) in
      let len : length frame ≡ size = omega (arith, length-take size c) in
      let readable = inl (unwrapped s.valid s.straight (omega (arith, headed))) in
      let goes_on : round hs w p ≡ again w₂ =
        round_frame hs w p s.valid headed good whole readable
        ∙ ap (λ n. dispatched (dispatch hs w₁ p frame n)) (sym len)
        ∙ ap dispatched d
        ∙ again_lem w₂ in
      subst (Received os hs p w (cons_frame frame (parse k (drop size c))))
        (sym (loop-again fuel w w₂ goes_on))
        (framed w w₂ size (parse k (drop size c)) (loop os hs fuel w₂ p) (same ∙ moved) whole d (
          later w₂ (ap contents (same ∙ moved) ∙ contents-passed w s size whole)
            (subst IsStraight (sym (same ∙ moved)) (passed-IsStraight w s size whole))))

  pub loop_parses :
      (fuel k : ℕ) (w : World)
      → IsStraight (ring_of w p)
      → Keep hs p (parse k (contents (ring_of w p))).frames
      → length (contents (ring_of w p)) < fuel
      → length (contents (ring_of w p)) ≤ k
      → Received os hs p w (parse k (contents (ring_of w p))) (loop os hs fuel w p)
  unfolding parse
  loop_parses zero k w s keep f g = absurd (omega arith)
  loop_parses (suc fuel) zero w s keep f g =
      stopped w waiting (loop os hs (suc fuel) w p) s
        (loop_breaks fuel w (round_short hs w p s.valid (omega arith)))
  loop_parses (suc fuel) (suc k) w s keep f g = elim (order (length c) 4) [
    | inl short ↦
        rw (parse_short (suc k) c short)
          (stopped w waiting _ s (loop_breaks fuel w (round_short hs w p s.valid short)))
    | inr headed ↦ elim (IsSize-cases (header_size c)) [
      | inl bad ↦ rw (parse_bad k c headed bad) (
          stopped w malformed _ s
            (loop_returns fuel w (disconnect w p) (round_bad hs w p s.valid headed bad)))
      | inr good ↦ elim (order (length c) (header_size c)) [
        | inl partial ↦ rw (parse_wait k c headed good.not_short good.not_long partial) (
            stopped w waiting _ s
              (loop_breaks fuel w (round_wait hs w p s.valid headed good partial)))
        | inr whole ↦ rw (parse_frame k c headed good.not_short good.not_long whole) (
            let kept =
              subst (λ q. Keep hs p q.frames)
                (parse_frame k c headed good.not_short good.not_long whole) keep in
            loop_frame fuel k w s headed good whole (kept.0, tt)
              (λ w' e st.
                subst (λ d. Received os hs p w' (parse k d) (loop os hs fuel w' p)) e
                  (loop_parses fuel k w' st
                    (subst (λ d. Keep hs p (parse k d).frames) (sym e) kept.1)
                    (omega (arith, ap length e, length-drop (header_size c) c, good.not_short))
                    (omega (arith, ap length e, length-drop (header_size c) c, good.not_short)))))
      ]
    ]
  ]
    where
      c : List ℕ
      c = contents (ring_of w p)
