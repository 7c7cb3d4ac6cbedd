-- ===== src/Receive/Step.antt =====
-- One round of the packet loop, by what the session's ring holds.
use iocpserver.Prelude.{
  ℕ, ◌≤◌, ◌<◌, ◌≡◌, refl, ap, Bool-cases, ◌⊎◌, inl, inr, ◌∙◌, some, true, List, length, take, arith,
  lt→ltb, le→ltb, ltb,
}
use iocpserver.Prelude.Int.{pos, pos_lt, pos_ge}
use iocpserver.RingBuffer.{RingBuffer, get_stored_size, peek, read, advance}
use iocpserver.RingBuffer.Valid.{IsValid, stored, get_stored_size_lem}
use iocpserver.RingBuffer.Contents.{contents, length-contents}
use iocpserver.RingBuffer.Read.{IsReadable, read_lem, read_overrun, peek_lem}
use iocpserver.World.{World}
use iocpserver.Packet.Header.{header_size, header_size-take}
use iocpserver.Dispatcher.{Handlers, dispatch}
use iocpserver.Session.{disconnect}
use iocpserver.Receive.{
  breaks, returns, crash, round, set_ring, dispatched, after_peek, after_size, after_read,
}
use iocpserver.Receive.Frames.{limit}

-- The sizes that the loop accepts.
pub record IsSize (size : ℕ) : Type 0 where
  pub not_short : 4 ≤ size
  pub not_long : size ≤ limit

module _ (hs : Handlers World) (w : World) (p : ℕ) where
  abbrev ring : RingBuffer
  ring = (w.session p).recv_buffer

  abbrev bytes : List ℕ
  bytes = contents (w.session p).recv_buffer

  module _ (v : IsValid (w.session p).recv_buffer) where
    holds : get_stored_size ring ≡ pos (length bytes)
    holds = get_stored_size_lem v ∙ rw (length-contents v)

    enough : (n : ℕ) → n ≤ length bytes → n ≤ stored ring
    enough n h = omega (arith, length-contents v)

    -- Fewer bytes than a header: the loop ends.
    pub round_short : length bytes < 4 → round hs w p ≡ breaks w
    unfolding round
    round_short h = rw (holds, pos_lt (length bytes) 4 h)

    round_headed : 4 ≤ length bytes → round hs w p ≡ after_size hs w p (header_size bytes)
    round_headed h =
        begins
        ∙ ap (after_peek hs w p) (peek_lem v 4 (omega arith) (enough 4 h))
        ∙ peeked
        ∙ ap (after_size hs w p) (header_size-take bytes)
      where
        begins : round hs w p ≡ after_peek hs w p (peek ring (pos 4))
        begins = unfold round in rw (holds, pos_ge (length bytes) 4 h)

        peeked :
            after_peek hs w p (some (true, take 4 bytes))
            ≡ after_size hs w p (header_size (take 4 bytes))
        peeked = unfold after_peek in refl

    -- A size that is no size: the session is disconnected.
    pub round_bad :
        4 ≤ length bytes
        → (header_size bytes < 4) ⊎ (limit < header_size bytes)
        → round hs w p ≡ returns (disconnect w p)
    round_bad h bad = round_headed h ∙ refused bad
      where
        refused :
            (header_size bytes < 4) ⊎ (limit < header_size bytes)
            → after_size hs w p (header_size bytes) ≡ returns (disconnect w p)
        refused (inl short) = unfold after_size in rw (lt→ltb (header_size bytes) 4 short)
        refused (inr long) =
            unfold after_size in
            elim (Bool-cases (ltb (header_size bytes) 4)) [
              | inl short ↦ rw short
              | inr other ↦ rw (other, lt→ltb limit (header_size bytes) long)
            ]

    module _ (h : 4 ≤ length bytes) (s : IsSize (header_size bytes)) where
      -- A packet that is not complete: the loop ends.
      pub round_wait : length bytes < header_size bytes → round hs w p ≡ breaks w
      round_wait k = round_headed h ∙ waits
        where
          waits : after_size hs w p (header_size bytes) ≡ breaks w
          waits =
              unfold after_size in
              rw (
                le→ltb (header_size bytes) 4 s.not_short,
                le→ltb limit (header_size bytes) s.not_long,
                holds,
                pos_lt (length bytes) (header_size bytes) k,
              )

      module _ (k : header_size bytes ≤ length bytes) where
        complete :
            round hs w p
            ≡ after_read hs w p (header_size bytes) (read ring (pos (header_size bytes)))
        complete = round_headed h ∙ reads
          where
            reads :
                after_size hs w p (header_size bytes)
                ≡ after_read hs w p (header_size bytes) (read ring (pos (header_size bytes)))
            reads =
                unfold after_size in
                rw (
                  le→ltb (header_size bytes) 4 s.not_short,
                  le→ltb limit (header_size bytes) s.not_long,
                  holds,
                  pos_ge (length bytes) (header_size bytes) k,
                )

        -- A complete packet that `Read` can take is dispatched with the ring moved past it.
        pub round_frame :
            IsReadable ring (header_size bytes)
            → round hs w p
              ≡ dispatched (
                  dispatch hs
                    (set_ring w p (advance ring (pos (header_size bytes))))
                    p
                    (take (header_size bytes) bytes)
                    (header_size bytes))
        unfolding after_read
        round_frame readable =
            complete
            ∙ ap (after_read hs w p (header_size bytes))
                (read_lem v (header_size bytes) (omega (arith, s.not_short))
                  (enough (header_size bytes) k) readable).0

        -- One that it cannot take crashes the server.
        pub round_crash : ¬ IsReadable ring (header_size bytes) → round hs w p ≡ crash
        unfolding after_read
        round_crash blocked =
            complete
            ∙ ap (after_read hs w p (header_size bytes)) (
                read_overrun v (header_size bytes) (omega (arith, s.not_short))
                  (enough (header_size bytes) k) blocked)
