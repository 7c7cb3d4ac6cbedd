-- ===== src/Receive/Completed.antt =====
-- A completed receive, from the bytes that arrive to the packets that the handlers are given.
use iocpserver.Prelude.{
  ℕ, Bool, length-take, ◌+◌, ◌^◌, ◌≤◌, ◌<◌, ◌≡◌, refl, sym, ap, subst, ◌∙◌, inr, some, true, false,
  List, ◌++◌, length, take, arith, ==_ne, length-append,
}
use iocpserver.Prelude.Int.{pos, to_int32_small}
use iocpserver.RingBuffer.{RingBuffer, write}
use iocpserver.RingBuffer.Valid.{stored}
use iocpserver.RingBuffer.Contents.{contents, length-contents}
use iocpserver.RingBuffer.Write.{Wrote, write_refused, write_lem}
use iocpserver.World.{World, Os, Session, SessionClass, update_self}
use iocpserver.Dispatcher.{Handlers}
use iocpserver.Receive.{
  set_ring, loop, after_write, on_recv_completed, client_on_recv_completed,
  server_on_recv_completed,
}
use iocpserver.Receive.Frames.{frames_of, parse}
use iocpserver.Receive.Loop.{loop_parses}
use iocpserver.Receive.Verdicts.{ring_of, Keep, IsStraight, Received}

-- A write that does not reach the end of a straight ring moves the write position by its bytes.
pub IsStraight-write :
    (r r' : RingBuffer) (bytes : List ℕ)
    → IsStraight r
    → Wrote r bytes r'
    → r.write_pos + length bytes < r.buffer_size
    → IsStraight r' × (r'.write_pos ≡ r.write_pos + length bytes)
IsStraight-write r r' bytes s wrote inside = (
  record { valid = wrote.valid; straight = later },
  ground (
    arith,
    s.straight,
    later,
    length-contents wrote.valid,
    length-contents s.valid,
    total,
    wrote.same_read,
    wrote.same_size,
  ),
)
  where
    total : length (contents r') ≡ length (contents r) + length bytes
    total = ap length wrote.appended ∙ length-append (contents r) bytes

    later : r'.read_pos ≤ r'.write_pos
    later = ground (
      arith,
      s.straight,
      length-contents wrote.valid,
      length-contents s.valid,
      total,
      wrote.same_read,
      wrote.same_size,
    )

module _ (os : Os) (hs : Handlers World) (fuel : ℕ) (w : World) (p : ℕ) (buf : List ℕ) where
  -- Both session classes do the same.
  pub completed_cases :
      (n : ℕ)
      → 0 < n
      → n < 2 ^ 31
      → on_recv_completed os hs fuel w p buf n
        ≡ after_write os hs fuel w p (write (ring_of w p) buf (pos n))
  unfolding on_recv_completed
  completed_cases n some_bytes small = cases (w.session p).dynamic_type
    where
      client :
          client_on_recv_completed os hs fuel w p buf n
          ≡ after_write os hs fuel w p (write (ring_of w p) buf (pos n))
      client =
          unfold client_on_recv_completed in rw (==_ne n 0 (omega arith), to_int32_small n small)

      server :
          server_on_recv_completed os hs fuel w p buf n
          ≡ after_write os hs fuel w p (write (ring_of w p) buf (pos n))
      server =
          unfold server_on_recv_completed in rw (==_ne n 0 (omega arith), to_int32_small n small)

      cases :
          (c : SessionClass)
          → (elim c [
            | SessionClass.client_session ↦ client_on_recv_completed os hs fuel w p buf n
            | SessionClass.server_session ↦ server_on_recv_completed os hs fuel w p buf n
          ])
            ≡ after_write os hs fuel w p (write (ring_of w p) buf (pos n))
      cases SessionClass.client_session = client
      cases SessionClass.server_session = server

  -- What `after_write` does with a ring that holds `bytes`.
  after_parses :
      (b : Bool) (r : RingBuffer) (bytes : List ℕ)
      → Keep hs p (frames_of bytes).frames
      → IsStraight r
      → contents r ≡ bytes
      → length bytes < fuel
      → Received os hs p
          (set_ring w p r)
          (frames_of bytes)
          (after_write os hs fuel w p (some (b, r)))
  unfolding after_write frames_of
  after_parses b r bytes keep s holds enough =
      subst
        (λ xs.
          Received os hs p (set_ring w p r) (parse (length xs) xs)
            (loop os hs fuel (set_ring w p r) p))
        (ap contents there ∙ holds)
        (loop_parses os hs p fuel (length (contents (ring_of (set_ring w p r) p))) (set_ring w p r)
          (subst IsStraight (sym there) s)
          (subst (λ xs. Keep hs p (parse (length xs) xs).frames) (sym (ap contents there ∙ holds))
            keep)
          (omega (arith, ap length (ap contents there ∙ holds))) (omega arith))
    where
      there : ring_of (set_ring w p r) p ≡ r
      there =
          ap (λ (s : Session). s.recv_buffer)
            (update_self w.session p (record (w.session p) { recv_buffer = r }))

  module _ (straight : IsStraight (ring_of w p)) (n : ℕ) (some_bytes : 0 < n) where
    -- Of `n` bytes, at least one, that do not reach the end of a straight ring, while the handlers
    -- return on the frames that the parser finds and leave the ring alone: the bytes stand behind
    -- those held, the handlers are called with exactly the frames that the parser finds, in order,
    -- the ring keeps the rest, and a receive is posted or the session disconnected as the parser's
    -- verdict says. Fuel above the number of bytes is enough.
    pub on_recv_completed-Received :
        Keep hs p (frames_of (contents (ring_of w p) ++ take n buf)).frames
        → n ≤ length buf
        → (ring_of w p).write_pos + n < (ring_of w p).buffer_size
        → length (contents (ring_of w p)) + n < fuel
        → (r : RingBuffer) × Wrote (ring_of w p) (take n buf) r
          × Received os hs p
              (set_ring w p r)
              (frames_of (contents (ring_of w p) ++ take n buf))
              (on_recv_completed os hs fuel w p buf n)
    on_recv_completed-Received keep there inside enough =
        let (r, e, wrote) = write_lem straight.valid buf n some_bytes fits there in
        (
          r,
          wrote,
          subst
              (Received os hs p (set_ring w p r) (frames_of (contents (ring_of w p) ++ take n buf)))
              (sym (completed_cases n some_bytes small ∙ ap (after_write os hs fuel w p) e))
              (after_parses true r _ keep (still wrote) wrote.appended (omega (arith, total))),
        )
      where
        small : n < 2 ^ 31
        small = omega (arith, straight.valid.small)

        fits : stored (ring_of w p) + n < (ring_of w p).buffer_size
        fits = ground (arith, straight.straight)

        total : length (contents (ring_of w p) ++ take n buf) ≡ length (contents (ring_of w p)) + n
        total =
            omega (arith, length-append (contents (ring_of w p)) (take n buf), length-take n buf)

        still : {r : RingBuffer} → Wrote (ring_of w p) (take n buf) r → IsStraight r
        still {r} wrote =
            (IsStraight-write (ring_of w p) r (take n buf) straight wrote
              (omega (arith, length-take n buf))).0

    -- Of `n` bytes, at least one, that do not fit into a straight ring none is kept, while the
    -- handlers return on the frames of the bytes held before and leave the ring alone: the frames
    -- dispatched are those. Fuel above the number of bytes held is enough.
    pub Received-full :
        Keep hs p (frames_of (contents (ring_of w p))).frames
        → (ring_of w p).buffer_size ≤ stored (ring_of w p) + n
        → n < 2 ^ 31
        → length (contents (ring_of w p)) < fuel
        → Received os hs p
            (set_ring w p (ring_of w p))
            (frames_of (contents (ring_of w p)))
            (on_recv_completed os hs fuel w p buf n)
    Received-full keep full small enough =
        subst (Received os hs p (set_ring w p (ring_of w p)) (frames_of (contents (ring_of w p))))
          (sym (
            completed_cases n some_bytes small
            ∙ ap (after_write os hs fuel w p) (write_refused straight.valid buf n (inr full))))
          (after_parses false (ring_of w p) _ keep straight refl enough)
