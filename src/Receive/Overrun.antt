-- ===== src/Receive/Overrun.antt =====
-- The receive that makes `Read` leave the buffer.
use iocpserver.Prelude.{
  ℕ, suc, ◌+◌, ◌≤◌, ◌<◌, ◌≡◌, sym, ap, subst, ◌∙◌, inl, inr, List, ◌++◌, length, take, arith,
  length-append, take_all,
}
use iocpserver.RingBuffer.{RingBuffer}
use iocpserver.RingBuffer.Valid.{IsValid, stored}
use iocpserver.RingBuffer.Contents.{contents, length-contents}
use iocpserver.RingBuffer.Read.{IsReadable}
use iocpserver.RingBuffer.Write.{Wrote, write_lem}
use iocpserver.World.{World, Os, Session, update_self}
use iocpserver.Packet.Header.{header_size}
use iocpserver.Dispatcher.{Handlers}
use iocpserver.Receive.{crash, crashed, round, set_ring, loop, after_write, on_recv_completed}
use iocpserver.Receive.Step.{IsSize, round_crash}
use iocpserver.Receive.Verdicts.{ring_of}
use iocpserver.Receive.Completed.{completed_cases}

loop_crash :
    (os : Os) (hs : Handlers World) (fuel : ℕ) (w : World) (p : ℕ)
    → round hs w p ≡ crash
    → loop os hs (suc fuel) w p ≡ crashed
unfolding loop
loop_crash os hs fuel w p e = rw (e, loop)

-- The data reaches the end of the ring, but its first packet does not.
record IsOverrun (r : RingBuffer) : Type 0 where
  valid : IsValid r
  headed : 4 ≤ length (contents r)
  good : IsSize (header_size (contents r))
  whole : header_size (contents r) ≤ length (contents r)
  reaches : r.buffer_size ≤ r.read_pos + length (contents r)
  before : r.read_pos + header_size (contents r) < r.buffer_size

IsOverrun-crash :
    (os : Os) (hs : Handlers World) (fuel : ℕ) (w : World) (p : ℕ)
    → IsOverrun (ring_of w p)
    → loop os hs (suc fuel) w p ≡ crashed
IsOverrun-crash os hs fuel w p o =
    loop_crash os hs fuel w p (round_crash hs w p o.valid o.headed o.good o.whole blocked)
  where
    blocked : ¬ IsReadable (ring_of w p) (header_size (contents (ring_of w p)))
    blocked (inl straight) = ground (arith, o.reaches, length-contents o.valid)
    blocked (inr ends) = omega (arith, o.before)

-- When the arriving bytes fit into a well-formed ring, its bytes with them reach the end of the
-- buffer, and the first packet is whole, of a size that the loop accepts, and ends before the end
-- of the buffer, the receive runs into undefined behaviour.
pub received_overrun :
    (os : Os) (hs : Handlers World) (fuel : ℕ) (w : World) (p : ℕ) (buf : List ℕ)
    → IsValid (ring_of w p)
    → 0 < length buf
    → stored (ring_of w p) + length buf < (ring_of w p).buffer_size
    → (ring_of w p).buffer_size ≤ (ring_of w p).read_pos + stored (ring_of w p) + length buf
    → let bytes = contents (ring_of w p) ++ buf in
      4 ≤ length bytes
      → IsSize (header_size bytes)
      → header_size bytes ≤ length bytes
      → (ring_of w p).read_pos + header_size bytes < (ring_of w p).buffer_size
      → on_recv_completed os hs (suc fuel) w p buf (length buf) ≡ crashed
received_overrun os hs fuel w p buf v some_bytes fits reaches headed good whole before =
    let (r, e, wrote) = write_lem v buf (length buf) some_bytes fits (omega arith) in
    let there : ring_of (set_ring w p r) p ≡ r =
      ap (λ (s : Session). s.recv_buffer)
        (update_self w.session p (record (w.session p) { recv_buffer = r })) in
    let holds : contents r ≡ contents (ring_of w p) ++ buf =
      wrote.appended
      ∙ ap (◌++◌ (contents (ring_of w p))) (take_all (length buf) buf (omega arith)) in
    completed_cases os hs (suc fuel) w p buf (length buf) some_bytes (omega (arith, v.small))
    ∙ ap (after_write os hs (suc fuel) w p) e
    ∙ (unfold after_write in
        IsOverrun-crash os hs fuel (set_ring w p r) p
          (subst IsOverrun (sym there) (overruns r wrote holds)))
  where
    bytes : List ℕ
    bytes = contents (ring_of w p) ++ buf

    overruns :
        (r : RingBuffer)
        → Wrote (ring_of w p) (take (length buf) buf) r
        → contents r ≡ bytes
        → IsOverrun r
    overruns r wrote holds = record {
      valid = wrote.valid;
      headed = omega (arith, ap length holds);
      good = subst IsSize (sym (ap header_size holds)) good;
      whole = omega (arith, ap length holds, ap header_size holds);
      reaches = omega (
        arith,
        ap length holds,
        wrote.same_read,
        wrote.same_size,
        length-append (contents (ring_of w p)) buf,
        length-contents v,
      );
      before = omega (arith, ap header_size holds, wrote.same_read, wrote.same_size);
    }
