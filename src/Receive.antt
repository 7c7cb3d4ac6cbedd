-- ===== src/Receive.antt =====
-- ServerCoreLibrary/ClientSession.cpp and ServerSession.cpp: a completed receive is appended to
-- the session's ring, and every whole packet in the ring is taken out and dispatched.
pub mod Frames
pub mod Step
pub mod Verdicts
pub mod Loop
pub mod Completed
pub mod Packets
pub mod Append
pub mod Pieces
pub mod Overrun
mod Tests
use iocpserver.Prelude.{
  ℕ, zero, suc, ◌||◌, Bool, true, false, Option, none, some, List, length, ltb, ◌==◌, if◌then◌else◌,
}
use iocpserver.Prelude.Int.{pos, ltb_ℤ, to_int32}
use iocpserver.RingBuffer.{RingBuffer, get_stored_size, write, peek, read}
use iocpserver.World.{World, Session, SessionClass, Os, set_session, max_recv_buffer_size}
use iocpserver.Packet.Header.{header_size, packet_header_size}
use iocpserver.Dispatcher.{Handlers, dispatch}
use iocpserver.Session.{disconnect, recv}

-- How one round of the packet loop ends: another round, `break`, `return`, or undefined behaviour.
pub data Round : Type 0 where
  again : World → Round
  breaks : World → Round
  returns : World → Round
  crash : Round

abbrev pub set_ring : World → ℕ → RingBuffer → World
set_ring w p r = set_session w p (record (w.session p) { recv_buffer = r })

unfoldable pub dispatched : Option World → Round
dispatched none = crash
dispatched (some w) = again w

module _ (hs : Handlers World) (w : World) (p : ℕ) where
  unfoldable pub after_read : ℕ → Option (Bool × List ℕ × RingBuffer) → Round
  after_read size none = crash
  after_read size (some (false, out, ring)) = returns (disconnect w p)
  after_read size (some (true, out, ring)) = dispatched (dispatch hs (set_ring w p ring) p out size)

  unfoldable pub after_size : ℕ → Round
  after_size size =
      if ltb size packet_header_size || ltb max_recv_buffer_size size
      then returns (disconnect w p)
      else if ltb_ℤ (get_stored_size (w.session p).recv_buffer) (pos size)
      then breaks w
      else after_read size (read (w.session p).recv_buffer (pos size))

  unfoldable pub after_peek : Option (Bool × List ℕ) → Round
  after_peek none = crash
  after_peek (some (false, head)) = breaks w
  after_peek (some (true, head)) = after_size (header_size head)

  -- The body of `while (true)`.
  unfoldable pub round : Round
  round =
      if ltb_ℤ (get_stored_size (w.session p).recv_buffer) (pos packet_header_size)
      then breaks w
      else after_peek (peek (w.session p).recv_buffer (pos packet_header_size))

-- What a completed receive comes to.
pub data Outcome : Type 0 where
  done : World → Outcome
  crashed : Outcome
  out_of_fuel : Outcome

module _ (os : Os) (hs : Handlers World) where
  unfoldable pub loop : ℕ → World → ℕ → Outcome
  loop zero w p = out_of_fuel
  loop (suc fuel) w p = elim (round hs w p) [
    | again w' ↦ loop fuel w' p
    | breaks w' ↦ done (recv os w' p).1
    | returns w' ↦ done w'
    | crash ↦ crashed
  ]

  -- Whether the bytes were stored is not looked at.
  unfoldable pub after_write : ℕ → World → ℕ → Option (Bool × RingBuffer) → Outcome
  after_write fuel w p none = crashed
  after_write fuel w p (some (stored, ring)) = loop fuel (set_ring w p ring) p

  -- ClientSession::OnRecvCompleted, of `n` bytes in the receive context's buffer.
  unfoldable pub client_on_recv_completed : ℕ → World → ℕ → List ℕ → ℕ → Outcome
  client_on_recv_completed fuel w p buf n =
      if n == 0
      then done (disconnect w p)
      else after_write fuel w p (write (w.session p).recv_buffer buf (to_int32 n))

  -- ServerSession::OnRecvCompleted, the same text.
  unfoldable pub server_on_recv_completed : ℕ → World → ℕ → List ℕ → ℕ → Outcome
  server_on_recv_completed fuel w p buf n =
      if n == 0
      then done (disconnect w p)
      else after_write fuel w p (write (w.session p).recv_buffer buf (to_int32 n))

  -- The virtual call.
  unfoldable pub on_recv_completed : ℕ → World → ℕ → List ℕ → ℕ → Outcome
  on_recv_completed fuel w p buf n = elim (w.session p).dynamic_type [
    | SessionClass.client_session ↦ client_on_recv_completed fuel w p buf n
    | SessionClass.server_session ↦ server_on_recv_completed fuel w p buf n
  ]
