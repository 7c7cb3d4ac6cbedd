-- ===== src/Receive/Verdicts.antt =====
-- What the packet loop is to do with a ring, in terms of the parser of Receive/Frames.
use iocpserver.Prelude.{ℕ, ◌≤◌, ◌<◌, ◌≡◌, ◌⊎◌, inl, inr, some, List, [], ◌∷◌, ◌++◌, length}
use iocpserver.Prelude.Int.{pos}
use iocpserver.RingBuffer.{RingBuffer, advance}
use iocpserver.RingBuffer.Valid.{IsValid, order}
use iocpserver.RingBuffer.Contents.{contents}
use iocpserver.World.{World, Os}
use iocpserver.Dispatcher.{Handlers, dispatch}
use iocpserver.Session.{disconnect, recv}
use iocpserver.Receive.{Outcome, done, set_ring}
use iocpserver.Receive.Frames.{Verdict, waiting, malformed, Parsed, limit}
use iocpserver.Receive.Step.{IsSize}

abbrev pub ring_of : World → ℕ → RingBuffer
ring_of w p = (w.session p).recv_buffer

-- The handlers are called once for each frame, in order, each with the ring moved past its frame.
abbrev pub Delivers : Handlers World → ℕ → World → List (List ℕ) → World → Type 0
Delivers hs p w [] w' = w' ≡ w
Delivers hs p w (f ∷ fs) w' =
    (w₁ : World) × (dispatch hs (set_ring w p (advance (ring_of w p) (pos (length f)))) p f
        (length f)
      ≡ some w₁)
    × Delivers hs p w₁ fs w'

-- Handlers that, given any of the frames, return and leave the receive buffer of `p` alone.
abbrev pub Keep : Handlers World → ℕ → List (List ℕ) → Type 0
Keep hs p [] = Unit {0}
Keep hs p (f ∷ fs) =
    ((w : World)
      → (w' : World) × (dispatch hs w p f (length f) ≡ some w') × (ring_of w' p ≡ ring_of w p))
    × Keep hs p fs

pub Keep-append :
    (hs : Handlers World) (p : ℕ) (fs gs : List (List ℕ))
    → Keep hs p (fs ++ gs)
    → Keep hs p fs × Keep hs p gs
Keep-append hs p [] gs keep = (tt, keep)
Keep-append hs p (f ∷ fs) gs keep = let (a, b) = Keep-append hs p fs gs keep.1 in ((keep.0, a), b)

-- A ring that is well formed and whose data does not wrap.
pub record IsStraight (r : RingBuffer) : Type 0 where
  pub valid : IsValid r
  pub straight : r.read_pos ≤ r.write_pos

pub IsSize-cases : (size : ℕ) → ((size < 4) ⊎ (limit < size)) ⊎ IsSize size
IsSize-cases size = elim (order size 4) [
  | inl short ↦ inl (inl short)
  | inr long ↦ elim (order limit size) [
    | inl over ↦ inl (inr over)
    | inr fits ↦ inr (record { not_short = long; not_long = fits })
  ]
]

module _ (os : Os) (hs : Handlers World) (p : ℕ) where
  -- At the end the next receive is posted, or a malformed stream is cut off.
  abbrev pub finish : Verdict → World → Outcome
  finish waiting w = done (recv os w p).1
  finish malformed w = done (disconnect w p)

  pub record Received (w : World) (parsed : Parsed) (out : Outcome) : Type 0 where
    pub last : World
    pub delivered : Delivers hs p w parsed.frames last
    pub left_over : contents (ring_of last p) ≡ parsed.rest
    pub ring_kept : IsStraight (ring_of last p)
    pub same_write : (ring_of last p).write_pos ≡ (ring_of w p).write_pos
    pub same_size : (ring_of last p).buffer_size ≡ (ring_of w p).buffer_size
    pub ended : out ≡ finish parsed.verdict last
