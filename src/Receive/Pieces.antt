-- ===== src/Receive/Pieces.antt =====
-- A stream that TCP cuts into receives, and the packets that the handlers of the session are given.
use iocpserver.Prelude.{
  ℕ, ◌+◌, ◌≤◌, ◌<◌, ◌≡◌, refl, sym, ap, subst, ◌∙◌, List, [], ◌∷◌, ◌++◌, length, arith,
  length-append, take_all, append_assoc, append-nil, Bool-cases, ◌==◌, inl, inr,
}
use iocpserver.RingBuffer.{RingBuffer}
use iocpserver.RingBuffer.Contents.{contents, length-contents}
use iocpserver.RingBuffer.Write.{Wrote}
use iocpserver.World.{World, Session, Os, invalid_socket, update_self}
use iocpserver.Dispatcher.{Handlers}
use iocpserver.Session.{recv}
use iocpserver.Client.Packets.{AreFull, joined}
use iocpserver.Receive.{done, set_ring, on_recv_completed}
use iocpserver.Receive.Frames.{waiting, Parsed, frames_of, stop}
use iocpserver.Receive.Append.{IsSettled, behind, frames_behind_lem, front_waits, rest-IsSettled}
use iocpserver.Receive.Verdicts.{ring_of, Keep, Keep-append, IsStraight, Received, Delivers, finish}
use iocpserver.Receive.Completed.{IsStraight-write, on_recv_completed-Received}

recv-ring_of : (os : Os) (w : World) (p : ℕ) → ring_of (recv os w p).1 p ≡ ring_of w p
unfolding recv
recv-ring_of os w p = elim (Bool-cases ((w.session p).accept_socket == invalid_socket)) [
  | inl none ↦ rw none
  | inr some_socket ↦ rw some_socket
]

module _ (os : Os) (hs : Handlers World) (fuel : ℕ) (p : ℕ) where
  -- The receives complete one after the other; each gives the handlers the next of the frames, in
  -- order, and posts the receive that the next piece completes.
  abbrev pub Served : List (List ℕ) → World → List (List ℕ) → World → Type 0
  Served [] w frames last = (frames ≡ []) × (last ≡ w)
  Served (piece ∷ pieces) w frames last =
      (r : RingBuffer) × (now : List (List ℕ)) × (later : List (List ℕ)) × (mid : World) × (frames
        ≡ now ++ later)
      × Delivers hs p (set_ring w p r) now mid
      × (on_recv_completed os hs fuel w p piece (length piece) ≡ done (recv os mid p).1)
      × Served pieces (recv os mid p).1 later last

  -- What one piece brings about.
  record Took (w : World) (piece : List ℕ) (parsed : Parsed) : Type 0 where
    pub ring : RingBuffer
    pub mid : World
    pub delivered : Delivers hs p (set_ring w p ring) parsed.frames mid
    pub posted : on_recv_completed os hs fuel w p piece (length piece) ≡ done (recv os mid p).1
    pub left_over : contents (ring_of (recv os mid p).1 p) ≡ parsed.rest
    pub straight : IsStraight (ring_of (recv os mid p).1 p)
    pub moved : (ring_of (recv os mid p).1 p).write_pos ≡ (ring_of w p).write_pos + length piece
    pub same_size : (ring_of (recv os mid p).1 p).buffer_size ≡ (ring_of w p).buffer_size

  took :
      (w : World) (piece : List ℕ)
      → Keep hs p (frames_of (contents (ring_of w p) ++ piece)).frames
      → IsStraight (ring_of w p)
      → 0 < length piece
      → (frames_of (contents (ring_of w p) ++ piece)).verdict ≡ waiting
      → (ring_of w p).write_pos + length piece < (ring_of w p).buffer_size
      → (ring_of w p).buffer_size ≤ fuel
      → Took w piece (frames_of (contents (ring_of w p) ++ piece))
  took w piece keep s some_bytes ok inside enough =
      let all = take_all (length piece) piece (omega arith) in
      let keep_all =
        subst (λ bytes. Keep hs p (frames_of (contents (ring_of w p) ++ bytes)).frames) (sym all)
          keep in
      let (r, wrote, got₁) =
        on_recv_completed-Received os hs fuel w p piece s (length piece) some_bytes keep_all
          (omega arith) inside
          (ground (arith, s.straight, length-contents s.valid, inside, enough)) in
      let wrote₁ = subst (λ bytes. Wrote (ring_of w p) bytes r) all wrote in
      let got =
        subst
          (λ bytes.
            Received os hs p (set_ring w p r) (frames_of (contents (ring_of w p) ++ bytes))
              (on_recv_completed os hs fuel w p piece (length piece)))
          all got₁ in
      let kept = recv-ring_of os got.last p in
      let set : ring_of (set_ring w p r) p ≡ r =
        ap (λ (s : Session). s.recv_buffer)
          (update_self w.session p (record (w.session p) { recv_buffer = r })) in
      record {
        ring = r;
        mid = got.last;
        delivered = got.delivered;
        posted = got.ended ∙ ap (λ v. finish os hs p v got.last) ok;
        left_over = ap contents kept ∙ got.left_over;
        straight = subst IsStraight (sym kept) got.ring_kept;
        moved =
            ap (λ (x : RingBuffer). x.write_pos) kept
            ∙ got.same_write
            ∙ ap (λ (x : RingBuffer). x.write_pos) set
            ∙ (IsStraight-write (ring_of w p) r piece s wrote₁ inside).1;
        same_size =
            ap (λ (x : RingBuffer). x.buffer_size) kept
            ∙ got.same_size
            ∙ ap (λ (x : RingBuffer). x.buffer_size) set
            ∙ wrote₁.same_size;
      }

  -- However the stream is cut into receives, while it is in order and the handlers return on its
  -- frames and leave the ring alone: starting from a straight ring with no whole frame in it, whose end the stream
  -- does not reach, every frame of the stream is dispatched once, in order, by the receive that
  -- completes it; every receive posts the next; and the ring is left with what is behind the last
  -- whole frame. Fuel of the ring's size is enough.
  pub received_in_pieces :
      (pieces : List (List ℕ)) (w : World)
      → Keep hs p (frames_of (contents (ring_of w p) ++ joined pieces)).frames
      → IsStraight (ring_of w p)
      → AreFull pieces
      → IsSettled (contents (ring_of w p))
      → (frames_of (contents (ring_of w p) ++ joined pieces)).verdict ≡ waiting
      → (ring_of w p).write_pos + length (joined pieces) < (ring_of w p).buffer_size
      → (ring_of w p).buffer_size ≤ fuel
      → let all = frames_of (contents (ring_of w p) ++ joined pieces) in
        (last : World) × Served pieces w all.frames last × (contents (ring_of last p) ≡ all.rest)
  received_in_pieces [] w keep s full settled ok inside enough = (
    w,
    (ap (λ (q : Parsed). q.frames) nothing_new, refl),
    sym (ap (λ (q : Parsed). q.rest) nothing_new),
  )
    where
      nothing_new : frames_of (contents (ring_of w p) ++ []) ≡ stop (contents (ring_of w p)) waiting
      nothing_new = ap frames_of (append-nil (contents (ring_of w p))) ∙ settled
  received_in_pieces (piece ∷ pieces) w keep s full settled ok inside enough =
      let c = contents (ring_of w p) in
      let long = length-append piece (joined pieces) in
      let parsed = frames_of (c ++ piece) in
      let there : c ++ (piece ++ joined pieces) ≡ (c ++ piece) ++ joined pieces =
        sym (append_assoc c piece (joined pieces)) in
      let ok₁ : parsed.verdict ≡ waiting =
        front_waits (c ++ piece) (joined pieces)
          (sym (ap (λ xs. (frames_of xs).verdict) there) ∙ ok) in
      let split = frames_behind_lem (c ++ piece) (joined pieces) ok₁ in
      let kept =
        Keep-append hs p parsed.frames (frames_of (parsed.rest ++ joined pieces)).frames
          (subst (λ (q : Parsed). Keep hs p q.frames) (ap frames_of there ∙ split) keep) in
      let one = took w piece kept.0 s full.0 ok₁ (omega (arith, inside)) enough in
      let cut : frames_of (c ++ (piece ++ joined pieces))
          ≡ behind parsed.frames
              (frames_of (contents (ring_of (recv os one.mid p).1 p) ++ joined pieces)) =
        ap frames_of there
        ∙ split
        ∙ ap (λ xs. behind parsed.frames (frames_of (xs ++ joined pieces))) (sym one.left_over) in
      let (last, served, rest) =
        received_in_pieces pieces (recv os one.mid p).1
          (subst (λ xs. Keep hs p (frames_of (xs ++ joined pieces)).frames) (sym one.left_over)
            kept.1)
          one.straight full.1
          (subst IsSettled (sym one.left_over) (rest-IsSettled (c ++ piece) ok₁))
          (sym (ap (λ (q : Parsed). q.verdict) cut) ∙ ok)
          (omega (arith, one.moved, one.same_size, inside, long))
          (omega (arith, one.same_size, enough)) in
      (
        last,
        (
          one.ring,
          parsed.frames,
          (frames_of (contents (ring_of (recv os one.mid p).1 p) ++ joined pieces)).frames,
          one.mid,
          ap (λ (q : Parsed). q.frames) cut,
          one.delivered,
          one.posted,
          served,
        ),
        rest ∙ sym (ap (λ (q : Parsed). q.rest) cut),
      )
