-- ===== src/Client/Packets.antt =====
-- However a stream is cut into pieces, the client reads the packets that were sent.
use iocpserver.Prelude.{
  take-append-drop, length-drop, ℕ, zero, suc, ◌+◌, ◌-◌, ◌≤◌, ◌<◌, ◌≡◌, refl, sym, ap, ap₂, ◌∙◌,
  inl, inr, some, List, [], ◌∷◌, ◌++◌, length, take, drop, arith, length-append, take-append_le,
  drop-append_le, le→ltb, take_add, take-append_eq, drop-append_ge,
}
use iocpserver.Packet.Header.{header_size, header_size-take}
use iocpserver.Receive.Packets.{IsPacket}
use iocpserver.RingBuffer.Valid.{order}
use iocpserver.Client.{prepend, recv_all, read_body, read_one_packet}

-- Pieces that carry bytes.
abbrev pub AreFull : List (List ℕ) → Type 0
AreFull [] = Unit {0}
AreFull (p ∷ ps) = (0 < length p) × AreFull ps

abbrev pub joined : List (List ℕ) → List ℕ
joined [] = []
joined (p ∷ ps) = p ++ joined ps

-- The first `n` bytes are read, and the others are left.
pub recv_all_lem :
    (pieces : List (List ℕ)) (n : ℕ)
    → AreFull pieces
    → n ≤ length (joined pieces)
    → (left : List (List ℕ)) × (recv_all pieces n ≡ some (take n (joined pieces), left))
      × AreFull left
      × (joined left ≡ drop n (joined pieces))
unfolding recv_all
recv_all_lem [] zero h k = ([], refl, tt, refl)
recv_all_lem (p ∷ pieces) zero h k = (p ∷ pieces, refl, h, refl)
recv_all_lem [] (suc n) h k = absurd (omega arith)
recv_all_lem ([] ∷ pieces) (suc n) h k = absurd (omega (arith, h.0))
recv_all_lem ((b ∷ bs) ∷ pieces) (suc n) h k = elim (order (suc n) (length (b ∷ bs))) [
  | inl part ↦ (
    drop (suc n) (b ∷ bs) ∷ pieces,
    stops part,
    (omega (arith, length-drop n bs), h.1),
    sym (drop-append_le n bs (joined pieces) (omega arith)),
  )
  | inr all ↦
      let (left, got, full, rest) =
        recv_all_lem pieces (suc n - length (b ∷ bs)) h.1 (omega (arith, k, total)) in
      (
        left,
        read_on all left got,
        full,
        rest
            ∙ sym (
                drop-append_ge (suc n) (suc n - length (b ∷ bs)) (b ∷ bs) (joined pieces)
                  (omega arith)),
      )
]
  where
    total : length (joined ((b ∷ bs) ∷ pieces)) ≡ length (b ∷ bs) + length (joined pieces)
    total = length-append (b ∷ bs) (joined pieces)

    stops :
        suc n < length (b ∷ bs)
        → recv_all ((b ∷ bs) ∷ pieces) (suc n)
          ≡ some (take (suc n) ((b ∷ bs) ++ joined pieces), drop (suc n) (b ∷ bs) ∷ pieces)
    stops part = rw (take-append_le (suc n) (b ∷ bs) (joined pieces) (omega (arith, part))) cuts
      where
        cuts :
            recv_all ((b ∷ bs) ∷ pieces) (suc n)
            ≡ some (take (suc n) (b ∷ bs), drop (suc n) (b ∷ bs) ∷ pieces)
        cuts = unfold recv_all in ground (arith, part)

    taken :
        length (b ∷ bs) ≤ suc n
        → take (suc n) ((b ∷ bs) ++ joined pieces)
          ≡ (b ∷ bs) ++ take (suc n - length (b ∷ bs)) (joined pieces)
    taken all =
        ap (λ j. take j ((b ∷ bs) ++ joined pieces)) parts
        ∙ take_add (length (b ∷ bs)) (suc n - length (b ∷ bs)) ((b ∷ bs) ++ joined pieces)
        ∙ ap₂ ◌++◌ (take-append_eq (length (b ∷ bs)) (b ∷ bs) (joined pieces) refl) (
            ap (take (suc n - length (b ∷ bs)))
              (drop-append_ge (length (b ∷ bs)) 0 (b ∷ bs) (joined pieces) (omega arith)))
      where
        parts : suc n ≡ length (b ∷ bs) + (suc n - length (b ∷ bs))
        parts = omega (arith, all)

    read_on :
        length (b ∷ bs) ≤ suc n
        → (left : List (List ℕ))
        → recv_all pieces (suc n - length (b ∷ bs))
          ≡ some (take (suc n - length (b ∷ bs)) (joined pieces), left)
        → recv_all ((b ∷ bs) ∷ pieces) (suc n)
          ≡ some (take (suc n) ((b ∷ bs) ++ joined pieces), left)
    read_on all left got =
        whole ∙ ap (prepend (b ∷ bs)) got ∙ joins ∙ ap (λ xs. some (xs, left)) (sym (taken all))
      where
        whole :
            recv_all ((b ∷ bs) ∷ pieces) (suc n)
            ≡ prepend (b ∷ bs) (recv_all pieces (suc n - length (b ∷ bs)))
        whole = unfold recv_all in ground (arith, all)

        joins :
            prepend (b ∷ bs) (some (take (suc n - length (b ∷ bs)) (joined pieces), left))
            ≡ some ((b ∷ bs) ++ take (suc n - length (b ∷ bs)) (joined pieces), left)
        joins = unfold prepend in refl

-- A packet sent, and whatever follows it, cut into pieces in any way: the client reads the packet
-- whole and nothing else.
pub read_one_packet_lem :
    (pieces : List (List ℕ)) (packet rest : List ℕ)
    → AreFull pieces
    → IsPacket packet
    → joined pieces ≡ packet ++ rest
    → (left : List (List ℕ)) × (read_one_packet pieces ≡ some (packet, left))
      × AreFull left
      × (joined left ≡ rest)
read_one_packet_lem pieces packet rest full good cut =
    let (left₁, got₁, full₁, rest₁) =
      recv_all_lem pieces 4 full (omega (arith, total, good.not_short)) in
    let behind = rest₁ ∙ ap (drop 4) cut ∙ drop-append_le 4 packet rest good.not_short in
    let (left₂, got₂, full₂, rest₂) =
      recv_all_lem left₁ (length packet - 4) full₁ (
        omega
          (arith, ap length behind, length-append (drop 4 packet) rest, length-drop 4 packet)) in
    let body =
      ap (take (length packet - 4)) behind
      ∙ take-append_eq (length packet - 4) (drop 4 packet) rest (length-drop 4 packet) in
    (
      left₂,
      reads left₁ (got₁ ∙ ap (λ xs. some (xs, left₁)) first) left₂
          (got₂ ∙ ap (λ xs. some (xs, left₂)) body),
      full₂,
      rest₂
          ∙ ap (drop (length packet - 4)) behind
          ∙ drop-append_ge (length packet - 4) 0 (drop 4 packet) rest
              (omega (arith, length-drop 4 packet)),
    )
  where
    total : length (joined pieces) ≡ length packet + length rest
    total = ap length cut ∙ length-append packet rest

    first : take 4 (joined pieces) ≡ take 4 packet
    first = ap (take 4) cut ∙ take-append_le 4 packet rest good.not_short

    size : header_size (take 4 packet) ≡ length packet
    size = header_size-take packet ∙ good.states

    reads :
        (left₁ : List (List ℕ))
        → recv_all pieces 4 ≡ some (take 4 packet, left₁)
        → (left₂ : List (List ℕ)) → recv_all left₁ (length packet - 4) ≡ some (drop 4 packet, left₂)
        → read_one_packet pieces ≡ some (packet, left₂)
    reads left₁ got₁ left₂ got₂ = begins ∙ continues ∙ ap (prepend (take 4 packet)) got₂ ∙ ends
      where
        begins : read_one_packet pieces ≡ read_body (take 4 packet) left₁
        begins = unfold read_one_packet in rw got₁

        continues :
            read_body (take 4 packet) left₁
            ≡ prepend (take 4 packet) (recv_all left₁ (length packet - 4))
        continues = unfold read_body in rw (size, le→ltb (length packet) 4 good.not_short)

        ends : prepend (take 4 packet) (some (drop 4 packet, left₂)) ≡ some (packet, left₂)
        ends = unfold prepend in ap (λ xs. some (xs, left₂)) (take-append-drop 4 packet)
