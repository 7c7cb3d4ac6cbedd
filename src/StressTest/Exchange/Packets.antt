-- ===== src/StressTest/Exchange/Packets.antt =====
-- An exchange of packets with a server that answers in packets.
use iocpserver.Prelude.{
  ℕ, ◌+◌, ◌-◌, ◌^◌, ◌≤◌, ◌<◌, ◌≡◌, refl, sym, ap, ap₂, subst, ◌∙◌, inl, inr, Bool, true, false,
  Option, some, List, [], ◌∷◌, ◌++◌, length, take, drop, get_or, replicate, ◌>>=◌, arith,
  length-append, length-replicate, take_all, drop-drop, drop-append_ge, le→ltb, slice,
  take-append_le,
}
use iocpserver.Prelude.Int.{to_int32_small, pos_part}
use iocpserver.Packet.Header.{u16, header, header_size, header_size-take}
use iocpserver.Packet.Structs.{IsSent}
use iocpserver.StressTest.{packet}
use iocpserver.StressTest.Exchange.Buffer.{make_buffer-packet, filled}
use iocpserver.StressTest.Socket.{Socket, Net, IsNet, send_all}
use iocpserver.StressTest.Socket.Ends.{Sent, send_all-ends, recv_exact-cases}
use iocpserver.StressTest.Exchange.{
  make_buffer, as_int, send_vector, recv_vector, recv_body, recv_packet, if_sent, exchange,
}

as_int_small : (n : ℕ) → n < 2 ^ 31 → as_int n ≡ n
as_int_small n h = ap pos_part (to_int32_small n h)

-- A receive that ends, and with `rest` still to come if it returns true.
pub record Answered (s : Socket) (rest : List ℕ) (r : Option (Bool × Socket)) : Type 0 where
  pub answered : Bool
  pub after : Socket
  pub returns : r ≡ some (answered, after)
  pub sent : after.sent ≡ s.sent
  pub incoming : answered ≡ true → after.incoming ≡ rest

module _ (net : Net) (ok : IsNet net) where
  no_answer :
      (s : Socket) (rest : List ℕ) (t : Socket)
      → t.sent ≡ s.sent
      → Answered s rest (some (false, t))
  no_answer s rest t e = record {
    answered = false;
    after = t;
    returns = refl;
    sent = e;
    incoming = λ h. absurd (cc h);
  }

  recv_vector-Answered :
      (n : ℕ) (s : Socket) → n < 2 ^ 31 → Answered s (drop n s.incoming) (recv_vector net n s)
  unfolding recv_vector
  recv_vector-Answered n s h = elim (recv_exact-cases net ok n s) [
    | inl (e, there) ↦
        rw (as_int_small n h, e)
          (record {
            answered = true;
            after = record s { incoming = drop n s.incoming };
            returns = refl;
            sent = refl;
            incoming = λ b. refl;
          })
    | inr (t, e, same) ↦ rw (as_int_small n h, e) (no_answer s (drop n s.incoming) t same)
  ]

  -- The size is read from the first two bytes.
  first_two :
      (bytes : List ℕ)
      → u16 (get_or (take 2 bytes) 0 0) (get_or (take 2 bytes) 1 0) ≡ header_size bytes
  unfolding header_size
  first_two [] = refl
  first_two (a ∷ []) = refl
  first_two (a ∷ b ∷ bytes) = refl

  recv_packet-Answered :
      (s : Socket)
      → 4 ≤ header_size s.incoming
      → header_size s.incoming < 2 ^ 16
      → Answered s (drop (header_size s.incoming) s.incoming) (recv_packet net s)
  unfolding recv_packet recv_body
  recv_packet-Answered s h k = elim (recv_exact-cases net ok 2 s) [
    | inr (t, e, same) ↦ rw e (no_answer s all_taken t same)
    | inl (e, there) ↦ elim (recv_exact-cases net ok 2 s₁) [
      | inr (t, f, same) ↦ rw (e, f) (no_answer s all_taken t same)
      | inl (f, there_too) ↦
          rw (e, f, first_two s.incoming, le→ltb (header_size s.incoming) 4 h)
            (of_body (recv_vector-Answered (header_size s.incoming - 4) s₂ (omega arith)))
    ]
  ]
    where
      all_taken : List ℕ
      all_taken = drop (header_size s.incoming) s.incoming

      s₁ : Socket
      s₁ = record s { incoming = drop 2 s.incoming }

      s₂ : Socket
      s₂ = record s { incoming = drop 2 (drop 2 s.incoming) }

      of_body :
          {r : Option (Bool × Socket)}
          → Answered s₂ (drop (header_size s.incoming - 4) (drop 2 (drop 2 s.incoming))) r
          → Answered s all_taken r
      of_body a = record {
        answered = a.answered;
        after = a.after;
        returns = a.returns;
        sent = a.sent;
        incoming = λ b. a.incoming b ∙ twice;
      }
        where
          twice :
              drop (header_size s.incoming - 4) (drop 2 (drop 2 s.incoming))
              ≡ drop (header_size s.incoming) s.incoming
          twice =
              ap (drop (header_size s.incoming - 4)) (drop-drop 2 2 4 s.incoming refl)
              ∙ drop-drop 4 (header_size s.incoming - 4) (header_size s.incoming) s.incoming
                  (omega arith)

  -- What is sent of a packet whose length an int holds.
  send_vector-Sent :
      (bytes : List ℕ) (s : Socket)
      → length bytes < 2 ^ 31
      → Sent bytes 0 s (send_vector net bytes s)
  unfolding send_vector
  send_vector-Sent bytes s h =
      subst (λ xs. Sent bytes 0 s (send_all net xs s))
        (sym (
          ap (λ n. take n bytes) (as_int_small (length bytes) h)
          ∙ take_all (length bytes) bytes (omega arith)))
        (send_all-ends net ok bytes s)

-- What one exchange leaves: the buffer holds the packet, and if the exchange returns true the packet
-- is sent and the answer is received.
pub record Exchanged (packet_bytes rest : List ℕ) (s : Socket)
    (r : Option (List ℕ × (Bool × Socket))) : Type 0 where
  pub is_ok : Bool
  pub after : Socket
  pub returns : r ≡ some (packet_bytes, (is_ok, after))
  pub sent : is_ok ≡ true → after.sent ≡ s.sent ++ packet_bytes
  pub incoming : is_ok ≡ true → after.incoming ≡ rest

-- The size of what comes, and what comes behind it.
size-append :
    (reply rest : List ℕ) → 4 ≤ length reply → header_size (reply ++ rest) ≡ header_size reply
size-append reply rest h =
    sym (header_size-take (reply ++ rest))
    ∙ ap header_size (take-append_le 4 reply rest h)
    ∙ header_size-take reply

module _ (net : Net) (ok : IsNet net) where
  exchange_rest :
      (sent_bytes rest : List ℕ) (s : Socket)
      → 4 ≤ header_size s.incoming
      → header_size s.incoming < 2 ^ 16
      → drop (header_size s.incoming) s.incoming ≡ rest
      → (r : Option (Bool × Socket)) → Sent sent_bytes 0 s r
      → Exchanged sent_bytes rest s
          (r >>= if_sent net (recv_packet net) >>= (λ q. some (sent_bytes, q)))
  unfolding if_sent slice
  exchange_rest sent_bytes rest s h k e r t = by_result t.result refl
    where
      whole : t.result ≡ true → take t.n sent_bytes ≡ sent_bytes
      whole f = take_all t.n sent_bytes (omega (arith, t.whole f))

      of_answer :
          take t.n sent_bytes ≡ sent_bytes
          → {q : Option (Bool × Socket)}
          → Answered
              (record s { sent = s.sent ++ take t.n sent_bytes })
              (drop (header_size s.incoming) s.incoming)
              q
          → Exchanged sent_bytes rest s (q >>= (λ x. some (sent_bytes, x)))
      of_answer all a = record {
        is_ok = a.answered;
        after = a.after;
        returns = ap (λ x. x >>= (λ y. some (sent_bytes, y))) a.returns;
        sent = λ b. a.sent ∙ ap (◌++◌ s.sent) all;
        incoming = λ b. a.incoming b ∙ e;
      }

      by_result :
          (b : Bool)
          → t.result ≡ b
          → Exchanged sent_bytes rest s
              (r >>= if_sent net (recv_packet net) >>= (λ q. some (sent_bytes, q)))
      by_result false f =
          rw (t.returns, f)
            (record {
              is_ok = false;
              after = record s { sent = s.sent ++ slice sent_bytes 0 t.n };
              returns = refl;
              sent = λ b. absurd (cc b);
              incoming = λ b. absurd (cc b);
            })
      by_result true f =
          rw (t.returns, f)
            (of_answer (whole f) (
              recv_packet-Answered net ok (record s { sent = s.sent ++ slice sent_bytes 0 t.n }) h
                k))

  -- A payload of less than 65,532 bytes, however send and recv split the bytes, and against a peer
  -- that sends a packet of up to 8192 bytes next: the exchange returns, and if it returns true the
  -- bytes sent are a header that states their number and the payload, and the peer's packet is
  -- received and nothing behind it.
  pub exchange-packet :
      (payload reply rest : List ℕ) (id reply_id : ℕ) (s : Socket)
      → 4 + length payload < 2 ^ 16
      → s.incoming ≡ reply ++ rest
      → IsSent reply_id reply
      → Exchanged
          (header (4 + length payload) id ++ payload)
          rest
          s
          (make_buffer packet payload id >>= (λ buf. exchange net packet payload buf s))
  unfolding exchange
  exchange-packet payload reply rest id reply_id s h e is_sent =
      rw
        (
          make_buffer-packet payload id h,
          filled payload (replicate (length payload) 0) (4 + length payload) id
              (length-replicate (length payload) 0),
        )
        (exchange_rest whole rest s (omega (arith, size, is_sent.2))
          (omega (arith, size, is_sent.3))
          (ap₂ drop size e ∙ drop-append_ge (length reply) 0 reply rest (omega arith))
          (send_vector net whole s)
          (send_vector-Sent net ok whole s
            (omega (arith, length-append (header (4 + length payload) id) payload, four))))
    where
      whole : List ℕ
      whole = header (4 + length payload) id ++ payload

      four : length (header (4 + length payload) id) ≡ 4
      four = unfold header in refl

      size : header_size s.incoming ≡ length reply
      size = ap header_size e ∙ size-append reply rest is_sent.2 ∙ is_sent.0
