-- ===== src/StressTest/Socket.antt =====
-- SendAll and RecvExact of StressTest/main.cpp, on a connected socket.
pub mod Ends
use iocpserver.Prelude.{
  ℕ, zero, suc, ◌+◌, ◌-◌, ◌≤◌, ◌<◌, ◌≡◌, refl, sym, ap, ◌∙◌, ◌⊎◌, inl, inr, Bool, true, false,
  Option, none, some, List, [], ◌∷◌, ◌++◌, length, take, drop, slice, ltb, if◌then◌else◌,
  Bool-cases, Option-cases, arith, append_assoc, append-nil, length-append, length-take,
  length-drop, slice_add, lt→ltb, le→ltb, ltb→lt, drop_all, take_add, drop-drop,
}

-- What was sent, and what the peer sends that is not yet received.
pub record Socket : Type 0 where
  pub sent : List ℕ
  pub incoming : List ℕ

-- `send` and `recv` of at most so many bytes; `none` is SOCKET_ERROR, and 0 of `recv`.
pub record Net : Type 0 where
  pub send : Socket → ℕ → Option ℕ
  pub recv : Socket → ℕ → Option ℕ

-- What Winsock promises of a blocking socket.
pub record IsNet (net : Net) : Type 0 where
  pub send_some : (s : Socket) (n m : ℕ) → 0 < n → net.send s n ≡ some m → (0 < m) × (m ≤ n)
  pub recv_some :
      (s : Socket) (n m : ℕ)
      → 0 < n
      → net.recv s n ≡ some m
      → (0 < m) × (m ≤ n) × (m ≤ length s.incoming)

-- `none` is a loop whose fuel has run out.
module _ (net : Net) where
  unfoldable pub send_more : ℕ → List ℕ → ℕ → Socket → Option (Bool × Socket)
  send_more zero bytes total s = none
  send_more (suc fuel) bytes total s =
      if ltb total (length bytes)
      then elim (net.send s (length bytes - total)) [
        | none ↦ some (false, s)
        | some m ↦
            send_more fuel bytes (total + m) (record s { sent = s.sent ++ slice bytes total m })
      ]
      else some (true, s)

  unfoldable pub send_all : List ℕ → Socket → Option (Bool × Socket)
  unfolding send_more
  send_all bytes s = send_more (suc (length bytes)) bytes 0 s

  unfoldable pub recv_more : ℕ → ℕ → List ℕ → Socket → Option (Option (List ℕ) × Socket)
  recv_more zero n got s = none
  recv_more (suc fuel) n got s =
      if ltb (length got) n
      then elim (net.recv s (n - length got)) [
        | none ↦ some (none, s)
        | some m ↦
            recv_more fuel n (got ++ take m s.incoming) (record s { incoming = drop m s.incoming })
      ]
      else some (some got, s)

  unfoldable pub recv_exact : ℕ → Socket → Option (Option (List ℕ) × Socket)
  unfolding recv_more
  recv_exact n s = recv_more (suc n) n [] s
