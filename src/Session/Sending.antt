-- ===== src/Session/Sending.antt =====
-- The send queue of Session.cpp as a byte stream: every byte given to `SendPacket` is posted once,
-- in order, with at most one WSASend outstanding.
use iocpserver.Prelude.{
  ℕ, ◌+◌, ◌≤◌, ◌<◌, ◌≡◌, ◌≢◌, refl, sym, ap, ◌∙◌, inl, inr, Bool, true, false, List, [], ◌∷◌, ◌++◌,
  append-nil, append_assoc, arith, length, drop, length-drop, drop-drop, leb, not, Bool-cases,
  if◌then◌else◌, drop-append_le, drop-append_ge, ==_refl, ==_ne,
}
use iocpserver.World.{World, Session, SendItem, OsCall, Os, set_session, call}
use iocpserver.Session.{is_empty, acknowledge, send_packet, on_send_completed}

-- What is left to send of an item, and of a queue.
abbrev pub remaining : SendItem → List ℕ
remaining item = drop item.off item.buf

abbrev pub pending : List SendItem → List ℕ
pending [] = []
pending (item ∷ rest) = remaining item ++ pending rest

abbrev pub IsOpen : List SendItem → Type 0
IsOpen [] = Unit {0}
IsOpen (item ∷ rest) = (item.off < length item.buf) × IsOpen rest

-- A session sends exactly while its queue holds something, and no item of it is used up.
pub record CanSend (s : Session) : Type 0 where
  pub open_items : IsOpen s.send_queue
  pub idle : s.is_sending ≡ false → s.send_queue ≡ []
  pub busy : s.is_sending ≡ true → s.send_queue ≢ []

pending-append : (xs ys : List SendItem) → pending (xs ++ ys) ≡ pending xs ++ pending ys
pending-append [] ys = refl
pending-append (x ∷ xs) ys =
    ap (◌++◌ (remaining x)) (pending-append xs ys)
    ∙ sym (append_assoc (remaining x) (pending xs) (pending ys))

IsOpen-append : (xs ys : List SendItem) → IsOpen xs → IsOpen ys → IsOpen (xs ++ ys)
IsOpen-append [] ys h k = k
IsOpen-append (x ∷ xs) ys h k = (h.0, IsOpen-append xs ys h.1 k)

append-ne-nil : (xs : List SendItem) (y : SendItem) → xs ++ (y ∷ []) ≢ []
append-ne-nil [] y e = cc
append-ne-nil (x ∷ xs) y e = cc

-- What a completion of `n` bytes leaves of a queue, and whether it is posted again.
record Acknowledged (q : List SendItem) (n : ℕ) (r : List SendItem × Bool) : Type 0 where
  dropped : pending r.0 ≡ drop n (pending q)
  still_open : IsOpen r.0
  more : r.1 ≡ true → r.0 ≢ []
  nothing : r.1 ≡ false → r.0 ≡ []

Acknowledged-whole :
    (item : SendItem) (rest : List SendItem) (n : ℕ)
    → IsOpen (item ∷ rest)
    → n ≡ length (remaining item)
    → Acknowledged (item ∷ rest) n (rest, not (is_empty rest))
Acknowledged-whole item [] n o e = record {
  dropped = sym (drop-append_ge n 0 (remaining item) [] (omega arith));
  still_open = tt;
  more = λ h. cc;
  nothing = λ h. refl;
}
Acknowledged-whole item (next ∷ rest) n o e = record {
  dropped = sym (drop-append_ge n 0 (remaining item) (pending (next ∷ rest)) (omega arith));
  still_open = o.1;
  more = λ h k. cc;
  nothing = λ h. cc;
}

acknowledge-Acknowledged :
    (item : SendItem) (rest : List SendItem) (n : ℕ)
    → IsOpen (item ∷ rest)
    → n ≤ length (remaining item)
    → Acknowledged (item ∷ rest) n (acknowledge (item ∷ rest) n)
acknowledge-Acknowledged item rest n o k =
    elim (Bool-cases (leb (length item.buf) (item.off + n))) [
      | inl whole ↦
          rw whole (
            Acknowledged-whole item rest n o (ground (arith, whole, length-drop item.off item.buf)))
      | inr partly ↦ rw partly (record {
        dropped =
            ap (λ xs. xs ++ pending rest) (sym (drop-drop item.off n (item.off + n) item.buf refl))
            ∙ sym (drop-append_le n (remaining item) (pending rest) k);
        still_open = (ground (arith, partly), o.1);
        more = λ h e. cc;
        nothing = λ h. cc;
      })
    ]

module _ (os : Os) (w : World) (p : ℕ) (bytes : List ℕ) where
  abbrev packet : SendItem
  packet = record { buf = bytes; off = 0 }

  send_packet_busy :
      (w.session p).is_sending ≡ true
      → send_packet os w p bytes
        ≡ set_session w p
            (record (w.session p) { send_queue = (w.session p).send_queue ++ (packet ∷ []) })
  unfolding send_packet
  send_packet_busy e = rw e

  pub send_packet_idle :
      (w.session p).is_sending ≡ false
      → (w.session p).send_queue ≡ []
      → os.send_posted w.calls ≡ true
      → send_packet os w p bytes
        ≡ call
            (set_session w p (record (w.session p) { send_queue = packet ∷ []; is_sending = true }))
            (OsCall.wsa_send p (w.session p).accept_socket bytes)
  unfolding send_packet
  send_packet_idle e q posted = ground arith

  -- `SendPacket` of at least one byte, when the send state is well formed and Winsock accepts the
  -- post, keeps it well formed and puts the bytes behind what is to be sent. Only a session that
  -- was not sending posts, namely those bytes.
  pub send_packet_lem :
      CanSend (w.session p)
      → 0 < length bytes
      → os.send_posted w.calls ≡ true
      → let w' = send_packet os w p bytes in
        CanSend (w'.session p)
        × (pending (w'.session p).send_queue ≡ pending (w.session p).send_queue ++ bytes)
        × (w'.calls ≡ (
            if (w.session p).is_sending
            then w.calls
            else OsCall.wsa_send p (w.session p).accept_socket bytes ∷ w.calls))
  send_packet_lem c some_bytes posted = elim (Bool-cases (w.session p).is_sending) [
    | inl sending ↦
        rw (send_packet_busy sending, ==_refl p, sending)
          (
            record {
              open_items =
                  IsOpen-append (w.session p).send_queue (packet ∷ []) c.open_items
                    (some_bytes, tt);
              idle = λ h. cc;
              busy = λ h. append-ne-nil (w.session p).send_queue packet;
            },
            pending-append (w.session p).send_queue (packet ∷ [])
                ∙ ap (◌++◌ (pending (w.session p).send_queue)) (append-nil bytes),
            refl,
          )
    | inr idle ↦
        rw (send_packet_idle idle (c.idle idle) posted, ==_refl p, idle, c.idle idle)
          (
            record { open_items = (some_bytes, tt); idle = λ h. cc; busy = λ h e. cc },
            append-nil bytes,
            refl,
          )
  ]

-- The call that posts the front of a queue, or none.
abbrev pub posts : ℕ → ℕ → List SendItem → List OsCall
posts p socket [] = []
posts p socket (item ∷ rest) = OsCall.wsa_send p socket (remaining item) ∷ []

module _ (os : Os) (w : World) (p n : ℕ) (some_bytes : 0 < n) where
  completed_more :
      (item : SendItem) (rest : List SendItem)
      → acknowledge (w.session p).send_queue n ≡ (item ∷ rest, true)
      → os.send_posted w.calls ≡ true
      → on_send_completed os w p n
        ≡ call
            (set_session w p (record (w.session p) { send_queue = item ∷ rest }))
            (OsCall.wsa_send p (w.session p).accept_socket (remaining item))
  unfolding on_send_completed
  completed_more item rest e posted = rw (==_ne n 0 (omega arith), e) (ground arith)

  completed_all :
      acknowledge (w.session p).send_queue n ≡ ([], false)
      → on_send_completed os w p n
        ≡ set_session w p (record (w.session p) { send_queue = []; is_sending = false })
  unfolding on_send_completed
  completed_all e = rw (==_ne n 0 (omega arith), e)

  completed_cases :
      (q : List SendItem) (more : Bool)
      → acknowledge (w.session p).send_queue n ≡ (q, more)
      → Acknowledged (w.session p).send_queue n (q, more)
      → (w.session p).is_sending ≡ true
      → os.send_posted w.calls ≡ true
      → let w' = on_send_completed os w p n in
        CanSend (w'.session p)
        × (pending (w'.session p).send_queue ≡ drop n (pending (w.session p).send_queue))
        × (w'.calls ≡ posts p (w.session p).accept_socket (w'.session p).send_queue ++ w.calls)
  completed_cases [] true e a sending posted = absurd (a.more refl refl)
  completed_cases (item ∷ rest) true e a sending posted =
      rw (completed_more item rest e posted, ==_refl p, sending)
        (record { open_items = a.still_open; idle = λ h. cc; busy = λ h k. cc }, a.dropped, refl)
  completed_cases [] false e a sending posted =
      rw (completed_all e, ==_refl p)
        (record { open_items = tt; idle = λ h. refl; busy = λ h. cc }, a.dropped, refl)
  completed_cases (item ∷ rest) false e a sending posted = cc (a.nothing refl)

  -- A completion of `n` bytes, at least one and at most what is left of the front item of a
  -- sending session with a well-formed send state, when Winsock accepts the post, takes exactly
  -- these off what is to be sent, keeps the state well formed, and posts the next front, if there
  -- is one.
  pub on_send_completed_lem :
      (item : SendItem) (rest : List SendItem)
      → CanSend (w.session p)
      → (w.session p).send_queue ≡ item ∷ rest
      → (w.session p).is_sending ≡ true
      → n ≤ length (remaining item)
      → os.send_posted w.calls ≡ true
      → let w' = on_send_completed os w p n in
        CanSend (w'.session p)
        × (pending (w'.session p).send_queue ≡ drop n (pending (w.session p).send_queue))
        × (w'.calls ≡ posts p (w.session p).accept_socket (w'.session p).send_queue ++ w.calls)
  on_send_completed_lem item rest c e sending within posted =
      completed_cases _ _ refl
        (rw e (acknowledge-Acknowledged item rest n (rw e at c.open_items) within)) sending posted
