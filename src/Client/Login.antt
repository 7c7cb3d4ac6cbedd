-- ===== src/Client/Login.antt =====
-- The answer to a login, from the server's packet to the state of the client.
use iocpserver.Prelude.{
  ℕ, suc, ◌-◌, ◌^◌, ◌<◌, ◌≡◌, ◌≢◌, refl, sym, ap, ap₂, ◌∙◌, Bool, true, false, Option, some, List,
  [], ◌∷◌, ◌++◌, length, take, drop, slice, replicate, leb, ◌==◌, if◌then◌else◌, ◌>>=◌, arith,
  append-nil, append_assoc, take_all, drop-append_ge, le→leb, ==_ne,
}
use iocpserver.Packet.{sm_login, size_sp_login}
use iocpserver.Packet.Header.{header, header_size}
use iocpserver.Packet.Structs.{
  value_of, field, le_bytes, sp_login, length-field, IsSent, structs-IsSent,
}
use iocpserver.Receive.Packets.{IsPacket}
use iocpserver.Client.{read_one_packet}
use iocpserver.Client.Packets.{AreFull, joined, read_one_packet_lem}
use iocpserver.Client.Thread.{
  login_ok, login_failed, Client, text_of, show, on_login, on_packet, handle_read, receive_round,
}

-- A text without a zero byte, that leaves room for one.
unfoldable pub IsText : List ℕ → Type 0
IsText [] = Unit {0}
IsText (b ∷ bs) = (0 < b) × IsText bs

text_of-zero : (text rest : List ℕ) → IsText text → text_of (text ++ (0 ∷ rest)) ≡ some text
unfolding text_of IsText
text_of-zero [] rest h = refl
text_of-zero (b ∷ bs) rest h = rw (==_ne b 0 (positive h.0), text_of-zero bs rest h.1) refl
  where
    positive : 0 < b → b ≢ 0
    positive k = omega arith

-- A text that was copied into a field is read back.
text_of-field :
    (n : ℕ) (text rest : List ℕ)
    → IsText text
    → length text < n
    → text_of (field n text ++ rest) ≡ some text
unfolding field
text_of-field n text rest h k =
    ap text_of (
      append_assoc (take n text) (replicate (n - length text) 0) rest
      ∙ ap₂ ◌++◌ (take_all n text (omega arith)) (ap (λ j. replicate j 0 ++ rest) more))
    ∙ text_of-zero text (replicate (n - length text - 1) 0 ++ rest) h
  where
    more : n - length text ≡ suc (n - length text - 1)
    more = omega arith

module _ (result unique : ℕ) (id pw : List ℕ) where
  packet : List ℕ
  packet = sp_login result unique id pw

  result_of : result < 2 ^ 32 → value_of (slice packet 4 4) ≡ result
  unfolding packet sp_login header le_bytes slice
  result_of h = omega arith

  unique_of : unique < 2 ^ 64 → value_of (slice packet 8 8) ≡ unique
  unfolding packet sp_login header le_bytes slice
  unique_of h = omega arith

  texts : drop 16 packet ≡ field 300 id ++ field 300 pw
  unfolding packet sp_login header le_bytes
  texts = refl

  second_text : drop 316 packet ≡ field 300 pw
  unfolding packet sp_login header le_bytes
  second_text =
      drop-append_ge 300 0 (field 300 id) (field 300 pw) (omega (arith, length-field 300 id))

  sent : IsSent sm_login packet
  unfolding packet
  sent = (structs-IsSent [] id pw result unique).3

  sent_size : header_size packet ≡ size_sp_login
  unfolding packet sp_login header header_size
  sent_size = refl

  packet-IsPacket : IsPacket packet
  packet-IsPacket = record { states = sent.0; not_short = sent.2; not_long = sent.3 }

  whole : leb size_sp_login (length packet) ≡ true
  whole = le→leb size_sp_login (length packet) (omega (arith, sent.0, sent_size))

  -- What the receive thread makes of it, on result 0 and on any other.
  abbrev pub shown : Bool → Client → Bool × Client
  shown true c =
      (true, show (login_ok unique id pw) (record c { logged_in = true; unique = unique }))
  shown false c = (false, show login_failed c)

  on_login-sent :
      (c : Client)
      → result < 2 ^ 32
      → unique < 2 ^ 64
      → IsText id
      → length id < 300
      → IsText pw
      → length pw < 300
      → on_login packet c ≡ some (shown (result == 0) c)
  unfolding on_login
  on_login-sent c h k id_text id_short pw_text pw_short =
      rw (result_of h, unique_of k, first, second) (by_result (result == 0))
    where
      first : text_of (drop 16 packet) ≡ some id
      first = ap text_of texts ∙ text_of-field 300 id (field 300 pw) id_text id_short

      second : text_of (drop 316 packet) ≡ some pw
      second =
          ap text_of (second_text ∙ sym (append-nil (field 300 pw)))
          ∙ text_of-field 300 pw [] pw_text pw_short

      by_result :
          (b : Bool) → (if b then some (shown true c) else some (shown false c)) ≡ some (shown b c)
      by_result true = refl
      by_result false = refl

  on_packet-sent : (c : Client) → on_packet packet c ≡ on_login packet c
  unfolding on_packet
  on_packet-sent c = rw (sent.1, whole) refl

  -- The server's answer to a login, with texts that leave room for their end, whatever follows it
  -- and cut into pieces in any way: the client's receive thread reads it and nothing behind it. On
  -- result 0 the client is logged in under the number and the texts of the answer; on any other the
  -- thread ends, with the client as it was but for what is printed.
  pub login_received :
      (pieces : List (List ℕ)) (rest : List ℕ) (c : Client)
      → AreFull pieces
      → joined pieces ≡ sp_login result unique id pw ++ rest
      → c.running ≡ true
      → result < 2 ^ 32
      → unique < 2 ^ 64
      → IsText id
      → length id < 300
      → IsText pw
      → length pw < 300
      → (left : List (List ℕ)) × (receive_round pieces c
          ≡ some ((shown (result == 0) c).0, (shown (result == 0) c).1, left))
        × (joined left ≡ rest)
  unfolding packet receive_round handle_read
  login_received pieces rest c full cut on h k id_text id_short pw_text pw_short =
      let (left, got, full_left, behind) =
        read_one_packet_lem pieces (sp_login result unique id pw) rest full packet-IsPacket cut in
      (left, handled got, behind)
    where
      handled :
          {left : List (List ℕ)}
          → read_one_packet pieces ≡ some (sp_login result unique id pw, left)
          → receive_round pieces c
            ≡ some ((shown (result == 0) c).0, (shown (result == 0) c).1, left)
      handled {left} got =
          ap (λ b. if b then handle_read (read_one_packet pieces) c else some (false, c, pieces)) on
          ∙ ap (λ o. handle_read o c) got
          ∙ ap after (on_packet-sent c ∙ on_login-sent c h k id_text id_short pw_text pw_short)
        where
          after : Option (Bool × Client) → Option (Bool × Client × List (List ℕ))
          after r = r >>= (λ q. some (q.0, q.1, left))
