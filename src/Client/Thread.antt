-- ===== src/Client/Thread.antt =====
-- TestClient/main.cpp: the state that its two threads share, the receive thread, and what the main
-- thread sends. The console's texts are their UTF-8 bytes.
use iocpserver.Prelude.{
  same_text, ℕ, Bool, true, false, not, ◌&&◌, Option, none, some, List, [], ◌∷◌, ◌++◌, length, drop,
  slice, leb, ◌==◌, if◌then◌else◌, ◌>>=◌, take,
}
use iocpserver.Packet.{sm_login, sm_chat, size_sp_login, size_sp_chat}
use iocpserver.Packet.Header.{header_size, header_id}
use iocpserver.Packet.Structs.{value_of, cp_login, cp_chat}
use iocpserver.Client.{read_one_packet}

-- What is printed.
pub data Line : Type 0 where
  closed : Line
  login_failed : Line
  login_ok : ℕ → List ℕ → List ℕ → Line
  chat_me chat_other : List ℕ → List ℕ → Line
  other_packet : ℕ → ℕ → Line

pub record Client : Type 0 where
  pub running : Bool
  pub logged_in : Bool
  pub unique : ℕ
  pub lines : List Line
  pub sent : List ℕ

-- A text in a packet, as a pointer to it; `none` reads past the packet.
unfoldable pub text_of : List ℕ → Option (List ℕ)
text_of [] = none
text_of (b ∷ bs) =
    let more = text_of bs >>= (λ text. some (b ∷ text)) in if b == 0 then some [] else more

abbrev pub show : Line → Client → Client
show line c = record c { lines = c.lines ++ (line ∷ []) }

-- The two packets that are read by their fields; `false` ends the thread.
unfoldable pub on_login : List ℕ → Client → Option (Bool × Client)
unfolding text_of
on_login bytes c =
    let unique = value_of (slice bytes 8 8) in
    if value_of (slice bytes 4 4) == 0
    then text_of (drop 16 bytes) >>= (λ id. text_of (drop 316 bytes) >>= (λ pw.
      some (true, show (login_ok unique id pw) (record c { logged_in = true; unique = unique }))))
    else some (false, show login_failed c)

unfoldable pub on_chat : List ℕ → Client → Option (Bool × Client)
unfolding text_of
on_chat bytes c = text_of (drop 12 bytes) >>= (λ name. text_of (drop 312 bytes) >>= (λ chat. some (
  true,
  show (if value_of (slice bytes 4 8) == c.unique then chat_me name chat else chat_other name chat)
      c,
)))

unfoldable pub on_packet : List ℕ → Client → Option (Bool × Client)
unfolding on_login on_chat
on_packet bytes c =
    if (header_id bytes == sm_login) && leb size_sp_login (length bytes)
    then on_login bytes c
    else if (header_id bytes == sm_chat) && leb size_sp_chat (length bytes)
    then on_chat bytes c
    else some (true, show (other_packet (header_id bytes) (header_size bytes)) c)

unfoldable pub handle_read :
    Option (List ℕ × List (List ℕ)) → Client → Option (Bool × Client × List (List ℕ))
unfolding on_packet
handle_read none c = some (false, show closed (record c { running = false }), [])
handle_read (some (bytes, left)) c = on_packet bytes c >>= (λ r. some (r.0, r.1, left))

-- One round of the receive thread, on what the socket gives.
unfoldable pub receive_round : List (List ℕ) → Client → Option (Bool × Client × List (List ℕ))
unfolding handle_read
receive_round pieces c =
    if c.running then handle_read (read_one_packet pieces) c else some (false, c, pieces)

-- The main thread goes on waiting for the login.
unfoldable pub waits : Client → Bool
waits c = c.running && not c.logged_in

-- send() of a packet, of which `taken` bytes are taken at once; `none` is SOCKET_ERROR. The rest is
-- not sent again.
unfoldable pub send_once : Option ℕ → List ℕ → Client → Client
send_once none bytes c = record c { running = false }
send_once (some taken) bytes c = record c { sent = c.sent ++ take taken bytes }

-- The login. strncpy leaves the last byte of a field zero.
unfoldable pub send_login : Option ℕ → List ℕ → List ℕ → Client → Client
unfolding send_once
send_login taken id pw c =
    if c.running then send_once taken (cp_login (take 299 id) (take 299 pw)) c else c

unfoldable pub on_line : List ℕ → Option ℕ → Option (List ℕ) → Client → Client
unfolding send_once
on_line quit taken none c = record c { running = false }
on_line quit taken (some line) c =
    if same_text line quit
    then record c { running = false }
    else send_once taken (cp_chat (take 999 line)) c

-- A round of ChatLoop_LineMode; `none` is the end of the input, and "/quit" is a text.
unfoldable pub chat_line : List ℕ → Option ℕ → Option (List ℕ) → Client → Client
unfolding on_line
chat_line quit taken line c = if c.running then on_line quit taken line c else c
