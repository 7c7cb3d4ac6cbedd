-- ===== src/Client/Tests.antt =====
-- A packet that comes in three pieces, and the answer to a login.
use iocpserver.Prelude.{
  ◌≤◌, append-nil, if◌then◌else◌, ◌==◌, ==_ne, ℕ, ◌≡◌, refl, true, some, List, [], ◌∷◌, arith,
}
use iocpserver.Packet.Structs.{sp_login, structs-IsSent}
use iocpserver.Client.Thread.{Client, waits, send_login, send_once}
use iocpserver.Client.Login.{IsText}
use iocpserver.Client.Main.{Surroundings, still_waits, ask_login, read_pw, client_main}
use iocpserver.Client.Main.Ends.{IsClosed, client_main-IsClosed}
use iocpserver.Client.Main.Refused.{round_of, refused_waits}
use iocpserver.Packet.Header.{header_size}
use iocpserver.Receive.Packets.{IsPacket}
use iocpserver.Client.{read_one_packet}
use iocpserver.Client.Packets.{AreFull, joined, read_one_packet_lem}

abbrev echo : List ℕ
echo = 6 ∷ 0 ∷ 3 ∷ 0 ∷ 72 ∷ 105 ∷ []

echo-IsPacket : IsPacket echo
unfolding header_size
echo-IsPacket = record { states = refl; not_short = omega arith; not_long = omega arith }

abbrev cut : List (List ℕ)
cut = (6 ∷ 0 ∷ 3 ∷ []) ∷ (0 ∷ 72 ∷ []) ∷ (105 ∷ 9 ∷ []) ∷ []

read_one_packet_example :
    (left : List (List ℕ)) × (read_one_packet cut ≡ some (echo, left))
    × AreFull left
    × (joined left ≡ 9 ∷ [])
read_one_packet_example =
    read_one_packet_lem cut echo (9 ∷ []) (omega arith, (omega arith, (omega arith, tt)))
      echo-IsPacket refl

abbrev talks : (ℕ → Client → Client) → Surroundings
talks during = record {
  started = true;
  new_socket = some 3;
  connected = true;
  id_line = some (65 ∷ []);
  pw_line = some (66 ∷ []);
  login_taken = some 604;
  chat = (some 1004, 72 ∷ 105 ∷ []) ∷ [];
  during = during;
}

-- The client is logged in at the third look.
abbrev logs_in : ℕ → Client → Client
logs_in k c = if k == 2 then record c { logged_in = true } else c

client_main-IsClosed_example : IsClosed (client_main (talks logs_in) 5)
unfolding waits ask_login read_pw send_login send_once
client_main-IsClosed_example = client_main-IsClosed (talks logs_in) 2 5 (omega arith) refl

abbrev refusal : List (List ℕ)
refusal = sp_login 9 7 (65 ∷ []) (66 ∷ []) ∷ []

refusal-AreFull : AreFull refusal
refusal-AreFull =
    let (size, id, four, most) = (structs-IsSent [] (65 ∷ []) (66 ∷ []) 9 7).3 in
    (omega (arith, four), tt)

abbrev is_refused : ℕ → Client → Client
is_refused k c = if k == 1 then round_of refusal c else c

is_refused_other : (j : ℕ) (c : Client) → 2 ≤ j → is_refused j c ≡ c
is_refused_other j c h = rw (==_ne j 1 (omega arith))

refused_waits_example : client_main (talks is_refused) 1000 ≡ still_waits
refused_waits_example =
    refused_waits (talks is_refused) 3 604 (65 ∷ []) (66 ∷ []) refusal 9 7 (65 ∷ []) (66 ∷ []) refl
      refl refl refl refl refl refusal-AreFull (append-nil (sp_login 9 7 (65 ∷ []) (66 ∷ [])))
      (omega arith) (omega arith) (omega arith) (unfold IsText in (omega arith, tt)) (omega arith)
      (unfold IsText in (omega arith, tt)) (omega arith) (λ c. refl) (λ c. refl) is_refused_other
      1000
