-- ===== src/Client/Main/Refused.antt =====
-- TestClient's `main` when the server refuses the login.
use iocpserver.Prelude.{
  ℕ, zero, suc, ◌+◌, ◌^◌, ◌≤◌, ◌<◌, ◌≡◌, ◌≢◌, refl, sym, ap, ap₂, subst, take, ◌∙◌, Bool, true,
  Option, none, some, List, [], length, arith, append-nil, ==_ne,
}
use iocpserver.Packet.Structs.{sp_login, cp_login}
use iocpserver.Client.Packets.{AreFull, joined}
use iocpserver.Client.Thread.{
  Client, Line, login_failed, show, waits, receive_round, send_login, send_once,
}
use iocpserver.Client.Login.{IsText, shown, login_received}
use iocpserver.Client.Main.{
  Surroundings, still_waits, first_client, ask_login, read_pw, wait_login, finish, with_connection,
  on_socket, client_main,
}
use iocpserver.Client.Main.Ends.{dialled}

module _ (s : Surroundings) where
  waits_on :
      (looks k : ℕ) (c : Client)
      → waits c ≡ true
      → ((j : ℕ) (c : Client) → k ≤ j → s.during j c ≡ c)
      → wait_login s looks k c ≡ none
  unfolding wait_login
  waits_on zero k c on idle = refl
  waits_on (suc looks) k c on idle = rw on (
      ap (wait_login s looks (k + 1)) (idle k c (omega arith))
      ∙ waits_on looks (k + 1) c on (λ j c h. idle j c (omega arith)))

-- What a round of the receive thread leaves.
abbrev pub round_of : List (List ℕ) → Client → Client
round_of pieces c = elim (receive_round pieces c) [ none ↦ c | some r ↦ r.1 ]

module _ (s : Surroundings) (taken : ℕ) (id_line pw_line : List ℕ)
    (id_read : s.id_line ≡ some id_line) (pw_read : s.pw_line ≡ some pw_line)
    (sent : s.login_taken ≡ some taken) (before : (c : Client) → s.during 0 c ≡ c) where
  login_packet : List ℕ
  login_packet = cp_login (take 299 id_line) (take 299 pw_line)

  -- The client once the login is sent.
  asked : Client
  asked = record first_client { sent = take taken login_packet }

  asks : ask_login s s.id_line first_client ≡ asked
  unfolding asked login_packet
  asks = ap (λ o. ask_login s o first_client) id_read ∙ lines ∙ packet ∙ sends
    where
      lines :
          ask_login s (some id_line) first_client ≡ read_pw s (some pw_line) id_line first_client
      lines = unfold ask_login in ap₂ (λ o c. read_pw s o id_line c) pw_read (before first_client)

      packet :
          read_pw s (some pw_line) id_line first_client
          ≡ send_once (some taken) (cp_login (take 299 id_line) (take 299 pw_line)) first_client
      packet =
          unfold read_pw in
          unfold send_login in
          ap (λ o. send_once o (cp_login (take 299 id_line) (take 299 pw_line)) first_client) sent

      sends :
          send_once (some taken) (cp_login (take 299 id_line) (take 299 pw_line)) first_client
          ≡ record first_client {
            sent = take taken (cp_login (take 299 id_line) (take 299 pw_line));
          }
      sends = unfold send_once in refl

  -- A round that does nothing but print, and then nothing more.
  looks_on :
      (line : Line)
      → s.during 1 asked ≡ show line asked
      → ((j : ℕ) (c : Client) → 2 ≤ j → s.during j c ≡ c)
      → (looks : ℕ) → wait_login s looks 1 asked ≡ none
  unfolding wait_login waits asked
  looks_on line answered idle zero = refl
  looks_on line answered idle (suc looks) =
      ap (wait_login s looks 2) answered
      ∙ waits_on s looks 2 (show line asked) (unfold waits in refl) idle

-- The round of the receive thread that reads a refusal.
round_of-refused :
    (pieces : List (List ℕ)) (result unique : ℕ) (id pw : List ℕ) (c : Client)
    → AreFull pieces
    → joined pieces ≡ sp_login result unique id pw
    → c.running ≡ true
    → result ≢ 0
    → result < 2 ^ 32
    → unique < 2 ^ 64
    → IsText id
    → length id < 300
    → IsText pw
    → length pw < 300
    → round_of pieces c ≡ show login_failed c
round_of-refused pieces result unique id pw c full cut on refused h k it is pt ps =
    let (left, got, rest) =
      login_received result unique id pw pieces [] c full
        (cut ∙ sym (append-nil (sp_login result unique id pw))) on h k it is pt ps in
    ap left_by (
      got
      ∙ ap (λ b. some ((shown result unique id pw b c).0, (shown result unique id pw b c).1, left))
          (==_ne result 0 refused))
  where
    left_by : Option (Bool × Client × List (List ℕ)) → Client
    left_by o = elim o [ none ↦ c | some r ↦ r.1 ]

-- When the server answers the login with a result other than 0, and no other packet, `main` waits
-- for the login however often it looks.
pub refused_waits :
    (s : Surroundings) (sock taken : ℕ) (id_line pw_line : List ℕ) (pieces : List (List ℕ))
    (result unique : ℕ) (id pw : List ℕ)
    → s.started ≡ true
    → s.new_socket ≡ some sock
    → s.connected ≡ true
    → s.id_line ≡ some id_line
    → s.pw_line ≡ some pw_line
    → s.login_taken ≡ some taken
    → AreFull pieces
    → joined pieces ≡ sp_login result unique id pw
    → result ≢ 0
    → result < 2 ^ 32
    → unique < 2 ^ 64
    → IsText id
    → length id < 300
    → IsText pw
    → length pw < 300
    → ((c : Client) → s.during 0 c ≡ c)
    → ((c : Client) → s.during 1 c ≡ round_of pieces c)
    → ((j : ℕ) (c : Client) → 2 ≤ j → s.during j c ≡ c)
    → (looks : ℕ) → client_main s looks ≡ still_waits
unfolding client_main
refused_waits s sock taken id_line pw_line pieces result unique id pw started opened_one connects
      id_read pw_read sent full cut refused small unique_small id_text id_short pw_text pw_short
      before answered idle looks =
    rw (started, opened_one)
      (unfold on_socket in
        rw connects (
          unfold with_connection in
          subst (λ o. finish s looks sock (dialled sock) o ≡ still_waits) (sym none_found)
            (unfold finish in refl)))
  where
    running : (asked s taken id_line pw_line id_read pw_read sent before).running ≡ true
    running = unfold asked in refl

    none_found : wait_login s looks 1 (ask_login s s.id_line first_client) ≡ none
    none_found =
        ap (wait_login s looks 1) (asks s taken id_line pw_line id_read pw_read sent before)
        ∙ looks_on s taken id_line pw_line id_read pw_read sent before login_failed
            (answered (asked s taken id_line pw_line id_read pw_read sent before)
              ∙ round_of-refused pieces result unique id pw
                  (asked s taken id_line pw_line id_read pw_read sent before) full cut running
                  refused small unique_small id_text id_short pw_text pw_short)
            idle looks
