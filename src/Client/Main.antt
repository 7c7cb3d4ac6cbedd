-- ===== src/Client/Main.antt =====
-- TestClient/main.cpp: `main`, from the socket to its end. The receive thread runs beside it: `during`
-- is what that thread does to the state that they share before the main thread's next look at it.
pub mod Ends
pub mod Refused
use iocpserver.Prelude.{
  ℕ, zero, suc, ◌+◌, ◌&&◌, Bool, true, false, Option, none, some, List, [], ◌∷◌, if◌then◌else◌,
}
use iocpserver.Prelude.Int.{ℤ, pos, negsuc}
use iocpserver.Client.Thread.{Client, waits, send_login, chat_line}

pub data ClientCall : Type 0 where
  wsa_startup : Bool → ClientCall
  wsa_cleanup : ClientCall
  opened set_no_delay shut_both closesocket : ℕ → ClientCall
  connect : ℕ → ℕ → ClientCall

-- Winsock, the console and the receive thread. A send is as in Client/Thread; a line that is
-- missing is the end of the input.
pub record Surroundings : Type 0 where
  pub started : Bool
  pub new_socket : Option ℕ
  pub connected : Bool
  pub id_line : Option (List ℕ)
  pub pw_line : Option (List ℕ)
  pub login_taken : Option ℕ
  pub chat : List (Option ℕ × List ℕ)
  pub during : ℕ → Client → Client

-- `main` returns a value, after these calls; or it waits for the login still.
pub data ClientEnd : Type 0 where
  returns : ℤ → List ClientCall → Client → ClientEnd
  still_waits : ClientEnd

-- "/quit"
abbrev pub quit : List ℕ
quit = 47 ∷ 113 ∷ 117 ∷ 105 ∷ 116 ∷ []

abbrev pub stop_running : Client → Client
stop_running c = record c { running = false }

abbrev pub first_client : Client
first_client = record { running = true; logged_in = false; unique = 0; lines = []; sent = [] }

module _ (s : Surroundings) where
  unfoldable pub read_pw : Option (List ℕ) → List ℕ → Client → Client
  unfolding send_login
  read_pw none id c = if c.running then stop_running c else c
  read_pw (some pw) id c = send_login s.login_taken id pw c

  -- The two lines and the packet. Nothing is read for the password once the flag is clear.
  unfoldable pub ask_login : Option (List ℕ) → Client → Client
  unfolding read_pw
  ask_login none c = stop_running c
  ask_login (some id) c = read_pw s.pw_line id (s.during 0 c)

  -- The loop that waits for the login, for so many looks at most.
  unfoldable pub wait_login : ℕ → ℕ → Client → Option Client
  unfolding waits
  wait_login zero k c = none
  wait_login (suc looks) k c =
      let rest = wait_login looks (k + 1) (s.during k c) in if waits c then rest else some c

  -- ChatLoop_LineMode over the lines that are typed, and the end of the input behind them.
  unfoldable pub chat_loop : ℕ → List (Option ℕ × List ℕ) → Client → Client
  unfolding chat_line
  chat_loop k [] c = chat_line quit none none c
  chat_loop k ((taken, line) ∷ lines) c =
      chat_loop (k + 1) lines (chat_line quit taken (some line) (s.during k c))

  -- The chat, if there is one, and the end.
  unfoldable finish : ℕ → ℕ → List ClientCall → Option Client → ClientEnd
  unfolding chat_loop
  finish looks sock t none = still_waits
  finish looks sock t (some c) =
      let c' = if c.running && c.logged_in then chat_loop (looks + 1) s.chat c else c in
      returns (pos 0) (wsa_cleanup ∷ closesocket sock ∷ shut_both sock ∷ t) (stop_running c')

  unfoldable pub with_connection : ℕ → ℕ → List ClientCall → ClientEnd
  unfolding ask_login wait_login finish
  with_connection looks sock t =
      finish looks sock t (wait_login looks 1 (ask_login s.id_line first_client))

  unfoldable on_socket : ℕ → Option ℕ → List ClientCall → ClientEnd
  unfolding with_connection
  on_socket looks none t = returns (negsuc 0) (wsa_cleanup ∷ t) first_client
  on_socket looks (some sock) t =
      let t' = connect sock 14002 ∷ set_no_delay sock ∷ opened sock ∷ t in
      if s.connected
      then with_connection looks sock t'
      else returns (negsuc 0) (wsa_cleanup ∷ closesocket sock ∷ t') first_client

  -- `main`; the loop that waits looks at most `looks` times.
  unfoldable pub client_main : ℕ → ClientEnd
  unfolding on_socket
  client_main looks =
      if s.started
      then on_socket looks s.new_socket (wsa_startup true ∷ [])
      else returns (negsuc 0) (wsa_startup false ∷ []) first_client
