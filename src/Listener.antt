-- ===== src/Listener.antt =====
-- ServerCoreLibrary/Listener.h, Listener.cpp and NetworkManager.cpp: listening sockets, the accepts
-- posted on them, and what a completed accept does.
pub mod Accepts
use iocpserver.Prelude.{
  ℕ, zero, suc, ◌%◌, ◌^◌, Bool, true, false, Option, none, some, List, [], ◌∷◌, ◌++◌, ◌==◌,
  if◌then◌else◌,
}
use iocpserver.World.{
  World, Session, SessionType, value, OsCall, Os, invalid_socket, set_session, call,
}
use iocpserver.SessionManager.{get_empty_session, release}
use iocpserver.Session.{on_accepted, recv}

-- What Winsock answers while a listening socket is made ready, as functions of the calls before.
pub record Setup : Type 0 where
  pub bound : ℕ → List OsCall → Bool
  pub listening : List OsCall → Bool
  pub accept_ex_loaded : List OsCall → Bool

-- ListnerInfo, with the one member of its Listener that later calls use.
pub record ListenerInfo : Type 0 where
  pub session_type : SessionType
  pub listen_socket : ℕ

-- IocpCore::RegisterSocket, of a session's socket.
unfoldable pub register_socket : Os → World → ℕ → ℕ → Bool × World
register_socket os w socket key =
    (os.registered w.calls, call w (OsCall.register_socket socket key))

unfoldable pub refuse : World → ℕ → Option ℕ × World
refuse w socket = (none, call w (OsCall.closesocket socket))

module _ (os : Os) where
  unfoldable pub register_listener : World → ℕ → Option ℕ × World
  unfolding refuse
  register_listener w socket =
      let w₁ = call w (OsCall.register_listener socket) in
      if os.registered w.calls then (some socket, w₁) else refuse w₁ socket

  -- The steps of `Init` on its socket. A failure to load AcceptEx leaves the socket open.
  unfoldable pub make_ready : Setup → ℕ → World → ℕ → Option ℕ × World
  unfolding refuse register_listener
  make_ready setup port w socket =
      if setup.bound port w.calls
      then if setup.listening w.calls
        then if setup.accept_ex_loaded w.calls then register_listener w socket else (none, w)
        else refuse w socket
      else refuse w socket

  init_socket : Setup → ℕ → World → Option ℕ → Option ℕ × World
  unfolding make_ready refuse
  init_socket setup port w none = refuse w invalid_socket
  init_socket setup port w (some socket) = make_ready setup port w socket

  -- Listener::Init: the listening socket, or `none`.
  unfoldable pub init_listener : Setup → ℕ → World → Option ℕ × World
  unfolding init_socket
  init_listener setup port w =
      init_socket setup port (call w OsCall.wsa_socket) (os.new_socket w.calls)

  unfoldable pub post_on : World → ℕ → SessionType → Option ℕ → Bool × World
  post_on w l type none = (false, w)
  post_on w l type (some socket) =
      let w₁ = call w (OsCall.accept_ex l socket type) in
      if os.accept_posted w.calls then (true, w₁) else (false, call w₁ (OsCall.closesocket socket))

  -- Listener::PostAccept, on the listening socket `l`.
  unfoldable pub post_accept : World → ℕ → SessionType → Bool × World
  unfolding post_on
  post_accept w l type = post_on (call w OsCall.wsa_socket) l type (os.new_socket w.calls)

  -- The session `p` starts on the accepted socket.
  unfoldable pub start_session : World → ℕ → ℕ → ℕ → World
  unfolding on_accepted recv
  start_session w l accepted p =
      let w₁ =
        set_session w p (record (w.session p) { accept_socket = accepted; listen_socket = l }) in
      (recv os (on_accepted w₁ p) p).1

  -- All but the last `PostAccept`, which every branch ends with.
  unfoldable pub accept_session : World → ℕ → ℕ → SessionType → Option ℕ → World
  unfolding register_socket start_session release
  accept_session w l accepted type none = call w (OsCall.closesocket accepted)
  accept_session w l accepted type (some p) =
      let (ok, w₁) = register_socket os w accepted p in
      if ok
      then start_session w₁ l accepted p
      else release (call w₁ (OsCall.closesocket accepted)) type p

  unfoldable pub on_accept_completed : World → ℕ → ℕ → SessionType → World
  unfolding accept_session post_accept
  on_accept_completed w l accepted type =
      let w₁ = call w (OsCall.update_accept_context accepted l) in
      let (q, w₂) = get_empty_session w₁ type in
      (post_accept (accept_session w₂ l accepted type q) l type).1

  unfoldable pub post_accepts : ℕ → World → ℕ → SessionType → World
  unfolding post_accept
  post_accepts zero w l type = w
  post_accepts (suc n) w l type = post_accepts n (post_accept w l type).1 l type

  start_accepting : List ListenerInfo → SessionType → Option ℕ × World → List ListenerInfo × World
  unfolding post_accepts
  start_accepting ls type (none, w) = (ls, w)
  start_accepting ls type (some l, w) =
      (ls ++ (record { session_type = type; listen_socket = l } ∷ []), post_accepts 64 w l type)

  -- NetworkManager::Init: a listener that cannot be made ready is left out.
  unfoldable pub init_network :
      Setup → List ListenerInfo → World → ℕ → SessionType → List ListenerInfo × World
  unfolding start_accepting
  init_network setup ls w port type = start_accepting ls type (init_listener setup port w)

  -- The loops of NetworkManager::InitFromConfig over the ports of one type.
  unfoldable pub init_ports :
      Setup → List ListenerInfo → World → SessionType → List ℕ → List ListenerInfo × World
  unfolding init_network
  init_ports setup ls w type [] = (ls, w)
  init_ports setup ls w type (port ∷ ports) =
      let (ls', w') = init_network setup ls w (port % 2 ^ 16) type in
      init_ports setup ls' w' type ports

  unfoldable pub init_from_config :
      Setup → World → List ℕ → List ℕ → List ℕ → List ListenerInfo × World
  unfolding init_ports
  init_from_config setup w client_ports game_ports gate_ports =
      let (ls₁, w₁) = init_ports setup [] w SessionType.client client_ports in
      let (ls₂, w₂) = init_ports setup ls₁ w₁ SessionType.game game_ports in
      init_ports setup ls₂ w₂ SessionType.gate gate_ports

  -- NetworkManager::AcceptListener
  unfoldable pub accept_listener : List ListenerInfo → World → SessionType → World
  unfolding post_accept
  accept_listener [] w type = w
  accept_listener (l ∷ ls) w type =
      accept_listener ls
        (if value l.session_type == value type then (post_accept w l.listen_socket type).1 else w)
        type
