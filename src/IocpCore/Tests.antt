-- ===== src/IocpCore/Tests.antt =====
-- Completions on a server whose Winsock gives a socket whenever it is asked.
use iocpserver.Prelude.{ℕ, ◌+◌, ◌≡◌, ◌≢◌, refl, drop, true, false, none, some, [], ◌∷◌, ◌++◌, arith}
use iocpserver.Prelude.Int.{pos}
use iocpserver.RingBuffer.{make}
use iocpserver.World.{World, SessionType, SessionClass, Game, Os, invalid_socket}
use iocpserver.Receive.{done}
use iocpserver.Listener.{start_session}
use iocpserver.Listener.Accepts.{accepts, Started, start_session-Started}
use iocpserver.IocpCore.{IocpContext, completed, ended, handle, take_each, shut_down}
use iocpserver.IocpCore.Worker.{handle_accept_lem, shut_down_lem}

abbrev no_game : Game
no_game = record {
  units = λ u. record { session_id = 0; unique = pos 0; name = [] };
  next_unit = 0;
  users = [];
  empty_units = [];
  session_id_to_pc = [];
}

abbrev kind_os : Os
kind_os = record {
  recv_posted = λ cs. true;
  send_posted = λ cs. true;
  new_socket = λ cs. some 9;
  accept_posted = λ cs. true;
  registered = λ cs. true;
}

abbrev start : World
start = record {
  session = λ p. record {
    dynamic_type = SessionClass.server_session;
    accept_socket = 5;
    listen_socket = invalid_socket;
    recv_buffer = make 16 0 0;
    session_type = SessionType.game;
    send_queue = [];
    is_sending = false;
    session_id = 7;
    on_disconnect = none;
    disconnected = false;
  };
  next_object = 1;
  manager = record {
    next_token = 8;
    active = (7, 0) ∷ [];
    pool = λ t. none;
    factories = λ t. none;
  };
  jobs = [];
  tasks = [];
  game = no_game;
  is_running = true;
  calls = [];
}

handle_accept_example :
    (w' : World) × (handle kind_os [] 1 start
        (completed false 3 (IocpContext.accept_ctx 4 SessionType.client) 0)
      ≡ done w')
    × (accepts kind_os 3 SessionType.client w'.calls
        ≡ accepts kind_os 3 SessionType.client start.calls + 1)
    × ((other : ℕ) (kind : SessionType)
        → other ≢ 3
        → accepts kind_os other kind w'.calls ≡ accepts kind_os other kind start.calls)
handle_accept_example =
    handle_accept_lem kind_os [] 1 (λ cs. (9, refl)) (λ cs. refl) start false 3 4 SessionType.client
      0

-- Three of eight workers wait for completions, and one is in the port.
shut_down_example :
    let (posted, w') = shut_down 8 start in
    let port = (completed true 0 (IocpContext.send_ctx 0) 5 ∷ []) ++ posted in
    (take_each kind_os [] 1 3 w' port ≡ ended w' (drop 3 port)) × (shut_down 8 w' ≡ ([], w'))
shut_down_example =
    shut_down_lem kind_os [] 1 8 3 start (completed true 0 (IocpContext.send_ctx 0) 5 ∷ []) refl
      (omega arith)

start_session-Started_example : Started start 3 4 0 (start_session kind_os start 3 4 0)
start_session-Started_example = start_session-Started kind_os start 3 4 0 (λ e. omega (arith, e))
