-- ===== src/Servers/Tests.antt =====
-- A game server on a machine where everything succeeds, and two login packets that come to it.
use iocpserver.Prelude.{
  ℕ, ◌≡◌, refl, true, false, Bool, none, some, List, [], ◌∷◌, ◌++◌, length, take, drop, slice,
  arith,
}
use iocpserver.Prelude.Int.{pos}
use iocpserver.RingBuffer.{RingBuffer, make}
use iocpserver.RingBuffer.Contents.{contents}
use iocpserver.World.{World, Task, SessionType, SessionClass, invalid_socket}
use iocpserver.Packet.Structs.{field, cp_login}
use iocpserver.Packet.Header.{header}
use iocpserver.Receive.Verdicts.{ring_of}
use iocpserver.Receive.Pieces.{Served}
use iocpserver.DbConfig.{driver, server}
use iocpserver.Database.{Calls, OdbcCall, ConnPool}
use iocpserver.Database.Manager.Turn.{Checks}
use iocpserver.Servers.{Environment, Process, start_game, game_main}
use iocpserver.Servers.Exits.{Exit, game_main-Exit}
use iocpserver.Servers.Logins.{logins, checks, logins_arrive}

abbrev machine : Environment
machine = record {
  host = record { started = λ t. true; new_port = λ t. some 3 };
  os = record {
    recv_posted = λ cs. true;
    send_posted = λ cs. true;
    new_socket = λ cs. some (length cs);
    accept_posted = λ cs. true;
    registered = λ cs. true;
  };
  setup = record { bound = λ port cs. true; listening = λ cs. true; accept_ex_loaded = λ cs. true };
  odbc = record { succeeds = λ t c. true; handle = λ t c. length t };
  ini = some (record {
    conn = driver ++ server;
    pool_size = pos 2;
    health_sec = pos 10;
    query_timeout_sec = pos 5;
  });
  get_int = λ key. pos 7777;
  port_keys = 67 ∷ 108 ∷ 105 ∷ 101 ∷ 110 ∷ 116 ∷ 0 ∷ 0 ∷ [];
  processors = 2;
  beyond = [];
  others = λ w. w;
  db_threads_end = true;
}

abbrev empty_ring : RingBuffer
empty_ring = make 8192 0 0

abbrev at_start : World
at_start = record {
  session = λ p. record {
    dynamic_type = SessionClass.client_session;
    accept_socket = 5;
    listen_socket = invalid_socket;
    recv_buffer = empty_ring;
    session_type = SessionType.client;
    send_queue = [];
    is_sending = false;
    session_id = 7;
    on_disconnect = none;
    disconnected = false;
  };
  next_object = 0;
  manager = record { next_token = 1; active = []; pool = λ t. none; factories = λ t. none };
  jobs = [];
  tasks = [];
  game = record {
    units = λ u. record { session_id = 0; unique = pos 0; name = [] };
    next_unit = 0;
    users = [];
    empty_units = [];
    session_id_to_pc = [];
  };
  is_running = false;
  calls = [];
}

abbrev fresh : Process
fresh = record {
  core = record { iocp_handle = none; workers = 0; calls = [] };
  world = at_start;
  handlers = [];
  listeners = [];
  db = none;
  odbc_calls = [];
  game_running = false;
  console = (97 ∷ []) ∷ (113 ∷ 117 ∷ 105 ∷ 116 ∷ []) ∷ [];
}

game_main-Exit_example : Exit machine fresh (game_main machine fresh)
game_main-Exit_example =
    game_main-Exit machine (λ w. refl) fresh
      (record { no_port = refl; no_calls = refl; no_db = refl })

abbrev alice : List (List ℕ × List ℕ)
alice = (97 ∷ [], 98 ∷ []) ∷ []

-- The login packet, cut in its header.
abbrev two_pieces : List (List ℕ)
two_pieces = take 3 (cp_login (97 ∷ []) (98 ∷ [])) ∷ drop 3 (cp_login (97 ∷ []) (98 ∷ [])) ∷ []

logins_arrive_example :
    (last : World) × Served machine.os
      (start_game machine fresh).handlers
      8192
      0
      two_pieces
      at_start
      (logins alice)
      last
    × (contents (ring_of last 0) ≡ [])
    × (last.tasks ≡ checks 7 (logins alice))
unfolding make contents slice cp_login header field
logins_arrive_example =
    logins_arrive machine 8192 fresh 0 two_pieces at_start alice refl
      (record { valid = omega arith; straight = omega arith }) (omega arith, (omega arith, tt)) refl
      refl (omega arith) (omega arith)

-- The driver refuses to prepare a statement.
abbrev refuses : Calls → OdbcCall → Bool
refuses t (OdbcCall.prepare st text) = false
refuses t c = true

abbrev failing : Checks
failing = record {
  odbc = record { succeeds = refuses; handle = λ t c. length t };
  call_text = [];
  to_wide = λ text. text;
  written = λ t. pos 9;
  stale = λ packet. packet;
}

abbrev one_login : World
one_login = record at_start { tasks = Task.check_account 7 (cp_login (97 ∷ []) (98 ∷ [])) ∷ [] }

abbrev one_conn : ConnPool
one_conn = record { pool = record { handle = 4; connected = true } ∷ []; free = 0 ∷ [] }
