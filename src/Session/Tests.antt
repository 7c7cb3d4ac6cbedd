-- ===== src/Session/Tests.antt =====
-- Sessions at work: a queue of two packets, a partial completion, and a disconnect.
use iocpserver.Prelude.{
  ℕ, ◌≤◌, ◌≡◌, refl, true, false, none, some, List, [], ◌∷◌, ◌++◌, length, drop, arith,
  if◌then◌else◌,
}
use iocpserver.RingBuffer.{make}
use iocpserver.Prelude.Int.{pos}
use iocpserver.World.{
  Game, World, Session, SessionType, SessionClass, DisconnectCb, OsCall, Os, invalid_socket,
}
use iocpserver.SessionManager.{get_empty_session}
use iocpserver.Session.{disconnect, on_accepted, send_packet, on_send_completed}
use iocpserver.Session.Reuse.{reuse_stuck}
use iocpserver.Session.Broadcast.{broadcast_active, AllGot, IsFresh, broadcast_active_lem}
use iocpserver.Session.Sending.{CanSend, pending, send_packet_lem}
use iocpserver.Session.Stream.{
  Event, sends, completes, ArePossible, step, run, given, acked, run_lem,
}
use iocpserver.Session.Lifecycle.{Disconnected, disconnect-Disconnected}

abbrev no_game : Game
no_game = record {
  units = λ u. record { session_id = 0; unique = pos 0; name = [] };
  next_unit = 0;
  users = [];
  empty_units = [];
  session_id_to_pc = [];
}

abbrev kind_os : Os
kind_os = record {
  recv_posted = λ cs. true;
  send_posted = λ cs. true;
  new_socket = λ cs. some 9;
  accept_posted = λ cs. true;
  registered = λ cs. true;
}

abbrev one : Session
one = record {
  dynamic_type = SessionClass.client_session;
  accept_socket = 5;
  listen_socket = invalid_socket;
  recv_buffer = make 16 0 0;
  session_type = SessionType.client;
  send_queue = [];
  is_sending = false;
  session_id = 7;
  on_disconnect = some DisconnectCb.post_logout;
  disconnected = false;
}

abbrev start : World
start = record {
  session = λ p. one;
  next_object = 1;
  manager = record {
    next_token = 8;
    active = (7, 0) ∷ [];
    pool = λ t. none;
    factories = λ t. none;
  };
  jobs = [];
  tasks = [];
  game = no_game;
  is_running = true;
  calls = [];
}

one-CanSend : CanSend one
one-CanSend = record { open_items = tt; idle = λ h. refl; busy = λ h. cc }

abbrev sending : World
sending = record start {
  session = λ p. record one {
    send_queue = record { buf = 1 ∷ 2 ∷ 3 ∷ []; off = 1 } ∷ [];
    is_sending = true;
  };
}

sending-CanSend : CanSend (sending.session 0)
sending-CanSend = record { open_items = (omega arith, tt); idle = λ h. cc; busy = λ h e. cc }

abbrev events : List Event
events = sends (1 ∷ 2 ∷ 3 ∷ []) ∷ sends (4 ∷ []) ∷ completes 2 ∷ completes 1 ∷ []

events-ArePossible : ArePossible kind_os 0 start events
unfolding step send_packet on_send_completed
events-ArePossible = (
  (omega arith, refl),
  (
    (omega arith, refl),
    ((omega arith, refl, omega arith, refl), ((omega arith, refl, omega arith, refl), tt)),
  ),
)

run_example :
    let all = pending (start.session 0).send_queue ++ given events in
    CanSend ((run kind_os 0 start events).session 0)
    × (acked events ≤ length all)
    × (pending ((run kind_os 0 start events).session 0).send_queue ≡ drop (acked events) all)
run_example = run_lem kind_os 0 start events one-CanSend events-ArePossible

send_packet_example :
    let w' = send_packet kind_os sending 0 (9 ∷ []) in
    CanSend (w'.session 0)
    × (pending (w'.session 0).send_queue ≡ pending (sending.session 0).send_queue ++ (9 ∷ []))
    × (w'.calls ≡ (
        if (sending.session 0).is_sending
        then sending.calls
        else OsCall.wsa_send 0 (sending.session 0).accept_socket (9 ∷ []) ∷ sending.calls))
send_packet_example = send_packet_lem kind_os sending 0 (9 ∷ []) sending-CanSend (omega arith) refl

disconnect_example : Disconnected start 0 (disconnect start 0)
disconnect_example = disconnect-Disconnected start 0 refl tt

reuse_example :
    let (q, w₁) = get_empty_session (disconnect sending 0) SessionType.client in
    let w₂ = on_accepted w₁ 0 in
    let w₃ = send_packet kind_os w₂ 0 (9 ∷ []) in
    (q ≡ some 0)
    × (w₃.calls ≡ w₂.calls)
    × ((w₃.session 0).send_queue
        ≡ (sending.session 0).send_queue ++ (record { buf = 9 ∷ []; off = 0 } ∷ []))
reuse_example = reuse_stuck kind_os sending 0 (9 ∷ []) refl refl

abbrev two_active : World
two_active = record start { manager = record (start.manager) { active = (7, 0) ∷ (8, 1) ∷ [] } }

broadcast_example :
    AllGot kind_os (9 ∷ []) two_active (broadcast_active kind_os (9 ∷ []) two_active) (0 ∷ 1 ∷ [])
    × ((q : ℕ)
        → IsFresh kind_os (9 ∷ []) q (0 ∷ 1 ∷ [])
        → (broadcast_active kind_os (9 ∷ []) two_active).session q ≡ two_active.session q)
broadcast_example =
    broadcast_active_lem kind_os (9 ∷ []) (λ cs. refl) two_active (omega arith)
      ((omega arith, tt), (tt, tt)) (one-CanSend, (one-CanSend, tt))
