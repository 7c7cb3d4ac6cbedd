-- ===== src/Earlier/Tests.antt =====
-- A session of each library, and a run of two packets.
use iocpserver.Prelude.{◌≡◌, refl, true, false, none, some, List, [], ◌∷◌, arith}
use iocpserver.Prelude.Int.{pos}
use iocpserver.RingBuffer.{make}
use iocpserver.World.{World, SessionType, SessionClass, Os, invalid_socket}
use iocpserver.Earlier.{Core}
use iocpserver.Earlier.Queue.{Same}
use iocpserver.Earlier.Runs.{Event, sends, completes, run_later, run_earlier, runs_agree}

abbrev kind_os : Os
kind_os = record {
  recv_posted = λ cs. true;
  send_posted = λ cs. true;
  new_socket = λ cs. some 9;
  accept_posted = λ cs. true;
  registered = λ cs. true;
}

abbrev later : World
later = record {
  session = λ p. record {
    dynamic_type = SessionClass.client_session;
    accept_socket = 5;
    listen_socket = invalid_socket;
    recv_buffer = make 16 0 0;
    session_type = SessionType.client;
    send_queue = [];
    is_sending = false;
    session_id = 1;
    on_disconnect = none;
    disconnected = false;
  };
  next_object = 1;
  manager = record { next_token = 2; active = []; pool = λ t. none; factories = λ t. none };
  jobs = [];
  tasks = [];
  game = record {
    units = λ u. record { session_id = 0; unique = pos 0; name = [] };
    next_unit = 0;
    users = [];
    empty_units = [];
    session_id_to_pc = [];
  };
  is_running = true;
  calls = [];
}

abbrev earlier : Core
earlier = record {
  session =
      λ p. record { socket = 5; recv_buffer = make 16 0 0; send_queue = []; is_sending = false };
  next_object = 1;
  pool = [];
  listen_socket = 4;
  is_running = true;
  calls = [];
}

earlier-Same : Same 0 later earlier
earlier-Same = record { queue = refl; sending = refl; socket = refl; calls = refl; fit = tt }

abbrev two_packets : List Event
two_packets = sends (1 ∷ 2 ∷ []) ∷ sends (3 ∷ []) ∷ completes ∷ completes ∷ []

runs_agree_example :
    (t : Core) × (run_earlier kind_os 0 two_packets earlier ≡ some t)
    × Same 0 (run_later kind_os 0 two_packets later) t
runs_agree_example =
    runs_agree kind_os (λ cs. refl) 0 two_packets later earlier
      (omega arith, omega arith, (omega arith, omega arith, tt)) earlier-Same
