-- ===== src/Receive/Tests.antt =====
-- Receives of a session with a ring of sixteen bytes; every packet goes to one handler.
use iocpserver.Prelude.{
  ℕ, ◌≡◌, ◌≢◌, refl, true, false, none, some, List, [], ◌∷◌, ◌++◌, take, replicate, arith, slice,
}
use iocpserver.RingBuffer.{RingBuffer, make}
use iocpserver.RingBuffer.Contents.{contents}
use iocpserver.RingBuffer.Write.{Wrote}
use iocpserver.Prelude.Int.{pos}
use iocpserver.World.{Game, World, SessionType, SessionClass, Os, invalid_socket}
use iocpserver.Packet.Header.{header_size, header_id}
use iocpserver.Dispatcher.{Handler, Handlers, find, register, dispatch}
use iocpserver.Dispatcher.Laws.{dispatch-register}
use iocpserver.Receive.{crashed, set_ring, on_recv_completed}
use iocpserver.Receive.Frames.{frames_of, parse}
use iocpserver.Receive.Verdicts.{ring_of, Keep, IsStraight, Received}
use iocpserver.Receive.Completed.{on_recv_completed-Received, Received-full}
use iocpserver.Receive.Pieces.{Served, received_in_pieces}
use iocpserver.Receive.Overrun.{received_overrun}

abbrev no_game : Game
no_game = record {
  units = λ u. record { session_id = 0; unique = pos 0; name = [] };
  next_unit = 0;
  users = [];
  empty_units = [];
  session_id_to_pc = [];
}

abbrev kind_os : Os
kind_os = record {
  recv_posted = λ cs. true;
  send_posted = λ cs. true;
  new_socket = λ cs. some 9;
  accept_posted = λ cs. true;
  registered = λ cs. true;
}

abbrev with_ring : RingBuffer → World
with_ring r = record {
  session = λ p. record {
    dynamic_type = SessionClass.server_session;
    accept_socket = 5;
    listen_socket = invalid_socket;
    recv_buffer = r;
    session_type = SessionType.game;
    send_queue = [];
    is_sending = false;
    session_id = 7;
    on_disconnect = none;
    disconnected = false;
  };
  next_object = 1;
  manager = record {
    next_token = 8;
    active = (7, 0) ∷ [];
    pool = λ t. none;
    factories = λ t. none;
  };
  jobs = [];
  tasks = [];
  game = no_game;
  is_running = true;
  calls = [];
}

abbrev fresh : RingBuffer
fresh = make 16 0 0

abbrev ignore : Handlers World
ignore = []

ignore-Keep : (fs : List (List ℕ)) → Keep ignore 0 fs
unfolding dispatch find
ignore-Keep [] = tt
ignore-Keep (f ∷ fs) = ((λ w. (w, ground arith, refl)), ignore-Keep fs)

fresh-IsStraight : IsStraight fresh
unfolding make
fresh-IsStraight = record { valid = omega arith; straight = omega arith }

-- A whole packet and the start of the next.
abbrev arriving : List ℕ
arriving = 5 ∷ 0 ∷ 1 ∷ 0 ∷ 77 ∷ 4 ∷ 0 ∷ []

on_recv_completed-Received_example :
    (r : RingBuffer) × Wrote fresh (take 7 arriving) r
    × Received kind_os ignore 0
        (set_ring (with_ring fresh) 0 r)
        (frames_of (contents fresh ++ take 7 arriving))
        (on_recv_completed kind_os ignore 20 (with_ring fresh) 0 arriving 7)
unfolding make contents slice
on_recv_completed-Received_example =
    on_recv_completed-Received kind_os ignore 20 (with_ring fresh) 0 arriving fresh-IsStraight 7
      (omega arith) (ignore-Keep _) (omega arith) (omega arith) (omega arith)

abbrev nearly_full : RingBuffer
nearly_full = record { buffer = replicate 16 9; buffer_size = 16; read_pos = 0; write_pos = 14 }

Received-full_example :
    Received kind_os ignore 0
      (set_ring (with_ring nearly_full) 0 nearly_full)
      (frames_of (contents nearly_full))
      (on_recv_completed kind_os ignore 20 (with_ring nearly_full) 0 arriving 2)
unfolding contents slice
Received-full_example =
    Received-full kind_os ignore 20 (with_ring nearly_full) 0 arriving
      (record { valid = omega arith; straight = omega arith }) 2 (omega arith) (ignore-Keep _)
      (omega arith) (omega arith) (omega arith)

-- Two packets, cut within the first one's body and within the second one's header.
abbrev three_pieces : List (List ℕ)
three_pieces = (5 ∷ 0 ∷ 1 ∷ []) ∷ (0 ∷ 77 ∷ 4 ∷ []) ∷ (0 ∷ 2 ∷ 0 ∷ []) ∷ []

abbrev two_packets : List (List ℕ)
two_packets = (5 ∷ 0 ∷ 1 ∷ 0 ∷ 77 ∷ []) ∷ (4 ∷ 0 ∷ 2 ∷ 0 ∷ []) ∷ []

received_in_pieces_example :
    (last : World) × Served kind_os ignore 16 0 three_pieces (with_ring fresh) two_packets last
    × (contents (ring_of last 0) ≡ [])
unfolding make contents slice header_size frames_of parse
received_in_pieces_example =
    received_in_pieces kind_os ignore 16 0 three_pieces (with_ring fresh) (ignore-Keep two_packets)
      fresh-IsStraight (omega arith, (omega arith, (omega arith, tt))) refl refl (omega arith)
      (omega arith)

-- Ten bytes taken: a packet of four bytes, then one that goes round the end.
abbrev moved_on : RingBuffer
moved_on = record { buffer = replicate 16 0; buffer_size = 16; read_pos = 10; write_pos = 10 }

abbrev round_the_end : List ℕ
round_the_end = 4 ∷ 0 ∷ 1 ∷ 0 ∷ 4 ∷ 0 ∷ 1 ∷ 0 ∷ []

received_overrun_example :
    on_recv_completed kind_os ignore 20 (with_ring moved_on) 0 round_the_end 8 ≡ crashed
unfolding contents slice header_size
received_overrun_example =
    received_overrun kind_os ignore 19 (with_ring moved_on) 0 round_the_end (omega arith)
      (omega arith) (omega arith) (omega arith) (omega arith)
      (record { not_short = omega arith; not_long = omega arith }) (omega arith) (omega arith)

abbrev first_handler : Handler World
first_handler w p bytes size = some w

abbrev second_handler : Handler World
second_handler w p bytes size = none

dispatch-register_example :
    let hs' = register 1 second_handler (register 1 first_handler []) in
    (header_id (4 ∷ 0 ∷ 1 ∷ 0 ∷ []) ≡ 1
      → dispatch hs' (with_ring fresh) 0 (4 ∷ 0 ∷ 1 ∷ 0 ∷ []) 4
        ≡ first_handler (with_ring fresh) 0 (4 ∷ 0 ∷ 1 ∷ 0 ∷ []) 4)
    × (header_id (4 ∷ 0 ∷ 1 ∷ 0 ∷ []) ≢ 1
        → dispatch hs' (with_ring fresh) 0 (4 ∷ 0 ∷ 1 ∷ 0 ∷ []) 4
          ≡ dispatch [] (with_ring fresh) 0 (4 ∷ 0 ∷ 1 ∷ 0 ∷ []) 4)
unfolding find
dispatch-register_example =
    dispatch-register [] 1 first_handler second_handler (with_ring fresh) 0 (4 ∷ 0 ∷ 1 ∷ 0 ∷ []) 4
      refl (omega arith)
