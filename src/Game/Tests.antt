-- ===== src/Game/Tests.antt =====
-- A game server without players: a login, its logout, and a queue of jobs.
use iocpserver.Prelude.{
  ℕ, ◌<◌, ◌≡◌, refl, true, false, none, some, List, [], ◌∷◌, ◌==◌, replicate, arith,
}
use iocpserver.Prelude.Int.{pos}
use iocpserver.RingBuffer.{make}
use iocpserver.World.{World, SessionType, SessionClass, Game, Job, Os, OsCall, invalid_socket}
use iocpserver.Packet.{cm_echo, cm_chat, sm_echo, sm_chat, cm_login, sm_login, dcm_echo, dsm_echo}
use iocpserver.Packet.Structs.{
  cp_echo, sp_echo, cp_login, sp_login, cp_chat, sp_chat, dcp_echo, dsp_echo, IsSent,
  structs-IsSent,
}
use iocpserver.Game.{find_id, find_user_by_id, login, logout}
use iocpserver.Vector.{occurs}
use iocpserver.Game.Pool.{IsPool}
use iocpserver.Game.Twice.{login_twice}
use iocpserver.SessionManager.{lookup, find_by_token}
use iocpserver.Game.{erase_key}
use iocpserver.Game.Users.{LoggedIn, login-LoggedIn}
use iocpserver.Game.Leaving.{logout-LoggedIn}
use iocpserver.Game.Handlers.{run_loop, run_job}
use iocpserver.Game.Answer.{result_of, answer_received}
use iocpserver.Client.Packets.{AreFull, joined}
use iocpserver.Client.Thread.{Client, receive_round}
use iocpserver.Client.Login.{IsText, shown}
use iocpserver.Game.Thread.{run_loop-IsPool}

abbrev no_game : Game
no_game = record {
  units = λ u. record { session_id = 0; unique = pos 0; name = [] };
  next_unit = 0;
  users = [];
  empty_units = [];
  session_id_to_pc = [];
}

abbrev kind_os : Os
kind_os = record {
  recv_posted = λ cs. true;
  send_posted = λ cs. true;
  new_socket = λ cs. some 9;
  accept_posted = λ cs. true;
  registered = λ cs. true;
}

abbrev start : World
start = record {
  session = λ p. record {
    dynamic_type = SessionClass.server_session;
    accept_socket = 5;
    listen_socket = invalid_socket;
    recv_buffer = make 16 0 0;
    session_type = SessionType.game;
    send_queue = [];
    is_sending = false;
    session_id = 7;
    on_disconnect = none;
    disconnected = false;
  };
  next_object = 1;
  manager = record {
    next_token = 8;
    active = (7, 0) ∷ [];
    pool = λ t. none;
    factories = λ t. none;
  };
  jobs = [];
  tasks = [];
  game = no_game;
  is_running = true;
  calls = [];
}

no_game-IsPool : IsPool no_game
unfolding occurs
no_game-IsPool = record { once = λ u. ground arith }

nobody : find_user_by_id no_game 7 ≡ none
unfolding find_user_by_id find_id
nobody = refl

login-LoggedIn_example :
    (w' : World) × (login start 0 (pos 5) (65 ∷ 0 ∷ []) ≡ some w')
    × LoggedIn start 0 (pos 5) (65 ∷ 0 ∷ []) w'
login-LoggedIn_example = login-LoggedIn start 0 (pos 5) (65 ∷ 0 ∷ []) no_game-IsPool nobody

logged_in :
    (w' : World) × (login start 0 (pos 5) (65 ∷ 0 ∷ []) ≡ some w')
    × LoggedIn start 0 (pos 5) (65 ∷ 0 ∷ []) w'
logged_in = login-LoggedIn start 0 (pos 5) (65 ∷ 0 ∷ []) no_game-IsPool nobody

logout-LoggedIn_example :
    let g = logout 7 logged_in.0.game in
    (find_user_by_id g 7 ≡ none) × IsPool g × ((v : ℕ) → occurs v g.users ≡ occurs v no_game.users)
logout-LoggedIn_example =
    logout-LoggedIn start logged_in.0 0 (pos 5) (65 ∷ 0 ∷ []) nobody logged_in.2

abbrev with_jobs : World
with_jobs = record start { jobs = Job.login 7 (pos 5) (replicate 604 1) ∷ Job.logout 7 ∷ [] }

run_loop-IsPool_example :
    (w' : World) × (run_loop kind_os some ((λ w. w) ∷ []) with_jobs ≡ some w') × IsPool w'.game
run_loop-IsPool_example =
    run_loop-IsPool kind_os some (λ bytes. (bytes, refl)) ((λ w. w) ∷ []) with_jobs ((λ w h. h), tt)
      no_game-IsPool

answer_received_example :
    (last : World) × (bytes : List ℕ) × (run_job kind_os some
        (Job.login 7 (pos 7) (cp_login (65 ∷ []) (66 ∷ [])))
        start
      ≡ some last)
    × (last.calls ≡ OsCall.wsa_send 0 5 bytes ∷ [])
    × ((pieces : List (List ℕ)) (c : Client)
        → AreFull pieces
        → joined pieces ≡ bytes
        → c.running ≡ true
        → let r = shown (result_of (pos 7)) 7 (65 ∷ []) (66 ∷ []) (result_of (pos 7) == 0) c in
          (left : List (List ℕ)) × (receive_round pieces c ≡ some (r.0, r.1, left))
          × (joined left ≡ []))
answer_received_example =
    answer_received kind_os start 0 (pos 7) (65 ∷ []) (66 ∷ []) some 7
      (unfold find_by_token in refl) refl no_game-IsPool refl refl refl (omega arith)
      (unfold IsText in (omega arith, tt)) (omega arith) (unfold IsText in (omega arith, tt))
      (omega arith)

structs-IsSent_example :
    IsSent cm_echo (cp_echo (65 ∷ []))
    × IsSent sm_echo (sp_echo (65 ∷ []))
    × IsSent cm_login (cp_login (66 ∷ []) (67 ∷ []))
    × IsSent sm_login (sp_login 0 5 (66 ∷ []) (67 ∷ []))
    × IsSent cm_chat (cp_chat (65 ∷ []))
    × IsSent sm_chat (sp_chat 5 (66 ∷ []) (65 ∷ []))
    × IsSent dcm_echo (dcp_echo (65 ∷ []))
    × IsSent dsm_echo (dsp_echo (65 ∷ []))
structs-IsSent_example = structs-IsSent (65 ∷ []) (66 ∷ []) (67 ∷ []) 0 5

-- Session 7 is logged in.
abbrev with_user : World
with_user = record start {
  game = record {
    units = λ u. record { session_id = 7; unique = pos 5; name = [] };
    next_unit = 1;
    users = 0 ∷ [];
    empty_units = [];
    session_id_to_pc = (7, 0) ∷ [];
  };
}

with_user-IsPool : IsPool with_user.game
unfolding occurs
with_user-IsPool = record { once = λ u. ground arith }

login_twice_example :
    (w' : World) × (login with_user 0 (pos 6) [] ≡ some w')
    × (let g = logout 7 w'.game in
        (0 < occurs 0 g.users) × ((g.units 0).session_id ≡ 7) × (logout 7 g ≡ g))
unfolding occurs lookup erase_key
login_twice_example = login_twice with_user 0 (pos 6) [] 0 with_user-IsPool (omega arith) refl refl
