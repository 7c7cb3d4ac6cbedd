-- ===== src/Servers.antt =====
-- GameServer/main.cpp, GateServer/main.cpp and GameDB/main.cpp: the start of each server, and the
-- end of the game server. Static members stand in `Process`; the other threads are a parameter.
pub mod Exits
pub mod Logins
mod Tests
use iocpserver.Prelude.{
  ℕ, ◌*◌, Bool, true, false, Option, none, some, List, [], ◌∷◌, same_text, if◌then◌else◌, map,
}
use iocpserver.Prelude.Int.{ℤ, pos, negsuc, to_size}
use iocpserver.World.{World, SessionType, SessionClass, Os}
use iocpserver.SessionManager.{register_factory}
use iocpserver.Packet.{cm_echo, cm_login, cm_chat, dcm_echo}
use iocpserver.Dispatcher.{Handler, Handlers, register}
use iocpserver.Listener.{Setup, ListenerInfo, init_from_config}
use iocpserver.IocpCore.Start.{Host, HostCall, wsa_cleanup, Core, initialize, run, stop}
use iocpserver.DbConfig.{DbConfig, Ini, load}
use iocpserver.Ports.{parse_ports}
use iocpserver.Database.{Odbc, Calls}
use iocpserver.Database.Manager
use iocpserver.Database.Manager.{DbManager, reset}
use iocpserver.Game.Handlers.{handle_eco, handle_login, handle_chat, start_loop, stop_loop}
use iocpserver.Gate.{handle_dbs_eco}

-- What a server finds: Windows, Winsock and ODBC, the files, the console, and what its other threads
-- make of the world until the console ends; and whether the threads of DBManager see the end, which
-- Database/Manager/Stop shows that a worker may miss.
pub record Environment : Type 0 where
  pub host : Host
  pub os : Os
  pub setup : Setup
  pub odbc : Odbc
  pub ini : Option Ini
  pub get_int : List ℕ → ℤ
  pub port_keys : List ℕ
  pub processors : ℕ
  pub beyond : List ℕ
  pub others : World → World
  pub db_threads_end : Bool

-- The singletons of a server. `db` is there while the threads of DBManager run.
pub record Process : Type 0 where
  pub core : Core
  pub world : World
  pub handlers : Handlers World
  pub listeners : List ListenerInfo
  pub db : Option DbManager
  pub odbc_calls : Calls
  pub game_running : Bool
  pub console : List (List ℕ)

-- How `main` goes on: it returns a value, sleeps for ever, or waits in Finalize for a thread that
-- does not end.
pub data Main : Type 0 where
  returns : ℤ → Process → Main
  sleeps : Process → Main
  joins : Process → Main

-- "quit"
abbrev pub quit : List ℕ
quit = 113 ∷ 117 ∷ 105 ∷ 116 ∷ []

-- The lines that are left when "quit" was read, or the last.
unfoldable pub read_lines : List (List ℕ) → List (List ℕ)
read_lines [] = []
read_lines (line ∷ lines) = if same_text line quit then lines else read_lines lines

-- The initialisers of DBConfig.
abbrev pub default_config : DbConfig
default_config = record {
  conn_str = [];
  pool_size = pos 4;
  health_sec = pos 10;
  query_timeout_sec = pos 5;
}

module _ (env : Environment) where
  -- NetworkManager::InitFromConfig, of the ports that ConfigReader has read.
  unfoldable pub open_ports : Process → Process
  unfolding parse_ports init_from_config
  open_ports s =
      let ports = parse_ports env.get_int env.port_keys in
      let (ls, w) =
        init_from_config env.os env.setup s.world (map to_size ports.client)
          (map to_size ports.game) (map to_size ports.gate) in
      record s { listeners = ls; world = w }

  -- IocpCore::Run
  unfoldable pub run_workers : Process → Process
  unfolding run
  run_workers s =
      let (core, w) = run env.processors s.core s.world in record s { core = core; world = w }

  add_factory : SessionType → SessionClass → Process → Process
  unfolding register_factory
  add_factory type class s = record s { world = register_factory s.world type class 1 }

  -- InitGameHandlers
  unfoldable pub init_game_handlers : Handlers World → Handlers World
  unfolding register
  init_game_handlers hs =
      register cm_chat (handle_chat env.os env.beyond)
        (register cm_login (handle_login env.os) (register cm_echo (handle_eco env.os) hs))

  -- From the factory to the game thread.
  unfoldable pub start_game : Process → Process
  unfolding add_factory init_game_handlers open_ports run_workers start_loop
  start_game s =
      let s₁ = add_factory SessionType.client SessionClass.client_session s in
      let s₂ = open_ports (record s₁ { handlers = init_game_handlers s₁.handlers }) in
      let s₃ = run_workers s₂ in record s₃ { game_running = (start_loop s₃.game_running).1 }

  -- The gate's handler answers with PACKET_MSG_ECHO, which the repository does not have.
  unfoldable pub start_gate : Handler World → Process → Process
  unfolding add_factory register open_ports run_workers
  start_gate handle_gate_eco s =
      let s₁ = add_factory SessionType.client SessionClass.client_session s in
      let s₂ = add_factory SessionType.game SessionClass.server_session s₁ in
      run_workers
        (open_ports (record s₂ { handlers = register cm_echo handle_gate_eco s₂.handlers }))

  unfoldable pub start_game_db : Process → Process
  unfolding add_factory register open_ports run_workers
  start_game_db s =
      let s₁ = add_factory SessionType.game SessionClass.server_session s in
      run_workers (
        open_ports (record s₁ { handlers = register dcm_echo (handle_dbs_eco env.os) s₁.handlers }))

  sleeps_after : (Process → Process) → Process → Bool × Core → Main
  sleeps_after start s (false, core) = returns (negsuc 0) (record s { core = core })
  sleeps_after start s (true, core) = sleeps (start (record s { core = core }))

  -- `main` of the gate server, and of the database server.
  unfoldable pub gate_main : Handler World → Process → Main
  unfolding sleeps_after initialize start_gate
  gate_main handle_gate_eco s =
      sleeps_after (start_gate handle_gate_eco) s (initialize env.host s.core)

  unfoldable pub game_db_main : Process → Main
  unfolding sleeps_after initialize start_game_db
  game_db_main s = sleeps_after start_game_db s (initialize env.host s.core)

  -- What DBManager::Finalize does when its threads have ended.
  unfoldable pub finalize : Process → Process
  unfolding reset
  finalize s = elim s.db [
    | none ↦ s
    | some m ↦ record s { odbc_calls = reset m s.odbc_calls; db = none }
  ]

  -- From the console to the call of Finalize.
  unfoldable pub stop_game : Process → Process
  unfolding read_lines stop_loop stop
  stop_game s =
      let w = env.others s.world in
      let (posted, core, w') = stop s.core w in
      record s {
        console = read_lines s.console;
        game_running = (stop_loop s.game_running).1;
        core = record core { calls = wsa_cleanup ∷ core.calls };
        world = w';
      }

  -- From the console to the end. The first thing that Finalize waits for is that the threads end.
  unfoldable pub end_game : Process → Main
  unfolding stop_game finalize
  end_game s =
      let s' = stop_game s in if env.db_threads_end then returns (pos 0) (finalize s') else joins s'

  unfoldable pub after_core : Process → Bool × Core → Main
  unfolding start_game end_game
  after_core s (false, core) = returns (negsuc 0) (record s { core = core })
  after_core s (true, core) = end_game (start_game (record s { core = core }))

  unfoldable pub after_db : Process → Option DbManager × Calls → Main
  unfolding after_core initialize
  after_db s (none, t) = returns (negsuc 1) (record s { odbc_calls = t })
  after_db s (some m, t) =
      after_core (record s { db = some m; odbc_calls = t }) (initialize env.host s.core)

  unfoldable pub after_load : Process → Bool × DbConfig → Main
  unfolding after_db Manager.initialize
  after_load s (false, c) = returns (negsuc 0) s
  after_load s (true, c) =
      after_db s
        (Manager.initialize env.odbc c.conn_str (to_size c.pool_size) c.health_sec s.odbc_calls)

  -- `main` of the game server.
  unfoldable pub game_main : Process → Main
  unfolding after_load load
  game_main s = after_load s (load env.ini default_config)
