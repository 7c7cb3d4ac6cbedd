-- ===== src/Earlier/Start.antt =====
-- ServerCore/main.cpp, and Initialize, RegisterSocket and Run of ServerCore/IocpCore.cpp. The thread
-- that accepts runs beside the others; here it runs before the workers.
use iocpserver.Prelude.{ℕ, ◌+◌, ◌*◌, Bool, true, false, Option, none, some, if◌then◌else◌}
use iocpserver.Prelude.Int.{ℤ, negsuc}
use iocpserver.World.{OsCall, Os}
use iocpserver.Earlier.{Core, call, fill}
use iocpserver.Earlier.Worker.{init_network}

-- IocpCore's members beside the run flag: m_iocpHandle and the number of m_workerThreads.
pub record Port : Type 0 where
  pub iocp_handle : Option ℕ
  pub workers : ℕ

-- What Windows answers: the completion port, WSAStartup, and the steps of the listener.
pub record Windows : Type 0 where
  pub new_port : Option ℕ
  pub started : Bool
  pub new_socket : Option ℕ
  pub bound : Bool
  pub listening : Bool
  pub loaded : Bool
  pub processors : ℕ

abbrev is_port : Option ℕ → Bool
is_port none = false
is_port (some h) = true

-- IocpCore::Initialize, which does not start Winsock.
unfoldable pub initialize : Windows → Port → Bool × Port
initialize win c = (is_port win.new_port, record c { iocp_handle = win.new_port })

-- IocpCore::RegisterSocket
unfoldable pub register_socket : Os → Core → ℕ → ℕ → Bool × Core
register_socket os w socket key =
    (os.registered w.calls, call w (OsCall.register_socket socket key))

-- IocpCore::Run
unfoldable pub run : Windows → Port → Core → Port × Core
run win c w =
    (record c { workers = c.workers + win.processors * 2 }, record w { is_running = true })

-- StartAcceptLoop
unfoldable pub start_accept_loop : Os → Windows → Core → Core
unfolding init_network
start_accept_loop os win w =
    if win.started then init_network os win.new_socket win.bound win.listening win.loaded w else w

-- `main` returns a value, or sleeps for ever.
pub data Main : Type 0 where
  returns : ℤ → Port → Core → Main
  sleeps : Port → Core → Main

after_port : Os → Windows → Core → Bool × Port → Main
unfolding start_accept_loop run
after_port os win w (false, c) = returns (negsuc 0) c w
after_port os win w (true, c) =
    let (c', w') = run win c (start_accept_loop os win w) in sleeps c' w'

unfoldable pub main : Os → Windows → Port → Core → Main
unfolding after_port initialize fill
main os win c w = after_port os win (fill 1000 w) (initialize win c)
