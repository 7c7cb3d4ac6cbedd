-- ===== src/IocpCore/Start.antt =====
-- IocpCore::Initialize, Run and ShutDown on the members of IocpCore, and its destructor. The calls
-- to Windows are kept with the members, the newest first; what Windows answers is a parameter.
use iocpserver.Prelude.{ℕ, ◌+◌, Bool, true, false, Option, none, some, List, ◌∷◌, if◌then◌else◌}
use iocpserver.World.{World}
use iocpserver.IocpCore.{Dequeued, run_core, shut_down}

pub data HostCall : Type 0 where
  wsa_startup wsa_cleanup create_port : HostCall
  close_handle : ℕ → HostCall

-- Whether WSAStartup succeeds, and the completion port that is made, if one is.
pub record Host : Type 0 where
  pub started : List HostCall → Bool
  pub new_port : List HostCall → Option ℕ

-- m_iocpHandle, the threads of m_workerThreads by their number, and the calls made.
pub record Core : Type 0 where
  pub iocp_handle : Option ℕ
  pub workers : ℕ
  pub calls : List HostCall

abbrev pub is_some : Option ℕ → Bool
is_some none = false
is_some (some h) = true

abbrev called : Core → HostCall → Core
called c k = record c { calls = k ∷ c.calls }

-- CreateIoCompletionPort of a new port.
unfoldable pub open_port : Host → Core → Bool × Core
open_port host c =
    let h = host.new_port c.calls in (is_some h, record (called c create_port) { iocp_handle = h })

-- Initialize
unfoldable pub initialize : Host → Core → Bool × Core
unfolding open_port
initialize host c =
    let c₁ = called c wsa_startup in if host.started c.calls then open_port host c₁ else (false, c₁)

-- Run
unfoldable pub run : ℕ → Core → World → Core × World
unfolding run_core
run processors c w =
    let (n, w') = run_core processors w in (record c { workers = c.workers + n }, w')

-- The handle is closed unless it is NULL.
unfoldable pub close_port : Option ℕ → Core → Core
close_port none c = c
close_port (some h) c = record (called c (close_handle h)) { iocp_handle = none }

-- ShutDown: the completions posted; once the workers have ended, the handle is closed.
unfoldable pub stop : Core → World → List Dequeued × Core × World
unfolding shut_down close_port
stop c w =
    let (posted, w') = shut_down c.workers w in
    if w.is_running
    then (posted, close_port c.iocp_handle (record c { workers = 0 }), w')
    else (posted, c, w')

-- ~IocpCore
unfoldable pub destroy : Core → World → Core
unfolding stop close_port
destroy c w = let (posted, c', w') = stop c w in close_port c'.iocp_handle c'
