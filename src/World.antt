-- ===== src/World.antt =====
-- The state that the server's threads share: the Session objects by address
-- (ServerCoreLibrary/Session.h), the SessionManager (SessionManager.h), the job queue of the game
-- thread (GameServer/GameDispatcher.h), the run flag of IocpCore, and the calls made to Winsock.
use iocpserver.Prelude.{
  ℕ, ◌-◌, ◌^◌, ◌≡◌, ◌≢◌, Bool, Option, List, ◌∷◌, ◌==◌, ==_refl, ==_ne, if◌then◌else◌,
}
use iocpserver.Prelude.Int.{ℤ}
use iocpserver.RingBuffer.{RingBuffer}

-- SOCKET values are numbers; INVALID_SOCKET is ~0.
abbrev pub invalid_socket : ℕ
invalid_socket = 2 ^ 64 - 1

-- MAX_RECV_BUFFER_SIZE and MAX_BUFFER_SIZE.
abbrev pub max_recv_buffer_size : ℕ
max_recv_buffer_size = 8192

abbrev pub max_buffer_size : ℕ
max_buffer_size = 4096

pub data SessionType : Type 0 where
  none client gate login game gamedb : SessionType

abbrev pub value : SessionType → ℕ
value SessionType.none = 0
value client = 1
value gate = 2
value login = 3
value game = 4
value gamedb = 5

-- The classes that derive from Session.
pub data SessionClass : Type 0 where
  client_session server_session : SessionClass

pub record SendItem : Type 0 where
  pub buf : List ℕ
  pub off : ℕ

-- The one callback that the servers install: the λ of CGameManager::Login.
pub data DisconnectCb : Type 0 where
  post_logout : DisconnectCb

pub record Session : Type 0 where
  pub dynamic_type : SessionClass
  pub accept_socket : ℕ
  pub listen_socket : ℕ
  pub recv_buffer : RingBuffer
  pub session_type : SessionType
  pub send_queue : List SendItem
  pub is_sending : Bool
  pub session_id : ℕ
  pub on_disconnect : Option DisconnectCb
  pub disconnected : Bool

-- A job of the game thread: the λ of CGameManager::Login, by the session's id, and that of
-- GamePacketHandler::Handle_Login, by the session's id, the database's answer and the packet that
-- `pMsg` led to when the packet came.
pub data Job : Type 0 where
  logout : ℕ → Job
  login : ℕ → ℤ → List ℕ → Job

-- A request of GamePacketHandler::Handle_Login in the queue of DBManager: the session's id and the
-- packet.
pub data Task : Type 0 where
  check_account : ℕ → List ℕ → Task

pub record UnitPc : Type 0 where
  pub session_id : ℕ
  pub unique : ℤ
  pub name : List ℕ

-- CGameManager. The CUnitPC objects are named by number, in the order of their making.
pub record Game : Type 0 where
  pub units : ℕ → UnitPc
  pub next_unit : ℕ
  pub users : List ℕ
  pub empty_units : List ℕ
  pub session_id_to_pc : List (ℕ × ℕ)

-- Calls that leave the program, with what they are given.
pub data OsCall : Type 0 where
  wsa_recv : ℕ → ℕ → OsCall
  wsa_send : ℕ → ℕ → List ℕ → OsCall
  shutdown : ℕ → OsCall
  closesocket : ℕ → OsCall
  wsa_socket : OsCall
  accept_ex : ℕ → ℕ → SessionType → OsCall
  update_accept_context : ℕ → ℕ → OsCall
  register_socket : ℕ → ℕ → OsCall
  register_listener : ℕ → OsCall

-- What Winsock answers, as a function of the calls made before. A send, receive or accept that
-- returns at once and one that is pending are both `true`.
pub record Os : Type 0 where
  pub recv_posted : List OsCall → Bool
  pub send_posted : List OsCall → Bool
  pub new_socket : List OsCall → Option ℕ
  pub accept_posted : List OsCall → Bool
  pub registered : List OsCall → Bool

-- An absent key of `m_SessionPool` or `m_Factories` is `none`; the top of a stack is the head.
pub record SessionManager : Type 0 where
  pub next_token : ℕ
  pub active : List (ℕ × ℕ)
  pub pool : SessionType → Option (List ℕ)
  pub factories : SessionType → Option SessionClass

pub record World : Type 0 where
  pub session : ℕ → Session
  pub next_object : ℕ
  pub manager : SessionManager
  pub jobs : List Job
  pub tasks : List Task
  pub game : Game
  pub is_running : Bool
  pub calls : List OsCall

-- A store with one entry replaced.
abbrev pub update {ℓ} : {A : Type ℓ} → (ℕ → A) → ℕ → A → ℕ → A
update f k v = λ j. if j == k then v else f j

abbrev pub update_type {ℓ} : {A : Type ℓ} → (SessionType → A) → SessionType → A → SessionType → A
update_type f t v = λ u. if value u == value t then v else f u

abbrev pub set_session : World → ℕ → Session → World
set_session w p s = record w { session = update w.session p s }

abbrev pub set_manager : World → SessionManager → World
set_manager w m = record w { manager = m }

-- The newest call stands first.
abbrev pub call : World → OsCall → World
call w c = record w { calls = c ∷ w.calls }

pub update_self {ℓ} : {A : Type ℓ} (f : ℕ → A) (k : ℕ) (v : A) → update f k v k ≡ v
update_self f k v = rw (==_refl k)

pub update_other {ℓ} :
    {A : Type ℓ} (f : ℕ → A) (k : ℕ) (v : A) (j : ℕ) → j ≢ k → update f k v j ≡ f j
update_other f k v j h = rw (==_ne j k h)
