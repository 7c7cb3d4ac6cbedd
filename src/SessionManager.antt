-- ===== src/SessionManager.antt =====
-- ServerCoreLibrary/SessionManager.h and SessionManager.cpp: the pool of Session objects, and the
-- sessions in use by token. Each method holds its lock throughout, so it is one step.
pub mod Laws
use iocpserver.Prelude.{
  ℕ, zero, suc, ◌+◌, ◌%◌, ◌^◌, Bool, true, false, Option, none, some, List, [], ◌∷◌, ◌++◌, ◌==◌,
  if◌then◌else◌,
}
use iocpserver.World.{
  World, Session, SessionManager, SessionType, SessionClass, value, update_type, set_session,
  set_manager, invalid_socket, max_recv_buffer_size,
}
use iocpserver.RingBuffer.{make, clear}

-- `Session::Init`. The send queue, `m_bIsSending` and the callback stay as they are.
unfoldable pub init : Session → SessionType → Session
init s type = record s {
  recv_buffer = clear s.recv_buffer;
  accept_socket = invalid_socket;
  listen_socket = invalid_socket;
  session_type = type;
  session_id = 0;
}

abbrev own_type : SessionClass → SessionType
own_type SessionClass.client_session = SessionType.client
own_type SessionClass.server_session = SessionType.game

-- The constructors `Session()`, then `ClientSession()` or `ServerSession()`. What the members
-- hold before the first `Init` is overwritten by it.
unfoldable pub construct : SessionClass → Session
unfolding init
construct class = init (init blank SessionType.none) (own_type class)
  where
    blank : Session
    blank = record {
      dynamic_type = class;
      accept_socket = invalid_socket;
      listen_socket = invalid_socket;
      recv_buffer = make max_recv_buffer_size 0 0;
      session_type = SessionType.none;
      send_queue = [];
      is_sending = false;
      session_id = 0;
      on_disconnect = none;
      disconnected = false;
    }

-- `m_Factories[type]()`: a new object, at an address not used before.
unfoldable pub create : World → SessionClass → ℕ × World
create w class = (
  w.next_object,
  record (set_session w w.next_object (construct class)) { next_object = w.next_object + 1 },
)

abbrev pub stack : Option (List ℕ) → List ℕ
stack none = []
stack (some ps) = ps

unfoldable pub push : World → SessionType → ℕ → World
push w type p = set_manager w (record (w.manager) {
  pool = update_type w.manager.pool type (some (p ∷ stack (w.manager.pool type)));
})

-- for (i = 0; i < poolSize; i++) m_SessionPool[type].push(m_Factories[type]())
unfoldable pub fill : World → SessionType → SessionClass → ℕ → World
unfolding create push
fill w type class zero = w
fill w type class (suc n) = let (p, w') = create w class in fill (push w' type p) type class n

unfoldable pub register_factory : World → SessionType → SessionClass → ℕ → World
unfolding fill
register_factory w type class pool_size = elim (w.manager.pool type) [
  | none ↦ fill (with_factory w) type class pool_size
  | some _ ↦ with_factory w
]
  where
    with_factory : World → World
    with_factory w =
        set_manager w
          (record (w.manager) { factories = update_type w.manager.factories type (some class) })

unfoldable pub create_or_null : World → Option SessionClass → Option ℕ × World
unfolding create
create_or_null w none = (none, w)
create_or_null w (some class) = let (p, w') = create w class in (some p, w')

unfoldable pub take_top : World → SessionType → List ℕ → Option ℕ × World
unfolding create_or_null
take_top w type [] = create_or_null w (w.manager.factories type)
take_top w type (p ∷ ps) = (
  some p,
  set_manager w (record (w.manager) { pool = update_type w.manager.pool type (some ps) }),
)

-- An absent stack and an empty one are treated alike.
unfoldable pub get_empty_session : World → SessionType → Option ℕ × World
unfolding take_top
get_empty_session w type = take_top w type (stack (w.manager.pool type))

unfoldable pub release : World → SessionType → ℕ → World
unfolding init push
release w type p = push (set_session w p (init (w.session p) type)) type p

abbrev same : List ℕ → List ℕ → Bool
same [] [] = true
same [] (y ∷ ys) = false
same (x ∷ xs) [] = false
same (x ∷ xs) (y ∷ ys) = if x == y then same xs ys else false

-- `typeStr` by the three names that are compared, as UTF-16 code units.
unfoldable pub string_to_session_type : List ℕ → SessionType
string_to_session_type s =
    if same s (67 ∷ 108 ∷ 105 ∷ 101 ∷ 110 ∷ 116 ∷ [])
    then SessionType.client
    else if same s (71 ∷ 97 ∷ 109 ∷ 101 ∷ [])
    then SessionType.game
    else if same s (71 ∷ 97 ∷ 109 ∷ 101 ∷ 68 ∷ 66 ∷ [])
    then SessionType.gamedb
    else SessionType.none

-- `m_ActiveSessions[t] = p`: the entry of `t`, or a new one.
unfoldable pub insert : ℕ → ℕ → List (ℕ × ℕ) → List (ℕ × ℕ)
insert t p [] = (t, p) ∷ []
insert t p ((u, q) ∷ m) = if u == t then (u, p) ∷ m else (u, q) ∷ insert t p m

unfoldable pub register_active : World → ℕ → ℕ × World
unfolding insert
register_active w p = (
  w.manager.next_token,
  set_manager w (record (w.manager) {
    next_token = (w.manager.next_token + 1) % 2 ^ 64;
    active = insert w.manager.next_token p w.manager.active;
  }),
)

-- The first entry, in the map's order, whose session is `p`.
unfoldable pub erase_session : ℕ → List (ℕ × ℕ) → List (ℕ × ℕ)
erase_session p [] = []
erase_session p ((t, q) ∷ m) = if q == p then m else (t, q) ∷ erase_session p m

unfoldable pub unregister_active : World → ℕ → World
unfolding erase_session
unregister_active w p =
    set_manager w (record (w.manager) { active = erase_session p w.manager.active })

unfoldable pub lookup : ℕ → List (ℕ × ℕ) → Option ℕ
lookup t [] = none
lookup t ((u, p) ∷ m) = if u == t then some p else lookup t m

unfoldable pub find_by_token : World → ℕ → Option ℕ
unfolding lookup
find_by_token w t = lookup t w.manager.active
