-- ===== src/Earlier.antt =====
-- ServerCore, the earlier network library: Session.cpp, SessionManager.cpp, Listener.cpp,
-- NetworkManager.cpp, IocpCore.cpp and PacketHandlers.cpp. Its ring and its dispatcher are those of
-- ServerCoreLibrary. `none` is undefined behaviour, or fuel that has run out.
pub mod Queue
pub mod Runs
pub mod Worker
pub mod Start
mod Tests
use iocpserver.Prelude.{
  ℕ, zero, suc, ◌+◌, Bool, true, false, ◌||◌, Option, none, some, List, [], ◌∷◌, ◌++◌, length, take,
  drop, leb, ltb, ◌==◌, if◌then◌else◌, ◌>>=◌,
}
use iocpserver.Prelude.Int.{pos, ltb_ℤ}
use iocpserver.RingBuffer.{RingBuffer, clear, make, write, peek, read, get_stored_size}
use iocpserver.World.{
  SessionType, OsCall, Os, invalid_socket, max_buffer_size, max_recv_buffer_size, update,
}
use iocpserver.Packet.Header.{header_size, header_id}
use iocpserver.Game.Handlers.{c_string}

pub record Session : Type 0 where
  pub socket : ℕ
  pub recv_buffer : RingBuffer
  pub send_queue : List (List ℕ)
  pub is_sending : Bool

-- The sessions by address, m_SessionPool with its top first, the listener and the run flag.
pub record Core : Type 0 where
  pub session : ℕ → Session
  pub next_object : ℕ
  pub pool : List ℕ
  pub listen_socket : ℕ
  pub is_running : Bool
  pub calls : List OsCall

abbrev pub set_session : Core → ℕ → Session → Core
set_session w p s = record w { session = update w.session p s }

abbrev pub call : Core → OsCall → Core
call w c = record w { calls = c ∷ w.calls }

-- Init, which leaves the send queue.
unfoldable pub init : Session → Session
init s = record s { recv_buffer = clear s.recv_buffer; socket = invalid_socket }

-- new Session()
unfoldable pub new_session : Core → ℕ × Core
new_session w = (
  w.next_object,
  record (set_session w w.next_object (record {
    socket = invalid_socket;
    recv_buffer = make max_recv_buffer_size 0 0;
    send_queue = [];
    is_sending = false;
  })) { next_object = w.next_object + 1 },
)

-- SessionManager::Init makes 1000.
unfoldable pub fill : ℕ → Core → Core
unfolding new_session
fill zero w = w
fill (suc n) w = let (p, w') = new_session w in fill n (record w' { pool = p ∷ w'.pool })

unfoldable pub get_empty_session : Core → ℕ × Core
unfolding new_session
get_empty_session w = elim w.pool [ [] ↦ new_session w | p ∷ ps ↦ (p, record w { pool = ps }) ]

unfoldable pub release : Core → ℕ → Core
unfolding init
release w p = let w' = set_session w p (init (w.session p)) in record w' { pool = p ∷ w'.pool }

-- Nothing stops a second disconnect.
unfoldable pub disconnect : Core → ℕ → Core
unfolding release
disconnect w p = release (call w (OsCall.closesocket (w.session p).socket)) p

module _ (os : Os) where
  unfoldable pub recv : Core → ℕ → Bool × Core
  recv w p =
      let s = w.session p in
      if s.socket == invalid_socket
      then (false, w)
      else (os.recv_posted w.calls, call w (OsCall.wsa_recv p s.socket))

  -- The bytes are copied into the context's buffer.
  unfoldable pub send : Core → ℕ → List ℕ → Option (Bool × Core)
  send w p bytes =
      if ltb max_buffer_size (length bytes)
      then none
      else some (os.send_posted w.calls, call w (OsCall.wsa_send p (w.session p).socket bytes))

  unfoldable pub post_next : Core → ℕ → List (List ℕ) → Option Core
  unfolding send
  post_next w p [] = some (set_session w p (record (w.session p) { is_sending = false }))
  post_next w p (front ∷ rest) = send w p front >>= (λ r. some r.1)

  unfoldable pub send_packet : Core → ℕ → List ℕ → Option Core
  unfolding post_next
  send_packet w p bytes =
      let s = w.session p in
      let queue = s.send_queue ++ (bytes ∷ []) in
      if s.is_sending
      then some (set_session w p (record s { send_queue = queue }))
      else post_next (set_session w p (record s { send_queue = queue; is_sending = true })) p queue

  -- However much of the front was sent, it is taken off.
  unfoldable pub on_send_completed : Core → ℕ → ℕ → Option Core
  unfolding disconnect post_next
  on_send_completed w p n =
      if n == 0
      then some (disconnect w p)
      else let s = w.session p in
        let queue = drop 1 s.send_queue in
        post_next (set_session w p (record s { send_queue = queue })) p queue

  -- The id PACKET_ID_ECHO and the packet PACKET_MSG_ECHO are not in the repository; `reply` makes the
  -- packet of a message, or `none` where strcpy_s finds no room.
  module _ (echo_id : ℕ) (reply : List ℕ → Option (List ℕ)) where
    -- Handle_Eco, with REGISTER_HANDLER the only handler there is, and Dispatch.
    unfoldable pub handle_eco : Core → ℕ → List ℕ → ℕ → Option Core
    unfolding send_packet
    handle_eco w p bytes size =
        if ltb size 4
        then none
        else reply (c_string (drop 4 (take size bytes))) >>= (λ packet. send_packet w p packet)

    unfoldable pub dispatch : Core → ℕ → List ℕ → ℕ → Option Core
    unfolding handle_eco
    dispatch w p bytes size =
        let handled = handle_eco w p bytes size in
        if ltb size 4 then some w else if header_id bytes == echo_id then handled else some w

    -- A round of the packet loop, of which `false` is the last. The header is not initialised, so a
    -- peek that finds less than four bytes leaves it indeterminate.
    unfoldable pub round : Core → ℕ → Option (Bool × Core)
    unfolding dispatch
    round w p =
        let s = w.session p in
        peek s.recv_buffer (pos 4) >>= (λ h.
          if h.0
          then if ltb_ℤ (get_stored_size s.recv_buffer) (pos (header_size h.1))
            then some (false, w)
            else read s.recv_buffer (pos (header_size h.1)) >>= (λ r.
              if r.0
              then dispatch (set_session w p (record s { recv_buffer = r.2 })) p r.1
                  (header_size h.1)
                >>= (λ w'. some (true, w'))
              else some (false, w))
          else none)

    unfoldable pub loop : ℕ → Core → ℕ → Option Core
    unfolding round
    loop zero w p = none
    loop (suc fuel) w p =
        round w p >>= (λ r. elim r.0 [ true ↦ loop fuel r.1 p | false ↦ some r.1 ])

    unfoldable pub on_recv_completed : ℕ → Core → ℕ → List ℕ → Option Core
    unfolding disconnect loop recv
    on_recv_completed fuel w p bytes = elim bytes [
      | [] ↦ some (disconnect w p)
      | b ∷ bs ↦
          let s = w.session p in
          write s.recv_buffer (b ∷ bs) (pos (length (b ∷ bs))) >>= (λ r.
            loop fuel (set_session w p (record s { recv_buffer = r.1 })) p
            >>= (λ w'. some (recv w' p).1))
    ]

  -- PostAccept
  unfoldable pub accept_with : Core → ℕ → ℕ → Bool × Core
  unfolding release
  accept_with w p sock =
      let posted =
        call (set_session w p (record (w.session p) { socket = sock }))
          (OsCall.accept_ex w.listen_socket sock SessionType.none) in
      if os.accept_posted (OsCall.wsa_socket ∷ w.calls)
      then (true, posted)
      else (false, release (call posted (OsCall.closesocket sock)) p)

  unfoldable pub post_accept : Core → Bool × Core
  unfolding get_empty_session accept_with
  post_accept w =
      let (p, w₁) = get_empty_session w in
      let w₂ = call w₁ OsCall.wsa_socket in
      elim (os.new_socket w₁.calls) [
        | none ↦ accept_with w₂ p invalid_socket
        | some sock ↦ accept_with w₂ p sock
      ]

  -- OnAcceptCompleted; `updated` is whether setsockopt succeeds. The paths that fail post no accept,
  -- and delete the context: `false`.
  unfoldable pub on_accept_completed : Bool → Core → ℕ → Bool × Core
  unfolding release recv post_accept
  on_accept_completed updated w p =
      let sock = (w.session p).socket in
      let w₁ = call w (OsCall.update_accept_context sock w.listen_socket) in
      let w₂ = call w₁ (OsCall.register_socket sock p) in
      if updated
      then if os.registered w₁.calls
        then (true, (post_accept (recv w₂ p).1).1)
        else (false, release (call w₂ (OsCall.closesocket sock)) p)
      else (false, release (call w₁ (OsCall.closesocket sock)) p)
