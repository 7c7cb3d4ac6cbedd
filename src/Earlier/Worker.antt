-- ===== src/Earlier/Worker.antt =====
-- ServerCore/IocpCore.cpp: the worker loop over what it takes from the port, and the start of
-- ServerCore/Listener.cpp and NetworkManager.cpp.
use iocpserver.Prelude.{
  ℕ, Bool, true, false, Option, none, some, List, [], ◌∷◌, if◌then◌else◌, ◌>>=◌,
}
use iocpserver.World.{OsCall, Os, invalid_socket}
use iocpserver.Earlier.{
  Core, call, on_recv_completed, on_send_completed, on_accept_completed, post_accept,
}

-- What GetQueuedCompletionStatus gives: a failure, or a context with its operation.
pub data Taken : Type 0 where
  failure : Taken
  received : ℕ → List ℕ → Taken
  sent : ℕ → ℕ → Taken
  accepted : ℕ → Bool → Taken

module _ (os : Os) (echo_id : ℕ) (reply : List ℕ → Option (List ℕ)) (fuel : ℕ) where
  -- The context is deleted behind the switch: `none` if it was already.
  delete_context : Bool × Core → Option Core
  delete_context (true, w) = some w
  delete_context (false, w) = none

  unfoldable pub handle : Taken → Core → Option Core
  unfolding delete_context
  handle failure w = some w
  handle (received p bytes) w = on_recv_completed os echo_id reply fuel w p bytes
  handle (sent p n) w = on_send_completed os w p n
  handle (accepted p updated) w = delete_context (on_accept_completed os updated w p)

  -- The flag is tested again behind the wait.
  unfoldable pub worker_loop : List Taken → Core → Option Core
  unfolding handle
  worker_loop [] w = some w
  worker_loop (taken ∷ more) w =
      if w.is_running then handle taken w >>= (λ w'. worker_loop more w') else some w

-- Listener::Init: the steps on a new socket, of which the first that fails closes it. Whether the
-- listener is registered is not looked at.
unfoldable pub set_up : ℕ → List Bool → Core → Bool × Core
set_up sock [] w = (true, call w (OsCall.register_listener sock))
set_up sock (true ∷ steps) w = set_up sock steps w
set_up sock (false ∷ steps) w = (false, call w (OsCall.closesocket sock))

unfoldable pub init_listener : Option ℕ → Bool → Bool → Bool → Core → Bool × Core
unfolding set_up
init_listener none bound listens loaded w = (
  false,
  call (record (call w OsCall.wsa_socket) { listen_socket = invalid_socket })
      (OsCall.closesocket invalid_socket),
)
init_listener (some sock) bound listens loaded w =
    set_up sock (bound ∷ listens ∷ loaded ∷ [])
      (record (call w OsCall.wsa_socket) { listen_socket = sock })

-- NetworkManager::Init goes on whatever the listener says.
unfoldable pub init_network : Os → Option ℕ → Bool → Bool → Bool → Core → Core
unfolding init_listener
init_network os sock bound listens loaded w =
    (post_accept os (init_listener sock bound listens loaded w).1).1
