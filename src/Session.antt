-- ===== src/Session.antt =====
-- ServerCoreLibrary/Session.h and Session.cpp: receiving is posted, sending goes through a queue
-- of which one item at a time is given to WSASend, and a disconnected session goes back to the
-- pool. A session is named by its address. `m_SendLock` covers each change of the queue, and the
-- methods are steps of one thread at a time.
pub mod Sending
pub mod Stream
pub mod Lifecycle
pub mod Reuse
pub mod Broadcast
mod Tests
use iocpserver.Prelude.{
  ℕ, ◌+◌, Bool, true, false, not, Option, none, some, List, [], ◌∷◌, ◌++◌, length, drop, leb, ◌==◌,
  if◌then◌else◌,
}
use iocpserver.World.{
  World, Session, SendItem, DisconnectCb, post_logout, Job, OsCall, Os, set_session, call,
  invalid_socket,
}
use iocpserver.SessionManager.{register_active, unregister_active, release}

-- The callback of CGameManager::Login: GameDispatcher::Post of a logout.
unfoldable pub run_callback : DisconnectCb → ℕ → World → World
run_callback post_logout sid w = record w { jobs = w.jobs ++ (Job.logout sid ∷ []) }

unfoldable pub notify : World → Option DisconnectCb → ℕ → World
unfolding run_callback
notify w none sid = w
notify w (some cb) sid = run_callback cb sid w

unfoldable pub close_accepted : World → ℕ → World
close_accepted w p =
    let s = w.session p in
    if s.accept_socket == invalid_socket
    then w
    else set_session
        (call (call w (OsCall.shutdown s.accept_socket)) (OsCall.closesocket s.accept_socket)) p
        (record s { accept_socket = invalid_socket })

unfoldable pub drop_callback : World → ℕ → World
drop_callback w p = set_session w p (record (w.session p) { on_disconnect = none })

-- The part of `Disconnect` behind its `compare_exchange`.
unfoldable pub teardown : World → ℕ → World
unfolding notify close_accepted drop_callback
teardown w p =
    let sid = (w.session p).session_id in
    let cb = (w.session p).on_disconnect in
    let w₁ = close_accepted w p in
    let w₂ = notify (drop_callback w₁ p) cb sid in
    let w₃ = unregister_active w₂ p in release w₃ (w₃.session p).session_type p

unfoldable pub disconnect : World → ℕ → World
disconnect w p =
    if (w.session p).disconnected
    then w
    else teardown (set_session w p (record (w.session p) { disconnected = true })) p

unfoldable pub on_accepted : World → ℕ → World
on_accepted w p =
    let w₁ = set_session w p (record (w.session p) { disconnected = false }) in
    let (t, w₂) = register_active w₁ p in
    set_session w₂ p (record (w₂.session p) { session_id = t })

abbrev pub is_empty : List SendItem → Bool
is_empty [] = true
is_empty (x ∷ xs) = false

-- The queue after `n` more bytes of its front are out, and whether to post again.
abbrev pub acknowledge : List SendItem → ℕ → List SendItem × Bool
acknowledge [] n = ([], false)
acknowledge (item ∷ rest) n =
    if leb (length item.buf) (item.off + n)
    then (rest, not (is_empty rest))
    else (record item { off = item.off + n } ∷ rest, true)

module _ (os : Os) where
  -- A receive that cannot be posted leaves the session as it is.
  unfoldable pub recv : World → ℕ → Bool × World
  recv w p =
      let s = w.session p in
      if s.accept_socket == invalid_socket
      then (false, w)
      else (os.recv_posted w.calls, call w (OsCall.wsa_recv p s.accept_socket))

  unfoldable pub post_front : World → ℕ → List SendItem → Bool × World
  unfolding disconnect
  post_front w p [] = (true, set_session w p (record (w.session p) { is_sending = false }))
  post_front w p (item ∷ rest) =
      let posted =
        call w (OsCall.wsa_send p (w.session p).accept_socket (drop item.off item.buf)) in
      if os.send_posted w.calls then (true, posted) else (false, disconnect posted p)

  -- `Send` ignores its arguments and posts what is left of the front item.
  unfoldable pub send : World → ℕ → Bool × World
  unfolding post_front
  send w p = post_front w p (w.session p).send_queue

  unfoldable pub send_packet : World → ℕ → List ℕ → World
  unfolding send
  send_packet w p bytes =
      let s = w.session p in
      let queued = record s {
        send_queue = s.send_queue ++ (record { buf = bytes; off = 0 } ∷ []);
      } in
      if s.is_sending
      then set_session w p queued
      else (send (set_session w p (record queued { is_sending = true })) p).1

  unfoldable pub on_send_completed : World → ℕ → ℕ → World
  unfolding send disconnect
  on_send_completed w p n =
      if n == 0
      then disconnect w p
      else let s = w.session p in
        let (queue, need_post) = acknowledge s.send_queue n in
        if need_post
        then (send (set_session w p (record s { send_queue = queue })) p).1
        else set_session w p (record s { send_queue = queue; is_sending = false })
