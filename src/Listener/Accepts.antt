-- ===== src/Listener/Accepts.antt =====
-- How many accepts are posted, and what an accepted session is.
use iocpserver.Prelude.{
  ℕ, ◌+◌, ◌≡◌, ◌≢◌, refl, sym, ap, subst, ◌∙◌, Bool, true, false, Option, none, some, List, [], ◌∷◌,
  if◌then◌else◌, arith, ◌==◌, ==_refl, ==_ne,
}
use iocpserver.World.{
  World, Session, SessionType, SessionClass, value, OsCall, Os, invalid_socket, set_session, call,
}
use iocpserver.SessionManager.{
  get_empty_session, take_top, create_or_null, create, release, push, stack, register_active,
  find_by_token, lookup,
}
use iocpserver.SessionManager.Laws.{find_by_token-register_active}
use iocpserver.Session.{on_accepted, recv}
use iocpserver.Listener.{
  post_on, post_accept, register_socket, start_session, accept_session, on_accept_completed,
}

-- 1 for an accept of the type on the listener, 0 for another.
abbrev pub aimed : ℕ → SessionType → ℕ → SessionType → ℕ
aimed l type k t = if k == l then if value t == value type then 1 else 0 else 0

pub aimed_self : (l : ℕ) (type : SessionType) → aimed l type l type ≡ 1
aimed_self l type = rw (==_refl l, ==_refl (value type))

pub aimed_other :
    (l : ℕ) (type : SessionType) (k : ℕ) (t : SessionType) → l ≢ k → aimed l type k t ≡ 0
aimed_other l type k t ne = rw (==_ne k l (λ e. ne (sym e)))

-- The accepts of the type that Winsock has posted on the listener.
unfoldable pub accepts : Os → ℕ → SessionType → List OsCall → ℕ
accepts os l type [] = 0
accepts os l type (c ∷ cs) = one c + accepts os l type cs
  where
    one : OsCall → ℕ
    one (OsCall.accept_ex k socket t) = if os.accept_posted cs then aimed l type k t else 0
    one (OsCall.wsa_recv p socket) = 0
    one (OsCall.wsa_send p socket bytes) = 0
    one (OsCall.shutdown socket) = 0
    one (OsCall.closesocket socket) = 0
    one OsCall.wsa_socket = 0
    one (OsCall.update_accept_context a k) = 0
    one (OsCall.register_socket socket key) = 0
    one (OsCall.register_listener socket) = 0

taken_calls :
    (w : World) (type : SessionType) (ps : List ℕ) → (take_top w type ps).1.calls ≡ w.calls
unfolding take_top
taken_calls w type [] = made (w.manager.factories type)
  where
    made : (o : Option SessionClass) → (create_or_null w o).1.calls ≡ w.calls
    made none = unfold create_or_null in refl
    made (some class) = unfold create_or_null in (unfold create in refl)
taken_calls w type (p ∷ ps) = refl

module _ (os : Os) (k : ℕ) (t : SessionType)
    (sockets : (cs : List OsCall) → (socket : ℕ) × (os.new_socket cs ≡ some socket))
    (takes : (cs : List OsCall) → os.accept_posted cs ≡ true) where
  -- While Winsock has sockets to give and posts the accepts, `PostAccept` posts one on its listener.
  pub post_accept_lem :
      (w : World) (l : ℕ) (type : SessionType)
      → accepts os k t (post_accept os w l type).1.calls ≡ accepts os k t w.calls + aimed k t l type
  unfolding post_accept
  post_accept_lem w l type = let (socket, e) = sockets w.calls in rw e (posted socket)
    where
      posted :
          (socket : ℕ)
          → accepts os k t (post_on os (call w OsCall.wsa_socket) l type (some socket)).1.calls
            ≡ accepts os k t w.calls + aimed k t l type
      posted socket =
          unfold post_on in
          rw (takes (call w OsCall.wsa_socket).calls)
            (unfold accepts in rw (takes (call w OsCall.wsa_socket).calls) (omega arith))

  started_accepts :
      (w : World) (l accepted p : ℕ)
      → accepts os k t (start_session os w l accepted p).calls ≡ accepts os k t w.calls
  unfolding start_session on_accepted recv register_active accepts
  started_accepts w l accepted p = ground arith

  pub accepts-accept_session :
      (w : World) (l accepted : ℕ) (type : SessionType) (q : Option ℕ)
      → accepts os k t (accept_session os w l accepted type q).calls ≡ accepts os k t w.calls
  accepts-accept_session w l accepted type none =
      unfold accept_session in (unfold accepts in omega arith)
  accepts-accept_session w l accepted type (some p) = chosen (os.registered w.calls)
    where
      w₁ : World
      w₁ = call w (OsCall.register_socket accepted p)

      started : accepts os k t (start_session os w₁ l accepted p).calls ≡ accepts os k t w.calls
      started = started_accepts w₁ l accepted p ∙ (unfold accepts in omega arith)

      released :
          accepts os k t (release (call w₁ (OsCall.closesocket accepted)) type p).calls
          ≡ accepts os k t w.calls
      released = unfold release in (unfold push in (unfold accepts in omega arith))

      either :
          (b : Bool)
          → accepts os k t
              (if b
                then start_session os w₁ l accepted p
                else release (call w₁ (OsCall.closesocket accepted)) type p).calls
            ≡ accepts os k t w.calls
      either true = started
      either false = released

      chosen :
          (b : Bool)
          → accepts os k t (accept_session os w l accepted type (some p)).calls
            ≡ accepts os k t w.calls
      chosen b = unfold accept_session in (unfold register_socket in either (os.registered w.calls))

  -- Whether or not there is a session for the socket and a place on the port, a completed accept
  -- posts exactly one new accept, of its type and on its listener.
  pub on_accept_completed_lem :
      (w : World) (l accepted : ℕ) (type : SessionType)
      → accepts os k t (on_accept_completed os w l accepted type).calls
        ≡ accepts os k t w.calls + aimed k t l type
  on_accept_completed_lem w l accepted type =
      again ∙ ap (λ n. n + aimed k t l type) (accepts-accept_session w₂ l accepted type q ∙ before)
    where
      w₁ : World
      w₁ = call w (OsCall.update_accept_context accepted l)

      q : Option ℕ
      q = (get_empty_session w₁ type).0

      w₂ : World
      w₂ = (get_empty_session w₁ type).1

      again :
          accepts os k t (on_accept_completed os w l accepted type).calls
          ≡ accepts os k t (accept_session os w₂ l accepted type q).calls + aimed k t l type
      again =
          unfold on_accept_completed in
          post_accept_lem (accept_session os w₂ l accepted type q) l type

      before : accepts os k t w₂.calls ≡ accepts os k t w.calls
      before = ap (accepts os k t) same ∙ told
        where
          same : w₂.calls ≡ w₁.calls
          same = unfold get_empty_session in taken_calls w₁ type (stack (w₁.manager.pool type))

          told : accepts os k t w₁.calls ≡ accepts os k t w.calls
          told = unfold accepts in omega arith

-- A session that starts on an accepted socket has that socket, is connected, is found under its
-- token, and has posted a receive.
pub record Started (w : World) (l accepted p : ℕ) (w' : World) : Type 0 where
  pub socket : (w'.session p).accept_socket ≡ accepted
  pub listen_socket : (w'.session p).listen_socket ≡ l
  pub connected : (w'.session p).disconnected ≡ false
  pub found : find_by_token w' (w'.session p).session_id ≡ some p
  pub posted : w'.calls ≡ OsCall.wsa_recv p accepted ∷ w.calls

module _ (os : Os) (w : World) (l accepted p : ℕ) (valid : accepted ≢ invalid_socket) where
  accepted_world : World
  accepted_world =
      set_session w p (record (w.session p) { accept_socket = accepted; listen_socket = l })

  -- The session as `OnAccepted` leaves it.
  session-accepted : (on_accepted accepted_world p).session p ≡ record (w.session p) {
    accept_socket = accepted;
    listen_socket = l;
    disconnected = false;
    session_id = w.manager.next_token;
  }
  unfolding on_accepted register_active accepted_world
  session-accepted = rw (==_refl p)

  receives :
      (v : World)
      → (v.session p).accept_socket ≡ accepted
      → (recv os v p).1 ≡ call v (OsCall.wsa_recv p accepted)
  unfolding recv
  receives v e = rw (e, ==_ne accepted invalid_socket valid)

  start_receives :
      start_session os w l accepted p
      ≡ call (on_accepted accepted_world p) (OsCall.wsa_recv p accepted)
  unfolding start_session accepted_world
  start_receives =
      receives (on_accepted accepted_world p)
        (ap (λ (s : Session). s.accept_socket) session-accepted)

  found_accepted : find_by_token (on_accepted accepted_world p) w.manager.next_token ≡ some p
  unfolding on_accepted find_by_token accepted_world register_active
  found_accepted =
      (find_by_token-register_active
        (set_session accepted_world p (record (accepted_world.session p) { disconnected = false }))
        p 0).0

  accepted_calls : (on_accepted accepted_world p).calls ≡ w.calls
  unfolding on_accepted register_active accepted_world
  accepted_calls = refl

  -- A session that starts on a valid accepted socket has that socket and the listening one, is
  -- connected, is found under its token, and has posted a receive.
  pub start_session-Started : Started w l accepted p (start_session os w l accepted p)
  start_session-Started = subst (Started w l accepted p) (sym start_receives) (record {
    socket = ap (λ (s : Session). s.accept_socket) session-accepted;
    listen_socket = ap (λ (s : Session). s.listen_socket) session-accepted;
    connected = ap (λ (s : Session). s.disconnected) session-accepted;
    found =
        unfold find_by_token in
        subst (λ t. lookup t (on_accepted accepted_world p).manager.active ≡ some p)
          (sym (ap (λ (s : Session). s.session_id) session-accepted)) found_accepted;
    posted = ap (◌∷◌ (OsCall.wsa_recv p accepted)) accepted_calls;
  })
