-- ===== src/Session/Lifecycle.antt =====
-- Accepting and disconnecting a session (Session::OnAccepted, Session::Disconnect), and its reuse
-- through the pool.
use iocpserver.Prelude.{
  ℕ, ◌≡◌, ◌≢◌, refl, sym, ap, subst, ◌∙◌, append-nil, ==_iff, true, false, Option, none, some, List,
  [], ◌∷◌, ◌++◌, arith, ==_refl, Bool-cases, inl, inr, ◌==◌, if◌then◌else◌,
}
use iocpserver.RingBuffer.{clear}
use iocpserver.World.{
  World, Session, SessionManager, OsCall, DisconnectCb, post_logout, Job, SessionType,
  invalid_socket, value, set_session,
}
use iocpserver.SessionManager.{
  init, release, push, stack, unregister_active, erase_session, find_by_token, lookup,
}
use iocpserver.SessionManager.Laws.{IsOnce, find_by_token-unregister_active}
use iocpserver.Session.{disconnect, teardown, run_callback, notify, close_accepted, drop_callback}

-- What a session holds once it is disconnected. Its send queue and `m_bIsSending` stay.
abbrev pub gone : Session → Session
gone s = record s {
  recv_buffer = clear s.recv_buffer;
  accept_socket = invalid_socket;
  listen_socket = invalid_socket;
  session_id = 0;
  on_disconnect = none;
  disconnected = true;
}

abbrev pub closed : Session → List OsCall
closed s =
    if s.accept_socket == invalid_socket
    then []
    else OsCall.closesocket s.accept_socket ∷ OsCall.shutdown s.accept_socket ∷ []

abbrev logout_of : Option DisconnectCb → ℕ → List Job
logout_of none sid = []
logout_of (some post_logout) sid = Job.logout sid ∷ []

abbrev pub logouts : Session → List Job
logouts s = logout_of s.on_disconnect s.session_id

module _ (w : World) (p : ℕ) where
  session-close :
      (close_accepted w p).session p ≡ record (w.session p) { accept_socket = invalid_socket }
  unfolding close_accepted
  session-close = elim (Bool-cases ((w.session p).accept_socket == invalid_socket)) [
    | inl none_open ↦ rw none_open (
        ap (λ k. record (w.session p) { accept_socket = k })
          ((==_iff (w.session p).accept_socket invalid_socket).0 none_open))
    | inr opened ↦ rw (opened, ==_refl p)
  ]

  calls-close : (close_accepted w p).calls ≡ closed (w.session p) ++ w.calls
  unfolding close_accepted
  calls-close = ground arith

  manager-close : (close_accepted w p).manager ≡ w.manager
  unfolding close_accepted
  manager-close = ground arith

  jobs-close : (close_accepted w p).jobs ≡ w.jobs
  unfolding close_accepted
  jobs-close = ground arith

-- `notify` touches the job queue only.
notify_lem :
    (w : World) (cb : Option DisconnectCb) (sid : ℕ)
    → notify w cb sid ≡ record w { jobs = w.jobs ++ logout_of cb sid }
unfolding notify run_callback
notify_lem w none sid = ap (λ js. record w { jobs = js }) (sym (append-nil w.jobs))
notify_lem w (some post_logout) sid = refl

module _ (w : World) (p : ℕ) where
  -- The session just before it is released.
  let_go : World
  unfolding drop_callback
  let_go =
      unregister_active
        (notify (drop_callback (close_accepted w p) p) (w.session p).on_disconnect
          (w.session p).session_id)
        p

  teardown_lem : teardown w p ≡ release let_go (let_go.session p).session_type p
  unfolding teardown let_go
  teardown_lem = refl

  session-let_go :
      let_go.session p
      ≡ record (w.session p) { accept_socket = invalid_socket; on_disconnect = none }
  unfolding let_go unregister_active
  session-let_go =
      rw (notify_lem, ==_refl p)
        (ap (λ (s : Session). record s { on_disconnect = none }) (session-close w p))

  calls-let_go : let_go.calls ≡ closed (w.session p) ++ w.calls
  unfolding let_go unregister_active
  calls-let_go = rw notify_lem (calls-close w p)

  jobs-let_go : let_go.jobs ≡ w.jobs ++ logouts (w.session p)
  unfolding let_go unregister_active
  jobs-let_go = rw notify_lem (ap (λ js. js ++ logouts (w.session p)) (jobs-close w p))

  manager-let_go : let_go.manager ≡ record (w.manager) { active = erase_session p w.manager.active }
  unfolding let_go unregister_active
  manager-let_go = rw notify_lem (
      ap (λ (m : SessionManager). record m { active = erase_session p m.active })
        (manager-close w p))

module _ (w : World) (type : SessionType) (p : ℕ) where
  pub session-release : (release w type p).session p ≡ init (w.session p) type
  unfolding release push
  session-release = rw (==_refl p)

  pub pool-release : (release w type p).manager.pool type ≡ some (p ∷ stack (w.manager.pool type))
  unfolding release push
  pool-release = rw (==_refl (value type))

  release_rest :
      ((release w type p).calls ≡ w.calls)
      × ((release w type p).jobs ≡ w.jobs)
      × ((release w type p).manager.active ≡ w.manager.active)
  unfolding release push
  release_rest = (refl, refl, refl)

-- What a first `Disconnect` of session `p` does, member by member.
pub record Torn (w : World) (p : ℕ) (w' : World) : Type 0 where
  pub session : w'.session p ≡ gone (w.session p)
  pub calls : w'.calls ≡ closed (w.session p) ++ w.calls
  pub jobs : w'.jobs ≡ w.jobs ++ logouts (w.session p)
  pub active : w'.manager.active ≡ erase_session p w.manager.active
  pub pooled :
      let type = (w.session p).session_type in
      w'.manager.pool type ≡ some (p ∷ stack (w.manager.pool type))

module _ (w : World) (p : ℕ) where
  abbrev marked : World
  marked = set_session w p (record (w.session p) { disconnected = true })

  session-marked : marked.session p ≡ record (w.session p) { disconnected = true }
  session-marked = rw (==_refl p)

  disconnect_first :
      (w.session p).disconnected ≡ false
      → disconnect w p ≡ release (let_go marked p) ((let_go marked p).session p).session_type p
  unfolding disconnect
  disconnect_first e = begin ∙ teardown_lem marked p
    where
      begin : disconnect w p ≡ teardown marked p
      begin = simp e

  session-left : (let_go marked p).session p ≡ record (w.session p) {
    accept_socket = invalid_socket;
    on_disconnect = none;
    disconnected = true;
  }
  session-left =
      session-let_go marked p
      ∙ ap (λ (s : Session). record s { accept_socket = invalid_socket; on_disconnect = none })
          session-marked

  pub disconnect-Torn : (w.session p).disconnected ≡ false → Torn w p (disconnect w p)
  disconnect-Torn e =
      let type = ((let_go marked p).session p).session_type in
      let rest = release_rest (let_go marked p) type p in
      subst (Torn w p) (sym (disconnect_first e)) (record {
        session =
            session-release (let_go marked p) type p
            ∙ ap (λ (s : Session). init s s.session_type) session-left
            ∙ init_gone;
        calls =
            rest.0
            ∙ calls-let_go marked p
            ∙ ap (λ (s : Session). closed s ++ w.calls) session-marked;
        jobs =
            rest.1
            ∙ jobs-let_go marked p
            ∙ ap (λ (s : Session). w.jobs ++ logouts s) session-marked;
        active = rest.2 ∙ ap (λ (m : SessionManager). m.active) (manager-let_go marked p);
        pooled =
            subst
              (λ t.
                (release (let_go marked p) type p).manager.pool t
                ≡ some (p ∷ stack (w.manager.pool t)))
              (ap (λ (s : Session). s.session_type) session-left)
              (pool-release (let_go marked p) type p
                ∙ ap (λ (m : SessionManager). some (p ∷ stack (m.pool type)))
                    (manager-let_go marked p));
      })
    where
      init_gone :
          init
            (record (w.session p) {
              accept_socket = invalid_socket;
              on_disconnect = none;
              disconnected = true;
            })
            (w.session p).session_type
          ≡ gone (w.session p)
      init_gone = unfold init in refl

  disconnect_done : ((disconnect w p).session p).disconnected ≡ true
  disconnect_done = elim (Bool-cases (w.session p).disconnected) [
    | inl before ↦ unfold disconnect in rw (before, before)
    | inr first ↦ ap (λ (s : Session). s.disconnected) (disconnect-Torn first).session
  ]

  -- A second `Disconnect` of a session does nothing.
  pub disconnect_twice : disconnect (disconnect w p) p ≡ disconnect w p
  disconnect_twice = again (disconnect w p) disconnect_done
    where
      again : (v : World) → (v.session p).disconnected ≡ true → disconnect v p ≡ v
      again v e = unfold disconnect in rw e

-- What a first `Disconnect` of session `p` leaves: the session, the calls, the jobs, which tokens
-- find a session, and the pool.
pub record Disconnected (w : World) (p : ℕ) (w' : World) : Type 0 where
  pub session : w'.session p ≡ gone (w.session p)
  pub calls : w'.calls ≡ closed (w.session p) ++ w.calls
  pub jobs : w'.jobs ≡ w.jobs ++ logouts (w.session p)
  pub unfound : (t : ℕ) → find_by_token w' t ≢ some p
  pub others : (t : ℕ) → find_by_token w t ≢ some p → find_by_token w' t ≡ find_by_token w t
  pub pooled :
      let type = (w.session p).session_type in
      w'.manager.pool type ≡ some (p ∷ stack (w.manager.pool type))

-- The first `Disconnect` of a session that is active at most once closes its socket if there is one
-- and posts the logout if there is a callback; no token finds the session afterwards, and every
-- token that did not find it finds what it found; its members are as `Init` leaves them and its
-- token 0, but its send queue and m_bIsSending stay as they were; and it is on top of the pool of
-- its type.
pub disconnect-Disconnected :
    (w : World) (p : ℕ)
    → (w.session p).disconnected ≡ false
    → IsOnce p w.manager.active
    → Disconnected w p (disconnect w p)
disconnect-Disconnected w p first once =
    let d = disconnect-Torn w p first in
    record {
      session = d.session;
      calls = d.calls;
      jobs = d.jobs;
      unfound = λ t e. (find_by_token-unregister_active w p t once).0 (sym (same t d) ∙ e);
      others = λ t ne. same t d ∙ (find_by_token-unregister_active w p t once).1 ne;
      pooled = d.pooled;
    }
  where
    same :
        (t : ℕ)
        → Torn w p (disconnect w p)
        → find_by_token (disconnect w p) t ≡ find_by_token (unregister_active w p) t
    same t d = unfold find_by_token in unfold unregister_active in ap (lookup t) d.active
