-- ===== src/Servers/Exits.antt =====
-- The ways in which the game server's `main` ends, and what it has released by then.
use iocpserver.Prelude.{
  ℕ, ◌≡◌, refl, sym, ap, subst, ◌∙◌, inl, inr, Bool, true, false, Bool-cases, Option-cases, ◌⊎◌,
  Option, none, some, [], ◌∷◌, if◌then◌else◌,
}
use iocpserver.Prelude.Int.{pos, negsuc, to_size}
use iocpserver.World.{World}
use iocpserver.Game.Handlers.{stop_loop}
use iocpserver.DbConfig.{DbConfig, load}
use iocpserver.Database.{Calls}
use iocpserver.Database.Init.{IsMore, none_more}
use iocpserver.Database.Manager
use iocpserver.Database.Manager.{DbManager, reset}
use iocpserver.Database.Manager.Ends.{IsReady, initialize-IsReady, reset-IsMore}
use iocpserver.IocpCore.{run_core, shut_down}
use iocpserver.IocpCore.Start.{
  run, Core, wsa_startup, wsa_cleanup, create_port, close_handle, initialize, is_some, open_port,
  stop, close_port,
}
use iocpserver.Servers.{
  Environment, Process, Main, returns, joins, default_config, start_game, stop_game, end_game,
  run_workers, open_ports, finalize, after_core, after_db, after_load, game_main,
}

-- The other threads do not write m_isRunning.
abbrev pub Keeps : Environment → Type 0
Keeps env = (w : World) → (env.others w).is_running ≡ w.is_running

-- Before `main`.
pub record IsFresh (s : Process) : Type 0 where
  pub no_port : s.core.iocp_handle ≡ none
  pub no_calls : s.core.calls ≡ []
  pub no_db : s.db ≡ none

-- The port and Winsock, each made once, are given back, and the workers and the game thread have
-- ended.
pub record IsStopped (h : ℕ) (s' : Process) : Type 0 where
  pub host_calls : s'.core.calls ≡ wsa_cleanup ∷ close_handle h ∷ create_port ∷ wsa_startup ∷ []
  pub no_port : s'.core.iocp_handle ≡ none
  pub no_workers : s'.core.workers ≡ 0
  pub stopped : s'.world.is_running ≡ false
  pub game_stopped : s'.game_running ≡ false

-- And each handle of a connection is freed as often as it was given, and DBManager is reset.
pub record IsReleased (s : Process) (h : ℕ) (s' : Process) : Type 0 where
  pub stopped : IsStopped h s'
  pub db_stopped : s'.db ≡ none
  pub handles : IsMore none_more s.odbc_calls s'.odbc_calls

module _ (env : Environment) where
  stop_running :
      (c : Core) (w : World) (h : ℕ)
      → c.iocp_handle ≡ some h
      → w.is_running ≡ true
      → ((stop c w).1
          ≡ record { iocp_handle = none; workers = 0; calls = close_handle h ∷ c.calls })
        × ((stop c w).2.is_running ≡ false)
  unfolding stop shut_down
  stop_running c w h e on = rw (on, e) (unfold close_port in (refl, refl))

  stop_game-IsStopped :
      Keeps env
      → (s : Process) (h : ℕ) → s.core.iocp_handle ≡ some h
      → s.core.calls ≡ create_port ∷ wsa_startup ∷ []
      → s.world.is_running ≡ true
      → IsStopped h (stop_game env s)
        × ((stop_game env s).db ≡ s.db)
        × ((stop_game env s).odbc_calls ≡ s.odbc_calls)
  unfolding stop_game
  stop_game-IsStopped keeps s h port calls on =
      let (closed, off) = stop_running s.core (env.others s.world) h port (keeps s.world ∙ on) in
      (
        record {
          host_calls =
              ap (λ (c : Core). wsa_cleanup ∷ c.calls) closed
              ∙ ap (λ t. wsa_cleanup ∷ close_handle h ∷ t) calls;
          no_port = ap (λ (c : Core). c.iocp_handle) closed;
          no_workers = ap (λ (c : Core). c.workers) closed;
          stopped = off;
          game_stopped = (unfold stop_loop in refl);
        },
        refl,
        refl,
      )

  finalize_lem :
      (s : Process) (m : DbManager)
      → s.db ≡ some m
      → finalize env s ≡ record s { odbc_calls = reset m s.odbc_calls; db = none }
  unfolding finalize
  finalize_lem s m e = rw e

  -- What Finalize does to the database leaves the rest stopped.
  kept :
      {h : ℕ} {s : Process} {t : Calls} {db : Option DbManager}
      → IsStopped h s
      → IsStopped h (record s { odbc_calls = t; db = db })
  kept st = record {
    host_calls = st.host_calls;
    no_port = st.no_port;
    no_workers = st.no_workers;
    stopped = st.stopped;
    game_stopped = st.game_stopped;
  }

  ends_by :
      (s : Process) (b : Bool)
      → env.db_threads_end ≡ b
      → end_game env s
        ≡ (if b then returns (pos 0) (finalize env (stop_game env s)) else joins (stop_game env s))
  unfolding end_game
  ends_by s b e =
      ap
        (λ b.
          if b then returns (pos 0) (finalize env (stop_game env s)) else joins (stop_game env s))
        e

  start_game-running :
      (s : Process)
      → let s' = start_game env s in
        (s'.core.iocp_handle ≡ s.core.iocp_handle)
        × (s'.core.calls ≡ s.core.calls)
        × (s'.world.is_running ≡ true)
        × (s'.db ≡ s.db)
        × (s'.odbc_calls ≡ s.odbc_calls)
  unfolding start_game run_workers run run_core open_ports
  start_game-running s = (refl, refl, refl, refl, refl)

  abbrev settings : DbConfig
  settings = (load env.ini default_config).1

  -- What DBManager::Initialize comes to.
  abbrev pub made : Process → Option DbManager × Calls
  made s =
      Manager.initialize env.odbc settings.conn_str (to_size settings.pool_size) settings.health_sec
        s.odbc_calls

  -- How `main` ends, by what it meets on the way.
  pub data Exit (s : Process) : Main → Type 0 where
    bad_settings : (load env.ini default_config).0 ≡ false → Exit s (returns (negsuc 0) s)
    no_database :
        (s' : Process)
        → (load env.ini default_config).0 ≡ true
        → (made s).0 ≡ none
        → s'.core ≡ s.core
        → s'.db ≡ none
        → IsMore none_more s.odbc_calls s'.odbc_calls
        → Exit s (returns (negsuc 1) s')
    left_running :
        (s' : Process) (m : DbManager)
        → (load env.ini default_config).0 ≡ true
        → (made s).0 ≡ some m
        → (initialize env.host s.core).0 ≡ false
        → s'.core.iocp_handle ≡ none
        → s'.db ≡ some m
        → Exit s (returns (negsuc 0) s')
    released :
        (s' : Process) (m : DbManager) (h : ℕ)
        → (load env.ini default_config).0 ≡ true
        → (made s).0 ≡ some m
        → (initialize env.host s.core).0 ≡ true
        → env.db_threads_end ≡ true
        → IsReleased s h s'
        → Exit s (returns (pos 0) s')
    hung :
        (s' : Process) (m : DbManager) (h : ℕ)
        → (load env.ini default_config).0 ≡ true
        → (made s).0 ≡ some m
        → (initialize env.host s.core).0 ≡ true
        → env.db_threads_end ≡ false
        → IsStopped h s'
        → s'.db ≡ some m
        → Exit s (joins s')

  -- Either there is a port, made after Winsock was started, or there is none.
  initialize_cases :
      (c : Core)
      → c.iocp_handle ≡ none
      → c.calls ≡ []
      → ((c' : Core) × (initialize env.host c ≡ (false, c')) × (c'.iocp_handle ≡ none))
        ⊎ ((c' : Core) × (h : ℕ) × (initialize env.host c ≡ (true, c'))
            × (c'.iocp_handle ≡ some h)
            × (c'.calls ≡ create_port ∷ wsa_startup ∷ []))
  unfolding initialize
  initialize_cases c no_port no_calls = elim (Bool-cases (env.host.started c.calls)) [
    | inl started ↦ rw started (elim (Option-cases (env.host.new_port (wsa_startup ∷ c.calls))) [
      | inl refused ↦ inl (c', opens false none refused refl, refused)
      | inr (h, given) ↦ inr (
        c',
        h,
        opens true (some h) given refl,
        given,
        ap (λ t. create_port ∷ wsa_startup ∷ t) no_calls,
      )
    ])
    | inr failed ↦ rw failed (inl (_, refl, no_port))
  ]
    where
      c' : Core
      c' = record {
        iocp_handle = env.host.new_port (wsa_startup ∷ c.calls);
        workers = c.workers;
        calls = create_port ∷ wsa_startup ∷ c.calls;
      }

      opens :
          (b : Bool) (o : Option ℕ)
          → env.host.new_port (wsa_startup ∷ c.calls) ≡ o
          → is_some o ≡ b
          → open_port env.host (record c { calls = wsa_startup ∷ c.calls }) ≡ (b, c')
      opens b o e k = unfold open_port in ap (λ v. (v, c')) (ap is_some e ∙ k)

  module _ (keeps : Keeps env) (s : Process) (fresh : IsFresh s)
      (loaded : (load env.ini default_config).0 ≡ true) where
    after_core-Exit :
        (m : DbManager) (t : Calls)
        → made s ≡ (some m, t)
        → IsReady s.odbc_calls (some m, t)
        → Exit s
            (after_core env (record s { db = some m; odbc_calls = t }) (initialize env.host s.core))
    unfolding after_core
    after_core-Exit m t e ready = elim (initialize_cases s.core fresh.no_port fresh.no_calls) [
      | inl (c', failed, no_port) ↦
          subst (λ r. Exit s (after_core env s₁ r)) (sym failed)
            (left_running (record s₁ { core = c' }) m loaded (ap (λ r. r.0) e)
              (ap (λ r. r.0) failed) no_port refl)
      | inr (c', h, started, port, calls) ↦
          subst (λ r. Exit s (after_core env s₁ r)) (sym started)
            (ended c' h port calls (ap (λ r. r.0) started))
    ]
      where
        s₁ : Process
        s₁ = record s { db = some m; odbc_calls = t }

        ended :
            (c' : Core) (h : ℕ)
            → c'.iocp_handle ≡ some h
            → c'.calls ≡ create_port ∷ wsa_startup ∷ []
            → (initialize env.host s.core).0 ≡ true
            → Exit s (end_game env (start_game env (record s₁ { core = c' })))
        ended c' h port calls started =
            let s₂ = start_game env (record s₁ { core = c' }) in
            let (a, b, c, d, o) = start_game-running (record s₁ { core = c' }) in
            let (stopped, same, t_same) = stop_game-IsStopped keeps s₂ h (a ∙ port) (b ∙ calls) c in
            let final = finalize_lem (stop_game env s₂) m (same ∙ d) in
            elim (Bool-cases env.db_threads_end) [
              | inl end_seen ↦
                  subst (Exit s) (sym (ends_by s₂ true end_seen ∙ ap (returns (pos 0)) final)) (
                    released _ m h loaded (ap (λ r. r.0) e) started end_seen (record {
                      stopped = kept stopped;
                      db_stopped = refl;
                      handles = reset-IsMore s.odbc_calls (stop_game env s₂).odbc_calls m (
                          subst (λ t'. IsReady s.odbc_calls (some m, t')) (sym (t_same ∙ o)) ready);
                    }))
              | inr missed ↦ subst (Exit s) (sym (ends_by s₂ false missed)) (
                  hung (stop_game env s₂) m h loaded (ap (λ r. r.0) e) started missed stopped
                    (same ∙ d))
            ]

    after_db-Exit :
        (r : Option DbManager × Calls)
        → made s ≡ r
        → IsReady s.odbc_calls r
        → Exit s (after_db env s r)
    unfolding after_db
    after_db-Exit (none, t) e ready =
        no_database (record s { odbc_calls = t }) loaded (ap (λ r. r.0) e) refl fresh.no_db
          (unfold IsReady in ready)
    after_db-Exit (some m, t) e ready = after_core-Exit m t e ready

  after_load-Exit :
      Keeps env
      → (s : Process) → IsFresh s
      → (b : Bool) → (load env.ini default_config).0 ≡ b
      → Exit s (after_load env s (b, settings))
  unfolding after_load
  after_load-Exit keeps s fresh false e = bad_settings e
  after_load-Exit keeps s fresh true e = after_db-Exit keeps s fresh e (made s) refl (
      initialize-IsReady env.odbc settings.conn_str (to_size settings.pool_size) settings.health_sec
        s.odbc_calls)

  -- While the other threads leave m_isRunning alone, a game server that starts afresh, and whose
  -- console ends, comes to one of these: it returns -1, with nothing done, if the settings cannot be
  -- used; -2, with each handle of a connection freed as often as it was given, if the database cannot
  -- be reached; -1, with the threads of DBManager still running, if there is no completion port; 0,
  -- if those threads see the end, with Winsock, the port, the threads and each handle given back; or,
  -- if one of them does not, it waits in Finalize, with all but the database given back.
  pub game_main-Exit : Keeps env → (s : Process) → IsFresh s → Exit s (game_main env s)
  unfolding game_main
  game_main-Exit keeps s fresh = after_load-Exit keeps s fresh (load env.ini default_config).0 refl
