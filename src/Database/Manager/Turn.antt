-- ===== src/Database/Manager/Turn.antt =====
-- GameServer/DBManager.cpp: what a worker does with the task that it has taken. The connection is
-- leased and given back; the statement on it is freed whether its calls succeed or not.
use iocpserver.Prelude.{
  ℕ, zero, suc, ◌≡◌, Bool, true, false, if◌then◌else◌, Option, none, some, List, [], ◌∷◌, ◌++◌,
  drop, ◌<◌,
}
use iocpserver.Prelude.Int.{ℤ, negsuc, to_int32, to_size}
use iocpserver.World.{World, Task, Job}
use iocpserver.Database.{Calls, Odbc, Conn, ConnPool, acquire, release_conn}
use iocpserver.Database.Manager.{call_check_token}
use iocpserver.Database.Manager.Answers.{IsBalanced, Checked}
use iocpserver.Game.Handlers.{work}

abbrev leased : List Conn → ℕ → Option Conn
leased [] i = none
leased (c ∷ cs) zero = some c
leased (c ∷ cs) (suc i) = leased cs i

-- Beside ODBC: the conversion of a text, what the database writes into `outUnique`, and what the
-- memory of a packet holds when its task runs.
pub record Checks : Type 0 where
  pub odbc : Odbc
  pub call_text : List ℕ
  pub to_wide : List ℕ → List ℕ
  pub written : Calls → ℤ
  pub stale : List ℕ → List ℕ

module _ (k : Checks) where
  -- `unique` is -1 until the statement has run; the callback is called whether it has or not.
  unfoldable pub unique_of : Option Bool × Calls → Option ℤ × Calls
  unique_of (none, t) = (none, t)
  unique_of (some true, t) = (some (k.written t), t)
  unique_of (some false, t) = (some (negsuc 0), t)

  -- The function that Enqueue_CheckAccount puts into the queue.
  unfoldable pub check_account : Conn → List ℕ → Calls → Option ℤ × Calls
  unfolding unique_of call_check_token
  check_account c packet t = unique_of (
      call_check_token k.odbc k.call_text [] c (k.to_wide (drop 4 packet))
        (k.to_wide (drop 304 packet)) 0 t)

  unfoldable pub run_task : Conn → Task → Calls → Option ℤ × Calls
  unfolding check_account
  run_task c (Task.check_account sid packet) t = check_account c (k.stale packet) t

  unfoldable on_conn :
      World → Task → ConnPool → Calls → List ℕ → ℕ → Option Conn → Option (World × ConnPool × Calls)
  unfolding run_task work release_conn
  on_conn w task pool t free idx none = none
  on_conn w task pool t free idx (some c) =
      let (answer, t') = run_task c task t in
      some (work answer w, record pool { free = release_conn idx free }, t')

  unfoldable on_lease :
      World → Task → ConnPool → Calls → Option (List ℕ × ℕ) → Option (World × ConnPool × Calls)
  unfolding on_conn
  on_lease w task pool t none = none
  on_lease w task pool t (some (free, idx)) = on_conn w task pool t free idx (leased pool.pool idx)

  -- A turn of WorkerProc; `none` waits for a task or for a connection.
  unfoldable pub worker_turn : World → ConnPool → Calls → Option (World × ConnPool × Calls)
  unfolding on_lease acquire
  worker_turn w pool t = elim w.tasks [
    | [] ↦ none
    | task ∷ tasks ↦ on_lease w task pool t (acquire pool.free)
  ]

-- The database's answer by what comes of the check: none without a statement, else what the
-- database has written if all the calls ran, and -1 if one failed.
abbrev pub answer_of : Checks → Option Bool × Calls → Option ℤ
answer_of k (none, t) = none
answer_of k (some ok, t) = some (if ok then k.written t else negsuc 0)

-- The job with which an answer reaches the game thread: the number is cut to an `int`.
abbrev pub told : ℕ → List ℕ → Option ℤ → List Job
told sid packet none = []
told sid packet (some unique) = Job.login sid (to_int32 (to_size unique)) packet ∷ []

abbrev pub AreBelow : ℕ → List ℕ → Type 0
AreBelow n [] = Unit {0}
AreBelow n (i ∷ is) = (i < n) × AreBelow n is

-- What a turn comes to when the oldest task is of the session `sid`: the check of its account ran as
-- `Checked` says, its answer is posted, the pool is as before, and each statement handle is in use
-- as often as before.
pub record Turned (k : Checks) (w : World) (pool : ConnPool) (t : Calls) (sid : ℕ) (packet : List ℕ)
    (tasks : List Task) : Type 0 where
  pub conn : Conn
  pub result : Option Bool × Calls
  pub check :
      Checked k.odbc k.call_text
        (k.to_wide (drop 4 (k.stale packet)))
        (k.to_wide (drop 304 (k.stale packet)))
        0
        conn.handle
        t
        result
  pub turn :
      worker_turn k w pool t
      ≡ some (
        record w { tasks = tasks; jobs = w.jobs ++ told sid packet (answer_of k result) },
        pool,
        result.1,
      )
  pub balanced : IsBalanced t result.1
