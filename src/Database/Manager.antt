-- ===== src/Database/Manager.antt =====
-- GameServer/DBManager.h and DBManager.cpp: the queue of tasks, its workers, and the call of
-- gp_Check_Account. The threads are interleaved step by step, as the mutex of the queue allows:
-- `Finalize` sets `m_running` without it.
pub mod Order
pub mod Stop
pub mod Ends
pub mod Answers
pub mod Turn
use iocpserver.Prelude.{
  ℕ, zero, suc, ◌<◌, ◌≡◌, Bool, true, false, Option, none, some, List, [], ◌∷◌, ◌++◌, ltb,
  if◌then◌else◌,
}
use iocpserver.Prelude.Int.{ℤ, pos, negsuc, ltb_ℤ}
use iocpserver.Database.Stmt.{
  new_stmt, free_statement, prepare_call, bind_in_w_char, bind_out_int64, exec, exec_text, and_then,
}
use iocpserver.World.{Task, update}
use iocpserver.Database.{free_env, Calls, Odbc, Conn, ConnPool, new_env, new_pool, free_pool}

-- The members that Initialize sets: the environment, the pool, the interval of the health check,
-- m_running, and how many workers it starts.
pub record DbManager : Type 0 where
  pub env : ℕ
  pub pool : ConnPool
  pub health_sec : ℤ
  pub is_running : Bool
  pub workers : ℕ

-- The pool is built from the environment, which stays when the pool's constructor throws.
unfoldable pub with_pool : ℕ → ℤ → ℕ → Option ConnPool × Calls → Option DbManager × Calls
with_pool env health_sec n (none, t) = (none, t)
with_pool env health_sec n (some p, t) = (
  some (record {
    env = env;
    pool = p;
    health_sec = if ltb_ℤ (pos 0) health_sec then health_sec else pos 10;
    is_running = true;
    workers = n;
  }),
  t,
)

unfoldable pub with_env : Odbc → List ℕ → ℕ → ℤ → Option ℕ × Calls → Option DbManager × Calls
unfolding with_pool new_pool
with_env odbc conn_str n health_sec (none, t) = (none, t)
with_env odbc conn_str n health_sec (some env, t) =
    with_pool env health_sec n (new_pool odbc env conn_str n t)

-- Initialize. The pool size is positive.
unfoldable pub initialize : Odbc → List ℕ → ℕ → ℤ → Calls → Option DbManager × Calls
unfolding with_env new_env
initialize odbc conn_str n health_sec t = with_env odbc conn_str n health_sec (new_env odbc t)

-- The end of Finalize, when the threads have ended.
unfoldable pub reset : DbManager → Calls → Calls
unfolding free_pool
reset m t = free_env m.env ∷ free_pool m.pool t

-- The statement that `Call_CheckToken` runs, "{CALL dbo.gp_Check_Account(?, ?, ?)}", and that of
-- HealthProc, "SELECT 1", are texts; `id` and `pw` are the converted ones, `out` is `outUnique`.
module _ (odbc : Odbc) (call_text select_text : List ℕ) where
  unfoldable pub check_with : List ℕ → List ℕ → ℕ → Option ℕ × Calls → Option Bool × Calls
  unfolding prepare_call bind_in_w_char bind_out_int64 exec and_then free_statement
  check_with id pw out (none, t) = (none, t)
  check_with id pw out (some st, t) =
      let (ok, t') = and_then odbc (exec odbc st) (
        and_then odbc (bind_out_int64 odbc st 3 out) (
          and_then odbc (bind_in_w_char odbc st 2 pw)
            (and_then odbc (bind_in_w_char odbc st 1 id) (prepare_call odbc st call_text t)))) in
      (some ok, free_statement st t')

  -- Call_CheckToken: the calls until one fails, and the destructor of the statement. `none` is the
  -- exception of a statement that cannot be made.
  unfoldable pub call_check_token : Conn → List ℕ → List ℕ → ℕ → Calls → Option Bool × Calls
  unfolding check_with new_stmt
  call_check_token c id pw out t = check_with id pw out (new_stmt odbc c t)

  select_with : Option ℕ × Calls → Calls
  unfolding exec_text free_statement
  select_with (none, t) = t
  select_with (some st, t) = free_statement st (exec_text odbc st select_text t).1

  -- What HealthProc does with a leased connection.
  unfoldable pub check_health : Conn → Calls → Calls
  unfolding select_with new_stmt
  check_health c t = select_with (new_stmt odbc c t)

-- Where a worker stands. It has the mutex while it looks, and from there until it sleeps or has
-- taken a task.
pub data Worker : Type 0 where
  top : Worker  -- the test of the outer loop
  looking : Worker  -- before the predicate of the wait
  found_none : Worker  -- the predicate was false, and the wait is about to sleep
  sleeping : Worker
  woken : Worker  -- without the mutex still
  running : Task → Worker
  ended : Worker

-- The tasks pushed and those taken are kept for the statements; the program has the queue only.
pub record System : Type 0 where
  pub is_running : Bool
  pub queue : List Task
  pub worker : ℕ → Worker
  pub pushed : List Task
  pub taken : List Task
  pub notified : Bool

abbrev pub has_lock : Worker → Bool
has_lock top = false
has_lock looking = true
has_lock found_none = true
has_lock sleeping = false
has_lock woken = false
has_lock (running task) = false
has_lock ended = false

-- notify_all
abbrev pub wake : Worker → Worker
wake top = top
wake looking = looking
wake found_none = found_none
wake sleeping = woken
wake woken = woken
wake (running task) = running task
wake ended = ended

abbrev pub IsFree : System → Type 0
IsFree s = (i : ℕ) → has_lock (s.worker i) ≡ false

abbrev pub at : System → ℕ → Worker → System
at s i c = record s { worker = update s.worker i c }

-- What a worker thread does next.
pub data WorkerStep (s : System) : System → Type 0 where
  enters :
      (i : ℕ) → s.worker i ≡ top → s.is_running ≡ true → IsFree s → WorkerStep s (at s i looking)
  leaves : (i : ℕ) → s.worker i ≡ top → s.is_running ≡ false → WorkerStep s (at s i ended)
  sees_none :
      (i : ℕ)
      → s.worker i ≡ looking
      → s.is_running ≡ true
      → s.queue ≡ []
      → WorkerStep s (at s i found_none)
  falls_asleep : (i : ℕ) → s.worker i ≡ found_none → WorkerStep s (at s i sleeping)
  gets_lock : (i : ℕ) → s.worker i ≡ woken → IsFree s → WorkerStep s (at s i looking)
  stops :
      (i : ℕ)
      → s.worker i ≡ looking
      → s.is_running ≡ false
      → s.queue ≡ []
      → WorkerStep s (at s i ended)
  takes :
      (i : ℕ) (task : Task) (rest : List Task)
      → s.worker i ≡ looking
      → s.queue ≡ task ∷ rest
      → WorkerStep s
          (record (at s i (running task)) { queue = rest; taken = s.taken ++ (task ∷ []) })
  finishes : (i : ℕ) (task : Task) → s.worker i ≡ running task → WorkerStep s (at s i top)

-- And what else happens: Push, the waking of one sleeping worker, which notify_one causes or
-- nothing does, and Finalize, which clears the flag and then notifies all.
pub data Step (s : System) : System → Type 0 where
  works : {t : System} → WorkerStep s t → Step s t
  pushes :
      (task : Task)
      → IsFree s
      → Step s (record s { queue = s.queue ++ (task ∷ []); pushed = s.pushed ++ (task ∷ []) })
  notifies_one : (i : ℕ) → s.worker i ≡ sleeping → Step s (at s i woken)
  clears : Step s (record s { is_running = false })
  notifies_all :
      s.is_running ≡ false → Step s (record s { worker = λ i. wake (s.worker i); notified = true })

-- `n` workers; no thread stands behind the other numbers.
abbrev pub start : ℕ → System
start n = record {
  is_running = true;
  queue = [];
  worker = λ i. if ltb i n then top else ended;
  pushed = [];
  taken = [];
  notified = false;
}

pub data Reach (n : ℕ) : System → Type 0 where
  here : Reach n (start n)
  next : {s t : System} → Reach n s → Step s t → Reach n t

-- Steps of the workers alone.
pub data WorkerSteps (s : System) : System → Type 0 where
  none_more : WorkerSteps s s
  then_one : {t u : System} → WorkerSteps s t → WorkerStep t u → WorkerSteps s u
