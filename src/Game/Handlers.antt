-- ===== src/Game/Handlers.antt =====
-- GameServer/GamePacketHandler.cpp, GameDispatcher.h, the queue of DBManager.cpp and the loop of
-- GameManager.cpp: what the packets of a client do, on the worker that receives them, on the
-- database's worker and on the game thread.
use iocpserver.Prelude.{
  ℕ, zero, suc, ◌-◌, ◌^◌, Bool, true, false, not, Option, none, some, List, [], ◌∷◌, ◌++◌, length,
  take, drop, slice, ltb, leb, ◌==◌, ◌||◌, if◌then◌else◌, ◌>>=◌,
}
use iocpserver.Prelude.Int.{ℤ, to_int32, to_size}
use iocpserver.World.{World, Job, Task, Os}
use iocpserver.SessionManager.{find_by_token}
use iocpserver.Session.{send_packet}
use iocpserver.Session.Broadcast.{broadcast_active}
use iocpserver.Packet.{size_cp_login}
use iocpserver.Packet.Structs.{sp_echo, sp_login, sp_chat}
use iocpserver.Game.{login, logout, find_user_by_id}

-- c_str(), up to its first 0.
unfoldable pub c_string : List ℕ → List ℕ
c_string [] = []
c_string (b ∷ bs) = if b == 0 then [] else b ∷ c_string bs

-- GameDispatcher::Post
unfoldable pub post : Job → World → World
post job w = record w { jobs = w.jobs ++ (job ∷ []) }

-- DBManager::Push
unfoldable pub push_task : Task → World → World
push_task task w = record w { tasks = w.tasks ++ (task ∷ []) }

module _ (os : Os) where
  -- `strcpy_s` of a text that does not fit ends the program.
  unfoldable pub handle_eco : World → ℕ → List ℕ → ℕ → Option World
  handle_eco w p bytes size =
      let msg = c_string (drop 4 (take size bytes)) in
      if ltb size 4 || leb 1000 (length msg) then none else some (send_packet os w p (sp_echo msg))

  unfoldable pub handle_db_eco : World → ℕ → List ℕ → ℕ → Option World
  handle_db_eco w p bytes size =
      let msg = c_string (drop 4 (take size bytes)) in
      if ltb size 4 || leb 1000 (length msg) then none else some (send_packet os w p (sp_echo msg))

  unfoldable pub chat : World → List ℕ → Option ℕ → World
  chat w text none = w
  chat w text (some u) =
      broadcast_active os (sp_chat (to_size (w.game.units u).unique) (w.game.units u).name text) w

  -- `beyond` is what stands behind the packet in the receiver's buffer; the guard lets a packet
  -- through that ends before its text does.
  unfoldable pub handle_chat : List ℕ → World → ℕ → List ℕ → ℕ → Option World
  unfolding chat
  handle_chat beyond w p bytes size =
      if ltb size size_cp_login
      then some w
      else some (
          chat w (slice (bytes ++ beyond) 4 1000) (find_user_by_id w.game (w.session p).session_id))

  unfoldable pub handle_login : World → ℕ → List ℕ → ℕ → Option World
  unfolding push_task
  handle_login w p bytes size =
      if ltb size size_cp_login
      then some w
      else some (push_task (Task.check_account (w.session p).session_id bytes) w)

  -- The session is looked up when the job runs; `memory` is what is then read where `pMsg` leads,
  -- `none` if the read is undefined behaviour.
  unfoldable pub answer_login : World → ℤ → Option (List ℕ) → Option ℕ → Option World
  answer_login w unique memory none = some w
  answer_login w unique memory (some p) = do
    packet ← memory
    w' ← login w p unique (slice packet 4 300)
    some (
        send_packet os w' p (
          sp_login (if to_size unique == 0 then 2 ^ 32 - 1 else 0) (to_size unique)
            (slice packet 4 300) (slice packet 304 300)))

  -- `stale` gives what is read in the place of a packet, whose buffer has gone, when its job runs.
  module _ (stale : List ℕ → Option (List ℕ)) where
    unfoldable pub run_job : Job → World → Option World
    unfolding answer_login
    run_job (Job.logout sid) w = some (record w { game = logout sid w.game })
    run_job (Job.login sid unique packet) w =
        answer_login w unique (stale packet) (find_by_token w sid)

    -- GameDispatcher::Drain. A job is taken out before it runs.
    unfoldable pub drain : ℕ → World → Option World
    unfolding run_job
    drain zero w = some w
    drain (suc max_jobs) w = elim w.jobs [
      | [] ↦ some w
      | job ∷ jobs ↦ do w' ← run_job job (record w { jobs = jobs }); drain max_jobs w'
    ]

    -- CGameManager::RunLoop: the frames while m_bRunning, each with what the other threads do before
    -- the next, and the jobs that are left.
    unfoldable pub run_loop : List (World → World) → World → Option World
    unfolding drain
    run_loop [] w = drain 100000 w
    run_loop (others ∷ frames) w = drain 2000 w >>= (λ w'. run_loop frames (others w'))

-- StartLoop and StopLoop on m_bRunning: the first starts a thread if none runs, the second ends it.
unfoldable pub start_loop : Bool → Bool × Bool
start_loop running = (not running, true)

unfoldable pub stop_loop : Bool → Bool × Bool
stop_loop running = (running, false)

-- One round of DBManager::WorkerProc on its oldest task: the database's answer is turned to an
-- `int` and posted to the game thread; a task that throws is lost.
unfoldable pub post_answer : Task → Option ℤ → World → World
unfolding post
post_answer task none w = w
post_answer (Task.check_account sid packet) (some unique) w =
    post (Job.login sid (to_int32 (to_size unique)) packet) w

unfoldable pub work : Option ℤ → World → World
unfolding post_answer
work answer w = elim w.tasks [
  | [] ↦ w
  | task ∷ tasks ↦ post_answer task answer (record w { tasks = tasks })
]
