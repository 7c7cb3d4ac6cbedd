-- ===== src/IocpCore.antt =====
-- ServerCoreLibrary/IocpCore.cpp and IocpContext.h: what a worker thread does with the completions
-- that it takes from the port.
pub mod Worker
pub mod Start
mod Tests
use iocpserver.Prelude.{
  ℕ, zero, suc, ◌*◌, Bool, true, false, not, List, [], ◌∷◌, replicate, if◌then◌else◌,
}
use iocpserver.World.{World, SessionType, OsCall, Os, call}
use iocpserver.Dispatcher.{Handlers}
use iocpserver.Session.{disconnect, on_send_completed}
use iocpserver.Receive.{Outcome, done, crashed, out_of_fuel, on_recv_completed}
use iocpserver.Listener.{post_accept, on_accept_completed}

-- AcceptCtx, RecvCtx and SendCtx, by what the completion is handled with. The key of an accept is
-- the listener, here its socket.
pub data IocpContext : Type 0 where
  accept_ctx : ℕ → SessionType → IocpContext
  recv_ctx : ℕ → List ℕ → IocpContext
  send_ctx : ℕ → IocpContext

-- What GetQueuedCompletionStatus returns: a null OVERLAPPED, or the result, the key, the context
-- and the number of bytes.
pub data Dequeued : Type 0 where
  null_overlapped : Dequeued
  completed : Bool → ℕ → IocpContext → ℕ → Dequeued

-- Where a worker comes to: it waits for a completion, or its loop has ended and the port holds the
-- rest.
pub data Worked : Type 0 where
  waits : World → Worked
  ended : World → List Dequeued → Worked
  faulted : Worked
  exhausted : Worked

module _ (os : Os) (hs : Handlers World) (fuel : ℕ) where
  -- A completion that failed.
  unfoldable pub failed : World → ℕ → IocpContext → World
  failed w key (IocpContext.accept_ctx accepted type) =
      (post_accept os (call w (OsCall.closesocket accepted)) key type).1
  failed w key (IocpContext.recv_ctx p buf) = disconnect w key
  failed w key (IocpContext.send_ctx p) = disconnect w key

  unfoldable pub succeeded : World → ℕ → IocpContext → ℕ → Outcome
  succeeded w key (IocpContext.accept_ctx accepted type) n =
      done (on_accept_completed os w key accepted type)
  succeeded w key (IocpContext.recv_ctx p buf) n = on_recv_completed os hs fuel w p buf n
  succeeded w key (IocpContext.send_ctx p) n = done (on_send_completed os w p n)

  unfoldable pub handle : World → Dequeued → Outcome
  unfolding failed succeeded
  handle w null_overlapped = done w
  handle w (completed ok key ctx n) = if ok then succeeded w key ctx n else done (failed w key ctx)

  -- A worker that is in GetQueuedCompletionStatus, on what the port then holds. It tests the flag
  -- when it has taken a completion, and again at the head of its loop.
  unfoldable pub take_next : World → List Dequeued → Worked
  unfolding handle
  take_next w [] = waits w
  take_next w (d ∷ ds) =
      if w.is_running
      then elim (handle w d) [
        | done w' ↦ (let later = take_next w' ds in if w'.is_running then later else ended w' ds)
        | crashed ↦ faulted
        | out_of_fuel ↦ exhausted
      ]
      else ended w ds

  -- WorkerLoop
  unfoldable pub worker_loop : World → List Dequeued → Worked
  unfolding take_next
  worker_loop w ds = if w.is_running then take_next w ds else ended w ds

  -- Workers that are all in GetQueuedCompletionStatus, one after the other: what the last leaves.
  unfoldable pub take_each : ℕ → World → List Dequeued → Worked
  unfolding take_next
  take_each zero w ds = ended w ds
  take_each (suc n) w ds = elim (take_next w ds) [
    | waits w' ↦ waits w'
    | ended w' ds' ↦ take_each n w' ds'
    | faulted ↦ faulted
    | exhausted ↦ exhausted
  ]

-- Run: two workers for each processor.
unfoldable pub run_core : ℕ → World → ℕ × World
run_core processors w = (processors * 2, record w { is_running = true })

-- ShutDown: one null completion for each worker, the first time.
unfoldable pub shut_down : ℕ → World → List Dequeued × World
shut_down workers w =
    if w.is_running
    then (replicate workers null_overlapped, record w { is_running = false })
    else ([], w)
