-- ===== src/Database/Tests.antt =====
-- Two threads on one connection, and one worker.
use iocpserver.Prelude.{◌≡◌, refl, true, false, [], length, arith}
use iocpserver.World.{update}
use iocpserver.Database.{Odbc, new_pool, acquire, release_conn}
use iocpserver.Vector.{unsnoc, snoc_of}
use iocpserver.Database.Init.{IsBuilt, new_pool-IsBuilt}
use iocpserver.Database.Pool.{
  idle, waiting, sleeping, holding, System, asks, sleeps, takes, moves, Reach, here, next,
}
use iocpserver.Database.Pool.Leases.{IsLeased, Reach-IsLeased}
use iocpserver.Database.Pool.Progress.{Moves, Holds, can_acquire}
use iocpserver.Database.Manager
use iocpserver.Database.Manager.Order.{start-IsFree, IsOrdered, Reach-IsOrdered}
use iocpserver.Database.Manager.Stop.{stop_missed}

-- Every call succeeds, and a handle is how many calls there were.
abbrev fine : Odbc
fine = record { succeeds = λ t c. true; handle = λ t c. length t }

new_pool-IsBuilt_example : IsBuilt fine 5 [] [] 2 [] (new_pool fine 5 [] 2 [])
new_pool-IsBuilt_example = new_pool-IsBuilt fine 5 [] 2 []

-- One thread holds the only connection, and the other sleeps.
abbrev one_sleeps : System
one_sleeps = record {
  free = [];
  claim =
      update (update (update (update (λ i. idle) 0 waiting) 0 (holding 0)) 1 waiting) 1 sleeping;
}

one_sleeps-Reach : Reach 2 1 one_sleeps
one_sleeps-Reach =
    next
      (next
        (next (next here (moves (asks 0 (omega arith) refl))) (
          moves
            (takes 0 [] 0 (omega arith) refl (unfold acquire unsnoc snoc_of release_conn in refl))))
        (moves (asks 1 (omega arith) refl)))
      (moves (sleeps 1 (omega arith) refl refl))

Reach-IsLeased_example : IsLeased 2 1 one_sleeps
Reach-IsLeased_example = Reach-IsLeased one_sleeps-Reach

can_acquire_example : (t : System) × Moves 2 one_sleeps t × Holds (t.claim 1)
can_acquire_example = can_acquire one_sleeps-Reach (omega arith) 1 (omega arith) tt

abbrev about_to_sleep : Manager.System
about_to_sleep = Manager.at (Manager.at (Manager.start 1) 0 Manager.looking) 0 Manager.found_none

about_to_sleep-Reach : Manager.Reach 1 about_to_sleep
about_to_sleep-Reach =
    Manager.next
      (Manager.next Manager.here (Manager.works (Manager.enters 0 refl refl (start-IsFree 1))))
      (Manager.works (Manager.sees_none 0 refl refl refl))

Reach-IsOrdered_example : IsOrdered about_to_sleep
Reach-IsOrdered_example = Reach-IsOrdered about_to_sleep-Reach

stop_missed_example :
    (t : Manager.System) × Manager.Reach 1 t
    × (t.is_running ≡ false)
    × (t.notified ≡ true)
    × ((u : Manager.System) → Manager.WorkerSteps t u → u.worker 0 ≡ Manager.sleeping)
stop_missed_example = stop_missed about_to_sleep-Reach 0 refl
