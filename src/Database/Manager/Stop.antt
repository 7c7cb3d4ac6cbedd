-- ===== src/Database/Manager/Stop.antt =====
-- A stop that no worker hears: `Finalize` clears `m_running` and notifies without the mutex, so it
-- can do both between a worker's test of the predicate and its sleep.
use iocpserver.Prelude.{ℕ, ◌≡◌, ◌≢◌, refl, sym, ap, ◌∙◌, true, false}
use iocpserver.World.{update_self, update_other}
use iocpserver.Database.Manager.{
  Worker, top, looking, found_none, sleeping, running, ended, System, wake, at, WorkerStep, enters,
  leaves, sees_none, falls_asleep, gets_lock, stops, takes, finishes, works, clears, notifies_all,
  Reach, next, WorkerSteps, none_more, then_one,
}

-- The workers' own steps wake nobody.
kept :
    (s : System) (i j : ℕ) (c : Worker)
    → s.worker i ≡ sleeping
    → s.worker j ≢ sleeping
    → (at s j c).worker i ≡ sleeping
kept s i j c e other = update_other s.worker j c i (λ q. other (ap s.worker (sym q) ∙ e)) ∙ e

WorkerStep-sleeping :
    {s t : System} → WorkerStep s t → (i : ℕ) → s.worker i ≡ sleeping → t.worker i ≡ sleeping
WorkerStep-sleeping {s} (enters j e on free) i h = kept s i j looking h (λ q. cc (e, q))
WorkerStep-sleeping {s} (leaves j e off) i h = kept s i j ended h (λ q. cc (e, q))
WorkerStep-sleeping {s} (sees_none j e on none_left) i h = kept s i j found_none h (λ q. cc (e, q))
WorkerStep-sleeping {s} (falls_asleep j e) i h = kept s i j sleeping h (λ q. cc (e, q))
WorkerStep-sleeping {s} (gets_lock j e free) i h = kept s i j looking h (λ q. cc (e, q))
WorkerStep-sleeping {s} (stops j e off none_left) i h = kept s i j ended h (λ q. cc (e, q))
WorkerStep-sleeping {s} (takes j task rest e q) i h = kept s i j (running task) h (λ z. cc (e, z))
WorkerStep-sleeping {s} (finishes j task e) i h = kept s i j top h (λ q. cc (e, q))

pub WorkerSteps-sleeping :
    {s t : System} → WorkerSteps s t → (i : ℕ) → s.worker i ≡ sleeping → t.worker i ≡ sleeping
WorkerSteps-sleeping none_more i h = h
WorkerSteps-sleeping (then_one steps step) i h =
    WorkerStep-sleeping step i (WorkerSteps-sleeping steps i h)

-- Finalize between the test of worker `i` and its sleep.
abbrev missed : System → ℕ → System
missed s i =
    at (record s { is_running = false; worker = λ j. wake (s.worker j); notified = true }) i
      sleeping

-- In any state that can be reached in which a worker has found the queue empty and is about to
-- sleep, Finalize can clear the flag and notify before it does. Then the flag is cleared and all
-- are notified, and whatever steps the workers take from there, that worker sleeps.
pub stop_missed :
    {n : ℕ} {s : System}
    → Reach n s
    → (i : ℕ) → s.worker i ≡ found_none
    → (t : System) × Reach n t
      × (t.is_running ≡ false)
      × (t.notified ≡ true)
      × ((u : System) → WorkerSteps t u → u.worker i ≡ sleeping)
stop_missed {n} {s} r i e = (
  missed s i,
  next (next (next r clears) (notifies_all refl)) (works (falls_asleep i (ap wake e))),
  refl,
  refl,
  λ u steps. WorkerSteps-sleeping steps i (update_self (λ j. wake (s.worker j)) i sleeping),
)
