-- ===== src/Database/Manager/Order.antt =====
-- The mutex of the queue, and the order in which tasks are taken.
use iocpserver.Prelude.{
  ℕ, ◌≡◌, ◌≢◌, refl, sym, ap, ◌∙◌, ◌⊎◌, inl, inr, true, false, [], ◌∷◌, ◌++◌, append_assoc, ◌==◌,
  ==_iff, ==_refl, Bool-cases, if◌then◌else◌, ltb,
}
use iocpserver.World.{update, update_self, update_other}
use iocpserver.Database.Manager.{
  Worker, top, looking, found_none, sleeping, woken, running, ended, System, has_lock, wake, IsFree,
  at, WorkerStep, enters, leaves, sees_none, falls_asleep, gets_lock, stops, takes, finishes, Step,
  works, pushes, notifies_one, clears, notifies_all, start, Reach, here, next,
}

-- At most one worker has the mutex, and the tasks taken and those in the queue are the tasks
-- pushed, in order.
pub record IsOrdered (s : System) : Type 0 where
  pub exclusive : (i j : ℕ) → has_lock (s.worker i) ≡ true → has_lock (s.worker j) ≡ true → i ≡ j
  pub fifo : s.pushed ≡ s.taken ++ s.queue

-- Who has the mutex after worker `i` went on to `c`: that worker, or one that had it before.
Holder : (s : System) → ℕ → Worker → ℕ → Type 0
Holder s i c j = (j ≡ i) × (has_lock c ≡ true) ⊎ (has_lock (s.worker j) ≡ true)

at-Holder :
    (s : System) (i : ℕ) (c : Worker) (j : ℕ)
    → has_lock ((at s i c).worker j) ≡ true
    → Holder s i c j
unfolding Holder
at-Holder s i c j h = elim (Bool-cases (j == i)) [
  | inl same ↦
      let is_i = (==_iff j i).0 same in
      inl (is_i, sym (ap has_lock (ap (update s.worker i c) is_i ∙ update_self s.worker i c)) ∙ h)
  | inr other ↦ inr (sym (ap has_lock (update_other s.worker i c j (differ other))) ∙ h)
]
  where
    differ : (j == i) ≡ false → j ≢ i
    differ other q = cc (sym other, ap (λ x. x == i) q, ==_refl i)

-- The worker had the mutex before if it has it after, or nobody did.
at-exclusive :
    (s : System) (i : ℕ) (c : Worker)
    → ((j k : ℕ) → has_lock (s.worker j) ≡ true → has_lock (s.worker k) ≡ true → j ≡ k)
    → (has_lock c ≡ true → (has_lock (s.worker i) ≡ true) ⊎ IsFree s)
    → (j k : ℕ) → has_lock ((at s i c).worker j) ≡ true
    → has_lock ((at s i c).worker k) ≡ true
    → j ≡ k
unfolding Holder
at-exclusive s i c one before j k h l = both (at-Holder s i c j h) (at-Holder s i c k l)
  where
    free_not : (m : ℕ) → IsFree s → has_lock (s.worker m) ≢ true
    free_not m free e = absurd (cc (free m, e))

    with_old : (m : ℕ) → has_lock c ≡ true → has_lock (s.worker m) ≡ true → i ≡ m
    with_old m now e = elim (before now) [
      | inl mine ↦ one i m mine e
      | inr free ↦ absurd (free_not m free e)
    ]

    both : Holder s i c j → Holder s i c k → j ≡ k
    both (inl (p, now)) (inl (q, z)) = p ∙ sym q
    both (inl (p, now)) (inr e) = p ∙ with_old k now e
    both (inr e) (inl (q, now)) = sym (q ∙ with_old j now e)
    both (inr e) (inr f) = one j k e f

wake-has_lock : (w : Worker) → has_lock (wake w) ≡ has_lock w
wake-has_lock top = refl
wake-has_lock looking = refl
wake-has_lock found_none = refl
wake-has_lock sleeping = refl
wake-has_lock woken = refl
wake-has_lock (running task) = refl
wake-has_lock ended = refl

never : {A : Type 0} → false ≡ true → A
never e = absurd (cc e)

WorkerStep-IsOrdered : {s t : System} → WorkerStep s t → IsOrdered s → IsOrdered t
WorkerStep-IsOrdered {s} (enters i at_top on free) o = record {
  exclusive = at-exclusive s i looking o.exclusive (λ now. inr free);
  fifo = o.fifo;
}
WorkerStep-IsOrdered {s} (leaves i at_top off) o = record {
  exclusive = at-exclusive s i ended o.exclusive never;
  fifo = o.fifo;
}
WorkerStep-IsOrdered {s} (sees_none i e on none_left) o = record {
  exclusive = at-exclusive s i found_none o.exclusive (λ now. inl (ap has_lock e));
  fifo = o.fifo;
}
WorkerStep-IsOrdered {s} (falls_asleep i e) o = record {
  exclusive = at-exclusive s i sleeping o.exclusive never;
  fifo = o.fifo;
}
WorkerStep-IsOrdered {s} (gets_lock i e free) o = record {
  exclusive = at-exclusive s i looking o.exclusive (λ now. inr free);
  fifo = o.fifo;
}
WorkerStep-IsOrdered {s} (stops i e off none_left) o = record {
  exclusive = at-exclusive s i ended o.exclusive never;
  fifo = o.fifo;
}
WorkerStep-IsOrdered {s} (takes i task rest e q) o = record {
  exclusive = at-exclusive s i (running task) o.exclusive never;
  fifo = o.fifo ∙ ap (λ l. s.taken ++ l) q ∙ sym (append_assoc s.taken (task ∷ []) rest);
}
WorkerStep-IsOrdered {s} (finishes i task e) o = record {
  exclusive = at-exclusive s i top o.exclusive never;
  fifo = o.fifo;
}

pub Step-IsOrdered : {s t : System} → Step s t → IsOrdered s → IsOrdered t
Step-IsOrdered (works step) o = WorkerStep-IsOrdered step o
Step-IsOrdered {s} (pushes task free) o = record {
  exclusive = o.exclusive;
  fifo = ap (λ l. l ++ (task ∷ [])) o.fifo ∙ append_assoc s.taken s.queue (task ∷ []);
}
Step-IsOrdered {s} (notifies_one i e) o = record {
  exclusive = at-exclusive s i woken o.exclusive never;
  fifo = o.fifo;
}
Step-IsOrdered clears o = record { exclusive = o.exclusive; fifo = o.fifo }
Step-IsOrdered {s} (notifies_all off) o = record {
  exclusive = λ i j h k.
      o.exclusive i j (sym (wake-has_lock (s.worker i)) ∙ h) (sym (wake-has_lock (s.worker j)) ∙ k);
  fifo = o.fifo;
}

pub start-IsFree : (n : ℕ) → IsFree (start n)
start-IsFree n i = elim (Bool-cases (ltb i n)) [
  | inl lt ↦ ap (λ b. has_lock (if b then top else ended)) lt
  | inr ge ↦ ap (λ b. has_lock (if b then top else ended)) ge
]

-- However many workers there are and whatever the order of the steps: at most one worker has the
-- mutex, and the tasks taken so far and those still in the queue are the tasks pushed, in order.
pub Reach-IsOrdered : {n : ℕ} {s : System} → Reach n s → IsOrdered s
Reach-IsOrdered {n} here = record {
  exclusive = λ i j h k. absurd (cc (start-IsFree n i, h));
  fifo = refl;
}
Reach-IsOrdered (next r step) = Step-IsOrdered step (Reach-IsOrdered r)
