-- ===== src/ReadyQueue/Invariant.antt =====
-- What holds of the ready queue between two calls, and what each call does to it.
use architecture_evolution_f.Prelude.{
  ℕ, ◌≡◌, refl, true, false, List, [], ◌∷◌, arith, has, ◌∉◌, Distinct,
}
use architecture_evolution_f.Task.{TaskStruct}
use architecture_evolution_f.ReadyQueue.{Ready, ok, insert, set_queued, task_enqueue_check}
use architecture_evolution_f.ReadyQueue.Order.{
  IsSorted, insert-IsSorted, has-insert, IsSorted-set_queued,
}

-- No task is queued twice, the flags tell who is queued, and the order is kept.
pub record WellFormed (s : Ready) : Type 0 where
  pub distinct : Distinct s.queue
  pub flags : (t : ℕ) → (s.tasks t).in_ready_queue ≡ has t s.queue
  pub sorted : IsSorted s.tasks s.queue

Distinct-insert :
    (tasks : ℕ → TaskStruct) (new : ℕ) (xs : List ℕ)
    → new ∉ xs
    → Distinct xs
    → Distinct (insert tasks new xs)
unfolding insert
Distinct-insert tasks new [] out d = (refl, tt)
Distinct-insert tasks new (x ∷ xs) out d =
    ground (arith, Distinct-insert tasks new xs, has-insert tasks x new xs)

-- A call that returns has queued a task that was not queued.
pub enqueue-IsFree :
    (s : Ready) (t : ℕ) {s' : Ready}
    → task_enqueue_check s t ≡ ok s'
    → (s.tasks t).in_ready_queue ≡ false
unfolding task_enqueue_check
enqueue-IsFree s t e = ground arith

abbrev pub enqueued : Ready → ℕ → Ready
enqueued s t = record {
  tasks = set_queued s.tasks t true;
  queue = insert (set_queued s.tasks t true) t s.queue;
}

pub enqueue_lem :
    (s : Ready) (t : ℕ) {s' : Ready} → task_enqueue_check s t ≡ ok s' → enqueued s t ≡ s'
unfolding task_enqueue_check
enqueue_lem s t e = ground arith

pub enqueued-WellFormed :
    (s : Ready) (t : ℕ) → WellFormed s → t ∉ s.queue → WellFormed (enqueued s t)
enqueued-WellFormed s t w out = record {
  distinct = Distinct-insert (set_queued s.tasks t true) t s.queue out w.distinct;
  flags = λ u. ground (arith, w.flags u, has-insert (set_queued s.tasks t true) u t s.queue);
  sorted =
      insert-IsSorted (set_queued s.tasks t true) t s.queue
        (IsSorted-set_queued s.tasks t true s.queue w.sorted);
}
