-- ===== src/ReadyQueue/Calls.antt =====
-- What each call of the ready queue does, over every queue that is well formed.
use mathlib.Core.List.{Perm, perm_middle}
use mathlib.Core.List.Perm
use architecture_evolution_f.Prelude.{
  ℕ, ◌≡◌, ◌↔◌, refl, sym, ap, subst, ◌∙◌, inl, inr, true, false, Option, none, some, List, [], ◌∷◌,
  ◌++◌, arith, Bool-cases, All, has, ◌∈◌, ◌∉◌, Distinct, if◌then◌else◌,
}
use architecture_evolution_f.Task.{TaskStruct, TaskState}
use architecture_evolution_f.ReadyQueue.{
  Ready, ok, exit, set_state, task_enqueue_check, task_dequeue, dequeue, enqueue_each,
}
use architecture_evolution_f.ReadyQueue.Order.{
  NoneBefore, BehindAll, BeforeAll, insert-perm, insert-splits, insert-set_queued,
  IsSorted-set_queued, has-insert, IsSorted-set_state,
}
use architecture_evolution_f.ReadyQueue.Invariant.{
  WellFormed, enqueue_lem, enqueued, enqueued-WellFormed, enqueue-IsFree,
}

-- Queueing a task that is not queued keeps the queue well formed: no task twice, the flags exact,
-- the order by priority and period.
pub task_enqueue_check-WellFormed :
    (s s' : Ready) (t : ℕ) → WellFormed s → task_enqueue_check s t ≡ ok s' → WellFormed s'
task_enqueue_check-WellFormed s s' t w e =
    subst WellFormed (enqueue_lem s t e)
      (enqueued-WellFormed s t w (sym (w.flags t) ∙ enqueue-IsFree s t e))

-- The process exits exactly when the task is still in the queue, which is a missed deadline.
pub task_enqueue_check-exit :
    (s : Ready) (t : ℕ) → WellFormed s → (task_enqueue_check s t ≡ exit) ↔ (t ∈ s.queue)
unfolding task_enqueue_check
task_enqueue_check-exit s t w = ground (arith, w.flags t)

-- A queued task stands behind every task that it does not go before, the earlier ones of equal
-- priority and period among them, and in front of all that it goes before. Nothing else moves.
pub task_enqueue_check-place :
    (s s' : Ready) (t : ℕ)
    → WellFormed s
    → task_enqueue_check s t ≡ ok s'
    → (front : List ℕ) × (back : List ℕ) × (s.queue ≡ front ++ back)
      × (s'.queue ≡ front ++ t ∷ back)
      × BehindAll s.tasks t front
      × BeforeAll s.tasks t back
task_enqueue_check-place s s' t w e =
    let (front, back, p, q, f, b) = insert-splits s.tasks t s.queue w.sorted in
    (
      front,
      back,
      p,
      sym (ap (λ (r : Ready). r.queue) (enqueue_lem s t e))
          ∙ insert-set_queued s.tasks t true t s.queue
          ∙ q,
      f,
      b,
    )

-- What task_dequeue comes to on a queue: nothing, or the first task.
abbrev pub Dequeued : Ready → Option ℕ × Ready → Type 0
Dequeued s (none, s') = (s.queue ≡ []) × (s' ≡ s)
Dequeued s (some t, s') =
    (s.queue ≡ t ∷ s'.queue)
    × NoneBefore s.tasks t s'.queue
    × WellFormed s'
    × ((s'.tasks t).in_ready_queue ≡ false)

dequeue-Dequeued :
    (tasks : ℕ → TaskStruct) (queue : List ℕ)
    → WellFormed (record { tasks = tasks; queue = queue })
    → Dequeued (record { tasks = tasks; queue = queue }) (dequeue tasks queue)
unfolding dequeue
dequeue-Dequeued tasks [] w = (refl, refl)
dequeue-Dequeued tasks (t ∷ rest) w = (
  refl,
  w.sorted.0,
  record {
    distinct = w.distinct.1;
    flags = λ u. ground (arith, w.flags u, w.distinct.0);
    sorted = IsSorted-set_queued tasks t false rest w.sorted.1;
  },
  ground arith,
)

-- The dequeued task is the first of the queue: no task that stays goes before it, the queue stays
-- well formed, and the flag of the task is cleared. An empty queue is left as it was.
pub task_dequeue-Dequeued : (s : Ready) → WellFormed s → Dequeued s (task_dequeue s)
unfolding task_dequeue
task_dequeue-Dequeued s w = dequeue-Dequeued s.tasks s.queue w

-- No element of the one list stands in the other.
abbrev pub Apart : List ℕ → List ℕ → Type 0
Apart xs ys = All (λ x. x ∉ ys) xs

abbrev pub readied : Ready → ℕ → Ready
readied s t = record s { tasks = set_state s.tasks t TaskState.ready }

pub readied-WellFormed : (s : Ready) (t : ℕ) → WellFormed s → WellFormed (readied s t)
readied-WellFormed s t w = record {
  distinct = w.distinct;
  flags = λ u. ground (arith, w.flags u);
  sorted = IsSorted-set_state s.tasks t TaskState.ready s.queue w.sorted;
}

abbrev activated : Ready → ℕ → Ready
activated s t = enqueued (readied s t) t

activated-WellFormed : (s : Ready) (t : ℕ) → WellFormed s → t ∉ s.queue → WellFormed (activated s t)
activated-WellFormed s t w out = enqueued-WellFormed (readied s t) t (readied-WellFormed s t w) out

enqueue_activates :
    (s : Ready) (t : ℕ)
    → WellFormed s
    → t ∉ s.queue
    → task_enqueue_check (readied s t) t ≡ ok (activated s t)
unfolding task_enqueue_check
enqueue_activates s t w out = ground (arith, w.flags t)

Apart-activated :
    (s : Ready) (t : ℕ) (ts : List ℕ) → t ∉ ts → Apart ts s.queue → Apart ts (activated s t).queue
Apart-activated s t [] out a = tt
Apart-activated s t (u ∷ ts) out a = (
  ground (arith, has-insert (activated s t).tasks u t s.queue, a.0),
  Apart-activated s t ts (ground arith) a.1,
)

-- An expiry point whose tasks are distinct and not queued is enqueued as a whole: the call returns,
-- the queue then holds its tasks and those it held before, each as often, and is well formed. The
-- tasks of the expiry point are READY, and the other tasks keep their states.
pub enqueue_each-perm :
    (s : Ready) (ts : List ℕ)
    → WellFormed s
    → Distinct ts
    → Apart ts s.queue
    → (s' : Ready) × (enqueue_each s ts ≡ ok s')
      × WellFormed s'
      × Perm s'.queue (ts ++ s.queue)
      × ((v : ℕ)
          → (s'.tasks v).task_state
            ≡ (if has v ts then TaskState.ready else (s.tasks v).task_state))
unfolding enqueue_each
enqueue_each-perm s [] w d a = (s, refl, w, Perm.refl s.queue, λ v. refl)
enqueue_each-perm s (t ∷ ts) w d a =
    let s₁ = activated s t in
    let (s', e, w', p, r) =
      enqueue_each-perm s₁ ts (activated-WellFormed s t w a.0) d.1
        (Apart-activated s t ts d.0 a.1) in
    (
      s',
      rw (enqueue_activates s t w a.0) e,
      w',
      Perm.trans p (
          Perm.trans (Perm.append (Perm.refl ts) (insert-perm s₁.tasks t s.queue))
            (perm_middle ts s.queue)),
      λ v. ground (arith, r v),
    )

-- If some task of the expiry point is still in the queue, the process exits.
pub enqueue_each-exit :
    (s : Ready) (ts : List ℕ) (t : ℕ)
    → WellFormed s
    → t ∈ ts
    → t ∈ s.queue
    → enqueue_each s ts ≡ exit
unfolding enqueue_each
enqueue_each-exit s [] t w i j = cc
enqueue_each-exit s (u ∷ ts) t w i j = elim (Bool-cases (has u s.queue)) [
  | inl late ↦ rw ((task_enqueue_check-exit (readied s u) u (readied-WellFormed s u w)).1 late)
  | inr free ↦ rw (enqueue_activates s u w free) (
      enqueue_each-exit (activated s u) ts t (activated-WellFormed s u w free) (ground arith)
        (ground (arith, has-insert (activated s u).tasks t u s.queue)))
]
