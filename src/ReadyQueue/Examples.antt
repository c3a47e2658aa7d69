-- ===== src/ReadyQueue/Examples.antt =====
-- The ready queue at concrete tasks.
use mathlib.Core.List.{Perm}
use architecture_evolution_f.Prelude.{
  ℕ, zero, suc, pos, ◌↔◌, ◌∈◌, ◌≡◌, refl, Bool, true, false, List, [], ◌∷◌, ◌++◌, arith, has,
  if◌then◌else◌,
}
use architecture_evolution_f.Task.{TaskStruct, TaskState, TaskType, stack_size_bytes}
use architecture_evolution_f.ReadyQueue.{
  Ready, ok, exit, goes_before, insert, task_enqueue_check, task_dequeue, enqueue_each,
}
use architecture_evolution_f.ReadyQueue.Order.{BehindAll, BeforeAll}
use architecture_evolution_f.ReadyQueue.Invariant.{WellFormed, enqueued}
use architecture_evolution_f.ReadyQueue.Calls.{
  task_enqueue_check-WellFormed, task_enqueue_check-exit, task_enqueue_check-place, Dequeued,
  task_dequeue-Dequeued, enqueue_each-perm, enqueue_each-exit,
}

abbrev task : ℕ → ℕ → Bool → TaskStruct
task priority period queued = record {
  priority = pos priority;
  cpu = 0;
  period = period;
  table_id = 0;
  in_ready_queue = queued;
  task_type = TaskType.basic_periodic;
  task_state = TaskState.suspended;
  pfunc = 0;
  stack_size = stack_size_bytes;
}

-- Tasks 0 and 2 are queued; 1 has the priority of both and the period of 0.
abbrev tasks : ℕ → TaskStruct
tasks zero = task 2 10 true
tasks (suc zero) = task 2 10 false
tasks (suc (suc zero)) = task 2 20 true
tasks _ = task 1 5 false

abbrev two : Ready
two = record { tasks = tasks; queue = 0 ∷ 2 ∷ [] }

two-flags : (t : ℕ) → (tasks t).in_ready_queue ≡ has t (0 ∷ 2 ∷ [])
two-flags zero = refl
two-flags (suc zero) = refl
two-flags (suc (suc zero)) = refl
two-flags (suc (suc (suc t))) = ground arith

two-WellFormed : WellFormed two
unfolding goes_before
two-WellFormed = record {
  distinct = (refl, (refl, tt));
  flags = two-flags;
  sorted = ((refl, tt), (tt, tt));
}

abbrev three : Ready
three = enqueued two 1

three_order : three.queue ≡ 0 ∷ 1 ∷ 2 ∷ []
unfolding insert goes_before
three_order = refl

task_enqueue_check_runs : task_enqueue_check two 1 ≡ ok three
unfolding task_enqueue_check
task_enqueue_check_runs = refl

enqueued_well : WellFormed three
enqueued_well = task_enqueue_check-WellFormed two three 1 two-WellFormed task_enqueue_check_runs

enqueued_twice : (task_enqueue_check two 2 ≡ exit) ↔ (2 ∈ two.queue)
enqueued_twice = task_enqueue_check-exit two 2 two-WellFormed

task_enqueue_check-place_example :
    (front : List ℕ) × (back : List ℕ) × (two.queue ≡ front ++ back)
    × (three.queue ≡ front ++ 1 ∷ back)
    × BehindAll two.tasks 1 front
    × BeforeAll two.tasks 1 back
task_enqueue_check-place_example =
    task_enqueue_check-place two three 1 two-WellFormed task_enqueue_check_runs

first_leaves : Dequeued two (task_dequeue two)
first_leaves = task_dequeue-Dequeued two two-WellFormed

due_together :
    (s' : Ready) × (enqueue_each two (3 ∷ 1 ∷ []) ≡ ok s')
    × WellFormed s'
    × Perm s'.queue (3 ∷ 1 ∷ 0 ∷ 2 ∷ [])
    × ((v : ℕ)
        → (s'.tasks v).task_state
          ≡ (if has v (3 ∷ 1 ∷ []) then TaskState.ready else (two.tasks v).task_state))
due_together =
    enqueue_each-perm two (3 ∷ 1 ∷ []) two-WellFormed (refl, (refl, tt)) (refl, (refl, tt))

due_twice : enqueue_each two (3 ∷ 2 ∷ []) ≡ exit
due_twice = enqueue_each-exit two (3 ∷ 2 ∷ []) 2 two-WellFormed refl refl
