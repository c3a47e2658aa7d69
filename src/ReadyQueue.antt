-- ===== src/ReadyQueue.antt =====
-- The ready queue of table_scheduler.c: task_enqueue_check and task_dequeue over the sequence of
-- tasks that the intrusive list stands for. ListHead has the list itself.
pub mod Order
pub mod Invariant
pub mod Calls
pub mod Keys
pub mod Linked
mod Examples
use architecture_evolution_f.Prelude.{
  ℕ, Bool, true, false, Option, none, some, List, [], ◌∷◌, ltb, ltb_ℤ, eqb_ℤ, if◌then◌else◌, update,
}
use architecture_evolution_f.Task.{TaskStruct, TaskState}

-- The memory that the queue operations touch: the task structures, by index, and the queue.
pub record Ready : Type 0 where
  pub tasks : ℕ → TaskStruct
  pub queue : List ℕ

-- What a call comes to: a value, or `exit(-1)`.
pub data Outcome (A : Type 0) : Type 0 where
  ok : A → Outcome A
  exit : Outcome A

module _ {A B : Type 0} where
  infixl 5 ◌>>=◌
  abbrev pub ◌>>=◌ : Outcome A → (A → Outcome B) → Outcome B
  ok a >>= f = f a
  exit >>= f = exit

-- The test at each element of the queue: must `new_task` go in front of `task`?
unfoldable pub goes_before : TaskStruct → TaskStruct → Bool
goes_before new_task task =
    if ltb_ℤ new_task.priority task.priority
    then true
    else if eqb_ℤ new_task.priority task.priority
    then ltb new_task.period task.period
    else false

-- The loop of task_enqueue_check: `list_add_tail` before the first task that must come later.
unfoldable pub insert : (ℕ → TaskStruct) → ℕ → List ℕ → List ℕ
insert tasks new_task [] = new_task ∷ []
insert tasks new_task (task ∷ rest) =
    if goes_before (tasks new_task) (tasks task)
    then new_task ∷ task ∷ rest
    else task ∷ insert tasks new_task rest

abbrev pub set_queued : (ℕ → TaskStruct) → ℕ → Bool → ℕ → TaskStruct
set_queued tasks t b = update tasks t (record (tasks t) { in_ready_queue = b })

-- A task that is queued already has exceeded its deadline, and the process exits.
unfoldable pub task_enqueue_check : Ready → ℕ → Outcome Ready
task_enqueue_check s new_task =
    if (s.tasks new_task).in_ready_queue
    then exit
    else (let tasks = set_queued s.tasks new_task true in
        ok (record { tasks = tasks; queue = insert tasks new_task s.queue }))

abbrev pub set_state : (ℕ → TaskStruct) → ℕ → TaskState → ℕ → TaskStruct
set_state tasks t state = update tasks t (record (tasks t) { task_state = state })

-- The loop of table_scheduler_expiry_point_enqueue over the tasks of an expiry point.
unfoldable pub enqueue_each : Ready → List ℕ → Outcome Ready
enqueue_each s [] = ok s
enqueue_each s (task ∷ rest) =
    task_enqueue_check (record s { tasks = set_state s.tasks task TaskState.ready }) task >>= λ s'.
    enqueue_each s' rest

dequeue : (ℕ → TaskStruct) → List ℕ → Option ℕ × Ready
dequeue tasks [] = (none, record { tasks = tasks; queue = [] })
dequeue tasks (task ∷ rest) =
    (some task, record { tasks = set_queued tasks task false; queue = rest })

unfoldable pub task_dequeue : Ready → Option ℕ × Ready
unfolding dequeue
task_dequeue s = dequeue s.tasks s.queue
