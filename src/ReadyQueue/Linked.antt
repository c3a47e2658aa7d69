-- ===== src/ReadyQueue/Linked.antt =====
-- The same two functions of table_scheduler.c as they run: walking and relinking the circular list
-- of list.h. A task is named by the address of the `list` node embedded in it. The walk takes a
-- number of rounds; one more than the length of the queue is enough.
pub mod Refinement
mod Examples
use architecture_evolution_f.Prelude.{
  ℕ, zero, suc, Bool, true, false, Option, none, some, ◌==◌, if◌then◌else◌,
}
use architecture_evolution_f.Task.{TaskStruct}
use architecture_evolution_f.ListHead.{
  Ptr, Heap, Cmd, pure, ◌>>=◌, ◌>>◌, load, list_add_tail, list_del, list_empty,
}
use architecture_evolution_f.ReadyQueue.{Outcome, ok, exit, goes_before, set_queued}

pub record Linked : Type 0 where
  pub tasks : ℕ → TaskStruct
  pub links : Heap

-- list_for_each_entry of task_enqueue_check, at the position `task`. The list_add_tail behind the
-- loop is the case where the walk is back at the head.
unfoldable pub walk : ℕ → (ℕ → TaskStruct) → (queue new_task task : Ptr) → Cmd (Unit {0})
walk zero tasks queue new_task task = λ _. none
walk (suc rounds) tasks queue new_task task =
    if task == queue
    then list_add_tail new_task queue
    else if goes_before (tasks new_task) (tasks task)
    then list_add_tail new_task task
    else do node ← load task; walk rounds tasks queue new_task node.next

with_links : (ℕ → TaskStruct) → Option (Unit {0} × Heap) → Option (Outcome Linked)
with_links tasks none = none
with_links tasks (some (_, links)) = some (ok (record { tasks = tasks; links = links }))

unfoldable pub task_enqueue_check : ℕ → (queue : Ptr) → Linked → Ptr → Option (Outcome Linked)
unfolding walk with_links
task_enqueue_check rounds queue s new_task =
    if (s.tasks new_task).in_ready_queue
    then some exit
    else (let tasks = set_queued s.tasks new_task true in
        with_links tasks
          ((do node ← load queue; walk rounds tasks queue new_task node.next) s.links))

-- `none` is NULL.
first_entry : (queue : Ptr) → Bool → Cmd (Option Ptr)
first_entry queue true = pure none
first_entry queue false = do node ← load queue; list_del node.next; pure (some node.next)

clear_flag : (ℕ → TaskStruct) → Option (Option Ptr × Heap) → Option (Option Ptr × Linked)
clear_flag tasks none = none
clear_flag tasks (some (none, links)) = some (none, record { tasks = tasks; links = links })
clear_flag tasks (some (some task, links)) =
    some (some task, record { tasks = set_queued tasks task false; links = links })

unfoldable pub task_dequeue : (queue : Ptr) → Linked → Option (Option Ptr × Linked)
unfolding first_entry clear_flag
task_dequeue queue s =
    clear_flag s.tasks ((do empty ← list_empty queue; first_entry queue empty) s.links)
