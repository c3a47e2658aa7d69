-- ===== src/ReadyQueue/Linked/Examples.antt =====
-- The linked ready queue at concrete addresses.
use architecture_evolution_f.Prelude.{ℕ, pos, refl, [], ◌∷◌, arith, has, ◌==◌, if◌then◌else◌}
use architecture_evolution_f.Task.{TaskStruct, TaskType, TaskState, stack_size_bytes}
use architecture_evolution_f.ListHead.{ListNode, Heap}
use architecture_evolution_f.ReadyQueue.{Ready, Outcome}
use architecture_evolution_f.ReadyQueue
use architecture_evolution_f.ReadyQueue.Linked.{Linked, task_enqueue_check}
use architecture_evolution_f.ReadyQueue.Linked.Refinement.{
  Represents, SameOutcome, SameDequeue, enqueue_refines, dequeue_refines,
}

abbrev node : ℕ → ℕ → ListNode
node next prev = record { next = next; prev = prev }

-- The queue head is at 1, and the tasks at 2 and 3 are queued; the one at 4 is not.
abbrev links : Heap
links a =
    if a == 1 then node 2 3 else if a == 2 then node 3 1 else if a == 3 then node 1 2 else node 0 0

abbrev tasks : ℕ → TaskStruct
tasks a = record {
  priority = pos a;
  cpu = 0;
  period = 10;
  table_id = 0;
  in_ready_queue = has a (2 ∷ 3 ∷ []);
  task_type = TaskType.basic_periodic;
  task_state = TaskState.ready;
  pfunc = 0;
  stack_size = stack_size_bytes;
}

abbrev memory : Linked
memory = record { tasks = tasks; links = links }

abbrev ready : Ready
ready = record { tasks = tasks; queue = 2 ∷ 3 ∷ [] }

represents : Represents 1 memory ready
represents = record {
  tasks = refl;
  ring = record { chain = ground arith; distinct = (refl, (refl, (refl, tt))); not_null = refl };
}

enqueue_refines_example :
    SameOutcome 1 (task_enqueue_check 3 1 memory 4) (ReadyQueue.task_enqueue_check ready 4)
enqueue_refines_example =
    enqueue_refines 3 1 4 memory ready represents (omega arith) (omega arith) (omega arith) refl

dequeue_refines_example : SameDequeue 1 memory (ReadyQueue.task_dequeue ready)
dequeue_refines_example = dequeue_refines 1 memory ready represents
