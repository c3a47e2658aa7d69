-- ===== src/Task.antt =====
-- The data model of OS_evolution/Task Schedule/inc/scheduler.h and simulator.h.
use architecture_evolution_f.Prelude.{ℕ, ℤ, Bool}

-- enum task_type_t
pub data TaskType : Type 0 where
  basic_periodic basic_single_shot extended_periodic extended_single_shot isr : TaskType
  unknown_task_type : TaskType

-- enum task_state_t
pub data TaskState : Type 0 where
  init suspended ready running : TaskState

-- enum sched_state_t
pub data SchedState : Type 0 where
  init suspended resuming running waiting : SchedState

-- `struct task_struct` less the fields that only the C library reads (`ctx`, `stack_ptr`). A task
-- is named by its index or address, so the embedded `list` node and the pointer to the scheduler
-- are in the memory of ListHead and in the scheduler's record. `pfunc` is the index of a function.
-- `priority` may be negative. A negative `cpu`, `period` or `table_id` indexes or allocates out of
-- bounds in the source, so these fields are natural numbers.
pub record TaskStruct : Type 0 where
  pub priority : ℤ
  pub cpu : ℕ
  pub period : ℕ
  pub table_id : ℕ
  pub in_ready_queue : Bool
  pub task_type : TaskType
  pub task_state : TaskState
  pub pfunc : ℕ
  pub stack_size : ℕ

-- struct task_struct_info
pub record TaskStructInfo : Type 0 where
  pub priority : ℤ
  pub cpu : ℕ
  pub period : ℕ
  pub table_id : ℕ
  pub task_type : TaskType
  pub pfunc : ℕ

abbrev pub max_num_cpu : ℕ
max_num_cpu = 256

abbrev pub stack_size_bytes : ℕ
stack_size_bytes = 8192
