-- ===== src/ScheduleTable.antt =====
-- Schedule tables of table_scheduler.c and table_sched.h: how they are built from the tasks, and how
-- they drive their timers.
pub mod Duration
pub mod Timer
pub mod Build
use architecture_evolution_f.Prelude.{ℕ, ◌+◌, ◌*◌, ◌-◌, Option, List}

-- enum table_type_t
pub data TableType : Type 0 where
  periodic single_shot : TableType

-- An element of `eps_array`: a `struct expiry_point` whose offset has been set. The hash lists hold
-- one `task_info` for each task, here the index of the task, newest first.
pub record ExpiryPoint : Type 0 where
  pub offset : ℕ
  pub tasks : List ℕ
  pub event_tasks : List ℕ

-- struct timespec
pub record Timespec : Type 0 where
  pub tv_sec : ℕ
  pub tv_nsec : ℕ

-- `struct schedule_table`. `table_type` is `none` while it is not written. `new_timer` is the
-- `it_value` of the field; its `it_interval` is always zero.
pub record ScheduleTable : Type 0 where
  pub initial_offset : ℕ
  pub duration : ℕ
  pub final_delay : ℕ
  pub num_eps : ℕ
  pub next_ep_index : ℕ
  pub timerfd : ℕ
  pub table_type : Option TableType
  pub eps_array : List ExpiryPoint
  pub new_timer : Timespec
