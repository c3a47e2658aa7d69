-- ===== src/ScheduleTable/Build.antt =====
-- table_scheduler_init of table_scheduler.c: the tasks are grouped by table, and each table becomes
-- the array of its expiry points. A result is `none` where the source reads out of bounds, divides
-- by zero or overflows an `int`. Allocation is taken to succeed.
pub mod Offsets
pub mod Due
pub mod Grouping
pub mod Counting
pub mod Total
pub mod Periods
pub mod Gaps
mod Examples
use architecture_evolution_f.Prelude.{
  ℕ, zero, suc, ◌+◌, ◌-◌, ◌%◌, Bool, true, false, Option, none, some, List, [], ◌∷◌, ◌++◌, ◌==◌,
  ltb, get_elem?, length, update, if◌then◌else◌, ◌>>=◌,
}
use architecture_evolution_f.Task.{
  TaskStruct, TaskType, basic_periodic, basic_single_shot, extended_periodic, extended_single_shot,
}
use architecture_evolution_f.ScheduleTable.{
  TableType, periodic, single_shot, ExpiryPoint, ScheduleTable,
}
use architecture_evolution_f.ScheduleTable.Duration.{lcm}

-- The loop that finds the largest table id, and the count that it gives.
unfoldable pub num_tables : List TaskStruct → (num_table : ℕ) → ℕ
num_tables [] num_table = num_table + 1
num_tables (task ∷ rest) num_table =
    num_tables rest (if ltb num_table task.table_id then task.table_id else num_table)

-- `duration` and `table_task_array`, by table.
pub record Groups : Type 0 where
  pub duration : ℕ → ℕ
  pub members : ℕ → List ℕ

-- The loop that assigns the task `i` and those behind it to their tables.
unfoldable pub group : List TaskStruct → (i : ℕ) → Groups → Option Groups
group [] i g = some g
group (task ∷ rest) i g = do
  duration ← lcm (g.duration task.table_id) task.period
  group rest (i + 1) (record {
    duration = update g.duration task.table_id duration;
    members = update g.members task.table_id (g.members task.table_id ++ i ∷ []);
  })

-- A bucket of `eps_hashtable`: `none` is INVALID_OFFSET.
pub record Slot : Type 0 where
  pub offset : Option ℕ
  pub tasks : List ℕ
  pub event_tasks : List ℕ

abbrev pub empty_slot : Slot
empty_slot = record { offset = none; tasks = []; event_tasks = [] }

-- A bucket and the count of expiry points so far.
pub record Filling : Type 0 where
  pub slot : Slot
  pub num_eps : ℕ

-- The first task of a bucket sets its offset and counts it.
unfoldable pub open_slot : (time : ℕ) → Filling → Filling
open_slot time f = elim f.slot.offset [
  | none ↦ record { slot = record (f.slot) { offset = some time }; num_eps = f.num_eps + 1 }
  | some _ ↦ f
]

abbrev pub is_basic : TaskType → Bool
is_basic basic_periodic = true
is_basic basic_single_shot = true
is_basic _ = false

abbrev pub is_extended : TaskType → Bool
is_extended extended_periodic = true
is_extended extended_single_shot = true
is_extended _ = false

-- The two hlist_add_head calls on one `task_info`. The second test asks for the type of the task
-- whose index is the table's. Where both tests hold, the second call relinks the node that the
-- first has linked, so that both lists go on with the rest of the second.
unfoldable pub link_info : (task : ℕ) → TaskType → (at_table : TaskType) → Slot → Slot
link_info task own at_table slot =
    let tasks = if is_basic own then task ∷ slot.tasks else slot.tasks in
    if is_extended at_table
    then record slot {
      tasks = if is_basic own then task ∷ slot.event_tasks else slot.tasks;
      event_tasks = task ∷ slot.event_tasks;
    }
    else record slot { tasks = tasks }

-- Does an activation of a task with this period fall on the time? A period of 0 gives the table
-- the duration 0, so that no time is asked about.
abbrev pub is_due : (time period : ℕ) → Bool
is_due time period = time % period == 0

-- The body of the loop over the tasks of the table `i`.
unfoldable pub put : List TaskStruct → (i time task : ℕ) → Filling → Option Filling
put tasks i time task f = do
  own ← get_elem? tasks task
  if is_due time own.period
      then (do
        at_table ← get_elem? tasks i
        let opened = open_slot time f
        some (record opened { slot = link_info task own.task_type at_table.task_type opened.slot }))
      else some f

unfoldable pub put_all : List TaskStruct → (i time : ℕ) → List ℕ → Filling → Option Filling
put_all tasks i time [] f = some f
put_all tasks i time (task ∷ rest) f = put tasks i time task f >>= put_all tasks i time rest

-- The loop over the times, `rounds` of which are left.
unfoldable pub hash_table :
    List TaskStruct → (i : ℕ) → List ℕ → (rounds time num_eps : ℕ) → Option (List Slot × ℕ)
hash_table tasks i members zero time num_eps = some ([], num_eps)
hash_table tasks i members (suc rounds) time num_eps = do
  f ← put_all tasks i time members (record { slot = empty_slot; num_eps = num_eps })
  (rest, count) ← hash_table tasks i members rounds (time + 1) f.num_eps
  some (f.slot ∷ rest, count)

-- The buckets whose offset is set, in order.
unfoldable pub collect : List Slot → List ExpiryPoint
collect [] = []
collect (slot ∷ rest) = elim slot.offset [
  | none ↦ collect rest
  | some offset ↦
      record { offset = offset; tasks = slot.tasks; event_tasks = slot.event_tasks } ∷ collect rest
]

-- The type that the first task of a table gives it; `none` leaves the field unwritten.
abbrev pub table_type_of : TaskType → Option TableType
table_type_of basic_periodic = some periodic
table_type_of extended_periodic = some periodic
table_type_of basic_single_shot = some single_shot
table_type_of extended_single_shot = some single_shot
table_type_of _ = none

-- The body of the loop over the tables. The timer's descriptor and time are written later, by
-- table_scheduler_create_epoll and start_timer, and are 0 here.
unfoldable pub build_table : List TaskStruct → Groups → (i : ℕ) → Option ScheduleTable
build_table tasks g i = do
  (slots, num_eps) ← hash_table tasks i (g.members i) (g.duration i) 0 0
  let eps = collect slots
  first ← get_elem? eps 0
  last ← get_elem? eps (num_eps - 1)
  leader ← get_elem? (g.members i) 0
  task ← get_elem? tasks leader
  some (record {
    initial_offset = first.offset;
    duration = g.duration i;
    final_delay = g.duration i - last.offset;
    num_eps = num_eps;
    next_ep_index = 0;
    timerfd = 0;
    table_type = table_type_of task.task_type;
    eps_array = eps;
    new_timer = record { tv_sec = 0; tv_nsec = 0 };
  })

unfoldable pub build_tables :
    List TaskStruct → Groups → (rounds i : ℕ) → Option (List ScheduleTable)
build_tables tasks g zero i = some []
build_tables tasks g (suc rounds) i = do
  table ← build_table tasks g i
  rest ← build_tables tasks g rounds (i + 1)
  some (table ∷ rest)

abbrev pub no_groups : Groups
no_groups = record { duration = λ _. 1; members = λ _. [] }

-- The tables of the scheduler; their number is `num_schedule_table`.
unfoldable pub table_scheduler_init : List TaskStruct → Option (List ScheduleTable)
table_scheduler_init tasks = do
  g ← group tasks 0 no_groups
  build_tables tasks g (num_tables tasks 0) 0
