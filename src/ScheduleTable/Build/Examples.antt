-- ===== src/ScheduleTable/Build/Examples.antt =====
-- A table of two basic tasks with the periods 2 and 3.
use Prim.Native.Nat.{◌∣◌}
use architecture_evolution_f.Prelude.{
  ℕ, pos, ◌<◌, ◌≡◌, ◌↔◌, refl, false, not, none, some, List, [], ◌∷◌, All, arith, ◌==◌, has,
  is_empty, length, update, if◌then◌else◌,
}
use architecture_evolution_f.Task.{TaskStruct, TaskType, TaskState, stack_size_bytes}
use architecture_evolution_f.ScheduleTable.{periodic, ExpiryPoint, ScheduleTable}
use architecture_evolution_f.ScheduleTable.Duration.{lcm, gcd, gcd_level}
use architecture_evolution_f.ScheduleTable.Timer.Cycle.{IsBuilt}
use architecture_evolution_f.ScheduleTable.Build.{
  Groups, group, no_groups, num_tables, put, put_all, open_slot, link_info, hash_table, collect,
  build_table, build_tables, table_scheduler_init,
}
use architecture_evolution_f.ScheduleTable.Build.Offsets.{build_table-IsBuilt}
use architecture_evolution_f.ScheduleTable.Build.Due.{
  due, offsets, Activates, build_table-Due, build_table-first,
}
use architecture_evolution_f.ScheduleTable.Build.Grouping.{indices, IsMultiple, group_lem}
use architecture_evolution_f.ScheduleTable.Build.Total.{table_scheduler_init-returns}

abbrev task : ℕ → TaskType → TaskStruct
task period kind = record {
  priority = pos 1;
  cpu = 0;
  period = period;
  table_id = 0;
  in_ready_queue = false;
  task_type = kind;
  task_state = TaskState.init;
  pfunc = 0;
  stack_size = stack_size_bytes;
}

abbrev tasks : List TaskStruct
tasks = task 2 TaskType.basic_periodic ∷ task 3 TaskType.basic_periodic ∷ []

abbrev groups : Groups
groups = record {
  duration = λ i. if i == 0 then 6 else 1;
  members = λ i. if i == 0 then 0 ∷ 1 ∷ [] else [];
}

abbrev at : ℕ → List ℕ → ExpiryPoint
at offset due_tasks = record { offset = offset; tasks = due_tasks; event_tasks = [] }

abbrev table : ScheduleTable
table = record {
  initial_offset = 0;
  duration = 6;
  final_delay = 2;
  num_eps = 4;
  next_ep_index = 0;
  timerfd = 0;
  table_type = some periodic;
  eps_array = at 0 (1 ∷ 0 ∷ []) ∷ at 2 (0 ∷ []) ∷ at 3 (1 ∷ []) ∷ at 4 (0 ∷ []) ∷ [];
  new_timer = record { tv_sec = 0; tv_nsec = 0 };
}

table_runs : build_table tasks groups 0 ≡ some table
unfolding build_table hash_table put_all put open_slot link_info collect
table_runs = refl

init_runs : table_scheduler_init tasks ≡ some (table ∷ [])
unfolding table_scheduler_init group num_tables lcm gcd gcd_level build_tables build_table
    hash_table put_all put open_slot link_info collect
init_runs = refl

build_table-IsBuilt_example : IsBuilt table × (table.next_ep_index ≡ 0)
build_table-IsBuilt_example = build_table-IsBuilt tasks groups 0 table table_runs

build_table-Due_example :
    ((s : ℕ) → s < 6 → has s (offsets table.eps_array) ≡ not (is_empty (due tasks s (0 ∷ 1 ∷ []))))
    × All (Activates tasks (0 ∷ 1 ∷ [])) table.eps_array
build_table-Due_example = build_table-Due tasks groups 0 table (refl, (refl, tt)) table_runs

starts_at_zero : table.initial_offset ≡ 0
starts_at_zero = build_table-first tasks groups 0 table (refl, (refl, tt)) table_runs

abbrev grouped : Groups
grouped = record {
  duration = update (update (λ _. 1) 0 2) 0 6;
  members = update (update (λ _. []) 0 (0 ∷ [])) 0 (0 ∷ 1 ∷ []);
}

group_runs : group tasks 0 no_groups ≡ some grouped
unfolding group lcm gcd gcd_level
group_runs = refl

group_lem_example :
    (grouped.members 0 ≡ indices 0 0 tasks)
    × (0 < grouped.duration 0)
    × ((c : ℕ) → (grouped.duration 0 ∣ c) ↔ IsMultiple 0 c tasks)
group_lem_example =
    group_lem tasks grouped ((omega arith, omega arith), ((omega arith, omega arith), tt))
      group_runs 0

-- The table whose index is that of an extended task loses its basic tasks: the expiry point at 0
-- has been linked into both lists, the basic task 0 as if it were an event task.
mixed_types :
    put_all
      (task 2 TaskType.basic_periodic ∷ task 2 TaskType.extended_periodic ∷ [])
      1
      0
      (0 ∷ [])
      (record { slot = record { offset = none; tasks = []; event_tasks = [] }; num_eps = 0 })
    ≡ some (record {
      slot = record { offset = some 0; tasks = 0 ∷ []; event_tasks = 0 ∷ [] };
      num_eps = 1;
    })
unfolding put_all put open_slot link_info
mixed_types = refl

table_scheduler_init-returns_example :
    ((tables : List ScheduleTable) × (table_scheduler_init tasks ≡ some tables)
      × (length tables ≡ num_tables tasks 0))
    ↔ ((i : ℕ) → i < num_tables tasks 0 → is_empty (grouped.members i) ≡ false)
table_scheduler_init-returns_example =
    table_scheduler_init-returns tasks grouped
      ((omega arith, omega arith), ((omega arith, omega arith), tt)) group_runs

-- A task of table 1 alone leaves table 0 without an expiry point.
gap_in_ids :
    table_scheduler_init (record (task 2 TaskType.basic_periodic) { table_id = 1 } ∷ []) ≡ none
unfolding table_scheduler_init group num_tables lcm gcd gcd_level build_tables build_table
    hash_table put_all put open_slot link_info collect
gap_in_ids = refl
