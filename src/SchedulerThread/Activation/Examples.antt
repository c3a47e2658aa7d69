-- ===== src/SchedulerThread/Activation/Examples.antt =====
-- The ticks of a table of two basic tasks with the periods 2 and 3.
use mathlib.Core.List.{reverse}
use architecture_evolution_f.Prelude.{
  ℕ, pos, ◌+◌, ◌*◌, ◌<◌, ◌≡◌, refl, false, some, List, [], ◌∷◌, arith, is_empty, update,
}
use architecture_evolution_f.Task.{TaskStruct, TaskType, TaskState, stack_size_bytes}
use architecture_evolution_f.ScheduleTable.{periodic, ExpiryPoint, ScheduleTable, Timespec}
use architecture_evolution_f.ScheduleTable.Duration.{lcm, gcd, gcd_level}
use architecture_evolution_f.ScheduleTable.Timer.Arm.{nanos}
use architecture_evolution_f.ScheduleTable.Timer.Schedule.{updates}
use architecture_evolution_f.ScheduleTable.Build.{
  Groups, group, no_groups, put, put_all, open_slot, link_info, hash_table, collect, build_table,
}
use architecture_evolution_f.ScheduleTable.Build.Due.{due}
use architecture_evolution_f.SchedulerThread.{Sched, process_tick, tasks_due}
use architecture_evolution_f.SchedulerThread.Served.{tick_time}
use architecture_evolution_f.SchedulerThread.Activation.{process_tick-due}

abbrev task : ℕ → TaskStruct
task period = record {
  priority = pos 1;
  cpu = 0;
  period = period;
  table_id = 0;
  in_ready_queue = false;
  task_type = TaskType.basic_periodic;
  task_state = TaskState.init;
  pfunc = 0;
  stack_size = stack_size_bytes;
}

abbrev tasks : List TaskStruct
tasks = task 2 ∷ task 3 ∷ []

abbrev grouped : Groups
grouped = record {
  duration = update (update (λ _. 1) 0 2) 0 6;
  members = update (update (λ _. []) 0 (0 ∷ [])) 0 (0 ∷ 1 ∷ []);
}

group_runs : group tasks 0 no_groups ≡ some grouped
unfolding group lcm gcd gcd_level
group_runs = refl

abbrev at : ℕ → List ℕ → ExpiryPoint
at offset due_tasks = record { offset = offset; tasks = due_tasks; event_tasks = [] }

abbrev table : ScheduleTable
table = record {
  initial_offset = 0;
  duration = 6;
  final_delay = 2;
  num_eps = 4;
  next_ep_index = 0;
  timerfd = 0;
  table_type = some periodic;
  eps_array = at 0 (1 ∷ 0 ∷ []) ∷ at 2 (0 ∷ []) ∷ at 3 (1 ∷ []) ∷ at 4 (0 ∷ []) ∷ [];
  new_timer = record { tv_sec = 0; tv_nsec = 0 };
}

table_runs : build_table tasks grouped 0 ≡ some table
unfolding build_table hash_table put_all put open_slot link_info collect
table_runs = refl

abbrev clock : Timespec
clock = record { tv_sec = 7; tv_nsec = 999000000 }

-- The tick behind six others: offsets 0, 2, 3, 4, 6, 8, 9.
seventh_tick : tick_time table 6 ≡ 9
seventh_tick = refl

process_tick-due_example :
    ((n : ℕ)
      → (tn : ScheduleTable) × (updates n (record table { new_timer = clock }) ≡ some tn)
        × (nanos tn.new_timer ≡ nanos clock + tick_time table n * 1000000)
        × ((k : ℕ) (s : Sched)
            → s.tables k ≡ tn
            → (s' : Sched) × (process_tick k s ≡ some s')
              × (tasks_due s'
                  ≡ some (reverse (due tasks (tick_time table n) (grouped.members 0))))))
    × ((time : ℕ)
        → is_empty (due tasks time (grouped.members 0)) ≡ false
        → (n : ℕ) × (tick_time table n ≡ time))
    × ((n : ℕ) → tick_time table n < tick_time table (n + 1))
process_tick-due_example =
    process_tick-due tasks grouped 0 table clock (refl, (refl, tt))
      ((omega arith, omega arith), ((omega arith, omega arith), tt)) group_runs table_runs refl
      (omega arith)
