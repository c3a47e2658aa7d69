-- ===== src/TableScheduler/Examples.antt =====
-- A scheduler of one table, with one basic task of period 1.
use architecture_evolution_f.Prelude.{
  ℕ, pos, ◌+◌, ◌≡◌, refl, true, false, Option, none, some, List, [], ◌∷◌, ◌++◌, get_elem?,
}
use architecture_evolution_f.Task.{TaskStruct, TaskType, TaskState, stack_size_bytes}
use architecture_evolution_f.ScheduleTable.{periodic, ScheduleTable, Timespec}
use architecture_evolution_f.ScheduleTable.Duration.{lcm, gcd, gcd_level}
use architecture_evolution_f.ScheduleTable.Build.{
  group, num_tables, put, put_all, open_slot, link_info, hash_table, collect, build_table,
  build_tables, table_scheduler_init,
}
use architecture_evolution_f.EventTable.Epoll.{Events, unwritten}
use architecture_evolution_f.TableScheduler.{
  Log, Answers, TableScheduler, creation_log, table_scheduler_deinit_log, deinit_scheduler_log,
  release, scheduler_memory, table_scheduler_start,
}
use architecture_evolution_f.TableScheduler.Start.{due_at_once, start-init}

abbrev tasks : List TaskStruct
tasks =
    record {
      priority = pos 1;
      cpu = 0;
      period = 1;
      table_id = 0;
      in_ready_queue = false;
      task_type = TaskType.basic_periodic;
      task_state = TaskState.init;
      pfunc = 0;
      stack_size = stack_size_bytes;
    }
    ∷ []

abbrev table : ScheduleTable
table = record {
  initial_offset = 0;
  duration = 1;
  final_delay = 1;
  num_eps = 1;
  next_ep_index = 0;
  timerfd = 0;
  table_type = some periodic;
  eps_array = record { offset = 0; tasks = 0 ∷ []; event_tasks = [] } ∷ [];
  new_timer = record { tv_sec = 0; tv_nsec = 0 };
}

init_runs : table_scheduler_init tasks ≡ some (table ∷ [])
unfolding table_scheduler_init group num_tables lcm gcd gcd_level build_tables build_table
    hash_table put_all put open_slot link_info collect
init_runs = refl

abbrev fd_at : ℕ → ℕ
fd_at i = 5 + i

abbrev garbage : Events
garbage = record {
  epoll_fd = none;
  num_events = 0;
  event_fds = λ i. unwritten;
  event_hashtable = λ index. [];
  timerfds = λ i. none;
  interest = [];
  closed = [];
  event_fds_freed = false;
}

-- `epoll` is the answer of epoll_create1.
abbrev answers : Option ℕ → Answers
answers epoll = record {
  calls = record {
    epoll_create1 = epoll;
    timerfd_create = λ i. some (fd_at i);
    eventfd = λ i. some (fd_at i);
    epoll_ctl_succeeds = λ i. true;
  };
  pthread_create = λ kind priority. true;
}

abbrev null_log : Log
null_log =
    creation_log 1
    ++ (table_scheduler_deinit_log 1 ++ (deinit_scheduler_log ++ release scheduler_memory ∷ []))

abbrev clock : ℕ → Timespec
clock i = record { tv_sec = 7; tv_nsec = i }

abbrev made : TableScheduler
made = record { tables = table ∷ []; events = garbage }

start-init_example :
    (s' : TableScheduler) × (table_scheduler_start clock made ≡ some s')
    × ((j : ℕ) (t : ScheduleTable)
        → get_elem? made.tables j ≡ some t
        → get_elem? s'.tables j ≡ some (due_at_once (clock j) t))
start-init_example = start-init clock tasks made (refl, tt) init_runs
