-- ===== src/SchedulerThread/Examples.antt =====
-- A scheduler whose task 0 has been interrupted, with task 1 in the queue and task 2 due.
use architecture_evolution_f.Prelude.{
  ℕ, ◌≢◌, ◌⊎◌, zero, suc, pos, ◌≡◌, refl, arith, Bool, true, false, some, [], ◌∷◌, has, update,
}
use architecture_evolution_f.Task.{TaskStruct, TaskState, TaskType, SchedState, stack_size_bytes}
use architecture_evolution_f.ReadyQueue.{ok, set_queued, task_dequeue}
use architecture_evolution_f.ReadyQueue.Invariant.{WellFormed}
use architecture_evolution_f.ScheduleTable.{periodic, ScheduleTable}
use architecture_evolution_f.ScheduleTable.Timer.{
  set_timer, update_timer, next_time, ms_to_ns, current_ep_index,
}
use architecture_evolution_f.SchedulerThread.{
  Sched, process_tick, due_of, tasks_due, schedule_pass, disable_timing_preempt,
  enable_timing_preempt, park, may_resume,
}
use architecture_evolution_f.SchedulerThread.Contexts.{at_entry, Thread, switch_to, interrupt_task}
use architecture_evolution_f.SchedulerThread.Preempted.{interrupt_task-unpreemptible}
use architecture_evolution_f.SchedulerThread.Pass.{IsPicked, schedule_pass-IsPicked}
use architecture_evolution_f.SchedulerThread.Tick.{process_tick-park, process_tick-twice}

abbrev task : ℕ → Bool → TaskState → TaskStruct
task priority queued state = record {
  priority = pos priority;
  cpu = 0;
  period = 20;
  table_id = 0;
  in_ready_queue = queued;
  task_type = TaskType.basic_periodic;
  task_state = state;
  pfunc = 0;
  stack_size = stack_size_bytes;
}

abbrev tasks : ℕ → TaskStruct
tasks zero = task 2 false TaskState.running
tasks (suc zero) = task 3 true TaskState.ready
tasks _ = task 1 false TaskState.suspended

abbrev table : ScheduleTable
table = record {
  initial_offset = 0;
  duration = 40;
  final_delay = 20;
  num_eps = 2;
  next_ep_index = 0;
  timerfd = 5;
  table_type = some periodic;
  eps_array =
      record { offset = 0; tasks = 2 ∷ []; event_tasks = [] }
      ∷ record { offset = 20; tasks = 3 ∷ []; event_tasks = [] }
      ∷ [];
  new_timer = record { tv_sec = 7; tv_nsec = 0 };
}

abbrev moved : ScheduleTable
moved = record table { next_ep_index = 1; new_timer = record { tv_sec = 7; tv_nsec = 20000000 } }

table_moves : update_timer table ≡ some moved
unfolding update_timer next_time ms_to_ns set_timer
table_moves = refl

-- Behind a tick of table 0.
abbrev interrupted_sched : Sched
interrupted_sched = record {
  state = SchedState.running;
  timing_arrived = true;
  current_task = some 0;
  ready = record { tasks = tasks; queue = 1 ∷ [] };
  current_table_id = 0;
  tables = λ i. moved;
  max_priority = true;
  usr1_blocked = true;
  prev_blocked = false;
  usr1_sent = false;
}

flags : (t : ℕ) → (tasks t).in_ready_queue ≡ has t (1 ∷ [])
flags zero = refl
flags (suc zero) = refl
flags (suc (suc t)) = ground arith

ready-WellFormed : WellFormed interrupted_sched.ready
ready-WellFormed = record { distinct = (refl, tt); flags = flags; sorted = (tt, tt) }

two_is_due : tasks_due interrupted_sched ≡ some (2 ∷ [])
unfolding tasks_due due_of current_ep_index
two_is_due = refl

schedule_pass-IsPicked_example :
    (s' : Sched) × (schedule_pass interrupted_sched ≡ some (ok s'))
    × IsPicked (0 ∷ 2 ∷ 1 ∷ []) interrupted_sched s'
schedule_pass-IsPicked_example =
    schedule_pass-IsPicked interrupted_sched (2 ∷ []) refl two_is_due ready-WellFormed (refl, tt)
      (refl, tt) (refl, tt)

abbrev idle : Sched
idle = record interrupted_sched {
  state = SchedState.suspended;
  timing_arrived = false;
  tables = λ i. table;
}

abbrev after : ℕ → Sched → Sched
after i s = record s {
  current_table_id = i;
  tables = update s.tables i moved;
  timing_arrived = true;
  state = SchedState.resuming;
}

idle_ticks : process_tick 0 idle ≡ some (after 0 idle)
unfolding process_tick
idle_ticks = rw table_moves refl

process_tick-park_example :
    (may_resume (after 0 idle) ≡ true)
    × (may_resume (park (after 0 idle)) ≡ false)
    × ((park (after 0 idle)).timing_arrived ≡ true)
    × ((s'' : Sched) × (process_tick 0 (park idle) ≡ some s'') × (may_resume s'' ≡ true))
process_tick-park_example = process_tick-park 0 idle (after 0 idle) refl idle_ticks

second_ticks : process_tick 1 (after 0 idle) ≡ some (after 1 (after 0 idle))
unfolding process_tick
second_ticks = rw table_moves refl

process_tick-twice_example :
    (first : ScheduleTable) × (second : ScheduleTable) × (update_timer table ≡ some first)
    × (update_timer table ≡ some second)
    × (moved ≡ first)
    × (tasks_due (after 1 (after 0 idle)) ≡ due_of second)
    × (idle.ready ≡ idle.ready)
    × (true ≡ true)
process_tick-twice_example =
    process_tick-twice 0 1 idle (after 0 idle) (after 1 (after 0 idle)) (λ e. absurd (omega arith))
      idle_ticks second_ticks

-- Task 0 runs and can be interrupted; the other tasks have not started.
abbrev thread : Thread
thread = record {
  sched = record interrupted_sched {
    state = SchedState.waiting;
    timing_arrived = false;
    max_priority = false;
    usr1_blocked = false;
  };
  scheduler_mask = true;
  ctx = λ t. at_entry false;
}

-- The pass behind the interrupt picks task 1.
abbrev picks_one : Sched
picks_one = record interrupted_sched {
  timing_arrived = false;
  current_task = some 1;
  ready = record { tasks = set_queued tasks 1 false; queue = [] };
  prev_blocked = true;
}

one_is_picked : schedule_pass (interrupt_task 0 thread).sched ≡ some (ok picks_one)
unfolding schedule_pass interrupt_task task_dequeue disable_timing_preempt enable_timing_preempt
one_is_picked = refl

abbrev own : ℕ
own = 0

abbrev other : ℕ
other = 1

-- The thread before it switches to task 1.
abbrev switched : Thread
switched = record (interrupt_task own thread) { sched = picks_one }

interrupt_task-unpreemptible_example :
    ((other ≢ own)
      × ((switch_to other switched).sched.state ≡ SchedState.waiting)
      × ((switch_to other switched).sched.usr1_blocked ≡ true))
    ⊎ ((other ≡ own)
        × ((switch_to other switched).sched.state ≡ SchedState.running)
        × ((switch_to other switched).sched.max_priority ≡ true))
interrupt_task-unpreemptible_example =
    interrupt_task-unpreemptible thread own other picks_one false refl one_is_picked refl refl
