-- ===== src/SchedulerThread/System/Examples.antt =====
-- A run of two tasks: task 0 is started by the first tick and interrupted by the second, at which
-- task 1 is due.
use architecture_evolution_f.Prelude.{
  ℕ, pos, ◌≡◌, ◌↔◌, refl, true, false, Option, some, none, [], ◌∷◌, ◌∈◌,
}
use architecture_evolution_f.Task.{TaskStruct, TaskState, TaskType, SchedState, stack_size_bytes}
use architecture_evolution_f.ReadyQueue.{
  Outcome, ok, exit, insert, task_enqueue_check, enqueue_each, task_dequeue,
}
use architecture_evolution_f.ScheduleTable.{periodic, ScheduleTable}
use architecture_evolution_f.ScheduleTable.Timer.{
  set_timer, update_timer, next_time, ms_to_ns, current_ep_index,
}
use architecture_evolution_f.SchedulerThread.{
  Sched, process_tick, due_of, tasks_due, schedule_pass, disable_timing_preempt,
  enable_timing_preempt, park, may_resume, init_scheduler, is_running, enqueue_arrived,
  requeue_current,
}
use architecture_evolution_f.SchedulerThread.Contexts.{init_task_ctx, at_entry, entry, in_signal}
use architecture_evolution_f.SchedulerThread.System
use architecture_evolution_f.SchedulerThread.System.{
  Position, before_wait, parked, selecting, restored, running, handling, System, sched_of, restore,
  go_on, preempt, resume, moved, Step, wait, wake, pick, go, catch, give_way, start, tick, Reach,
  here, later,
}
use architecture_evolution_f.SchedulerThread.System.Invariant.{Inv}
use architecture_evolution_f.SchedulerThread.System.Safety.{
  IsCreated, Reach-created, schedule_pass-exit,
}

abbrev tasks : ℕ → TaskStruct
tasks t = record {
  priority = pos 1;
  cpu = 0;
  period = 20;
  table_id = 0;
  in_ready_queue = false;
  task_type = TaskType.basic_periodic;
  task_state = TaskState.init;
  pfunc = 0;
  stack_size = stack_size_bytes;
}

abbrev table : ScheduleTable
table = record {
  initial_offset = 0;
  duration = 40;
  final_delay = 20;
  num_eps = 2;
  next_ep_index = 0;
  timerfd = 5;
  table_type = some periodic;
  eps_array =
      record { offset = 0; tasks = 0 ∷ []; event_tasks = [] }
      ∷ record { offset = 20; tasks = 1 ∷ []; event_tasks = [] }
      ∷ [];
  new_timer = record { tv_sec = 7; tv_nsec = 0 };
}

abbrev garbage : Sched
garbage = record {
  state = SchedState.running;
  timing_arrived = true;
  current_task = some 9;
  ready = record { tasks = tasks; queue = 3 ∷ [] };
  current_table_id = 0;
  tables = λ i. table;
  max_priority = false;
  usr1_blocked = false;
  prev_blocked = false;
  usr1_sent = false;
}

abbrev ticked_to : Option Sched → Sched
ticked_to none = garbage
ticked_to (some u) = u

abbrev passed_to : Option (Outcome Sched) → Sched
passed_to none = garbage
passed_to (some exit) = garbage
passed_to (some (ok u)) = u

abbrev created : System
created = record {
  thread = record {
    sched = init_scheduler tasks garbage;
    scheduler_mask = false;
    ctx = λ t. at_entry false;
  };
  position = before_wait;
  started = false;
}

abbrev waits : System
waits = moved created (park (sched_of created)) parked

abbrev started : System
started = record waits { started = true }

abbrev first_tick : System
first_tick = moved started (ticked_to (process_tick 0 (sched_of started))) parked

abbrev woken : System
woken = moved first_tick (resume (sched_of first_tick)) selecting

abbrev picked_zero : Sched
picked_zero = passed_to (schedule_pass (sched_of woken))

abbrev switching : System
switching = System.at woken (restore 0 (record woken.thread { sched = picked_zero })) (restored 0)

abbrev runs_zero : System
runs_zero = System.at switching (go_on 0 (at_entry false) switching.thread) (running 0)

abbrev second_tick : System
second_tick = moved runs_zero (ticked_to (process_tick 0 (sched_of runs_zero))) (running 0)

abbrev caught : System
caught = moved second_tick (in_signal (sched_of second_tick)) (handling 0 false)

abbrev gave_way : System
gave_way = System.at caught (preempt 0 false caught.thread) selecting

created-IsCreated : IsCreated created
unfolding init_task_ctx
created-IsCreated = record {
  tasks = tasks;
  garbage = garbage;
  sched = refl;
  free = λ t. refl;
  priority = refl;
  contexts = λ t. refl;
  position = refl;
}

run_to_woken : Reach created woken
unfolding init_scheduler park resume may_resume process_tick update_timer next_time ms_to_ns
    set_timer
run_to_woken =
    later (later (later (later here (wait refl refl)) (start refl)) (tick 0 refl refl refl refl))
      (wake refl refl refl)

run_to_gave_way : Reach created gave_way
unfolding init_scheduler park resume may_resume process_tick update_timer next_time ms_to_ns
    set_timer schedule_pass task_dequeue disable_timing_preempt enable_timing_preempt restore go_on
    entry preempt enqueue_arrived enqueue_each task_enqueue_check requeue_current insert tasks_due
    due_of current_ep_index
run_to_gave_way =
    later
      (later
        (later (later (later run_to_woken (pick refl refl refl refl)) (go refl refl))
          (tick 0 refl refl refl refl))
        (catch refl refl refl refl))
      (give_way refl)

Reach-created_example : Inv gave_way
Reach-created_example = Reach-created created gave_way created-IsCreated run_to_gave_way

task_zero_is_interrupted :
    (tasks_due (sched_of gave_way) ≡ some (1 ∷ []))
    × ((sched_of gave_way).current_task ≡ some 0)
    × (is_running ((sched_of gave_way).ready.tasks 0).task_state ≡ true)
unfolding init_scheduler park resume may_resume process_tick update_timer next_time ms_to_ns
    set_timer schedule_pass task_dequeue disable_timing_preempt enable_timing_preempt restore go_on
    entry preempt enqueue_arrived enqueue_each task_enqueue_check requeue_current insert tasks_due
    due_of current_ep_index
task_zero_is_interrupted = (refl, refl, refl)

schedule_pass-exit_example : (schedule_pass (sched_of gave_way) ≡ some exit) ↔ (
    ((sched_of gave_way).timing_arrived ≡ true)
    × ((t : ℕ) × (t ∈ (1 ∷ [])) × (t ∈ (sched_of gave_way).ready.queue)))
schedule_pass-exit_example =
    schedule_pass-exit created gave_way (1 ∷ []) created-IsCreated run_to_gave_way
      task_zero_is_interrupted.0 (refl, tt)
