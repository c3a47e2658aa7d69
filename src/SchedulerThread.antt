-- ===== src/SchedulerThread.antt =====
-- The scheduler thread of src/scheduler.c and process_tick of src/table_scheduler.c: what they do to
-- the state that the two threads of a scheduler share.
mod Pass
mod Tick
mod Served
mod Activation
mod Contexts
mod Preempted
mod System
mod Examples
use architecture_evolution_f.Prelude.{
  ℕ, Bool, true, false, Option, none, some, List, [], ◌>>=◌, get_elem?, if◌then◌else◌, update,
}
use architecture_evolution_f.Task.{TaskStruct, TaskState, SchedState}
use architecture_evolution_f.ReadyQueue
use architecture_evolution_f.ReadyQueue.{
  Ready, Outcome, ok, exit, set_state, task_enqueue_check, task_dequeue, enqueue_each,
}
use architecture_evolution_f.ScheduleTable.{ScheduleTable, ExpiryPoint}
use architecture_evolution_f.ScheduleTable.Timer.{update_timer, current_ep_index}

-- `struct scheduler` and `struct table_scheduler`, less what no operation here reads. `max_priority`
-- tells whether the scheduler thread has SCHEDULE_MAX_PRIORITY, `usr1_blocked` and `prev_blocked`
-- whether SIGUSR1 is in its mask and in prev_set, `usr1_sent` whether it has been sent.
pub record Sched : Type 0 where
  pub state : SchedState
  pub timing_arrived : Bool
  pub current_task : Option ℕ
  pub ready : Ready
  pub current_table_id : ℕ
  pub tables : ℕ → ScheduleTable
  pub max_priority : Bool
  pub usr1_blocked : Bool
  pub prev_blocked : Bool
  pub usr1_sent : Bool

-- init_scheduler, over what malloc has left. The mutex and the conditions have no state here.
unfoldable pub init_scheduler : (ℕ → TaskStruct) → Sched → Sched
init_scheduler tasks garbage = record garbage {
  state = SchedState.init;
  timing_arrived = false;
  current_task = none;
  ready = record { tasks = tasks; queue = [] };
}

unfoldable pub disable_timing_preempt : Sched → Sched
disable_timing_preempt s = record s {
  max_priority = true;
  prev_blocked = s.usr1_blocked;
  usr1_blocked = true;
}

unfoldable pub enable_timing_preempt : Sched → Sched
enable_timing_preempt s = record s { max_priority = false; usr1_blocked = s.prev_blocked }

-- The end of process_tick. In any other state the timing_arrived that is set is all.
abbrev pub notify : SchedState → Sched → Sched
notify SchedState.init s = s
notify SchedState.suspended s = record s { state = SchedState.resuming }
notify SchedState.resuming s = s
notify SchedState.running s = s
notify SchedState.waiting s = record s { usr1_sent = true }

-- For the table of index `i`. The overflow of the timer's delay has no result.
unfoldable pub process_tick : ℕ → Sched → Option Sched
process_tick i s = do
  table ← update_timer (s.tables i)
  some (
      notify s.state (record s {
        current_table_id = i;
        tables = update s.tables i table;
        timing_arrived = true;
      }))

-- The tasks of the expiry point of a table that table_scheduler_expiry_point_enqueue serves; `none` is
-- out of bounds.
unfoldable pub due_of : ScheduleTable → Option (List ℕ)
due_of table = do ep ← get_elem? table.eps_array (current_ep_index table); some ep.tasks

-- Those of table_scheduler_tasks_enqueue.
unfoldable pub tasks_due : Sched → Option (List ℕ)
tasks_due s = due_of (s.tables s.current_table_id)

abbrev pub is_running : TaskState → Bool
is_running TaskState.init = false
is_running TaskState.suspended = false
is_running TaskState.ready = false
is_running TaskState.running = true

-- A current task that has been interrupted goes back to the queue.
unfoldable pub requeue_current : Option ℕ → Ready → Outcome Ready
requeue_current none r = ok r
requeue_current (some t) r =
    if is_running (r.tasks t).task_state
    then task_enqueue_check (record r { tasks = set_state r.tasks t TaskState.ready }) t
    else ok r

unfoldable pub enqueue_arrived : Sched → List ℕ → Outcome Ready
enqueue_arrived s due = ReadyQueue.◌>>=◌ (enqueue_each s.ready due) (requeue_current s.current_task)

-- With the answer of task_dequeue: the task to switch to, or the end of the epoch.
abbrev pub picked : Option ℕ × Ready → Sched → Sched
picked (some t, r) s = record s { current_task = some t; ready = r }
picked (none, r) s =
    enable_timing_preempt
      (record s { current_task = none; ready = r; state = SchedState.suspended })

-- The rest of a pass, with the answer of the exchange of timing_arrived.
abbrev pub pass_after : Bool → Sched → Option (Outcome Sched)
pass_after true s = do
  due ← tasks_due s
  some (
      ReadyQueue.◌>>=◌ (enqueue_arrived s due) (λ r.
        ok
          (picked (task_dequeue r) (record (disable_timing_preempt s) { timing_arrived = false }))))
pass_after false s = some (
    ok (
      picked (task_dequeue s.ready) (record (disable_timing_preempt s) { timing_arrived = false })))

-- The inner loop of scheduler_thread up to switch_to, or up to the end of the epoch.
unfoldable pub schedule_pass : Sched → Option (Outcome Sched)
schedule_pass s = pass_after s.timing_arrived s

-- The first statement of scheduler_wait_resume, and the test of its loop.
unfoldable pub park : Sched → Sched
park s = record s { state = SchedState.suspended }

abbrev pub is_resuming : SchedState → Bool
is_resuming SchedState.init = false
is_resuming SchedState.suspended = false
is_resuming SchedState.resuming = true
is_resuming SchedState.running = false
is_resuming SchedState.waiting = false

unfoldable pub may_resume : Sched → Bool
may_resume s = is_resuming s.state
