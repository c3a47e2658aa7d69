-- ===== src/SchedulerThread/Contexts.antt =====
-- The contexts that the scheduler thread swaps, with the signal masks that swapcontext saves and
-- restores: entry, terminate, switch_to and interrupt_task of src/scheduler.c.
use architecture_evolution_f.Prelude.{
  ℕ, Bool, true, false, Option, none, some, update, if◌then◌else◌,
}
use architecture_evolution_f.Task.{
  TaskType, basic_periodic, basic_single_shot, extended_periodic, extended_single_shot, isr,
  unknown_task_type, TaskState, SchedState,
}
use architecture_evolution_f.ReadyQueue.{set_state}
use architecture_evolution_f.SchedulerThread.{Sched, disable_timing_preempt, enable_timing_preempt}

-- Where a saved context goes on: in front of entry, with the mask that it restores, at the end of the
-- entry function, or in the signal handler, whose return then restores the mask of the code that
-- the signal has interrupted.
pub data Context : Type 0 where
  at_entry : (mask : Bool) → Context
  at_end : (mask : Bool) → Context
  in_handler : (mask return_mask : Bool) → Context

-- The shared state with the saved contexts. Of scheduler_ctx only the mask matters: it goes on
-- behind switch_to.
pub record Thread : Type 0 where
  pub sched : Sched
  pub scheduler_mask : Bool
  pub ctx : ℕ → Context

-- The context that init_task_ctx makes, with the mask of the thread; `none` is one that no entry function
-- has been given to.
unfoldable pub init_task_ctx : TaskType → (mask : Bool) → Option Context
init_task_ctx basic_periodic mask = some (at_entry mask)
init_task_ctx basic_single_shot mask = some (at_entry mask)
init_task_ctx extended_periodic mask = none
init_task_ctx extended_single_shot mask = none
init_task_ctx isr mask = none
init_task_ctx unknown_task_type mask = none

abbrev pub set_task_state : ℕ → TaskState → Sched → Sched
set_task_state t state s = record s {
  ready = record s.ready { tasks = set_state s.ready.tasks t state };
}

unfoldable pub entry : ℕ → Sched → Sched
entry t s =
    enable_timing_preempt
      (set_task_state t TaskState.running (record s { state = SchedState.waiting }))

abbrev pub with_mask : Bool → Sched → Sched
with_mask mask s = record s { usr1_blocked = mask }

-- The end of the entry function goes on at uc_link, which is scheduler_ctx, with the mask of that.
abbrev pub continue_at : ℕ → Context → Sched → Sched
continue_at t (at_entry mask) s = entry t (with_mask mask s)
continue_at t (at_end mask) s = enable_timing_preempt s
continue_at t (in_handler mask return_mask) s = with_mask return_mask s

-- switch_to: the task runs its function afterwards, unless it has come to its end.
unfoldable pub switch_to : ℕ → Thread → Thread
switch_to t r = record r {
  scheduler_mask = r.sched.usr1_blocked;
  sched = continue_at t (r.ctx t) r.sched;
}

-- What follows switch_to in scheduler_thread when a task has given the processor back.
abbrev pub back_in_scheduler : Thread → Thread
back_in_scheduler r = record r {
  sched = enable_timing_preempt (with_mask r.scheduler_mask r.sched);
}

-- Behind terminate, periodic_task_entry goes back to entry and single_shot_task_entry ends. Tasks of
-- the other types have no entry function.
abbrev pub behind_terminate : TaskType → Bool → Context
behind_terminate basic_periodic mask = at_entry mask
behind_terminate basic_single_shot mask = at_end mask
behind_terminate extended_periodic mask = at_entry mask
behind_terminate extended_single_shot mask = at_end mask
behind_terminate isr mask = at_entry mask
behind_terminate unknown_task_type mask = at_entry mask

-- terminate, for the task `t` that has returned from its function.
unfoldable pub terminate : ℕ → Thread → Thread
terminate t r =
    let s = set_task_state t TaskState.suspended (disable_timing_preempt r.sched) in
    back_in_scheduler (record r {
      sched = record s { state = SchedState.running };
      ctx = update r.ctx t (behind_terminate (r.sched.ready.tasks t).task_type true);
    })

abbrev pub is_waiting : SchedState → Bool
is_waiting SchedState.init = false
is_waiting SchedState.suspended = false
is_waiting SchedState.resuming = false
is_waiting SchedState.running = false
is_waiting SchedState.waiting = true

-- The handler runs with the signal blocked.
abbrev pub in_signal : Sched → Sched
in_signal s = record s { usr1_blocked = true; usr1_sent = false }

abbrev pub preempted : ℕ → Thread → Thread
preempted t r = back_in_scheduler (record r {
  sched = record (disable_timing_preempt (in_signal r.sched)) { state = SchedState.running };
  ctx = update r.ctx t (in_handler true r.sched.usr1_blocked);
})

-- SIGUSR1 is delivered while task `t` runs, and interrupt_task is called.
unfoldable pub interrupt_task : ℕ → Thread → Thread
interrupt_task t r =
    if is_waiting r.sched.state
    then preempted t r
    else record r { sched = with_mask r.sched.usr1_blocked (in_signal r.sched) }
