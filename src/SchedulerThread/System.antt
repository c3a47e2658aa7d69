-- ===== src/SchedulerThread/System.antt =====
-- The scheduler thread and the timing thread of a scheduler as one step relation: scheduler_thread,
-- scheduler_wait_resume, the entry functions of the tasks and interrupt_task of src/scheduler.c,
-- interleaved with process_tick of src/table_scheduler.c. Both threads are bound to one processor,
-- so the timing thread runs only while the scheduler thread has its lower priority.
mod Tidy
mod Passes
mod Invariant
mod Tasks
mod Moves
mod Safety
mod Examples
use architecture_evolution_f.Prelude.{
  ℕ, ◌≡◌, Bool, true, false, not, ◌&&◌, Option, none, some, update,
}
use architecture_evolution_f.Task.{SchedState}
use architecture_evolution_f.ReadyQueue.{ok, exit}
use architecture_evolution_f.SchedulerThread.{
  Sched, process_tick, schedule_pass, park, may_resume, disable_timing_preempt,
  enable_timing_preempt,
}
use architecture_evolution_f.SchedulerThread.Contexts.{
  Context, at_entry, at_end, in_handler, Thread, entry, with_mask, back_in_scheduler, terminate,
  in_signal, is_waiting,
}

-- Where the scheduler thread stands: in front of scheduler_wait_resume, in the loop of that, at the
-- head of the inner loop of scheduler_thread, in switch_to with the context of the task restored,
-- in the function of a task, in interrupt_task behind its test, or nowhere after exit(-1).
pub data Position : Type 0 where
  before_wait parked selecting : Position
  restored running : (t : ℕ) → Position
  handling : (t : ℕ) (return_mask : Bool) → Position
  exited : Position

-- `started` tells whether the thread that creates the scheduler has come out of
-- wait_scheduler_complete_init and started the timers.
pub record System : Type 0 where
  pub thread : Thread
  pub position : Position
  pub started : Bool

abbrev pub sched_of : System → Sched
sched_of s = s.thread.sched

-- SIGUSR1 is pending and not blocked: it is delivered before the thread goes on.
abbrev pub deliverable : Sched → Bool
deliverable u = u.usr1_sent && not u.usr1_blocked

abbrev pub is_init : SchedState → Bool
is_init SchedState.init = true
is_init SchedState.suspended = false
is_init SchedState.resuming = false
is_init SchedState.running = false
is_init SchedState.waiting = false

abbrev pub is_live : Position → Bool
is_live exited = false
is_live _ = true

abbrev pub mask_of : Context → Bool
mask_of (at_entry mask) = mask
mask_of (at_end mask) = mask
mask_of (in_handler mask return_mask) = mask

-- The swapcontext of switch_to.
unfoldable pub restore : ℕ → Thread → Thread
restore t r = record r {
  scheduler_mask = r.sched.usr1_blocked;
  sched = with_mask (mask_of (r.ctx t)) r.sched;
}

-- What the restored context does next, and where that leads.
unfoldable pub go_on : ℕ → Context → Thread → Thread
go_on t (at_entry mask) r = record r { sched = entry t r.sched }
go_on t (at_end mask) r = back_in_scheduler r
go_on t (in_handler mask return_mask) r = record r { sched = with_mask return_mask r.sched }

abbrev pub position_of : ℕ → Context → Position
position_of t (at_entry mask) = running t
position_of t (at_end mask) = selecting
position_of t (in_handler mask return_mask) = running t

-- interrupt_task from disable_timing_preempt on.
unfoldable pub preempt : ℕ → Bool → Thread → Thread
preempt t return_mask r = back_in_scheduler (record r {
  sched = record (disable_timing_preempt r.sched) { state = SchedState.running };
  ctx = update r.ctx t (in_handler true return_mask);
})

-- The end of scheduler_wait_resume.
unfoldable pub resume : Sched → Sched
resume u = record u { state = SchedState.running }

-- A handler that finds the state not WAITING returns, and the mask is as before.
unfoldable pub ignore : Sched → Sched
ignore u = with_mask u.usr1_blocked (in_signal u)

abbrev pub moved : System → Sched → Position → System
moved s u p = record s { thread = record s.thread { sched = u }; position = p }

abbrev pub at : System → Thread → Position → System
at s r p = record s { thread = r; position = p }

-- Code between disable_timing_preempt and enable_timing_preempt is one step, for it runs at the highest
-- priority with the signal blocked.
pub data Step (s : System) : System → Type 0 where
  wait :
      s.position ≡ before_wait
      → deliverable (sched_of s) ≡ false
      → Step s (moved s (park (sched_of s)) parked)
  wake :
      s.position ≡ parked
      → deliverable (sched_of s) ≡ false
      → may_resume (sched_of s) ≡ true
      → Step s (moved s (resume (sched_of s)) selecting)
  end_epoch :
      {u : Sched}
      → s.position ≡ selecting
      → deliverable (sched_of s) ≡ false
      → schedule_pass (sched_of s) ≡ some (ok u)
      → u.current_task ≡ none
      → Step s (moved s u before_wait)
  pick :
      {u : Sched} {t : ℕ}
      → s.position ≡ selecting
      → deliverable (sched_of s) ≡ false
      → schedule_pass (sched_of s) ≡ some (ok u)
      → u.current_task ≡ some t
      → Step s (at s (restore t (record s.thread { sched = u })) (restored t))
  miss :
      s.position ≡ selecting
      → deliverable (sched_of s) ≡ false
      → schedule_pass (sched_of s) ≡ some exit
      → Step s (moved s (sched_of s) exited)
  go :
      {t : ℕ}
      → s.position ≡ restored t
      → deliverable (sched_of s) ≡ false
      → Step s (at s (go_on t (s.thread.ctx t) s.thread) (position_of t (s.thread.ctx t)))
  finish :
      {t : ℕ}
      → s.position ≡ running t
      → deliverable (sched_of s) ≡ false
      → Step s (at s (terminate t s.thread) selecting)
  catch :
      {t : ℕ}
      → is_live s.position ≡ true
      → deliverable (sched_of s) ≡ true
      → is_waiting (sched_of s).state ≡ true
      → (sched_of s).current_task ≡ some t
      → Step s (moved s (in_signal (sched_of s)) (handling t (sched_of s).usr1_blocked))
  skip :
      is_live s.position ≡ true
      → deliverable (sched_of s) ≡ true
      → is_waiting (sched_of s).state ≡ false
      → Step s (moved s (ignore (sched_of s)) s.position)
  give_way :
      {t : ℕ} {return_mask : Bool}
      → s.position ≡ handling t return_mask
      → Step s (at s (preempt t return_mask s.thread) selecting)
  start : is_init (sched_of s).state ≡ false → Step s (record s { started = true })
  tick :
      {u : Sched} (i : ℕ)
      → is_live s.position ≡ true
      → s.started ≡ true
      → (sched_of s).max_priority ≡ false
      → process_tick i (sched_of s) ≡ some u
      → Step s (moved s u s.position)

pub data Reach (s : System) : System → Type 0 where
  here : Reach s s
  later : {u v : System} → Reach s u → Step u v → Reach s v
