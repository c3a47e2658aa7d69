-- ===== src/SchedulerThread/Served.antt =====
-- One tick of a table: when it comes and which expiry point it serves.
use architecture_evolution_f.Prelude.{
  ℕ, ◌+◌, ◌*◌, ◌/◌, ◌%◌, ◌<◌, ◌≡◌, refl, ap, ◌∙◌, true, some, get_elem?, update, update_self,
}
use architecture_evolution_f.Task.{SchedState}
use architecture_evolution_f.ScheduleTable.{ExpiryPoint, ScheduleTable}
use architecture_evolution_f.ScheduleTable.Timer.{update_timer, current_ep_index}
use architecture_evolution_f.ScheduleTable.Timer.Cycle.{offset_or}
use architecture_evolution_f.ScheduleTable.Build.Periods.{cycle-parts}
use architecture_evolution_f.SchedulerThread.{Sched, due_of, notify, process_tick, tasks_due}

-- When the tick behind `n` others is due, in milliseconds from the first.
abbrev pub tick_time : ScheduleTable → ℕ → ℕ
tick_time t n = n / t.num_eps * t.duration + offset_or t.eps_array (n % t.num_eps)

pub tick_time-parts :
    (t : ScheduleTable) (n w j : ℕ)
    → n ≡ w * t.num_eps + j
    → j < t.num_eps
    → tick_time t n ≡ w * t.duration + offset_or t.eps_array j
tick_time-parts t n w j e l =
    let (cycle, index) = cycle-parts t.num_eps w j l in rw (e, cycle, index) refl

notify-tables : (state : SchedState) (s : Sched) → tasks_due (notify state s) ≡ tasks_due s
unfolding tasks_due
notify-tables SchedState.init s = refl
notify-tables SchedState.suspended s = refl
notify-tables SchedState.resuming s = refl
notify-tables SchedState.running s = refl
notify-tables SchedState.waiting s = refl

-- A tick of the table `k` makes the tasks of its expiry point due.
pub tick-due :
    (k : ℕ) (s : Sched) (t t' : ScheduleTable)
    → s.tables k ≡ t
    → update_timer t ≡ some t'
    → (s' : Sched) × (process_tick k s ≡ some s') × (tasks_due s' ≡ due_of t')
unfolding process_tick tasks_due
tick-due k s t t' e run = (
  notify s.state ticked,
  rw (e, run) refl,
  notify-tables s.state ticked ∙ ap due_of (update_self s.tables k t'),
)
  where
    ticked : Sched
    ticked = record s { current_table_id = k; tables = update s.tables k t'; timing_arrived = true }

pub due_of-at :
    (t : ScheduleTable) (j : ℕ) (ep : ExpiryPoint)
    → current_ep_index t ≡ j
    → get_elem? t.eps_array j ≡ some ep
    → due_of t ≡ some ep.tasks
unfolding due_of
due_of-at t j ep e at = rw (e, at) refl
