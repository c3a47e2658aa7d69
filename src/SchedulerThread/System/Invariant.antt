-- ===== src/SchedulerThread/System/Invariant.antt =====
-- What holds between any two steps of the two threads, by where the scheduler thread stands.
use architecture_evolution_f.Prelude.{
  ℕ, ◌≡◌, ◌⊎◌, inl, inr, refl, ap, sym, ◌∙◌, subst, Bool, true, false, some, none, ◌∉◌,
}
use architecture_evolution_f.Task.{SchedState}
use architecture_evolution_f.ReadyQueue.{Ready}
use architecture_evolution_f.ScheduleTable.{ScheduleTable}
use architecture_evolution_f.SchedulerThread.{Sched, is_running, notify, process_tick}
use architecture_evolution_f.SchedulerThread.Contexts.{is_waiting}
use architecture_evolution_f.SchedulerThread.Tick.{ticked, process_tick-ticked}
use architecture_evolution_f.SchedulerThread.System.{
  Position, before_wait, parked, selecting, restored, running, handling, exited, System, sched_of,
  is_init,
}
use architecture_evolution_f.SchedulerThread.System.Tidy.{Tidy}

-- The states of a scheduler that runs no task.
abbrev pub is_idle : SchedState → Bool
is_idle SchedState.init = true
is_idle SchedState.suspended = true
is_idle SchedState.resuming = true
is_idle SchedState.running = false
is_idle SchedState.waiting = false

-- A current task that has been interrupted, and has not given way yet, has a tick to thank for it.
abbrev pub HasTick : Sched → Type 0
HasTick u =
    (t : ℕ)
    → u.current_task ≡ some t
    → is_running (u.ready.tasks t).task_state ≡ true
    → u.timing_arrived ≡ true

-- The function of a task runs in the state WAITING, at the lower priority and with no signal on its
-- way that a tick has not sent, or it has been resumed behind an interrupt, and runs in the state
-- RUNNING at the highest priority.
abbrev pub Runs : Sched → Type 0
Runs u =
    ((u.state ≡ SchedState.waiting)
      × (u.max_priority ≡ false)
      × (u.usr1_blocked ≡ false → u.usr1_sent ≡ true → u.timing_arrived ≡ true))
    ⊎ ((u.state ≡ SchedState.running) × (u.max_priority ≡ true))

abbrev pub At : Position → Sched → Type 0
At before_wait u = (is_idle u.state ≡ true) × (u.max_priority ≡ false) × (u.current_task ≡ none)
At parked u =
    (is_idle u.state ≡ true)
    × (u.max_priority ≡ false)
    × (u.current_task ≡ none)
    × (is_init u.state ≡ false)
At selecting u = (u.state ≡ SchedState.running) × (u.max_priority ≡ false) × HasTick u
At (restored t) u =
    (u.state ≡ SchedState.running)
    × (u.max_priority ≡ true)
    × (u.current_task ≡ some t)
    × (u.prev_blocked ≡ false → u.usr1_sent ≡ false)
    × (is_running (u.ready.tasks t).task_state ≡ false)
At (running t) u = (u.current_task ≡ some t) × Runs u
At (handling t return_mask) u =
    (u.state ≡ SchedState.waiting)
    × (u.max_priority ≡ false)
    × (u.current_task ≡ some t)
    × (u.usr1_blocked ≡ true)
    × (u.timing_arrived ≡ true)
At exited u = Unit

pub record Inv (s : System) : Type 0 where
  pub tidy : Tidy (sched_of s).ready
  pub out : (t : ℕ) → (sched_of s).current_task ≡ some t → t ∉ (sched_of s).ready.queue
  pub at : At s.position (sched_of s)

-- What a tick does to the fields that the invariant is about.
pub record Ticks (s u : Sched) : Type 0 where
  pub ready : u.ready ≡ s.ready
  pub current : u.current_task ≡ s.current_task
  pub priority : u.max_priority ≡ s.max_priority
  pub blocked : u.usr1_blocked ≡ s.usr1_blocked
  pub prev : u.prev_blocked ≡ s.prev_blocked
  pub arrived : u.timing_arrived ≡ true
  pub state :
      ((s.state ≡ SchedState.suspended) × (u.state ≡ SchedState.resuming)) ⊎ (u.state ≡ s.state)
  pub sent : is_waiting s.state ≡ false → u.usr1_sent ≡ s.usr1_sent

ticked-Ticks : (i : ℕ) (table : ScheduleTable) (s : Sched) → Ticks s (ticked i table s)
ticked-Ticks i table s = record {
  ready = refl;
  current = refl;
  priority = refl;
  blocked = refl;
  prev = refl;
  arrived = refl;
  state = inr refl;
  sent = λ w. refl;
}

notify-Ticks :
    (i : ℕ) (table : ScheduleTable) (s : Sched) (st : SchedState)
    → s.state ≡ st
    → Ticks s (notify st (ticked i table s))
notify-Ticks i table s SchedState.init h = ticked-Ticks i table s
notify-Ticks i table s SchedState.suspended h = record {
  ready = refl;
  current = refl;
  priority = refl;
  blocked = refl;
  prev = refl;
  arrived = refl;
  state = inl (h, refl);
  sent = λ w. refl;
}
notify-Ticks i table s SchedState.resuming h = ticked-Ticks i table s
notify-Ticks i table s SchedState.running h = ticked-Ticks i table s
notify-Ticks i table s SchedState.waiting h = record {
  ready = refl;
  current = refl;
  priority = refl;
  blocked = refl;
  prev = refl;
  arrived = refl;
  state = inr refl;
  sent = λ w. let not_waiting = sym (ap is_waiting h) ∙ w in cc;
}

pub process_tick-Ticks : (i : ℕ) (s u : Sched) → process_tick i s ≡ some u → Ticks s u
process_tick-Ticks i s u e =
    let (table, g, same) = process_tick-ticked i s u e in
    subst (Ticks s) same (notify-Ticks i table s s.state refl)

idle-Ticks : (s u : Sched) → Ticks s u → is_idle s.state ≡ true → is_idle u.state ≡ true
idle-Ticks s u k h = elim k.state [
  | inl (was, now) ↦ ap is_idle now
  | inr same ↦ ap is_idle same ∙ h
]

not_init-Ticks : (s u : Sched) → Ticks s u → is_init s.state ≡ false → is_init u.state ≡ false
not_init-Ticks s u k h = elim k.state [
  | inl (was, now) ↦ ap is_init now
  | inr same ↦ ap is_init same ∙ h
]

-- Outside the state SUSPENDED a tick does not change the state.
pub kept-Ticks :
    (s u : Sched) (st : SchedState)
    → Ticks s u
    → s.state ≡ st
    → st ≡ SchedState.running ⊎ st ≡ SchedState.waiting
    → u.state ≡ st
kept-Ticks s u st k h live = elim k.state [
  | inl (was, now) ↦ elim live [
    | inl e ↦ let impossible = sym (ap is_idle was) ∙ ap is_idle (h ∙ e) in cc
    | inr e ↦ let impossible = sym (ap is_idle was) ∙ ap is_idle (h ∙ e) in cc
  ]
  | inr same ↦ same ∙ h
]

Runs-Ticks : (s u : Sched) → Ticks s u → Runs s → Runs u
Runs-Ticks s u k (inl (w, p, d)) =
    inl (kept-Ticks s u SchedState.waiting k w (inr refl), k.priority ∙ p, λ b c. k.arrived)
Runs-Ticks s u k (inr (w, p)) =
    inr (kept-Ticks s u SchedState.running k w (inl refl), k.priority ∙ p)

pub At-Ticks : (p : Position) (s u : Sched) → Ticks s u → At p s → At p u
At-Ticks before_wait s u k a = (idle-Ticks s u k a.0, k.priority ∙ a.1, k.current ∙ a.2)
At-Ticks parked s u k a =
    (idle-Ticks s u k a.0, k.priority ∙ a.1, k.current ∙ a.2, not_init-Ticks s u k a.3)
At-Ticks selecting s u k a =
    (kept-Ticks s u SchedState.running k a.0 (inl refl), k.priority ∙ a.1, λ t c r. k.arrived)
At-Ticks (restored t) s u k (st, p, c, q, r) = (
  kept-Ticks s u SchedState.running k st (inl refl),
  k.priority ∙ p,
  k.current ∙ c,
  λ b. k.sent (ap is_waiting st) ∙ q (sym k.prev ∙ b),
  ap (λ (y : Ready). is_running (y.tasks t).task_state) k.ready ∙ r,
)
At-Ticks (running t) s u k a = (k.current ∙ a.0, Runs-Ticks s u k a.1)
At-Ticks (handling t m) s u k (st, p, c, b, r) = (
  kept-Ticks s u SchedState.waiting k st (inr refl),
  k.priority ∙ p,
  k.current ∙ c,
  k.blocked ∙ b,
  k.arrived,
)
At-Ticks exited s u k a = tt
