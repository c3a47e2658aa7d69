-- ===== src/AutosarDemo/Blocked.antt =====
-- What becomes of a task of AUTOSARdemo.c that has called os_delay.
use architecture_evolution_f.Prelude.{ℕ, ◌<◌, ◌≤◌, ◌≡◌, List, [], ◌∷◌, Option}
use architecture_evolution_f.AutosarDemo.{
  Kernel, TaskState, sys_tick_handler, os_delay, task_create, max_tasks,
}

-- What happens to the kernel: the timer interrupts, the running task calls os_delay or task_create.
pub data Event : Type 0 where
  tick : Event
  delay : ℕ → Event
  create : Option ℕ → ℕ → ℕ → ℕ → Event

module _ (switch_context : Kernel → Kernel) where
  unfoldable pub step : Event → Kernel → Kernel
  step tick s = sys_tick_handler switch_context s
  step (delay ticks) s = os_delay switch_context ticks s
  step (create stack entry priority time_slice) s =
      (task_create stack entry priority time_slice s).1

  unfoldable pub run : List Event → Kernel → Kernel
  run [] s = s
  run (e ∷ es) s = run es (step e s)

abbrev pub IsBlocked : Kernel → ℕ → Type 0
IsBlocked s t =
    (t < s.task_count)
    × (s.task_count ≤ max_tasks)
    × ((s.task_pool t).state ≡ TaskState.task_blocked)
