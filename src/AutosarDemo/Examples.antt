-- ===== src/AutosarDemo/Examples.antt =====
-- The theorems on AUTOSARdemo.c at three ready tasks.
use architecture_evolution_f.Prelude.{
  ℕ, zero, suc, ◌≡◌, ◌≤◌, ◌<◌, ◌%◌, ◌+◌, ◌^◌, refl, arith, some, none, true, false, ◌⊎◌, update,
  Option,
}
use architecture_evolution_f.AutosarDemo.{
  Kernel, Task, TaskState, schedule, better, search_from, switch_to, task_create, sys_tick_handler,
  max_tasks, with_slice, with_base, main, init_task_stack,
}
use architecture_evolution_f.AutosarDemo.Stack.{HasCreated, task_create_lem, task_create-fails}
use architecture_evolution_f.AutosarDemo.Choice.{CanRun, IsFirstChoice, IsSwitched, schedule_lem}
use architecture_evolution_f.AutosarDemo.Ticks.{CallsSchedule, Unmoved, ticks, ticks-Unmoved}
use architecture_evolution_f.AutosarDemo.Slices.{HasCounted, ticks-slice}
use architecture_evolution_f.AutosarDemo.Blocked.{run}

abbrev task : TaskState → ℕ → ℕ → Task
task state priority time_slice = record {
  stack_ptr = 0;
  stack_base = 0;
  state = state;
  priority = priority;
  time_slice = time_slice;
  entry = 0;
}

-- The tasks 1 and 2 have the highest priority.
abbrev pool : ℕ → Task
pool zero = task TaskState.task_blocked 0 5
pool (suc zero) = task TaskState.task_ready 1 2
pool (suc (suc zero)) = task TaskState.task_ready 1 20
pool _ = task TaskState.task_suspended 9 0

abbrev running : ℕ → Kernel
running t = record {
  memory = λ p. 0;
  task_pool = pool;
  task_count = 3;
  current_task = t;
  system_ticks = 0;
}

schedule-CallsSchedule : CallsSchedule schedule
schedule-CallsSchedule = record {
  current = λ s. refl;
  count = λ s. refl;
  state = λ s t. refl;
  priority = λ s t. refl;
}

one-highest : (t : ℕ) → CanRun (running 1) t → 1 ≤ (pool t).priority
one-highest zero run = absurd cc
one-highest (suc zero) run = omega arith
one-highest (suc (suc zero)) run = omega arith
one-highest (suc (suc (suc t))) run = omega arith

one-first : (t : ℕ) → CanRun (running 1) t → t < 1 → 1 < (pool t).priority
one-first zero run u = absurd cc
one-first (suc t) run u = absurd (omega arith)

one-IsFirstChoice : IsFirstChoice (running 1) 1
one-IsFirstChoice = record {
  can_run = (omega arith, refl, omega arith);
  highest = one-highest;
  first = one-first;
}

picks : (schedule (running 2)).current_task ≡ 1
unfolding schedule switch_to search_from better
picks = refl

schedule_lem_example :
    (((t : ℕ) → ¬ CanRun (running 2) t) × (schedule (running 2) ≡ running 2))
    ⊎ ((c : ℕ) × IsFirstChoice (running 2) c × IsSwitched c (running 2) (schedule (running 2)))
schedule_lem_example = schedule_lem (running 2)

ticks-Unmoved_example : Unmoved (running 1) (ticks schedule 50 (running 1))
ticks-Unmoved_example =
    ticks-Unmoved schedule schedule-CallsSchedule 50 (running 1) one-IsFirstChoice

sliced_ticks :
    HasCounted 1 (running 1) (ticks schedule 1 (running 1))
    × (sys_tick_handler schedule (ticks schedule 1 (running 1))
        ≡ schedule (
            with_slice 0 (record (ticks schedule 1 (running 1)) {
              system_ticks = ((ticks schedule 1 (running 1)).system_ticks + 1) % 2 ^ 32;
            })))
sliced_ticks = ticks-slice schedule 1 (running 1) (omega arith) refl

created_task :
    ((task_create (some 4096) 100 1 10 (running 1)).0 ≡ true)
    × HasCreated 4096 100 1 10 (running 1) (task_create (some 4096) 100 1 10 (running 1)).1
created_task = task_create_lem 4096 100 1 10 (running 1) (omega arith)

abbrev no_memory : Option ℕ
no_memory = none

no_stack : (task_create none 100 1 10 (running 1)).0 ≡ false
unfolding task_create
no_stack = refl

fails_without_stack :
    ((max_tasks ≤ 3) × ((task_create none 100 1 10 (running 1)).1 ≡ running 1))
    ⊎ ((no_memory ≡ none)
        × (3 < max_tasks)
        × ((task_create none 100 1 10 (running 1)).1
            ≡ record (running 1) { task_pool = update pool 3 (with_base 0 (pool 3)) }))
fails_without_stack = task_create-fails none 100 1 10 (running 1) no_stack

abbrev static_zero : Kernel
static_zero = record {
  memory = λ p. 0;
  task_pool = λ t. task TaskState.task_ready 0 0;
  task_count = 0;
  current_task = 0;
  system_ticks = 0;
}

-- The first task is chosen, and keeps the time slice that it was created with.
main_runs :
    let s = main schedule (some 4096) (some 8192) 100 200 static_zero in
    (s.task_count ≡ 2) × (s.current_task ≡ 0) × ((s.task_pool 0).time_slice ≡ 10)
unfolding main task_create init_task_stack schedule search_from better switch_to
main_runs = (refl, refl, refl)
