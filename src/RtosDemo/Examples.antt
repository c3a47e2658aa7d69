-- ===== src/RtosDemo/Examples.antt =====
-- The theorems on RTOSdemo.c at the two tasks of its main.
use architecture_evolution_f.Prelude.{ℕ, ◌≡◌, refl, arith, ◌<◌, ◌≤◌, ◌⊎◌, true, false}
use architecture_evolution_f.RtosDemo.{Rtos, create_task, schedule_times}
use architecture_evolution_f.RtosDemo.Turns.{IsRunning, turn, schedule_times_lem, scheduler-fair}
use architecture_evolution_f.RtosDemo.Create.{HasCreated, create_task_lem}

abbrev start : Rtos
start = record {
  memory = λ p. 0;
  tasks = λ t. record { stack_pointer = 0; stack_base = 0 };
  current_task = 0;
  task_count = 0;
}

abbrev two_tasks : Rtos
unfolding create_task
two_tasks = (create_task 2048 200 (create_task 1024 100 start).1).1

two_tasks-IsRunning : IsRunning two_tasks
unfolding create_task
two_tasks-IsRunning = record { current = omega arith; bounded = omega arith }

first_pointer : (two_tasks.tasks 0).stack_pointer ≡ 1086
unfolding create_task
first_pointer = refl

two_turns : schedule_times 2 two_tasks ≡ turn two_tasks 0
unfolding two_tasks
two_turns = schedule_times_lem two_tasks 2 two_tasks-IsRunning (omega arith)

scheduler-fair_example :
    (schedule_times 2 two_tasks ≡ two_tasks)
    × ((t : ℕ) → t < 2 → (k : ℕ) × (k < 2) × (schedule_times k two_tasks ≡ turn two_tasks t))
unfolding two_tasks
scheduler-fair_example = scheduler-fair two_tasks two_tasks-IsRunning

one_more_task :
    ((10 ≤ 0) × (create_task 1024 100 start ≡ (false, start)))
    ⊎ ((0 < 10)
        × ((create_task 1024 100 start).0 ≡ true)
        × HasCreated 1024 100 start (create_task 1024 100 start).1)
one_more_task = create_task_lem 1024 100 start
