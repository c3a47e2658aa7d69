-- ===== src/Simulator.antt =====
-- src/simulator.c: the singleton, and create_simulator, run_simulator and destroy_simulator. With it
-- create_scheduler of src/scheduler.c.
mod Lifecycle
mod Examples
use architecture_evolution_f.Prelude.{
  ℕ, zero, suc, ◌+◌, ℤ, Option, none, some, List, [], ◌∷◌, ltb, if◌then◌else◌, update,
}
use architecture_evolution_f.Task.{TaskStructInfo, max_num_cpu}
use architecture_evolution_f.TaskLoading.{
  TaskArray, Loaded, LoadResult, returned, exited, out_of_bounds, load_tasks,
}

-- enum schedule_strategy_t
pub data ScheduleStrategy : Type 0 where
  table fifo rr : ScheduleStrategy

-- The `scheduler_create` of a class: the number of the scheduler that it makes for a CPU, an array of
-- tasks and their count, or `none` for the null pointer. It starts threads, and is a parameter.
abbrev pub SchedulerCreate : Type 0
SchedulerCreate = ℕ → Option TaskArray → ℕ → Option ℕ

-- sched_class_arr has a class for the table strategy only.
unfoldable pub create_scheduler :
    SchedulerCreate → ScheduleStrategy → ℕ → Option TaskArray → ℕ → Option ℕ
create_scheduler scheduler_create table cpu tasks task_num = scheduler_create cpu tasks task_num
create_scheduler scheduler_create fifo cpu tasks task_num = none
create_scheduler scheduler_create rr cpu tasks task_num = none

-- struct simulator
pub record Simulator : Type 0 where
  pub schedulers : ℕ → Option ℕ
  pub loaded : Loaded

-- The variable `instance`: null, the address of a simulator, or that of one that has been freed.
pub data Instance : Type 0 where
  null : Instance
  live : Simulator → Instance
  freed : Instance

abbrev pub create_instance : Simulator
create_instance = record {
  schedulers = λ cpu. none;
  loaded = record { tasks_num_percpu = λ cpu. 0; tasks_persched = λ cpu. none };
}

-- pthread_once calls create_instance the first time only. `none` is an instance that has been freed.
unfoldable pub get_instance : Instance → Option Simulator
get_instance null = some create_instance
get_instance (live sim) = some sim
get_instance freed = none

-- What a call comes to: it returns, with the schedulers that it has started or destroyed in order,
-- the process exits, memory is used that is not there, or that has been freed.
pub data CallResult : Type 0 where
  done : Instance → List ℕ → CallResult
  exit : CallResult
  beyond_bounds : CallResult
  use_after_free : CallResult

-- `n` rounds of the loop of create_simulator, from `cpu` on.
unfoldable pub create_each : SchedulerCreate → ScheduleStrategy → ℕ → ℕ → Simulator → Simulator
create_each make strategy zero cpu sim = sim
create_each make strategy (suc n) cpu sim =
    let num = sim.loaded.tasks_num_percpu cpu in
    let scheduler = create_scheduler make strategy cpu (sim.loaded.tasks_persched cpu) num in
    create_each make strategy n (cpu + 1)
      (if ltb 0 num then record sim { schedulers = update sim.schedulers cpu scheduler } else sim)

abbrev create_loaded : SchedulerCreate → ScheduleStrategy → Simulator → LoadResult → CallResult
create_loaded make strategy sim (returned loaded) =
    done (live (create_each make strategy max_num_cpu 0 (record sim { loaded = loaded }))) []
create_loaded make strategy sim exited = exit
create_loaded make strategy sim out_of_bounds = beyond_bounds

unfoldable pub create_simulator :
    SchedulerCreate → Option (List TaskStructInfo) → ℤ → ScheduleStrategy → Instance → CallResult
create_simulator make task_info_arr num strategy instance' = elim (get_instance instance') [
  | none ↦ use_after_free
  | some sim ↦ create_loaded make strategy sim (load_tasks task_info_arr num sim.loaded)
]

-- The schedulers of the CPUs from `cpu` on, `n` of them.
unfoldable pub schedulers_from : (ℕ → Option ℕ) → ℕ → ℕ → List ℕ
schedulers_from schedulers zero cpu = []
schedulers_from schedulers (suc n) cpu =
    let rest = schedulers_from schedulers n (cpu + 1) in
    elim (schedulers cpu) [ none ↦ rest | some scheduler ↦ scheduler ∷ rest ]

-- run_scheduler is called for each.
unfoldable pub run_simulator : Instance → CallResult
run_simulator instance' = elim (get_instance instance') [
  | none ↦ use_after_free
  | some sim ↦ done (live sim) (schedulers_from sim.schedulers max_num_cpu 0)
]

-- destroy_scheduler is called for each, and the memory is freed. `instance` keeps its value.
unfoldable pub destroy_simulator : Instance → CallResult
destroy_simulator instance' = elim (get_instance instance') [
  | none ↦ use_after_free
  | some sim ↦ done freed (schedulers_from sim.schedulers max_num_cpu 0)
]
