-- ===== src/TaskLoading/Examples.antt =====
-- A configuration of two CPUs.
use architecture_evolution_f.Prelude.{ℕ, ◌≡◌, ◌≤◌, arith, pos, negsuc, some, none, [], ◌∷◌}
use architecture_evolution_f.Task.{TaskStructInfo, TaskType, max_num_cpu}
use architecture_evolution_f.TaskLoading.{Loaded, load_tasks, returned, exited, out_of_bounds}
use architecture_evolution_f.TaskLoading.Placement.{
  empty, AllOnFirst, load_tasks-AllOnFirst, load_tasks-fails,
}

abbrev info : ℕ → ℕ → TaskStructInfo
info cpu period = record {
  priority = pos 1;
  cpu = cpu;
  period = period;
  table_id = 0;
  task_type = TaskType.basic_periodic;
  pfunc = 0;
}

load_tasks-AllOnFirst_example :
    (s : Loaded) × (load_tasks (some (info 0 10 ∷ info 1 20 ∷ [])) (pos 2) empty ≡ returned s)
    × AllOnFirst (info 0 10) (info 1 20 ∷ []) s
load_tasks-AllOnFirst_example = load_tasks-AllOnFirst (info 0 10) (info 1 20 ∷ []) (omega arith)

bad_arguments :
    (load_tasks none (pos 2) empty ≡ exited)
    × (load_tasks (some (info 1 20 ∷ [])) (negsuc 0) empty ≡ exited)
    × (max_num_cpu ≤ 300
        → load_tasks (some (info 300 10 ∷ info 1 20 ∷ [])) (pos 1) empty ≡ out_of_bounds)
bad_arguments = load_tasks-fails (info 1 20 ∷ []) (info 300 10) 0 (pos 2) empty
