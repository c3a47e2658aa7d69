-- ===== src/Simulator/Examples.antt =====
-- A configuration of two tasks, with a scheduler of number 7.
use architecture_evolution_f.Prelude.{ℕ, pos, Option, some, List, [], ◌∷◌}
use architecture_evolution_f.Task.{TaskStructInfo, TaskType}
use architecture_evolution_f.Simulator.{SchedulerCreate, Simulator}

abbrev info : ℕ → TaskStructInfo
info period = record {
  priority = pos 1;
  cpu = 3;
  period = period;
  table_id = 0;
  task_type = TaskType.basic_periodic;
  pfunc = 0;
}

abbrev make : SchedulerCreate
make cpu tasks task_num = some 7

abbrev configuration : Option (List TaskStructInfo)
configuration = some (info 10 ∷ info 20 ∷ [])
