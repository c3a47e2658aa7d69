-- ===== src/TaskLoading.antt =====
-- load_tasks of src/scheduler.c: the tasks of a configuration are counted for each CPU and written
-- into one array for each CPU.
pub mod Placement
mod Examples
use architecture_evolution_f.Prelude.{
  ℕ, zero, suc, ◌+◌, ℤ, pos, negsuc, true, false, Option, none, some, List, [], ◌∷◌, ltb, leb,
  if◌then◌else◌, update,
}
use architecture_evolution_f.Task.{
  TaskStruct, TaskStructInfo, TaskState, max_num_cpu, stack_size_bytes,
}

-- An array of malloc: a place is `none` until it is written.
abbrev pub TaskArray : Type 0
TaskArray = ℕ → Option TaskStruct

-- The two arrays over the CPUs that the caller hands over. `none` is the null pointer.
pub record Loaded : Type 0 where
  pub tasks_num_percpu : ℕ → ℕ
  pub tasks_persched : ℕ → Option TaskArray

-- What a call comes to: it returns, it calls exit(-1), or it goes beyond an array.
pub data LoadResult : Type 0 where
  returned : Loaded → LoadResult
  exited : LoadResult
  out_of_bounds : LoadResult

abbrev pub count_one : ℕ → (ℕ → ℕ) → ℕ → ℕ
count_one cpu num = if ltb cpu max_num_cpu then update num cpu (num cpu + 1) else num

-- `n` rounds of the first loop, each of which reads the CPU of the first element of the array.
unfoldable pub count_tasks : ℕ → ℕ → (ℕ → ℕ) → ℕ → ℕ
count_tasks cpu zero num = num
count_tasks cpu (suc n) num = count_tasks cpu n (count_one cpu num)

-- The second loop, at every CPU below max_num_cpu.
unfoldable pub allocate : Loaded → Loaded
allocate s = record s {
  tasks_persched = λ cpu.
      if ltb cpu max_num_cpu
      then (if ltb 0 (s.tasks_num_percpu cpu) then some (λ i. none) else s.tasks_persched cpu)
      else s.tasks_persched cpu;
}

-- The fields that the third loop fills in.
abbrev pub task_of : TaskStructInfo → TaskStruct
task_of info = record {
  priority = info.priority;
  cpu = info.cpu;
  period = info.period;
  table_id = info.table_id;
  in_ready_queue = false;
  task_type = info.task_type;
  task_state = TaskState.init;
  pfunc = info.pfunc;
  stack_size = stack_size_bytes;
}

abbrev pub write_task : Loaded → ℕ → TaskArray → ℕ → TaskStructInfo → Loaded
write_task s cpu tasks index info = record s {
  tasks_persched = update s.tasks_persched cpu (some (update tasks index (some (task_of info))));
}

-- `n` rounds of the third loop over the rest of the array. `cpu` is again that of the first element,
-- and `index` is tasks_index_percpu[cpu], the only place of that array which is read.
unfoldable pub place_tasks : ℕ → ℕ → ℕ → List TaskStructInfo → Loaded → LoadResult
place_tasks cpu zero index infos s = returned s
place_tasks cpu (suc n) index [] s = out_of_bounds
place_tasks cpu (suc n) index (info ∷ infos) s =
    if leb max_num_cpu cpu
    then out_of_bounds
    else if leb (s.tasks_num_percpu cpu) index
    then exited
    else elim (s.tasks_persched cpu) [
      | none ↦ out_of_bounds
      | some tasks ↦ place_tasks cpu n (index + 1) infos (write_task s cpu tasks index info)
    ]

-- With at least one task; the array is not null.
unfoldable pub load_from : ℕ → ℕ → List TaskStructInfo → Loaded → LoadResult
load_from cpu num infos s =
    place_tasks cpu num 0 infos
      (allocate (record s { tasks_num_percpu = count_tasks cpu num s.tasks_num_percpu }))

unfoldable pub load_tasks : Option (List TaskStructInfo) → ℤ → Loaded → LoadResult
load_tasks none num s = exited
load_tasks (some infos) (negsuc n) s = exited
load_tasks (some infos) (pos zero) s = returned (allocate s)
load_tasks (some []) (pos (suc n)) s = out_of_bounds
load_tasks (some (info ∷ infos)) (pos (suc n)) s = load_from info.cpu (suc n) (info ∷ infos) s
