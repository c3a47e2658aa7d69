-- ===== src/RtosDemo.antt =====
-- OS_evolution/RTOSdemo.c, the cooperative round-robin kernel: the task table, create_task and
-- scheduler. switch_context is assembler and is not modelled.
mod Turns
mod Create
mod Examples
use architecture_evolution_f.Prelude.{
  ℕ, zero, suc, ◌+◌, ◌-◌, ◌*◌, ◌/◌, ◌%◌, ◌^◌, Bool, true, false, leb, if◌then◌else◌, update,
}

abbrev pub max_tasks : ℕ
max_tasks = 10

abbrev pub stack_size : ℕ
stack_size = 256

-- The addresses of 32-bit words, counted in words.
pub record Task : Type 0 where
  pub stack_pointer : ℕ
  pub stack_base : ℕ

-- The static variables, and the memory by word address.
pub record Rtos : Type 0 where
  pub memory : ℕ → ℕ
  pub tasks : ℕ → Task
  pub current_task : ℕ
  pub task_count : ℕ

-- `stack` is what malloc returns. Both counters are of 8 bits.
unfoldable pub create_task : ℕ → ℕ → Rtos → Bool × Rtos
create_task stack task_func s =
    if leb max_tasks s.task_count
    then (false, s)
    else (let top = stack + stack_size / 4 - 1 in
        (
          true,
          record s {
            memory = update (update s.memory top (task_func % 2 ^ 32)) (top - 1) 4294967280;
            tasks =
                update s.tasks s.task_count
                  (record { stack_pointer = top - 1; stack_base = stack });
            task_count = (s.task_count + 1) % 2 ^ 8;
          },
        ))

unfoldable pub scheduler : Rtos → Rtos
scheduler s =
    let next = (s.current_task + 1) % 2 ^ 8 in
    if leb s.task_count next
    then record s { current_task = 0 }
    else record s { current_task = next }

-- `n` calls of scheduler, each in a call of switch_context.
unfoldable pub schedule_times : ℕ → Rtos → Rtos
schedule_times zero s = s
schedule_times (suc n) s = schedule_times n (scheduler s)
