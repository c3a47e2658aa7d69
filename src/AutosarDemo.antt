-- ===== src/AutosarDemo.antt =====
-- OS_evolution/AUTOSARdemo.c, the prioritised kernel: the task pool, init_task_stack, task_create,
-- schedule, SysTick_Handler, os_delay and main. switch_context is assembler outside the repository and a
-- parameter.
mod Stack
mod Choice
mod Ticks
mod Slices
mod Blocked
mod Examples
use architecture_evolution_f.Prelude.{
  ℕ, zero, suc, ◌+◌, ◌-◌, ◌*◌, ◌%◌, ◌^◌, Bool, true, false, Option, none, some, ltb, leb, ◌==◌,
  ◌&&◌, not, if◌then◌else◌, update,
}

abbrev pub max_tasks : ℕ
max_tasks = 10

abbrev pub stack_size : ℕ
stack_size = 256

abbrev pub stack_magic_num : ℕ
stack_magic_num = 3735928559

pub data TaskState : Type 0 where
  task_ready : TaskState
  task_running : TaskState
  task_blocked : TaskState
  task_suspended : TaskState

-- The addresses of 32-bit words are counted in words.
pub record Task : Type 0 where
  pub stack_ptr : ℕ
  pub stack_base : ℕ
  pub state : TaskState
  pub priority : ℕ
  pub time_slice : ℕ
  pub entry : ℕ

-- The static variables, and the memory by word address.
pub record Kernel : Type 0 where
  pub memory : ℕ → ℕ
  pub task_pool : ℕ → Task
  pub task_count : ℕ
  pub current_task : ℕ
  pub system_ticks : ℕ

-- A stack that grows downwards: the memory and `stackTop`.
pub record StackTop : Type 0 where
  pub words : ℕ → ℕ
  pub top : ℕ

-- `*(--stackTop) = word`
abbrev pub push_word : ℕ → StackTop → StackTop
push_word word t = record { words = update t.words (t.top - 1) word; top = t.top - 1 }

unfoldable pub push_zeros : ℕ → StackTop → StackTop
push_zeros zero t = t
push_zeros (suc n) t = push_zeros n (push_word 0 t)

-- The magic word and the context that an exception saves, from the top of the stack downwards.
unfoldable pub push_context : ℕ → StackTop → StackTop
push_context entry t =
    let magic = push_word stack_magic_num t in
    let xpsr = push_word 16777216 magic in
    let pc = push_word (entry % 2 ^ 32) xpsr in
    let lr = push_word 4294967295 pc in
    let r12 = push_word 0 lr in
    let r3 = push_word 0 r12 in let r2 = push_word 0 r3 in let r1 = push_word 0 r2 in push_word 0 r1

-- The registers R11 to R4 follow.
unfoldable pub push_frame : ℕ → StackTop → StackTop
push_frame entry t = push_zeros 8 (push_context entry t)

-- For the task of index `i` of the pool.
unfoldable pub init_task_stack : ℕ → Kernel → Kernel
init_task_stack i s =
    let task = s.task_pool i in
    let t =
      push_frame task.entry (record { words = s.memory; top = task.stack_base + stack_size }) in
    record s {
      memory = t.words;
      task_pool = update s.task_pool i (record task { stack_ptr = t.top });
    }

abbrev pub with_base : ℕ → Task → Task
with_base base task = record task { stack_base = base }

-- `stack` is what malloc returns: `none` is the null pointer, which is 0.
unfoldable pub task_create : Option ℕ → ℕ → ℕ → ℕ → Kernel → Bool × Kernel
task_create stack entry priority time_slice s =
    let i = s.task_count in
    if leb max_tasks i then (false, s) else elim stack [
      | none ↦ (false, record s { task_pool = update s.task_pool i (with_base 0 (s.task_pool i)) })
      | some base ↦
          let task = record (with_base base (s.task_pool i)) {
            entry = entry;
            state = TaskState.task_ready;
            priority = priority;
            time_slice = time_slice;
          } in
          let s' = init_task_stack i (record s { task_pool = update s.task_pool i task }) in
          (true, record s' { task_count = (i + 1) % 2 ^ 8 })
    ]

-- `highestPri` and `candidate` of the loop of schedule.
pub record Best : Type 0 where
  pub highest_pri : ℕ
  pub candidate : ℕ

abbrev pub is_ready : TaskState → Bool
is_ready TaskState.task_ready = true
is_ready TaskState.task_running = false
is_ready TaskState.task_blocked = false
is_ready TaskState.task_suspended = false

unfoldable pub better : (ℕ → Task) → ℕ → Best → Best
better pool i best =
    if is_ready (pool i).state && ltb (pool i).priority best.highest_pri
    then record { highest_pri = (pool i).priority; candidate = i }
    else best

-- `n` rounds of the loop, from index `i` on.
unfoldable pub search_from : (ℕ → Task) → ℕ → ℕ → Best → Best
search_from pool zero i best = best
search_from pool (suc n) i best = search_from pool n (i + 1) (better pool i best)

-- The comparison and the assignments behind the loop.
unfoldable pub switch_to : ℕ → Kernel → Kernel
switch_to candidate s = if candidate == s.current_task then s else record s {
  current_task = candidate;
  task_pool = update s.task_pool candidate (record (s.task_pool candidate) { time_slice = 10 });
}

unfoldable pub schedule : Kernel → Kernel
schedule s =
    let found =
      search_from s.task_pool s.task_count 0
        (record { highest_pri = 255; candidate = s.current_task }) in
    switch_to found.candidate s

abbrev pub with_slice : ℕ → Kernel → Kernel
with_slice n s = record s {
  task_pool =
      update s.task_pool s.current_task (record (s.task_pool s.current_task) { time_slice = n });
}

-- The assembler routine behind switch_context is the first argument of the two that call it.
unfoldable pub sys_tick_handler : (Kernel → Kernel) → Kernel → Kernel
sys_tick_handler switch_context s =
    let ticked = record s { system_ticks = (s.system_ticks + 1) % 2 ^ 32 } in
    let slice = (s.task_pool s.current_task).time_slice in
    let counted = with_slice (slice - 1) ticked in
    if ltb 0 slice then (if slice - 1 == 0 then switch_context counted else counted) else ticked

unfoldable pub os_delay : (Kernel → Kernel) → ℕ → Kernel → Kernel
os_delay switch_context ticks s =
    let task = s.task_pool s.current_task in
    let blocked = record task { state = TaskState.task_blocked; time_slice = ticks } in
    switch_context (record s { task_pool = update s.task_pool s.current_task blocked })

-- main up to its last loop. `stack1` and `stack2` are what malloc returns, `task1` and `task2` the addresses
-- of the two functions. systick_init is left out.
unfoldable pub main :
    (Kernel → Kernel) → (stack1 stack2 : Option ℕ) → (task1 task2 : ℕ) → Kernel → Kernel
main switch_context stack1 stack2 task1 task2 s =
    let first = (task_create stack1 task1 1 10 s).1 in
    let second = (task_create stack2 task2 2 20 first).1 in switch_context (schedule second)
