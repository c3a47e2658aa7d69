-- ===== src/RtosDemo/Create.antt =====
-- create_task of RTOSdemo.c on every branch.
use architecture_evolution_f.Prelude.{
  ℕ, ◌+◌, ◌-◌, ◌<◌, ◌≤◌, ◌%◌, ◌/◌, ◌^◌, ◌≡◌, ◌≢◌, refl, arith, leb, Bool-cases, inl, inr, true,
  false, ◌⊎◌,
}
use architecture_evolution_f.RtosDemo.{Rtos, max_tasks, stack_size, create_task}

-- `s'` is `s` with one more task, whose frame lies in the stack from `stack` on: the entry at word 63,
-- the status word 0xFFFFFFF0 under it, and the stack pointer at the latter.
pub record HasCreated (stack task_func : ℕ) (s s' : Rtos) : Type 0 where
  pub count : s'.task_count ≡ s.task_count + 1
  pub current : s'.current_task ≡ s.current_task
  pub entry : s'.memory (stack + 63) ≡ task_func % 2 ^ 32
  pub status : s'.memory (stack + 62) ≡ 4294967280
  pub pointer : (s'.tasks s.task_count).stack_pointer ≡ stack + 62
  pub base : (s'.tasks s.task_count).stack_base ≡ stack
  pub memory_kept : (p : ℕ) → p ≢ stack + 62 → p ≢ stack + 63 → s'.memory p ≡ s.memory p
  pub tasks_kept : (t : ℕ) → t ≢ s.task_count → s'.tasks t ≡ s.tasks t

-- With ten tasks create_task answers false and changes nothing. With fewer it answers true, there
-- is one task more, with its frame of two words in the lower 64 words of its stack, and every other
-- word, every other task and the current task are as they were.
pub create_task_lem :
    (stack task_func : ℕ) (s : Rtos)
    → ((max_tasks ≤ s.task_count) × (create_task stack task_func s ≡ (false, s)))
      ⊎ ((s.task_count < max_tasks)
          × ((create_task stack task_func s).0 ≡ true)
          × HasCreated stack task_func s (create_task stack task_func s).1)
unfolding create_task
create_task_lem stack task_func s = elim (Bool-cases (leb max_tasks s.task_count)) [
  | inl full ↦ inl (ground arith, rw full refl)
  | inr free ↦
      let lt : s.task_count < max_tasks = ground arith in
      let top : stack + stack_size / 4 - 1 ≡ stack + 63 = omega arith in
      let next : stack + 63 - 1 ≡ stack + 62 = omega arith in
      inr (
        lt,
        rw free refl,
        rw (free, top, next)
            (record {
              count = omega arith;
              current = refl;
              entry = ground arith;
              status = ground arith;
              pointer = ground arith;
              base = ground arith;
              memory_kept = λ p. ground arith;
              tasks_kept = λ t. ground arith;
            }),
      )
]
