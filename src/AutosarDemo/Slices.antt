-- ===== src/AutosarDemo/Slices.antt =====
-- How SysTick_Handler of AUTOSARdemo.c counts a time slice down.
use architecture_evolution_f.Prelude.{
  ℕ, zero, suc, ◌+◌, ◌-◌, ◌<◌, ◌%◌, ◌^◌, ◌≡◌, ◌≢◌, refl, ◌∙◌, ap, arith, ==_self, update-view,
}
use architecture_evolution_f.AutosarDemo.{Kernel, sys_tick_handler, with_slice}
use architecture_evolution_f.AutosarDemo.Ticks.{ticks}

-- `s'` is `s` after `k` interrupts that have only counted.
pub record HasCounted (k : ℕ) (s s' : Kernel) : Type 0 where
  pub current : s'.current_task ≡ s.current_task
  pub slice : (s'.task_pool s.current_task).time_slice + k ≡ (s.task_pool s.current_task).time_slice
  pub system_ticks : s'.system_ticks ≡ (s.system_ticks + k) % 2 ^ 32
  pub memory : s'.memory ≡ s.memory
  pub state : (t : ℕ) → (s'.task_pool t).state ≡ (s.task_pool t).state
  pub others : (t : ℕ) → t ≢ s.current_task → s'.task_pool t ≡ s.task_pool t

tick-counts :
    (switch_context : Kernel → Kernel) (s : Kernel)
    → 1 < (s.task_pool s.current_task).time_slice
    → sys_tick_handler switch_context s
      ≡ with_slice
          ((s.task_pool s.current_task).time_slice - 1)
          (record s { system_ticks = (s.system_ticks + 1) % 2 ^ 32 })
unfolding sys_tick_handler
tick-counts switch_context s h = ground arith

tick-switches :
    (switch_context : Kernel → Kernel) (s : Kernel)
    → (s.task_pool s.current_task).time_slice ≡ 1
    → sys_tick_handler switch_context s
      ≡ switch_context (with_slice 0 (record s { system_ticks = (s.system_ticks + 1) % 2 ^ 32 }))
unfolding sys_tick_handler
tick-switches switch_context s h = rw h refl

ticks-HasCounted :
    (switch_context : Kernel → Kernel) (k : ℕ) (s : Kernel)
    → s.system_ticks < 2 ^ 32
    → k < (s.task_pool s.current_task).time_slice
    → HasCounted k s (ticks switch_context k s)
unfolding ticks
ticks-HasCounted switch_context zero s b h = record {
  current = refl;
  slice = omega arith;
  system_ticks = omega arith;
  memory = refl;
  state = λ t. refl;
  others = λ t n. refl;
}
ticks-HasCounted switch_context (suc k) s b h =
    let slice = (s.task_pool s.current_task).time_slice in
    let s' = with_slice (slice - 1) (record s { system_ticks = (s.system_ticks + 1) % 2 ^ 32 }) in
    let self = ==_self s.current_task in
    let left : (s'.task_pool s.current_task).time_slice ≡ slice - 1 = rw self refl in
    let f = ticks-HasCounted switch_context k s' (omega arith) (omega arith) in
    rw (tick-counts switch_context s (omega arith)) (record {
      current = f.current;
      slice = let e = f.slice in omega arith;
      system_ticks = let e = f.system_ticks in omega arith;
      memory = f.memory;
      state = λ t.
          f.state t
          ∙ update-view (λ k. k.state) s.task_pool s.current_task
              (record (s.task_pool s.current_task) { time_slice = slice - 1 }) refl t;
      others = λ t n. f.others t n ∙ ground arith;
    })

-- With a time slice of k + 1 the first k interrupts only count, down to 1, and do not call
-- switch_context; the next one calls it, with the slice at 0. The tick counter wraps at 2^32.
pub ticks-slice :
    (switch_context : Kernel → Kernel) (k : ℕ) (s : Kernel)
    → s.system_ticks < 2 ^ 32
    → (s.task_pool s.current_task).time_slice ≡ k + 1
    → let s' = ticks switch_context k s in
      HasCounted k s s'
      × (sys_tick_handler switch_context s'
          ≡ switch_context
              (with_slice 0 (record s' { system_ticks = (s'.system_ticks + 1) % 2 ^ 32 })))
ticks-slice switch_context k s b h =
    let f = ticks-HasCounted switch_context k s b (omega arith) in
    let left = f.slice in
    let s' = ticks switch_context k s in
    let one : (s'.task_pool s.current_task).time_slice ≡ 1 = omega arith in
    (f, tick-switches switch_context s' (ap (λ c. (s'.task_pool c).time_slice) f.current ∙ one))
