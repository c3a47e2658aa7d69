-- ===== src/AutosarDemo/Ticks.antt =====
-- SysTick_Handler and os_delay of AUTOSARdemo.c over a run of the kernel.
use architecture_evolution_f.Prelude.{
  ℕ, zero, suc, ◌+◌, ◌-◌, ◌≤◌, ◌%◌, ◌^◌, ◌≡◌, refl, subst, sym, ◌∙◌, ap, arith, ltb, ◌==◌,
  Bool-cases, inl, inr, update-view,
}
use architecture_evolution_f.AutosarDemo.{Kernel, is_ready, schedule, sys_tick_handler, with_slice}
use architecture_evolution_f.AutosarDemo.Choice.{schedule_lem, IsFirstChoice, CanRun}

-- What switch_context does besides the stacks: it takes the choice of schedule over.
pub record CallsSchedule (switch_context : Kernel → Kernel) : Type 0 where
  pub current : (s : Kernel) → (switch_context s).current_task ≡ (schedule s).current_task
  pub count : (s : Kernel) → (switch_context s).task_count ≡ (schedule s).task_count
  pub state :
      (s : Kernel) (t : ℕ)
      → ((switch_context s).task_pool t).state ≡ ((schedule s).task_pool t).state
  pub priority :
      (s : Kernel) (t : ℕ)
      → ((switch_context s).task_pool t).priority ≡ ((schedule s).task_pool t).priority

-- `s'` has the tasks of `s`, with their states and priorities.
pub record SameTasks (s s' : Kernel) : Type 0 where
  pub count : s'.task_count ≡ s.task_count
  pub state : (t : ℕ) → (s'.task_pool t).state ≡ (s.task_pool t).state
  pub priority : (t : ℕ) → (s'.task_pool t).priority ≡ (s.task_pool t).priority

pub schedule-SameTasks : (s : Kernel) → SameTasks s (schedule s)
schedule-SameTasks s = elim (schedule_lem s) [
  | inl (h, e) ↦ rw e (record { count = refl; state = λ t. refl; priority = λ t. refl })
  | inr (c, first, w) ↦ record { count = w.count; state = w.state; priority = w.priority }
]

-- A first choice is chosen.
schedule-first : (s : Kernel) (c : ℕ) → IsFirstChoice s c → (schedule s).current_task ≡ c
schedule-first s c first = elim (schedule_lem s) [
  | inl (h, e) ↦ absurd (h c first.can_run)
  | inr (d, other, w) ↦
      let le : (s.task_pool c).priority ≤ (s.task_pool d).priority =
        first.highest d other.can_run in
      let ge : (s.task_pool d).priority ≤ (s.task_pool c).priority =
        other.highest c first.can_run in
      w.current ∙ (elim (Bool-cases (ltb c d)) [
        | inl before ↦ absurd (let lt = other.first c first.can_run (ground arith) in omega arith)
        | inr behind ↦ elim (Bool-cases (ltb d c)) [
          | inl before ↦ absurd (let lt = first.first d other.can_run (ground arith) in omega arith)
          | inr same ↦ ground arith
        ]
      ])
]

-- `n` timer interrupts.
unfoldable pub ticks : (Kernel → Kernel) → ℕ → Kernel → Kernel
ticks switch_context zero s = s
ticks switch_context (suc n) s = ticks switch_context n (sys_tick_handler switch_context s)

SameTasks-trans : (a b c : Kernel) → SameTasks a b → SameTasks b c → SameTasks a c
SameTasks-trans a b c p q = record {
  count = q.count ∙ p.count;
  state = λ t. q.state t ∙ p.state t;
  priority = λ t. q.priority t ∙ p.priority t;
}

CanRun-back : (s s' : Kernel) → SameTasks s s' → (t : ℕ) → CanRun s' t → CanRun s t
CanRun-back s s' w t (a, b, c) =
    let n = w.count in
    let p = w.priority t in (omega arith, sym (ap is_ready (w.state t)) ∙ b, omega arith)

IsFirstChoice-kept :
    (s s' : Kernel) (c : ℕ) → SameTasks s s' → IsFirstChoice s c → IsFirstChoice s' c
IsFirstChoice-kept s s' c w f =
    let (a, b, l) = f.can_run in
    let n = w.count in
    let pc = w.priority c in
    record {
      can_run = (omega arith, ap is_ready (w.state c) ∙ b, omega arith);
      highest = λ t run.
          let le = f.highest t (CanRun-back s s' w t run) in let pt = w.priority t in omega arith;
      first = λ t run u.
          let lt = f.first t (CanRun-back s s' w t run) u in let pt = w.priority t in omega arith;
    }

abbrev pub Unmoved : Kernel → Kernel → Type 0
Unmoved s s' = SameTasks s s' × (s'.current_task ≡ s.current_task)

-- A tick while the current task is the first choice.
module _ (switch_context : Kernel → Kernel) (calls : CallsSchedule switch_context) where
  pub switch_context-SameTasks : (s : Kernel) → SameTasks s (switch_context s)
  switch_context-SameTasks s =
      let w = schedule-SameTasks s in
      record {
        count = calls.count s ∙ w.count;
        state = λ t. calls.state s t ∙ w.state t;
        priority = λ t. calls.priority s t ∙ w.priority t;
      }

  switch_context-Unmoved :
      (s s' : Kernel)
      → IsFirstChoice s s.current_task
      → Unmoved s s'
      → Unmoved s (switch_context s')
  switch_context-Unmoved s s' f (w, e) = (
    SameTasks-trans s s' (switch_context s') w (switch_context-SameTasks s'),
    calls.current s'
        ∙ schedule-first s' s.current_task (IsFirstChoice-kept s s' s.current_task w f),
  )

  sys_tick_handler-Unmoved :
      (s : Kernel) → IsFirstChoice s s.current_task → Unmoved s (sys_tick_handler switch_context s)
  unfolding sys_tick_handler
  sys_tick_handler-Unmoved s f =
      let slice = (s.task_pool s.current_task).time_slice in
      let ticked = record s { system_ticks = (s.system_ticks + 1) % 2 ^ 32 } in
      let task = record (s.task_pool s.current_task) { time_slice = slice - 1 } in
      let counted : Unmoved s (with_slice (slice - 1) ticked) = (
        record {
          count = refl;
          state = update-view (λ k. k.state) s.task_pool s.current_task task refl;
          priority = update-view (λ k. k.priority) s.task_pool s.current_task task refl;
        },
        refl,
      ) in
      elim (Bool-cases (ltb 0 slice)) [
        | inl left ↦ elim (Bool-cases (slice - 1 == 0)) [
          | inl last ↦
              rw (left, last) (switch_context-Unmoved s (with_slice (slice - 1) ticked) f counted)
          | inr more ↦ rw (left, more) counted
        ]
        | inr spent ↦
            rw spent (record { count = refl; state = λ t. refl; priority = λ t. refl }, refl)
      ]

  -- Let switch_context take over what schedule chooses. If the current task is the first of the
  -- highest priority among the ready ones, then it is still the current one after any number of
  -- timer interrupts, whatever its time slice: a ready task of equal priority and higher index
  -- has no turn. No state and no priority changes.
  pub ticks-Unmoved :
      (n : ℕ) (s : Kernel) → IsFirstChoice s s.current_task → Unmoved s (ticks switch_context n s)
  unfolding ticks
  ticks-Unmoved zero s f = (record { count = refl; state = λ t. refl; priority = λ t. refl }, refl)
  ticks-Unmoved (suc n) s f =
      let (w, e) = sys_tick_handler-Unmoved s f in
      let s' = sys_tick_handler switch_context s in
      let f' : IsFirstChoice s' s'.current_task =
        subst (IsFirstChoice s') (sym e) (IsFirstChoice-kept s s' s.current_task w f) in
      let (w', e') = ticks-Unmoved n s' f' in
      (SameTasks-trans s s' (ticks switch_context n s') w w', e' ∙ e)
