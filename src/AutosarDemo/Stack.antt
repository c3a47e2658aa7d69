-- ===== src/AutosarDemo/Stack.antt =====
-- The frame that init_task_stack of AUTOSARdemo.c lays out, and task_create on every branch.
use architecture_evolution_f.Prelude.{
  ℕ, zero, suc, ◌+◌, ◌-◌, ◌<◌, ◌≤◌, ◌%◌, ◌^◌, ◌≡◌, ◌≢◌, refl, arith, ◌==◌, ==_self, ◌∙◌, leb,
  Bool-cases, inl, inr, true, false, update, ◌⊎◌, Option, none, some,
}
use architecture_evolution_f.AutosarDemo.{
  Kernel, TaskState, StackTop, push_word, push_zeros, push_context, with_base, push_frame,
  init_task_stack, task_create, max_tasks, stack_size, stack_magic_num,
}

-- The zeros below the top, and nothing else.
push_zeros_lem :
    (n : ℕ) (t : StackTop)
    → n ≤ t.top
    → ((push_zeros n t).top ≡ t.top - n)
      × ((p : ℕ) → p < t.top → t.top ≤ p + n → (push_zeros n t).words p ≡ 0)
      × ((p : ℕ) → p + n < t.top → (push_zeros n t).words p ≡ t.words p)
      × ((p : ℕ) → t.top ≤ p → (push_zeros n t).words p ≡ t.words p)
unfolding push_zeros
push_zeros_lem zero t h = (omega arith, λ p. omega arith, λ p a. refl, λ p a. refl)
push_zeros_lem (suc n) t h =
    let (top, zeros, below, above) = push_zeros_lem n (push_word 0 t) (omega arith) in
    (
      omega arith,
      λ p a b. elim (Bool-cases (p == (t.top - 1))) [
        | inl first ↦
            let at : p ≡ t.top - 1 = ground arith in (above p (omega arith) ∙ ground arith)
        | inr rest ↦ zeros p (ground arith) (omega arith)
      ],
      λ p a. below p (omega arith) ∙ ground arith,
      λ p a. above p (omega arith) ∙ ground arith,
    )

-- The frame of a task with entry point `entry` in the stack from `base` on: the magic word on top,
-- then xPSR, PC and LR, and zeros for R12, R3 to R0 and R11 to R4.
pub record IsFrame (base entry : ℕ) (words : ℕ → ℕ) : Type 0 where
  pub magic : words (base + 255) ≡ stack_magic_num
  pub xpsr : words (base + 254) ≡ 16777216
  pub pc : words (base + 253) ≡ entry % 2 ^ 32
  pub lr : words (base + 252) ≡ 4294967295
  pub registers : (p : ℕ) → base + 239 ≤ p → p < base + 252 → words p ≡ 0

module _ (base entry : ℕ) (words : ℕ → ℕ) where
  abbrev empty : StackTop
  empty = record { words = words; top = base + stack_size }

  push_context-top : (push_context entry empty).top ≡ base + 247
  unfolding push_context
  push_context-top = omega arith

  push_context-magic : (push_context entry empty).words (base + 255) ≡ stack_magic_num
  unfolding push_context
  push_context-magic = ground arith

  push_context-xpsr : (push_context entry empty).words (base + 254) ≡ 16777216
  unfolding push_context
  push_context-xpsr = ground arith

  push_context-pc : (push_context entry empty).words (base + 253) ≡ entry % 2 ^ 32
  unfolding push_context
  push_context-pc = ground arith

  push_context-lr : (push_context entry empty).words (base + 252) ≡ 4294967295
  unfolding push_context
  push_context-lr = ground arith

  push_context-zeros :
      (p : ℕ) → base + 247 ≤ p → p < base + 252 → (push_context entry empty).words p ≡ 0
  unfolding push_context
  push_context-zeros p a b = ground arith

  push_context-outside :
      (p : ℕ) → (p < base + 247) ⊎ (base + 256 ≤ p) → (push_context entry empty).words p ≡ words p
  unfolding push_context
  push_context-outside p (inl a) = ground arith
  push_context-outside p (inr a) = ground arith

  -- What push_frame writes, and that it writes nothing else.
  push_frame_lem :
      ((push_frame entry empty).top ≡ base + 239)
      × IsFrame base entry (push_frame entry empty).words
      × ((p : ℕ) → p < base + 239 → (push_frame entry empty).words p ≡ words p)
      × ((p : ℕ) → base + 256 ≤ p → (push_frame entry empty).words p ≡ words p)
  unfolding push_frame
  push_frame_lem =
      let start = push_context-top in
      let (top, zeros, below, above) = push_zeros_lem 8 (push_context entry empty) (omega arith) in
      (
        omega arith,
        record {
          magic = above _ (omega arith) ∙ push_context-magic;
          xpsr = above _ (omega arith) ∙ push_context-xpsr;
          pc = above _ (omega arith) ∙ push_context-pc;
          lr = above _ (omega arith) ∙ push_context-lr;
          registers = λ p a b. elim (Bool-cases (leb (base + 247) p)) [
            | inl saved ↦
                let le : base + 247 ≤ p = ground arith in
                above p (omega arith) ∙ push_context-zeros p le b
            | inr manual ↦ zeros p (ground arith) (omega arith)
          ];
        },
        λ p a. below p (omega arith) ∙ push_context-outside p (inl (omega arith)),
        λ p a. above p (omega arith) ∙ push_context-outside p (inr a),
      )

-- `s'` is `s` with the task of the next index created, its frame in the stack from `base` on.
pub record HasCreated (base entry priority time_slice : ℕ) (s s' : Kernel) : Type 0 where
  pub count : s'.task_count ≡ s.task_count + 1
  pub task : s'.task_pool s.task_count ≡ record {
    stack_ptr = base + 239;
    stack_base = base;
    state = TaskState.task_ready;
    priority = priority;
    time_slice = time_slice;
    entry = entry;
  }
  pub frame : IsFrame base entry s'.memory
  pub memory_kept : (p : ℕ) → (p < base + 239) ⊎ (base + 256 ≤ p) → s'.memory p ≡ s.memory p
  pub tasks_kept : (t : ℕ) → t ≢ s.task_count → s'.task_pool t ≡ s.task_pool t
  pub current : s'.current_task ≡ s.current_task

-- task_create with fewer than ten tasks and a stack of 256 words from `base` on answers true. The new
-- task is ready, with the frame of 17 words at the top of its stack and its stack pointer under
-- it. No word outside the frame, no other task and not the current task changes.
pub task_create_lem :
    (base entry priority time_slice : ℕ) (s : Kernel)
    → s.task_count < max_tasks
    → let created = task_create (some base) entry priority time_slice s in
      (created.0 ≡ true) × HasCreated base entry priority time_slice s created.1
unfolding task_create init_task_stack
task_create_lem base entry priority time_slice s h =
    let (top, frame, below, above) = push_frame_lem base entry s.memory in
    let self = ==_self s.task_count in
    elim (Bool-cases (leb max_tasks s.task_count)) [
      | inl full ↦ absurd (ground arith)
      | inr free ↦ (
        rw free refl,
        rw (free, self)
            (record {
              count = omega arith;
              task = rw (self, top) refl;
              frame = frame;
              memory_kept = λ p h. elim h [ inl a ↦ below p a | inr a ↦ above p a ];
              tasks_kept = λ t. ground arith;
              current = refl;
            }),
      )
    ]

-- Where task_create answers false no task was added and no memory written: with ten tasks nothing
-- has changed, and without a stack only the stack base of the next task has, which is null.
pub task_create-fails :
    (stack : Option ℕ) (entry priority time_slice : ℕ) (s : Kernel)
    → (task_create stack entry priority time_slice s).0 ≡ false
    → ((max_tasks ≤ s.task_count) × ((task_create stack entry priority time_slice s).1 ≡ s))
      ⊎ ((stack ≡ none)
          × (s.task_count < max_tasks)
          × ((task_create stack entry priority time_slice s).1 ≡ record s {
            task_pool = update s.task_pool s.task_count (with_base 0 (s.task_pool s.task_count));
          }))
unfolding task_create
task_create-fails stack entry priority time_slice s h = ground arith
