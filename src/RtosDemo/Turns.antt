-- ===== src/RtosDemo/Turns.antt =====
-- What scheduler of RTOSdemo.c does over several calls.
use architecture_evolution_f.Prelude.{
  ℕ, zero, suc, ◌+◌, ◌-◌, ◌<◌, ◌≤◌, ◌%◌, ◌^◌, ◌≡◌, refl, ap, arith, ltb, Bool-cases, if◌then◌else◌,
  inl, inr, ltb→lt, ◌∙◌,
}
use architecture_evolution_f.RtosDemo.{Rtos, max_tasks, scheduler, schedule_times}

-- A table with a task, within its bound, and a current task that is in it.
pub record IsRunning (s : Rtos) : Type 0 where
  pub current : s.current_task < s.task_count
  pub bounded : s.task_count ≤ max_tasks

-- The state with another current task.
abbrev pub turn : Rtos → ℕ → Rtos
turn s c = record s { current_task = c }

module _ (s : Rtos) (bounded : s.task_count ≤ max_tasks) where
  scheduler-next : (c : ℕ) → c + 1 < s.task_count → scheduler (turn s c) ≡ turn s (c + 1)
  unfolding scheduler
  scheduler-next c h = let small : (c + 1) % 2 ^ 8 ≡ c + 1 = omega arith in rw small (ground arith)

  scheduler-wraps : (c : ℕ) → c + 1 ≡ s.task_count → scheduler (turn s c) ≡ turn s 0
  unfolding scheduler
  scheduler-wraps c h = let small : (c + 1) % 2 ^ 8 ≡ c + 1 = omega arith in rw small (ground arith)

  -- The turns up to the end of the table.
  ahead : (n c : ℕ) → c + n < s.task_count → schedule_times n (turn s c) ≡ turn s (c + n)
  unfolding schedule_times
  ahead zero c h = ap (turn s) (omega arith)
  ahead (suc n) c h =
      let same : c + 1 + n ≡ c + suc n = omega arith in
      rw (scheduler-next c (omega arith), ahead n (c + 1) (omega arith), same) refl

  -- The turns beyond it: `n` up to the last task, and `k + 1` more.
  around :
      (m n k c : ℕ)
      → m ≡ n + k + 1
      → c + n + 1 ≡ s.task_count
      → k < s.task_count
      → schedule_times m (turn s c) ≡ turn s k
  unfolding schedule_times
  around zero n k c l e h = absurd (omega arith)
  around (suc m) zero k c l e h =
      let same : m ≡ k = omega arith in
      let zero_add : 0 + k ≡ k = omega arith in
      rw (scheduler-wraps c (omega arith), same, ahead k 0 (omega arith), zero_add) refl
  around (suc m) (suc n) k c l e h =
      rw (scheduler-next c (omega arith)) (around m n k (c + 1) (omega arith) (omega arith) h)

-- Round robin: with n tasks, the current one of index c, and k at most n, after k calls of scheduler
-- the current task is c + k if that is below n and c + k - n if not, and nothing else has
-- changed.
pub schedule_times_lem :
    (s : Rtos) (k : ℕ)
    → IsRunning s
    → k ≤ s.task_count
    → schedule_times k s
      ≡ turn s (
          if ltb (s.current_task + k) s.task_count
          then s.current_task + k
          else s.current_task + k - s.task_count)
schedule_times_lem s k r h = elim (Bool-cases (ltb (s.current_task + k) s.task_count)) [
  | inl below ↦ rw below (ahead s r.bounded k s.current_task (ltb→lt _ _ below))
  | inr over ↦
      let current = r.current in
      let reached : s.task_count ≤ s.current_task + k = ground arith in
      rw over (
        around s r.bounded k (s.task_count - s.current_task - 1) (s.current_task + k - s.task_count)
          s.current_task (omega arith) (omega arith) (omega arith))
]

-- Every task has its turn: of n tasks, each becomes the current one within n calls of scheduler,
-- and n calls lead back to the state that they started from.
pub scheduler-fair :
    (s : Rtos)
    → IsRunning s
    → (schedule_times s.task_count s ≡ s)
      × ((t : ℕ)
          → t < s.task_count
          → (k : ℕ) × (k < s.task_count) × (schedule_times k s ≡ turn s t))
scheduler-fair s r =
    let current = r.current in
    (
      around s r.bounded s.task_count (s.task_count - s.current_task - 1) s.current_task
          s.current_task (omega arith) (omega arith) current,
      λ t h. elim (Bool-cases (ltb t s.current_task)) [
        | inl before ↦
            let lt = ltb→lt t s.current_task before in
            (
              s.task_count - s.current_task + t,
              omega arith,
              around s r.bounded (s.task_count - s.current_task + t)
                  (s.task_count - s.current_task - 1) t s.current_task (omega arith) (omega arith)
                  h,
            )
        | inr behind ↦
            let le : s.current_task ≤ t = ground arith in
            let sum : s.current_task + (t - s.current_task) ≡ t = omega arith in
            (
              t - s.current_task,
              omega arith,
              ahead s r.bounded (t - s.current_task) s.current_task (omega arith) ∙ rw sum refl,
            )
      ],
    )
