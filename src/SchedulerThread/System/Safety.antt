-- ===== src/SchedulerThread/System/Safety.antt =====
-- What the two threads never do, in whatever order their steps come.
use architecture_evolution_f.Prelude.{
  ℕ, ◌≡◌, ◌↔◌, ◌⊎◌, inl, inr, refl, ap, sym, ◌∙◌, subst, true, false, Option, some, none, List, [],
  ◌∷◌, ◌++◌, arith, Bool-cases, has, Distinct, ◌∈◌, ◌∉◌,
}
use architecture_evolution_f.Task.{TaskStruct}
use architecture_evolution_f.ReadyQueue.{Ready, ok, exit}
use architecture_evolution_f.ReadyQueue.Calls.{Apart, enqueue_each-exit}
use architecture_evolution_f.SchedulerThread.{
  Sched, is_running, tasks_due, schedule_pass, pass_after, enqueue_arrived, init_scheduler,
}
use architecture_evolution_f.SchedulerThread.Pass.{returning, IsPicked, schedule_pass-IsPicked}
use architecture_evolution_f.SchedulerThread.Contexts.{init_task_ctx}
use architecture_evolution_f.SchedulerThread.System.{before_wait, System, sched_of, Reach}
use architecture_evolution_f.SchedulerThread.System.Tidy.{Tidy}
use architecture_evolution_f.SchedulerThread.System.Invariant.{Inv, At}
use architecture_evolution_f.SchedulerThread.System.Moves.{Reach-Inv}

-- The threads of a scheduler have just been created for basic tasks that are not queued, and
-- scheduler_thread has made their contexts.
pub record IsCreated (s : System) : Type 0 where
  pub tasks : ℕ → TaskStruct
  pub garbage : Sched
  pub sched : sched_of s ≡ init_scheduler tasks garbage
  pub free : (t : ℕ) → (tasks t).in_ready_queue ≡ false
  pub priority : garbage.max_priority ≡ false
  pub contexts :
      (t : ℕ) → init_task_ctx (tasks t).task_type garbage.usr1_blocked ≡ some (s.thread.ctx t)
  pub position : s.position ≡ before_wait

IsCreated-Inv : (s : System) → IsCreated s → Inv s
unfolding init_scheduler
IsCreated-Inv s c =
    let at : At s.position (init_scheduler c.tasks c.garbage) =
      subst (λ p. At p (init_scheduler c.tasks c.garbage)) (sym c.position)
        (refl, c.priority, refl) in
    record {
      tidy =
          subst (λ u. Tidy u.ready) (sym c.sched)
            (record {
              well_formed = record { distinct = tt; flags = c.free; sorted = tt };
              at_rest = λ t i. cc;
            });
      out = λ t h. let impossible = sym (ap (λ u. u.current_task) c.sched) ∙ h in cc;
      at = subst (At s.position) (sym c.sched) at;
    }

-- However the steps of the two threads interleave after the creation of a scheduler: the queue is
-- well formed and holds no task that is marked as running, the current task is not queued, and
-- the shared state fits the place where the scheduler thread stands. In particular the state is
-- WAITING only while the function of the current task runs, at the lower priority, or its
-- interrupt is handled, and it is RUNNING when the thread selects a task.
pub Reach-created : (s s' : System) → IsCreated s → Reach s s' → Inv s'
Reach-created s s' c r = Reach-Inv r (IsCreated-Inv s c)

-- Two lists have an element in common, or none.
Apart-cases : (xs ys : List ℕ) → Apart xs ys ⊎ ((t : ℕ) × (t ∈ xs) × (t ∈ ys))
Apart-cases [] ys = inl tt
Apart-cases (x ∷ xs) ys = elim (Bool-cases (has x ys)) [
  | inl shared ↦ inr (x, ground arith, shared)
  | inr free ↦ elim (Apart-cases xs ys) [
    | inl rest ↦ inl (free, rest)
    | inr (t, i, j) ↦ inr (t, ground arith, j)
  ]
]

returning-Apart :
    (current : Option ℕ) (due : List ℕ) (r : Ready)
    → ((t : ℕ) → current ≡ some t → t ∉ r.queue)
    → Apart (returning current due r) r.queue
returning-Apart none due r out = tt
returning-Apart (some t) due r out = elim (Bool-cases (has t due)) [
  | inl again ↦ rw again tt
  | inr other ↦ rw other (elim (Bool-cases (is_running (r.tasks t).task_state)) [
    | inl running ↦ rw running (out t refl, tt)
    | inr still ↦ rw still tt
  ])
]

-- A pass over due tasks that are not queued.
pass_on :
    (s : System) (due : List ℕ)
    → Inv s
    → (sched_of s).timing_arrived ≡ true
    → tasks_due (sched_of s) ≡ some due
    → Distinct due
    → Apart due (sched_of s).ready.queue
    → (u : Sched) × (schedule_pass (sched_of s) ≡ some (ok u))
      × IsPicked
          (returning (sched_of s).current_task due (sched_of s).ready
            ++ (due ++ (sched_of s).ready.queue))
          (sched_of s)
          u
pass_on s due inv tick g d a =
    schedule_pass-IsPicked (sched_of s) due tick g inv.tidy.well_formed d a
      (returning-Apart (sched_of s).current_task due (sched_of s).ready inv.out)

exit-late :
    (s : Sched) (due : List ℕ) (t : ℕ)
    → Tidy s.ready
    → s.timing_arrived ≡ true
    → tasks_due s ≡ some due
    → t ∈ due
    → t ∈ s.ready.queue
    → schedule_pass s ≡ some exit
unfolding schedule_pass enqueue_arrived
exit-late s due t tidy tick g i j =
    ap (λ arrived. pass_after arrived s) tick
    ∙ rw (g, enqueue_each-exit s.ready due t tidy.well_formed i j) refl

-- Without a tick a pass comes through.
exit-tick : (s : Sched) → s.timing_arrived ≡ false → schedule_pass s ≡ some exit → ⊥
unfolding schedule_pass
exit-tick s quiet e = let after = ap (λ arrived. pass_after arrived s) (sym quiet) ∙ e in cc

-- In every state that the two threads reach, a pass that starts ends the process exactly when a tick
-- has come and a task that is due is still in the queue. So the process never exits for another
-- reason: the interrupted task, that is put back too, is never in the queue.
pub schedule_pass-exit :
    (s s' : System) (due : List ℕ)
    → IsCreated s
    → Reach s s'
    → tasks_due (sched_of s') ≡ some due
    → Distinct due
    → (schedule_pass (sched_of s') ≡ some exit) ↔ (
        ((sched_of s').timing_arrived ≡ true)
        × ((t : ℕ) × (t ∈ due) × (t ∈ (sched_of s').ready.queue)))
schedule_pass-exit s s' due c r g d =
    let inv = Reach-created s s' c r in
    (
      λ e. elim (Bool-cases (sched_of s').timing_arrived) [
        | inl tick ↦ elim (Apart-cases due (sched_of s').ready.queue) [
          | inl apart ↦ let (u, other, k) = pass_on s' due inv tick g d apart in cc
          | inr late ↦ (tick, late)
        ]
        | inr quiet ↦ absurd (exit-tick (sched_of s') quiet e)
      ],
      λ (tick, late). let (t, i, j) = late in exit-late (sched_of s') due t inv.tidy tick g i j,
    )
