-- ===== src/SchedulerThread/Preempted.antt =====
-- What becomes of preemption after the first interrupted task.
use architecture_evolution_f.Prelude.{
  ℕ, ◌≡◌, ◌≢◌, refl, ap, sym, ◌∙◌, Bool, true, false, Option, none, some, >>=-eq-some, Bool-cases,
  ◌==◌, ◌⊎◌, arith, inl, inr, update_self, if◌then◌else◌, update_ne,
}
use architecture_evolution_f.Task.{SchedState}
use architecture_evolution_f.ReadyQueue
use architecture_evolution_f.ReadyQueue.{Ready, Outcome, ok, exit, task_dequeue}
use architecture_evolution_f.SchedulerThread.{
  Sched, picked, pass_after, schedule_pass, enqueue_arrived, tasks_due, disable_timing_preempt,
  enable_timing_preempt,
}
use architecture_evolution_f.SchedulerThread.Contexts.{
  at_entry, in_handler, Thread, entry, switch_to, interrupt_task, preempted, in_signal, is_waiting,
  with_mask, continue_at,
}

-- What a pass that picks a task does to the scalars.
record HasPicked (s s' : Sched) : Type 0 where
  prev_blocked : s'.prev_blocked ≡ s.usr1_blocked
  state : s'.state ≡ s.state
  max_priority : s'.max_priority ≡ true

abbrev pub begun : Sched → Sched
begun s = record (disable_timing_preempt s) { timing_arrived = false }

picked-HasPicked :
    (s : Sched) (d : Option ℕ × Ready) {s' : Sched} (t : ℕ)
    → picked d (begun s) ≡ s'
    → s'.current_task ≡ some t
    → HasPicked s s'
unfolding disable_timing_preempt enable_timing_preempt
picked-HasPicked s (none, r) t e c = cc
picked-HasPicked s (some u, r) t e c =
    rw⁻¹ e (record { prev_blocked = refl; state = refl; max_priority = refl })

pub ok-injective : {s s' : Sched} → ok s ≡ ok s' → s ≡ s'
ok-injective e = cc

-- A bind that returns has a first part that does.
pub >>=-ok :
    (m : Outcome Ready) (f : Ready → Sched) {s' : Sched}
    → ReadyQueue.◌>>=◌ m (λ r. ok (f r)) ≡ ok s'
    → (r : Ready) × (m ≡ ok r) × (f r ≡ s')
>>=-ok (ok r) f e = (r, refl, ok-injective e)
>>=-ok exit f e = cc

schedule_pass-HasPicked :
    (s s' : Sched) (t : ℕ)
    → schedule_pass s ≡ some (ok s')
    → s'.current_task ≡ some t
    → HasPicked s s'
unfolding schedule_pass
schedule_pass-HasPicked s s' t e c = elim (Bool-cases s.timing_arrived) [
  | inl tick ↦
      let after = ap (λ arrived. pass_after arrived s) (sym tick) ∙ e in
      let (due, g, k) = >>=-eq-some (tasks_due s) _ after in
      let (r, run, same) =
        >>=-ok (enqueue_arrived s due) (λ r. picked (task_dequeue r) (begun s)) cc in
      picked-HasPicked s (task_dequeue r) t same c
  | inr quiet ↦
      let after = ap (λ arrived. pass_after arrived s) (sym quiet) ∙ e in
      picked-HasPicked s (task_dequeue s.ready) t (ok-injective cc) c
]

waiting-preempted :
    (r : Thread) (c : ℕ) → r.sched.state ≡ SchedState.waiting → interrupt_task c r ≡ preempted c r
unfolding interrupt_task
waiting-preempted r c w =
    ap
      (λ state.
        if is_waiting state
        then preempted c r
        else record r { sched = with_mask r.sched.usr1_blocked (in_signal r.sched) })
      w

preempted_state :
    (r : Thread) (c : ℕ)
    → ((preempted c r).sched.usr1_blocked ≡ true)
      × ((preempted c r).sched.state ≡ SchedState.running)
unfolding disable_timing_preempt enable_timing_preempt
preempted_state r c = (refl, refl)

-- switch_to with the context of the task known.
switch_to-entry :
    (t : ℕ) (r : Thread) (m : Bool)
    → r.ctx t ≡ at_entry m
    → r.sched.prev_blocked ≡ true
    → ((switch_to t r).sched.state ≡ SchedState.waiting)
      × ((switch_to t r).sched.usr1_blocked ≡ true)
unfolding switch_to entry enable_timing_preempt
switch_to-entry t r m e b = (
  ap (λ x. (continue_at t x r.sched).state) e,
  ap (λ x. (continue_at t x r.sched).usr1_blocked) e ∙ b,
)

switch_to-handler :
    (t : ℕ) (r : Thread) (m m' : Bool)
    → r.ctx t ≡ in_handler m m'
    → ((switch_to t r).sched.state ≡ r.sched.state)
      × ((switch_to t r).sched.max_priority ≡ r.sched.max_priority)
unfolding switch_to entry enable_timing_preempt
switch_to-handler t r m m' e = (
  ap (λ x. (continue_at t x r.sched).state) e,
  ap (λ x. (continue_at t x r.sched).max_priority) e,
)

-- Let task `c` be interrupted while the scheduler is WAITING, and let the next pass pick task `t`, whose
-- context was last saved in front of entry. If `t` is another task, it runs with SIGUSR1 blocked,
-- though the state is WAITING: a tick sends the signal and nobody is preempted. If `t` is `c`
-- itself, it goes on with the state RUNNING and at the highest priority: a tick sends no signal.
pub interrupt_task-unpreemptible :
    (r : Thread) (c t : ℕ) (s : Sched) (m : Bool)
    → r.sched.state ≡ SchedState.waiting
    → schedule_pass (interrupt_task c r).sched ≡ some (ok s)
    → s.current_task ≡ some t
    → r.ctx t ≡ at_entry m
    → let r' = switch_to t (record (interrupt_task c r) { sched = s }) in
      ((t ≢ c) × (r'.sched.state ≡ SchedState.waiting) × (r'.sched.usr1_blocked ≡ true))
      ⊎ ((t ≡ c) × (r'.sched.state ≡ SchedState.running) × (r'.sched.max_priority ≡ true))
interrupt_task-unpreemptible r c t s m w e p start =
    let h = schedule_pass-HasPicked (interrupt_task c r).sched s t e p in
    let same = waiting-preempted r c w in
    let (blocked, state) = preempted_state r c in
    let prev : s.prev_blocked ≡ true =
      h.prev_blocked ∙ (ap (λ u. u.sched.usr1_blocked) same ∙ blocked) in
    let running : s.state ≡ SchedState.running = h.state ∙ (ap (λ u. u.sched.state) same ∙ state) in
    let r1 = record (interrupt_task c r) { sched = s } in
    let resumed = in_handler true r.sched.usr1_blocked in
    elim (Bool-cases (t == c)) [
      | inl own ↦
          let at : t ≡ c = ground arith in
          let back : r1.ctx t ≡ resumed =
            ap r1.ctx at ∙ (ap (λ u. u.ctx c) same ∙ update_self r.ctx c resumed) in
          let (kept, priority) = switch_to-handler t r1 true r.sched.usr1_blocked back in
          inr (at, kept ∙ running, priority ∙ h.max_priority)
      | inr other ↦
          let apart : t ≢ c = ground arith in
          let (state', blocked') =
            switch_to-entry t r1 m
              (ap (λ u. u.ctx t) same ∙ (update_ne r.ctx c t resumed apart ∙ start)) prev in
          inl (apart, state', blocked')
    ]
