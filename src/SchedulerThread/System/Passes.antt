-- ===== src/SchedulerThread/System/Passes.antt =====
-- What a pass of the inner loop of scheduler_thread leaves behind, as the next step finds it.
use architecture_evolution_f.Prelude.{
  ℕ, ◌≡◌, refl, ap, sym, subst, ◌∙◌, true, false, Option, none, some, >>=-eq-some, Bool-cases, inl,
  inr, ◌∉◌,
}
use architecture_evolution_f.Task.{SchedState}
use architecture_evolution_f.ReadyQueue.{Ready, ok, task_dequeue}
use architecture_evolution_f.SchedulerThread.{
  Sched, is_running, enqueue_arrived, tasks_due, picked, pass_after, schedule_pass,
  disable_timing_preempt, enable_timing_preempt,
}
use architecture_evolution_f.SchedulerThread.Preempted.{begun, ok-injective, >>=-ok}
use architecture_evolution_f.SchedulerThread.System.Tidy.{
  Tidy, LeavesTidy, enqueue_arrived-Tidy, task_dequeue-LeavesTidy,
}

-- The pass has picked task `t`.
pub record Picks (s u : Sched) (t : ℕ) : Type 0 where
  pub tidy : Tidy u.ready
  pub out : t ∉ u.ready.queue
  pub at_rest : is_running (u.ready.tasks t).task_state ≡ false
  pub current : u.current_task ≡ some t
  pub state : u.state ≡ s.state
  pub priority : u.max_priority ≡ true
  pub prev : u.prev_blocked ≡ s.usr1_blocked
  pub sent : u.usr1_sent ≡ s.usr1_sent

-- The pass has found no task.
pub record Ends (u : Sched) : Type 0 where
  pub tidy : Tidy u.ready
  pub state : u.state ≡ SchedState.suspended
  pub priority : u.max_priority ≡ false

picked-Picks :
    (s : Sched) (d : Option ℕ × Ready) (t : ℕ)
    → LeavesTidy d
    → (picked d (begun s)).current_task ≡ some t
    → Picks s (picked d (begun s)) t
unfolding disable_timing_preempt enable_timing_preempt
picked-Picks s (none, r) t l c = cc
picked-Picks s (some v, r) t (tidy, out, rest) c =
    let same : v ≡ t = cc in
    subst (λ k. Picks s (picked (some v, r) (begun s)) k) same
      (record {
        tidy = tidy;
        out = out;
        at_rest = rest;
        current = refl;
        state = refl;
        priority = refl;
        prev = refl;
        sent = refl;
      })

picked-Ends :
    (s : Sched) (d : Option ℕ × Ready)
    → LeavesTidy d
    → (picked d (begun s)).current_task ≡ none
    → Ends (picked d (begun s))
unfolding disable_timing_preempt enable_timing_preempt
picked-Ends s (none, r) l c = record { tidy = l; state = refl; priority = refl }
picked-Ends s (some v, r) l c = cc

-- A pass that returns picks from a queue that is as tidy as the one before.
schedule_pass-picked :
    (s u : Sched)
    → schedule_pass s ≡ some (ok u)
    → Tidy s.ready
    → (r : Ready) × (picked (task_dequeue r) (begun s) ≡ u) × Tidy r
unfolding schedule_pass
schedule_pass-picked s u e d = elim (Bool-cases s.timing_arrived) [
  | inl tick ↦
      let after = ap (λ arrived. pass_after arrived s) (sym tick) ∙ e in
      let (due, g, k) = >>=-eq-some (tasks_due s) _ after in
      let (r, run, same) =
        >>=-ok (enqueue_arrived s due) (λ r. picked (task_dequeue r) (begun s)) cc in
      (r, same, enqueue_arrived-Tidy s due r d run)
  | inr quiet ↦
      let after = ap (λ arrived. pass_after arrived s) (sym quiet) ∙ e in
      (s.ready, ok-injective cc, d)
]

pub schedule_pass-Picks :
    (s u : Sched) (t : ℕ)
    → schedule_pass s ≡ some (ok u)
    → Tidy s.ready
    → u.current_task ≡ some t
    → Picks s u t
schedule_pass-Picks s u t e d c =
    let (r, same, tidy) = schedule_pass-picked s u e d in
    subst (λ v. v.current_task ≡ some t → Picks s v t) same
      (picked-Picks s (task_dequeue r) t (task_dequeue-LeavesTidy r tidy)) c

pub schedule_pass-Ends :
    (s u : Sched) → schedule_pass s ≡ some (ok u) → Tidy s.ready → u.current_task ≡ none → Ends u
schedule_pass-Ends s u e d c =
    let (r, same, tidy) = schedule_pass-picked s u e d in
    subst (λ v. v.current_task ≡ none → Ends v) same
      (picked-Ends s (task_dequeue r) (task_dequeue-LeavesTidy r tidy)) c
