-- ===== src/SchedulerThread/System/Tasks.antt =====
-- The steps in which a task begins, ends or is interrupted keep the invariant.
use architecture_evolution_f.Prelude.{
  ℕ, ◌≡◌, inl, inr, refl, ap, sym, ◌∙◌, subst, Bool, true, false, some, arith,
}
use architecture_evolution_f.Task.{TaskState, SchedState}
use architecture_evolution_f.SchedulerThread.{
  Sched, is_running, disable_timing_preempt, enable_timing_preempt,
}
use architecture_evolution_f.SchedulerThread.Contexts.{
  Context, at_entry, at_end, in_handler, is_waiting, set_task_state, entry, terminate, in_signal,
}
use architecture_evolution_f.SchedulerThread.System
use architecture_evolution_f.SchedulerThread.System.{
  Position, before_wait, parked, selecting, restored, running, handling, exited, System, sched_of,
  is_live, deliverable, go_on, position_of, preempt, ignore, moved,
}
use architecture_evolution_f.SchedulerThread.System.Tidy.{set_state-Tidy}
use architecture_evolution_f.SchedulerThread.System.Invariant.{is_idle, HasTick, Runs, At, Inv}

waiting_state : (st : SchedState) → is_waiting st ≡ true → st ≡ SchedState.waiting
waiting_state SchedState.init h = cc
waiting_state SchedState.suspended h = cc
waiting_state SchedState.resuming h = cc
waiting_state SchedState.running h = cc
waiting_state SchedState.waiting h = refl

idle_not_waiting : (st : SchedState) → is_idle st ≡ true → is_waiting st ≡ false
idle_not_waiting SchedState.init h = refl
idle_not_waiting SchedState.suspended h = refl
idle_not_waiting SchedState.resuming h = refl
idle_not_waiting SchedState.running h = cc
idle_not_waiting SchedState.waiting h = cc

-- A current task that is not marked as running has not been interrupted.
HasTick-at_rest :
    (u : Sched) (t : ℕ)
    → u.current_task ≡ some t
    → is_running (u.ready.tasks t).task_state ≡ false
    → HasTick u
HasTick-at_rest u t c r v c' r' =
    let same : v ≡ t = cc in
    let impossible = sym (ap (λ k. is_running (u.ready.tasks k).task_state) same ∙ r) ∙ r' in cc

-- A signal that can be delivered and finds the state WAITING comes from a tick.
caught-At :
    (p : Position) (u : Sched)
    → is_live p ≡ true
    → deliverable u ≡ true
    → is_waiting u.state ≡ true
    → At p u
    → (u.max_priority ≡ false) × (u.timing_arrived ≡ true)
caught-At before_wait u l d w a = let other = idle_not_waiting u.state a.0 in cc
caught-At parked u l d w a = let other = idle_not_waiting u.state a.0 in cc
caught-At selecting u l d w a = let other = ap is_waiting a.0 in cc
caught-At (restored t) u l d w a = let other = ap is_waiting a.0 in cc
caught-At (running t) u l d w (c, inl (st, p, k)) = (p, k (ground arith) (ground arith))
caught-At (running t) u l d w (c, inr (st, p)) = let other = ap is_waiting st in cc
caught-At (handling t m) u l d w (st, p, c, b, r) = (p, r)
caught-At exited u l d w a = cc

ignored-Runs : (u : Sched) → Runs u → Runs (ignore u)
unfolding ignore
ignored-Runs u (inl (st, p, k)) = inl (st, p, λ b e. cc)
ignored-Runs u (inr r) = inr r

ignored-At : (p : Position) (u : Sched) → At p u → At p (ignore u)
unfolding ignore
ignored-At before_wait u a = a
ignored-At parked u a = a
ignored-At selecting u a = a
ignored-At (restored t) u (st, p, c, q, r) = (st, p, c, λ b. refl, r)
ignored-At (running t) u a = (a.0, ignored-Runs u a.1)
ignored-At (handling t m) u a = a
ignored-At exited u a = tt

module _ (s : System) (inv : Inv s) where
  here_At : {p : Position} → s.position ≡ p → At p (sched_of s)
  here_At e = subst (λ p. At p (sched_of s)) e inv.at

  go_on-Inv :
      (t : ℕ) (c : Context)
      → s.position ≡ restored t
      → Inv (System.at s (go_on t c s.thread) (position_of t c))
  unfolding go_on entry enable_timing_preempt
  go_on-Inv t (at_entry m) e =
      let (state, priority, current, quiet, rest) = here_At e in
      record {
        tidy = set_state-Tidy (sched_of s).ready t TaskState.running (inv.out t current) inv.tidy;
        out = inv.out;
        at = (current, inl (refl, refl, λ b k. let still = quiet b in cc));
      }
  go_on-Inv t (at_end m) e =
      let (state, priority, current, quiet, rest) = here_At e in
      record {
        tidy = inv.tidy;
        out = inv.out;
        at = (state, refl, HasTick-at_rest (sched_of s) t current rest);
      }
  go_on-Inv t (in_handler m m') e =
      let (state, priority, current, quiet, rest) = here_At e in
      record { tidy = inv.tidy; out = inv.out; at = (current, inr (state, priority)) }

  pub go-Inv :
      {t : ℕ}
      → s.position ≡ restored t
      → Inv (System.at s (go_on t (s.thread.ctx t) s.thread) (position_of t (s.thread.ctx t)))
  go-Inv {t} e = go_on-Inv t (s.thread.ctx t) e

  pub finish-Inv :
      {t : ℕ} → s.position ≡ running t → Inv (System.at s (terminate t s.thread) selecting)
  unfolding terminate disable_timing_preempt enable_timing_preempt
  finish-Inv {t} e =
      let (current, runs) = here_At e in
      record {
        tidy = set_state-Tidy (sched_of s).ready t TaskState.suspended (inv.out t current) inv.tidy;
        out = inv.out;
        at = (
          refl,
          refl,
          HasTick-at_rest (set_task_state t TaskState.suspended (sched_of s)) t current
              (ground arith),
        );
      }

  pub catch-Inv :
      {t : ℕ}
      → is_live s.position ≡ true
      → deliverable (sched_of s) ≡ true
      → is_waiting (sched_of s).state ≡ true
      → (sched_of s).current_task ≡ some t
      → Inv (moved s (in_signal (sched_of s)) (handling t (sched_of s).usr1_blocked))
  catch-Inv {t} l d w c =
      let (priority, arrived) = caught-At s.position (sched_of s) l d w inv.at in
      record {
        tidy = inv.tidy;
        out = inv.out;
        at = (waiting_state (sched_of s).state w, priority, c, refl, arrived);
      }

  pub skip-Inv : Inv (moved s (ignore (sched_of s)) s.position)
  unfolding ignore
  skip-Inv = record {
    tidy = inv.tidy;
    out = inv.out;
    at = ignored-At s.position (sched_of s) inv.at;
  }

  pub give_way-Inv :
      {t : ℕ} {m : Bool}
      → s.position ≡ handling t m
      → Inv (System.at s (preempt t m s.thread) selecting)
  unfolding preempt disable_timing_preempt enable_timing_preempt
  give_way-Inv e =
      let (state, priority, current, blocked, arrived) = here_At e in
      record { tidy = inv.tidy; out = inv.out; at = (refl, refl, λ v c r. arrived) }
