-- ===== src/SchedulerThread/System/Moves.antt =====
-- Every step of the two threads keeps the invariant.
use architecture_evolution_f.Prelude.{
  ℕ, ◌≡◌, refl, ap, sym, ◌∙◌, subst, false, some, none, ◌∉◌, arith,
}
use architecture_evolution_f.ReadyQueue.{Ready, ok}
use architecture_evolution_f.SchedulerThread.{Sched, park, schedule_pass, process_tick}
use architecture_evolution_f.SchedulerThread.System
use architecture_evolution_f.SchedulerThread.System.{
  Position, before_wait, parked, selecting, restored, running, handling, exited, System, sched_of,
  is_init, is_live, deliverable, restore, go_on, position_of, preempt, resume, ignore, moved, Step,
  wait, wake, end_epoch, pick, miss, go, finish, catch, skip, give_way, start, tick, Reach, here,
  later,
}
use architecture_evolution_f.SchedulerThread.System.Tidy.{Tidy}
use architecture_evolution_f.SchedulerThread.System.Passes.{schedule_pass-Picks, schedule_pass-Ends}
use architecture_evolution_f.SchedulerThread.System.Tasks.{
  go-Inv, finish-Inv, catch-Inv, skip-Inv, give_way-Inv,
}
use architecture_evolution_f.SchedulerThread.System.Invariant.{
  is_idle, At, Inv, process_tick-Ticks, At-Ticks,
}

quiet : (u : Sched) → deliverable u ≡ false → u.usr1_blocked ≡ false → u.usr1_sent ≡ false
quiet u q b = ground arith

module _ (s : System) (inv : Inv s) where
  -- The invariant at a position that is known.
  here_At : {p : Position} → s.position ≡ p → At p (sched_of s)
  here_At e = subst (λ p. At p (sched_of s)) e inv.at

  wait-Inv : s.position ≡ before_wait → Inv (moved s (park (sched_of s)) parked)
  unfolding park
  wait-Inv e =
      let (idle, priority, none_runs) = here_At e in
      record { tidy = inv.tidy; out = inv.out; at = (refl, priority, none_runs, refl) }

  wake-Inv : s.position ≡ parked → Inv (moved s (resume (sched_of s)) selecting)
  unfolding resume
  wake-Inv e =
      let (idle, priority, none_runs, begun) = here_At e in
      record {
        tidy = inv.tidy;
        out = inv.out;
        at = (refl, priority, λ t c r. let impossible = sym none_runs ∙ c in cc);
      }

  end_epoch-Inv :
      {u : Sched}
      → schedule_pass (sched_of s) ≡ some (ok u)
      → u.current_task ≡ none
      → Inv (moved s u before_wait)
  end_epoch-Inv {u} e c =
      let ends = schedule_pass-Ends (sched_of s) u e inv.tidy c in
      record {
        tidy = ends.tidy;
        out = λ t h. let impossible = sym c ∙ h in cc;
        at = (ap is_idle ends.state, ends.priority, c);
      }

  -- The signal mask of the pass is what prev_set holds afterwards.
  pick-Inv :
      {u : Sched} {t : ℕ}
      → s.position ≡ selecting
      → deliverable (sched_of s) ≡ false
      → schedule_pass (sched_of s) ≡ some (ok u)
      → u.current_task ≡ some t
      → Inv (System.at s (restore t (record s.thread { sched = u })) (restored t))
  unfolding restore
  pick-Inv {u} {t} e q pass c =
      let (state, priority, ticks) = here_At e in
      let picks = schedule_pass-Picks (sched_of s) u t pass inv.tidy c in
      record {
        tidy = picks.tidy;
        out = λ v h. let same : t ≡ v = cc in subst (λ k. k ∉ u.ready.queue) same picks.out;
        at = (
          picks.state ∙ state,
          picks.priority,
          c,
          λ b. picks.sent ∙ quiet (sched_of s) q (sym picks.prev ∙ b),
          picks.at_rest,
        );
      }

tick-Inv :
    (s : System) (i : ℕ) {u : Sched}
    → Inv s
    → process_tick i (sched_of s) ≡ some u
    → Inv (moved s u s.position)
tick-Inv s i {u} inv e =
    let k = process_tick-Ticks i (sched_of s) u e in
    record {
      tidy = subst Tidy (sym k.ready) inv.tidy;
      out = λ t c. subst (λ (r : Ready). t ∉ r.queue) (sym k.ready) (inv.out t (sym k.current ∙ c));
      at = At-Ticks s.position (sched_of s) u k inv.at;
    }

pub Step-Inv : {s s' : System} → Step s s' → Inv s → Inv s'
Step-Inv {s} (wait e q) inv = wait-Inv s inv e
Step-Inv {s} (wake e q m) inv = wake-Inv s inv e
Step-Inv {s} (end_epoch e q p c) inv = end_epoch-Inv s inv p c
Step-Inv {s} (pick e q p c) inv = pick-Inv s inv e q p c
Step-Inv {s} (miss e q p) inv = record { tidy = inv.tidy; out = inv.out; at = tt }
Step-Inv {s} (go e q) inv = go-Inv s inv e
Step-Inv {s} (finish e q) inv = finish-Inv s inv e
Step-Inv {s} (catch l d w c) inv = catch-Inv s inv l d w c
Step-Inv {s} (skip l d w) inv = skip-Inv s inv
Step-Inv {s} (give_way e) inv = give_way-Inv s inv e
Step-Inv {s} (start n) inv = record { tidy = inv.tidy; out = inv.out; at = inv.at }
Step-Inv {s} (tick i l b p e) inv = tick-Inv s i inv e

pub Reach-Inv : {s s' : System} → Reach s s' → Inv s → Inv s'
Reach-Inv here inv = inv
Reach-Inv (later r st) inv = Step-Inv st (Reach-Inv r inv)
