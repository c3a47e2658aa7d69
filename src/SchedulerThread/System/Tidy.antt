-- ===== src/SchedulerThread/System/Tidy.antt =====
-- The ready queue between two steps of the scheduler thread: well formed, and without a task that is
-- marked as running.
use architecture_evolution_f.Prelude.{
  ℕ, ◌≡◌, refl, subst, sym, ◌∙◌, false, Option, none, some, List, [], ◌∷◌, arith, Bool-cases, inl,
  inr, ◌∈◌, ◌∉◌, ==_self,
}
use architecture_evolution_f.Task.{TaskState}
use architecture_evolution_f.ReadyQueue.{
  Ready, ok, set_state, task_enqueue_check, task_dequeue, enqueue_each,
}
use architecture_evolution_f.ReadyQueue.Order.{has-insert, IsSorted-set_state}
use architecture_evolution_f.ReadyQueue.Invariant.{WellFormed, enqueue_lem, enqueued}
use architecture_evolution_f.ReadyQueue.Calls.{
  readied, readied-WellFormed, task_enqueue_check-WellFormed, Dequeued, task_dequeue-Dequeued,
}
use architecture_evolution_f.ReadyQueue.Keys.{>>=-ok, task_dequeue-states}
use architecture_evolution_f.SchedulerThread.{Sched, is_running, requeue_current, enqueue_arrived}

pub record Tidy (r : Ready) : Type 0 where
  pub well_formed : WellFormed r
  pub at_rest : (t : ℕ) → t ∈ r.queue → is_running (r.tasks t).task_state ≡ false

enqueue_readied-Tidy :
    (r r' : Ready) (t : ℕ) → Tidy r → task_enqueue_check (readied r t) t ≡ ok r' → Tidy r'
enqueue_readied-Tidy r r' t d e = record {
  well_formed =
      task_enqueue_check-WellFormed (readied r t) r' t (readied-WellFormed r t d.well_formed) e;
  at_rest =
      subst (λ u. (v : ℕ) → v ∈ u.queue → is_running (u.tasks v).task_state ≡ false)
        (enqueue_lem (readied r t) t e)
        (λ v i.
          ground (arith, d.at_rest v, has-insert (enqueued (readied r t) t).tasks v t r.queue));
}

enqueue_each-Tidy : (r r' : Ready) (ts : List ℕ) → Tidy r → enqueue_each r ts ≡ ok r' → Tidy r'
unfolding enqueue_each
enqueue_each-Tidy r r' [] d e = let same : r ≡ r' = cc in subst Tidy same d
enqueue_each-Tidy r r' (t ∷ ts) d e =
    let (r1, first, rest) =
      >>=-ok (task_enqueue_check (readied r t) t) (λ u. enqueue_each u ts) e in
    enqueue_each-Tidy r1 r' ts (enqueue_readied-Tidy r r1 t d first) rest

requeue_current-Tidy :
    (current : Option ℕ) (r r' : Ready) → Tidy r → requeue_current current r ≡ ok r' → Tidy r'
unfolding requeue_current
requeue_current-Tidy none r r' d e = let same : r ≡ r' = cc in subst Tidy same d
requeue_current-Tidy (some t) r r' d e = elim (Bool-cases (is_running (r.tasks t).task_state)) [
  | inl running ↦ enqueue_readied-Tidy r r' t d (rw running at e)
  | inr other ↦ let same : r ≡ r' = cc in subst Tidy same d
]

pub enqueue_arrived-Tidy :
    (s : Sched) (due : List ℕ) (r' : Ready) → Tidy s.ready → enqueue_arrived s due ≡ ok r' → Tidy r'
unfolding enqueue_arrived
enqueue_arrived-Tidy s due r' d e =
    let (r, first, rest) = >>=-ok (enqueue_each s.ready due) (requeue_current s.current_task) e in
    requeue_current-Tidy s.current_task r r' (enqueue_each-Tidy s.ready r due d first) rest

-- A task that is not queued may change its state.
pub set_state-Tidy :
    (r : Ready) (t : ℕ) (state : TaskState)
    → t ∉ r.queue
    → Tidy r
    → Tidy (record r { tasks = set_state r.tasks t state })
set_state-Tidy r t state out d = record {
  well_formed = record {
    distinct = d.well_formed.distinct;
    flags = λ u. ground (arith, d.well_formed.flags u);
    sorted = IsSorted-set_state r.tasks t state r.queue d.well_formed.sorted;
  };
  at_rest = λ v i. ground (arith, d.at_rest v);
}

-- What leaves a tidy queue is at rest, and the rest is tidy.
abbrev pub LeavesTidy : Option ℕ × Ready → Type 0
LeavesTidy (none, r) = Tidy r
LeavesTidy (some t, r) = Tidy r × (t ∉ r.queue) × (is_running (r.tasks t).task_state ≡ false)

LeavesTidy-Dequeued :
    (r : Ready) (d : Option ℕ × Ready)
    → Tidy r
    → Dequeued r d
    → ((v : ℕ) → (d.1.tasks v).task_state ≡ (r.tasks v).task_state)
    → LeavesTidy d
LeavesTidy-Dequeued r (none, r') t q k = subst Tidy (sym q.1) t
LeavesTidy-Dequeued r (some u, r') t (e, n, w, f) k =
    let first : u ∈ r.queue = rw (e, ==_self u) refl in
    (
      record {
        well_formed = w;
        at_rest = λ v i. rw (k v) (t.at_rest v (rw e (ground (arith, i))));
      },
      sym (w.flags u) ∙ f,
      rw (k u) (t.at_rest u first),
    )

pub task_dequeue-LeavesTidy : (r : Ready) → Tidy r → LeavesTidy (task_dequeue r)
task_dequeue-LeavesTidy r t =
    LeavesTidy-Dequeued r (task_dequeue r) t (task_dequeue-Dequeued r t.well_formed)
      (task_dequeue-states r)
