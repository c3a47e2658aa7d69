-- ===== src/SchedulerThread/Pass.antt =====
-- One pass of the inner loop of scheduler_thread: what it enqueues and which task it picks.
use mathlib.Core.List.{Perm}
use mathlib.Core.List.Perm
use architecture_evolution_f.Prelude.{
  ℕ, ◌≡◌, refl, sym, ap, subst, ◌∙◌, inl, inr, ◌⊎◌, true, false, Option, none, some, List, [], ◌∷◌,
  ◌++◌, arith, Bool-cases, ==_self, has-perm, has-append, has, Distinct, if◌then◌else◌,
}
use architecture_evolution_f.Task.{TaskState, SchedState}
use architecture_evolution_f.ReadyQueue
use architecture_evolution_f.ReadyQueue.{
  Ready, Outcome, ok, exit, set_state, task_enqueue_check, task_dequeue, enqueue_each,
}
use architecture_evolution_f.ReadyQueue.Order.{NoneBefore}
use architecture_evolution_f.ReadyQueue.Invariant.{WellFormed}
use architecture_evolution_f.ReadyQueue.Calls.{
  Apart, Dequeued, enqueue_each-perm, task_dequeue-Dequeued,
}
use architecture_evolution_f.ReadyQueue.Keys.{
  SameKeys, SameKeys-trans, SameKeys-sym, NoneBefore-SameKeys, enqueue_each-SameKeys,
}
use architecture_evolution_f.SchedulerThread.{
  Sched, tasks_due, is_running, requeue_current, enqueue_arrived, picked, pass_after, schedule_pass,
  disable_timing_preempt, enable_timing_preempt,
}

-- The current task, if it has been interrupted while it ran.
abbrev pub interrupted : Option ℕ → Ready → List ℕ
interrupted none r = []
interrupted (some t) r = if is_running (r.tasks t).task_state then t ∷ [] else []

ok-right : (m : Outcome Ready) → ReadyQueue.◌>>=◌ m ok ≡ m
ok-right (ok r) = refl
ok-right exit = refl

requeue_current-each :
    (current : Option ℕ) (r : Ready)
    → requeue_current current r ≡ enqueue_each r (interrupted current r)
unfolding requeue_current enqueue_each
requeue_current-each none r = refl
requeue_current-each (some t) r = elim (Bool-cases (is_running (r.tasks t).task_state)) [
  | inl running ↦ rw running (sym (ok-right _))
  | inr other ↦ rw other refl
]

-- The same behind an expiry point, whose tasks are READY then.
abbrev pub returning : Option ℕ → List ℕ → Ready → List ℕ
returning none due r = []
returning (some t) due r = if has t due then [] else interrupted (some t) r

interrupted-due :
    (current : Option ℕ) (due : List ℕ) (r r' : Ready)
    → ((v : ℕ)
        → (r'.tasks v).task_state ≡ (if has v due then TaskState.ready else (r.tasks v).task_state))
    → interrupted current r' ≡ returning current due r
interrupted-due none due r r' h = refl
interrupted-due (some t) due r r' h = elim (Bool-cases (has t due)) [
  | inl again ↦ rw (h t, again) refl
  | inr other ↦ rw (h t, other) refl
]

returning-Distinct :
    (current : Option ℕ) (due : List ℕ) (r : Ready) → Distinct (returning current due r)
returning-Distinct none due r = tt
returning-Distinct (some t) due r = elim (Bool-cases (has t due)) [
  | inl again ↦ rw again tt
  | inr other ↦ rw other (elim (Bool-cases (is_running (r.tasks t).task_state)) [
    | inl running ↦ rw running (refl, tt)
    | inr still ↦ rw still tt
  ])
]

-- Who is not in the queue nor due is not in the queue behind the expiry point.
returning-Apart :
    (current : Option ℕ) (due : List ℕ) (r : Ready) (queue : List ℕ)
    → Perm queue (due ++ r.queue)
    → Apart (returning current due r) r.queue
    → Apart (returning current due r) queue
returning-Apart none due r queue p a = tt
returning-Apart (some t) due r queue p a = elim (Bool-cases (has t due)) [
  | inl again ↦ rw again tt
  | inr other ↦ rw other (elim (Bool-cases (is_running (r.tasks t).task_state)) [
    | inl running ↦
        let free : Apart (t ∷ []) r.queue = rw (other, running) at a in
        rw running (
          (has-perm t queue (due ++ r.queue) p
              ∙ (has-append t due r.queue ∙ rw (other, free.0) refl)),
          tt,
        )
    | inr still ↦ rw still tt
  ])
]

enqueue_arrived-perm :
    (s : Sched) (due : List ℕ)
    → WellFormed s.ready
    → Distinct due
    → Apart due s.ready.queue
    → Apart (returning s.current_task due s.ready) s.ready.queue
    → (r : Ready) × (enqueue_arrived s due ≡ ok r)
      × WellFormed r
      × Perm r.queue (returning s.current_task due s.ready ++ (due ++ s.ready.queue))
      × SameKeys s.ready.tasks r.tasks
unfolding enqueue_arrived
enqueue_arrived-perm s due w d a b =
    let (r, e, v, p, st) = enqueue_each-perm s.ready due w d a in
    let back = returning s.current_task due s.ready in
    let same : interrupted s.current_task r ≡ back =
      interrupted-due s.current_task due s.ready r st in
    let (r', e', v', p', st') =
      enqueue_each-perm r back v (returning-Distinct s.current_task due s.ready)
        (returning-Apart s.current_task due s.ready r.queue p b) in
    (
      r',
      rw e (requeue_current-each s.current_task r ∙ (ap (enqueue_each r) same ∙ e')),
      v',
      Perm.trans p' (Perm.append (Perm.refl back) p),
      SameKeys-trans s.ready.tasks r.tasks r'.tasks (enqueue_each-SameKeys s.ready r due e)
          (enqueue_each-SameKeys r r' back e'),
    )

-- How a pass ends, `tasks` being those that may run: with none, the scheduler is suspended; else the
-- task that it switches to goes behind no other.
abbrev pub IsPicked : List ℕ → Sched → Sched → Type 0
IsPicked tasks s s' =
    ((tasks ≡ []) × (s'.current_task ≡ none) × (s'.state ≡ SchedState.suspended))
    ⊎ ((t : ℕ) × (s'.current_task ≡ some t)
        × (s'.state ≡ s.state)
        × Perm (t ∷ s'.ready.queue) tasks
        × NoneBefore s.ready.tasks t s'.ready.queue
        × WellFormed s'.ready)

perm-empty : (xs : List ℕ) → Perm [] xs → xs ≡ []
perm-empty [] p = refl
perm-empty (x ∷ xs) p =
    let missing : has x (x ∷ xs) ≡ false = sym (has-perm x [] (x ∷ xs) p) in
    let self = ==_self x in absurd (ground arith)

picked-IsPicked :
    (s s' : Sched) (r : Ready) (tasks : List ℕ) (d : Option ℕ × Ready)
    → s'.state ≡ s.state
    → SameKeys s.ready.tasks r.tasks
    → Perm r.queue tasks
    → Dequeued r d
    → IsPicked tasks s (picked d s')
unfolding enable_timing_preempt
picked-IsPicked s s' r tasks (none, r') same k p (e, g) =
    inl (perm-empty tasks (subst (λ q. Perm q tasks) e p), refl, refl)
picked-IsPicked s s' r tasks (some t, r') same k p (e, n, w, f) = inr (
  t,
  refl,
  same,
  subst (λ q. Perm q tasks) e p,
  NoneBefore-SameKeys r.tasks s.ready.tasks t r'.queue (SameKeys-sym s.ready.tasks r.tasks k) n,
  w,
)

-- One pass of scheduler_thread after a tick. Let the queue be well formed, the tasks of the expiry
-- point distinct and not queued, and the interrupted task, if there is one, not queued. Then the
-- pass comes through without exit, over the queued tasks, those of the expiry point and the
-- interrupted one, unless that is due again. If there is none, the scheduler is suspended. If
-- there is, the scheduler switches to one of them that no other goes before by priority and
-- period, and exactly the others are in the queue, which is well formed.
pub schedule_pass-IsPicked :
    (s : Sched) (due : List ℕ)
    → s.timing_arrived ≡ true
    → tasks_due s ≡ some due
    → WellFormed s.ready
    → Distinct due
    → Apart due s.ready.queue
    → Apart (returning s.current_task due s.ready) s.ready.queue
    → (s' : Sched) × (schedule_pass s ≡ some (ok s'))
      × IsPicked (returning s.current_task due s.ready ++ (due ++ s.ready.queue)) s s'
unfolding schedule_pass disable_timing_preempt
schedule_pass-IsPicked s due tick g w d a b =
    let (r, e, v, p, k) = enqueue_arrived-perm s due w d a b in
    let s1 = record (disable_timing_preempt s) { timing_arrived = false } in
    (
      picked (task_dequeue r) s1,
      ap (λ arrived. pass_after arrived s) tick ∙ rw (g, e) refl,
      picked-IsPicked s s1 r (returning s.current_task due s.ready ++ (due ++ s.ready.queue))
          (task_dequeue r) refl k p (task_dequeue-Dequeued r v),
    )
