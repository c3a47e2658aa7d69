-- ===== src/ReadyQueue/Keys.antt =====
-- No operation of the ready queue changes the keys by which it is ordered.
use architecture_evolution_f.Prelude.{
  ℕ, Bool, subst, ◌≡◌, refl, ◌∙◌, sym, true, false, List, [], ◌∷◌, update-view,
}
use architecture_evolution_f.Task.{TaskStruct, TaskState}
use architecture_evolution_f.ReadyQueue
use architecture_evolution_f.ReadyQueue.{
  Ready, Outcome, ok, exit, goes_before, set_queued, set_state, task_enqueue_check, enqueue_each,
  task_dequeue, dequeue,
}
use architecture_evolution_f.ReadyQueue.Order.{NoneBefore}
use architecture_evolution_f.ReadyQueue.Invariant.{enqueue_lem}

-- The tasks have the same priorities and periods.
pub record SameKeys (tasks tasks' : ℕ → TaskStruct) : Type 0 where
  pub priority : (t : ℕ) → (tasks' t).priority ≡ (tasks t).priority
  pub period : (t : ℕ) → (tasks' t).period ≡ (tasks t).period

pub SameKeys-refl : (tasks : ℕ → TaskStruct) → SameKeys tasks tasks
SameKeys-refl tasks = record { priority = λ t. refl; period = λ t. refl }

pub SameKeys-trans : (a b c : ℕ → TaskStruct) → SameKeys a b → SameKeys b c → SameKeys a c
SameKeys-trans a b c p q = record {
  priority = λ t. q.priority t ∙ p.priority t;
  period = λ t. q.period t ∙ p.period t;
}

pub SameKeys-sym : (a b : ℕ → TaskStruct) → SameKeys a b → SameKeys b a
SameKeys-sym a b p = record { priority = λ t. sym (p.priority t); period = λ t. sym (p.period t) }

goes_before-SameKeys :
    (a b : ℕ → TaskStruct) (x y : ℕ)
    → SameKeys a b
    → goes_before (b x) (b y) ≡ goes_before (a x) (a y)
unfolding goes_before
goes_before-SameKeys a b x y k = rw (k.priority x, k.priority y, k.period x, k.period y) refl

pub NoneBefore-SameKeys :
    (a b : ℕ → TaskStruct) (x : ℕ) (queue : List ℕ)
    → SameKeys a b
    → NoneBefore a x queue
    → NoneBefore b x queue
NoneBefore-SameKeys a b x [] k n = tt
NoneBefore-SameKeys a b x (y ∷ ys) k n =
    (goes_before-SameKeys a b y x k ∙ n.0, NoneBefore-SameKeys a b x ys k n.1)

set_queued-SameKeys :
    (tasks : ℕ → TaskStruct) (t : ℕ) (b : Bool) → SameKeys tasks (set_queued tasks t b)
set_queued-SameKeys tasks t b =
    let task = record (tasks t) { in_ready_queue = b } in
    record {
      priority = update-view (λ k. k.priority) tasks t task refl;
      period = update-view (λ k. k.period) tasks t task refl;
    }

set_state-SameKeys :
    (tasks : ℕ → TaskStruct) (t : ℕ) (st : TaskState) → SameKeys tasks (set_state tasks t st)
set_state-SameKeys tasks t st =
    let task = record (tasks t) { task_state = st } in
    record {
      priority = update-view (λ k. k.priority) tasks t task refl;
      period = update-view (λ k. k.period) tasks t task refl;
    }

pub >>=-ok :
    (m : Outcome Ready) (f : Ready → Outcome Ready) {s' : Ready}
    → ReadyQueue.◌>>=◌ m f ≡ ok s'
    → (s : Ready) × (m ≡ ok s) × (f s ≡ ok s')
>>=-ok (ok s) f e = (s, refl, e)
>>=-ok exit f e = cc

pub enqueue_each-SameKeys :
    (s s' : Ready) (ts : List ℕ) → enqueue_each s ts ≡ ok s' → SameKeys s.tasks s'.tasks
unfolding enqueue_each
enqueue_each-SameKeys s s' [] e = let same : s ≡ s' = cc in rw same (SameKeys-refl s'.tasks)
enqueue_each-SameKeys s s' (t ∷ ts) e =
    let r = record s { tasks = set_state s.tasks t TaskState.ready } in
    let (s1, first, rest) = >>=-ok (task_enqueue_check r t) (λ r'. enqueue_each r' ts) e in
    let k = enqueue_each-SameKeys s1 s' ts rest in
    let q : SameKeys r.tasks s1.tasks =
      subst (λ u. SameKeys r.tasks u.tasks) (enqueue_lem r t first)
        (set_queued-SameKeys r.tasks t true) in
    SameKeys-trans s.tasks s1.tasks s'.tasks
      (SameKeys-trans s.tasks r.tasks s1.tasks (set_state-SameKeys s.tasks t TaskState.ready) q) k

dequeue-SameKeys :
    (tasks : ℕ → TaskStruct) (queue : List ℕ) → SameKeys tasks (dequeue tasks queue).1.tasks
unfolding dequeue
dequeue-SameKeys tasks [] = SameKeys-refl tasks
dequeue-SameKeys tasks (t ∷ queue) = set_queued-SameKeys tasks t false

pub task_dequeue-SameKeys : (s : Ready) → SameKeys s.tasks (task_dequeue s).1.tasks
unfolding task_dequeue
task_dequeue-SameKeys s = dequeue-SameKeys s.tasks s.queue

dequeue-states :
    (tasks : ℕ → TaskStruct) (queue : List ℕ) (v : ℕ)
    → ((dequeue tasks queue).1.tasks v).task_state ≡ (tasks v).task_state
unfolding dequeue
dequeue-states tasks [] v = refl
dequeue-states tasks (t ∷ queue) v =
    update-view (λ k. k.task_state) tasks t (record (tasks t) { in_ready_queue = false }) refl v

-- Nor does a dequeue change the states of the tasks.
pub task_dequeue-states :
    (s : Ready) (v : ℕ) → ((task_dequeue s).1.tasks v).task_state ≡ (s.tasks v).task_state
unfolding task_dequeue
task_dequeue-states s v = dequeue-states s.tasks s.queue v
