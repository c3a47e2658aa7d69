-- ===== src/ReadyQueue/Linked/Refinement.antt =====
-- The linked queue does what the sequence does.
use mathlib.Core.List.{append_assoc}
use architecture_evolution_f.Prelude.{
  ℕ, zero, suc, ◌<◌, ◌≡◌, ◌≢◌, refl, sym, subst, inl, inr, true, false, Option, some, List, ==_self,
  [], ◌∷◌, ◌++◌, ◌==◌, arith, Bool-cases, has, length, ◌∈◌, ◌∉◌,
}
use architecture_evolution_f.Task.{TaskStruct}
use architecture_evolution_f.ListHead.{Ptr, null, Heap, Cmd}
use architecture_evolution_f.ListHead.Ring.{
  IsRing, first_or, next-first_or, next-head, has-middle, ne_null_test, mem-ne_null,
}
use architecture_evolution_f.ListHead.Add.{list_add_tail-Relinks}
use architecture_evolution_f.ListHead.Del.{list_del-Relinks, list_empty_lem}
use architecture_evolution_f.ReadyQueue.{
  Ready, Outcome, ok, exit, goes_before, insert, set_queued, dequeue,
}
use architecture_evolution_f.ReadyQueue
use architecture_evolution_f.ReadyQueue.Linked.{Linked, walk, task_enqueue_check, task_dequeue}

-- `queue` heads the list of the tasks that stand in `s.queue`, in that order.
pub record Represents (queue : Ptr) (m : Linked) (s : Ready) : Type 0 where
  pub tasks : m.tasks ≡ s.tasks
  pub ring : IsRing m.links queue s.queue

abbrev pub RingAt : Cmd (Unit {0}) → Heap → Ptr → List Ptr → Type 0
RingAt run h head xs = (g : Heap) × (run h ≡ some (tt, g)) × IsRing g head xs

module _ (tasks : ℕ → TaskStruct) (queue new : Ptr) where
  -- The three cases of one round.
  at_head :
      (k : ℕ) (h : Heap) (xs : List Ptr)
      → IsRing h queue (xs ++ [])
      → new ∉ (queue ∷ xs ++ [])
      → new ≢ null
      → RingAt (walk (suc k) tasks queue new queue) h queue (xs ++ new ∷ [])
  unfolding walk
  at_head k h xs r o n =
      let (g, e, r', _) = list_add_tail-Relinks h queue xs [] new r o n in
      (g, rw (==_self queue) e, r')

  module _ (k : ℕ) (h : Heap) (xs : List Ptr) (y : Ptr) (ys : List Ptr)
      (r : IsRing h queue (xs ++ y ∷ ys)) where
    not_head : (y == queue) ≡ false
    not_head = ground (arith, has-middle queue xs y ys, r.distinct.0)

    in_front :
        goes_before (tasks new) (tasks y) ≡ true
        → new ∉ (queue ∷ xs ++ y ∷ ys)
        → new ≢ null
        → RingAt (walk (suc k) tasks queue new y) h queue (xs ++ insert tasks new (y ∷ ys))
    unfolding walk insert
    in_front first o n =
        let (g, e, r', _) = list_add_tail-Relinks h queue xs (y ∷ ys) new r o n in
        (g, rw (not_head, first) e, rw first r')

    further :
        goes_before (tasks new) (tasks y) ≡ false
        → RingAt
            (walk k tasks queue new (first_or ys queue))
            h
            queue
            ((xs ++ y ∷ []) ++ insert tasks new ys)
        → RingAt (walk (suc k) tasks queue new y) h queue (xs ++ insert tasks new (y ∷ ys))
    unfolding walk insert
    further later (g, e, r') = (
      g,
      rw (not_head, later, ne_null_test (mem-ne_null {a = y} r y-mem), next) e,
      rw (later, ← append_assoc xs (y ∷ []) (insert tasks new ys)) r',
    )
      where
        y-mem : y ∈ (queue ∷ xs ++ y ∷ ys)
        y-mem = ground (arith, has-middle y xs y ys)

        next : (h y).next ≡ first_or ys queue
        next = next-first_or h queue xs y ys queue r.chain

  walk-insert :
      (rounds : ℕ) (h : Heap) (xs ys : List Ptr)
      → IsRing h queue (xs ++ ys)
      → new ∉ (queue ∷ xs ++ ys)
      → new ≢ null
      → length ys < rounds
      → RingAt (walk rounds tasks queue new (first_or ys queue)) h queue (xs ++ insert tasks new ys)
  unfolding insert
  walk-insert zero h xs ys r o n f = absurd (omega arith)
  walk-insert (suc k) h xs [] r o n f = at_head k h xs r o n
  walk-insert (suc k) h xs (y ∷ ys) r o n f =
      elim (Bool-cases (goes_before (tasks new) (tasks y))) [
        | inl first ↦ in_front k h xs y ys r first o n
        | inr later ↦ further k h xs y ys r later (
            walk-insert k h (xs ++ y ∷ []) ys
              (subst (IsRing h queue) (sym (append_assoc xs (y ∷ []) ys)) r)
              (rw (append_assoc xs (y ∷ []) ys) o) n (omega arith))
      ]

-- The two outcomes agree, and a queue that is returned stands for the sequence that is returned.
abbrev pub SameOutcome : Ptr → Option (Outcome Linked) → Outcome Ready → Type 0
SameOutcome queue (some exit) exit = Unit {0}
SameOutcome queue (some (ok m)) (ok s) = Represents queue m s
SameOutcome queue _ _ = ⊥

module _ (rounds : ℕ) (queue new : Ptr) (m : Linked) (s : Ready) (rep : Represents queue m s)
    (enough : length s.queue < rounds) where
  -- The linked task_enqueue_check, given a task that is no node of the list unless its flag says
  -- so, returns within its rounds, never reads through NULL, exits exactly when the one over
  -- sequences does, and otherwise leaves the list that stands for the sequence left by that.
  pub enqueue_refines :
      new ≢ null
      → new ≢ queue
      → (s.tasks new).in_ready_queue ≡ has new s.queue
      → SameOutcome queue
          (task_enqueue_check rounds queue m new)
          (ReadyQueue.task_enqueue_check s new)
  unfolding task_enqueue_check ReadyQueue.task_enqueue_check
  enqueue_refines n q flag = elim (Bool-cases (s.tasks new).in_ready_queue) [
    | inl late ↦ rw (rep.tasks, late) tt
    | inr free ↦
        let tasks = set_queued s.tasks new true in
        let (g, e, r) =
          walk-insert tasks queue new rounds m.links [] s.queue rep.ring (ground arith) n enough in
        rw
          (
            rep.tasks,
            free,
            ne_null_test (mem-ne_null {a = queue} rep.ring (ground arith)),
            next-head m.links queue s.queue queue rep.ring.chain,
            e,
          )
          (record { tasks = refl; ring = r })
  ]

abbrev pub SameDequeue : Ptr → Linked → Option ℕ × Ready → Type 0
SameDequeue queue m (t, s') =
    (m' : Linked) × (task_dequeue queue m ≡ some (t, m')) × Represents queue m' s'

module _ (queue : Ptr) (m : Linked) (tasks : ℕ → TaskStruct) where
  dequeue_matches :
      (xs : List Ptr)
      → Represents queue m (record { tasks = tasks; queue = xs })
      → SameDequeue queue m (dequeue tasks xs)
  unfolding task_dequeue dequeue
  dequeue_matches [] rep = (
    record m { tasks = tasks },
    rw (rep.tasks, list_empty_lem m.links queue [] rep.ring),
    record { tasks = refl; ring = rep.ring },
  )
  dequeue_matches (x ∷ xs) rep =
      let (g, e, r, _) = list_del-Relinks m.links queue [] x xs rep.ring in
      (
        record { tasks = set_queued tasks x false; links = g },
        rw (
          rep.tasks,
          list_empty_lem m.links queue (x ∷ xs) rep.ring,
          ne_null_test (mem-ne_null {a = queue} rep.ring (ground arith)),
          rep.ring.chain.0,
          e,
        ),
        record { tasks = refl; ring = r },
      )

-- The linked task_dequeue returns what the one over sequences does, NULL exactly on an empty
-- queue, never reads through NULL, and leaves the list that stands for the sequence left by that.
pub dequeue_refines :
    (queue : Ptr) (m : Linked) (s : Ready)
    → Represents queue m s
    → SameDequeue queue m (ReadyQueue.task_dequeue s)
unfolding ReadyQueue.task_dequeue
dequeue_refines queue m s rep = dequeue_matches queue m s.tasks s.queue rep
