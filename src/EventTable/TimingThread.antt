-- ===== src/EventTable/TimingThread.antt =====
-- schedule_timing_thread of src/scheduler.c: the loop over table_scheduler_schedule.
use architecture_evolution_f.Prelude.{
  ℕ, ◌≡◌, refl, ap, Bool, true, false, List, [], ◌∷◌, ◌++◌, Option-cases, inl, inr,
}
use architecture_evolution_f.EventTable.{
  EventTableNode, EventHashtable, lookup, table_scheduler_schedule,
}

-- bind_cpu for the calling thread: whether pthread_setaffinity_np takes the CPU.
unfoldable pub bind_cpu : (pthread_setaffinity_np : ℕ → Bool) → (cpu : ℕ) → Bool
bind_cpu pthread_setaffinity_np cpu = pthread_setaffinity_np cpu

-- The calls that the thread has made, or that it has killed the scheduler thread by SIGINT, which
-- ends the process.
pub data TimingThread : Type 0 where
  has_called : List EventTableNode → TimingThread
  kills_scheduler : TimingThread

-- The rounds of the loop, for what epoll_wait answers in each. scheduler_stop is never set.
unfoldable pub timing_rounds : EventHashtable → List (List ℕ) → List EventTableNode
timing_rounds table [] = []
timing_rounds table (ready ∷ rest) =
    table_scheduler_schedule table ready ++ timing_rounds table rest

abbrev pub bound_to : Bool → EventHashtable → List (List ℕ) → TimingThread
bound_to false table answers = kills_scheduler
bound_to true table answers = has_called (timing_rounds table answers)

unfoldable pub schedule_timing_thread :
    (ℕ → Bool) → (cpu : ℕ) → EventHashtable → List (List ℕ) → TimingThread
schedule_timing_thread pthread_setaffinity_np cpu table answers =
    bound_to (bind_cpu pthread_setaffinity_np cpu) table answers

-- The answers of all rounds in one.
unfoldable all_ready : List (List ℕ) → List ℕ
all_ready [] = []
all_ready (ready ∷ rest) = ready ++ all_ready rest

-- What epoll_wait answers at once or in two rounds comes to the same calls.
schedule-append :
    (table : EventHashtable) (fds fds' : List ℕ)
    → table_scheduler_schedule table (fds ++ fds')
      ≡ table_scheduler_schedule table fds ++ table_scheduler_schedule table fds'
unfolding table_scheduler_schedule
schedule-append table [] fds' = refl
schedule-append table (fd ∷ fds) fds' = elim (Option-cases (lookup fd table)) [
  | inl missing ↦ rw (missing, schedule-append table fds fds') refl
  | inr (node, found) ↦ rw (found, schedule-append table fds fds') refl
]

timing_rounds-all_ready :
    (table : EventHashtable) (answers : List (List ℕ))
    → timing_rounds table answers ≡ table_scheduler_schedule table (all_ready answers)
unfolding timing_rounds all_ready table_scheduler_schedule
timing_rounds-all_ready table [] = refl
timing_rounds-all_ready table (ready ∷ rest) =
    rw (schedule-append table ready (all_ready rest), timing_rounds-all_ready table rest) refl

-- Once bound to its CPU the thread handles the events of all rounds in the order of their arrival, however
-- they are divided into rounds.
thread-arrivals :
    (pthread_setaffinity_np : ℕ → Bool) (cpu : ℕ) (table : EventHashtable) (answers : List (List ℕ))
    → pthread_setaffinity_np cpu ≡ true
    → schedule_timing_thread pthread_setaffinity_np cpu table answers
      ≡ has_called (table_scheduler_schedule table (all_ready answers))
unfolding schedule_timing_thread bind_cpu
thread-arrivals pthread_setaffinity_np cpu table answers e =
    rw e (ap has_called (timing_rounds-all_ready table answers))
