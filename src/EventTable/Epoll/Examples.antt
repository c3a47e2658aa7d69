-- ===== src/EventTable/Epoll/Examples.antt =====
-- One table with a timer of descriptor 5, and the two native events with 6 and 7.
use architecture_evolution_f.Prelude.{
  ℕ, ◌≡◌, ◌+◌, ◌<◌, refl, arith, false, some, none, [], ◌∷◌, if◌then◌else◌, ◌==◌, ltb, lt→ltb,
}
use architecture_evolution_f.EventTable.{lookup}
use architecture_evolution_f.EventTable.Epoll.{
  SystemCalls, Events, unwritten, fd, ret_success, ret_fail, reads_unwritten, allocated,
  table_scheduler_create_epoll, table_scheduler_destroy_epoll,
}
use architecture_evolution_f.EventTable.Epoll.Opening.{AreOpen, node_at}
use architecture_evolution_f.EventTable.Epoll.Loops.{Succeed, func_at}
use architecture_evolution_f.EventTable.Epoll.Results.{create_epoll-Open}
use architecture_evolution_f.EventTable.Epoll.Closing.{AreClosed, destroy_epoll-AreClosed}
use architecture_evolution_f.EventTable.Epoll.Failures.{
  create_epoll-timer_fails, create_epoll-ctl_fails,
}

-- The descriptor of event `i`.
abbrev fd_at : ℕ → ℕ
fd_at i = 5 + i

-- `timers` timers can be created and `watches` descriptors watched.
abbrev calls : ℕ → ℕ → SystemCalls
calls timers watches = record {
  epoll_create1 = some 4;
  timerfd_create = λ i. if ltb i timers then some (fd_at i) else none;
  eventfd = λ i. some (fd_at i);
  epoll_ctl_succeeds = λ i. ltb i watches;
}

abbrev start : Events
start = record {
  epoll_fd = none;
  num_events = 0;
  event_fds = λ i. unwritten;
  event_hashtable = λ index. [];
  timerfds = λ i. none;
  interest = [];
  closed = [];
  event_fds_freed = false;
}

all-Succeed : Succeed (calls 1 3) 1 fd_at 3
all-Succeed = record {
  timers = λ i h l. rw (lt→ltb i 1 l) refl;
  natives = λ i h l. refl;
  watches = λ i h. lt→ltb i 3 h;
  apart = λ i j h l. λ e. absurd (omega arith);
}

one-Succeed : Succeed (calls 1 3) 2 fd_at 1
one-Succeed = record {
  timers = λ i h l. rw (lt→ltb i 1 h) refl;
  natives = λ i h l. refl;
  watches = λ i h. lt→ltb i 3 (omega arith);
  apart = λ i j h l. λ e. absurd (omega arith);
}

first-Succeed : (timers watches : ℕ) → Succeed (calls timers watches) 2 fd_at 0
first-Succeed timers watches = record {
  timers = λ i h l. absurd (omega arith);
  natives = λ i h l. absurd (omega arith);
  watches = λ i h. absurd (omega arith);
  apart = λ i j h l. absurd (omega arith);
}

create_epoll-Open_example :
    (s' : Events) × (table_scheduler_create_epoll (calls 1 3) 1 start ≡ ret_success s')
    × AreOpen fd_at (func_at 1) 3 (allocated 1 4 start) s'
create_epoll-Open_example = create_epoll-Open (calls 1 3) 1 4 fd_at start refl all-Succeed

create_epoll-timer_fails_example :
    (s' : Events) × (table_scheduler_create_epoll (calls 1 3) 2 start ≡ ret_fail s')
    × (s'.closed ≡ 4 ∷ [])
    × ((i : ℕ) → i < 1 → lookup (fd_at i) s'.event_hashtable ≡ some (node_at fd_at (func_at 2) i))
create_epoll-timer_fails_example =
    create_epoll-timer_fails (calls 1 3) 2 4 1 fd_at start refl (omega arith) one-Succeed refl

create_epoll-ctl_fails_example : table_scheduler_create_epoll (calls 2 0) 2 start ≡ reads_unwritten
create_epoll-ctl_fails_example =
    create_epoll-ctl_fails (calls 2 0) 2 4 0 fd_at start refl (omega arith) (first-Succeed 2 0) refl
      refl

-- A state with the timer open.
abbrev one_open : Events
one_open = record start {
  event_fds = λ i. if i == 0 then fd 5 else unwritten;
  event_hashtable = λ index. if index == 5 then node_at fd_at (func_at 1) 0 ∷ [] else [];
  interest = 5 ∷ [];
}

abbrev ready : Events
ready = record one_open { num_events = 1 }

destroy_epoll-AreClosed_example :
    (s' : Events) × (table_scheduler_destroy_epoll ready ≡ some s') × AreClosed fd_at 1 0 ready s'
destroy_epoll-AreClosed_example =
    destroy_epoll-AreClosed fd_at ready (λ j h. let at : j ≡ 0 = omega arith in rw at refl)
