-- ===== src/EventTable/Epoll.antt =====
-- table_scheduler_create_epoll and table_scheduler_destroy_epoll of table_scheduler.c, with the
-- answers of the kernel as parameters.
pub mod Opening
pub mod Loops
pub mod Results
mod Failures
pub mod Closing
mod Examples
use architecture_evolution_f.Prelude.{
  ℕ, zero, suc, ◌+◌, Bool, true, false, Option, none, some, List, [], ◌∷◌, ◌==◌, if◌then◌else◌,
  update,
}
use architecture_evolution_f.EventTable.{
  ProcessEventFunc, process_tick, process_task_event, process_isr_event, EventHashtable,
  register_event_table, unregister_event_table,
}

-- enum event_src
abbrev pub native_event_task : ℕ
native_event_task = 0

abbrev pub native_event_num : ℕ
native_event_num = 2

-- What the system calls answer: `none` is -1, and the calls in the loops are told apart by the index
-- of the event.
pub record SystemCalls : Type 0 where
  pub epoll_create1 : Option ℕ
  pub timerfd_create : ℕ → Option ℕ
  pub eventfd : ℕ → Option ℕ
  pub epoll_ctl_succeeds : ℕ → Bool

-- An element of `event_fds`, which malloc does not initialise. `failed` is -1.
pub data EventFd : Type 0 where
  unwritten : EventFd
  failed : EventFd
  fd : ℕ → EventFd

-- The part of `struct table_scheduler` that deals with events. `timerfds` are the fields of the tables,
-- `interest` and `closed` what the kernel has been asked to watch and to close.
pub record Events : Type 0 where
  pub epoll_fd : Option ℕ
  pub num_events : ℕ
  pub event_fds : ℕ → EventFd
  pub event_hashtable : EventHashtable
  pub timerfds : ℕ → Option ℕ
  pub interest : List ℕ
  pub closed : List ℕ
  pub event_fds_freed : Bool

-- How the loops end: at their bound or by one of the two `goto`.
pub data Opened : Type 0 where
  opened : Events → Opened
  create_timer_fail : Events → Opened
  create_eventfd_fail : Events → Opened

-- What the function comes to: it returns RET_SUCCESS, RET_FAIL, or it has read an unwritten element.
pub data CreateResult : Type 0 where
  ret_success : Events → CreateResult
  ret_fail : Events → CreateResult
  reads_unwritten : CreateResult

-- The end of both loop bodies: the descriptor is stored, registered and handed to epoll_ctl.
abbrev pub add_event : SystemCalls → ℕ → ℕ → ProcessEventFunc → Events → Opened
add_event os i n pfunc s =
    let registered = record s {
      event_fds = update s.event_fds i (fd n);
      event_hashtable = register_event_table n i pfunc s.event_hashtable;
    } in
    if os.epoll_ctl_succeeds i
    then opened (record registered { interest = n ∷ s.interest })
    else create_eventfd_fail registered

-- With the answer of timerfd_create.
abbrev pub timer_created : SystemCalls → ℕ → Option ℕ → Events → Opened
timer_created os i none s = create_timer_fail (record s { timerfds = update s.timerfds i none })
timer_created os i (some n) s =
    add_event os i n process_tick (record s { timerfds = update s.timerfds i (some n) })

unfoldable pub open_timer : SystemCalls → ℕ → Events → Opened
open_timer os i = timer_created os i (os.timerfd_create i)

abbrev pub native_event_func : ℕ → ℕ → ProcessEventFunc
native_event_func num_schedule_table i =
    if i == num_schedule_table + native_event_task then process_task_event else process_isr_event

-- With the answer of eventfd.
abbrev pub native_created : SystemCalls → ℕ → ℕ → Option ℕ → Events → Opened
native_created os num_schedule_table i none s =
    create_eventfd_fail (record s { event_fds = update s.event_fds i failed })
native_created os num_schedule_table i (some n) s =
    add_event os i n (native_event_func num_schedule_table i) s

unfoldable pub open_native : SystemCalls → ℕ → ℕ → Events → Opened
open_native os num_schedule_table i = native_created os num_schedule_table i (os.eventfd i)

infixl 5 ◌>>=◌
abbrev pub ◌>>=◌ : Opened → (Events → Opened) → Opened
opened s >>= f = f s
create_timer_fail s >>= f = create_timer_fail s
create_eventfd_fail s >>= f = create_eventfd_fail s

-- `n` rounds of a loop over events, from index `i` on.
unfoldable pub open_each : (ℕ → Events → Opened) → ℕ → ℕ → Events → Opened
open_each body zero i s = opened s
open_each body (suc n) i s = body i s >>= open_each body n (i + 1)

unfoldable pub open_all : SystemCalls → ℕ → Events → Opened
open_all os num_schedule_table s =
    open_each (open_timer os) num_schedule_table 0 s
    >>= open_each (open_native os num_schedule_table) native_event_num
        (num_schedule_table + native_event_task)

-- The code at the label create_timer_fail.
abbrev pub release : Events → Events
release s = record s {
  event_fds_freed = true;
  closed = elim s.epoll_fd [ none ↦ s.closed | some n ↦ n ∷ s.closed ];
}

abbrev pub close_event : ℕ → Events → Events
close_event n s = record s {
  event_hashtable = unregister_event_table n s.event_hashtable;
  closed = n ∷ s.closed;
}

-- The loop at the label create_eventfd_fail, `n` rounds from index `i` on, and what follows it.
unfoldable pub close_each : ℕ → ℕ → Events → CreateResult
close_each zero i s = ret_fail (release s)
close_each (suc n) i s = elim (s.event_fds i) [
  | unwritten ↦ reads_unwritten
  | failed ↦ close_each n (i + 1) s
  | fd k ↦ close_each n (i + 1) (close_event k s)
]

unfoldable pub finish : Opened → CreateResult
finish (opened s) = ret_success s
finish (create_timer_fail s) = ret_fail (release s)
finish (create_eventfd_fail s) = close_each s.num_events 0 s

-- The state in which the loops start: event_fds has been allocated.
abbrev pub allocated : ℕ → ℕ → Events → Events
allocated num_schedule_table epoll s = record s {
  epoll_fd = some epoll;
  num_events = num_schedule_table + native_event_num;
  event_fds = λ i. unwritten;
  event_fds_freed = false;
}

-- With the answer of epoll_create1.
abbrev pub epoll_created : SystemCalls → ℕ → Option ℕ → Events → CreateResult
epoll_created os num_schedule_table none s = ret_fail (record s { epoll_fd = none })
epoll_created os num_schedule_table (some epoll) s =
    finish (open_all os num_schedule_table (allocated num_schedule_table epoll s))

unfoldable pub table_scheduler_create_epoll : SystemCalls → ℕ → Events → CreateResult
table_scheduler_create_epoll os num_schedule_table =
    epoll_created os num_schedule_table os.epoll_create1

-- The loop of table_scheduler_destroy_epoll, `n` rounds from index `i` on, and what follows it. An
-- element that is no descriptor would be used as an index of the table: that has no result.
unfoldable pub destroy_each : ℕ → ℕ → Events → Option Events
destroy_each zero i s = some (release s)
destroy_each (suc n) i s = elim (s.event_fds i) [
  | unwritten ↦ none
  | failed ↦ none
  | fd k ↦ destroy_each n (i + 1) (close_event k s)
]

unfoldable pub table_scheduler_destroy_epoll : Events → Option Events
table_scheduler_destroy_epoll s = destroy_each s.num_events 0 s
