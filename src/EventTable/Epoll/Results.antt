-- ===== src/EventTable/Epoll/Results.antt =====
-- table_scheduler_create_epoll when all goes well, and the event loop on its result.
use architecture_evolution_f.Prelude.{
  ℕ, ◌+◌, ◌<◌, ◌≡◌, refl, ap, ◌∙◌, some, List, [], ◌∷◌, map, All,
}
use architecture_evolution_f.EventTable.{ProcessEventFunc, table_scheduler_schedule}
use architecture_evolution_f.EventTable.Epoll.{
  SystemCalls, Events, ret_success, open_all, native_event_num, table_scheduler_create_epoll,
  allocated, epoll_created, finish,
}
use architecture_evolution_f.EventTable.Epoll.Opening.{AreOpen, node_at}
use architecture_evolution_f.EventTable.Epoll.Loops.{Succeed, func_at, open_all-Open}

pub create_epoll-finish :
    (os : SystemCalls) (num epoll : ℕ) (s : Events)
    → os.epoll_create1 ≡ some epoll
    → table_scheduler_create_epoll os num s ≡ finish (open_all os num (allocated num epoll s))
unfolding table_scheduler_create_epoll
create_epoll-finish os num epoll s e = ap (λ answer. epoll_created os num answer s) e

-- Let all system calls succeed, with different descriptors. Then table_scheduler_create_epoll returns
-- RET_SUCCESS. Each of the num + 2 events is then stored, watched and found in the event table with
-- its index: the timer of each table with process_tick, then one event with process_task_event and
-- one with process_isr_event. Other descriptors are found as before, and nothing has been closed.
pub create_epoll-Open :
    (os : SystemCalls) (num epoll : ℕ) (fd_at : ℕ → ℕ) (s : Events)
    → os.epoll_create1 ≡ some epoll
    → Succeed os num fd_at (num + native_event_num)
    → (s' : Events) × (table_scheduler_create_epoll os num s ≡ ret_success s')
      × AreOpen fd_at (func_at num) (num + native_event_num) (allocated num epoll s) s'
unfolding finish
create_epoll-Open os num epoll fd_at s e ok =
    let (s', r, o) = open_all-Open os num fd_at (allocated num epoll s) ok in
    (s', create_epoll-finish os num epoll s e ∙ rw r refl, o)

pub schedule-AreOpen :
    (fd_at : ℕ → ℕ) (func : ℕ → ProcessEventFunc) (n : ℕ) (s s' : Events) (events : List ℕ)
    → AreOpen fd_at func n s s'
    → All (λ i. i < n) events
    → table_scheduler_schedule s'.event_hashtable (map fd_at events)
      ≡ map (node_at fd_at func) events
unfolding table_scheduler_schedule
schedule-AreOpen fd_at func n s s' [] o a = refl
schedule-AreOpen fd_at func n s s' (i ∷ is) o a =
    rw (o.found i a.0, schedule-AreOpen fd_at func n s s' is o a.1) refl
