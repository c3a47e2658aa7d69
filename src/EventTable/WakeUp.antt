-- ===== src/EventTable/WakeUp.antt =====
-- table_scheduler_wake_up of src/table_scheduler.c.
use architecture_evolution_f.Prelude.{ℕ, ◌+◌, ◌≡◌, ap, ◌∙◌, arith, Option, none, some, [], ◌∷◌}
use architecture_evolution_f.EventTable.{
  ProcessEventFunc, process_task_event, table_scheduler_schedule,
}
use architecture_evolution_f.EventTable.Epoll.{
  SystemCalls, Events, EventFd, fd, ret_success, native_event_task, native_event_num,
  table_scheduler_create_epoll,
}
use architecture_evolution_f.EventTable.Epoll.Loops.{Succeed, func_at}
use architecture_evolution_f.EventTable.Epoll.Results.{create_epoll-Open, schedule-AreOpen}

-- The current task that it leaves, and the element of event_fds that it writes a 1 to.
unfoldable pub table_scheduler_wake_up :
    (num_schedule_table : ℕ) → Events → (current_task : Option ℕ) → Option ℕ × EventFd
table_scheduler_wake_up num_schedule_table s current_task =
    (none, s.event_fds (num_schedule_table + native_event_task))

func_at_native : (num : ℕ) → func_at num num ≡ process_task_event
func_at_native num = ground arith

-- On what table_scheduler_create_epoll has opened, the write makes a descriptor ready for which the timing
-- thread calls process_task_event, and nothing else.
wake_up-schedule :
    (os : SystemCalls) (num epoll : ℕ) (fd_at : ℕ → ℕ) (s : Events) (current_task : Option ℕ)
    → os.epoll_create1 ≡ some epoll
    → Succeed os num fd_at (num + native_event_num)
    → (s' : Events) × (n : ℕ) × (table_scheduler_create_epoll os num s ≡ ret_success s')
      × (table_scheduler_wake_up num s' current_task ≡ (none, fd n))
      × (table_scheduler_schedule s'.event_hashtable (n ∷ [])
          ≡ record { fd = n; p_event_func = process_task_event; event_index = num } ∷ [])
unfolding table_scheduler_wake_up
wake_up-schedule os num epoll fd_at s current_task e ok =
    let (s', run, open_events) = create_epoll-Open os num epoll fd_at s e ok in
    let same : num + native_event_task ≡ num = omega arith in
    (
      s',
      fd_at num,
      run,
      ap (λ i. (none, s'.event_fds i)) same
          ∙ ap (λ f. (none, f)) (open_events.written num (omega arith)),
      schedule-AreOpen fd_at (func_at num) (num + native_event_num) _ s' (num ∷ []) open_events
            (omega arith, tt)
          ∙ ap
              (λ (f : ProcessEventFunc).
                record { fd = fd_at num; p_event_func = f; event_index = num } ∷ [])
              (func_at_native num),
    )
