-- ===== src/EventTable/Epoll/Loops.antt =====
-- The loops of table_scheduler_create_epoll when the system calls succeed.
use architecture_evolution_f.Prelude.{
  ℕ, zero, suc, ◌+◌, ◌<◌, ◌≤◌, ◌≡◌, ◌≢◌, refl, subst, update_ne, arith, true, false, some, ◌∷◌, ltb,
  if◌then◌else◌, update, ◌==◌, ==_self, lt→ltb,
}
use architecture_evolution_f.EventTable.{
  ProcessEventFunc, process_tick, process_task_event, process_isr_event, register_event_table,
}
use architecture_evolution_f.EventTable.Epoll.{
  SystemCalls, Events, Opened, opened, fd, open_timer, open_native, open_each, open_all,
  native_event_func, native_event_num, native_event_task,
}
use architecture_evolution_f.EventTable.Epoll.Opening.{AreOpen, AreOpen-start, AreOpen-step}

-- The function that each event is meant to have.
abbrev pub func_at : ℕ → ℕ → ProcessEventFunc
func_at num_schedule_table i =
    if ltb i num_schedule_table
    then process_tick
    else if i == num_schedule_table
    then process_task_event
    else process_isr_event

-- The system calls for the first `n` events succeed, with different descriptors.
pub record Succeed (os : SystemCalls) (num_schedule_table : ℕ) (fd_at : ℕ → ℕ) (n : ℕ)
    : Type 0 where
  pub timers : (i : ℕ) → i < n → i < num_schedule_table → os.timerfd_create i ≡ some (fd_at i)
  pub natives : (i : ℕ) → i < n → num_schedule_table ≤ i → os.eventfd i ≡ some (fd_at i)
  pub watches : (i : ℕ) → i < n → os.epoll_ctl_succeeds i ≡ true
  pub apart : (i j : ℕ) → i < j → j < n → fd_at i ≢ fd_at j

module _ (os : SystemCalls) (num : ℕ) (fd_at : ℕ → ℕ) where
  abbrev pub Open : ℕ → Events → Events → Type 0
  Open n s s' = AreOpen fd_at (func_at num) n s s'

  -- What add_event leaves when epoll_ctl succeeds.
  abbrev added : ℕ → ProcessEventFunc → Events → Events
  added i pfunc s = record s {
    event_fds = update s.event_fds i (fd (fd_at i));
    event_hashtable = register_event_table (fd_at i) i pfunc s.event_hashtable;
    interest = fd_at i ∷ s.interest;
  }

  open_timer-Open :
      (bound i : ℕ) (s s' : Events)
      → Succeed os num fd_at bound
      → i < bound
      → i < num
      → Open i s s'
      → (s'' : Events) × (open_timer os i s' ≡ opened s'') × Open (i + 1) s s''
  unfolding open_timer
  open_timer-Open bound i s s' ok b l o =
      let s'' =
        added i process_tick (record s' { timerfds = update s'.timerfds i (some (fd_at i)) }) in
      (
        s'',
        rw (open_timer, ok.timers i b l, ok.watches i b) refl,
        AreOpen-step fd_at (func_at num) i s s' s'' (λ j h. ok.apart j i h b) o
            (record {
              written = rw (==_self i) refl;
              kept = λ j h. update_ne s'.event_fds i j (fd (fd_at i)) h;
              event_hashtable = rw (lt→ltb i num l) refl;
              interest = refl;
              closed = refl;
              num_events = refl;
              epoll_fd = refl;
            }),
      )

  open_native-Open :
      (bound i : ℕ) (s s' : Events)
      → Succeed os num fd_at bound
      → i < bound
      → num ≤ i
      → Open i s s'
      → (s'' : Events) × (open_native os num i s' ≡ opened s'') × Open (i + 1) s s''
  unfolding open_native
  open_native-Open bound i s s' ok b l o =
      let s'' = added i (native_event_func num i) s' in
      let behind : ltb i num ≡ false = ground arith in
      (
        s'',
        rw (open_native, ok.natives i b l, ok.watches i b) refl,
        AreOpen-step fd_at (func_at num) i s s' s'' (λ j h. ok.apart j i h b) o
            (record {
              written = rw (==_self i) refl;
              kept = λ j h. update_ne s'.event_fds i j (fd (fd_at i)) h;
              event_hashtable =
                  let start : num + native_event_task ≡ num = omega arith in
                  rw (behind, start) refl;
              interest = refl;
              closed = refl;
              num_events = refl;
              epoll_fd = refl;
            }),
      )

  open_each-Open :
      (body : ℕ → Events → Opened) (n i : ℕ) (s s' : Events)
      → ((j : ℕ) (t : Events)
          → i ≤ j
          → j < i + n
          → Open j s t
          → (t' : Events) × (body j t ≡ opened t') × Open (j + 1) s t')
      → Open i s s'
      → (s'' : Events) × (open_each body n i s' ≡ opened s'') × Open (i + n) s s''
  unfolding open_each
  open_each-Open body zero i s s' step o =
      let sum : i ≡ i + 0 = omega arith in (s', refl, subst (λ k. Open k s s') sum o)
  open_each-Open body (suc n) i s s' step o =
      let (t, e, o') = step i s' (omega arith) (omega arith) o in
      let (s'', e', o'') =
        open_each-Open body n (i + 1) s t (λ j u l h. step j u (omega arith) (omega arith)) o' in
      let sum : i + 1 + n ≡ i + suc n = omega arith in
      (s'', rw e e', subst (λ k. Open k s s'') sum o'')

  pub timers-Open :
      (k bound : ℕ) (s : Events)
      → Succeed os num fd_at bound
      → k ≤ bound
      → k ≤ num
      → (s' : Events) × (open_each (open_timer os) k 0 s ≡ opened s') × Open k s s'
  timers-Open k bound s ok b l =
      let (s', e, o) =
        open_each-Open (open_timer os) k 0 s s
          (λ j t u h. open_timer-Open bound j s t ok (omega arith) (omega arith))
          (AreOpen-start fd_at (func_at num) s) in
      let sum : 0 + k ≡ k = omega arith in (s', e, subst (λ n. Open n s s') sum o)

  pub open_all-Open :
      (s : Events)
      → Succeed os num fd_at (num + native_event_num)
      → (s' : Events) × (open_all os num s ≡ opened s') × Open (num + native_event_num) s s'
  unfolding open_all
  open_all-Open s ok =
      let (t, e, o) = timers-Open num (num + native_event_num) s ok (omega arith) (omega arith) in
      let start : num ≡ num + native_event_task = omega arith in
      let (s', e', o') =
        open_each-Open (open_native os num) native_event_num (num + native_event_task) s t
          (λ j t u h.
            open_native-Open (num + native_event_num) j s t ok (omega arith) (omega arith))
          (subst (λ n. Open n s t) start o) in
      let sum : num + native_event_task + native_event_num ≡ num + native_event_num = omega arith in
      (s', rw e e', subst (λ n. Open n s s') sum o')
