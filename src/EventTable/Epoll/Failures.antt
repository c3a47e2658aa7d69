-- ===== src/EventTable/Epoll/Failures.antt =====
-- table_scheduler_create_epoll when a system call fails for a table.
use architecture_evolution_f.Prelude.{
  ℕ, zero, suc, ◌+◌, ◌-◌, ◌<◌, ◌≤◌, ◌≡◌, ◌≢◌, refl, ap, ◌∙◌, sym, arith, false, none, some, ◌∷◌,
  ◌==◌, update, Bool-cases, inl, inr, update_ne, ◌⊎◌,
}
use architecture_evolution_f.EventTable.{process_tick, register_event_table, lookup}
use architecture_evolution_f.EventTable.Epoll.{
  SystemCalls, Events, Opened, EventFd, opened, create_timer_fail, create_eventfd_fail, ret_fail,
  reads_unwritten, unwritten, failed, fd, open_timer, open_native, open_each, open_all,
  native_event_num, native_event_task, ◌>>=◌, table_scheduler_create_epoll, allocated, finish,
  close_each, close_event, release,
}
use architecture_evolution_f.EventTable.Epoll.Opening.{node_at}
use architecture_evolution_f.EventTable.Epoll.Loops.{Succeed, func_at, timers-Open}
use architecture_evolution_f.EventTable.Epoll.Results.{create_epoll-finish}

>>=-opened :
    (m : Opened) (f : Events → Opened) {s' : Events}
    → (m >>= f) ≡ opened s'
    → (t : Events) × (m ≡ opened t) × (f t ≡ opened s')
>>=-opened (opened t) f e = (t, refl, e)
>>=-opened (create_timer_fail t) f e = cc
>>=-opened (create_eventfd_fail t) f e = cc

-- The rounds of a loop after the first `m`.
open_each-after :
    (body : ℕ → Events → Opened) (m n i : ℕ) (s s' : Events)
    → open_each body m i s ≡ opened s'
    → open_each body (m + n) i s ≡ open_each body n (i + m) s'
unfolding open_each
open_each-after body zero n i s s' e =
    let same : s ≡ s' = cc in
    let zero_add : 0 + n ≡ n = omega arith in
    let add_zero : i + 0 ≡ i = omega arith in rw (zero_add, add_zero, same) refl
open_each-after body (suc m) n i s s' e =
    let (t, first, rest) = >>=-opened (body i s) (open_each body m (i + 1)) e in
    let count : suc m + n ≡ suc (m + n) = omega arith in
    let index : i + suc m ≡ i + 1 + m = omega arith in
    rw (count, index, first) (open_each-after body m n (i + 1) t s' rest)

-- The loops when table `k` does not come through.
module _ (os : SystemCalls) (k num : ℕ) (s s' : Events) (h : k < num) where
  open_all-after :
      open_each (open_timer os) k 0 s ≡ opened s'
      → open_all os num s ≡ (
          open_timer os k s'
          >>= open_each (open_timer os) (num - k - 1) (k + 1)
          >>= open_each (open_native os num) native_event_num (num + native_event_task))
  unfolding open_all open_each
  open_all-after e =
      let count : num ≡ k + suc (num - k - 1) = omega arith in
      let index : 0 + k ≡ k = omega arith in
      let after : open_each (open_timer os) num 0 s
          ≡ (open_timer os k s' >>= open_each (open_timer os) (num - k - 1) (k + 1)) =
        ap (λ n. open_each (open_timer os) n 0 s) count
        ∙ (open_each-after (open_timer os) k (suc (num - k - 1)) 0 s s' e
            ∙ ap (λ i. open_each (open_timer os) (suc (num - k - 1)) i s') index) in
      ap (λ o. o >>= open_each (open_native os num) native_event_num (num + native_event_task))
        after

  open_all-timer_fails :
      open_each (open_timer os) k 0 s ≡ opened s'
      → os.timerfd_create k ≡ none
      → open_all os num s ≡ create_timer_fail (record s' { timerfds = update s'.timerfds k none })
  unfolding open_timer
  open_all-timer_fails e f = open_all-after e ∙ rw f refl

  -- The event is stored and registered by then.
  abbrev unwatched : ℕ → Events
  unwatched n = record s' {
    timerfds = update s'.timerfds k (some n);
    event_fds = update s'.event_fds k (fd n);
    event_hashtable = register_event_table n k process_tick s'.event_hashtable;
  }

  open_all-ctl_fails :
      (n : ℕ)
      → open_each (open_timer os) k 0 s ≡ opened s'
      → os.timerfd_create k ≡ some n
      → os.epoll_ctl_succeeds k ≡ false
      → open_all os num s ≡ create_eventfd_fail (unwatched n)
  unfolding open_timer
  open_all-ctl_fails n e f g = open_all-after e ∙ rw (f, g) refl

-- If timerfd_create fails for table k and all calls before it have succeeded, the result is RET_FAIL.
-- The events of the tables before k are then still in the event table, and only the epoll
-- descriptor has been closed: their timers stay open.
pub create_epoll-timer_fails :
    (os : SystemCalls) (num epoll k : ℕ) (fd_at : ℕ → ℕ) (s : Events)
    → os.epoll_create1 ≡ some epoll
    → k < num
    → Succeed os num fd_at k
    → os.timerfd_create k ≡ none
    → (s' : Events) × (table_scheduler_create_epoll os num s ≡ ret_fail s')
      × (s'.closed ≡ epoll ∷ s.closed)
      × ((i : ℕ)
          → i < k
          → lookup (fd_at i) s'.event_hashtable ≡ some (node_at fd_at (func_at num) i))
unfolding finish
create_epoll-timer_fails os num epoll k fd_at s e h ok f =
    let start = allocated num epoll s in
    let (s', r, o) = timers-Open os num fd_at k k start ok (omega arith) (omega arith) in
    (
      release (record s' { timerfds = update s'.timerfds k none }),
      create_epoll-finish os num epoll s e
          ∙ ap finish (open_all-timer_fails os k num start s' h r f),
      (let epoll_open : s'.epoll_fd ≡ some epoll = o.epoll_fd in rw (epoll_open, o.closed) refl),
      o.found,
    )

EventFd-cases : (e : EventFd) → (e ≡ unwritten) ⊎ (e ≡ failed) ⊎ ((k : ℕ) × (e ≡ fd k))
EventFd-cases unwritten = inl refl
EventFd-cases failed = inr (inl refl)
EventFd-cases (fd k) = inr (inr (k, refl))

-- The loop at create_eventfd_fail with an unwritten element in its range.
close_each-unwritten :
    (n i j : ℕ) (s : Events)
    → i ≤ j
    → j < i + n
    → s.event_fds j ≡ unwritten
    → close_each n i s ≡ reads_unwritten
unfolding close_each
close_each-unwritten zero i j s a b e = absurd (omega arith)
close_each-unwritten (suc n) i j s a b e = elim (EventFd-cases (s.event_fds i)) [
  | inl here ↦ rw (close_each, here) refl
  | inr (inl g) ↦
      rw (close_each, g) (close_each-unwritten n (i + 1) j s (ahead g cc) (omega arith) e)
  | inr (inr (k, g)) ↦
      rw (close_each, g)
        (close_each-unwritten n (i + 1) j (close_event k s) (ahead g cc) (omega arith) e)
]
  where
    ahead : {x : EventFd} → s.event_fds i ≡ x → x ≢ unwritten → i + 1 ≤ j
    ahead g other = elim (Bool-cases (i == j)) [
      | inl same ↦ let at : i ≡ j = ground arith in absurd (other (sym g ∙ (ap s.event_fds at ∙ e)))
      | inr apart ↦ ground arith
    ]

-- If epoll_ctl fails for table k and all calls before it have succeeded, the clean-up reads elements
-- of event_fds that were never written.
pub create_epoll-ctl_fails :
    (os : SystemCalls) (num epoll k : ℕ) (fd_at : ℕ → ℕ) (s : Events)
    → os.epoll_create1 ≡ some epoll
    → k < num
    → Succeed os num fd_at k
    → os.timerfd_create k ≡ some (fd_at k)
    → os.epoll_ctl_succeeds k ≡ false
    → table_scheduler_create_epoll os num s ≡ reads_unwritten
unfolding finish
create_epoll-ctl_fails os num epoll k fd_at s e h ok t_fd f =
    let start = allocated num epoll s in
    let (s', r, o) = timers-Open os num fd_at k k start ok (omega arith) (omega arith) in
    let full : s'.num_events ≡ num + native_event_num = o.num_events in
    let t = unwatched os k num start s' h (fd_at k) in
    let never : t.event_fds num ≡ unwritten =
      update_ne s'.event_fds k num _ (λ q. absurd (omega arith)) ∙ o.beyond num (omega arith) in
    create_epoll-finish os num epoll s e
    ∙ (ap finish (open_all-ctl_fails os k num start s' h (fd_at k) r t_fd f)
        ∙ close_each-unwritten s'.num_events 0 num t (omega arith) (omega arith) never)
