-- ===== src/EventTable/Epoll/Closing.antt =====
-- table_scheduler_destroy_epoll after table_scheduler_create_epoll.
use architecture_evolution_f.Prelude.{
  ℕ, zero, suc, ◌+◌, ◌<◌, ◌≤◌, ◌≡◌, ◌≢◌, refl, ◌∙◌, sym, subst, arith, true, some, ◌==◌, Bool-cases,
  Option-cases, inl, inr, ==_self, has,
}
use architecture_evolution_f.EventTable.{lookup, unregister_event_table}
use architecture_evolution_f.EventTable.Lookup.{
  registrations, registrations-unregister_event_table, registrations-fewer,
  lookup-unregister_event_table,
}
use architecture_evolution_f.EventTable.Epoll.{
  Events, fd, close_event, release, destroy_each, table_scheduler_destroy_epoll,
}

-- `s'` is `s` with the events from `i` on, `n` of them, closed.
pub record AreClosed (fd_at : ℕ → ℕ) (n i : ℕ) (s s' : Events) : Type 0 where
  pub closed : (j : ℕ) → i ≤ j → j < i + n → has (fd_at j) s'.closed ≡ true
  pub still_closed : (k : ℕ) → has k s.closed ≡ true → has k s'.closed ≡ true
  pub unregistered :
      (j : ℕ)
      → i ≤ j
      → j < i + n
      → registrations (fd_at j) s.event_hashtable ≤ 1
      → registrations (fd_at j) s'.event_hashtable ≡ 0
  pub fewer : (k : ℕ) → registrations k s'.event_hashtable ≤ registrations k s.event_hashtable
  pub others :
      (k : ℕ)
      → ((j : ℕ) → i ≤ j → j < i + n → k ≢ fd_at j)
      → lookup k s'.event_hashtable ≡ lookup k s.event_hashtable
  pub freed : s'.event_fds_freed ≡ true

has-release : (k : ℕ) (s : Events) → has k s.closed ≡ true → has k (release s).closed ≡ true
has-release k s h = elim (Option-cases s.epoll_fd) [
  | inl e ↦ rw e h
  | inr (n, e) ↦ rw e (ground (arith, h))
]

AreClosed-end : (fd_at : ℕ → ℕ) (i : ℕ) (s : Events) → AreClosed fd_at 0 i s (release s)
AreClosed-end fd_at i s = record {
  closed = λ j a b. absurd (omega arith);
  still_closed = λ k h. has-release k s h;
  unregistered = λ j a b. absurd (omega arith);
  fewer = λ k. omega arith;
  others = λ k h. refl;
  freed = refl;
}

AreClosed-step :
    (fd_at : ℕ → ℕ) (n i : ℕ) (s s' : Events)
    → AreClosed fd_at n (i + 1) (close_event (fd_at i) s) s'
    → AreClosed fd_at (suc n) i s s'
AreClosed-step fd_at n i s s' c =
    let table = s.event_hashtable in
    record {
      closed = λ j a b. elim (Bool-cases (j == i)) [
        | inl same ↦
            let at : i ≡ j = ground arith in
            subst (λ k. has (fd_at k) s'.closed ≡ true) at
              (c.still_closed (fd_at i) (rw (==_self (fd_at i)) refl))
        | inr other ↦ c.closed j (ground arith) (omega arith)
      ];
      still_closed = λ k h. c.still_closed k (ground (arith, h));
      unregistered = λ j a b u. elim (Bool-cases (j == i)) [
        | inl same ↦
            let at : j ≡ i = ground arith in
            let one : registrations (fd_at i) table ≤ 1 =
              subst (λ k. registrations (fd_at k) table ≤ 1) at u in
            let gone : registrations (fd_at i) (unregister_event_table (fd_at i) table) ≡ 0 =
              registrations-unregister_event_table (fd_at i) (fd_at i) table
              ∙ rw (==_self (fd_at i)) (omega arith) in
            let le = c.fewer (fd_at i) in
            subst (λ k. registrations (fd_at k) s'.event_hashtable ≡ 0) (sym at) (omega arith)
        | inr other ↦
            let le = registrations-fewer (fd_at i) (fd_at j) table in
            c.unregistered j (ground arith) (omega arith) (omega arith)
      ];
      fewer =
          λ k. let le = registrations-fewer (fd_at i) k table in let le' = c.fewer k in omega arith;
      others = λ k h.
          let (other, fewer, gone) = lookup-unregister_event_table (fd_at i) table in
          c.others k (λ j a b. h j (omega arith) (omega arith))
          ∙ other k (h i (omega arith) (omega arith));
      freed = c.freed;
    }

destroy_each-AreClosed :
    (fd_at : ℕ → ℕ) (n i : ℕ) (s : Events)
    → ((j : ℕ) → i ≤ j → j < i + n → s.event_fds j ≡ fd (fd_at j))
    → (s' : Events) × (destroy_each n i s ≡ some s') × AreClosed fd_at n i s s'
unfolding destroy_each
destroy_each-AreClosed fd_at zero i s w = (release s, refl, AreClosed-end fd_at i s)
destroy_each-AreClosed fd_at (suc n) i s w =
    let (s', e, c) =
      destroy_each-AreClosed fd_at n (i + 1) (close_event (fd_at i) s)
        (λ j a b. w j (omega arith) (omega arith)) in
    (s', rw (destroy_each, w i (omega arith) (omega arith)) e, AreClosed-step fd_at n i s s' c)

-- Let the first num_events elements of event_fds be descriptors. Then table_scheduler_destroy_epoll
-- comes through: each of them is closed, and none of them is in the event table any more that was
-- registered at most once. Other descriptors are found as before, and event_fds is freed.
pub destroy_epoll-AreClosed :
    (fd_at : ℕ → ℕ) (s : Events)
    → ((j : ℕ) → j < s.num_events → s.event_fds j ≡ fd (fd_at j))
    → (s' : Events) × (table_scheduler_destroy_epoll s ≡ some s')
      × AreClosed fd_at s.num_events 0 s s'
unfolding table_scheduler_destroy_epoll
destroy_epoll-AreClosed fd_at s w =
    destroy_each-AreClosed fd_at s.num_events 0 s (λ j a b. w j (omega arith))
