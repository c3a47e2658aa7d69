-- ===== src/EventTable/Epoll/Opening.antt =====
-- The loops of table_scheduler_create_epoll: what is registered and watched after each round.
use architecture_evolution_f.Prelude.{
  ℕ, ◌+◌, ◌<◌, ◌≤◌, ◌≡◌, ◌≢◌, refl, ap, ◌∙◌, arith, true, some, ◌∷◌, ◌==◌, ==_self, ==_ne, subst,
  if◌then◌else◌, Bool-cases, inl, inr, has,
}
use architecture_evolution_f.EventTable.{
  ProcessEventFunc, EventTableNode, register_event_table, lookup,
}
use architecture_evolution_f.EventTable.Lookup.{lookup-register_event_table}
use architecture_evolution_f.EventTable.Epoll.{Events, fd}

-- The descriptors and the functions of the events, by index.
module _ (fd_at : ℕ → ℕ) (func_at : ℕ → ProcessEventFunc) where
  abbrev pub node_at : ℕ → EventTableNode
  node_at i = record { fd = fd_at i; p_event_func = func_at i; event_index = i }

  -- The first `n` events have been opened, and the rest of the state is that of `s`.
  pub record AreOpen (n : ℕ) (s s' : Events) : Type 0 where
    pub written : (i : ℕ) → i < n → s'.event_fds i ≡ fd (fd_at i)
    pub found : (i : ℕ) → i < n → lookup (fd_at i) s'.event_hashtable ≡ some (node_at i)
    pub watched : (i : ℕ) → i < n → has (fd_at i) s'.interest ≡ true
    pub beyond : (i : ℕ) → n ≤ i → s'.event_fds i ≡ s.event_fds i
    pub others :
        (k : ℕ)
        → ((i : ℕ) → i < n → k ≢ fd_at i)
        → lookup k s'.event_hashtable ≡ lookup k s.event_hashtable
    pub closed : s'.closed ≡ s.closed
    pub num_events : s'.num_events ≡ s.num_events
    pub epoll_fd : s'.epoll_fd ≡ s.epoll_fd

  pub AreOpen-start : (s : Events) → AreOpen 0 s s
  AreOpen-start s = record {
    written = λ i h. absurd (omega arith);
    found = λ i h. absurd (omega arith);
    watched = λ i h. absurd (omega arith);
    beyond = λ i h. refl;
    others = λ k h. refl;
    closed = refl;
    num_events = refl;
    epoll_fd = refl;
  }

  -- One event more: it is written, registered and watched.
  pub record IsAdded (n : ℕ) (s s' : Events) : Type 0 where
    pub written : s'.event_fds n ≡ fd (fd_at n)
    pub kept : (i : ℕ) → i ≢ n → s'.event_fds i ≡ s.event_fds i
    pub event_hashtable :
        s'.event_hashtable ≡ register_event_table (fd_at n) n (func_at n) s.event_hashtable
    pub interest : s'.interest ≡ fd_at n ∷ s.interest
    pub closed : s'.closed ≡ s.closed
    pub num_events : s'.num_events ≡ s.num_events
    pub epoll_fd : s'.epoll_fd ≡ s.epoll_fd

  lookup-IsAdded :
      (n : ℕ) (s s' : Events) (k : ℕ)
      → IsAdded n s s'
      → lookup k s'.event_hashtable
        ≡ (if k == fd_at n then some (node_at n) else lookup k s.event_hashtable)
  lookup-IsAdded n s s' k a =
      ap (lookup k) a.event_hashtable
      ∙ lookup-register_event_table (fd_at n) k n (func_at n) s.event_hashtable

  pub AreOpen-step :
      (n : ℕ) (s s1 s2 : Events)
      → ((i : ℕ) → i < n → fd_at i ≢ fd_at n)
      → AreOpen n s s1
      → IsAdded n s1 s2
      → AreOpen (n + 1) s s2
  AreOpen-step n s s1 s2 apart o a = record {
    written = λ i h. elim (Bool-cases (i == n)) [
      | inl same ↦
          let at : n ≡ i = ground arith in subst (λ j. s2.event_fds j ≡ fd (fd_at j)) at a.written
      | inr other ↦ a.kept i (λ e. absurd (ground arith)) ∙ o.written i (ground arith)
    ];
    found = λ i h. elim (Bool-cases (i == n)) [
      | inl same ↦
          let at : n ≡ i = ground arith in
          subst (λ j. lookup (fd_at j) s2.event_hashtable ≡ some (node_at j)) at
            (lookup-IsAdded n s1 s2 (fd_at n) a ∙ rw (==_self (fd_at n)) refl)
      | inr other ↦
          let below : i < n = ground arith in
          lookup-IsAdded n s1 s2 (fd_at i) a
          ∙ (rw (==_ne (fd_at i) (fd_at n) (apart i below)) (o.found i below))
    ];
    watched = λ i h. rw a.interest (elim (Bool-cases (i == n)) [
      | inl same ↦
          let at : n ≡ i = ground arith in
          subst (λ j. has (fd_at j) (fd_at n ∷ s1.interest) ≡ true) at (rw (==_self (fd_at n)) refl)
      | inr other ↦ let w = o.watched i (ground arith) in ground arith
    ]);
    beyond = λ i h. a.kept i (λ e. absurd (omega arith)) ∙ o.beyond i (omega arith);
    others = λ k h.
        lookup-IsAdded n s1 s2 k a
        ∙ (rw (==_ne k (fd_at n) (h n (omega arith))) (o.others k (λ i l. h i (omega arith))));
    closed = a.closed ∙ o.closed;
    num_events = a.num_events ∙ o.num_events;
    epoll_fd = a.epoll_fd ∙ o.epoll_fd;
  }
