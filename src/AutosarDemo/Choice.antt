-- ===== src/AutosarDemo/Choice.antt =====
-- The task that schedule of AUTOSARdemo.c chooses.
use architecture_evolution_f.Prelude.{
  ℕ, zero, suc, ◌+◌, ◌<◌, ◌≤◌, ◌≡◌, ◌≢◌, refl, subst, sym, ap, arith, ◌==◌, Bool-cases, update-view,
  inl, inr, true, ◌⊎◌,
}
use architecture_evolution_f.AutosarDemo.{
  Kernel, Task, Best, is_ready, better, search_from, switch_to, schedule,
}

-- Ready, and of a priority that can be chosen.
abbrev pub CanRun : Kernel → ℕ → Type 0
CanRun s t =
    (t < s.task_count) × (is_ready (s.task_pool t).state ≡ true) × ((s.task_pool t).priority < 255)

-- What the rounds from index `i` on make of `best`.
record IsFound (pool : ℕ → Task) (n i : ℕ) (best found : Best) : Type 0 where
  least :
      (j : ℕ)
      → i ≤ j
      → j < i + n
      → is_ready (pool j).state ≡ true
      → found.highest_pri ≤ (pool j).priority
  lower : found.highest_pri ≤ best.highest_pri
  origin :
      (found ≡ best)
      ⊎ ((i ≤ found.candidate)
          × (found.candidate < i + n)
          × (is_ready (pool found.candidate).state ≡ true)
          × ((pool found.candidate).priority ≡ found.highest_pri)
          × (found.highest_pri < best.highest_pri)
          × ((j : ℕ)
              → i ≤ j
              → j < found.candidate
              → is_ready (pool j).state ≡ true
              → found.highest_pri < (pool j).priority))

better_lem :
    (pool : ℕ → Task) (i : ℕ) (best : Best)
    → ((better pool i best ≡ best)
        × (is_ready (pool i).state ≡ true → best.highest_pri ≤ (pool i).priority))
      ⊎ ((better pool i best ≡ record { highest_pri = (pool i).priority; candidate = i })
          × (is_ready (pool i).state ≡ true)
          × ((pool i).priority < best.highest_pri))
unfolding better
better_lem pool i best = ground arith

module _ (pool : ℕ → Task) (n i : ℕ) (best found : Best) where
  -- A lower bound of the later tasks and of this one.
  least_here :
      ((j : ℕ)
        → i + 1 ≤ j
        → j < i + 1 + n
        → is_ready (pool j).state ≡ true
        → found.highest_pri ≤ (pool j).priority)
      → (is_ready (pool i).state ≡ true → found.highest_pri ≤ (pool i).priority)
      → (j : ℕ) → i ≤ j
      → j < i + suc n
      → is_ready (pool j).state ≡ true
      → found.highest_pri ≤ (pool j).priority
  least_here later here j a b r = elim (Bool-cases (j == i)) [
    | inl same ↦
        let at : i ≡ j = ground arith in
        subst (λ k. found.highest_pri ≤ (pool k).priority) at
          (here (subst (λ k. is_ready (pool k).state ≡ true) (sym at) r))
    | inr other ↦ later j (ground arith) (omega arith) r
  ]

  IsFound-keep :
      (is_ready (pool i).state ≡ true → best.highest_pri ≤ (pool i).priority)
      → IsFound pool n (i + 1) best found
      → IsFound pool (suc n) i best found
  IsFound-keep h f = record {
    least = least_here f.least (λ r. let up = h r in let low = f.lower in omega arith);
    lower = f.lower;
    origin = elim f.origin [
      | inl e ↦ inl e
      | inr (a, b, c, d, e, first) ↦ inr (
        omega arith,
        omega arith,
        c,
        d,
        e,
        λ j l u r. elim (Bool-cases (j == i)) [
          | inl same ↦
              let at : i ≡ j = ground arith in
              let ready : is_ready (pool i).state ≡ true =
                subst (λ k. is_ready (pool k).state ≡ true) (sym at) r in
              subst (λ k. found.highest_pri < (pool k).priority) at
                (let up = h ready in omega arith)
          | inr other ↦ first j (ground arith) u r
        ],
      )
    ];
  }

  IsFound-take :
      is_ready (pool i).state ≡ true
      → (pool i).priority < best.highest_pri
      → IsFound pool n (i + 1) (record { highest_pri = (pool i).priority; candidate = i }) found
      → IsFound pool (suc n) i best found
  IsFound-take ready h f = record {
    least = least_here f.least (λ r. f.lower);
    lower = let up = f.lower in omega arith;
    origin = elim f.origin [
      | inl e ↦ inr (rw e (omega arith, omega arith, ready, refl, h, λ j l u. absurd (omega arith)))
      | inr (a, b, c, d, e, first) ↦ inr (
        omega arith,
        omega arith,
        c,
        d,
        omega arith,
        λ j l u r. elim (Bool-cases (j == i)) [
          | inl same ↦
              let at : i ≡ j = ground arith in
              subst (λ k. found.highest_pri < (pool k).priority) at e
          | inr other ↦ first j (ground arith) u r
        ],
      )
    ];
  }

search_from-IsFound :
    (pool : ℕ → Task) (n i : ℕ) (best : Best) → IsFound pool n i best (search_from pool n i best)
unfolding search_from
search_from-IsFound pool zero i best = record {
  least = λ j a b. absurd (omega arith);
  lower = omega arith;
  origin = inl refl;
}
search_from-IsFound pool (suc n) i best =
    let later = search_from-IsFound pool n (i + 1) (better pool i best) in
    elim (better_lem pool i best) [
      | inl (e, h) ↦
          let kept = subst (λ b. IsFound pool n (i + 1) b (search_from pool n (i + 1) b)) e later in
          rw e (IsFound-keep pool n i best (search_from pool n (i + 1) best) h kept)
      | inr (e, r, h) ↦
          let here : Best = record { highest_pri = (pool i).priority; candidate = i } in
          let taken =
            subst (λ b. IsFound pool n (i + 1) b (search_from pool n (i + 1) b)) e later in
          rw e (IsFound-take pool n i best (search_from pool n (i + 1) here) r h taken)
    ]

-- The task of index `c` has the highest priority of those that can run, and is the first that does.
pub record IsFirstChoice (s : Kernel) (c : ℕ) : Type 0 where
  pub can_run : CanRun s c
  pub highest : (t : ℕ) → CanRun s t → (s.task_pool c).priority ≤ (s.task_pool t).priority
  pub first : (t : ℕ) → CanRun s t → t < c → (s.task_pool c).priority < (s.task_pool t).priority

-- `s'` is `s` after a switch to the task of index `c`.
pub record IsSwitched (c : ℕ) (s s' : Kernel) : Type 0 where
  pub current : s'.current_task ≡ c
  pub stays : c ≡ s.current_task → s' ≡ s
  pub slice : c ≢ s.current_task → (s'.task_pool c).time_slice ≡ 10
  pub state : (t : ℕ) → (s'.task_pool t).state ≡ (s.task_pool t).state
  pub priority : (t : ℕ) → (s'.task_pool t).priority ≡ (s.task_pool t).priority
  pub others : (t : ℕ) → t ≢ c → s'.task_pool t ≡ s.task_pool t
  pub count : s'.task_count ≡ s.task_count

switch_to-IsSwitched : (c : ℕ) (s : Kernel) → IsSwitched c s (switch_to c s)
unfolding switch_to
switch_to-IsSwitched c s = elim (Bool-cases (c == s.current_task)) [
  | inl same ↦ rw same (record {
    current = ground arith;
    stays = λ e. refl;
    slice = λ h. absurd (ground arith);
    state = λ t. refl;
    priority = λ t. refl;
    others = λ t h. refl;
    count = refl;
  })
  | inr other ↦ rw other (record {
    current = refl;
    stays = λ e. absurd (ground arith);
    slice = λ h. ground arith;
    state = λ t.
        update-view (λ k. k.state) s.task_pool c (record (s.task_pool c) { time_slice = 10 }) refl
          t;
    priority = λ t.
        update-view (λ k. k.priority) s.task_pool c (record (s.task_pool c) { time_slice = 10 })
          refl t;
    others = λ t h. ground arith;
    count = refl;
  })
]

-- schedule has one of two outcomes. Either no task of the pool is ready with a priority below 255, and
-- nothing changes. Or one is: then the current task is afterwards the first among those of the
-- highest priority; it has a time slice of 10 if it was not current before, no state and no
-- priority changes, and if it was current before, nothing does.
pub schedule_lem :
    (s : Kernel)
    → (((t : ℕ) → ¬ CanRun s t) × (schedule s ≡ s))
      ⊎ ((c : ℕ) × IsFirstChoice s c × IsSwitched c s (schedule s))
unfolding schedule
schedule_lem s =
    let best : Best = record { highest_pri = 255; candidate = s.current_task } in
    let f = search_from-IsFound s.task_pool s.task_count 0 best in
    elim f.origin [
      | inl e ↦
          let at : (search_from s.task_pool s.task_count 0 best).highest_pri ≡ 255 =
            ap (λ b. b.highest_pri) e in
          inl (
            λ t run.
                let up = f.least t (omega arith) (omega (arith, run.0)) run.1 in
                omega (arith, run.2),
            rw e ((switch_to-IsSwitched s.current_task s).stays refl),
          )
      | inr (a, b, r, p, h, first) ↦
          let c = (search_from s.task_pool s.task_count 0 best).candidate in
          inr (
            c,
            record {
              can_run = (omega arith, r, omega arith);
              highest = λ t run.
                  let up = f.least t (omega arith) (omega (arith, run.0)) run.1 in omega arith;
              first = λ t run u. let up = first t (omega arith) u run.1 in omega arith;
            },
            switch_to-IsSwitched c s,
          )
    ]
