-- ===== src/TaskLoading/Placement.antt =====
-- Where load_tasks puts the tasks.
use architecture_evolution_f.Prelude.{
  ℕ, zero, suc, ◌+◌, ◌<◌, ◌≤◌, ◌≡◌, ◌≢◌, refl, ap, ◌∙◌, sym, arith, ℤ, pos, negsuc, false, none,
  some, List, [], ◌∷◌, ltb, leb, if◌then◌else◌, update, length, get_elem?, Bool-cases, update_ne,
  lt→ltb, inl, inr, ◌⊎◌, ==_self, ◌==◌,
}
use architecture_evolution_f.Task.{TaskStructInfo, max_num_cpu}
use architecture_evolution_f.TaskLoading.{
  TaskArray, Loaded, returned, exited, out_of_bounds, count_one, count_tasks, allocate, task_of,
  write_task, place_tasks, load_from, load_tasks,
}

-- What create_instance of simulator.c leaves.
abbrev pub empty : Loaded
empty = record { tasks_num_percpu = λ cpu. 0; tasks_persched = λ cpu. none }

count_tasks_lem :
    (cpu n : ℕ) (num : ℕ → ℕ) (c : ℕ)
    → cpu < max_num_cpu
    → count_tasks cpu n num c ≡ (if c == cpu then num c + n else num c)
unfolding count_tasks
count_tasks_lem cpu zero num c h = ground arith
count_tasks_lem cpu (suc n) num c h =
    count_tasks_lem cpu n (count_one cpu num) c h ∙ grind (arith, lt→ltb cpu max_num_cpu h)

-- The tasks of `infos` stand at the places from `index` on, and what stood elsewhere still does.
pub record IsFilled (index : ℕ) (infos : List TaskStructInfo) (old new : TaskArray) : Type 0 where
  pub filled :
      (i : ℕ) (info : TaskStructInfo)
      → get_elem? infos i ≡ some info
      → new (index + i) ≡ some (task_of info)
  pub kept : (i : ℕ) → (i < index) ⊎ (index + length infos ≤ i) → new i ≡ old i

IsFilled-cons :
    (index : ℕ) (info : TaskStructInfo) (infos : List TaskStructInfo) (old new : TaskArray)
    → IsFilled (index + 1) infos (update old index (some (task_of info))) new
    → IsFilled index (info ∷ infos) old new
IsFilled-cons index info infos old new f = record {
  filled = at;
  kept = λ i h. elim h [
    | inl below ↦ f.kept i (inl (omega arith)) ∙ update_ne old index i _ (λ e. absurd (omega arith))
    | inr above ↦ f.kept i (inr (omega arith)) ∙ update_ne old index i _ (λ e. absurd (omega arith))
  ];
}
  where
    at :
        (i : ℕ) (other : TaskStructInfo)
        → get_elem? (info ∷ infos) i ≡ some other
        → new (index + i) ≡ some (task_of other)
    at zero other e =
        let same : info ≡ other = cc in
        let start : index + 0 ≡ index = omega arith in
        rw start
          (f.kept index (inl (omega arith)) ∙ rw (==_self index) (ap (λ x. some (task_of x)) same))
    at (suc i) other e =
        let next : index + suc i ≡ index + 1 + i = omega arith in rw next (f.filled i other e)

-- `s'` is `s` with the array of one CPU replaced.
pub record HasArray (cpu : ℕ) (new : TaskArray) (s s' : Loaded) : Type 0 where
  pub array : s'.tasks_persched cpu ≡ some new
  pub others : (c : ℕ) → c ≢ cpu → s'.tasks_persched c ≡ s.tasks_persched c
  pub counts : (c : ℕ) → s'.tasks_num_percpu c ≡ s.tasks_num_percpu c

place_tasks_lem :
    (cpu index : ℕ) (infos : List TaskStructInfo) (old : TaskArray) (s : Loaded)
    → cpu < max_num_cpu
    → s.tasks_persched cpu ≡ some old
    → index + length infos ≤ s.tasks_num_percpu cpu
    → (s' : Loaded) × (new : TaskArray) × (place_tasks cpu (length infos) index infos s
        ≡ returned s')
      × HasArray cpu new s s'
      × IsFilled index infos old new
unfolding place_tasks
place_tasks_lem cpu index [] old s h e n = (
  s,
  old,
  refl,
  record { array = e; others = λ c d. refl; counts = λ c. refl },
  record { filled = λ i info g. absurd cc; kept = λ i g. refl },
)
place_tasks_lem cpu index (info ∷ infos) old s h e n =
    let s1 = write_task s cpu old index info in
    let next = update old index (some (task_of info)) in
    let (s', new, r, a, f) =
      place_tasks_lem cpu (index + 1) infos next s1 h (rw (==_self cpu) refl) (omega arith) in
    let small : leb max_num_cpu cpu ≡ false = ground arith in
    let room : leb (s.tasks_num_percpu cpu) index ≡ false = ground arith in
    (
      s',
      new,
      rw (small, room, e) r,
      record { array = a.array; others = λ c d. a.others c d ∙ ground arith; counts = a.counts },
      IsFilled-cons index info infos old new f,
    )

-- The result of load_tasks for the configuration `info ∷ infos` with empty arrays: all tasks are
-- counted for the CPU of the first and stand in its array in the order of the configuration,
-- whatever CPU the others ask for.
pub record AllOnFirst (info : TaskStructInfo) (infos : List TaskStructInfo) (s : Loaded)
    : Type 0 where
  pub count : s.tasks_num_percpu info.cpu ≡ length (info ∷ infos)
  pub array :
      (tasks : TaskArray) × (s.tasks_persched info.cpu ≡ some tasks)
      × ((i : ℕ) (task : TaskStructInfo)
          → get_elem? (info ∷ infos) i ≡ some task
          → tasks i ≡ some (task_of task))
      × ((i : ℕ) → length (info ∷ infos) ≤ i → tasks i ≡ none)
  pub no_others : (c : ℕ) → c ≢ info.cpu → (s.tasks_num_percpu c ≡ 0) × (s.tasks_persched c ≡ none)

module _ (cpu n : ℕ) (h : cpu < max_num_cpu) where
  abbrev counted : Loaded
  counted = record empty { tasks_num_percpu = count_tasks cpu (suc n) (λ c. 0) }

  counted_self : counted.tasks_num_percpu cpu ≡ suc n
  counted_self = count_tasks_lem cpu (suc n) (λ c. 0) cpu h ∙ rw (==_self cpu) (omega arith)

  counted_other : (c : ℕ) → c ≢ cpu → counted.tasks_num_percpu c ≡ 0
  counted_other c d = count_tasks_lem cpu (suc n) (λ c. 0) c h ∙ ground arith

  allocate-counts : (c : ℕ) → (allocate counted).tasks_num_percpu c ≡ counted.tasks_num_percpu c
  unfolding allocate
  allocate-counts c = refl

  allocate_self : (allocate counted).tasks_persched cpu ≡ some (λ i. none)
  unfolding allocate
  allocate_self =
      let self = counted_self in
      rw (lt→ltb cpu max_num_cpu h, lt→ltb 0 (counted.tasks_num_percpu cpu) (omega arith)) refl

  allocate_other : (c : ℕ) → c ≢ cpu → (allocate counted).tasks_persched c ≡ none
  unfolding allocate
  allocate_other c d =
      let none_counted : ltb 0 (counted.tasks_num_percpu c) ≡ false = rw (counted_other c d) refl in
      rw none_counted
        (elim (Bool-cases (ltb c max_num_cpu)) [ inl e ↦ rw e refl | inr e ↦ rw e refl ])

-- load_tasks with a configuration of at least one task, whose length is handed over, and with empty
-- arrays returns if the first task has a CPU below 256. Every task is then counted for the CPU of
-- the first one and stands in its array, in the order of the configuration and with the fields
-- of its description, its own CPU among them. No other CPU has a task or an array.
pub load_tasks-AllOnFirst :
    (info : TaskStructInfo) (infos : List TaskStructInfo)
    → info.cpu < max_num_cpu
    → (s : Loaded) × (load_tasks (some (info ∷ infos)) (pos (length (info ∷ infos))) empty
        ≡ returned s)
      × AllOnFirst info infos s
unfolding load_tasks load_from
load_tasks-AllOnFirst info infos h =
    let cpu = info.cpu in
    let n = length infos in
    let self = allocate-counts cpu n h cpu ∙ counted_self cpu n h in
    let (s', new, r, a, f) =
      place_tasks_lem cpu 0 (info ∷ infos) (λ i. none) (allocate (counted cpu n h)) h
        (allocate_self cpu n h) (omega arith) in
    (
      s',
      r,
      record {
        count = a.counts cpu ∙ self;
        array = (
          new,
          a.array,
          λ i task e. let start : 0 + i ≡ i = omega arith in ap new (sym start) ∙ f.filled i task e,
          λ i l. f.kept i (inr (omega arith)),
        );
        no_others = λ c d. (
          a.counts c ∙ (allocate-counts cpu n h c ∙ counted_other cpu n h c d),
          a.others c d ∙ allocate_other cpu n h c d,
        );
      },
    )

-- load_tasks with a null array or a negative number of tasks exits. With a first task of CPU 256 or
-- more the third loop goes beyond its array of indices, where the first has dropped the task.
pub load_tasks-fails :
    (infos : List TaskStructInfo) (info : TaskStructInfo) (n : ℕ) (num : ℤ) (s : Loaded)
    → (load_tasks none num s ≡ exited)
      × (load_tasks (some infos) (negsuc n) s ≡ exited)
      × (max_num_cpu ≤ info.cpu → load_tasks (some (info ∷ infos)) (pos (suc n)) s ≡ out_of_bounds)
unfolding load_tasks load_from place_tasks
load_tasks-fails infos info n num s = (refl, refl, λ h. ground arith)
