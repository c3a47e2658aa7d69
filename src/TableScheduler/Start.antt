-- ===== src/TableScheduler/Start.antt =====
-- table_scheduler_start on the tables that table_scheduler_init has built.
use architecture_evolution_f.Prelude.{
  ℕ, zero, suc, ◌+◌, ◌≡◌, refl, ap, ◌∙◌, some, List, [], ◌∷◌, All, arith, get_elem?, >>=-eq-some,
}
use architecture_evolution_f.Task.{TaskStruct}
use architecture_evolution_f.ScheduleTable.{ScheduleTable, Timespec}
use architecture_evolution_f.ScheduleTable.Timer.{ms_to_ns, start_timer}
use architecture_evolution_f.ScheduleTable.Build.{
  Groups, group, no_groups, num_tables, build_table, build_tables, table_scheduler_init,
}
use architecture_evolution_f.ScheduleTable.Build.Due.{AllBasic, build_table-first}
use architecture_evolution_f.TableScheduler.{TableScheduler, start_each, table_scheduler_start}

-- The tables that start at once.
abbrev AtZero : List ScheduleTable → Type 0
AtZero = All (λ t. t.initial_offset ≡ 0)

build_tables-AtZero :
    (tasks : List TaskStruct) (g : Groups) (n i : ℕ) (tables : List ScheduleTable)
    → AllBasic tasks
    → build_tables tasks g n i ≡ some tables
    → AtZero tables
unfolding build_tables
build_tables-AtZero tasks g n i [] basic e = tt
build_tables-AtZero tasks g zero i (t ∷ ts) basic e = cc
build_tables-AtZero tasks g (suc n) i (t ∷ ts) basic e =
    let (t', e1, f1) = >>=-eq-some (build_table tasks g i) _ e in
    let (ts', e2, f2) = >>=-eq-some (build_tables tasks g n (i + 1)) _ f1 in
    let same : t' ≡ t = ground arith in
    let same_rest : ts' ≡ ts = ground arith in
    (
      build_table-first tasks g i t basic (e1 ∙ ap some same),
      build_tables-AtZero tasks g n (i + 1) ts basic (e2 ∙ ap some same_rest),
    )

-- The table with its timer a nanosecond behind the clock.
abbrev pub due_at_once : Timespec → ScheduleTable → ScheduleTable
due_at_once now t = record t { new_timer = record now { tv_nsec = now.tv_nsec + 1 } }

-- What holds of the tables behind the first and of the first holds of all.
started-cons :
    (now : ℕ → Timespec) (i : ℕ) (t : ScheduleTable) (ts ts' : List ScheduleTable)
    → ((j : ℕ) (u : ScheduleTable)
        → get_elem? ts j ≡ some u
        → get_elem? ts' j ≡ some (due_at_once (now (i + 1 + j)) u))
    → (j : ℕ) (u : ScheduleTable) → get_elem? (t ∷ ts) j ≡ some u
    → get_elem? (due_at_once (now i) t ∷ ts') j ≡ some (due_at_once (now (i + j)) u)
started-cons now i t ts ts' h zero u e =
    let same : t ≡ u = cc in
    let index : i ≡ i + 0 = omega arith in
    ap (λ v. some (due_at_once (now i) v)) same ∙ ap (λ k. some (due_at_once (now k) u)) index
started-cons now i t ts ts' h (suc j) u e =
    let index : i + 1 + j ≡ i + suc j = omega arith in
    h j u e ∙ ap (λ k. some (due_at_once (now k) u)) index

start_each-AtZero :
    (now : ℕ → Timespec) (i : ℕ) (tables : List ScheduleTable)
    → AtZero tables
    → (tables' : List ScheduleTable) × (start_each now i tables ≡ some tables')
      × ((j : ℕ) (t : ScheduleTable)
          → get_elem? tables j ≡ some t
          → get_elem? tables' j ≡ some (due_at_once (now (i + j)) t))
unfolding start_each ms_to_ns start_timer
start_each-AtZero now i [] a = ([], refl, λ j t e. cc)
start_each-AtZero now i (t ∷ ts) a =
    let (ts', run, each) = start_each-AtZero now (i + 1) ts a.1 in
    (due_at_once (now i) t ∷ ts', rw (a.0, run) refl, started-cons now i t ts ts' each)

-- Over basic tasks every table starts at its first expiry point, at offset 0: after table_scheduler_init,
-- table_scheduler_start overflows for no table, sets the timer of each a nanosecond behind the clock that
-- it has read, and leaves the rest of the tables as it is.
pub start-init :
    (now : ℕ → Timespec) (tasks : List TaskStruct) (s : TableScheduler)
    → AllBasic tasks
    → table_scheduler_init tasks ≡ some s.tables
    → (s' : TableScheduler) × (table_scheduler_start now s ≡ some s')
      × ((j : ℕ) (t : ScheduleTable)
          → get_elem? s.tables j ≡ some t
          → get_elem? s'.tables j ≡ some (due_at_once (now j) t))
unfolding table_scheduler_start table_scheduler_init
start-init now tasks s basic e =
    let (g, e1, e2) = >>=-eq-some (group tasks 0 no_groups) _ e in
    let zeros = build_tables-AtZero tasks g (num_tables tasks 0) 0 s.tables basic e2 in
    let (tables', run, each) = start_each-AtZero now 0 s.tables zeros in
    (
      record s { tables = tables' },
      rw run refl,
      λ j t h.
          let index : 0 + j ≡ j = omega arith in
          each j t h ∙ ap (λ k. some (due_at_once (now k) t)) index,
    )
