-- ===== src/ScheduleTable/Build/Total.antt =====
-- When table_scheduler_init comes through.
use native.Mathlib.Nat.{zero-mod}
use architecture_evolution_f.Prelude.{
  ℕ, zero, suc, ◌+◌, ◌-◌, ◌<◌, ◌≤◌, ◌≡◌, ◌↔◌, refl, sym, ap, subst, ◌∙◌, inl, inr, true, false,
  none, some, List, [], ◌∷◌, All, All-mono, All-get_elem?, Option-cases, arith, ◌==◌, Bool-cases,
  get_elem?, is_empty, length, >>=-eq-some,
}
use architecture_evolution_f.Task.{TaskStruct}
use architecture_evolution_f.ScheduleTable.{ScheduleTable}
use architecture_evolution_f.ScheduleTable.Build.{
  Groups, Slot, empty_slot, Filling, open_slot, link_info, put, put_all, hash_table, collect,
  build_table, build_tables, group, no_groups, num_tables, table_scheduler_init, is_due,
}
use architecture_evolution_f.ScheduleTable.Build.Offsets.{
  hash_table-Round, hash_table-IsTabled, build_table-Parts,
}
use architecture_evolution_f.ScheduleTable.Build.Grouping.{SmallPeriods, indices, group_lem}
use architecture_evolution_f.ScheduleTable.Build.Counting.{length_pos, tables_le, indices-within}

pub get_elem?-lt :
    {A : Type 0} (xs : List A) (i : ℕ) → i < length xs → (x : A) × (get_elem? xs i ≡ some x)
get_elem?-lt [] i h = absurd (omega arith)
get_elem?-lt (x ∷ xs) zero h = (x, refl)
get_elem?-lt (x ∷ xs) (suc i) h = get_elem?-lt xs i (omega arith)

collect-open :
    (slot : Slot) (rest : List Slot) (t : ℕ)
    → slot.offset ≡ some t
    → 0 < length (collect (slot ∷ rest))
unfolding collect
collect-open slot rest t e = ground arith

module _ (tasks : List TaskStruct) (i : ℕ) (there : i < length tasks) where
  put-returns :
      (time m : ℕ) (f : Filling)
      → m < length tasks
      → (f' : Filling) × (put tasks i time m f ≡ some f')
  unfolding put
  put-returns time m f h =
      let (own, e) = get_elem?-lt tasks m h in
      let (at_table, e') = get_elem?-lt tasks i there in
      elim (Bool-cases (is_due time own.period)) [
        | inl now ↦
            let opened = open_slot time f in
            let filled : Filling = record opened {
              slot = link_info m own.task_type at_table.task_type opened.slot;
            } in
            (filled, rw (e, now, e') refl)
        | inr later ↦ (f, rw (e, later) refl)
      ]

  put_all-returns :
      (time : ℕ) (ms : List ℕ) (f : Filling)
      → All (λ m. m < length tasks) ms
      → (f' : Filling) × (put_all tasks i time ms f ≡ some f')
  unfolding put_all
  put_all-returns time [] f a = (f, refl)
  put_all-returns time (m ∷ ms) f a =
      let (f1, e) = put-returns time m f a.0 in
      let (f2, e') = put_all-returns time ms f1 a.1 in (f2, rw e e')

  hash_table-returns :
      (ms : List ℕ) (k time n : ℕ)
      → All (λ m. m < length tasks) ms
      → (slots : List Slot) × (count : ℕ) × (hash_table tasks i ms k time n ≡ some (slots, count))
  unfolding hash_table
  hash_table-returns ms zero time n a = ([], n, refl)
  hash_table-returns ms (suc k) time n a =
      let (f, e) = put_all-returns time ms (record { slot = empty_slot; num_eps = n }) a in
      let (slots, count, e') = hash_table-returns ms k (time + 1) f.num_eps a in
      (f.slot ∷ slots, count, rw (e, e') refl)

  -- A bucket that is open stays open.
  put-open :
      (time m t : ℕ) (f f' : Filling)
      → f.slot.offset ≡ some t
      → put tasks i time m f ≡ some f'
      → f'.slot.offset ≡ some t
  unfolding put open_slot link_info
  put-open time m t f f' o e = ground arith

  put_all-open :
      (time t : ℕ) (ms : List ℕ) (f f' : Filling)
      → f.slot.offset ≡ some t
      → put_all tasks i time ms f ≡ some f'
      → f'.slot.offset ≡ some t
  unfolding put_all
  put_all-open time t [] f f' o e = ground arith
  put_all-open time t (m ∷ ms) f f' o e =
      let (f1, e1, e2) = >>=-eq-some (put tasks i time m f) (put_all tasks i time ms) e in
      put_all-open time t ms f1 f' (put-open time m t f f1 o e1) e2

  -- At time 0 every member is due, so the first opens the bucket.
  put-first :
      (m : ℕ) (f f' : Filling)
      → f.slot.offset ≡ none
      → put tasks i 0 m f ≡ some f'
      → f'.slot.offset ≡ some 0
  unfolding put open_slot link_info
  put-first m f f' o e =
      let (own, e1, e2) = >>=-eq-some (get_elem? tasks m) _ e in
      let now : is_due 0 own.period ≡ true = ground (arith, zero-mod own.period) in
      let (at_table, e3, e4) = >>=-eq-some (get_elem? tasks i) _ (rw now at e2) in ground arith

  hash_table-nonempty :
      (m : ℕ) (ms : List ℕ) (k count : ℕ) (slots : List Slot)
      → hash_table tasks i (m ∷ ms) (suc k) 0 0 ≡ some (slots, count)
      → 0 < length (collect slots)
  unfolding put_all
  hash_table-nonempty m ms k count slots e =
      let r = hash_table-Round tasks i (m ∷ ms) k 0 0 slots count e in
      let (f1, e1, e2) =
        >>=-eq-some (put tasks i 0 m (record { slot = empty_slot; num_eps = 0 }))
          (put_all tasks i 0 ms) r.filled in
      let opened = put_all-open 0 0 ms f1 r.f (put-first m _ f1 refl e1) e2 in
      subst (λ ss. 0 < length (collect ss)) r.whole (collect-open r.f.slot r.rest 0 opened)

  members-nonempty :
      (ms : List ℕ) (k count : ℕ) (slots : List Slot)
      → is_empty ms ≡ false
      → 0 < k
      → hash_table tasks i ms k 0 0 ≡ some (slots, count)
      → 0 < length (collect slots)
  members-nonempty [] k count slots n p e = cc
  members-nonempty (m ∷ ms) zero count slots n p e = absurd (omega arith)
  members-nonempty (m ∷ ms) (suc k) count slots n p e = hash_table-nonempty m ms k count slots e

  -- A table with a member and a duration is built.
  build_table-returns :
      (g : Groups)
      → is_empty (g.members i) ≡ false
      → All (λ m. m < length tasks) (g.members i)
      → 0 < g.duration i
      → (t : ScheduleTable) × (build_table tasks g i ≡ some t)
  unfolding build_table
  build_table-returns g some_member a positive =
      let (slots, n, e) = hash_table-returns (g.members i) (g.duration i) 0 0 a in
      let tabled = hash_table-IsTabled tasks i (g.members i) (g.duration i) 0 0 slots n e in
      let full = members-nonempty (g.members i) (g.duration i) n slots some_member positive e in
      let (first, e1) = get_elem?-lt (collect slots) 0 full in
      let (last, e2) = get_elem?-lt (collect slots) (n - 1) (omega (arith, tabled.counted)) in
      let (leader, e3) = get_elem?-lt (g.members i) 0 (length_pos (g.members i) some_member) in
      let (task, e4) =
        get_elem?-lt tasks leader (All-get_elem? (λ m. m < length tasks) (g.members i) 0 a e3) in
      elim (Option-cases (build_table tasks g i)) [
        | inl fails ↦ let impossible = rw (e, e1, e2, e3, e4) at fails in cc
        | inr built ↦ built
      ]

members-get_elem? : (ms : List ℕ) {m : ℕ} → get_elem? ms 0 ≡ some m → is_empty ms ≡ false
members-get_elem? [] e = cc
members-get_elem? (m ∷ ms) e = refl

module _ (tasks : List TaskStruct) (g : Groups) where
  build_tables-returns :
      (n i : ℕ)
      → ((j : ℕ) → i ≤ j → j < i + n → (t : ScheduleTable) × (build_table tasks g j ≡ some t))
      → (tables : List ScheduleTable) × (build_tables tasks g n i ≡ some tables)
        × (length tables ≡ n)
  unfolding build_tables
  build_tables-returns zero i h = ([], refl, refl)
  build_tables-returns (suc n) i h =
      let (t, e) = h i (omega arith) (omega arith) in
      let (ts, e', l) = build_tables-returns n (i + 1) (λ j a b. h j (omega arith) (omega arith)) in
      (t ∷ ts, rw (e, e') refl, ap suc l)

  build_tables-each :
      (n i : ℕ) (tables : List ScheduleTable)
      → build_tables tasks g n i ≡ some tables
      → (j : ℕ) → i ≤ j
      → j < i + n
      → is_empty (g.members j) ≡ false
  unfolding build_tables
  build_tables-each zero i tables e j a b = absurd (omega arith)
  build_tables-each (suc n) i tables e j a b =
      let (t, e1, f1) = >>=-eq-some (build_table tasks g i) _ e in
      let (ts, e2, f2) = >>=-eq-some (build_tables tasks g n (i + 1)) _ f1 in
      elim (Bool-cases (j == i)) [
        | inl same ↦
            let at : j ≡ i = ground arith in
            let p = build_table-Parts tasks g i t e1 in
            rw at (members-get_elem? (g.members i) p.leader_at)
        | inr other ↦ build_tables-each n (i + 1) ts e2 j (ground arith) (omega arith)
      ]

  -- Let all periods be positive and below 55, and let no least common multiple overflow. Then
  -- table_scheduler_init comes through, with one table for each id up to the largest, exactly when every
  -- such table has a task.
  pub table_scheduler_init-returns :
      SmallPeriods tasks
      → group tasks 0 no_groups ≡ some g
      → ((tables : List ScheduleTable) × (table_scheduler_init tasks ≡ some tables)
          × (length tables ≡ num_tables tasks 0))
        ↔ ((i : ℕ) → i < num_tables tasks 0 → is_empty (g.members i) ≡ false)
  unfolding table_scheduler_init
  table_scheduler_init-returns small e =
      let lem = group_lem tasks g small e in
      let n = num_tables tasks 0 in
      (
        λ (tables, run, l) i h.
            build_tables-each n 0 tables (rw e at run) i (omega arith) (omega arith),
        λ full.
            let enough = tables_le n tasks (λ i h. ap is_empty (sym (lem i).0) ∙ full i h) in
            let (tables, run, l) = build_tables-returns n 0 (λ j a b.
              build_table-returns tasks j (omega arith) g (full j (omega arith))
                (subst (All (λ m. m < length tasks)) (sym (lem j).0)
                  (All-mono (indices j 0 tasks) (λ m h. omega arith) (indices-within j 0 tasks)))
                (lem j).1) in
            (tables, rw e run, l),
      )
