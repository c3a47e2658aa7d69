-- ===== src/SchedulerThread/Activation.antt =====
-- Which tasks become ready when: the tables of table_scheduler_init under the ticks of process_tick.
mod Examples
use native.Mathlib.Nat.{div-add-mod', mod-lt}
use mathlib.Core.List.{reverse}
use architecture_evolution_f.Prelude.{
  ℕ, ◌+◌, ◌*◌, ◌/◌, ◌%◌, ◌<◌, ◌≤◌, ◌≡◌, refl, sym, ap, subst, ◌∙◌, false, some, List, All-get_elem?,
  arith, get_elem?, is_empty, Bool-cases, ltb, inl, inr,
}
use architecture_evolution_f.Task.{TaskStruct}
use architecture_evolution_f.ScheduleTable.{periodic, ExpiryPoint, ScheduleTable, Timespec}
use architecture_evolution_f.ScheduleTable.Timer.{update_timer}
use architecture_evolution_f.ScheduleTable.Timer.Arm.{nanos, IsNormal}
use architecture_evolution_f.ScheduleTable.Timer.Cycle.{
  Ascending-next, IsBuilt, GapsWithin, advanced, offset_or,
}
use architecture_evolution_f.ScheduleTable.Timer.Schedule.{
  updates, moved, updates-OnTime, moved-IsBuilt, tick_runs,
}
use architecture_evolution_f.ScheduleTable.Timer.Edges.{current_ep_index-update_timer}
use architecture_evolution_f.ScheduleTable.Build.{Groups, group, no_groups, build_table}
use architecture_evolution_f.ScheduleTable.Build.Offsets.{
  build_table-IsBuilt, build_table-Parts, offset_or-get_elem?,
}
use architecture_evolution_f.ScheduleTable.Build.Due.{
  Activates, AllBasic, due, build_table-Due, build_table-first,
}
use architecture_evolution_f.ScheduleTable.Build.Grouping.{SmallPeriods, group_lem}
use architecture_evolution_f.ScheduleTable.Build.Periods.{due-cycle, members-Divides}
use architecture_evolution_f.ScheduleTable.Build.Gaps.{build_table-GapsWithin, due-index, offset-lt}
use architecture_evolution_f.ScheduleTable.Build.Total.{get_elem?-lt}
use architecture_evolution_f.SchedulerThread.{Sched, due_of, process_tick, tasks_due}
use architecture_evolution_f.SchedulerThread.Served.{
  tick_time, tick_time-parts, tick-due, due_of-at,
}

module _ (tasks : List TaskStruct) (g : Groups) (i : ℕ) (t : ScheduleTable) (now : Timespec)
    (basic : AllBasic tasks) (small : SmallPeriods tasks)
    (grouped : group tasks 0 no_groups ≡ some g) (built : build_table tasks g i ≡ some t)
    (p : t.table_type ≡ some periodic) (normal : IsNormal now) where
  -- The table once its timer is armed for the first time.
  abbrev started : ScheduleTable
  started = record t { new_timer = now }

  started-IsBuilt : IsBuilt started
  started-IsBuilt =
      let b = (build_table-IsBuilt tasks g i t built).0 in
      record {
        sized = b.sized;
        index = b.index;
        ascending = b.ascending;
        first = b.first;
        last = b.last;
      }

  started-GapsWithin : GapsWithin 54 started
  started-GapsWithin =
      let gaps = build_table-GapsWithin tasks g i t basic small built in
      record { inner = gaps.inner; outer = gaps.outer }

  -- What is due at an expiry point is due at its time in each cycle.
  due-tick : (w j : ℕ) → due tasks (w * t.duration + j) (g.members i) ≡ due tasks j (g.members i)
  due-tick w j =
      let parts = build_table-Parts tasks g i t built in
      rw (parts.duration)
        (due-cycle tasks (g.duration i) w j (g.members i) (members-Divides tasks g i small grouped))

  point-at :
      (j : ℕ)
      → j < t.num_eps
      → (ep : ExpiryPoint) × (get_elem? t.eps_array j ≡ some ep)
        × (ep.tasks ≡ reverse (due tasks (offset_or t.eps_array j) (g.members i)))
  point-at j h =
      let (ep, at) = get_elem?-lt t.eps_array j (omega (arith, started-IsBuilt.sized)) in
      let activated =
        All-get_elem? (Activates tasks (g.members i)) t.eps_array j
          (build_table-Due tasks g i t basic built).1 at in
      (
        ep,
        at,
        activated.0
            ∙ ap (λ o. reverse (due tasks o (g.members i)))
                (sym (offset_or-get_elem? t.eps_array j at).0),
      )

  -- The update at the index `j` leaves the index one further, and the expiry point `j` is served.
  served :
      (j : ℕ) (time : Timespec)
      → j < t.num_eps
      → update_timer (moved started j time) ≡ some (advanced (moved started j time))
      → due_of (advanced (moved started j time))
        ≡ some (reverse (due tasks (offset_or t.eps_array j) (g.members i)))
  served j time h run =
      let here =
        moved-IsBuilt 54 started started-IsBuilt started-GapsWithin (omega arith) p j time h in
      let back = current_ep_index-update_timer (moved started j time) _ here run in
      let (ep, at, tasks_at) = point-at j h in due_of-at _ j ep back at ∙ ap some tasks_at

  tick :
      (n : ℕ)
      → (tn : ScheduleTable) × (updates n started ≡ some tn)
        × (nanos tn.new_timer ≡ nanos now + tick_time t n * 1000000)
        × ((k : ℕ) (s : Sched)
            → s.tables k ≡ tn
            → (s' : Sched) × (process_tick k s ≡ some s')
              × (tasks_due s' ≡ some (reverse (due tasks (tick_time t n) (g.members i)))))
  tick n =
      let (w, j, time, run, o) =
        updates-OnTime 54 started started-IsBuilt started-GapsWithin (omega arith) p
          (build_table-IsBuilt tasks g i t built).1 normal n in
      let ticks =
        tick_runs 54 started started-IsBuilt started-GapsWithin (omega arith) p n w j time o in
      let at = tick_time-parts t n w j o.counted o.in_bounds in
      (
        moved started j time,
        run,
        rw at (omega (arith, o.exact, build_table-first tasks g i t basic built)),
        λ k s e.
            let (s', ran, due_then) = tick-due k s _ _ e ticks in
            (
              s',
              ran,
              due_then
                  ∙ (served j time o.in_bounds ticks
                      ∙ rw at (ap (λ d. some (reverse d)) (sym (due-tick w _)))),
            ),
      )

  reached : (s : ℕ) → is_empty (due tasks s (g.members i)) ≡ false → (n : ℕ) × (tick_time t n ≡ s)
  reached s h =
      let parts = build_table-Parts tasks g i t built in
      let positive : 0 < t.duration =
        omega (arith, parts.duration, (group_lem tasks g small grouped i).1) in
      let whole = div-add-mod' s t.duration in
      let in_cycle : due tasks s (g.members i) ≡ due tasks (s % t.duration) (g.members i) =
        subst (λ x. due tasks x (g.members i) ≡ due tasks (s % t.duration) (g.members i)) whole
          (due-tick (s / t.duration) (s % t.duration)) in
      let (j, l, at) =
        due-index tasks g i t basic small built (s % t.duration) (mod-lt s positive)
          (ap is_empty (sym in_cycle) ∙ h) in
      let n = s / t.duration * t.num_eps + j in
      (n, tick_time-parts t n (s / t.duration) j refl l ∙ rw at whole)

  -- Each tick comes later than the one before it.
  rising : (n : ℕ) → tick_time t n < tick_time t (n + 1)
  rising n =
      let w = n / t.num_eps in
      let j = n % t.num_eps in
      let whole = div-add-mod' n t.num_eps in
      let inside : j < t.num_eps = mod-lt n (omega (arith, started-IsBuilt.index)) in
      elim (Bool-cases (ltb (j + 1) t.num_eps)) [
        | inl inner ↦
            let next = tick_time-parts t (n + 1) w (j + 1) (omega (arith, whole)) (ground arith) in
            let later =
              Ascending-next t.eps_array j started-IsBuilt.ascending
                (ground (arith, started-IsBuilt.sized)) in
            omega (arith, next, later)
        | inr outer ↦
            let end : t.num_eps ≤ j + 1 = ground arith in
            let next =
              tick_time-parts t (n + 1) (w + 1) 0 (omega (arith, whole, inside))
                (omega (arith, inside)) in
            omega (arith, next, offset-lt tasks g i t basic small built j inside)
      ]

  -- For the periodic table `i` of basic tasks with positive periods below 55, built and with its
  -- timer armed for the normal time `now`: behind any number `n` of its ticks its timer is armed for tick_time
  -- milliseconds after `now`, and the tick that then comes, in whatever state of the scheduler, makes exactly the members
  -- due whose period divides that time, each once, the last first. And every time at which the period of
  -- some member divides the time is that of a tick, and no two ticks have the same time.
  pub process_tick-due :
      ((n : ℕ)
        → (tn : ScheduleTable) × (updates n (record t { new_timer = now }) ≡ some tn)
          × (nanos tn.new_timer ≡ nanos now + tick_time t n * 1000000)
          × ((k : ℕ) (s : Sched)
              → s.tables k ≡ tn
              → (s' : Sched) × (process_tick k s ≡ some s')
                × (tasks_due s' ≡ some (reverse (due tasks (tick_time t n) (g.members i))))))
      × ((time : ℕ)
          → is_empty (due tasks time (g.members i)) ≡ false
          → (n : ℕ) × (tick_time t n ≡ time))
      × ((n : ℕ) → tick_time t n < tick_time t (n + 1))
  process_tick-due = (tick, reached, rising)
