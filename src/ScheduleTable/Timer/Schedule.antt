-- ===== src/ScheduleTable/Timer/Schedule.antt =====
-- The times at which the updates of a table arm its timer, over any number of cycles.
use architecture_evolution_f.Prelude.{
  ◌>>=◌, ℕ, zero, suc, ◌+◌, ◌*◌, ◌<◌, ◌≤◌, ◌≡◌, refl, ap, inl, inr, Option, some, arith, ◌==◌,
  if◌then◌else◌,
}
use architecture_evolution_f.ScheduleTable.{periodic, Timespec, ScheduleTable}
use architecture_evolution_f.ScheduleTable.Timer.{update_timer}
use architecture_evolution_f.ScheduleTable.Timer.Arm.{
  nanos, IsNormal, set_timer-adds, set_timer-IsNormal,
}
use architecture_evolution_f.ScheduleTable.Timer.Cycle.{
  offset_or, IsBuilt, GapsWithin, gap, next_index, index-cases, next_index_inner, next_index_outer,
  gap-le, advanced, update_timer-advanced, advanced-IsBuilt, gap_lem,
}

-- `n` ticks in a row.
unfoldable pub updates : ℕ → ScheduleTable → Option ScheduleTable
updates zero t = some t
updates (suc n) t = updates n t >>= update_timer

-- The table `t` at another index and time.
abbrev pub moved : ScheduleTable → ℕ → Timespec → ScheduleTable
moved t i time = record t { next_ep_index = i; new_timer = time }

-- Where `n` ticks have brought the table: in the cycle `w` to the index `i`, its timer armed for
-- `time`.
pub record OnTime (t : ScheduleTable) (n w i : ℕ) (time : Timespec) : Type 0 where
  pub counted : n ≡ w * t.num_eps + i
  pub in_bounds : i < t.num_eps
  pub normal : IsNormal time
  pub exact :
      nanos time + t.initial_offset * 1000000
      ≡ nanos t.new_timer + (w * t.duration + offset_or t.eps_array i) * 1000000

module _ (bound : ℕ) (t : ScheduleTable) (b : IsBuilt t) (g : GapsWithin bound t)
    (short : bound ≤ 1000) (p : t.table_type ≡ some periodic) where
  pub moved-IsBuilt : (i : ℕ) (time : Timespec) → i < t.num_eps → IsBuilt (moved t i time)
  moved-IsBuilt i time h = record {
    sized = b.sized;
    index = h;
    ascending = b.ascending;
    first = b.first;
    last = b.last;
  }

  moved-gap : (i : ℕ) (time : Timespec) → i < t.num_eps → gap (moved t i time) ≤ bound
  moved-gap i time h =
      gap-le bound (moved t i time) (moved-IsBuilt i time h)
        (record { inner = g.inner; outer = g.outer })

  -- The cycle of the index behind the current one.
  abbrev cycle : (w next : ℕ) → ℕ
  cycle w next = if next == 0 then w + 1 else w

  cycle_times : (w next d : ℕ) → cycle w next * d ≡ w * d + (if next == 0 then d else 0)
  cycle_times w zero d = omega arith
  cycle_times w (suc next) d = grind arith

  module _ (n w i : ℕ) (time : Timespec) (o : OnTime t n w i time) where
    abbrev here : ScheduleTable
    here = moved t i time

    here-IsBuilt : IsBuilt here
    here-IsBuilt = moved-IsBuilt i time o.in_bounds

    counted : suc n ≡ cycle w (next_index here) * t.num_eps + next_index here
    counted = elim (index-cases here here-IsBuilt) [
      | inl inner ↦ rw (next_index_inner here inner) (ground (arith, o.counted))
      | inr outer ↦ rw (next_index_outer here outer) (ground (arith, o.counted))
    ]

    step_fits : gap here * 1000000 ≤ 1000000000
    step_fits = omega (arith, moved-gap i time o.in_bounds)

    exact :
        nanos (advanced here).new_timer + t.initial_offset * 1000000
        ≡ nanos t.new_timer
          + (cycle w (next_index here) * t.duration + offset_or t.eps_array (next_index here))
            * 1000000
    exact = omega (
      arith,
      (set_timer-adds (gap here * 1000000) time o.normal).0,
      gap_lem here here-IsBuilt,
      cycle_times w (next_index here) t.duration,
      o.exact,
    )

    OnTime-advanced :
        OnTime t (suc n) (cycle w (next_index here)) (next_index here) (advanced here).new_timer
    OnTime-advanced = record {
      counted = counted;
      in_bounds = (advanced-IsBuilt here here-IsBuilt).index;
      normal = set_timer-IsNormal (gap here * 1000000) time o.normal step_fits;
      exact = exact;
    }

    pub tick_runs : update_timer here ≡ some (advanced here)
    tick_runs = update_timer-advanced here here-IsBuilt p (omega (arith, step_fits))

  -- A periodic table that stands at its first expiry point and has no gap of more than a second:
  -- every number of ticks returns, the armed times stay normal, and after `n` ticks the timer is
  -- armed for the expiry point `i` of the cycle `w`, where `n` is `w * num_eps + i`, exactly at the
  -- sum of the whole cycles and its offset, counted from the time of the first expiry point.
  pub updates-OnTime :
      t.next_ep_index ≡ 0
      → IsNormal t.new_timer
      → (n : ℕ)
      → (w : ℕ) × (i : ℕ) × (time : Timespec) × (updates n t ≡ some (moved t i time))
        × OnTime t n w i time
  unfolding updates
  updates-OnTime start normal zero = (
    0,
    t.next_ep_index,
    t.new_timer,
    refl,
    record {
      counted = omega arith;
      in_bounds = b.index;
      normal = normal;
      exact = ground (arith, b.first, ap (offset_or t.eps_array) start);
    },
  )
  updates-OnTime start normal (suc n) =
      let (w, i, time, e, o) = updates-OnTime start normal n in
      (
        cycle w (next_index (moved t i time)),
        next_index (moved t i time),
        (advanced (moved t i time)).new_timer,
        rw e (tick_runs n w i time o),
        OnTime-advanced n w i time o,
      )
