-- ===== src/ScheduleTable/Timer/Examples.antt =====
-- Timers at a concrete table: expiry points at 0, 20 and 40 ms of a cycle of 60 ms.
use architecture_evolution_f.Prelude.{
  ℕ, zero, suc, ◌+◌, ◌*◌, ◌<◌, ◌≤◌, ◌≡◌, ◌↔◌, refl, some, [], ◌∷◌, arith,
}
use architecture_evolution_f.ScheduleTable.{
  periodic, single_shot, ExpiryPoint, Timespec, ScheduleTable,
}
use architecture_evolution_f.ScheduleTable.Timer.{
  nanos_per_sec, set_timer, start_timer, update_timer, current_ep_index, next_time, ms_to_ns,
}
use architecture_evolution_f.ScheduleTable.Timer.Arm.{nanos, IsNormal, set_timer-adds}
use architecture_evolution_f.ScheduleTable.Timer.Cycle.{offset_or, IsBuilt, GapsWithin}
use architecture_evolution_f.ScheduleTable.Timer.Schedule.{updates, moved, OnTime, updates-OnTime}
use architecture_evolution_f.ScheduleTable.Timer.Edges.{current_ep_index-update_timer}

abbrev at : ℕ → ExpiryPoint
at offset = record { offset = offset; tasks = 0 ∷ []; event_tasks = [] }

abbrev clock : Timespec
clock = record { tv_sec = 7; tv_nsec = 999000000 }

abbrev table : ScheduleTable
table = record {
  initial_offset = 0;
  duration = 60;
  final_delay = 20;
  num_eps = 3;
  next_ep_index = 0;
  timerfd = 5;
  table_type = some periodic;
  eps_array = at 0 ∷ at 20 ∷ at 40 ∷ [];
  new_timer = clock;
}

table-IsBuilt : IsBuilt table
table-IsBuilt = omega arith

table-GapsWithin : GapsWithin 20 table
table-GapsWithin = record { inner = inner; outer = omega arith }
  where
    inner :
        (i : ℕ) → i + 1 < 3 → offset_or table.eps_array (i + 1) ≤ offset_or table.eps_array i + 20
    inner zero h = omega arith
    inner (suc zero) h = omega arith
    inner (suc (suc i)) h = absurd (omega arith)

updates-OnTime_example :
    (w : ℕ) × (i : ℕ) × (time : Timespec) × (updates 7 table ≡ some (moved table i time))
    × OnTime table 7 w i time
updates-OnTime_example =
    updates-OnTime 20 table table-IsBuilt table-GapsWithin (omega arith) refl refl (omega arith) 7

abbrev last_point : ScheduleTable
last_point = record table { next_ep_index = 2 }

abbrev wrapped : ScheduleTable
wrapped = record table { new_timer = record { tv_sec = 8; tv_nsec = 19000000 } }

update_timer_wraps : update_timer last_point ≡ some wrapped
unfolding update_timer next_time ms_to_ns set_timer
update_timer_wraps = refl

served_index : current_ep_index wrapped ≡ 2
served_index = current_ep_index-update_timer last_point wrapped (omega arith) update_timer_wraps

abbrev once : ScheduleTable
once = record last_point { table_type = some single_shot }

-- One expiry point in 3000 ms.
abbrev slow : ScheduleTable
slow = record table { duration = 3000; final_delay = 3000; num_eps = 1; eps_array = at 0 ∷ [] }

set_timer-adds_example :
    (nanos (set_timer 2000000 clock) ≡ nanos clock + 2000000)
    × (IsNormal (set_timer 2000000 clock) ↔ (clock.tv_nsec + 2000000 < 2 * nanos_per_sec))
set_timer-adds_example = set_timer-adds 2000000 clock (omega arith)

-- 20 ms on a clock that is a millisecond before the full second: the field overflows.
start_timer_not_normal : start_timer clock 20000000 ≡ record { tv_sec = 7; tv_nsec = 1019000000 }
unfolding start_timer
start_timer_not_normal = refl
