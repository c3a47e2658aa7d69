-- ===== src/ScheduleTable/Timer.antt =====
-- The timer of a schedule table: set_timer, start_timer, table_scheuler_update_timer, and the index
-- of the expiry point that table_scheduler_expiry_point_enqueue serves. The source hands the
-- resulting `new_timer` to timerfd_settime as an absolute time and ignores its answer.
pub mod Arm
pub mod Cycle
pub mod Schedule
pub mod Edges
mod Examples
use architecture_evolution_f.Prelude.{
  ℕ, zero, suc, ◌+◌, ◌-◌, ◌*◌, ◌%◌, Bool, true, false, Option, none, some, List, ◌==◌, ltb, leb,
  get_elem?, if◌then◌else◌, ◌>>=◌,
}
use architecture_evolution_f.ScheduleTable.{
  TableType, periodic, single_shot, ExpiryPoint, Timespec, ScheduleTable,
}
use architecture_evolution_f.ScheduleTable.Duration.{int_max}

abbrev pub nanos_per_sec : ℕ
nanos_per_sec = 1000000000

-- MS_TO_NS at an `int`: the product is an `int` too, and its overflow is undefined.
unfoldable pub ms_to_ns : ℕ → Option ℕ
ms_to_ns ms = if ltb int_max (ms * 1000000) then none else some (ms * 1000000)

-- The new `it_value` of set_timer.
unfoldable pub set_timer : ℕ → Timespec → Timespec
set_timer ns new_timer =
    let tv_nsec = new_timer.tv_nsec + ns in
    if leb nanos_per_sec tv_nsec
    then record { tv_sec = new_timer.tv_sec + 1; tv_nsec = tv_nsec - nanos_per_sec }
    else record { tv_sec = new_timer.tv_sec; tv_nsec = tv_nsec }

-- The new `it_value` of start_timer. `now` is what clock_gettime answers.
unfoldable pub start_timer : (now : Timespec) → ℕ → Timespec
start_timer now ns =
    if ns == 0
    then record now { tv_nsec = now.tv_nsec + 1 }
    else record now { tv_nsec = now.tv_nsec + ns }

-- `a - b`, of two offsets. They ascend along the array, and a negative difference is `none`.
difference : ℕ → ℕ → Option ℕ
difference a b = if ltb a b then none else some (a - b)

-- `eps_array[i].offset`; `none` is a read out of bounds.
unfoldable pub offset_at : List ExpiryPoint → ℕ → Option ℕ
offset_at eps i = elim (get_elem? eps i) [ none ↦ none | some ep ↦ some ep.offset ]

-- The branch of `next_time` for a table that has come back to its first expiry point. The type of
-- the table must have been written.
wrap_time : Option TableType → ScheduleTable → Option ℕ
wrap_time none table = none
wrap_time (some periodic) table = some (table.final_delay + table.initial_offset)
wrap_time (some single_shot) table = some 0

unfoldable pub next_time : ScheduleTable → (current next : ℕ) → Option ℕ
unfolding difference offset_at wrap_time
next_time table current next =
    if ltb current next
    then (do
      a ← offset_at table.eps_array next
      b ← offset_at table.eps_array current
      difference a b)
    else wrap_time table.table_type table

-- table_scheuler_update_timer. A table with no expiry point divides by zero.
unfoldable pub update_timer : ScheduleTable → Option ScheduleTable
update_timer table = if table.num_eps == 0 then none else do
  let next = (table.next_ep_index + 1) % table.num_eps
  time ← next_time table table.next_ep_index next
  ns ← ms_to_ns time
  some (record table { next_ep_index = next; new_timer = set_timer ns table.new_timer })

-- The index that table_scheduler_expiry_point_enqueue computes.
unfoldable pub current_ep_index : ScheduleTable → ℕ
current_ep_index table =
    if leb 1 table.next_ep_index then table.next_ep_index - 1 else table.num_eps - 1
