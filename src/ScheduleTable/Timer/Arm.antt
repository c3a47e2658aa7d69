-- ===== src/ScheduleTable/Timer/Arm.antt =====
-- When the times handed to timerfd_settime are well formed, and that they are the right ones.
use architecture_evolution_f.Prelude.{ℕ, ◌+◌, ◌*◌, ◌<◌, ◌≤◌, ◌≡◌, ◌↔◌, arith}
use architecture_evolution_f.ScheduleTable.{Timespec}
use architecture_evolution_f.ScheduleTable.Timer.{nanos_per_sec, set_timer}

-- The time that a timespec stands for, in nanoseconds.
abbrev pub nanos : Timespec → ℕ
nanos t = t.tv_sec * nanos_per_sec + t.tv_nsec

-- What timerfd_settime asks of a timespec; it answers EINVAL to others.
abbrev pub IsNormal : Timespec → Type 0
IsNormal t = t.tv_nsec < nanos_per_sec

-- set_timer always adds the delay; from a normal time the result is normal exactly when the
-- nanosecond fields add up to less than two seconds.
pub set_timer-adds :
    (ns : ℕ) (t : Timespec)
    → IsNormal t
    → (nanos (set_timer ns t) ≡ nanos t + ns)
      × (IsNormal (set_timer ns t) ↔ (t.tv_nsec + ns < 2 * nanos_per_sec))
unfolding set_timer
set_timer-adds ns t n = ground arith

-- So a delay of at most a second keeps the time normal.
pub set_timer-IsNormal :
    (ns : ℕ) (t : Timespec) → IsNormal t → ns ≤ nanos_per_sec → IsNormal (set_timer ns t)
unfolding set_timer
set_timer-IsNormal ns t n h = ground arith
