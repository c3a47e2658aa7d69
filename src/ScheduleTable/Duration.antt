-- ===== src/ScheduleTable/Duration.antt =====
-- The GCD and LCM macros of table_scheduler.c. The preprocessor expands eight levels of Euclid's
-- algorithm, and GCD_last answers whatever it has reached.
pub mod Gcd
pub mod Lcm
mod Examples
use architecture_evolution_f.Prelude.{
  ℕ, zero, suc, ◌+◌, ◌*◌, ◌/◌, ◌%◌, Bool, Option, none, some, ◌==◌, ltb, leb, if◌then◌else◌,
}

abbrev pub int_max : ℕ
int_max = 2147483647

-- `!n`, and a C comparison, as the `int` that it is.
abbrev pub lnot : ℕ → ℕ
lnot n = if n == 0 then 1 else 0

abbrev pub int_of : Bool → ℕ
int_of b = if b then 1 else 0

-- GCD_1 at eight levels, GCD_2 at seven, and so on down to GCD_last.
unfoldable pub gcd_level : ℕ → ℕ → ℕ → ℕ
gcd_level zero a b = a
gcd_level (suc level) a b = lnot b * a + lnot (lnot b) * gcd_level level b (a % (b + lnot b))

-- GCD
unfoldable pub gcd : ℕ → ℕ → ℕ
gcd a b = int_of (leb b a) * gcd_level 8 a b + int_of (ltb a b) * gcd_level 8 b a

-- LCM. A product above INT_MAX and a division by zero are undefined, and are `none`.
unfoldable pub lcm : ℕ → ℕ → Option ℕ
lcm a b =
    if ltb int_max (a * b) then none else if gcd a b == 0 then none else some (a * b / gcd a b)
