-- ===== src/ScheduleTable/Duration/Examples.antt =====
-- The macros at concrete operands.
use architecture_evolution_f.Prelude.{ℕ, ◌≡◌, refl, some, ◌<◌, ◌≤◌, inl, inr, arith}
use architecture_evolution_f.ScheduleTable.Duration.{gcd, gcd_level, lcm, int_max}
use architecture_evolution_f.ScheduleTable.Duration.Gcd.{IsGcd, gcd-IsGcd}
use architecture_evolution_f.ScheduleTable.Duration.Lcm.{IsLcm, lcm-IsLcm}

greatest_of_1000 : IsGcd 1000 54 (gcd 1000 54)
greatest_of_1000 = gcd-IsGcd 1000 54 (inr (omega arith))

small_lcm : (m : ℕ) × (lcm 20 50 ≡ some m) × IsLcm 20 50 m × (0 < m) × (m ≤ int_max)
small_lcm = lcm-IsLcm 20 50 (omega arith) (omega arith) (inl (omega arith)) (omega arith)

-- 89 and 55 have no common divisor, and eight levels of the algorithm do not find that out.
gcd_too_deep : gcd 89 55 ≡ 2
unfolding gcd gcd_level
gcd_too_deep = refl

lcm_too_deep : lcm 89 55 ≡ some 2447
unfolding lcm gcd gcd_level
lcm_too_deep = refl
