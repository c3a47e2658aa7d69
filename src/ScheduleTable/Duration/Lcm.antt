-- ===== src/ScheduleTable/Duration/Lcm.antt =====
-- What LCM answers, and the durations that folding it over the periods of a table gives.
use native.Mathlib.Nat.{
  dvd-mul_right, dvd-mul_right_of_dvd, mul-div_assoc, mul_comm, mul-dvd-mul_left, mul-dvd-mul_right,
  dvd_of_mul-dvd-mul_right, div-mul_cancel, eq-zero_of_zero-dvd, div-le_self,
}
use Prim.Native.Nat.{◌∣◌}
use architecture_evolution_f.Prelude.{
  ℕ, zero, suc, ◌*◌, ◌/◌, ◌≤◌, ◌<◌, ◌≡◌, sym, ap, subst, ◌∙◌, ◌⊎◌, inl, inr, true, none, some,
  arith, Bool-cases, ltb, ltb→lt,
}
use architecture_evolution_f.ScheduleTable.Duration.{gcd, lcm, int_max}
use architecture_evolution_f.ScheduleTable.Duration.Gcd.{IsGcd, gcd-IsGcd}

-- `m` is the least common multiple.
pub record IsLcm (a b m : ℕ) : Type 0 where
  pub left : a ∣ m
  pub right : b ∣ m
  pub least : (c : ℕ) → a ∣ c → b ∣ c → m ∣ c

IsGcd-pos : {a b g : ℕ} → 0 < a → IsGcd a b g → 0 < g
IsGcd-pos {a} {b} {g = zero} h i = absurd (omega (arith, eq-zero_of_zero-dvd i.left))
IsGcd-pos {g = suc g} h i = omega arith

IsGcd-IsLcm : (a b g : ℕ) → 0 < a → IsGcd a b g → IsLcm a b (a * b / g)
IsGcd-IsLcm a b g h i = record {
  left = subst (λ t. a ∣ t) (sym by_b) (dvd-mul_right a (b / g));
  right = subst (λ t. b ∣ t) (sym by_a) (dvd-mul_right b (a / g));
  least = λ c p q. dvd_of_mul-dvd-mul_right (a * b / g) (IsGcd-pos h i) (
      subst (λ t. t ∣ c * g) (sym (div-mul_cancel g whole))
        (i.greatest c (a * b) (subst (λ t. a * b ∣ t) (mul_comm a c) (mul-dvd-mul_left b a q))
          (mul-dvd-mul_right a p b)));
}
  where
    by_b : a * b / g ≡ a * (b / g)
    by_b = mul-div_assoc g a i.right

    by_a : a * b / g ≡ b * (a / g)
    by_a = ap (λ t. t / g) (mul_comm a b) ∙ mul-div_assoc g b i.left

    whole : g ∣ a * b
    whole = dvd-mul_right_of_dvd g i.left b

lcm_runs : (a b : ℕ) → 0 < gcd a b → a * b ≤ int_max → lcm a b ≡ some (a * b / gcd a b)
unfolding lcm
lcm_runs a b p h = ground arith

-- A product that does not fit is undefined.
pub lcm-overflow : (a b : ℕ) → ltb int_max (a * b) ≡ true → lcm a b ≡ none
unfolding lcm
lcm-overflow a b h = rw h

lcm_pos : (a b g : ℕ) → 0 < a → 0 < b → g ∣ a → 0 < a * b / g
lcm_pos a b g ha hb d = elim (Bool-cases (ltb 0 (a * b / g))) [
  | inl some_pos ↦ ltb→lt _ _ some_pos
  | inr no_pos ↦
      let empty : a * b / g ≡ 0 = ground arith in
      let whole : a * b / g * g ≡ a * b = div-mul_cancel g (dvd-mul_right_of_dvd g d b) in
      absurd (grind (arith, rw empty at whole))
]

-- For positive operands one of which is below 55 and whose product fits an `int`, LCM is the least
-- common multiple, positive and itself an `int`.
pub lcm-IsLcm :
    (a b : ℕ)
    → 0 < a
    → 0 < b
    → (a < 55) ⊎ (b < 55)
    → a * b ≤ int_max
    → (m : ℕ) × (lcm a b ≡ some m) × IsLcm a b m × (0 < m) × (m ≤ int_max)
lcm-IsLcm a b ha hb h fits =
    let i = gcd-IsGcd a b h in
    (
      a * b / gcd a b,
      lcm_runs a b (IsGcd-pos ha i) fits,
      IsGcd-IsLcm a b (gcd a b) ha i,
      lcm_pos a b (gcd a b) ha hb i.left,
      omega (arith, div-le_self (a * b) (gcd a b)),
    )
