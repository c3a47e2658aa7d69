-- ===== src/ScheduleTable/Duration/Gcd.antt =====
-- For which operands eight levels are enough, and that GCD is then the greatest common divisor.
use native.Mathlib.Nat.{
  dvd_refl, dvd-zero, dvd-mod_iff, dvd-add_iff_right, dvd-mul_right_of_dvd, div-add-mod, mod-le,
  mod-lt, mod-eq-sub-mod, add-zero, mod-one,
}
use architecture_evolution_f.Prelude.{
  ℕ, zero, suc, ◌+◌, ◌-◌, ◌*◌, ◌/◌, ◌%◌, ◌≤◌, ◌<◌, ◌≡◌, refl, sym, ap, subst, ◌∙◌, ◌⊎◌, inl, inr,
  false, arith, Bool-cases, ltb→lt, ◌==◌, ltb, leb,
}
use Prim.Native.Nat.{◌∣◌}
use architecture_evolution_f.ScheduleTable.Duration.{gcd_level, gcd}

-- `g` divides both, and whatever divides a common multiple of both divides that multiple of `g`:
-- the common divisors at `c = 1`.
pub record IsGcd (a b g : ℕ) : Type 0 where
  pub left : g ∣ a
  pub right : g ∣ b
  pub greatest : (c d : ℕ) → d ∣ c * a → d ∣ c * b → d ∣ c * g

IsGcd-zero : (a : ℕ) → IsGcd a 0 a
IsGcd-zero a = record { left = dvd_refl a; right = dvd-zero a; greatest = λ c d p q. p }

IsGcd-mod : (a b g : ℕ) → 0 < b → IsGcd b (a % b) g → IsGcd a b g
IsGcd-mod a b g h i = record {
  left = (dvd-mod_iff g i.left).0 i.right;
  right = i.left;
  greatest = λ c d p q. i.greatest c d q (remainder c d p q);
}
  where
    parts : (c : ℕ) → c * a ≡ c * b * (a / b) + c * (a % b)
    parts c = ap (λ t. c * t) (sym (div-add-mod a b)) ∙ grind arith

    remainder : (c d : ℕ) → d ∣ c * a → d ∣ c * b → d ∣ c * (a % b)
    remainder c d p q =
        (dvd-add_iff_right d (dvd-mul_right_of_dvd d q (a / b))).1 (subst (λ t. d ∣ t) (parts c) p)

-- A remainder by a large `r` is small.
remainder_small : (b r m n : ℕ) → r < suc b → m ≤ r → 0 < m → suc b < m + n → suc b % r < n
remainder_small b r m n h k l j =
    omega (arith, mod-eq-sub-mod {n = suc b} {m = r} (omega arith), mod-le (suc b - r) r)

-- The bound on the smaller operand for which `level` levels reach the end: 1, 2, 3, 5, 8, …
unfoldable pub limit : ℕ → ℕ
limit zero = 1
limit (suc zero) = 2
limit (suc (suc level)) = limit (suc level) + limit level

gcd_level-zero : (level a : ℕ) → gcd_level level a 0 ≡ a
unfolding gcd_level
gcd_level-zero zero a = refl
gcd_level-zero (suc level) a = omega arith

gcd_level-suc : (level a b : ℕ) → 0 < b → gcd_level (suc level) a b ≡ gcd_level level b (a % b)
unfolding gcd_level
gcd_level-suc level a b h = rw (pos_test, add-zero b) (omega arith)
  where
    pos_test : (b == 0) ≡ false
    pos_test = ground arith

limit-pos : (level : ℕ) → 0 < limit level
unfolding limit
limit-pos zero = omega arith
limit-pos (suc zero) = omega arith
limit-pos (suc (suc level)) = omega (arith, limit-pos level)

-- One round: with a positive second operand it is enough to look at the remainder.
IsGcd-suc :
    (level a b : ℕ)
    → 0 < b
    → IsGcd b (a % b) (gcd_level level b (a % b))
    → IsGcd a b (gcd_level (suc level) a b)
IsGcd-suc level a b h i = subst (IsGcd a b) (sym (gcd_level-suc level a b h)) (IsGcd-mod a b _ h i)

IsGcd-level-zero : (level a : ℕ) → IsGcd a 0 (gcd_level level a 0)
IsGcd-level-zero level a = subst (IsGcd a 0) (sym (gcd_level-zero level a)) (IsGcd-zero a)

-- With `level` levels the answer is the greatest common divisor if the second operand is below the
-- bound.
gcd_level-IsGcd : (level a b : ℕ) → b < limit level → IsGcd a b (gcd_level level a b)
unfolding limit
gcd_level-IsGcd level a zero h = IsGcd-level-zero level a
gcd_level-IsGcd zero a (suc b) h = absurd (omega arith)
gcd_level-IsGcd (suc zero) a (suc b) h =
    IsGcd-suc 0 a (suc b) (omega arith) (rw remainder (IsGcd-level-zero 0 (suc b)))
  where
    remainder : a % suc b ≡ 0
    remainder = let e : b ≡ 0 = omega arith in rw e (mod-one a)
gcd_level-IsGcd (suc (suc level)) a (suc b) h =
    IsGcd-suc (suc level) a (suc b) (omega arith)
      (elim (Bool-cases (ltb (a % suc b) (limit (suc level)))) [
        | inl small ↦ gcd_level-IsGcd (suc level) (suc b) (a % suc b) (ltb→lt _ _ small)
        | inr big ↦
            let r = a % suc b in
            IsGcd-suc level (suc b) r (ground (arith, limit-pos (suc level))) (
              gcd_level-IsGcd level r (suc b % r) (
                remainder_small b r (limit (suc level)) (limit level) (mod-lt a (omega arith))
                  (ground arith) (limit-pos (suc level)) h))
      ])

limit_eight : limit 8 ≡ 55
unfolding limit
limit_eight = refl

swap_IsGcd : {a b g : ℕ} → IsGcd a b g → IsGcd b a g
swap_IsGcd i = record { left = i.right; right = i.left; greatest = λ c d p q. i.greatest c d q p }

-- If one of the operands is below 55, GCD is the greatest common divisor: eight levels reach the
-- end of Euclid's algorithm, whichever operand is the larger.
pub gcd-IsGcd : (a b : ℕ) → (a < 55) ⊎ (b < 55) → IsGcd a b (gcd a b)
unfolding gcd
gcd-IsGcd a b h = elim (Bool-cases (leb b a)) [
  | inl down ↦
      subst (IsGcd a b) (ground arith) (gcd_level-IsGcd 8 a b (ground (arith, limit_eight)))
  | inr up ↦
      subst (IsGcd a b) (ground arith)
        (swap_IsGcd (gcd_level-IsGcd 8 b a (ground (arith, limit_eight))))
]
