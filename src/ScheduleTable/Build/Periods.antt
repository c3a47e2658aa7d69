-- ===== src/ScheduleTable/Build/Periods.antt =====
-- The tasks that are due repeat from cycle to cycle, and every time at which one is due has an expiry point.
use Prim.Native.Nat.{◌∣◌}
use native.Mathlib.Nat.{
  add-mod, dvd-mul_left_of_dvd, dvd_iff_mod-eq-zero, dvd_refl, mod-mod, mul-add-div_right,
  mul-add-mod_self_right, mod-eq_of_lt, div-eq_of_lt,
}
use architecture_evolution_f.Prelude.{
  ℕ, suc, ◌+◌, ◌*◌, ◌/◌, ◌%◌, ◌<◌, ◌≡◌, refl, ap, subst, ◌∙◌, inl, inr, true, some, List, [], ◌∷◌,
  All, arith, ◌==◌, Bool-cases, Option-cases, get_elem?, has, length,
}
use architecture_evolution_f.Task.{TaskStruct}
use architecture_evolution_f.ScheduleTable.{ExpiryPoint}
use architecture_evolution_f.ScheduleTable.Timer.Cycle.{offset_or}
use architecture_evolution_f.ScheduleTable.Build.{Groups, group, no_groups}
use architecture_evolution_f.ScheduleTable.Build.Due.{due, due_now, offsets}
use architecture_evolution_f.ScheduleTable.Build.Grouping.{
  SmallPeriods, indices, IsMultiple, group_lem,
}

-- The period of the task `m` divides `d`.
abbrev pub Divides : List TaskStruct → (d m : ℕ) → Type 0
Divides tasks d m = (own : TaskStruct) → get_elem? tasks m ≡ some own → own.period ∣ d

-- `ts` are the tasks from `k` on.
indices-Divides :
    (tasks ts : List TaskStruct) (i k c : ℕ)
    → ((j : ℕ) → get_elem? tasks (k + j) ≡ get_elem? ts j)
    → IsMultiple i c ts
    → All (Divides tasks c) (indices i k ts)
unfolding indices
indices-Divides tasks [] i k c h a = tt
indices-Divides tasks (t ∷ ts) i k c h a =
    let shift : (j : ℕ) → get_elem? tasks (k + 1 + j) ≡ get_elem? ts j = λ j.
      let index : k + 1 + j ≡ k + suc j = omega arith in ap (get_elem? tasks) index ∙ h (suc j) in
    let rest = indices-Divides tasks ts i (k + 1) c shift a.1 in
    elim (Bool-cases (t.table_id == i)) [
      | inl mine ↦
          let own_divides : Divides tasks c k = λ own e.
            let index : k + 0 ≡ k = omega arith in
            let same : t ≡ own = let at = h 0 in cc (rw index at at, e) in
            subst (λ (x : TaskStruct). x.period ∣ c) same (a.0 (ground arith)) in
          rw mine (own_divides, rest)
      | inr other ↦ rw other rest
    ]

-- The periods of the members of a table divide its duration.
pub members-Divides :
    (tasks : List TaskStruct) (g : Groups) (i : ℕ)
    → SmallPeriods tasks
    → group tasks 0 no_groups ≡ some g
    → All (Divides tasks (g.duration i)) (g.members i)
members-Divides tasks g i s e =
    let (members, positive, least) = group_lem tasks g s e i in
    rw members (
      indices-Divides tasks tasks i 0 (g.duration i) (λ j. ap (get_elem? tasks) (omega arith))
        ((least (g.duration i)).0 (dvd_refl (g.duration i))))

mod-cycle : (p d w o : ℕ) → p ∣ d → (w * d + o) % p ≡ o % p
mod-cycle p d w o h =
    let whole : (w * d) % p ≡ 0 = (dvd_iff_mod-eq-zero p).0 (dvd-mul_left_of_dvd p h w) in
    add-mod (w * d) o p
    ∙ (ap (λ r. (r + o % p) % p) whole ∙ (ap (λ r. r % p) (omega arith) ∙ mod-mod o p))

due_now-cycle :
    (tasks : List TaskStruct) (d w o m : ℕ)
    → Divides tasks d m
    → due_now tasks (w * d + o) m ≡ due_now tasks o m
due_now-cycle tasks d w o m h = elim (Option-cases (get_elem? tasks m)) [
  | inl missing ↦ rw (due_now, missing) refl
  | inr (own, there) ↦
      rw (due_now, there) (ap (λ r. r == 0) (mod-cycle own.period d w o (h own there)))
]

-- What is due in a cycle is due in every other at the same offset.
pub due-cycle :
    (tasks : List TaskStruct) (d w o : ℕ) (ms : List ℕ)
    → All (Divides tasks d) ms
    → due tasks (w * d + o) ms ≡ due tasks o ms
unfolding due
due-cycle tasks d w o [] a = refl
due-cycle tasks d w o (m ∷ ms) a =
    rw (due_now-cycle tasks d w o m a.0, due-cycle tasks d w o ms a.1) refl

-- The index of an offset.
pub offset-index :
    (es : List ExpiryPoint) (s : ℕ)
    → has s (offsets es) ≡ true
    → (i : ℕ) × (i < length es) × (offset_or es i ≡ s)
offset-index [] s h = cc
offset-index (e ∷ es) s h = elim (Bool-cases (s == e.offset)) [
  | inl here ↦ (0, omega arith, ground arith)
  | inr there ↦ let (i, l, at) = offset-index es s (rw there at h) in (suc i, omega arith, at)
]

-- A number is divided into cycles in one way.
pub cycle-parts : (m w i : ℕ) → i < m → ((w * m + i) / m ≡ w) × ((w * m + i) % m ≡ i)
cycle-parts m w i l = (
  mul-add-div_right (omega arith) w i ∙ rw (div-eq_of_lt l) (omega arith),
  mul-add-mod_self_right w m i ∙ mod-eq_of_lt l,
)
