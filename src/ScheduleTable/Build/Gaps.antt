-- ===== src/ScheduleTable/Build/Gaps.antt =====
-- No two expiry points of a table over small periods are more than 54 ms apart, since the first member is due at
-- every multiple of its period.
use native.Mathlib.Nat.{add-mod_right, div-add-mod', dvd-mul_left, dvd_iff_mod-eq-zero, mod-lt}
use architecture_evolution_f.Prelude.{
  ℕ, zero, suc, ◌+◌, ◌-◌, ◌*◌, ◌/◌, ◌%◌, ◌<◌, ◌≤◌, ◌≡◌, ap, subst, ◌∙◌, inl, inr, true, false, not,
  ltb, some, List, [], ◌∷◌, All-get_elem?, arith, ◌==◌, Bool-cases, get_elem?, has, is_empty,
  length,
}
use architecture_evolution_f.Task.{TaskStruct}
use architecture_evolution_f.ScheduleTable.{ExpiryPoint, ScheduleTable}
use architecture_evolution_f.ScheduleTable.Timer.Cycle.{
  Ascending, Ascending-next, GapsWithin, IsBuilt, offset_or,
}
use architecture_evolution_f.ScheduleTable.Build.{Groups, build_table, is_due}
use architecture_evolution_f.ScheduleTable.Build.Offsets.{
  build_table-IsBuilt, build_table-IsTabled, build_table-Parts, offset_or-get_elem?,
}
use architecture_evolution_f.ScheduleTable.Build.Due.{
  AllBasic, due, offsets, build_table-Due, build_table-first,
}
use architecture_evolution_f.ScheduleTable.Build.Grouping.{SmallPeriods}
use architecture_evolution_f.ScheduleTable.Build.Periods.{offset-index}
use architecture_evolution_f.ScheduleTable.Build.Total.{get_elem?-lt}

Ascending-add :
    (es : List ExpiryPoint) (i k : ℕ)
    → Ascending es
    → i + k < length es
    → offset_or es i ≤ offset_or es (i + k)
Ascending-add es i zero a h =
    let index : i ≡ i + 0 = omega arith in
    subst (λ j. offset_or es i ≤ offset_or es j) index (omega arith)
Ascending-add es i (suc k) a h =
    let index : i + k + 1 ≡ i + suc k = omega arith in
    subst (λ j. offset_or es i ≤ offset_or es j) index
      (omega
        (arith, Ascending-add es i k a (omega arith), Ascending-next es (i + k) a (omega arith)))

Ascending-le :
    (es : List ExpiryPoint) (i j : ℕ)
    → Ascending es
    → i ≤ j
    → j < length es
    → offset_or es i ≤ offset_or es j
Ascending-le es i j a h l =
    let index : i + (j - i) ≡ j = omega arith in
    subst (λ k. offset_or es i ≤ offset_or es k) index (Ascending-add es i (j - i) a (omega arith))

-- The next multiple of the period.
abbrev next : (period x : ℕ) → ℕ
next period x = x / period * period + period

next-within : (period x : ℕ) → 0 < period → (x < next period x) × (next period x ≤ x + period)
next-within period x h =
    let whole = div-add-mod' x period in
    let rest = mod-lt x h in (omega (arith, whole, rest), omega (arith, whole, rest))

next-is_due : (period x : ℕ) → is_due (next period x) period ≡ true
next-is_due period x =
    let whole : (x / period * period) % period ≡ 0 =
      (dvd_iff_mod-eq-zero period).0 (dvd-mul_left period (x / period)) in
    ap (λ r. r == 0) (add-mod_right (x / period * period) period ∙ whole)

first_due :
    (tasks : List TaskStruct) (ms : List ℕ) (leader y : ℕ) (task : TaskStruct)
    → get_elem? ms 0 ≡ some leader
    → get_elem? tasks leader ≡ some task
    → is_due y task.period ≡ true
    → is_empty (due tasks y ms) ≡ false
unfolding due
first_due tasks [] leader y task e e' d = cc
first_due tasks (m ∷ ms) leader y task e e' d = ground arith

module _ (tasks : List TaskStruct) (g : Groups) (i : ℕ) (t : ScheduleTable) (basic : AllBasic tasks)
    (small : SmallPeriods tasks) (built : build_table tasks g i ≡ some t) where
  abbrev is_built : IsBuilt t
  is_built = (build_table-IsBuilt tasks g i t built).0

  -- A time at which a member is due has an expiry point.
  pub due-index :
      (y : ℕ)
      → y < t.duration
      → is_empty (due tasks y (g.members i)) ≡ false
      → (j : ℕ) × (j < t.num_eps) × (offset_or t.eps_array j ≡ y)
  due-index y h d =
      let member : has y (offsets t.eps_array) ≡ true =
        (build_table-Due tasks g i t basic built).0 y h ∙ ap not d in
      let (j, l, at) = offset-index t.eps_array y member in (j, omega (arith, is_built.sized), at)

  pub offset-lt : (j : ℕ) → j < t.num_eps → offset_or t.eps_array j < t.duration
  offset-lt j h =
      let p = build_table-Parts tasks g i t built in
      let (ep, at) = get_elem?-lt t.eps_array j (omega (arith, is_built.sized)) in
      let inside =
        All-get_elem? (λ (x : ExpiryPoint). (0 ≤ x.offset) × (x.offset < 0 + g.duration i))
          t.eps_array j (build_table-IsTabled tasks g i t p).within at in
      omega (arith, inside.1, p.duration, (offset_or-get_elem? t.eps_array j at).0)

  -- Behind an offset there is another at most a period later, or the cycle ends.
  follower :
      (j : ℕ)
      → j < t.num_eps
      → (y : ℕ) × (offset_or t.eps_array j < y)
        × (y ≤ offset_or t.eps_array j + 54)
        × (y < t.duration → (k : ℕ) × (k < t.num_eps) × (offset_or t.eps_array k ≡ y))
  follower j h =
      let p = build_table-Parts tasks g i t built in
      let period =
        All-get_elem? (λ (x : TaskStruct). (0 < x.period) × (x.period < 55)) tasks p.leader small
          p.task_at in
      let y = next p.task.period (offset_or t.eps_array j) in
      let (later, near) = next-within p.task.period (offset_or t.eps_array j) period.0 in
      (
        y,
        later,
        omega (arith, near, period.1),
        λ l. due-index y l (
            first_due tasks (g.members i) p.leader y p.task p.leader_at p.task_at
              (next-is_due p.task.period (offset_or t.eps_array j))),
      )

  ahead :
      (j k : ℕ)
      → j < t.num_eps
      → offset_or t.eps_array j < offset_or t.eps_array k
      → k < t.num_eps
      → j < k
  ahead j k h l h' = elim (Bool-cases (ltb j k)) [
    | inl before ↦ ground arith
    | inr behind ↦
        let down =
          Ascending-le t.eps_array k j is_built.ascending (ground arith)
            (omega (arith, is_built.sized)) in
        absurd (omega arith)
  ]

  inner : (j : ℕ) → j + 1 < t.num_eps → offset_or t.eps_array (j + 1) ≤ offset_or t.eps_array j + 54
  inner j h =
      let (y, later, near, point) = follower j (omega arith) in
      elim (Bool-cases (ltb y t.duration)) [
        | inl within ↦
            let (k, l, at) = point (ground arith) in
            let beyond = ahead j k (omega arith) (omega arith) l in
            omega (
              arith,
              Ascending-le t.eps_array (j + 1) k is_built.ascending (omega arith)
                  (omega (arith, is_built.sized)),
            )
        | inr outside ↦
            let over : t.duration ≤ y = ground arith in omega (arith, offset-lt (j + 1) h)
      ]

  outer : t.final_delay + t.initial_offset ≤ 54
  outer =
      let (y, later, near, point) = follower (t.num_eps - 1) (omega (arith, is_built.index)) in
      elim (Bool-cases (ltb y t.duration)) [
        | inl within ↦
            let (k, l, at) = point (ground arith) in
            let beyond = ahead (t.num_eps - 1) k (omega (arith, is_built.index)) (omega arith) l in
            absurd (omega arith)
        | inr outside ↦
            let over : t.duration ≤ y = ground arith in
            omega (arith, is_built.last, build_table-first tasks g i t basic built)
      ]

  pub build_table-GapsWithin : GapsWithin 54 t
  build_table-GapsWithin = record { inner = inner; outer = outer }
