-- ===== src/ScheduleTable/Build/Due.antt =====
-- Which times are expiry points of a table, and which tasks each of them activates.
use mathlib.Core.List.{reverse, reverse_aux}
use architecture_evolution_f.Prelude.{
  >>=-eq-some, ℕ, zero, suc, ◌+◌, ◌<◌, ◌≤◌, ◌≡◌, refl, sym, ap, subst, ◌∙◌, inl, inr, Bool, true,
  false, not, ◌&&◌, Option, none, some, List, [], ◌∷◌, map, All, All-mono, All-get_elem?, arith,
  ◌==◌, Bool-cases, get_elem?, has, is_empty, if◌then◌else◌,
}
use architecture_evolution_f.Task.{TaskStruct}
use architecture_evolution_f.ScheduleTable.{ExpiryPoint, ScheduleTable}
use architecture_evolution_f.ScheduleTable.Timer.Cycle.{Ascending, offset_or}
use native.Mathlib.Nat.{zero-mod}
use architecture_evolution_f.ScheduleTable.Build.{
  Groups, Slot, empty_slot, Filling, open_slot, link_info, put, put_all, hash_table, collect,
  build_table, is_due, is_basic, is_extended,
}
use architecture_evolution_f.ScheduleTable.Build.Offsets.{
  hash_table-Round, hash_table-IsTabled, put_all-IsFilled, build_table-Parts, build_table-IsTabled,
  build_table-IsBuilt,
}

-- Is the task of the index there, and does its period divide the time?
abbrev pub due_now : List TaskStruct → (time task : ℕ) → Bool
due_now tasks time task = elim (get_elem? tasks task) [
  | none ↦ false
  | some t ↦ is_due time t.period
]

-- The members that are due at the time, in order.
unfoldable pub due : List TaskStruct → (time : ℕ) → List ℕ → List ℕ
due tasks time [] = []
due tasks time (m ∷ ms) = if due_now tasks time m then m ∷ due tasks time ms else due tasks time ms

abbrev pub AllBasic : List TaskStruct → Type 0
AllBasic = All (λ t. is_basic t.task_type ≡ true)

abbrev is_none : Option ℕ → Bool
is_none none = true
is_none (some _) = false

basic-not-extended :
    (t : TaskStruct) → is_basic t.task_type ≡ true → is_extended t.task_type ≡ false
basic-not-extended t h = ground arith

-- What a run of the inner loop makes of a bucket.
abbrev Filled : List TaskStruct → ℕ → List ℕ → Filling → Filling → Type 0
Filled tasks time ms f f' =
    (f'.slot.tasks ≡ reverse_aux (due tasks time ms) f.slot.tasks)
    × (f'.slot.event_tasks ≡ f.slot.event_tasks)
    × (is_none f'.slot.offset ≡ (is_none f.slot.offset && is_empty (due tasks time ms)))

module _ (tasks : List TaskStruct) (time m : ℕ) (ms : List ℕ) (f f₁ f' : Filling) where
  Filled-cons :
      Filled tasks time (m ∷ []) f f₁ → Filled tasks time ms f₁ f' → Filled tasks time (m ∷ ms) f f'
  unfolding due
  Filled-cons (a, b, c) (a', b', c') = elim (Bool-cases (due_now tasks time m)) [
    | inl now ↦ rw now (
      a' ∙ ap (reverse_aux (due tasks time ms)) (rw now at a),
      b' ∙ b,
      ground (arith, rw now at c),
    )
    | inr later ↦ rw later (
      a' ∙ ap (reverse_aux (due tasks time ms)) (rw later at a),
      b' ∙ b,
      ground (arith, rw later at c),
    )
  ]

module _ (tasks : List TaskStruct) (basic : AllBasic tasks) (i time : ℕ) where
  put-Filled :
      (m : ℕ) (f f' : Filling) → put tasks i time m f ≡ some f' → Filled tasks time (m ∷ []) f f'
  unfolding put open_slot link_info due
  put-Filled m f f' e =
      let (own, e₁, f₁) = >>=-eq-some (get_elem? tasks m) _ e in
      let own_basic =
        All-get_elem? (λ (t : TaskStruct). is_basic t.task_type ≡ true) tasks m basic e₁ in
      elim (Bool-cases (is_due time own.period)) [
        | inl now ↦
            let (at_table, e₂, f₂) = >>=-eq-some (get_elem? tasks i) _ (rw now at f₁) in
            let plain =
              basic-not-extended at_table (
                All-get_elem? (λ (t : TaskStruct). is_basic t.task_type ≡ true) tasks i basic e₂) in
            ground (arith, own_basic, plain, f₂)
        | inr later ↦ ground (arith, rw later at f₁)
      ]

  put_all-Filled :
      (ms : List ℕ) (f f' : Filling)
      → put_all tasks i time ms f ≡ some f'
      → Filled tasks time ms f f'
  unfolding put_all due
  put_all-Filled [] f f' e = ground arith
  put_all-Filled (m ∷ ms) f f' e =
      let (f₁, e₁, e₂) = >>=-eq-some (put tasks i time m f) (put_all tasks i time ms) e in
      Filled-cons tasks time m ms f f₁ f' (put-Filled m f f₁ e₁) (put_all-Filled ms f₁ f' e₂)

abbrev pub offsets : List ExpiryPoint → List ℕ
offsets = map λ e. e.offset

-- What an expiry point activates.
abbrev pub Activates : List TaskStruct → List ℕ → ExpiryPoint → Type 0
Activates tasks ms e = (e.tasks ≡ reverse (due tasks e.offset ms)) × (e.event_tasks ≡ [])

abbrev Complete : List TaskStruct → List ℕ → (k time : ℕ) → List ExpiryPoint → Type 0
Complete tasks ms k time eps =
    (s : ℕ) → time ≤ s → s < time + k → has s (offsets eps) ≡ not (is_empty (due tasks s ms))

not-mem_of_later :
    (time : ℕ) (es : List ExpiryPoint)
    → All (λ e. time < e.offset) es
    → has time (offsets es) ≡ false
not-mem_of_later time [] a = refl
not-mem_of_later time (e ∷ es) a = ground (arith, not-mem_of_later time es a.1)

-- The tables from `time` on are complete, and each expiry point activates the members that are due.
module _ (tasks : List TaskStruct) (basic : AllBasic tasks) (i : ℕ) (ms : List ℕ) where
  abbrev Covers : (k time : ℕ) → List Slot → Type 0
  Covers k time slots =
      All (Activates tasks ms) (collect slots) × Complete tasks ms k time (collect slots)

  module _ (k time : ℕ) (f : Filling) (rest : List Slot) (n : ℕ)
      (filled : Filled tasks time ms (record { slot = empty_slot; num_eps = n }) f)
      (behind : All (λ e. time < e.offset) (collect rest)) (c : Covers k (time + 1) rest) where
    -- A later time is covered by the rest.
    beyond :
        (s : ℕ)
        → time ≤ s
        → s < time + suc k
        → (s == time) ≡ false
        → has s (offsets (collect rest)) ≡ not (is_empty (due tasks s ms))
    beyond s lo hi ne = c.1 s (ground arith) (omega arith)

    Covers-later : f.slot.offset ≡ none → Covers (suc k) time (f.slot ∷ rest)
    unfolding collect
    Covers-later e =
        let none_due : is_empty (due tasks time ms) ≡ true = ground (arith, filled.2, e) in
        rw e (
          c.0,
          λ s lo hi. elim (Bool-cases (s == time)) [
            | inl here ↦
                let same : s ≡ time = ground arith in
                rw (same, none_due) (not-mem_of_later time (collect rest) behind)
            | inr there ↦ beyond s lo hi there
          ],
        )

    Covers-cons : f.slot.offset ≡ some time → Covers (suc k) time (f.slot ∷ rest)
    unfolding collect
    Covers-cons e =
        let some_due : is_empty (due tasks time ms) ≡ false = ground (arith, filled.2, e) in
        rw e (
          ((filled.0, filled.1), c.0),
          λ s lo hi. elim (Bool-cases (s == time)) [
            | inl here ↦ let same : s ≡ time = ground arith in rw (here, same, some_due) refl
            | inr there ↦ rw there (beyond s lo hi there)
          ],
        )

  hash_table-Covers :
      (k time n : ℕ) (slots : List Slot) (count : ℕ)
      → hash_table tasks i ms k time n ≡ some (slots, count)
      → Covers k time slots
  unfolding collect hash_table
  hash_table-Covers zero time n [] count e = (tt, λ s lo hi. absurd (omega arith))
  hash_table-Covers zero time n (s ∷ ss) count e = cc
  hash_table-Covers (suc k) time n slots count e =
      let r = hash_table-Round tasks i ms k time n slots count e in
      let t = hash_table-IsTabled tasks i ms k (time + 1) r.f.num_eps r.rest count r.later in
      let c = hash_table-Covers k (time + 1) r.f.num_eps r.rest count r.later in
      let f = put_all-Filled tasks basic i time ms _ r.f r.filled in
      let behind = All-mono (collect r.rest) (λ x h. omega arith) t.within in
      subst (Covers (suc k) time) r.whole
        (elim (put_all-IsFilled tasks i time n ms _ r.f (inl (refl, refl)) r.filled) [
          | inl (e, _) ↦ Covers-later k time r.f r.rest n f behind c e
          | inr (e, _) ↦ Covers-cons k time r.f r.rest n f behind c e
        ])

-- A table over basic tasks has an expiry point at a time within its duration exactly when the
-- period of one of its members divides the time. Each expiry point activates the members whose
-- period divides its offset, each once, the last first, and no event task.
pub build_table-Due :
    (tasks : List TaskStruct) (g : Groups) (i : ℕ) (t : ScheduleTable)
    → AllBasic tasks
    → build_table tasks g i ≡ some t
    → ((s : ℕ)
        → s < t.duration
        → has s (offsets t.eps_array) ≡ not (is_empty (due tasks s (g.members i))))
      × All (Activates tasks (g.members i)) t.eps_array
build_table-Due tasks g i t basic e =
    let p = build_table-Parts tasks g i t e in
    let c =
      hash_table-Covers tasks basic i (g.members i) (g.duration i) 0 0 p.slots t.num_eps p.hashed in
    rw (p.eps, p.duration) (λ s h. c.1 s (omega arith) (omega arith), c.0)

least_of-mem :
    (es : List ExpiryPoint) → Ascending es → has 0 (offsets es) ≡ true → offset_or es 0 ≡ 0
least_of-mem [] a h = refl
least_of-mem (e ∷ es) a h = ground (arith, none_at_zero es)
  where
    none_at_zero :
        (es : List ExpiryPoint) → All (λ f. e.offset < f.offset) es → has 0 (offsets es) ≡ false
    none_at_zero [] b = refl
    none_at_zero (f ∷ fs) b = ground (arith, none_at_zero fs b.1)

leader_due :
    (tasks : List TaskStruct) (ms : List ℕ) (leader : ℕ) (task : TaskStruct)
    → get_elem? ms 0 ≡ some leader
    → get_elem? tasks leader ≡ some task
    → is_empty (due tasks 0 ms) ≡ false
unfolding due
leader_due tasks [] leader task e e' = cc
leader_due tasks (m ∷ ms) leader task e e' = ground (arith, zero-mod task.period)

-- The first expiry point of a table over basic tasks is at 0, where its first member is due.
pub build_table-first :
    (tasks : List TaskStruct) (g : Groups) (i : ℕ) (t : ScheduleTable)
    → AllBasic tasks
    → build_table tasks g i ≡ some t
    → t.initial_offset ≡ 0
build_table-first tasks g i t basic e =
    let p = build_table-Parts tasks g i t e in
    let b = (build_table-IsBuilt tasks g i t e).0 in
    let h = build_table-IsTabled tasks g i t p in
    let inside =
      All-get_elem? (λ (x : ExpiryPoint). (0 ≤ x.offset) × (x.offset < 0 + g.duration i))
        t.eps_array 0 h.within p.first_at in
    let at_zero = (build_table-Due tasks g i t basic e).0 0 (omega (arith, inside.1, p.duration)) in
    let member : has 0 (offsets t.eps_array) ≡ true =
      at_zero ∙ ap not (leader_due tasks (g.members i) p.leader p.task p.leader_at p.task_at) in
    sym b.first ∙ least_of-mem t.eps_array b.ascending member
