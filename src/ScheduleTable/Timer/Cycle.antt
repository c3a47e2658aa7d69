-- ===== src/ScheduleTable/Timer/Cycle.antt =====
-- A built table runs through its expiry points in order, each at its time.
use native.Mathlib.Nat.{mod-eq_of_lt, mod_self}
use native.Mathlib.Numerals.{add-one}
use architecture_evolution_f.Prelude.{
  ℕ, zero, suc, ◌+◌, ◌-◌, ◌*◌, ◌%◌, ◌<◌, ◌≤◌, ◌≡◌, ◌⊎◌, refl, ap, inl, inr, false, some, List, [],
  ◌∷◌, All, arith, ◌==◌, ltb, lt→ltb, length, if◌then◌else◌,
}
use architecture_evolution_f.ScheduleTable.{periodic, ExpiryPoint, ScheduleTable}
use architecture_evolution_f.ScheduleTable.Duration.{int_max}
use architecture_evolution_f.ScheduleTable.Timer.{
  ms_to_ns, set_timer, offset_at, next_time, update_timer,
}

-- The offset of an expiry point, 0 out of bounds.
abbrev pub offset_or : List ExpiryPoint → ℕ → ℕ
offset_or [] i = 0
offset_or (e ∷ es) zero = e.offset
offset_or (e ∷ es) (suc i) = offset_or es i

abbrev pub Ascending : List ExpiryPoint → Type 0
Ascending [] = Unit {0}
Ascending (e ∷ es) = All (λ f. e.offset < f.offset) es × Ascending es

-- What table_scheduler_init leaves: the offsets ascend within the duration, and the fields that
-- repeat what the array says agree with it.
pub record IsBuilt (t : ScheduleTable) : Type 0 where
  pub sized : length t.eps_array ≡ t.num_eps
  pub index : t.next_ep_index < t.num_eps
  pub ascending : Ascending t.eps_array
  pub first : offset_or t.eps_array 0 ≡ t.initial_offset
  pub last : t.final_delay + offset_or t.eps_array (t.num_eps - 1) ≡ t.duration

-- No two expiry points that follow one another, round the end too, are more than `bound` apart.
pub record GapsWithin (bound : ℕ) (t : ScheduleTable) : Type 0 where
  pub inner :
      (i : ℕ) → i + 1 < t.num_eps → offset_or t.eps_array (i + 1) ≤ offset_or t.eps_array i + bound
  pub outer : t.final_delay + t.initial_offset ≤ bound

pub offset_at-some :
    (es : List ExpiryPoint) (i : ℕ) → i < length es → offset_at es i ≡ some (offset_or es i)
unfolding offset_at
offset_at-some [] i h = elim h [ ]
offset_at-some (e ∷ es) zero h = refl
offset_at-some (e ∷ es) (suc i) h = offset_at-some es i (omega arith)

first_lt :
    (e : ExpiryPoint) (es : List ExpiryPoint)
    → All (λ f. e.offset < f.offset) es
    → 0 < length es
    → e.offset < offset_or es 0
first_lt e [] a h = elim h [ ]
first_lt e (f ∷ es) a h = a.0

Ascending-suc :
    (es : List ExpiryPoint) (i : ℕ)
    → Ascending es
    → suc i < length es
    → offset_or es i < offset_or es (suc i)
Ascending-suc [] i a h = elim h [ ]
Ascending-suc (e ∷ es) zero a h = first_lt e es a.0 (omega arith)
Ascending-suc (e ∷ es) (suc i) a h = Ascending-suc es i a.1 (omega arith)

pub Ascending-next :
    (es : List ExpiryPoint) (i : ℕ)
    → Ascending es
    → i + 1 < length es
    → offset_or es i < offset_or es (i + 1)
Ascending-next es i a h = rw (add-one i) (Ascending-suc es i a (omega arith))

-- The milliseconds from the expiry point at the index to the one behind it.
abbrev pub gap : ScheduleTable → ℕ
gap t =
    if ltb (t.next_ep_index + 1) t.num_eps
    then offset_or t.eps_array (t.next_ep_index + 1) - offset_or t.eps_array t.next_ep_index
    else t.final_delay + t.initial_offset

abbrev pub next_index : ScheduleTable → ℕ
next_index t = (t.next_ep_index + 1) % t.num_eps

pub next_index_inner :
    (t : ScheduleTable) → t.next_ep_index + 1 < t.num_eps → next_index t ≡ t.next_ep_index + 1
next_index_inner t h = mod-eq_of_lt h

pub next_index_outer : (t : ScheduleTable) → t.next_ep_index + 1 ≡ t.num_eps → next_index t ≡ 0
next_index_outer t e = rw e (mod_self t.num_eps)

-- The two cases of an index within bounds.
pub index-cases :
    (t : ScheduleTable)
    → IsBuilt t
    → (t.next_ep_index + 1 < t.num_eps) ⊎ (t.next_ep_index + 1 ≡ t.num_eps)
index-cases t b = omega (arith, b.index)

pub next_time-inner :
    (t : ScheduleTable)
    → IsBuilt t
    → t.next_ep_index + 1 < t.num_eps
    → next_time t t.next_ep_index (t.next_ep_index + 1)
      ≡ some (offset_or t.eps_array (t.next_ep_index + 1) - offset_or t.eps_array t.next_ep_index)
unfolding next_time
next_time-inner t b h =
    rw
      (
        lt→ltb t.next_ep_index (t.next_ep_index + 1) (omega arith),
        offset_at-some t.eps_array (t.next_ep_index + 1) (omega (arith, b.sized)),
        offset_at-some t.eps_array t.next_ep_index (omega (arith, b.sized)),
      )
      (ground (arith, Ascending-next t.eps_array t.next_ep_index b.ascending))

next_time-outer :
    (t : ScheduleTable)
    → t.next_ep_index + 1 ≡ t.num_eps
    → t.table_type ≡ some periodic
    → next_time t t.next_ep_index 0 ≡ some (gap t)
unfolding next_time
next_time-outer t e p = ground arith

pub next_time-gap :
    (t : ScheduleTable)
    → IsBuilt t
    → t.table_type ≡ some periodic
    → next_time t t.next_ep_index (next_index t) ≡ some (gap t)
next_time-gap t b p = elim (index-cases t b) [
  | inl inner ↦ rw (next_index_inner t inner, lt→ltb _ _ inner) (next_time-inner t b inner)
  | inr outer ↦ rw (next_index_outer t outer) (next_time-outer t outer p)
]

pub gap-le : (bound : ℕ) (t : ScheduleTable) → IsBuilt t → GapsWithin bound t → gap t ≤ bound
gap-le bound t b g = ground (arith, g.inner t.next_ep_index, g.outer, index-cases t b)

-- The table after an update.
abbrev pub advanced : ScheduleTable → ScheduleTable
advanced t = record t {
  next_ep_index = next_index t;
  new_timer = set_timer (gap t * 1000000) t.new_timer;
}

pub update_timer-advanced :
    (t : ScheduleTable)
    → IsBuilt t
    → t.table_type ≡ some periodic
    → gap t * 1000000 ≤ int_max
    → update_timer t ≡ some (advanced t)
unfolding update_timer ms_to_ns
update_timer-advanced t b p fits = rw (some_eps, next_time-gap t b p, small)
  where
    some_eps : (t.num_eps == 0) ≡ false
    some_eps = ground (arith, b.index)

    small : ltb int_max (gap t * 1000000) ≡ false
    small = ground arith

pub advanced-IsBuilt : (t : ScheduleTable) → IsBuilt t → IsBuilt (advanced t)
advanced-IsBuilt t b = record {
  sized = b.sized;
  index = elim (index-cases t b) [
    | inl inner ↦ rw (next_index_inner t inner) inner
    | inr outer ↦ rw (next_index_outer t outer) (omega arith)
  ];
  ascending = b.ascending;
  first = b.first;
  last = b.last;
}

-- How much later the new expiry point lies, a whole cycle included where the index starts anew.
abbrev pub turn : ScheduleTable → ℕ
turn t = if next_index t == 0 then t.duration else 0

pub gap_lem :
    (t : ScheduleTable)
    → IsBuilt t
    → gap t + offset_or t.eps_array t.next_ep_index ≡ offset_or t.eps_array (next_index t) + turn t
gap_lem t b = elim (index-cases t b) [
  | inl inner ↦
      rw (next_index_inner t inner, lt→ltb _ _ inner)
        (ground (arith, Ascending-next t.eps_array t.next_ep_index b.ascending, b.sized))
  | inr outer ↦ rw (next_index_outer t outer) (ground (arith, b.last, b.first, last_index outer))
]
  where
    last_index :
        t.next_ep_index + 1 ≡ t.num_eps
        → offset_or t.eps_array (t.num_eps - 1) ≡ offset_or t.eps_array t.next_ep_index
    last_index e = ap (offset_or t.eps_array) (omega arith)
