-- ===== src/ScheduleTable/Build/Offsets.antt =====
-- The array of expiry points ascends, is counted, and lies within the duration.
use architecture_evolution_f.Prelude.{
  >>=-eq-some, ℕ, zero, suc, ◌+◌, ◌-◌, ◌<◌, ◌≤◌, ◌≡◌, ◌⊎◌, refl, sym, subst, inl, inr, none, some,
  List, [], ◌∷◌, All, All-mono, All-get_elem?, arith, get_elem?, length,
}
use architecture_evolution_f.Task.{TaskStruct}
use architecture_evolution_f.ScheduleTable.{ExpiryPoint, ScheduleTable}
use architecture_evolution_f.ScheduleTable.Timer.Cycle.{Ascending, IsBuilt, offset_or}
use architecture_evolution_f.ScheduleTable.Build.{
  Groups, Slot, empty_slot, Filling, open_slot, link_info, put, put_all, hash_table, collect,
  build_table, table_type_of,
}

-- The bucket of a time is empty and not counted, or open and counted once.
abbrev pub IsFilled : (time num_eps : ℕ) → Filling → Type 0
IsFilled time num_eps f =
    (f.slot.offset ≡ none) × (f.num_eps ≡ num_eps)
    ⊎ (f.slot.offset ≡ some time) × (f.num_eps ≡ num_eps + 1)

module _ (tasks : List TaskStruct) (i time num_eps : ℕ) where
  put-IsFilled :
      (task : ℕ) (f f' : Filling)
      → IsFilled time num_eps f
      → put tasks i time task f ≡ some f'
      → IsFilled time num_eps f'
  unfolding put open_slot link_info
  put-IsFilled task f f' h e = ground arith

  pub put_all-IsFilled :
      (ms : List ℕ) (f f' : Filling)
      → IsFilled time num_eps f
      → put_all tasks i time ms f ≡ some f'
      → IsFilled time num_eps f'
  unfolding put_all
  put_all-IsFilled [] f f' h e = ground arith
  put_all-IsFilled (m ∷ ms) f f' h e =
      let (f₁, e₁, e₂) = >>=-eq-some (put tasks i time m f) (put_all tasks i time ms) e in
      put_all-IsFilled ms f₁ f' (put-IsFilled m f f₁ h e₁) e₂

-- One round of hash_table.
pub record Round (tasks : List TaskStruct) (i : ℕ) (ms : List ℕ) (k time n : ℕ) (slots : List Slot)
    (count : ℕ) : Type 0 where
  pub f : Filling
  pub rest : List Slot
  pub filled : put_all tasks i time ms (record { slot = empty_slot; num_eps = n }) ≡ some f
  pub later : hash_table tasks i ms k (time + 1) f.num_eps ≡ some (rest, count)
  pub whole : f.slot ∷ rest ≡ slots

pub hash_table-Round :
    (tasks : List TaskStruct) (i : ℕ) (ms : List ℕ) (k time n : ℕ) (slots : List Slot) (count : ℕ)
    → hash_table tasks i ms (suc k) time n ≡ some (slots, count)
    → Round tasks i ms k time n slots count
unfolding hash_table
hash_table-Round tasks i ms k time n slots count e =
    let (f, e₁, e₂) = >>=-eq-some (put_all tasks i time ms _) _ e in
    let ((rest, c), e₃, e₄) = >>=-eq-some (hash_table tasks i ms k (time + 1) f.num_eps) _ e₂ in
    record { f = f; rest = rest; filled = e₁; later = ground arith; whole = ground arith }

-- The expiry points are counted, ascend and lie from `time` on below `time + k`.
pub record IsTabled (n k time : ℕ) (eps : List ExpiryPoint) (count : ℕ) : Type 0 where
  pub counted : count ≡ n + length eps
  pub ascending : Ascending eps
  pub within : All (λ e. (time ≤ e.offset) × (e.offset < time + k)) eps

module _ (n k time count : ℕ) (f : Filling) (rest : List Slot)
    (t : IsTabled f.num_eps k (time + 1) (collect rest) count) where
  IsTabled-later :
      f.slot.offset ≡ none → f.num_eps ≡ n → IsTabled n (suc k) time (collect (f.slot ∷ rest)) count
  unfolding collect
  IsTabled-later e c = rw e (record {
    counted = omega (arith, t.counted);
    ascending = t.ascending;
    within = All-mono (collect rest) (λ x h. omega arith) t.within;
  })

  IsTabled-cons :
      f.slot.offset ≡ some time
      → f.num_eps ≡ n + 1
      → IsTabled n (suc k) time (collect (f.slot ∷ rest)) count
  unfolding collect
  IsTabled-cons e c = rw e (record {
    counted = omega (arith, t.counted);
    ascending = (All-mono (collect rest) (λ x h. omega arith) t.within, t.ascending);
    within = (omega arith, All-mono (collect rest) (λ x h. omega arith) t.within);
  })

module _ (tasks : List TaskStruct) (i : ℕ) (ms : List ℕ) where
  pub hash_table-IsTabled :
      (k time n : ℕ) (slots : List Slot) (count : ℕ)
      → hash_table tasks i ms k time n ≡ some (slots, count)
      → IsTabled n k time (collect slots) count
  unfolding collect hash_table
  hash_table-IsTabled zero time n [] count e = record {
    counted = ground arith;
    ascending = tt;
    within = tt;
  }
  hash_table-IsTabled zero time n (s ∷ ss) count e = cc
  hash_table-IsTabled (suc k) time n slots count e =
      let r = hash_table-Round tasks i ms k time n slots count e in
      let t = hash_table-IsTabled k (time + 1) r.f.num_eps r.rest count r.later in
      subst (λ ss. IsTabled n (suc k) time (collect ss) count) r.whole
        (elim (put_all-IsFilled tasks i time n ms _ r.f (inl (refl, refl)) r.filled) [
          | inl (e, c) ↦ IsTabled-later n k time count r.f r.rest t e c
          | inr (e, c) ↦ IsTabled-cons n k time count r.f r.rest t e c
        ])

pub offset_or-get_elem? :
    (es : List ExpiryPoint) (i : ℕ) {x : ExpiryPoint}
    → get_elem? es i ≡ some x
    → (offset_or es i ≡ x.offset) × (i < length es)
offset_or-get_elem? [] i e = cc
offset_or-get_elem? (y ∷ es) zero e = ground arith
offset_or-get_elem? (y ∷ es) (suc i) e = omega (arith, offset_or-get_elem? es i e)

-- What build_table has computed on the way to a table.
pub record Parts (tasks : List TaskStruct) (g : Groups) (i : ℕ) (t : ScheduleTable) : Type 0 where
  pub slots : List Slot
  pub hashed : hash_table tasks i (g.members i) (g.duration i) 0 0 ≡ some (slots, t.num_eps)
  pub eps : t.eps_array ≡ collect slots
  pub first : ExpiryPoint
  pub first_at : get_elem? t.eps_array 0 ≡ some first
  pub last : ExpiryPoint
  pub last_at : get_elem? t.eps_array (t.num_eps - 1) ≡ some last
  pub leader : ℕ
  pub leader_at : get_elem? (g.members i) 0 ≡ some leader
  pub task : TaskStruct
  pub task_at : get_elem? tasks leader ≡ some task
  pub table_type : t.table_type ≡ table_type_of task.task_type
  pub initial : t.initial_offset ≡ first.offset
  pub final : t.final_delay ≡ g.duration i - last.offset
  pub duration : t.duration ≡ g.duration i
  pub start : t.next_ep_index ≡ 0

pub build_table-Parts :
    (tasks : List TaskStruct) (g : Groups) (i : ℕ) (t : ScheduleTable)
    → build_table tasks g i ≡ some t
    → Parts tasks g i t
unfolding build_table
build_table-Parts tasks g i t e =
    let ((slots, n), e₁, f₁) =
      >>=-eq-some (hash_table tasks i (g.members i) (g.duration i) 0 0) _ e in
    let (first, e₂, f₂) = >>=-eq-some (get_elem? (collect slots) 0) _ f₁ in
    let (last, e₃, f₃) = >>=-eq-some (get_elem? (collect slots) (n - 1)) _ f₂ in
    let (leader, e₄, f₄) = >>=-eq-some (get_elem? (g.members i) 0) _ f₃ in
    let (task, e₅, f₅) = >>=-eq-some (get_elem? tasks leader) _ f₄ in
    record {
      slots = slots;
      hashed = ground arith;
      eps = ground arith;
      first = first;
      first_at = ground arith;
      last = last;
      last_at = ground arith;
      leader = leader;
      leader_at = e₄;
      task = task;
      task_at = e₅;
      table_type = ground arith;
      initial = ground arith;
      final = ground arith;
      duration = ground arith;
      start = ground arith;
    }

pub build_table-IsTabled :
    (tasks : List TaskStruct) (g : Groups) (i : ℕ) (t : ScheduleTable)
    → Parts tasks g i t
    → IsTabled 0 (g.duration i) 0 t.eps_array t.num_eps
build_table-IsTabled tasks g i t p =
    subst (λ es. IsTabled 0 (g.duration i) 0 es t.num_eps) (sym p.eps)
      (hash_table-IsTabled tasks i (g.members i) (g.duration i) 0 0 p.slots t.num_eps p.hashed)

-- Every table that is built has its expiry points counted and ascending within its duration, starts
-- at the first of them, and its offsets and delay add up to the duration.
pub build_table-IsBuilt :
    (tasks : List TaskStruct) (g : Groups) (i : ℕ) (t : ScheduleTable)
    → build_table tasks g i ≡ some t
    → IsBuilt t × (t.next_ep_index ≡ 0)
build_table-IsBuilt tasks g i t e =
    let p = build_table-Parts tasks g i t e in
    let h = build_table-IsTabled tasks g i t p in
    let first = offset_or-get_elem? t.eps_array 0 p.first_at in
    let last = offset_or-get_elem? t.eps_array (t.num_eps - 1) p.last_at in
    let inside =
      All-get_elem? (λ (x : ExpiryPoint). (0 ≤ x.offset) × (x.offset < 0 + g.duration i))
        t.eps_array (t.num_eps - 1) h.within p.last_at in
    (
      record {
        sized = omega (arith, h.counted);
        index = omega (arith, h.counted, p.start, first.1);
        ascending = h.ascending;
        first = omega (arith, first.0, p.initial);
        last = omega (arith, last.0, p.final, p.duration, inside.1);
      },
      p.start,
    )
