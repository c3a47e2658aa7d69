-- ===== src/ScheduleTable/Build/Counting.antt =====
-- How many tasks the tables have: where every table has one, there are no more tables than tasks.
use architecture_evolution_f.Prelude.{
  ℕ, zero, suc, ◌+◌, ◌<◌, ◌≤◌, ◌≡◌, refl, false, List, [], ◌∷◌, All, All-mono, arith, ◌==◌,
  Bool-cases, inl, inr, is_empty, length, if◌then◌else◌,
}
use architecture_evolution_f.Task.{TaskStruct}
use architecture_evolution_f.ScheduleTable.Build.Grouping.{indices}

-- f 0 + … + f (n - 1)
total : ℕ → (ℕ → ℕ) → ℕ
total zero f = 0
total (suc n) f = total n f + f n

total-add : (n : ℕ) (f g : ℕ → ℕ) → total n (λ i. f i + g i) ≡ total n f + total n g
unfolding total
total-add zero f g = refl
total-add (suc n) f g = omega (arith, total-add n f g)

total-ge : (n : ℕ) (f : ℕ → ℕ) → ((i : ℕ) → i < n → 0 < f i) → n ≤ total n f
unfolding total
total-ge zero f h = omega arith
total-ge (suc n) f h = omega (arith, total-ge n f (λ i l. h i (omega arith)), h n (omega arith))

total-same : (n : ℕ) (f g : ℕ → ℕ) → ((i : ℕ) → f i ≡ g i) → total n f ≡ total n g
unfolding total
total-same zero f g h = refl
total-same (suc n) f g h = omega (arith, total-same n f g h, h n)

total-zero : (n : ℕ) → total n (λ i. 0) ≡ 0
unfolding total
total-zero zero = refl
total-zero (suc n) = omega (arith, total-zero n)

pub length_pos : (xs : List ℕ) → is_empty xs ≡ false → 0 < length xs
length_pos [] h = cc
length_pos (x ∷ xs) h = omega arith

-- A table id is that of one table, if any.
total-one :
    (n k : ℕ)
    → (total n (λ i. if k == i then 1 else 0) ≤ 1)
      × (n ≤ k → total n (λ i. if k == i then 1 else 0) ≡ 0)
unfolding total
total-one zero k = (omega arith, λ h. refl)
total-one (suc n) k = ground (arith, total-one n k)

length-indices :
    (i k : ℕ) (t : TaskStruct) (ts : List TaskStruct)
    → length (indices i k (t ∷ ts))
      ≡ (if t.table_id == i then 1 else 0) + length (indices i (k + 1) ts)
unfolding indices
length-indices i k t ts = elim (Bool-cases (t.table_id == i)) [
  | inl mine ↦ rw mine (omega arith)
  | inr other ↦ rw other (omega arith)
]

total-indices :
    (n k : ℕ) (ts : List TaskStruct) → total n (λ i. length (indices i k ts)) ≤ length ts
unfolding indices
total-indices n k [] = omega (arith, total-zero n)
total-indices n k (t ∷ ts) = omega (
  arith,
  total-same n (λ i. length (indices i k (t ∷ ts)))
      (λ i. (if t.table_id == i then 1 else 0) + length (indices i (k + 1) ts))
      (λ i. length-indices i k t ts),
  total-add n (λ i. if t.table_id == i then 1 else 0) (λ i. length (indices i (k + 1) ts)),
  (total-one n t.table_id).0,
  total-indices n (k + 1) ts,
)

-- If each of the first n tables has a task, there are at least n tasks.
pub tables_le :
    (n : ℕ) (ts : List TaskStruct)
    → ((i : ℕ) → i < n → is_empty (indices i 0 ts) ≡ false)
    → n ≤ length ts
tables_le n ts h = omega (
  arith,
  total-ge n (λ i. length (indices i 0 ts)) (λ i l. length_pos (indices i 0 ts) (h i l)),
  total-indices n 0 ts,
)

-- The indices of tasks are those of tasks that are there.
pub indices-within :
    (i k : ℕ) (ts : List TaskStruct) → All (λ m. m < k + length ts) (indices i k ts)
unfolding indices
indices-within i k [] = tt
indices-within i k (t ∷ ts) =
    let rest : All (λ m. m < k + length (t ∷ ts)) (indices i (k + 1) ts) =
      All-mono (indices i (k + 1) ts) (λ m h. omega arith) (indices-within i (k + 1) ts) in
    elim (Bool-cases (t.table_id == i)) [
      | inl mine ↦ rw mine (omega arith, rest)
      | inr other ↦ rw other rest
    ]
