-- ===== src/ReadyQueue/Order.antt =====
-- The order that task_enqueue_check keeps: by priority, then period, then time of arrival.
use mathlib.Core.List.{Perm}
use mathlib.Core.List.Perm
use architecture_evolution_f.Prelude.{
  ℕ, ◌≡◌, refl, ap, ◌∙◌, inl, inr, Bool, true, false, List, [], ◌∷◌, ◌++◌, ◌||◌, ◌==◌, arith,
  Bool-cases, All, has,
}
use architecture_evolution_f.Task.{TaskStruct, TaskState}
use architecture_evolution_f.ReadyQueue.{goes_before, insert, set_queued, set_state}

pub goes_before_asymm : (x y : TaskStruct) → goes_before x y ≡ true → goes_before y x ≡ false
unfolding goes_before
goes_before_asymm x y h = ground arith

-- What does not go before `y` does not go before what `y` must follow.
pub goes_before_trans :
    (x y z : TaskStruct)
    → goes_before y z ≡ false
    → goes_before x z ≡ true
    → goes_before y x ≡ false
unfolding goes_before
goes_before_trans x y z h k = ground arith

-- Whoever goes before `b` goes before what may not go before `b`.
goes_before_mono :
    (a b c : TaskStruct) → goes_before a b ≡ true → goes_before c b ≡ false → goes_before a c ≡ true
unfolding goes_before
goes_before_mono a b c p q = ground arith

-- No task of `queue` goes before `x`.
abbrev pub NoneBefore : (ℕ → TaskStruct) → ℕ → List ℕ → Type 0
NoneBefore tasks x = All (λ y. goes_before (tasks y) (tasks x) ≡ false)

-- `x` goes before every task of `queue`.
abbrev pub BeforeAll : (ℕ → TaskStruct) → ℕ → List ℕ → Type 0
BeforeAll tasks x = All (λ y. goes_before (tasks x) (tasks y) ≡ true)

-- `x` goes before no task of `queue`.
abbrev pub BehindAll : (ℕ → TaskStruct) → ℕ → List ℕ → Type 0
BehindAll tasks x = All (λ y. goes_before (tasks x) (tasks y) ≡ false)

abbrev pub IsSorted : (ℕ → TaskStruct) → List ℕ → Type 0
IsSorted tasks [] = Unit {0}
IsSorted tasks (x ∷ xs) = NoneBefore tasks x xs × IsSorted tasks xs

module _ (tasks : ℕ → TaskStruct) where
  NoneBefore-trans :
      (new x : ℕ) (xs : List ℕ)
      → goes_before (tasks new) (tasks x) ≡ true
      → NoneBefore tasks x xs
      → NoneBefore tasks new xs
  NoneBefore-trans new x [] h n = tt
  NoneBefore-trans new x (y ∷ ys) h n =
      (goes_before_trans (tasks new) (tasks y) (tasks x) n.0 h, NoneBefore-trans new x ys h n.1)

  NoneBefore-insert :
      (x new : ℕ) (xs : List ℕ)
      → goes_before (tasks new) (tasks x) ≡ false
      → NoneBefore tasks x xs
      → NoneBefore tasks x (insert tasks new xs)
  unfolding insert
  NoneBefore-insert x new [] h n = (h, tt)
  NoneBefore-insert x new (y ∷ ys) h n = ground (arith, NoneBefore-insert x new ys h n.1)

  pub insert-IsSorted :
      (new : ℕ) (xs : List ℕ) → IsSorted tasks xs → IsSorted tasks (insert tasks new xs)
  unfolding insert
  insert-IsSorted new [] s = (tt, tt)
  insert-IsSorted new (x ∷ xs) s = elim (Bool-cases (goes_before (tasks new) (tasks x))) [
    | inl first ↦
        rw first
          ((goes_before_asymm (tasks new) (tasks x) first, NoneBefore-trans new x xs first s.0), s)
    | inr later ↦ rw later (NoneBefore-insert x new xs later s.0, insert-IsSorted new xs s.1)
  ]

  pub insert-perm : (new : ℕ) (xs : List ℕ) → Perm (insert tasks new xs) (new ∷ xs)
  unfolding insert
  insert-perm new [] = Perm.refl (new ∷ [])
  insert-perm new (x ∷ xs) = elim (Bool-cases (goes_before (tasks new) (tasks x))) [
    | inl first ↦ rw first (Perm.refl (new ∷ x ∷ xs))
    | inr later ↦ rw later (Perm.trans (Perm.cons x (insert-perm new xs)) (Perm.swap new x xs))
  ]

  pub has-insert :
      (a new : ℕ) (xs : List ℕ) → has a (insert tasks new xs) ≡ ((a == new) || has a xs)
  unfolding insert
  has-insert a new [] = refl
  has-insert a new (x ∷ xs) = ground (arith, has-insert a new xs)

  BeforeAll-mono :
      (new x : ℕ) (xs : List ℕ)
      → goes_before (tasks new) (tasks x) ≡ true
      → NoneBefore tasks x xs
      → BeforeAll tasks new xs
  BeforeAll-mono new x [] h n = tt
  BeforeAll-mono new x (y ∷ ys) h n =
      (goes_before_mono (tasks new) (tasks x) (tasks y) h n.0, BeforeAll-mono new x ys h n.1)

  -- The new task stands behind all that it does not go before, and before all others.
  pub insert-splits :
      (new : ℕ) (xs : List ℕ)
      → IsSorted tasks xs
      → (front : List ℕ) × (back : List ℕ) × (xs ≡ front ++ back)
        × (insert tasks new xs ≡ front ++ new ∷ back)
        × BehindAll tasks new front
        × BeforeAll tasks new back
  unfolding insert
  insert-splits new [] s = ([], [], refl, refl, tt, tt)
  insert-splits new (x ∷ xs) s = elim (Bool-cases (goes_before (tasks new) (tasks x))) [
    | inl first ↦ ([], x ∷ xs, refl, rw first, tt, (first, BeforeAll-mono new x xs first s.0))
    | inr later ↦
        let (front, back, e, e', f, b) = insert-splits new xs s.1 in
        (x ∷ front, back, ap (λ l. x ∷ l) e, rw later (ap (λ l. x ∷ l) e'), (later, f), b)
  ]

-- The keys alone decide, so the flag of a task does not matter to the order.
module _ (tasks : ℕ → TaskStruct) (t : ℕ) (b : Bool) where
  goes_before-set_queued :
      (x y : ℕ)
      → goes_before (set_queued tasks t b x) (set_queued tasks t b y)
        ≡ goes_before (tasks x) (tasks y)
  unfolding goes_before
  goes_before-set_queued x y = ground arith

  NoneBefore-set_queued :
      (x : ℕ) (xs : List ℕ) → NoneBefore tasks x xs → NoneBefore (set_queued tasks t b) x xs
  NoneBefore-set_queued x [] n = tt
  NoneBefore-set_queued x (y ∷ ys) n =
      (goes_before-set_queued y x ∙ n.0, NoneBefore-set_queued x ys n.1)

  pub IsSorted-set_queued : (xs : List ℕ) → IsSorted tasks xs → IsSorted (set_queued tasks t b) xs
  IsSorted-set_queued [] s = tt
  IsSorted-set_queued (x ∷ xs) s = (NoneBefore-set_queued x xs s.0, IsSorted-set_queued xs s.1)

  pub insert-set_queued :
      (new : ℕ) (xs : List ℕ) → insert (set_queued tasks t b) new xs ≡ insert tasks new xs
  unfolding insert
  insert-set_queued new [] = refl
  insert-set_queued new (x ∷ xs) = rw (goes_before-set_queued new x, insert-set_queued new xs)

module _ (tasks : ℕ → TaskStruct) (t : ℕ) (state : TaskState) where
  goes_before-set_state :
      (x y : ℕ)
      → goes_before (set_state tasks t state x) (set_state tasks t state y)
        ≡ goes_before (tasks x) (tasks y)
  unfolding goes_before
  goes_before-set_state x y = ground arith

  NoneBefore-set_state :
      (x : ℕ) (xs : List ℕ) → NoneBefore tasks x xs → NoneBefore (set_state tasks t state) x xs
  NoneBefore-set_state x [] n = tt
  NoneBefore-set_state x (y ∷ ys) n =
      (goes_before-set_state y x ∙ n.0, NoneBefore-set_state x ys n.1)

  pub IsSorted-set_state : (xs : List ℕ) → IsSorted tasks xs → IsSorted (set_state tasks t state) xs
  IsSorted-set_state [] s = tt
  IsSorted-set_state (x ∷ xs) s = (NoneBefore-set_state x xs s.0, IsSorted-set_state xs s.1)
