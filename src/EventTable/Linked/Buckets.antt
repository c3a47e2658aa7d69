-- ===== src/EventTable/Linked/Buckets.antt =====
-- The loops over one hash list of the event table, against the list of its nodes.
use architecture_evolution_f.Prelude.{
  ℕ, zero, suc, ◌<◌, ◌≡◌, refl, ap, ◌∙◌, false, some, List, [], ◌∷◌, ◌++◌, map, ◌==◌, arith, length,
  ◌∈◌, ◌∉◌, Bool-cases, inl, inr, ◌⊎◌, ◌>>=◌,
}
use architecture_evolution_f.ListHead.{Ptr, null}
use architecture_evolution_f.Hlist.{Place, next_of, Memory, faults, hlist_del, free_node}
use architecture_evolution_f.Hlist.Runs.{read_lem, node_faults}
use architecture_evolution_f.Hlist.Chain.{Chain, Chain-first, first_or_null}
use architecture_evolution_f.EventTable.{EventTableNode, find_first, delete_first}
use architecture_evolution_f.EventTable.Linked.{unregister_from, find_from}

-- What the loops need of the nodes that are left: they are linked, not NULL and not freed.
pub record Left (m : Memory) (p : Place) (xs : List Ptr) : Type 0 where
  pub chain : Chain m p xs
  pub not_null : null ∉ xs
  pub live : (a : Ptr) → a ∈ xs → m.freed_nodes a ≡ false

Left-tail :
    {m : Memory} {p : Place} {x : Ptr} {xs : List Ptr} → Left m p (x ∷ xs) → Left m (next_of x) xs
Left-tail l = record {
  chain = l.chain.2;
  not_null = ground (arith, l.not_null);
  live = λ a i. l.live a (ground arith);
}

Left-faults :
    {m : Memory} {p : Place} {x : Ptr} {xs : List Ptr}
    → Left m p (x ∷ xs)
    → faults m (next_of x) ≡ false
Left-faults {m} {p} {x} l =
    node_faults m x (λ e. ground (arith, l.not_null)) (l.live x (ground arith))

pub find_from-first :
    (fuel fd : ℕ) (info : Ptr → EventTableNode) (m : Memory) (p : Place) (xs : List Ptr)
    → length xs < fuel
    → Left m p xs
    → find_from fuel fd info (first_or_null xs) m ≡ some (find_first fd (map info xs))
unfolding find_from find_first
find_from-first zero fd info m p xs l r = absurd (omega arith)
find_from-first (suc fuel) fd info m p [] l r = refl
find_from-first (suc fuel) fd info m p (x ∷ xs) l r =
    let real : (x == null) ≡ false = ground (arith, r.not_null) in
    elim (Bool-cases ((info x).fd == fd)) [
      | inl hit ↦ rw (real, hit) refl
      | inr other ↦
          let next : (m.nodes x).next ≡ first_or_null xs = Chain-first m (next_of x) xs r.chain.2 in
          rw (real, other, read_lem (next_of x) m (Left-faults r), next)
            (find_from-first fuel fd info m (next_of x) xs (omega arith) (Left-tail r))
    ]

-- How the loop of unregister_event_table comes out: no node has the descriptor, or the first that has it
-- is taken out and freed.
abbrev pub Unregisters : (fuel fd : ℕ) → (Ptr → EventTableNode) → Memory → List Ptr → Type 0
Unregisters fuel fd info m xs =
    ((unregister_from fuel fd info (first_or_null xs) m ≡ some m)
      × (delete_first fd (map info xs) ≡ map info xs))
    ⊎ ((front : List Ptr) × (y : Ptr) × (back : List Ptr) × (xs ≡ front ++ y ∷ back)
        × (unregister_from fuel fd info (first_or_null xs) m ≡ (hlist_del y m >>= free_node y))
        × (delete_first fd (map info xs) ≡ map info (front ++ back)))

unregister-behind :
    (fuel fd : ℕ) (info : Ptr → EventTableNode) (m : Memory) (x : Ptr) (xs : List Ptr)
    → unregister_from (suc fuel) fd info x m ≡ unregister_from fuel fd info (first_or_null xs) m
    → delete_first fd (info x ∷ map info xs) ≡ info x ∷ delete_first fd (map info xs)
    → Unregisters fuel fd info m xs
    → Unregisters (suc fuel) fd info m (x ∷ xs)
unregister-behind fuel fd info m x xs e k (inl (run, same)) =
    inl (e ∙ run, k ∙ ap (λ ys. info x ∷ ys) same)
unregister-behind fuel fd info m x xs e k (inr (front, y, back, at, run, same)) =
    inr (x ∷ front, y, back, ap (λ ys. x ∷ ys) at, e ∙ run, k ∙ ap (λ ys. info x ∷ ys) same)

pub unregister_from-Unregisters :
    (fuel fd : ℕ) (info : Ptr → EventTableNode) (m : Memory) (p : Place) (xs : List Ptr)
    → length xs < fuel
    → Left m p xs
    → Unregisters fuel fd info m xs
unfolding unregister_from delete_first
unregister_from-Unregisters zero fd info m p xs l r = absurd (omega arith)
unregister_from-Unregisters (suc fuel) fd info m p [] l r = inl (refl, refl)
unregister_from-Unregisters (suc fuel) fd info m p (x ∷ xs) l r =
    let real : (x == null) ≡ false = ground (arith, r.not_null) in
    elim (Bool-cases ((info x).fd == fd)) [
      | inl hit ↦ inr ([], x, xs, refl, rw (real, hit) refl, rw hit refl)
      | inr other ↦
          let next : (m.nodes x).next ≡ first_or_null xs = Chain-first m (next_of x) xs r.chain.2 in
          unregister-behind fuel fd info m x xs
            (rw (real, other, read_lem (next_of x) m (Left-faults r), next) refl) (rw other refl)
            (unregister_from-Unregisters fuel fd info m (next_of x) xs (omega arith) (Left-tail r))
    ]
