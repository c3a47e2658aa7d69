-- ===== src/ListHead/Add.antt =====
-- list_add and list_add_tail as operations on the sequence of a circular list.
use architecture_evolution_f.Prelude.{
  ◌≡◌, ◌≢◌, some, List, [], ◌∷◌, ◌++◌, ◌==◌, arith, has-append, ◌∈◌, ◌∉◌, Distinct, if◌then◌else◌,
  update,
}
use architecture_evolution_f.ListHead.{Ptr, null, Heap, list_add_between, list_add_tail}
use architecture_evolution_f.ListHead.Ring.{
  Chain, IsRing, first_or, last_of, Chain-frame, prev-first_or, last_of-mem, ne-first_or,
  has-middle, Distinct-middle, ne_null_test, mem-ne_null, first_or-mem, SameOutside, Relinks,
}

-- The memory after `list_add_between new prev next`.
spliced : (new prev next : Ptr) → Heap → Heap
spliced new prev next h =
    let h₁ = update h next (record (h next) { prev = new }) in
    let h₂ = update h₁ new (record (h₁ new) { next = next }) in
    let h₃ = update h₂ new (record (h₂ new) { prev = prev }) in
    update h₃ prev (record (h₃ prev) { next = new })

module _ (new prev next : Ptr) (h : Heap) where
  next-spliced :
      (a : Ptr)
      → (spliced new prev next h a).next
        ≡ (if a == prev then new else if a == new then next else (h a).next)
  unfolding spliced
  next-spliced a = ground arith

  prev-spliced :
      (a : Ptr)
      → (spliced new prev next h a).prev
        ≡ (if a == new then prev else if a == next then new else (h a).prev)
  unfolding spliced
  prev-spliced a = ground arith

  list_add_between_lem :
      new ≢ null
      → prev ≢ null
      → next ≢ null
      → list_add_between new prev next h ≡ some (tt, spliced new prev next h)
  unfolding list_add_between spliced
  list_add_between_lem n p q = rw (ne_null_test q, ne_null_test n, ne_null_test n, ne_null_test p)

Chain-spliced :
    (h : Heap) (p : Ptr) (xs ys : List Ptr) (q new : Ptr)
    → Chain h p (xs ++ ys) q
    → Distinct (p ∷ xs ++ ys)
    → q ∉ (xs ++ ys)
    → new ∉ (p ∷ xs ++ ys)
    → new ≢ q
    → Chain (spliced new (last_of p xs) (first_or ys q) h) p (xs ++ new ∷ ys) q
Chain-spliced h p [] [] q new c d o n e = ground (
  arith,
  next-spliced new p q h p,
  next-spliced new p q h new,
  prev-spliced new p q h q,
  prev-spliced new p q h new,
)
Chain-spliced h p [] (y ∷ ys) q new c d o n e = (
  ground (arith, next-spliced new p y h p),
  ground (arith, prev-spliced new p y h new),
  (
    ground (arith, next-spliced new p y h new),
    ground (arith, prev-spliced new p y h y),
    Chain-frame h (spliced new p y h) y ys q c.2 (λ a i. ground (arith, next-spliced new p y h a))
        (λ a i. ground (arith, prev-spliced new p y h a, has-append a ys (q ∷ []))),
  ),
)
Chain-spliced h p (x ∷ xs) ys q new c d o n e = (
  ground (
    arith,
    next-spliced new (last_of x xs) (first_or ys q) h p,
    last_of-mem x xs,
    has-append p xs ys,
  ),
  ground (
    arith,
    prev-spliced new (last_of x xs) (first_or ys q) h x,
    ne-first_or x ys q,
    has-append x xs ys,
  ),
  Chain-spliced h x xs ys q new c.2 d.1 (ground arith) (ground arith) e,
)

module _ (h : Heap) (head : Ptr) (xs ys : List Ptr) (new : Ptr) (r : IsRing h head (xs ++ ys))
    (out : new ∉ (head ∷ xs ++ ys)) (real : new ≢ null) where
  abbrev pos : Ptr
  pos = first_or ys head

  abbrev last : Ptr
  last = last_of head xs

  abbrev after : Heap
  after = spliced new last pos h

  pos-mem : pos ∈ (head ∷ xs ++ ys)
  pos-mem = first_or-mem xs ys head

  last-mem : last ∈ (head ∷ xs ++ ys)
  last-mem = ground (arith, last_of-mem head xs, has-append last xs ys)

  list_add_tail_runs : list_add_tail new pos h ≡ some (tt, after)
  unfolding list_add_tail
  list_add_tail_runs =
      rw (ne_null_test (mem-ne_null r pos-mem), prev-first_or h head xs ys head r.chain)
        (list_add_between_lem new last pos h real (mem-ne_null r last-mem) (mem-ne_null r pos-mem))

  after-IsRing : IsRing after head (xs ++ new ∷ ys)
  after-IsRing = record {
    chain = Chain-spliced h head xs ys head new r.chain r.distinct r.distinct.0 out (ground arith);
    distinct = (
      ground (arith, has-middle head xs new ys, r.distinct.0),
      (Distinct-middle xs new ys).1 (ground arith, r.distinct.1),
    );
    not_null = ground (arith, has-middle null xs new ys, r.not_null);
  }

  after-SameOutside : SameOutside (new ∷ head ∷ xs ++ ys) h after
  unfolding spliced
  after-SameOutside a o = ground (arith, pos-mem, last-mem)

  -- list_add_tail of a node that is not NULL and not in the list, before a node of a circular list
  -- or before its head, returns and puts the new node there: all other nodes keep their order, and
  -- no memory but that of the new node and of the list is written.
  pub list_add_tail-Relinks :
      Relinks (list_add_tail new (first_or ys head)) h head (xs ++ new ∷ ys) (new ∷ head ∷ xs ++ ys)
  list_add_tail-Relinks = (after, list_add_tail_runs, after-IsRing, after-SameOutside)
