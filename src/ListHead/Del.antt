-- ===== src/ListHead/Del.antt =====
-- list_del, INIT_LIST_HEAD and list_empty as operations on the sequence of a circular list.
use architecture_evolution_f.Prelude.{
  ◌≡◌, ◌≢◌, refl, sym, ap, ap₂, subst, ◌∙◌, some, List, [], ◌∷◌, ◌++◌, ◌==◌, arith, is_empty,
  has-append, ◌∈◌, ◌∉◌, Distinct, if◌then◌else◌, update,
}
use architecture_evolution_f.ListHead.{Ptr, null, Heap, init_list_head, list_del, list_empty}
use architecture_evolution_f.ListHead.Ring.{
  Chain, IsRing, first_or, last_of, Chain-frame, prev-first_or, last_of-mem, ne-first_or,
  next-first_or, has-middle, Distinct-middle, ne_null_test, mem-ne_null, first_or-mem, SameOutside,
  Relinks,
}

-- The memory after list_del.
unlinked : (prev next entry : Ptr) → Heap → Heap
unlinked prev next entry h =
    let h₁ = update h next (record (h next) { prev = prev }) in
    let h₂ = update h₁ prev (record (h₁ prev) { next = next }) in
    let h₃ = update h₂ entry (record (h₂ entry) { next = null }) in
    update h₃ entry (record (h₃ entry) { prev = null })

module _ (prev next entry : Ptr) (h : Heap) where
  next-unlinked :
      (a : Ptr)
      → (unlinked prev next entry h a).next
        ≡ (if a == entry then null else if a == prev then next else (h a).next)
  unfolding unlinked
  next-unlinked a = ground arith

  prev-unlinked :
      (a : Ptr)
      → (unlinked prev next entry h a).prev
        ≡ (if a == entry then null else if a == next then prev else (h a).prev)
  unfolding unlinked
  prev-unlinked a = ground arith

list_del_unlinks :
    (entry : Ptr) (h : Heap)
    → entry ≢ null
    → (h entry).prev ≢ null
    → (h entry).next ≢ null
    → list_del entry h ≡ some (tt, unlinked (h entry).prev (h entry).next entry h)
unfolding list_del unlinked
list_del_unlinks entry h e p n =
    rw (ne_null_test e, ne_null_test n, ne_null_test p, ne_null_test e, ne_null_test e)

Chain-unlinked :
    (h : Heap) (p : Ptr) (xs : List Ptr) (x : Ptr) (ys : List Ptr) (q : Ptr)
    → Chain h p (xs ++ x ∷ ys) q
    → Distinct (p ∷ xs ++ x ∷ ys)
    → q ∉ (xs ++ x ∷ ys)
    → Chain (unlinked (last_of p xs) (first_or ys q) x h) p (xs ++ ys) q
Chain-unlinked h p [] x [] q c d o =
    (ground (arith, next-unlinked p q x h p), ground (arith, prev-unlinked p q x h q))
Chain-unlinked h p [] x (y ∷ ys) q c d o = (
  ground (arith, next-unlinked p y x h p),
  ground (arith, prev-unlinked p y x h y),
  Chain-frame h (unlinked p y x h) y ys q c.2.2 (λ a i. ground (arith, next-unlinked p y x h a))
      (λ a i. ground (arith, prev-unlinked p y x h a, has-append a ys (q ∷ []))),
)
Chain-unlinked h p (z ∷ xs) x ys q c d o = (
  ground (
    arith,
    next-unlinked (last_of z xs) (first_or ys q) x h p,
    last_of-mem z xs,
    has-middle p xs x ys,
    has-append p xs ys,
  ),
  ground (
    arith,
    prev-unlinked (last_of z xs) (first_or ys q) x h z,
    ne-first_or z ys q,
    has-middle z xs x ys,
    has-append z xs ys,
  ),
  Chain-unlinked h z xs x ys q c.2 d.1 (ground arith),
)

module _ (h : Heap) (head : Ptr) (xs : List Ptr) (entry : Ptr) (ys : List Ptr)
    (r : IsRing h head (xs ++ entry ∷ ys)) where
  abbrev behind : Ptr
  behind = first_or ys head

  abbrev before : Ptr
  before = last_of head xs

  abbrev left : Heap
  left = unlinked before behind entry h

  -- The neighbours and the node itself are nodes of the list.
  behind-mem : behind ∈ (head ∷ xs ++ entry ∷ ys)
  behind-mem = ground (arith, first_or-mem xs ys head, has-middle behind xs entry ys)

  before-mem : before ∈ (head ∷ xs ++ entry ∷ ys)
  before-mem = ground (arith, last_of-mem head xs, has-append before xs (entry ∷ ys))

  entry-mem : entry ∈ (head ∷ xs ++ entry ∷ ys)
  entry-mem = ground (arith, has-middle entry xs entry ys)

  list_del_runs : list_del entry h ≡ some (tt, left)
  list_del_runs =
      list_del_unlinks entry h (mem-ne_null r entry-mem)
        (subst (λ p. p ≢ null) (sym back) (mem-ne_null r before-mem))
        (subst (λ p. p ≢ null) (sym forth) (mem-ne_null r behind-mem))
      ∙ ap₂ (λ p q. some (tt, unlinked p q entry h)) back forth
    where
      back : (h entry).prev ≡ before
      back = prev-first_or h head xs (entry ∷ ys) head r.chain

      forth : (h entry).next ≡ behind
      forth = next-first_or h head xs entry ys head r.chain

  left-IsRing : IsRing left head (xs ++ ys)
  left-IsRing = record {
    chain = Chain-unlinked h head xs entry ys head r.chain r.distinct r.distinct.0;
    distinct = (
      ground (arith, has-middle head xs entry ys, r.distinct.0),
      ((Distinct-middle xs entry ys).0 r.distinct.1).1,
    );
    not_null = ground (arith, has-middle null xs entry ys, r.not_null);
  }

  left-SameOutside : SameOutside (head ∷ xs ++ entry ∷ ys) h left
  unfolding unlinked
  left-SameOutside a o = ground (arith, behind-mem, before-mem, entry-mem)

  -- list_del of a node of a circular list returns and takes the node out: the others keep their
  -- order, and no memory outside the list is written.
  pub list_del-Relinks : Relinks (list_del entry) h head (xs ++ ys) (head ∷ xs ++ entry ∷ ys)
  list_del-Relinks = (left, list_del_runs, left-IsRing, left-SameOutside)

-- INIT_LIST_HEAD of a node that is not NULL returns, makes it the head of an empty list, and
-- writes nowhere else.
pub init_list_head-Relinks :
    (h : Heap) (head : Ptr) → head ≢ null → Relinks (init_list_head head) h head [] (head ∷ [])
unfolding init_list_head
init_list_head-Relinks h head n =
    let h₁ : Heap = update h head (record (h head) { next = head }) in
    (
      update h₁ head (record (h₁ head) { prev = head }),
      rw (ne_null_test n, ne_null_test n),
      record { chain = ground arith; distinct = (refl, tt); not_null = ground arith },
      ground arith,
    )

-- list_empty says whether a circular list has no node, and writes nothing.
pub list_empty_lem :
    (h : Heap) (head : Ptr) (xs : List Ptr)
    → IsRing h head xs
    → list_empty head h ≡ some (is_empty xs, h)
unfolding list_empty
list_empty_lem h head [] r =
    rw (ne_null_test (mem-ne_null {a = head} r (ground arith)))
      (ap (λ b. some (b, h)) (ground arith))
list_empty_lem h head (x ∷ xs) r =
    rw (ne_null_test (mem-ne_null {a = head} r (ground arith)))
      (ap (λ b. some (b, h)) (ground arith))
