-- ===== src/Hlist/Add.antt =====
-- hlist_add_head as an operation on the sequence of a hash list.
use architecture_evolution_f.Prelude.{
  ◌≡◌, ◌≢◌, refl, ap, ◌∙◌, false, some, List, [], ◌∷◌, ◌==◌, arith, ◌∉◌, Distinct, if◌then◌else◌,
  Bool-cases, inl, inr, ==_self, ==_ne,
}
use architecture_evolution_f.ListHead.{Ptr, null}
use architecture_evolution_f.Hlist.{
  first_of, next_of, Memory, faults, stored, stored_pprev, hlist_add_head,
}
use architecture_evolution_f.Hlist.Runs.{
  read_lem, write_lem, write_pprev_lem, node_faults, if_linked, if_linked_lem, faults-if_linked,
  if_linked_freed, if_linked_first, if_linked_next, if_linked_pprev,
}
use architecture_evolution_f.Hlist.Chain.{
  Chain, IsHlist, Chain-frame, Chain-first, first_or_null-live, SameBut, Rehangs,
}

-- The memory after hlist_add_head.
unfoldable pub added : (n h : Ptr) → Memory → Memory
added n h m = stored_pprev n (some (first_of h)) (
    stored (first_of h) n
      (if_linked (m.first h) (some (next_of n)) (stored (next_of n) (m.first h) m)))

module _ (n h : Ptr) (m : Memory) where
  abbrev written : Memory
  written = stored (next_of n) (m.first h) m

  pub added_freed :
      ((added n h m).freed_heads ≡ m.freed_heads) × ((added n h m).freed_nodes ≡ m.freed_nodes)
  unfolding added
  added_freed = if_linked_freed (m.first h) (some (next_of n)) written

  pub added_first : (k : Ptr) → (added n h m).first k ≡ (if k == h then n else m.first k)
  unfolding added
  added_first k = rw (if_linked_first (m.first h) (some (next_of n)) written) refl

  pub added_next :
      (a : Ptr) → ((added n h m).nodes a).next ≡ (if a == n then m.first h else (m.nodes a).next)
  unfolding added
  added_next a = ground (
    arith,
    if_linked_next (m.first h) (some (next_of n)) written a,
    if_linked_next (m.first h) (some (next_of n)) written n,
  )

  pub added_pprev :
      (a : Ptr)
      → ((added n h m).nodes a).pprev ≡ (
          if a == n
          then some (first_of h)
          else if m.first h == null
          then (m.nodes a).pprev
          else if a == m.first h
          then some (next_of n)
          else (m.nodes a).pprev)
  unfolding added
  added_pprev a = ground (arith, if_linked_pprev (m.first h) (some (next_of n)) written a)

  pub added_runs :
      m.freed_heads h ≡ false
      → faults m (next_of n) ≡ false
      → (m.first h ≢ null → m.freed_nodes (m.first h) ≡ false)
      → hlist_add_head n h m ≡ some (added n h m)
  unfolding hlist_add_head added
  added_runs lh ln lf =
      let m1 = stored (next_of n) (m.first h) m in
      let m2 = if_linked (m.first h) (some (next_of n)) m1 in
      let m3 = stored (first_of h) n m2 in
      let lh' = faults-if_linked (m.first h) (some (next_of n)) m1 (first_of h) ∙ lh in
      let ln' = faults-if_linked (m.first h) (some (next_of n)) m1 (next_of n) ∙ ln in
      rw
        (
          read_lem (first_of h) m lh,
          write_lem (next_of n) (m.first h) m ln,
          if_linked_lem (m.first h) (some (next_of n)) m1 lf,
          write_lem (first_of h) n m2 lh',
        )
        (write_pprev_lem n (some (first_of h)) m3 ln')

Chain-added :
    (m : Memory) (h n : Ptr) (xs : List Ptr)
    → Chain m (first_of h) xs
    → n ∉ xs
    → Distinct xs
    → null ∉ xs
    → Chain (added n h m) (next_of n) xs
Chain-added m h n [] c o d r = added_next n h m n ∙ rw (==_self n) c
Chain-added m h n (x ∷ xs) c o d r =
    let first : m.first h ≡ x = c.0 in
    (
      added_next n h m n ∙ rw (==_self n) first,
      ground (arith, added_pprev n h m x),
      Chain-frame m (added n h m) (next_of x) xs c.2 (ground (arith, added_next n h m x))
          (λ a i. ground (arith, added_next n h m a)) (λ a i. ground (arith, added_pprev n h m a)),
    )

module _ (m : Memory) (h n : Ptr) (xs : List Ptr) (r : IsHlist m h xs) (out : n ∉ xs)
    (real : n ≢ null) (live : m.freed_nodes n ≡ false) where
  abbrev after : Memory
  after = added n h m

  add_head_runs : hlist_add_head n h m ≡ some after
  add_head_runs =
      added_runs n h m r.live_head (node_faults m n real live)
        (rw (Chain-first m (first_of h) xs r.chain) (first_or_null-live m xs r.live))

  after-IsHlist : IsHlist after h (n ∷ xs)
  after-IsHlist = record {
    chain = (
      added_first n h m h ∙ rw (==_self h) refl,
      added_pprev n h m n ∙ rw (==_self n) refl,
      Chain-added m h n xs r.chain out r.distinct r.not_null,
    );
    distinct = (out, r.distinct);
    not_null = ground (arith, r.not_null);
    live_head = ap (λ f. f h) (added_freed n h m).0 ∙ r.live_head;
    live = λ a i. ap (λ f. f a) (added_freed n h m).1 ∙ elim (Bool-cases (a == n)) [
      | inl own ↦ let same : a ≡ n = ground arith in rw same live
      | inr other ↦ r.live a (ground arith)
    ];
  }

  -- The first node of the list is touched, if there is one.
  abbrev touched : List Ptr
  touched = n ∷ m.first h ∷ []

  after-SameBut : SameBut h touched m after
  after-SameBut = record {
    first = λ k d. added_first n h m k ∙ rw (==_ne k h d) refl;
    next = λ a o. ground (arith, added_next n h m a);
    pprev = λ a o. ground (arith, added_pprev n h m a);
    freed_heads = (added_freed n h m).0;
    freed_nodes = (added_freed n h m).1;
  }

  -- hlist_add_head of a node that is not NULL, not freed and not in the list returns and puts the node in
  -- front: the others keep their order, and no memory but that of the head, of the new node and of
  -- the node that was first is written.
  pub hlist_add_head-Rehangs : Rehangs (hlist_add_head n h) m h (n ∷ xs) (n ∷ m.first h ∷ [])
  hlist_add_head-Rehangs = (after, add_head_runs, after-IsHlist, after-SameBut)
