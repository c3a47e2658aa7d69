-- ===== src/Hlist/RoundTrip.antt =====
-- hlist_add_head and then hlist_del of the same node.
use architecture_evolution_f.Prelude.{
  ◌≡◌, ◌≢◌, refl, ap, sym, ◌∙◌, false, some, none, List, [], ◌∷◌, ◌==◌, arith, ◌∉◌, Bool-cases, inl,
  inr, ==_self, ==_ne,
}
use architecture_evolution_f.ListHead.{Ptr, null}
use architecture_evolution_f.Hlist.{first_of, Memory, hlist_add_head, hlist_del}
use architecture_evolution_f.Hlist.Runs.{node_faults}
use architecture_evolution_f.Hlist.Chain.{Chain, IsHlist, first_or_null-live, Chain-first}
use architecture_evolution_f.Hlist.Add.{
  added, added_runs, added_freed, added_first, added_next, added_pprev,
}
use architecture_evolution_f.Hlist.Unlinked.{
  deleted, deleted_freed, deleted_first, deleted_next, deleted_pprev,
}
use architecture_evolution_f.Hlist.Del.{deleted_runs}

-- The memory is as before but for the node `n`, which is in no list.
pub record Restores (n : Ptr) (m m' : Memory) : Type 0 where
  pub first : (k : Ptr) → m'.first k ≡ m.first k
  pub next : (a : Ptr) → a ≢ n → (m'.nodes a).next ≡ (m.nodes a).next
  pub pprev : (a : Ptr) → a ≢ n → (m'.nodes a).pprev ≡ (m.nodes a).pprev
  pub unlinked : ((m'.nodes n).next ≡ null) × ((m'.nodes n).pprev ≡ none)
  pub freed_heads : m'.freed_heads ≡ m.freed_heads
  pub freed_nodes : m'.freed_nodes ≡ m.freed_nodes

-- The first node of a list knows that the head keeps its address.
first-pprev :
    (m : Memory) (h : Ptr) (xs : List Ptr)
    → Chain m (first_of h) xs
    → (m.first h == null) ≡ false
    → (m.nodes (m.first h)).pprev ≡ some (first_of h)
first-pprev m h [] c d = ground arith
first-pprev m h (x ∷ xs) c d = ap (λ a. (m.nodes a).pprev) c.0 ∙ c.1

module _ (m : Memory) (h n : Ptr) (xs : List Ptr) (r : IsHlist m h xs) (out : n ∉ xs)
    (real : n ≢ null) (live : m.freed_nodes n ≡ false) where
  abbrev linked : Memory
  linked = added n h m

  abbrev back : Memory
  back = deleted n (first_of h) (m.first h) linked

  live_first : m.first h ≢ null → m.freed_nodes (m.first h) ≡ false
  live_first = rw (Chain-first m (first_of h) xs r.chain) (first_or_null-live m xs r.live)

  back_runs : hlist_del n linked ≡ some back
  back_runs =
      let (heads, nodes) = added_freed n h m in
      deleted_runs linked n (first_of h) (m.first h) (added_next n h m n ∙ rw (==_self n) refl)
        (added_pprev n h m n ∙ rw (==_self n) refl)
        (node_faults linked n real (ap (λ f. f n) nodes ∙ live)) (ap (λ f. f h) heads ∙ r.live_head)
        (λ d. ap (λ f. f (m.first h)) nodes ∙ live_first d)

  -- The node that was first has its head back, unless it is `n`.
  pprev_back : (a : Ptr) → a ≢ n → (back.nodes a).pprev ≡ (m.nodes a).pprev
  pprev_back a d =
      let kept = added_pprev n h m a in
      elim (Bool-cases (a == m.first h)) [
        | inl own ↦ elim (Bool-cases (m.first h == null)) [
          | inl e ↦ ground (arith, deleted_pprev n (m.first h) linked (first_of h) a)
          | inr e ↦
              let same : a ≡ m.first h = ground arith in
              let before : (m.nodes a).pprev ≡ some (first_of h) =
                ap (λ b. (m.nodes b).pprev) same ∙ first-pprev m h xs r.chain e in
              deleted_pprev n (m.first h) linked (first_of h) a
              ∙ rw (==_ne a n d, e, own) (sym before)
        ]
        | inr other ↦ ground (arith, deleted_pprev n (m.first h) linked (first_of h) a)
      ]

  back-Restores : Restores n m back
  back-Restores =
      let (heads, nodes) = added_freed n h m in
      let (heads', nodes') = deleted_freed n (m.first h) linked (first_of h) in
      record {
        first = λ k.
            ground (arith, deleted_first n (m.first h) linked (first_of h) k, added_first n h m k);
        next = λ a d.
            ground (arith, deleted_next n (m.first h) linked (first_of h) a, added_next n h m a);
        pprev = pprev_back;
        unlinked = (
          deleted_next n (m.first h) linked (first_of h) n ∙ rw (==_self n) refl,
          deleted_pprev n (m.first h) linked (first_of h) n ∙ rw (==_self n) refl,
        );
        freed_heads = heads' ∙ heads;
        freed_nodes = nodes' ∙ nodes;
      }

  -- hlist_del undoes hlist_add_head: of a node that is not NULL, not freed and not in the list, both
  -- return, and then every head and every node but this one is as it was before. The node itself
  -- has both fields NULL.
  pub hlist_del-add_head :
      (m1 : Memory) × (m2 : Memory) × (hlist_add_head n h m ≡ some m1)
      × (hlist_del n m1 ≡ some m2)
      × Restores n m m2
  hlist_del-add_head = (
    linked,
    back,
    added_runs n h m r.live_head (node_faults m n real live) live_first,
    back_runs,
    back-Restores,
  )
