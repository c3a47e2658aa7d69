-- ===== src/Hlist/Del.antt =====
-- hlist_del as an operation on the sequence of a hash list.
use architecture_evolution_f.Prelude.{
  ◌≡◌, ◌≢◌, refl, ap, ◌∙◌, false, some, none, List, [], ◌∷◌, ◌++◌, ◌||◌, ◌==◌, arith, has, ◌∈◌, ◌∉◌,
  has-append,
}
use architecture_evolution_f.ListHead.{Ptr, null}
use architecture_evolution_f.ListHead.Ring.{last_of, last_of-mem, has-middle, Distinct-middle}
use architecture_evolution_f.Hlist.{
  Place, first_of, next_of, Memory, faults, stored, hlist_unlink, hlist_del,
}
use architecture_evolution_f.Hlist.Runs.{
  read_lem, write_lem, read_pprev_lem, write_pprev_lem, node_faults, if_linked, if_linked_lem,
  faults-if_linked, faults-stored,
}
use architecture_evolution_f.Hlist.Chain.{
  IsHlist, Chain-middle, first_or_null, last_place, first_or_null-live, SameBut, Rehangs,
}
use architecture_evolution_f.Hlist.Unlinked.{
  deleted, is_first, is_next, deleted_freed, deleted_first, deleted_next, deleted_pprev,
  stored_freed, last_place-next, Chain-deleted,
}

-- hlist_del of a node whose two fields are known, if nothing that it writes has been freed.
pub deleted_runs :
    (m : Memory) (y : Ptr) (place : Place) (next : Ptr)
    → (m.nodes y).next ≡ next
    → (m.nodes y).pprev ≡ some place
    → faults m (next_of y) ≡ false
    → faults m place ≡ false
    → (next ≢ null → m.freed_nodes next ≡ false)
    → hlist_del y m ≡ some (deleted y place next m)
unfolding hlist_del hlist_unlink deleted
deleted_runs m y place next n p fy fp live =
    let m1 = stored place next m in
    let m2 = if_linked next (some place) m1 in
    let live' : next ≢ null → m1.freed_nodes next ≡ false =
      λ d. ap (λ f. f next) (stored_freed y next m place).1 ∙ live d in
    let fy' : faults m2 (next_of y) ≡ false =
      faults-if_linked next (some place) m1 (next_of y)
      ∙ (faults-stored place next m (next_of y) ∙ fy) in
    rw
      (
        read_lem (next_of y) m fy,
        read_pprev_lem y m fy,
        p,
        n,
        write_lem place next m fp,
        if_linked_lem next (some place) m1 live',
        write_lem (next_of y) null m2 fy',
      )
      (write_pprev_lem y none (stored (next_of y) null m2) fy')

-- The place in front of a node of a hash list may be written.
last_place-faults :
    (m : Memory) (h : Ptr) (xs : List Ptr)
    → m.freed_heads h ≡ false
    → ((a : Ptr) → a ∈ xs → m.freed_nodes a ≡ false)
    → null ∉ xs
    → faults m (last_place (first_of h) xs) ≡ false
last_place-faults m h [] lh l r = lh
last_place-faults m h (x ∷ xs) lh l r =
    ap (faults m) (last_place-next x xs)
    ∙ node_faults m (last_of x xs) (λ e. ground (arith, last_of-mem x xs))
        (l (last_of x xs) (last_of-mem x xs))

is_first-other :
    (k h : Ptr) (xs : List Ptr) → k ≢ h → is_first (last_place (first_of h) xs) k ≡ false
is_first-other k h [] d = ground arith
is_first-other k h (x ∷ xs) d = ap (λ p. is_first p k) (last_place-next x xs)

is_next-front :
    (a h : Ptr) (xs : List Ptr) → a ∉ xs → is_next (last_place (first_of h) xs) a ≡ false
is_next-front a h [] o = refl
is_next-front a h (x ∷ xs) o =
    ap (λ p. is_next p a) (last_place-next x xs) ∙ ground (arith, last_of-mem x xs)

first_or_null-test :
    (a : Ptr) (ys : List Ptr)
    → a ∉ ys
    → (first_or_null ys == null) ≡ false
    → (a == first_or_null ys) ≡ false
first_or_null-test a [] o r = ground arith
first_or_null-test a (y ∷ ys) o r = ground arith

module _ (m : Memory) (h : Ptr) (xs : List Ptr) (y : Ptr) (ys : List Ptr)
    (r : IsHlist m h (xs ++ y ∷ ys)) where
  abbrev place : Place
  place = last_place (first_of h) xs

  abbrev after : Memory
  after = deleted y place (first_or_null ys) m

  member : (a : Ptr) → has a (xs ++ y ∷ ys) ≡ ((a == y) || has a (xs ++ ys))
  member a = has-middle a xs y ys

  -- The parts of the list are live too.
  live_before : (a : Ptr) → a ∈ xs → m.freed_nodes a ≡ false
  live_before a i = r.live a (ground (arith, has-append a xs (y ∷ ys)))

  live_behind : (a : Ptr) → a ∈ ys → m.freed_nodes a ≡ false
  live_behind a i = r.live a (ground (arith, has-append a xs (y ∷ ys)))

  del_runs : hlist_del y m ≡ some after
  del_runs =
      let (next, pprev) = Chain-middle m (first_of h) xs y ys r.chain in
      deleted_runs m y place (first_or_null ys) next pprev
        (node_faults m y (λ e. ground (arith, r.not_null, member y))
          (r.live y (ground (arith, member y))))
        (last_place-faults m h xs r.live_head live_before
          (ground (arith, r.not_null, has-append null xs (y ∷ ys))))
        (first_or_null-live m ys live_behind)

  after-IsHlist : IsHlist after h (xs ++ ys)
  after-IsHlist =
      let (heads, nodes) = deleted_freed y (first_or_null ys) m place in
      record {
        chain = Chain-deleted m (first_of h) xs y ys r.chain r.distinct refl r.not_null;
        distinct = ((Distinct-middle xs y ys).0 r.distinct).1;
        not_null = ground (arith, r.not_null, member null);
        live_head = ap (λ f. f h) heads ∙ r.live_head;
        live = λ a i. ap (λ f. f a) nodes ∙ r.live a (ground (arith, member a));
      }

  after-SameBut : SameBut h (xs ++ y ∷ ys) m after
  after-SameBut =
      let next = first_or_null ys in
      let (heads, nodes) = deleted_freed y next m place in
      record {
        first = λ k d. deleted_first y next m place k ∙ rw (is_first-other k h xs d) refl;
        next = λ a o. ground (
          arith,
          deleted_next y next m place a,
          is_next-front a h xs,
          member a,
          has-append a xs (y ∷ ys),
        );
        pprev = λ a o. ground (
          arith,
          deleted_pprev y next m place a,
          first_or_null-test a ys,
          member a,
          has-append a xs (y ∷ ys),
        );
        freed_heads = heads;
        freed_nodes = nodes;
      }

  -- hlist_del of a node of a hash list returns and takes it out: the others keep their order, and no
  -- memory but that of the head and of the nodes of the list is written. Nothing is freed.
  pub hlist_del-Rehangs : Rehangs (hlist_del y) m h (xs ++ ys) (xs ++ y ∷ ys)
  hlist_del-Rehangs = (after, del_runs, after-IsHlist, after-SameBut)
