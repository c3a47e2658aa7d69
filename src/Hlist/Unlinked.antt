-- ===== src/Hlist/Unlinked.antt =====
-- The links after hlist_del of a node of a hash list.
use architecture_evolution_f.Prelude.{
  ◌≡◌, ◌≢◌, refl, ap, ◌∙◌, Bool, false, some, none, List, [], ◌∷◌, ◌++◌, ◌==◌, arith, ◌∈◌, ◌∉◌,
  Distinct, if◌then◌else◌, ==_self, has-append,
}
use architecture_evolution_f.ListHead.{Ptr, null}
use architecture_evolution_f.ListHead.Ring.{last_of, last_of-mem, has-middle}
use architecture_evolution_f.Hlist.{Place, first_of, next_of, Memory, value, stored, stored_pprev}
use architecture_evolution_f.Hlist.Runs.{
  if_linked, if_linked_freed, if_linked_first, if_linked_next, if_linked_pprev,
}
use architecture_evolution_f.Hlist.Chain.{Chain, lies_in, Chain-frame, first_or_null, last_place}

-- The memory after hlist_del of `y`, with what its two fields held.
unfoldable pub deleted : (y : Ptr) → Place → (next : Ptr) → Memory → Memory
deleted y place next m =
    stored_pprev y none
      (stored (next_of y) null (if_linked next (some place) (stored place next m)))

abbrev pub is_first : Place → Ptr → Bool
is_first (first_of h) k = k == h
is_first (next_of a) k = false

abbrev pub is_next : Place → Ptr → Bool
is_next (first_of h) a = false
is_next (next_of b) a = a == b

module _ (y next : Ptr) (m : Memory) where
  stored_next :
      (place : Place) (a : Ptr)
      → ((stored place next m).nodes a).next ≡ (if is_next place a then next else (m.nodes a).next)
  stored_next (first_of h) a = refl
  stored_next (next_of b) a = ground arith

  stored_pprev_kept :
      (place : Place) (a : Ptr) → ((stored place next m).nodes a).pprev ≡ (m.nodes a).pprev
  stored_pprev_kept (first_of h) a = refl
  stored_pprev_kept (next_of b) a = ground arith

  stored_first :
      (place : Place) (k : Ptr)
      → (stored place next m).first k ≡ (if is_first place k then next else m.first k)
  stored_first (first_of h) k = refl
  stored_first (next_of b) k = refl

  pub stored_freed :
      (place : Place)
      → ((stored place next m).freed_heads ≡ m.freed_heads)
        × ((stored place next m).freed_nodes ≡ m.freed_nodes)
  stored_freed (first_of h) = (refl, refl)
  stored_freed (next_of b) = (refl, refl)

  pub deleted_freed :
      (place : Place)
      → ((deleted y place next m).freed_heads ≡ m.freed_heads)
        × ((deleted y place next m).freed_nodes ≡ m.freed_nodes)
  unfolding deleted
  deleted_freed place =
      let (heads, nodes) = if_linked_freed next (some place) (stored place next m) in
      let (heads', nodes') = stored_freed place in (heads ∙ heads', nodes ∙ nodes')

  pub deleted_first :
      (place : Place) (k : Ptr)
      → (deleted y place next m).first k ≡ (if is_first place k then next else m.first k)
  unfolding deleted
  deleted_first place k =
      ap (λ f. f k) (if_linked_first next (some place) (stored place next m)) ∙ stored_first place k

  pub deleted_next :
      (place : Place) (a : Ptr)
      → ((deleted y place next m).nodes a).next
        ≡ (if a == y then null else if is_next place a then next else (m.nodes a).next)
  unfolding deleted
  deleted_next place a =
      ground (arith, if_linked_next next (some place) (stored place next m) a, stored_next place a)

  pub deleted_pprev :
      (place : Place) (a : Ptr)
      → ((deleted y place next m).nodes a).pprev ≡ (
          if a == y
          then none
          else if next == null
          then (m.nodes a).pprev
          else if a == next
          then some place
          else (m.nodes a).pprev)
  unfolding deleted
  deleted_pprev place a =
      ground (
        arith,
        if_linked_pprev next (some place) (stored place next m) a,
        stored_pprev_kept place a,
      )

  -- What the place and another hold afterwards.
  value-deleted : (p : Place) → lies_in p (y ∷ []) ≡ false → value (deleted y p next m) p ≡ next
  value-deleted (first_of h) o = deleted_first (first_of h) h ∙ rw (==_self h) refl
  value-deleted (next_of b) o = ground (arith, deleted_next (next_of b) b)

  deleted_other :
      (p : Place) (b : Ptr)
      → lies_in p (y ∷ b ∷ []) ≡ false
      → value (deleted y (next_of b) next m) p ≡ value m p
  deleted_other (first_of h) b o = deleted_first (next_of b) h
  deleted_other (next_of a) b o = ground (arith, deleted_next (next_of b) a)

pub last_place-next : (x : Ptr) (xs : List Ptr) → last_place (next_of x) xs ≡ next_of (last_of x xs)
last_place-next x [] = refl
last_place-next x (y ∷ xs) = last_place-next y xs

-- A place in a list.
lies_in-other :
    (p : Place) (y b : Ptr) (zs : List Ptr)
    → lies_in p zs ≡ false
    → y ∈ zs
    → b ∈ zs
    → lies_in p (y ∷ b ∷ []) ≡ false
lies_in-other (first_of h) y b zs o i j = refl
lies_in-other (next_of a) y b zs o i j = ground arith

lies_in-head :
    (p : Place) (y : Ptr) (ys : List Ptr) → lies_in p (y ∷ ys) ≡ false → lies_in p (y ∷ []) ≡ false
lies_in-head (first_of h) y ys o = refl
lies_in-head (next_of a) y ys o = ground arith

pub is_next-out :
    (p : Place) (a : Ptr) (zs : List Ptr) → lies_in p zs ≡ false → a ∈ zs → is_next p a ≡ false
is_next-out (first_of h) a zs o i = refl
is_next-out (next_of b) a zs o i = ground arith

pub ne-first_or_null :
    (a : Ptr) (ys : List Ptr) → a ∉ ys → a ≢ null → (a == first_or_null ys) ≡ false
ne-first_or_null a [] o r = ground arith
ne-first_or_null a (y ∷ ys) o r = ground arith

pub Chain-deleted :
    (m : Memory) (p : Place) (xs : List Ptr) (y : Ptr) (ys : List Ptr)
    → Chain m p (xs ++ y ∷ ys)
    → Distinct (xs ++ y ∷ ys)
    → lies_in p (xs ++ y ∷ ys) ≡ false
    → null ∉ (xs ++ y ∷ ys)
    → Chain (deleted y (last_place p xs) (first_or_null ys) m) p (xs ++ ys)
Chain-deleted m p [] y [] c d o r = value-deleted y null m p (lies_in-head p y [] o)
Chain-deleted m p [] y (z ∷ ys) c d o r = (
  value-deleted y z m p (lies_in-head p y (z ∷ ys) o),
  ground (arith, deleted_pprev y z m p z),
  Chain-frame m (deleted y p z m) (next_of z) ys c.2.2
      (ground (arith, deleted_next y z m p z, is_next-out p z (y ∷ z ∷ ys) o))
      (λ a i. ground (arith, deleted_next y z m p a, is_next-out p a (y ∷ z ∷ ys) o))
      (λ a i. ground (arith, deleted_pprev y z m p a)),
)
Chain-deleted m p (x ∷ xs) y ys c d o r =
    let last = last_of x xs in
    let behind = first_or_null ys in
    let all = x ∷ xs ++ y ∷ ys in
    let last_in : last ∈ all = ground (arith, last_of-mem x xs, has-append last xs (y ∷ ys)) in
    let y_in : y ∈ all = ground (arith, has-middle y xs y ys) in
    let x_out : (x == behind) ≡ false =
      ne-first_or_null x ys (ground (arith, has-middle x xs y ys, has-append x xs ys))
        (ground arith) in
    (
      ap (λ q. value (deleted y q behind m) p) (last_place-next x xs)
          ∙ (deleted_other y behind m p last (lies_in-other p y last all o y_in last_in) ∙ c.0),
      ground (arith, deleted_pprev y behind m (last_place (next_of x) xs) x, has-middle x xs y ys),
      Chain-deleted m (next_of x) xs y ys c.2 d.1 d.0 (ground arith),
    )
