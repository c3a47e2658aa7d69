-- ===== src/Hlist/Runs.antt =====
-- When the reads and writes of the hash lists come through.
use architecture_evolution_f.Prelude.{
  ◌≡◌, ◌≢◌, refl, false, Option, some, ◌==◌, arith, if◌then◌else◌, Bool-cases, inl, inr,
}
use architecture_evolution_f.ListHead.{Ptr, null}
use architecture_evolution_f.Hlist.{
  Place, first_of, next_of, Memory, faults, value, stored, stored_pprev, read, write, read_pprev,
  write_pprev, if_some,
}

pub read_lem : (p : Place) (m : Memory) → faults m p ≡ false → read p m ≡ some (value m p)
unfolding read
read_lem p m f = rw f refl

pub write_lem :
    (p : Place) (v : Ptr) (m : Memory) → faults m p ≡ false → write p v m ≡ some (stored p v m)
unfolding write
write_lem p v m f = rw f refl

pub write_pprev_lem :
    (n : Ptr) (p : Option Place) (m : Memory)
    → faults m (next_of n) ≡ false
    → write_pprev n p m ≡ some (stored_pprev n p m)
unfolding write_pprev
write_pprev_lem n p m f = rw f refl

pub read_pprev_lem :
    (n : Ptr) (m : Memory) → faults m (next_of n) ≡ false → read_pprev n m ≡ (m.nodes n).pprev
unfolding read_pprev
read_pprev_lem n m f = rw f refl

-- A node that is neither NULL nor freed.
pub node_faults :
    (m : Memory) (n : Ptr) → n ≢ null → m.freed_nodes n ≡ false → faults m (next_of n) ≡ false
node_faults m n real live = ground arith

-- The write to the next node, if there is one.
abbrev pub if_linked : Ptr → Option Place → Memory → Memory
if_linked p place m = if p == null then m else stored_pprev p place m

pub if_linked_lem :
    (p : Ptr) (place : Option Place) (m : Memory)
    → (p ≢ null → m.freed_nodes p ≡ false)
    → if_some p (write_pprev p place) m ≡ some (if_linked p place m)
if_linked_lem p place m live = elim (Bool-cases (p == null)) [
  | inl e ↦ rw e refl
  | inr e ↦
      let real : p ≢ null = ground arith in
      rw e (write_pprev_lem p place m (node_faults m p real (live real)))
]

-- No write frees anything.
pub faults-stored :
    (q : Place) (v : Ptr) (m : Memory) (p : Place) → faults (stored q v m) p ≡ faults m p
faults-stored (first_of h) v m (first_of k) = refl
faults-stored (first_of h) v m (next_of k) = refl
faults-stored (next_of n) v m (first_of k) = refl
faults-stored (next_of n) v m (next_of k) = refl

pub faults-stored_pprev :
    (n : Ptr) (place : Option Place) (m : Memory) (p : Place)
    → faults (stored_pprev n place m) p ≡ faults m p
faults-stored_pprev n place m (first_of k) = refl
faults-stored_pprev n place m (next_of k) = refl

pub faults-if_linked :
    (n : Ptr) (place : Option Place) (m : Memory) (p : Place)
    → faults (if_linked n place m) p ≡ faults m p
faults-if_linked n place m p = elim (Bool-cases (n == null)) [
  | inl e ↦ rw e refl
  | inr e ↦ rw e (faults-stored_pprev n place m p)
]

-- What the write to the next node leaves, and what it changes.
module _ (p : Ptr) (place : Option Place) (m : Memory) where
  pub if_linked_freed :
      ((if_linked p place m).freed_heads ≡ m.freed_heads)
      × ((if_linked p place m).freed_nodes ≡ m.freed_nodes)
  if_linked_freed = elim (Bool-cases (p == null)) [
    | inl e ↦ rw e (refl, refl)
    | inr e ↦ rw e (refl, refl)
  ]

  pub if_linked_first : (if_linked p place m).first ≡ m.first
  if_linked_first = elim (Bool-cases (p == null)) [ inl e ↦ rw e refl | inr e ↦ rw e refl ]

  pub if_linked_next : (a : Ptr) → ((if_linked p place m).nodes a).next ≡ (m.nodes a).next
  if_linked_next a = ground arith

  pub if_linked_pprev :
      (a : Ptr)
      → ((if_linked p place m).nodes a).pprev
        ≡ (if p == null then (m.nodes a).pprev else if a == p then place else (m.nodes a).pprev)
  if_linked_pprev a = ground arith
