-- ===== src/Hlist.antt =====
-- OS_evolution/Task Schedule/inc/list.h, the hash lists: `struct hlist_head` and `struct hlist_node`, and
-- the functions and loops over them. A `struct hlist_node **` is a place, and NULL is `none`. A
-- command has no result when it reads or writes through NULL or into memory that has been freed. A
-- structure is named by the address of the node embedded in it, so hlist_entry is the identity.
pub mod Chain
pub mod Runs
pub mod Add
pub mod Unlinked
pub mod Del
pub mod RoundTrip
pub mod Clear
mod Examples
use architecture_evolution_f.Prelude.{
  ℕ, zero, suc, Bool, true, false, Option, none, some, ◌==◌, ◌||◌, if◌then◌else◌, update, ◌>>=◌,
}
use architecture_evolution_f.ListHead.{Ptr, null}

-- Where a `struct hlist_node *` is kept: in the head, or in the node before.
pub data Place : Type 0 where
  first_of : (head : Ptr) → Place
  next_of : (node : Ptr) → Place

-- struct hlist_node
pub record HlistNode : Type 0 where
  pub next : Ptr
  pub pprev : Option Place

-- The heads (struct hlist_head), the nodes, and which of them have been freed.
pub record Memory : Type 0 where
  pub first : Ptr → Ptr
  pub nodes : Ptr → HlistNode
  pub freed_heads : Ptr → Bool
  pub freed_nodes : Ptr → Bool

abbrev pub faults : Memory → Place → Bool
faults m (first_of h) = m.freed_heads h
faults m (next_of n) = (n == null) || m.freed_nodes n

abbrev pub value : Memory → Place → Ptr
value m (first_of h) = m.first h
value m (next_of n) = (m.nodes n).next

abbrev pub stored : Place → Ptr → Memory → Memory
stored (first_of h) v m = record m { first = update m.first h v }
stored (next_of n) v m = record m { nodes = update m.nodes n (record (m.nodes n) { next = v }) }

abbrev pub stored_pprev : Ptr → Option Place → Memory → Memory
stored_pprev n p m = record m { nodes = update m.nodes n (record (m.nodes n) { pprev = p }) }

-- `*p`, `*p = v`, `n->pprev` and `n->pprev = p`.
unfoldable pub read : Place → Memory → Option Ptr
read p m = if faults m p then none else some (value m p)

unfoldable pub write : Place → Ptr → Memory → Option Memory
write p v m = if faults m p then none else some (stored p v m)

unfoldable pub read_pprev : Ptr → Memory → Option Place
read_pprev n m = if faults m (next_of n) then none else (m.nodes n).pprev

unfoldable pub write_pprev : Ptr → Option Place → Memory → Option Memory
write_pprev n p m = if faults m (next_of n) then none else some (stored_pprev n p m)

-- INIT_HLIST_HEAD
unfoldable pub init_hlist_head : Ptr → Memory → Option Memory
init_hlist_head h m = write (first_of h) null m

abbrev pub if_some : Ptr → (Memory → Option Memory) → Memory → Option Memory
if_some p f m = if p == null then some m else f m

unfoldable pub hlist_add_head : (n h : Ptr) → Memory → Option Memory
hlist_add_head n h m = do
  first ← read (first_of h) m
  m1 ← write (next_of n) first m
  m2 ← if_some first (write_pprev first (some (next_of n))) m1
  m3 ← write (first_of h) n m2
  write_pprev n (some (first_of h)) m3

-- __hlist_del. Its pprev is read as a place, so NULL has no result.
unfoldable pub hlist_unlink : Ptr → Memory → Option Memory
hlist_unlink n m = do
  next ← read (next_of n) m
  pprev ← read_pprev n m
  m1 ← write pprev next m
  if_some next (write_pprev next (some pprev)) m1

unfoldable pub hlist_del : Ptr → Memory → Option Memory
hlist_del n m = do m1 ← hlist_unlink n m; m2 ← write (next_of n) null m1; write_pprev n none m2

-- `free` of a structure with an embedded node.
unfoldable pub free_node : Ptr → Memory → Option Memory
free_node n m =
    if faults m (next_of n)
    then none
    else some (record m { freed_nodes = update m.freed_nodes n true })

-- The rounds of delete_all_task_info of src/table_scheduler.c, which hlist_for_each_entry_safe makes, from
-- the node `pos` on. Without fuel there is no result.
unfoldable pub delete_from : (fuel : ℕ) → (pos : Ptr) → Memory → Option Memory
delete_from zero pos m = none
delete_from (suc fuel) pos m =
    if_some pos
      (λ m0. do
        n ← read (next_of pos) m0
        m1 ← hlist_del pos m0
        m2 ← free_node pos m1
        delete_from fuel n m2)
      m

unfoldable pub delete_all_task_info : (fuel : ℕ) → (head : Ptr) → Memory → Option Memory
delete_all_task_info fuel head m = do pos ← read (first_of head) m; delete_from fuel pos m
