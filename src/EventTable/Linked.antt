-- ===== src/EventTable/Linked.antt =====
-- The event table of src/table_scheduler.c over the memory of its hash lists: register_event_table and
-- unregister_event_table with hlist_add_head and hlist_del, and the inner loop of
-- table_scheduler_schedule. The head of a hash list is named by its index in event_hashtable.
mod Buckets
mod Stands
mod Register
mod Unregister
mod Examples
use architecture_evolution_f.Prelude.{
  ℕ, zero, suc, ◌%◌, Bool, false, Option, none, some, ◌==◌, if◌then◌else◌, update, ◌>>=◌,
}
use architecture_evolution_f.ListHead.{Ptr, null}
use architecture_evolution_f.Hlist.{
  first_of, next_of, Memory, read, hlist_add_head, hlist_del, free_node,
}
use architecture_evolution_f.EventTable.{ProcessEventFunc, EventTableNode, table_size}

-- The lists, and the other fields of the nodes by their address.
pub record LinkedTable : Type 0 where
  pub memory : Memory
  pub info : Ptr → EventTableNode

abbrev pub with_memory : LinkedTable → Option Memory → Option LinkedTable
with_memory t none = none
with_memory t (some m) = some (record t { memory = m })

-- What malloc gives is not free any more.
abbrev pub allocated : Ptr → Memory → Memory
allocated n m = record m { freed_nodes = update m.freed_nodes n false }

-- `n` is the address that malloc has answered.
unfoldable pub register_event_table :
    (n fd event_index : ℕ) → ProcessEventFunc → LinkedTable → Option LinkedTable
register_event_table n fd event_index pfunc t =
    let index = fd % table_size in
    let node : EventTableNode = record {
      fd = fd;
      p_event_func = pfunc;
      event_index = event_index;
    } in
    with_memory (record t { info = update t.info n node })
      (hlist_add_head n index (allocated n t.memory))

-- The rounds of unregister_event_table from the node `pos` on; without fuel there is no result.
unfoldable pub unregister_from :
    (fuel fd : ℕ) → (info : Ptr → EventTableNode) → (pos : Ptr) → Memory → Option Memory
unregister_from zero fd info pos m = none
unregister_from (suc fuel) fd info pos m =
    let later = (read (next_of pos) m >>= λ next. unregister_from fuel fd info next m) in
    if pos == null
    then some m
    else if (info pos).fd == fd
    then (do m1 ← hlist_del pos m; free_node pos m1)
    else later

unfoldable pub unregister_event_table : (fuel fd : ℕ) → LinkedTable → Option LinkedTable
unregister_event_table fuel fd t = with_memory t (
    read (first_of (fd % table_size)) t.memory >>= λ pos.
    unregister_from fuel fd t.info pos t.memory)

-- The inner loop of table_scheduler_schedule from the node `pos` on: the node that it calls, if any.
unfoldable pub find_from :
    (fuel fd : ℕ)
    → (info : Ptr → EventTableNode) → (pos : Ptr) → Memory
    → Option (Option EventTableNode)
find_from zero fd info pos m = none
find_from (suc fuel) fd info pos m =
    let later = (read (next_of pos) m >>= λ next. find_from fuel fd info next m) in
    if pos == null then some none else if (info pos).fd == fd then some (some (info pos)) else later

unfoldable pub find_event : (fuel fd : ℕ) → LinkedTable → Option (Option EventTableNode)
find_event fuel fd t = do
  pos ← read (first_of (fd % table_size)) t.memory
  find_from fuel fd t.info pos t.memory
