-- ===== src/EventTable/Linked/Unregister.antt =====
-- unregister_event_table over the memory of the hash lists does what it does to the table of lists.
use architecture_evolution_f.Prelude.{ℕ, ◌%◌, List}
use architecture_evolution_f.ListHead.{Ptr}
use architecture_evolution_f.EventTable
use architecture_evolution_f.EventTable.{
  ProcessEventFunc, EventTableNode, EventHashtable, table_size, find_first, lookup,
}
use architecture_evolution_f.EventTable.Linked.{LinkedTable}
use architecture_evolution_f.EventTable.Linked.Stands.{Stands}

module _ (t : LinkedTable) (nodes : ℕ → List Ptr) (table : EventHashtable)
    (s : Stands t nodes table) (fd : ℕ) where
  abbrev bucket_index : ℕ
  bucket_index = fd % table_size
