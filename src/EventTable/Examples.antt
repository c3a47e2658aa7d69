-- ===== src/EventTable/Examples.antt =====
-- The event table at concrete descriptors, 3 and 103 in one hash list.
use architecture_evolution_f.Prelude.{ℕ, ◌≡◌, ◌≢◌, ◌≤◌, ◌-◌, none, [], ◌∷◌, if◌then◌else◌, ◌==◌}
use architecture_evolution_f.EventTable.{
  EventTableNode, EventHashtable, process_tick, process_isr_event, register_event_table,
  unregister_event_table, lookup,
}
use architecture_evolution_f.EventTable.Lookup.{
  registrations, lookup-register_event_table, lookup-unregister_event_table, unregister-register,
}

abbrev node : ℕ → EventTableNode
node n = record { fd = n; p_event_func = process_tick; event_index = 0 }

abbrev table : EventHashtable
table index = if index == 3 then node 103 ∷ node 3 ∷ [] else []

other_descriptor_found :
    lookup 103 (register_event_table 3 1 process_isr_event table) ≡ lookup 103 table
other_descriptor_found = lookup-register_event_table 3 103 1 process_isr_event table

after_unregistering :
    ((other : ℕ)
      → other ≢ 103
      → lookup other (unregister_event_table 103 table) ≡ lookup other table)
    × (registrations 103 (unregister_event_table 103 table) ≡ registrations 103 table - 1)
    × (registrations 103 table ≤ 1 → lookup 103 (unregister_event_table 103 table) ≡ none)
after_unregistering = lookup-unregister_event_table 103 table

restored_list :
    unregister_event_table 3 (register_event_table 3 1 process_isr_event table) 3
    ≡ node 103 ∷ node 3 ∷ []
restored_list = unregister-register 3 1 process_isr_event table 3
