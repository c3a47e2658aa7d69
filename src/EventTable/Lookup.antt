-- ===== src/EventTable/Lookup.antt =====
-- The event table as a map from descriptors.
use architecture_evolution_f.Prelude.{
  ℕ, ◌%◌, ◌+◌, ◌-◌, ◌≡◌, ◌≢◌, ◌≤◌, refl, ap, ◌∙◌, arith, none, some, List, [], ◌∷◌, ◌==◌, ==_self,
  ==_ne, if◌then◌else◌, Bool-cases, inl, inr, true, false,
}
use architecture_evolution_f.EventTable.{
  table_size, ProcessEventFunc, EventTableNode, EventHashtable, register_event_table, delete_first,
  unregister_event_table, find_first, lookup,
}

-- How many nodes of a hash list have the descriptor, and how many of the table.
unfoldable pub occurrences : ℕ → List EventTableNode → ℕ
occurrences fd [] = 0
occurrences fd (node ∷ rest) = (if node.fd == fd then 1 else 0) + occurrences fd rest

abbrev pub registrations : ℕ → EventHashtable → ℕ
registrations fd table = occurrences fd (table (fd % table_size))

find_first-delete_other :
    (fd other : ℕ) (nodes : List EventTableNode)
    → fd ≢ other
    → find_first fd (delete_first other nodes) ≡ find_first fd nodes
unfolding find_first delete_first
find_first-delete_other fd other [] h = refl
find_first-delete_other fd other (node ∷ rest) h =
    ground (arith, find_first-delete_other fd other rest h)

occurrences-delete_first :
    (fd other : ℕ) (nodes : List EventTableNode)
    → occurrences fd (delete_first other nodes)
      ≡ (if fd == other then occurrences fd nodes - 1 else occurrences fd nodes)
unfolding occurrences delete_first
occurrences-delete_first fd other [] = ground arith
occurrences-delete_first fd other (node ∷ rest) =
    ground (arith, occurrences-delete_first fd other rest)

find_first-none :
    (fd : ℕ) (nodes : List EventTableNode) → occurrences fd nodes ≡ 0 → find_first fd nodes ≡ none
unfolding occurrences find_first
find_first-none fd [] h = refl
find_first-none fd (node ∷ rest) h = ground (arith, find_first-none fd rest)

-- After a registration the event table gives the new node for its descriptor, and for every other
-- descriptor what it gave before, also where both hash to one list.
pub lookup-register_event_table :
    (fd other event_index : ℕ) (pfunc : ProcessEventFunc) (table : EventHashtable)
    → lookup other (register_event_table fd event_index pfunc table) ≡ (
        if other == fd
        then some (record { fd = fd; p_event_func = pfunc; event_index = event_index })
        else lookup other table)
unfolding register_event_table find_first
lookup-register_event_table fd other event_index pfunc table = ground arith

-- After the descriptor has been unregistered the event table gives the same as before for every
-- other descriptor. For this one there is one registration less, and none is found if there was at
-- most one.
pub lookup-unregister_event_table :
    (fd : ℕ) (table : EventHashtable)
    → let table' = unregister_event_table fd table in
      ((other : ℕ) → other ≢ fd → lookup other table' ≡ lookup other table)
      × (registrations fd table' ≡ registrations fd table - 1)
      × (registrations fd table ≤ 1 → lookup fd table' ≡ none)
unfolding unregister_event_table
lookup-unregister_event_table fd table = (
  λ other h. elim (Bool-cases (other % table_size == fd % table_size)) [
    | inl same ↦
        let at : fd % table_size ≡ other % table_size = ground arith in
        rw same (find_first-delete_other other fd _ h ∙ ap (λ b. find_first other (table b)) at)
    | inr apart ↦ rw apart refl
  ],
  rw (==_self (fd % table_size))
      (occurrences-delete_first fd fd (table (fd % table_size)) ∙ rw (==_self fd) refl),
  λ h. rw (==_self (fd % table_size)) (
      find_first-none fd (delete_first fd (table (fd % table_size)))
        (occurrences-delete_first fd fd (table (fd % table_size)) ∙ rw (==_self fd) (omega arith))),
)

-- Unregistering undoes the last registration of a descriptor: every hash list is as it was before.
pub unregister-register :
    (fd event_index : ℕ) (pfunc : ProcessEventFunc) (table : EventHashtable) (index : ℕ)
    → unregister_event_table fd (register_event_table fd event_index pfunc table) index
      ≡ table index
unfolding unregister_event_table register_event_table delete_first
unregister-register fd event_index pfunc table index =
    elim (Bool-cases (index == fd % table_size)) [
      | inl same ↦
          let at : fd % table_size ≡ index = ground arith in
          rw (same, ==_self (fd % table_size), ==_self fd) (ap table at)
      | inr apart ↦ rw apart refl
    ]

pub registrations-unregister_event_table :
    (fd other : ℕ) (table : EventHashtable)
    → registrations other (unregister_event_table fd table)
      ≡ (if other == fd then registrations other table - 1 else registrations other table)
unfolding unregister_event_table
registrations-unregister_event_table fd other table =
    elim (Bool-cases (other % table_size == fd % table_size)) [
      | inl same ↦
          let at : fd % table_size ≡ other % table_size = ground arith in
          rw same (
            occurrences-delete_first other fd (table (fd % table_size))
            ∙ ap
                (λ index.
                  if other == fd
                  then occurrences other (table index) - 1
                  else occurrences other (table index))
                at)
      | inr apart ↦
          let different : (other == fd) ≡ false = ==_ne other fd (λ e.
            let hit : (other % table_size == fd % table_size) ≡ true =
              rw e (==_self (fd % table_size)) in
            cc) in
          rw (apart, different) refl
    ]

pub registrations-fewer :
    (fd other : ℕ) (table : EventHashtable)
    → registrations other (unregister_event_table fd table) ≤ registrations other table
registrations-fewer fd other table =
    rw (registrations-unregister_event_table fd other table)
      (elim (Bool-cases (other == fd)) [ inl e ↦ rw e (omega arith) | inr e ↦ rw e (omega arith) ])
