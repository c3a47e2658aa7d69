-- ===== src/EventTable/Linked/Examples.antt =====
-- The descriptors 5 and 105 in the hash list 5.
use architecture_evolution_f.Prelude.{
  ℕ, ◌≡◌, refl, false, Option, some, none, List, [], ◌∷◌, arith, ◌==◌, subst, if◌then◌else◌, update,
  Bool-cases, inl, inr,
}
use architecture_evolution_f.ListHead.{Ptr}
use architecture_evolution_f.Hlist.{Place, first_of, next_of, HlistNode}
use architecture_evolution_f.EventTable
use architecture_evolution_f.EventTable.{
  process_tick, process_isr_event, EventTableNode, EventHashtable, lookup,
}
use architecture_evolution_f.EventTable.Linked.{LinkedTable, register_event_table, find_event}
use architecture_evolution_f.EventTable.Linked.Stands.{Bucket, Stands, find_event-lookup}
use architecture_evolution_f.EventTable.Linked.Register.{register_refines}

abbrev entry : ℕ → ℕ → EventTableNode
entry fd event_index = record { fd = fd; p_event_func = process_tick; event_index = event_index }

abbrev node : ℕ → Option Place → HlistNode
node next pprev = record { next = next; pprev = pprev }

abbrev linked : LinkedTable
linked = record {
  memory = record {
    first = λ h. if h == 5 then 20 else 0;
    nodes = λ a.
        if a == 20
        then node 21 (some (first_of 5))
        else if a == 21
        then node 0 (some (next_of 20))
        else node 0 none;
    freed_heads = λ h. false;
    freed_nodes = λ a. false;
  };
  info = λ a. if a == 20 then entry 105 1 else entry 5 0;
}

abbrev nodes : ℕ → List Ptr
nodes i = if i == 5 then 20 ∷ 21 ∷ [] else []

abbrev table : EventHashtable
table i = if i == 5 then entry 105 1 ∷ entry 5 0 ∷ [] else []

two_nodes : Bucket linked.memory linked.info 5 (nodes 5) (table 5)
two_nodes = record {
  hlist = record {
    chain = (refl, refl, (refl, refl, refl));
    distinct = (refl, (refl, tt));
    not_null = refl;
    live_head = refl;
    live = λ a i. refl;
  };
  content = refl;
}

no_nodes : (i : ℕ) → (i == 5) ≡ false → Bucket linked.memory linked.info i [] []
no_nodes i other = record {
  hlist = record {
    chain = rw other refl;
    distinct = tt;
    not_null = refl;
    live_head = refl;
    live = λ a i. refl;
  };
  content = refl;
}

linked-Stands : Stands linked nodes table
linked-Stands = record {
  bucket = λ i. elim (Bool-cases (i == 5)) [
    | inl five ↦
        let same : 5 ≡ i = ground arith in
        subst (λ k. Bucket linked.memory linked.info k (nodes k) (table k)) same two_nodes
    | inr other ↦ rw other (no_nodes i other)
  ];
  apart = λ i j a d h. ground arith;
}

register_refines_example :
    (t' : LinkedTable) × (register_event_table 30 205 2 process_isr_event linked ≡ some t')
    × Stands t'
        (update nodes 5 (30 ∷ nodes 5))
        (EventTable.register_event_table 205 2 process_isr_event table)
register_refines_example =
    register_refines linked nodes table linked-Stands 30 205 2 process_isr_event (omega arith)
      (λ i. ground arith)

find_event-lookup_example : find_event 3 5 linked ≡ some (lookup 5 table)
find_event-lookup_example = find_event-lookup linked nodes table linked-Stands 3 5 (omega arith)
