-- ===== src/ListHead/Examples.antt =====
-- Circular lists at concrete addresses.
use architecture_evolution_f.Prelude.{
  ℕ, ◌≡◌, refl, false, some, [], ◌∷◌, arith, ◌==◌, if◌then◌else◌,
}
use architecture_evolution_f.ListHead.{
  ListNode, Heap, list_add_tail, list_del, init_list_head, list_empty,
}
use architecture_evolution_f.ListHead.Ring.{IsRing, Relinks}
use architecture_evolution_f.ListHead.Add.{list_add_tail-Relinks}
use architecture_evolution_f.ListHead.Del.{list_del-Relinks, init_list_head-Relinks, list_empty_lem}

abbrev node : ℕ → ℕ → ListNode
node next prev = record { next = next; prev = prev }

-- The head 1 with the nodes 2 and 3.
abbrev two_nodes : Heap
two_nodes a =
    if a == 1 then node 2 3 else if a == 2 then node 3 1 else if a == 3 then node 1 2 else node 0 0

two_nodes-IsRing : IsRing two_nodes 1 (2 ∷ 3 ∷ [])
two_nodes-IsRing = record {
  chain = ground arith;
  distinct = (refl, (refl, (refl, tt)));
  not_null = refl;
}

added_node : Relinks (list_add_tail 4 3) two_nodes 1 (2 ∷ 4 ∷ 3 ∷ []) (4 ∷ 1 ∷ 2 ∷ 3 ∷ [])
added_node =
    list_add_tail-Relinks two_nodes 1 (2 ∷ []) (3 ∷ []) 4 two_nodes-IsRing refl (omega arith)

deleted_node : Relinks (list_del 2) two_nodes 1 (3 ∷ []) (1 ∷ 2 ∷ 3 ∷ [])
deleted_node = list_del-Relinks two_nodes 1 [] 2 (3 ∷ []) two_nodes-IsRing

empty_head : Relinks (init_list_head 7) two_nodes 7 [] (7 ∷ [])
empty_head = init_list_head-Relinks two_nodes 7 (omega arith)

head_is_empty : list_empty 1 two_nodes ≡ some (false, two_nodes)
head_is_empty = list_empty_lem two_nodes 1 (2 ∷ 3 ∷ []) two_nodes-IsRing
