-- ===== src/Hlist/Examples.antt =====
-- The head 1 with the nodes 2 and 3, at concrete addresses.
use architecture_evolution_f.Prelude.{
  ℕ, ◌≡◌, refl, false, Option, some, none, [], ◌∷◌, arith, ◌==◌, if◌then◌else◌,
}
use architecture_evolution_f.Hlist.{
  Place, first_of, next_of, HlistNode, Memory, hlist_add_head, hlist_del, delete_all_task_info,
  init_hlist_head, write,
}
use architecture_evolution_f.Hlist.Chain.{IsHlist, Rehangs}
use architecture_evolution_f.Hlist.Add.{hlist_add_head-Rehangs}
use architecture_evolution_f.Hlist.Del.{hlist_del-Rehangs}
use architecture_evolution_f.Hlist.RoundTrip.{Restores, hlist_del-add_head}
use architecture_evolution_f.Hlist.Clear.{Cleared, delete_all-Cleared, copied, hlist_del-copied}

abbrev node : ℕ → Option Place → HlistNode
node next pprev = record { next = next; pprev = pprev }

abbrev two_nodes : Memory
two_nodes = record {
  first = λ h. if h == 1 then 2 else 0;
  nodes = λ a.
      if a == 2
      then node 3 (some (first_of 1))
      else if a == 3
      then node 0 (some (next_of 2))
      else node 0 none;
  freed_heads = λ h. false;
  freed_nodes = λ a. false;
}

two_nodes-IsHlist : IsHlist two_nodes 1 (2 ∷ 3 ∷ [])
two_nodes-IsHlist = record {
  chain = (refl, refl, (refl, refl, refl));
  distinct = (refl, (refl, tt));
  not_null = refl;
  live_head = refl;
  live = λ a i. refl;
}

added_node : Rehangs (hlist_add_head 4 1) two_nodes 1 (4 ∷ 2 ∷ 3 ∷ []) (4 ∷ 2 ∷ [])
added_node =
    hlist_add_head-Rehangs two_nodes 1 4 (2 ∷ 3 ∷ []) two_nodes-IsHlist refl (omega arith) refl

rehung : Rehangs (hlist_del 3) two_nodes 1 (2 ∷ []) (2 ∷ 3 ∷ [])
rehung = hlist_del-Rehangs two_nodes 1 (2 ∷ []) 3 [] two_nodes-IsHlist

hlist_del-add_head_example :
    (m1 : Memory) × (m2 : Memory) × (hlist_add_head 4 1 two_nodes ≡ some m1)
    × (hlist_del 4 m1 ≡ some m2)
    × Restores 4 two_nodes m2
hlist_del-add_head_example =
    hlist_del-add_head two_nodes 1 4 (2 ∷ 3 ∷ []) two_nodes-IsHlist refl (omega arith) refl

delete_all-Cleared_example :
    (m' : Memory) × (delete_all_task_info 3 1 two_nodes ≡ some m')
    × Cleared 1 (2 ∷ 3 ∷ []) two_nodes m'
delete_all-Cleared_example =
    delete_all-Cleared 3 two_nodes 1 (2 ∷ 3 ∷ []) (omega arith) two_nodes-IsHlist

hlist_del-copied_example :
    (hlist_del 2 (copied 1 7 two_nodes) ≡ none)
    × (delete_all_task_info 9 7 (copied 1 7 two_nodes) ≡ none)
hlist_del-copied_example =
    hlist_del-copied 9 two_nodes 1 7 2 (3 ∷ []) (omega arith) refl two_nodes-IsHlist

-- INIT_HLIST_HEAD gives the empty list.
empty_head : (m : Memory) × (init_hlist_head 5 two_nodes ≡ some m) × IsHlist m 5 []
unfolding init_hlist_head write
empty_head = (
  record two_nodes { first = λ h. if h == 5 then 0 else two_nodes.first h },
  refl,
  record { chain = refl; distinct = tt; not_null = refl; live_head = refl; live = λ a i. refl },
)
