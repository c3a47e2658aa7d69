-- ===== src/Hlist/Clear.antt =====
-- delete_all_task_info of src/table_scheduler.c: the loop that empties a hash list, and what becomes of it
-- when the head has been copied.
use architecture_evolution_f.Prelude.{
  ℕ, zero, suc, ◌<◌, ◌≡◌, ◌≢◌, refl, ap, sym, ◌∙◌, true, false, some, none, List, [], ◌∷◌, ◌==◌,
  arith, length, ◌∈◌, ◌∉◌, update, Bool-cases, inl, inr, ==_self,
}
use architecture_evolution_f.ListHead.{Ptr, null}
use architecture_evolution_f.Hlist.{
  Place, first_of, next_of, Memory, faults, value, write, hlist_unlink, hlist_del, free_node,
  delete_from, delete_all_task_info,
}
use architecture_evolution_f.Hlist.Runs.{read_lem, read_pprev_lem, node_faults}
use architecture_evolution_f.Hlist.Chain.{IsHlist, Chain-frame, Chain-first, SameBut}
use architecture_evolution_f.Hlist.Del.{hlist_del-Rehangs}

-- The head `h` of the nodes `xs` has been emptied and they have been freed, and no others.
pub record Cleared (h : Ptr) (xs : List Ptr) (m m' : Memory) : Type 0 where
  pub empty : IsHlist m' h []
  pub gone : (a : Ptr) → a ∈ xs → m'.freed_nodes a ≡ true
  pub kept : (a : Ptr) → a ∉ xs → m'.freed_nodes a ≡ m.freed_nodes a
  pub first : (k : Ptr) → k ≢ h → m'.first k ≡ m.first k
  pub next : (a : Ptr) → a ∉ xs → (m'.nodes a).next ≡ (m.nodes a).next
  pub pprev : (a : Ptr) → a ∉ xs → (m'.nodes a).pprev ≡ (m.nodes a).pprev

abbrev pub freed : Ptr → Memory → Memory
freed n m = record m { freed_nodes = update m.freed_nodes n true }

pub freed_runs :
    (n : Ptr) (m : Memory) → faults m (next_of n) ≡ false → free_node n m ≡ some (freed n m)
unfolding free_node
freed_runs n m f = rw f refl

pub freed-IsHlist :
    (m : Memory) (h n : Ptr) (xs : List Ptr) → n ∉ xs → IsHlist m h xs → IsHlist (freed n m) h xs
freed-IsHlist m h n xs o r = record {
  chain = Chain-frame m (freed n m) (first_of h) xs r.chain refl (λ a i. refl) (λ a i. refl);
  distinct = r.distinct;
  not_null = r.not_null;
  live_head = r.live_head;
  live = λ a i. ground (arith, r.live a i);
}

-- What a round leaves, and what the rounds after it do.
Cleared-step :
    (m m1 m' : Memory) (h x : Ptr) (xs : List Ptr)
    → SameBut h (x ∷ xs) m m1
    → x ∉ xs
    → Cleared h xs (freed x m1) m'
    → Cleared h (x ∷ xs) m m'
Cleared-step m m1 m' h x xs s o c = record {
  empty = c.empty;
  gone = λ a i. elim (Bool-cases (a == x)) [
    | inl own ↦ let same : a ≡ x = ground arith in rw same (c.kept x o ∙ rw (==_self x) refl)
    | inr other ↦ c.gone a (ground arith)
  ];
  kept = λ a i. c.kept a (ground arith) ∙ ground (arith, ap (λ f. f a) s.freed_nodes);
  first = λ k d. c.first k d ∙ s.first k d;
  next = λ a i. c.next a (ground arith) ∙ s.next a i;
  pprev = λ a i. c.pprev a (ground arith) ∙ s.pprev a i;
}

delete_from-step :
    (fuel : ℕ) (x n : Ptr) (m m1 : Memory)
    → x ≢ null
    → m.freed_nodes x ≡ false
    → (m.nodes x).next ≡ n
    → hlist_del x m ≡ some m1
    → m1.freed_nodes x ≡ false
    → delete_from (suc fuel) x m ≡ delete_from fuel n (freed x m1)
unfolding delete_from
delete_from-step fuel x n m m1 real live next run live' =
    let test : (x == null) ≡ false = ground arith in
    rw
      (
        test,
        read_lem (next_of x) m (node_faults m x real live),
        next,
        run,
        freed_runs x m1 (node_faults m1 x real live'),
      )
      refl

delete_from-Cleared :
    (fuel : ℕ) (m : Memory) (h : Ptr) (xs : List Ptr)
    → length xs < fuel
    → IsHlist m h xs
    → (m' : Memory) × (delete_from fuel (m.first h) m ≡ some m') × Cleared h xs m m'
unfolding delete_from
delete_from-Cleared zero m h xs l r = absurd (omega arith)
delete_from-Cleared (suc fuel) m h [] l r = (
  m,
  rw r.chain refl,
  record {
    empty = r;
    gone = λ a i. cc;
    kept = λ a i. refl;
    first = λ k d. refl;
    next = λ a i. refl;
    pprev = λ a i. refl;
  },
)
delete_from-Cleared (suc fuel) m h (x ∷ xs) l r =
    let (m1, run, r1, s1) = hlist_del-Rehangs m h [] x xs r in
    let r2 = freed-IsHlist m1 h x xs r.distinct.0 r1 in
    let (m', rest, c) = delete_from-Cleared fuel (freed x m1) h xs (omega arith) r2 in
    let live = r.live x (ground arith) in
    let next : (m.nodes x).next ≡ m1.first h =
      Chain-first m (next_of x) xs r.chain.2 ∙ sym (Chain-first m1 (first_of h) xs r1.chain) in
    (
      m',
      ap (λ p. delete_from (suc fuel) p m) r.chain.0
          ∙ (delete_from-step fuel x (m1.first h) m m1 (λ e. ground (arith, r.not_null)) live next
                run (ap (λ f. f x) s1.freed_nodes ∙ live)
              ∙ rest),
      Cleared-step m m1 m' h x xs s1 r.distinct.0 c,
    )

-- delete_all_task_info ends on every hash list: with one round more than the list has nodes it returns,
-- the list is empty then and exactly its nodes have been freed. The other heads and nodes are as
-- they were.
pub delete_all-Cleared :
    (fuel : ℕ) (m : Memory) (h : Ptr) (xs : List Ptr)
    → length xs < fuel
    → IsHlist m h xs
    → (m' : Memory) × (delete_all_task_info fuel h m ≡ some m') × Cleared h xs m m'
unfolding delete_all_task_info
delete_all-Cleared fuel m h xs l r =
    let (m', run, c) = delete_from-Cleared fuel m h xs l r in
    (m', rw (read_lem (first_of h) m r.live_head) run, c)

-- What table_scheduler_init does to the heads of an expiry point: `*k = *h`, and `h` is freed.
abbrev pub copied : (h k : Ptr) → Memory → Memory
copied h k m = record m {
  first = update m.first k (m.first h);
  freed_heads = update m.freed_heads h true;
}

write_fault : (p : Place) (v : Ptr) (m : Memory) → faults m p ≡ true → write p v m ≡ none
unfolding write
write_fault p v m f = rw f refl

hlist_del-fault :
    (m : Memory) (x : Ptr) (place : Place)
    → (m.nodes x).pprev ≡ some place
    → faults m (next_of x) ≡ false
    → faults m place ≡ true
    → hlist_del x m ≡ none
unfolding hlist_del hlist_unlink
hlist_del-fault m x place p f g =
    rw
      (
        read_lem (next_of x) m f,
        read_pprev_lem x m f,
        p,
        write_fault place (value m (next_of x)) m g,
      )
      refl

delete_from-fault :
    (fuel : ℕ) (m : Memory) (x : Ptr)
    → faults m (next_of x) ≡ false
    → x ≢ null
    → hlist_del x m ≡ none
    → delete_from fuel x m ≡ none
unfolding delete_from
delete_from-fault zero m x f real e = refl
delete_from-fault (suc fuel) m x f real e =
    let test : (x == null) ≡ false = ground arith in rw (test, read_lem (next_of x) m f, e) refl

-- The first node of a list whose head has been copied still has the address of the old head as its
-- pprev. If the old head has been freed, hlist_del of the node writes to memory that is free, and
-- so does delete_all_task_info of the new head, whatever its number of rounds.
pub hlist_del-copied :
    (fuel : ℕ) (m : Memory) (h k x : Ptr) (xs : List Ptr)
    → h ≢ k
    → m.freed_heads k ≡ false
    → IsHlist m h (x ∷ xs)
    → (hlist_del x (copied h k m) ≡ none) × (delete_all_task_info fuel k (copied h k m) ≡ none)
unfolding delete_all_task_info
hlist_del-copied fuel m h k x xs d lk r =
    let m' = copied h k m in
    let real : x ≢ null = λ e. ground (arith, r.not_null) in
    let f = node_faults m' x real (r.live x (ground arith)) in
    let freed_head : m'.freed_heads h ≡ true = rw (==_self h) refl in
    let broken = hlist_del-fault m' x (first_of h) r.chain.1 f freed_head in
    let live : m'.freed_heads k ≡ false = ground arith in
    let first : m'.first k ≡ x = rw (==_self k) r.chain.0 in
    (
      broken,
      rw (read_lem (first_of k) m' live)
          (ap (λ p. delete_from fuel p m') first ∙ delete_from-fault fuel m' x f real broken),
    )
