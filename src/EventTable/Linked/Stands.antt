-- ===== src/EventTable/Linked/Stands.antt =====
-- When the memory of the event table stands for the table of lists, and the lookup over the links.
use architecture_evolution_f.Prelude.{
  ℕ, ◌%◌, ◌<◌, ◌≡◌, ◌≢◌, refl, subst, some, List, map, ◌==◌, arith, has, length, ◌∈◌, ◌∉◌,
  Bool-cases, inl, inr, update, ==_ne,
}
use architecture_evolution_f.ListHead.{Ptr}
use architecture_evolution_f.Hlist.{first_of, Memory}
use architecture_evolution_f.Hlist.Runs.{read_lem}
use architecture_evolution_f.Hlist.Chain.{IsHlist, Chain-first}
use architecture_evolution_f.EventTable.{EventTableNode, EventHashtable, table_size, lookup}
use architecture_evolution_f.EventTable.Linked.{LinkedTable, find_event}
use architecture_evolution_f.EventTable.Linked.Buckets.{Left, find_from-first}

-- The head `i` heads the nodes `xs`, whose other fields are `entries`.
pub record Bucket (m : Memory) (info : Ptr → EventTableNode) (i : ℕ) (xs : List Ptr)
    (entries : List EventTableNode) : Type 0 where
  pub hlist : IsHlist m i xs
  pub content : map info xs ≡ entries

-- The table stands for the lists `table`; `nodes` are the addresses. No node is in two lists.
pub record Stands (t : LinkedTable) (nodes : ℕ → List Ptr) (table : EventHashtable) : Type 0 where
  pub bucket : (i : ℕ) → Bucket t.memory t.info i (nodes i) (table i)
  pub apart : (i j a : ℕ) → i ≢ j → a ∈ nodes i → a ∉ nodes j

pub Bucket-update :
    (m : Memory) (info : Ptr → EventTableNode) (nodes : ℕ → List Ptr) (table : EventHashtable)
    (index : ℕ) (xs : List Ptr) (entries : List EventTableNode)
    → Bucket m info index xs entries
    → ((i : ℕ) → i ≢ index → Bucket m info i (nodes i) (table i))
    → (i : ℕ) → Bucket m info i (update nodes index xs i) (update table index entries i)
Bucket-update m info nodes table index xs entries b o i = elim (Bool-cases (i == index)) [
  | inl own ↦
      let same : index ≡ i = ground arith in rw own (subst (λ k. Bucket m info k xs entries) same b)
  | inr other ↦ rw other (o i (ground arith))
]

pub apart-update :
    (nodes : ℕ → List Ptr) (index : ℕ) (xs : List Ptr)
    → ((i j a : ℕ) → i ≢ j → a ∈ nodes i → a ∉ nodes j)
    → ((j a : ℕ) → j ≢ index → a ∈ xs → a ∉ nodes j)
    → ((i j a : ℕ) → i ≢ j → a ∈ update nodes index xs i → a ∉ update nodes index xs j)
apart-update nodes index xs p q i j a d h = elim (Bool-cases (i == index)) [
  | inl own ↦
      let away : j ≢ index = ground arith in
      let member : a ∈ xs = rw own at h in rw (==_ne j index away) (q j a away member)
  | inr other ↦
      let member : a ∈ nodes i = rw other at h in
      elim (Bool-cases (j == index)) [
        | inl there ↦ rw there (elim (Bool-cases (has a xs)) [
          | inl shared ↦ let out = q i a (ground arith) shared in cc
          | inr out ↦ out
        ])
        | inr elsewhere ↦ rw elsewhere (p i j a d member)
      ]
]

module _ (t : LinkedTable) (nodes : ℕ → List Ptr) (table : EventHashtable)
    (s : Stands t nodes table) where
  pub Stands-Left : (i : ℕ) → Left t.memory (first_of i) (nodes i)
  Stands-Left i =
      let r = (s.bucket i).hlist in record { chain = r.chain; not_null = r.not_null; live = r.live }

  -- The lookup of a descriptor over the links ends, with one round more than its list has nodes, and
  -- gives the node that the table of lists gives.
  pub find_event-lookup :
      (fuel fd : ℕ)
      → length (nodes (fd % table_size)) < fuel
      → find_event fuel fd t ≡ some (lookup fd table)
  unfolding find_event
  find_event-lookup fuel fd l =
      let index = fd % table_size in
      let b = s.bucket index in
      rw
        (
          read_lem (first_of index) t.memory b.hlist.live_head,
          Chain-first t.memory (first_of index) (nodes index) b.hlist.chain,
          find_from-first fuel fd t.info t.memory (first_of index) (nodes index) l
              (Stands-Left index),
          b.content,
        )
        refl
