-- ===== src/EventTable/Linked/Register.antt =====
-- register_event_table over the memory of the hash lists does what it does to the table of lists.
use architecture_evolution_f.Prelude.{
  ℕ, ◌%◌, ◌≡◌, ◌≢◌, refl, ap, sym, ◌∙◌, false, some, List, [], ◌∷◌, map, ◌==◌, arith, ◌∈◌, ◌∉◌,
  Bool-cases, inl, inr, update, ==_self, ==_ne,
}
use architecture_evolution_f.ListHead.{Ptr, null}
use architecture_evolution_f.Hlist.{first_of}
use architecture_evolution_f.Hlist.Chain.{
  IsHlist, Chain-first, Chain-frame, first_or_null, SameBut-IsHlist,
}
use architecture_evolution_f.Hlist.Add.{hlist_add_head-Rehangs}
use architecture_evolution_f.EventTable
use architecture_evolution_f.EventTable.{
  ProcessEventFunc, EventTableNode, EventHashtable, table_size, find_first, delete_first, lookup,
}
use architecture_evolution_f.EventTable.Linked.{LinkedTable, allocated, register_event_table}
use architecture_evolution_f.EventTable.Linked.Stands.{Stands, Bucket-update, apart-update}

map-update :
    (info : Ptr → EventTableNode) (n : Ptr) (node : EventTableNode) (xs : List Ptr)
    → n ∉ xs
    → map (update info n node) xs ≡ map info xs
map-update info n node [] o = refl
map-update info n node (x ∷ xs) o =
    let other : x ≢ n = ground arith in
    rw (==_ne x n other, map-update info n node xs (ground arith)) refl

first_or_null-out :
    (a : Ptr) (xs ys : List Ptr)
    → a ∈ ys
    → null ∉ ys
    → (a ∈ xs → a ∉ ys)
    → (a == first_or_null xs) ≡ false
first_or_null-out a [] ys i r d = ground arith
first_or_null-out a (x ∷ xs) ys i r d = ground arith

module _ (t : LinkedTable) (nodes : ℕ → List Ptr) (table : EventHashtable)
    (s : Stands t nodes table) (n fd event_index : ℕ) (pfunc : ProcessEventFunc) (real : n ≢ null)
    (fresh : (i : ℕ) → n ∉ nodes i) where
  abbrev index : ℕ
  index = fd % table_size

  abbrev entry : EventTableNode
  entry = record { fd = fd; p_event_func = pfunc; event_index = event_index }

  allocated-IsHlist : (i : ℕ) → IsHlist (allocated n t.memory) i (nodes i)
  allocated-IsHlist i =
      let r = (s.bucket i).hlist in
      record {
        chain =
            Chain-frame t.memory (allocated n t.memory) (first_of i) (nodes i) r.chain refl
              (λ a j. refl) (λ a j. refl);
        distinct = r.distinct;
        not_null = r.not_null;
        live_head = r.live_head;
        live = λ a j. ground (arith, r.live a j);
      }

  abbrev registered : EventHashtable
  registered = EventTable.register_event_table fd event_index pfunc table

  -- The nodes of the other lists are not touched.
  untouched : (i : ℕ) → i ≢ index → (a : Ptr) → a ∈ nodes i → a ∉ (n ∷ t.memory.first index ∷ [])
  untouched i d a j =
      let r = (s.bucket i).hlist in
      let first =
        Chain-first t.memory (first_of index) (nodes index) (s.bucket index).hlist.chain in
      let other : (a == first_or_null (nodes index)) ≡ false =
        first_or_null-out a (nodes index) (nodes i) j r.not_null
          (λ k. s.apart index i a (λ e. d (sym e)) k) in
      rw first (ground (arith, fresh i))

  taken : (j a : ℕ) → j ≢ index → a ∈ (n ∷ nodes index) → a ∉ nodes j
  taken j a d h = elim (Bool-cases (a == n)) [
    | inl own ↦ let same : a ≡ n = ground arith in rw same (fresh j)
    | inr other ↦ s.apart index j a (λ e. d (sym e)) (ground arith)
  ]

  -- Registering a descriptor with a node that malloc gives, so one that is in no list, puts it in the
  -- memory where the table of lists has it.
  pub register_refines :
      (t' : LinkedTable) × (register_event_table n fd event_index pfunc t ≡ some t')
      × Stands t'
          (update nodes (fd % table_size) (n ∷ nodes (fd % table_size)))
          (EventTable.register_event_table fd event_index pfunc table)
  unfolding register_event_table EventTable.register_event_table
  register_refines =
      let m0 = allocated n t.memory in
      let extended : map (update t.info n entry) (n ∷ nodes index) ≡ entry ∷ table index =
        rw (==_self n, map-update t.info n entry (nodes index) (fresh index))
          (ap (λ es. entry ∷ es) (s.bucket index).content) in
      let (m1, run, r, same) =
        hlist_add_head-Rehangs m0 index n (nodes index) (allocated-IsHlist index) (fresh index) real
          (rw (==_self n) refl) in
      (
        record { memory = m1; info = update t.info n entry },
        rw run refl,
        record {
          bucket =
              Bucket-update m1 (update t.info n entry) nodes table index (n ∷ nodes index)
                (entry ∷ table index) (record { hlist = r; content = extended })
                (λ i d. record {
                  hlist =
                      SameBut-IsHlist index i (n ∷ m0.first index ∷ []) (nodes i) m0 m1 same d
                        (untouched i d) (allocated-IsHlist i);
                  content = map-update t.info n entry (nodes i) (fresh i) ∙ (s.bucket i).content;
                });
          apart = apart-update nodes index (n ∷ nodes index) s.apart taken;
        },
      )
