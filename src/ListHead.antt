-- ===== src/ListHead.antt =====
-- OS_evolution/Task Schedule/inc/list.h, the circular doubly linked list: `struct list_head` nodes
-- in a memory indexed by address, and the functions that relink them. A command returns `none` when
-- it reads or writes through NULL. A structure is named by the address of the node embedded in it,
-- so `list_entry` and `container_of` are the identity.
pub mod Ring
pub mod Add
pub mod Del
mod Examples
use architecture_evolution_f.Prelude.{ℕ, Bool, Option, none, some, ◌==◌, if◌then◌else◌, update}

abbrev pub Ptr : Type 0
Ptr = ℕ

abbrev pub null : Ptr
null = 0

-- struct list_head
pub record ListNode : Type 0 where
  pub next : Ptr
  pub prev : Ptr

abbrev pub Heap : Type 0
Heap = Ptr → ListNode

abbrev pub Cmd : Type 0 → Type 0
Cmd A = Heap → Option (A × Heap)

abbrev pub pure : {A : Type 0} → A → Cmd A
pure a h = some (a, h)

module _ {A B : Type 0} where
  abbrev pub and_then : Option (A × Heap) → (A → Cmd B) → Option (B × Heap)
  and_then none f = none
  and_then (some (a, h)) f = f a h

  infixl 5 ◌>>=◌ ◌>>◌
  abbrev pub ◌>>=◌ : Cmd A → (A → Cmd B) → Cmd B
  m >>= f = λ h. and_then (m h) f

  abbrev pub ◌>>◌ : Cmd A → Cmd B → Cmd B
  m >> k = m >>= λ _. k

-- `*p`
abbrev pub load : Ptr → Cmd ListNode
load p h = if p == null then none else some (h p, h)

-- `p->next = q`
abbrev pub set_next : Ptr → Ptr → Cmd (Unit {0})
set_next p q h = if p == null then none else some (tt, update h p (record (h p) { next = q }))

-- `p->prev = q`
abbrev pub set_prev : Ptr → Ptr → Cmd (Unit {0})
set_prev p q h = if p == null then none else some (tt, update h p (record (h p) { prev = q }))

-- INIT_LIST_HEAD
unfoldable pub init_list_head : Ptr → Cmd (Unit {0})
init_list_head list = do set_next list list; set_prev list list

-- __list_add
unfoldable pub list_add_between : (new prev next : Ptr) → Cmd (Unit {0})
list_add_between new prev next = do
  set_prev next new
  set_next new next
  set_prev new prev
  set_next prev new

unfoldable pub list_add : (new head : Ptr) → Cmd (Unit {0})
unfolding list_add_between
list_add new head = do node ← load head; list_add_between new head node.next

unfoldable pub list_add_tail : (new head : Ptr) → Cmd (Unit {0})
unfolding list_add_between
list_add_tail new head = do node ← load head; list_add_between new node.prev head

-- __list_del
unfoldable pub list_del_between : (prev next : Ptr) → Cmd (Unit {0})
list_del_between prev next = do set_prev next prev; set_next prev next

unfoldable pub list_del : Ptr → Cmd (Unit {0})
unfolding list_del_between
list_del entry = do
  node ← load entry
  list_del_between node.prev node.next
  set_next entry null
  set_prev entry null

unfoldable pub list_empty : Ptr → Cmd Bool
list_empty head = do node ← load head; pure (node.next == head)
