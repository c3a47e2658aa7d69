-- ===== src/EventTable.antt =====
-- The event table of table_scheduler.c: a hash table from file descriptors to the functions that
-- process their events, and the event loop that looks them up.
pub mod Lookup
pub mod Epoll
pub mod Linked
mod TimingThread
mod WakeUp
mod Examples
use architecture_evolution_f.Prelude.{
  ℕ, ◌%◌, Option, none, some, List, [], ◌∷◌, ◌==◌, if◌then◌else◌, update,
}

abbrev pub table_size : ℕ
table_size = 100

-- The functions that are registered.
pub data ProcessEventFunc : Type 0 where
  process_tick : ProcessEventFunc
  process_task_event : ProcessEventFunc
  process_isr_event : ProcessEventFunc

-- `args.scheduler` is always the table scheduler that owns the table.
pub record EventTableNode : Type 0 where
  pub fd : ℕ
  pub p_event_func : ProcessEventFunc
  pub event_index : ℕ

-- `event_hashtable`: the hash lists by index, from the first node on.
abbrev pub EventHashtable : Type 0
EventHashtable = ℕ → List EventTableNode

-- malloc is taken to succeed.
unfoldable pub register_event_table : ℕ → ℕ → ProcessEventFunc → EventHashtable → EventHashtable
register_event_table fd event_index pfunc table =
    let index = fd % table_size in
    let node : EventTableNode = record {
      fd = fd;
      p_event_func = pfunc;
      event_index = event_index;
    } in
    update table index (node ∷ table index)

-- The loop of unregister_event_table over a hash list.
unfoldable pub delete_first : ℕ → List EventTableNode → List EventTableNode
delete_first fd [] = []
delete_first fd (node ∷ rest) =
    let rest' = delete_first fd rest in if node.fd == fd then rest else node ∷ rest'

unfoldable pub unregister_event_table : ℕ → EventHashtable → EventHashtable
unregister_event_table fd table =
    let index = fd % table_size in update table index (delete_first fd (table index))

-- The inner loop of table_scheduler_schedule: the node whose function is called.
unfoldable pub find_first : ℕ → List EventTableNode → Option EventTableNode
find_first fd [] = none
find_first fd (node ∷ rest) =
    let later = find_first fd rest in if node.fd == fd then some node else later

abbrev pub lookup : ℕ → EventHashtable → Option EventTableNode
lookup fd table = find_first fd (table (fd % table_size))

abbrev call : Option EventTableNode → List EventTableNode → List EventTableNode
call none calls = calls
call (some node) calls = node ∷ calls

-- table_scheduler_schedule for the descriptors that epoll_wait returns: the nodes whose functions are
-- called, in order.
unfoldable pub table_scheduler_schedule : EventHashtable → List ℕ → List EventTableNode
table_scheduler_schedule table [] = []
table_scheduler_schedule table (fd ∷ fds) =
    call (lookup fd table) (table_scheduler_schedule table fds)
