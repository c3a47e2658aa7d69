-- ===== src/TableScheduler.antt =====
-- How a table scheduler is created, started and destroyed: table_scheduler_create, table_scheduler_start
-- and table_scheduler_destroy of src/table_scheduler.c with what they call in src/scheduler.c. What is
-- acquired and released is written down in order.
mod Track
mod Live
mod Balance
mod Start
mod Examples
use architecture_evolution_f.Prelude.{
  ℕ, zero, suc, ◌+◌, Bool, true, false, Option, none, some, List, [], ◌∷◌, ◌++◌, ◌==◌, length,
  if◌then◌else◌, ◌>>=◌,
}
use architecture_evolution_f.Task.{TaskStruct}
use architecture_evolution_f.ScheduleTable.{ScheduleTable, Timespec}
use architecture_evolution_f.ScheduleTable.Timer.{ms_to_ns, start_timer}
use architecture_evolution_f.ScheduleTable.Build.{table_scheduler_init}
use architecture_evolution_f.EventTable.Epoll.{
  SystemCalls, Events, CreateResult, ret_success, ret_fail, reads_unwritten,
  table_scheduler_create_epoll, table_scheduler_destroy_epoll,
}

-- The memory of the scheduler and of its tables, by the index of the table, and what is initialised.
pub data Resource : Type 0 where
  scheduler_memory mutex_attr mutex init_cond resume_cond tables_array : Resource
  table eps_hashtable eps_array : (i : ℕ) → Resource

-- The two threads, in the order in which they are created.
pub data ThreadKind : Type 0 where
  timing scheduler : ThreadKind

-- `delete_infos` stands for the two calls of delete_all_task_info for each expiry point of a table, which
-- Hlist is about.
pub data Action : Type 0 where
  acquire release : Resource → Action
  delete_infos : (i : ℕ) → Action
  create_thread join_thread : ThreadKind → Action

abbrev pub Log : Type 0
Log = List Action

-- What init_scheduler and deinit_scheduler do to the mutex and the conditions.
abbrev pub init_scheduler_log : Log
init_scheduler_log =
    acquire mutex_attr
    ∷ acquire mutex
    ∷ release mutex_attr
    ∷ acquire init_cond
    ∷ acquire resume_cond
    ∷ []

abbrev pub deinit_scheduler_log : Log
deinit_scheduler_log = release mutex ∷ release init_cond ∷ release resume_cond ∷ []

-- A loop over the tables from `i` on.
unfoldable pub each : (ℕ → Log) → (rounds i : ℕ) → Log
each body zero i = []
each body (suc rounds) i = body i ++ each body rounds (i + 1)

-- The loop of table_scheduler_init that allocates the tables, and that which fills them.
abbrev pub table_log : ℕ → Log
table_log i = acquire (table i) ∷ []

abbrev pub eps_log : ℕ → Log
eps_log i = acquire (eps_hashtable i) ∷ acquire (eps_array i) ∷ release (eps_hashtable i) ∷ []

abbrev pub table_scheduler_init_log : ℕ → Log
table_scheduler_init_log n = acquire tables_array ∷ (each table_log n 0 ++ each eps_log n 0)

-- The loop of table_scheduler_deinit.
abbrev pub release_log : ℕ → Log
release_log i = delete_infos i ∷ release (eps_array i) ∷ release (table i) ∷ []

abbrev pub table_scheduler_deinit_log : ℕ → Log
table_scheduler_deinit_log n = each release_log n 0 ++ release tables_array ∷ []

abbrev pub schedule_timing_priority : ℕ
schedule_timing_priority = 90

abbrev pub scheduler_priority : ℕ
scheduler_priority = 50

-- What the system answers. pthread_create is asked for a thread under SCHED_FIFO with a priority.
pub record Answers : Type 0 where
  pub calls : SystemCalls
  pub pthread_create : ThreadKind → (priority : ℕ) → Bool

-- Whether the thread is created: RET_SUCCESS or RET_FAIL.
unfoldable pub create_schedule_timing_thread : Answers → Bool
create_schedule_timing_thread answers = answers.pthread_create timing schedule_timing_priority

unfoldable pub create_scheduler_thread : Answers → Bool
create_scheduler_thread answers = answers.pthread_create scheduler scheduler_priority

-- The part of `struct table_scheduler` that is made here.
pub record TableScheduler : Type 0 where
  pub tables : List ScheduleTable
  pub events : Events

-- What table_scheduler_create comes to: it returns a scheduler or NULL, the process exits, or the
-- behaviour is undefined.
pub data Creation : Type 0 where
  created : TableScheduler → Log → Creation
  returns_null : Events → Log → Creation
  exit : Log → Creation
  undefined : Creation

-- scheduler_create_threads, behind the log so far. Its waiting for the scheduler thread comes to an
-- end, since that thread leaves the state INIT.
abbrev pub threads_created : Bool → Bool → TableScheduler → Log → Creation
threads_created false starts s log = exit log
threads_created true false s log = exit (log ++ create_thread timing ∷ [])
threads_created true true s log =
    created s (log ++ create_thread timing ∷ create_thread scheduler ∷ [])

-- With the result of table_scheduler_create_epoll. The label scheduler_create_threads_fail is never reached.
abbrev pub epoll_created : Answers → List ScheduleTable → Log → CreateResult → Creation
epoll_created answers tables log (ret_success events) =
    threads_created (create_schedule_timing_thread answers) (create_scheduler_thread answers)
      (record { tables = tables; events = events }) log
epoll_created answers tables log (ret_fail events) = returns_null events (
    log
    ++ (table_scheduler_deinit_log (length tables)
        ++ (deinit_scheduler_log ++ release scheduler_memory ∷ [])))
epoll_created answers tables log reads_unwritten = undefined

abbrev pub creation_log : ℕ → Log
creation_log n = acquire scheduler_memory ∷ (init_scheduler_log ++ table_scheduler_init_log n)

-- With the tables of table_scheduler_init, which also empties the event table. `garbage` is what malloc
-- has left in the rest.
abbrev pub tables_created : Answers → Events → Option (List ScheduleTable) → Creation
tables_created answers garbage none = undefined
tables_created answers garbage (some tables) =
    epoll_created answers tables (creation_log (length tables)) (
      table_scheduler_create_epoll answers.calls (length tables)
        (record garbage { event_hashtable = λ index. [] }))

unfoldable pub table_scheduler_create : Answers → Events → List TaskStruct → Creation
table_scheduler_create answers garbage tasks =
    tables_created answers garbage (table_scheduler_init tasks)

-- scheduler_join_threads
abbrev pub join_log : Log
join_log = join_thread scheduler ∷ join_thread timing ∷ []

-- The log of table_scheduler_destroy and the events that it leaves, if the two threads can be joined.
unfoldable pub table_scheduler_destroy : TableScheduler → Option (Events × Log)
table_scheduler_destroy s = do
  events ← table_scheduler_destroy_epoll s.events
  some (
    events,
    join_log
        ++ (deinit_scheduler_log
            ++ (table_scheduler_deinit_log (length s.tables) ++ release scheduler_memory ∷ [])),
  )

-- table_scheduler_start for the tables from `i` on. `now i` is the clock at the start of the timer of
-- table `i`. The overflow of a delay has no result.
unfoldable pub start_each :
    (now : ℕ → Timespec) → (i : ℕ) → List ScheduleTable → Option (List ScheduleTable)
start_each now i [] = some []
start_each now i (t ∷ rest) = do
  ns ← ms_to_ns t.initial_offset
  rest' ← start_each now (i + 1) rest
  some (record t { new_timer = start_timer (now i) ns } ∷ rest')

unfoldable pub table_scheduler_start : (now : ℕ → Timespec) → TableScheduler → Option TableScheduler
table_scheduler_start now s = do
  tables ← start_each now 0 s.tables
  some (record s { tables = tables })
