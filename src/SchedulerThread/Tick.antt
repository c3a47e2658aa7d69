-- ===== src/SchedulerThread/Tick.antt =====
-- process_tick against the scheduler thread: the wake-up and the table that is served.
use architecture_evolution_f.Prelude.{
  ℕ, ◌≡◌, ◌≢◌, refl, ap, ◌∙◌, sym, true, false, some, >>=-eq-some, update, ==_self, update_ne,
}
use architecture_evolution_f.Task.{SchedState}
use architecture_evolution_f.ScheduleTable.{ScheduleTable}
use architecture_evolution_f.ScheduleTable.Timer.{update_timer}
use architecture_evolution_f.SchedulerThread.{
  Sched, notify, process_tick, due_of, tasks_due, park, is_resuming, may_resume,
}

-- What the notification leaves alone.
notify_tables :
    (st : SchedState) (s : Sched)
    → ((notify st s).tables ≡ s.tables)
      × ((notify st s).current_table_id ≡ s.current_table_id)
      × ((notify st s).ready ≡ s.ready)
      × ((notify st s).timing_arrived ≡ s.timing_arrived)
notify_tables SchedState.init s = (refl, refl, refl, refl)
notify_tables SchedState.suspended s = (refl, refl, refl, refl)
notify_tables SchedState.resuming s = (refl, refl, refl, refl)
notify_tables SchedState.running s = (refl, refl, refl, refl)
notify_tables SchedState.waiting s = (refl, refl, refl, refl)

-- The state before the notification.
abbrev pub ticked : ℕ → ScheduleTable → Sched → Sched
ticked i table s = record s {
  current_table_id = i;
  tables = update s.tables i table;
  timing_arrived = true;
}

pub process_tick-ticked :
    (i : ℕ) (s s' : Sched)
    → process_tick i s ≡ some s'
    → (table : ScheduleTable) × (update_timer (s.tables i) ≡ some table)
      × (notify s.state (ticked i table s) ≡ s')
unfolding process_tick
process_tick-ticked i s s' e =
    let (table, g, k) = >>=-eq-some (update_timer (s.tables i)) _ e in (table, g, cc)

parked :
    (i : ℕ) (s : Sched) (table : ScheduleTable)
    → update_timer (s.tables i) ≡ some table
    → process_tick i (park s) ≡ some (notify SchedState.suspended (ticked i table (park s)))
unfolding process_tick park
parked i s table g = rw g refl

-- A tick that comes when the scheduler thread has ended its epoch (the state is SUSPENDED) but has not
-- yet entered scheduler_wait_resume is lost: the thread could resume, but the exchange at the
-- entry overwrites RESUMING and it waits, with timing_arrived set. The same tick behind the
-- exchange wakes the thread.
pub process_tick-park :
    (i : ℕ) (s s' : Sched)
    → s.state ≡ SchedState.suspended
    → process_tick i s ≡ some s'
    → (may_resume s' ≡ true)
      × (may_resume (park s') ≡ false)
      × ((park s').timing_arrived ≡ true)
      × ((s'' : Sched) × (process_tick i (park s) ≡ some s'') × (may_resume s'' ≡ true))
unfolding park may_resume
process_tick-park i s s' h e =
    let (table, g, same) = process_tick-ticked i s s' e in
    let t = ticked i table s in
    let awake : s'.state ≡ SchedState.resuming =
      ap (λ u. u.state) (sym same) ∙ ap (λ st. (notify st t).state) h in
    let arrived : s'.timing_arrived ≡ true =
      ap (λ u. u.timing_arrived) (sym same) ∙ ap (λ st. (notify st t).timing_arrived) h in
    (
      ap is_resuming awake,
      refl,
      arrived,
      (notify SchedState.suspended (ticked i table (park s)), parked i s table g, refl),
    )

-- What a tick of table `i` has done to the tables and to the ready queue.
record HasTicked (i : ℕ) (table : ScheduleTable) (s s' : Sched) : Type 0 where
  moved : s'.tables i ≡ table
  others : (k : ℕ) → k ≢ i → s'.tables k ≡ s.tables k
  current : s'.current_table_id ≡ i
  ready : s'.ready ≡ s.ready
  arrived : s'.timing_arrived ≡ true

process_tick-HasTicked :
    (i : ℕ) (s s' : Sched)
    → process_tick i s ≡ some s'
    → (table : ScheduleTable) × (update_timer (s.tables i) ≡ some table) × HasTicked i table s s'
process_tick-HasTicked i s s' e =
    let (table, g, same) = process_tick-ticked i s s' e in
    let (tables, id, queue, flag) = notify_tables s.state (ticked i table s) in
    (
      table,
      g,
      rw⁻¹ same (record {
        moved = ap (λ f. f i) tables ∙ rw (==_self i) refl;
        others = λ k d. ap (λ f. f k) tables ∙ update_ne s.tables i k table d;
        current = id;
        ready = queue;
        arrived = flag;
      }),
    )

-- Two tables that expire before the scheduler thread makes its next pass: both are moved on and
-- the second stays current, so only the tasks of its expiry point are due. Those of the first are
-- not queued, and their expiry point is behind.
pub process_tick-twice :
    (i j : ℕ) (s s1 s2 : Sched)
    → i ≢ j
    → process_tick i s ≡ some s1
    → process_tick j s1 ≡ some s2
    → (first : ScheduleTable) × (second : ScheduleTable) × (update_timer (s.tables i) ≡ some first)
      × (update_timer (s.tables j) ≡ some second)
      × (s2.tables i ≡ first)
      × (tasks_due s2 ≡ due_of second)
      × (s2.ready ≡ s.ready)
      × (s2.timing_arrived ≡ true)
unfolding tasks_due
process_tick-twice i j s s1 s2 d e e' =
    let (first, g, a) = process_tick-HasTicked i s s1 e in
    let (second, g', b) = process_tick-HasTicked j s1 s2 e' in
    let before : s1.tables j ≡ s.tables j = a.others j (λ q. d (sym q)) in
    (
      first,
      second,
      g,
      ap update_timer (sym before) ∙ g',
      b.others i d ∙ a.moved,
      ap due_of (ap s2.tables b.current ∙ b.moved),
      b.ready ∙ a.ready,
      b.arrived,
    )
