-- ===== src/ScheduleTable/Timer/Edges.antt =====
-- Which expiry point a tick serves, and what becomes of a single-shot table and of long gaps.
use architecture_evolution_f.Prelude.{◌≡◌, inl, inr, some, arith}
use architecture_evolution_f.ScheduleTable.{Timespec, ScheduleTable}
use architecture_evolution_f.ScheduleTable.Timer.{update_timer, current_ep_index}
use architecture_evolution_f.ScheduleTable.Timer.Cycle.{
  IsBuilt, next_index, index-cases, next_index_inner, next_index_outer,
}

-- What an update that returns leaves of the table: it moves the index and the timer alone.
update_timer-parts :
    (t : ScheduleTable) {t' : ScheduleTable}
    → update_timer t ≡ some t'
    → (time : Timespec) × (t' ≡ record t { next_ep_index = next_index t; new_timer = time })
unfolding update_timer
update_timer-parts t {t'} e = (t'.new_timer, ground arith)

-- The expiry point that is served after an update is the one whose timer the tick reported: the
-- index goes back over the step that the update has made, round the end too.
pub current_ep_index-update_timer :
    (t t' : ScheduleTable)
    → IsBuilt t
    → update_timer t ≡ some t'
    → current_ep_index t' ≡ t.next_ep_index
unfolding current_ep_index
current_ep_index-update_timer t t' b e =
    let (time, parts) = update_timer-parts t e in
    elim (index-cases t b) [
      | inl inner ↦ ground (arith, parts, next_index_inner t inner)
      | inr outer ↦ ground (arith, parts, next_index_outer t outer)
    ]
