-- ===== src/TableScheduler/Balance.antt =====
-- What is acquired for a table scheduler is released, once, when its creation fails or it is destroyed.
use architecture_evolution_f.ScheduleTable.{ScheduleTable}
use architecture_evolution_f.TableScheduler.{TableScheduler}
