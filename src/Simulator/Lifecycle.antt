-- ===== src/Simulator/Lifecycle.antt =====
-- The life of the simulator: what is created is what runs and what is destroyed.
use architecture_evolution_f.Simulator.{Simulator}
