-- ===== src/Autopilot.antt =====
-- scripts/autopilot: the supervisor's rules. `Progression` decides whether a gate may be
-- recorded, `RepairPolicy` how many repairs a run may
-- spend, `Lease` who owns a node, and `State` keeps what the supervisor knows.
pub mod Progression
pub mod RepairPolicy
pub mod Lease
pub mod State
mod Tests
