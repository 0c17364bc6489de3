-- ===== src/Dashboard.antt =====
-- platform/dashboard/src/lib: what the Run page shows of a Run.
pub mod Views
pub mod Timeline
pub mod StepTree
mod Tests
