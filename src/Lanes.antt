-- ===== src/Lanes.antt =====
-- scripts/lanes.ts: whether a batch of work units may run in parallel worktrees, and what each of
-- them may write.
mod Tests
pub mod Paths
pub mod Units
pub mod Lifecycle
pub mod Order
pub mod Adapter
pub mod Ownership
pub mod Evaluate
