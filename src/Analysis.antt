-- ===== src/Analysis.antt =====
-- platform/analysis-engine/src: what the analyzer measures (`Aggregate`), how the safety gates
-- judge it (`Gates`), and the search for actions that fail again and again (`RepeatedFailures`).
pub mod Types
pub mod Aggregate
pub mod Gates
pub mod Candidates
pub mod RepeatedFailures
mod Tests
