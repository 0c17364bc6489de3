-- ===== src/Flow.antt =====
-- scripts/flow.ts: the next action of the delivery, from the graph, the gate records and the
-- checkpoint.
mod Tests
pub mod Dependence
pub mod Decide
pub mod Transition
pub mod Segments
