-- ===== src/Telemetry.antt =====
-- platform/api/src/telemetry: what the API does with a batch of events before and after
-- `mergeEvent` (see MergeRules).
pub mod Json
pub mod WireSanitize
pub mod Events
pub mod Parse
pub mod Failure
pub mod Batch
pub mod Ingest
pub mod Repository
mod Tests
