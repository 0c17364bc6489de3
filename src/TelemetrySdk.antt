-- ===== src/TelemetrySdk.antt =====
-- platform/telemetry-sdk/src: the settings of a client, the buffer that it sends from,
-- and the client itself.
pub mod BoundedQueue
pub mod Config
pub mod PayloadSafety
pub mod ClientState
pub mod Client
mod Tests
