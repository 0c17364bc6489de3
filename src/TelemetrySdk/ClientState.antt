-- ===== src/TelemetrySdk/ClientState.antt =====
-- platform/telemetry-sdk/src/client.ts: what a client keeps, and what happens to it.
use lengentic.Base.{ℕ, ◌+◌, Bool, Option, none, some, List}
use lengentic.Base.Text.{Text}
use lengentic.TelemetrySdk.BoundedQueue.{BoundedQueue}

pub record ClientConfig : Type 0 where
  pub max_batch_size : ℕ
  pub max_retries : ℕ

-- The counts of an `IngestResponse`.
pub record IngestCounts : Type 0 where
  pub accepted : ℕ
  pub duplicate : ℕ
  pub rejected : ℕ

pub data TransportResult : Type 0 where
  delivered : Option IngestCounts → TransportResult
  retryable permanent : TransportResult

pub data EnvelopeCheck : Type 0 where
  valid event_invalid event_too_large : EnvelopeCheck

pub record Counters : Type 0 where
  pub recorded : ℕ
  pub delivered : ℕ
  pub dropped_invalid : ℕ
  pub dropped_too_large : ℕ
  pub dropped_after_shutdown : ℕ
  pub dropped_undeliverable : ℕ
  pub delivery_failures : ℕ
  pub server_accepted : ℕ
  pub server_duplicate : ℕ
  pub server_rejected : ℕ
  pub server_counts_unavailable : ℕ

-- The locals of `deliverBatch`.
pub record Delivery (E : Type 0) : Type 0 where
  pub batch : List E
  pub dropped_since_last_batch : ℕ
  pub delivery_id : Text
  pub attempt : ℕ

-- Where `pump` stands: not running, at an attempt, or at a backoff.
pub data Pump (E : Type 0) : Type 0 where
  idle : Pump E
  sending waiting : Delivery E → Pump E

pub record Client (E : Type 0) : Type 0 where
  pub queue : BoundedQueue E
  pub pump : Pump E
  pub flush_timer : Bool
  pub closed : Bool
  pub abandoned : Bool
  pub draining : Bool
  pub acknowledged_drops : ℕ
  pub pending_delivery_id : Option Text
  pub counters : Counters

unfoldable pub no_counts : Counters
no_counts = record {
  recorded = 0;
  delivered = 0;
  dropped_invalid = 0;
  dropped_too_large = 0;
  dropped_after_shutdown = 0;
  dropped_undeliverable = 0;
  delivery_failures = 0;
  server_accepted = 0;
  server_duplicate = 0;
  server_rejected = 0;
  server_counts_unavailable = 0;
}

-- `if (result.response !== null) … else …`.
abbrev pub add_counts : Option IngestCounts → ℕ → Counters → Counters
add_counts none n c = record c { server_counts_unavailable = c.server_counts_unavailable + n }
add_counts (some r) n c = record c {
  server_accepted = c.server_accepted + r.accepted;
  server_duplicate = c.server_duplicate + r.duplicate;
  server_rejected = c.server_rejected + r.rejected;
}

-- What happens to a client. `record_throwing` is a throw in `record` before the event is pushed.
pub data Input (E : Type 0) : Type 0 where
  recording : E → Text → Input E
  record_throwing : Input E
  flushing timer_firing waking shutting_down deadline_passing : Text → Input E
  answering : TransportResult → Text → Input E
  drain_ending : Input E
