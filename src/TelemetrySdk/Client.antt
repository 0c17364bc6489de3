-- ===== src/TelemetrySdk/Client.antt =====
-- platform/telemetry-sdk/src/client.ts: the class `Client` as a state machine. The code between
-- two awaits is one step, with the promise callbacks that it triggers at once; a step takes what
-- the outside world did. Fresh ids of `idGenerator` come with the step. `check` is
-- `checkEnvelope` (events.ts, which is a schema library and a byte count); a diagnostic changes
-- no state and is left out. A delay is a wait that some later step ends.
pub mod Balance
pub mod Steps
pub mod DeliveryId
pub mod Silence
pub mod Closing
pub mod Draining
use lengentic.Base.{
  ℕ, suc, ◌+◌, ◌-◌, Bool, true, false, not, ◌&&◌, ◌||◌, Option, none, some, List, [], ◌∷◌, length,
  ltb, leb, ◌==◌, or_else, if◌then◌else◌,
}
use lengentic.Base.Text.{Text}
use lengentic.TelemetrySdk.BoundedQueue.{BoundedQueue, push, take}
unfoldable pub use lengentic.TelemetrySdk.ClientState.{no_counts}
pub use lengentic.TelemetrySdk.ClientState.{
  ClientConfig, IngestCounts, TransportResult, delivered, retryable, permanent, EnvelopeCheck,
  valid, event_invalid, event_too_large, Counters, Delivery, Pump, idle, sending, waiting, Client,
  add_counts, Input, recording, record_throwing, flushing, timer_firing, waking, shutting_down,
  deadline_passing, answering, drain_ending,
}

module _ {E : Type 0} where
  unfoldable pub new_client : BoundedQueue E → Client E
  unfolding no_counts
  new_client queue = record {
    queue = queue;
    pump = idle;
    flush_timer = false;
    closed = false;
    abandoned = false;
    draining = false;
    acknowledged_drops = 0;
    pending_delivery_id = none;
    counters = no_counts;
  }

  abbrev pub total_dropped : Client E → ℕ
  total_dropped s =
      s.queue.dropped_count + s.counters.dropped_invalid + s.counters.dropped_too_large
      + s.counters.dropped_after_shutdown + s.counters.dropped_undeliverable

  -- Never negative in the code: `Balance` shows that `-` is exact here.
  abbrev pub pending_drop_report : Client E → ℕ
  pending_drop_report s = total_dropped s - s.acknowledged_drops

  -- The last two lines of `deliverBatch` before its `emit`.
  abbrev pub lose : Delivery E → Client E → Client E
  lose d s = record s {
    counters = record s.counters {
      dropped_undeliverable = s.counters.dropped_undeliverable + length d.batch;
    };
  }

  -- The `delivered` branch.
  abbrev pub settle : Option IngestCounts → Delivery E → Client E → Client E
  settle response d s = record s {
    acknowledged_drops = s.acknowledged_drops + d.dropped_since_last_batch;
    pending_delivery_id = none;
    counters =
        add_counts response (length d.batch)
          (record s.counters { delivered = s.counters.delivered + length d.batch });
  }

  abbrev pub fail_once : Client E → Client E
  fail_once s = record s {
    counters = record s.counters { delivery_failures = suc s.counters.delivery_failures };
  }

  module _ (config : ClientConfig) where
    -- `deliverBatch` up to its first attempt. `maxAttempts` is at least one, and the caller has
    -- just looked at `abandoned`, so the loop is entered.
    unfoldable pub start_delivery : Text → Client E → Client E
    start_delivery fresh s =
        let (queue, batch) = take config.max_batch_size s.queue in
        let id = or_else s.pending_delivery_id fresh in
        record s {
          queue = queue;
          pending_delivery_id = some id;
          pump = sending (record {
            batch = batch;
            dropped_since_last_batch = pending_drop_report (record s { queue = queue });
            delivery_id = id;
            attempt = 1;
          });
        }

    -- The loop of `pump`, from the test on.
    unfoldable pub pump_on : Text → Client E → Client E
    unfolding start_delivery
    pump_on fresh s =
        if ltb 0 (length s.queue.items) && not s.abandoned
        then start_delivery fresh s
        else record s { pump = idle }

    unfoldable pub request_pump : Text → Client E → Client E
    unfolding pump_on
    request_pump fresh s = elim s.pump [ idle ↦ pump_on fresh s | sending _ ↦ s | waiting _ ↦ s ]

    -- The end of `deliverBatch` without success; `pump` goes on.
    unfoldable pub give_up : Delivery E → Text → Client E → Client E
    unfolding pump_on
    give_up d fresh s = pump_on fresh (lose d s)

    -- The test of the loop of `deliverBatch`, and the next attempt.
    unfoldable pub attempt_again : Delivery E → Text → Client E → Client E
    unfolding give_up
    attempt_again d fresh s =
        if ltb d.attempt (suc config.max_retries) && not s.abandoned
        then record s { pump = sending (record d { attempt = suc d.attempt }) }
        else give_up d fresh s

    unfoldable pub failed_attempt : Bool → Delivery E → Text → Client E → Client E
    unfolding give_up
    failed_attempt is_permanent d fresh s =
        let counted = fail_once s in
        if is_permanent || ((d.attempt == suc config.max_retries) || s.abandoned)
        then give_up d fresh counted
        else record counted { pump = waiting d }

    unfoldable pub after_attempt : TransportResult → Delivery E → Text → Client E → Client E
    unfolding pump_on failed_attempt
    after_attempt (delivered response) d fresh s = pump_on fresh (settle response d s)
    after_attempt retryable d fresh s = failed_attempt false d fresh s
    after_attempt permanent d fresh s = failed_attempt true d fresh s

    unfoldable pub schedule_work : Text → Client E → Client E
    unfolding request_pump
    schedule_work fresh s =
        if leb config.max_batch_size (length s.queue.items)
        then request_pump fresh (record s { flush_timer = false })
        else if s.flush_timer || s.closed
        then s
        else record s { flush_timer = true }

    -- `enqueue`, with the result of `checkEnvelope`.
    unfoldable pub enqueue : EnvelopeCheck → E → Text → Client E → Client E
    unfolding schedule_work
    enqueue valid e fresh s = schedule_work fresh (record s {
      queue = (push e s.queue).0;
      counters = record s.counters { recorded = suc s.counters.recorded };
    })
    enqueue event_invalid e fresh s = record s {
      counters = record s.counters { dropped_invalid = suc s.counters.dropped_invalid };
    }
    enqueue event_too_large e fresh s = record s {
      counters = record s.counters { dropped_too_large = suc s.counters.dropped_too_large };
    }

    unfoldable pub record_event : (E → EnvelopeCheck) → E → Text → Client E → Client E
    unfolding enqueue
    record_event check e fresh s =
        if s.closed
        then record s {
          counters = record s.counters {
            dropped_after_shutdown = suc s.counters.dropped_after_shutdown;
          };
        }
        else enqueue (check e) e fresh s

    -- A transport's answer, which only an attempt waits for.
    abbrev pub answer_at : TransportResult → Text → Client E → Pump E → Client E
    answer_at result fresh s (sending d) = after_attempt result d fresh s
    answer_at result fresh s _ = s

    -- The end of a backoff.
    abbrev pub resume_at : Text → Client E → Pump E → Client E
    resume_at fresh s (waiting d) = attempt_again d fresh s
    resume_at fresh s _ = s

    -- The callbacks of `abandonWaits`: an attempt settles as retryable, a backoff ends.
    abbrev pub wake_at : Text → Client E → Pump E → Client E
    wake_at fresh s idle = s
    wake_at fresh s (sending d) = failed_attempt false d fresh s
    wake_at fresh s (waiting d) = attempt_again d fresh s

    unfoldable pub step : (E → EnvelopeCheck) → Input E → Client E → Client E
    unfolding record_event request_pump
    step check (recording e fresh) s = record_event check e fresh s
    step check record_throwing s = record s {
      counters = record s.counters { dropped_invalid = suc s.counters.dropped_invalid };
    }
    step check (flushing fresh) s = request_pump fresh s
    step check (timer_firing fresh) s =
        if s.flush_timer then request_pump fresh (record s { flush_timer = false }) else s
    step check (answering result fresh) s = answer_at result fresh s s.pump
    step check (waking fresh) s = resume_at fresh s s.pump
    step check (shutting_down fresh) s =
        if s.closed
        then s
        else request_pump fresh (record s { closed = true; draining = true; flush_timer = false })
    step check (deadline_passing fresh) s =
        if s.draining
        then wake_at fresh (record s { abandoned = true; draining = false }) s.pump
        else s
    step check drain_ending s = elim s.pump [
      | idle ↦ record s { draining = false }
      | sending _ ↦ s
      | waiting _ ↦ s
    ]

    unfoldable pub run : (E → EnvelopeCheck) → List (Input E) → Client E → Client E
    run check [] s = s
    run check (input ∷ inputs) s = run check inputs (step check input s)
