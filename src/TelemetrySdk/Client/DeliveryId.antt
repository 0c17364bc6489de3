-- ===== src/TelemetrySdk/Client/DeliveryId.antt =====
-- How long a delivery id is pending.
use lengentic.Base.{suc, ◌≡◌, Bool, true, false, some, List, [], ◌∷◌, arith, All, if_both}
use lengentic.Base.Text.{Text}
use lengentic.TelemetrySdk.BoundedQueue.{push}
use lengentic.TelemetrySdk.Client.{
  ClientConfig, Delivery, Pump, idle, sending, waiting, Client, Input, EnvelopeCheck,
  TransportResult, delivered, retryable, permanent, start_delivery, pump_on, request_pump, give_up,
  attempt_again, failed_attempt, after_attempt, schedule_work, enqueue, record_event, answer_at,
  resume_at, wake_at, step, run, recording, record_throwing, flushing, timer_firing, waking,
  shutting_down, deadline_passing, answering, drain_ending, valid, event_invalid, event_too_large,
}

abbrev pub IsUndelivered : {E : Type 0} → Input E → Type 0
IsUndelivered (answering (delivered _) _) = ⊥
IsUndelivered _ = Unit

module _ {E : Type 0} (config : ClientConfig) where
  request_pump-id :
      (fresh id : Text) (s : Client E)
      → s.pending_delivery_id ≡ some id
      → (request_pump config fresh s).pending_delivery_id ≡ some id
  unfolding request_pump pump_on start_delivery
  request_pump-id fresh id s h = ground arith

  attempt_again-id :
      (d : Delivery E) (fresh id : Text) (s : Client E)
      → s.pending_delivery_id ≡ some id
      → (attempt_again config d fresh s).pending_delivery_id ≡ some id
  unfolding attempt_again give_up pump_on start_delivery
  attempt_again-id d fresh id s h = ground arith

  failed_attempt-id :
      (p : Bool) (d : Delivery E) (fresh id : Text) (s : Client E)
      → s.pending_delivery_id ≡ some id
      → (failed_attempt config p d fresh s).pending_delivery_id ≡ some id
  unfolding failed_attempt give_up pump_on start_delivery
  failed_attempt-id p d fresh id s h = ground arith

  answer_at-id :
      (result : TransportResult) (fresh id : Text) (s : Client E) (p : Pump E)
      → IsUndelivered {E = E} (answering result fresh)
      → s.pending_delivery_id ≡ some id
      → (answer_at config result fresh s p).pending_delivery_id ≡ some id
  unfolding after_attempt
  answer_at-id result fresh id s idle u h = h
  answer_at-id (delivered r) fresh id s (sending d) u h = elim u [ ]
  answer_at-id retryable fresh id s (sending d) u h = failed_attempt-id false d fresh id s h
  answer_at-id permanent fresh id s (sending d) u h = failed_attempt-id true d fresh id s h
  answer_at-id result fresh id s (waiting d) u h = h

  resume_at-id :
      (fresh id : Text) (s : Client E) (p : Pump E)
      → s.pending_delivery_id ≡ some id
      → (resume_at config fresh s p).pending_delivery_id ≡ some id
  resume_at-id fresh id s idle h = h
  resume_at-id fresh id s (sending d) h = h
  resume_at-id fresh id s (waiting d) h = attempt_again-id d fresh id s h

  wake_at-id :
      (fresh id : Text) (s : Client E) (p : Pump E)
      → s.pending_delivery_id ≡ some id
      → (wake_at config fresh s p).pending_delivery_id ≡ some id
  wake_at-id fresh id s idle h = h
  wake_at-id fresh id s (sending d) h = failed_attempt-id false d fresh id s h
  wake_at-id fresh id s (waiting d) h = attempt_again-id d fresh id s h

  enqueue-id :
      (check : EnvelopeCheck) (e : E) (fresh id : Text) (s : Client E)
      → s.pending_delivery_id ≡ some id
      → (enqueue config check e fresh s).pending_delivery_id ≡ some id
  unfolding enqueue schedule_work
  enqueue-id valid e fresh id s h = ground (
    arith,
    request_pump-id fresh id (record s {
      queue = (push e s.queue).0;
      flush_timer = false;
      counters = record s.counters { recorded = suc s.counters.recorded };
    }),
  )
  enqueue-id event_invalid e fresh id s h = h
  enqueue-id event_too_large e fresh id s h = h

  abbrev Keeps : Text → Client E → Type 0
  Keeps id s = s.pending_delivery_id ≡ some id

  step-id :
      (check : E → EnvelopeCheck) (input : Input E) (id : Text) (s : Client E)
      → IsUndelivered input
      → Keeps id s
      → Keeps id (step config check input s)
  unfolding step record_event
  step-id check (recording e fresh) id s u h =
      if_both (Keeps id) s.closed _ _ h (enqueue-id (check e) e fresh id s h)
  step-id check record_throwing id s u h = h
  step-id check (flushing fresh) id s u h = request_pump-id fresh id s h
  step-id check (timer_firing fresh) id s u h =
      if_both (Keeps id) s.flush_timer _ _
        (request_pump-id fresh id (record s { flush_timer = false }) h) h
  step-id check (answering result fresh) id s u h = answer_at-id result fresh id s s.pump u h
  step-id check (waking fresh) id s u h = resume_at-id fresh id s s.pump h
  step-id check (shutting_down fresh) id s u h = if_both (Keeps id) s.closed _ _ h (
      request_pump-id fresh id (record s { closed = true; draining = true; flush_timer = false }) h)
  step-id check (deadline_passing fresh) id s u h =
      if_both (Keeps id) s.draining _ _
        (wake_at-id fresh id (record s { abandoned = true; draining = false }) s.pump h) h
  step-id check drain_ending id s u h = ground arith

  -- A delivery id that is pending stays pending until a batch is delivered, whatever else
  -- happens; so every batch up to then, abandoned ones included, is sent under that id.
  pub run-keeps_id :
      (check : E → EnvelopeCheck) (inputs : List (Input E)) (id : Text) (s : Client E)
      → All IsUndelivered inputs
      → s.pending_delivery_id ≡ some id
      → (run config check inputs s).pending_delivery_id ≡ some id
  unfolding run
  run-keeps_id check [] id s u h = h
  run-keeps_id check (input ∷ inputs) id s (u, us) h =
      run-keeps_id check inputs id _ us (step-id check input id s u h)
