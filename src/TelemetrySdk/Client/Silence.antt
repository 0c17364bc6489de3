-- ===== src/TelemetrySdk/Client/Silence.antt =====
-- After the deadline of `shutdown` nothing is sent.
use lengentic.Base.{suc, ◌≡◌, refl, Bool, true, false, List, [], ◌∷◌, arith, if_both}
use lengentic.Base.Text.{Text}
use lengentic.TelemetrySdk.BoundedQueue.{push}
use lengentic.TelemetrySdk.Client.{
  ClientConfig, Delivery, Pump, idle, sending, waiting, Client, Input, EnvelopeCheck,
  start_delivery, pump_on, request_pump, give_up, attempt_again, failed_attempt, schedule_work,
  enqueue, record_event, wake_at, step, run, recording, record_throwing, flushing, timer_firing,
  waking, shutting_down, deadline_passing, answering, drain_ending, valid, event_invalid,
  event_too_large,
}

-- The deadline of `shutdown` has passed.
abbrev pub IsSilent : {E : Type 0} → Client E → Type 0
IsSilent s = (s.abandoned ≡ true) × (s.pump ≡ idle)

module _ {E : Type 0} (config : ClientConfig) where
  -- An abandoned client ends the batch under way, and starts no other.
  failed_attempt-idle :
      (p : Bool) (d : Delivery E) (fresh : Text) (s : Client E)
      → s.abandoned ≡ true
      → let t = failed_attempt config p d fresh s in (t.pump ≡ idle) × (t.abandoned ≡ true)
  unfolding failed_attempt give_up pump_on start_delivery
  failed_attempt-idle p d fresh s h = ground arith

  attempt_again-idle :
      (d : Delivery E) (fresh : Text) (s : Client E)
      → s.abandoned ≡ true
      → let t = attempt_again config d fresh s in (t.pump ≡ idle) × (t.abandoned ≡ true)
  unfolding attempt_again give_up pump_on start_delivery
  attempt_again-idle d fresh s h = ground arith

  request_pump-IsSilent :
      (fresh : Text) (s : Client E) → IsSilent s → IsSilent (request_pump config fresh s)
  unfolding request_pump pump_on
  request_pump-IsSilent fresh s h = ground arith

  enqueue-IsSilent :
      (check : EnvelopeCheck) (e : E) (fresh : Text) (s : Client E)
      → IsSilent s
      → IsSilent (enqueue config check e fresh s)
  unfolding enqueue schedule_work
  enqueue-IsSilent valid e fresh s h = ground (
    arith,
    request_pump-IsSilent fresh (record s {
      queue = (push e s.queue).0;
      flush_timer = false;
      counters = record s.counters { recorded = suc s.counters.recorded };
    }),
  )
  enqueue-IsSilent event_invalid e fresh s h = h
  enqueue-IsSilent event_too_large e fresh s h = h

  step-IsSilent :
      (check : E → EnvelopeCheck) (input : Input E) (s : Client E)
      → IsSilent s
      → IsSilent (step config check input s)
  unfolding step record_event
  step-IsSilent check (recording e fresh) s h =
      if_both IsSilent s.closed _ _ h (enqueue-IsSilent (check e) e fresh s h)
  step-IsSilent check record_throwing s h = h
  step-IsSilent check (flushing fresh) s h = request_pump-IsSilent fresh s h
  step-IsSilent check (timer_firing fresh) s h =
      if_both IsSilent s.flush_timer _ _
        (request_pump-IsSilent fresh (record s { flush_timer = false }) h) h
  step-IsSilent check (answering result fresh) s h = ground arith
  step-IsSilent check (waking fresh) s h = ground arith
  step-IsSilent check (shutting_down fresh) s h = if_both IsSilent s.closed _ _ h (
      request_pump-IsSilent fresh (record s { closed = true; draining = true; flush_timer = false })
        h)
  step-IsSilent check (deadline_passing fresh) s h = ground arith
  step-IsSilent check drain_ending s h = ground arith

  run_from-IsSilent :
      (check : E → EnvelopeCheck) (inputs : List (Input E)) (s : Client E)
      → IsSilent s
      → IsSilent (run config check inputs s)
  unfolding run
  run_from-IsSilent check [] s h = h
  run_from-IsSilent check (input ∷ inputs) s h =
      run_from-IsSilent check inputs _ (step-IsSilent check input s h)

  wake_at-IsSilent :
      (fresh : Text) (s : Client E) (p : Pump E)
      → s.abandoned ≡ true
      → s.pump ≡ p
      → IsSilent (wake_at config fresh s p)
  wake_at-IsSilent fresh s idle h e = (h, e)
  wake_at-IsSilent fresh s (sending d) h e =
      let (stopped, still) = failed_attempt-idle false d fresh s h in (still, stopped)
  wake_at-IsSilent fresh s (waiting d) h e =
      let (stopped, still) = attempt_again-idle d fresh s h in (still, stopped)

  -- When the deadline of a `shutdown` passes before the drain has ended, the batch under way is
  -- given up at once, and no attempt is made ever after, whatever happens.
  pub run-IsSilent :
      (check : E → EnvelopeCheck) (fresh : Text) (inputs : List (Input E)) (s : Client E)
      → s.draining ≡ true
      → IsSilent (run config check inputs (step config check (deadline_passing fresh) s))
  unfolding step
  run-IsSilent check fresh inputs s h = run_from-IsSilent check inputs _ (
      rw (h, step)
        (wake_at-IsSilent fresh (record s { abandoned = true; draining = false }) s.pump refl refl))
