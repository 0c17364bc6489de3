-- ===== src/TelemetrySdk/Client/Steps.antt =====
-- Every step of a client keeps its balance.
use lengentic.Base.{
  ℕ, suc, ◌+◌, ◌≡◌, Bool, true, false, Option, none, some, List, [], ◌∷◌, length, length-append, ap,
  ◌∙◌, arith, if_both,
}
use lengentic.Base.Text.{Text}
use lengentic.TelemetrySdk.BoundedQueue.{BoundedQueue, push, new_queue}
use lengentic.TelemetrySdk.BoundedQueue.History.{new_queue-IsNewest}
use lengentic.TelemetrySdk.Client.{
  ClientConfig, Delivery, Pump, idle, sending, waiting, Client, Input, EnvelopeCheck,
  TransportResult, lose, settle, fail_once, delivered, retryable, permanent, IngestCounts,
  request_pump, give_up, attempt_again, failed_attempt, after_attempt, schedule_work, enqueue,
  record_event, answer_at, resume_at, wake_at, step, run, recording, record_throwing, flushing,
  timer_firing, waking, shutting_down, deadline_passing, answering, drain_ending, valid,
  event_invalid, event_too_large, new_client,
}
use lengentic.TelemetrySdk.Client.Balance.{
  Balance, Inv, IsTracked, in_flight, carried, pump_on-Inv, push-counts,
}

module _ {E : Type 0} where
  lose-Balance :
      (d : Delivery E) (s : Client E)
      → Balance (length d.batch) d.dropped_since_last_batch s
      → Balance 0 0 (lose d s)
  lose-Balance d s h = ground arith

  settle-Balance :
      (response : Option IngestCounts) (d : Delivery E) (s : Client E)
      → Balance (length d.batch) d.dropped_since_last_batch s
      → Balance 0 0 (settle response d s)
  settle-Balance none d s h = ground arith
  settle-Balance (some r) d s h = ground arith

  module _ (config : ClientConfig) where
    request_pump-Inv :
        (fresh : Text) (s : Client E) → Inv config s → Inv config (request_pump config fresh s)
    unfolding request_pump
    request_pump-Inv fresh s h = ground (arith, pump_on-Inv config fresh s)

    give_up-Inv :
        (d : Delivery E) (fresh : Text) (s : Client E)
        → Balance (length d.batch) d.dropped_since_last_batch s
        → Inv config (give_up config d fresh s)
    unfolding give_up
    give_up-Inv d fresh s h = pump_on-Inv config fresh (lose d s) (lose-Balance d s h)

    attempt_again-Inv :
        (d : Delivery E) (fresh : Text) (s : Client E)
        → Balance (length d.batch) d.dropped_since_last_batch s
        → IsTracked config s.pending_delivery_id (waiting d)
        → Inv config (attempt_again config d fresh s)
    unfolding attempt_again
    attempt_again-Inv d fresh s h t = ground (arith, give_up-Inv d fresh s)

    failed_attempt-Inv :
        (is_permanent : Bool) (d : Delivery E) (fresh : Text) (s : Client E)
        → Balance (length d.batch) d.dropped_since_last_batch s
        → IsTracked config s.pending_delivery_id (sending d)
        → Inv config (failed_attempt config is_permanent d fresh s)
    unfolding failed_attempt
    failed_attempt-Inv p d fresh s h t = ground (arith, give_up-Inv d fresh (fail_once s))

    after_attempt-Inv :
        (result : TransportResult) (d : Delivery E) (fresh : Text) (s : Client E)
        → Balance (length d.batch) d.dropped_since_last_batch s
        → IsTracked config s.pending_delivery_id (sending d)
        → Inv config (after_attempt config result d fresh s)
    unfolding after_attempt
    after_attempt-Inv (delivered response) d fresh s h t =
        pump_on-Inv config fresh (settle response d s) (settle-Balance response d s h)
    after_attempt-Inv retryable d fresh s h t = failed_attempt-Inv false d fresh s h t
    after_attempt-Inv permanent d fresh s h t = failed_attempt-Inv true d fresh s h t

    schedule_work-Inv :
        (fresh : Text) (s : Client E) → Inv config s → Inv config (schedule_work config fresh s)
    unfolding schedule_work
    schedule_work-Inv fresh s h =
        ground (arith, request_pump-Inv fresh (record s { flush_timer = false }))

    pushed-Inv :
        (e : E) (s : Client E)
        → Inv config s
        → Inv config (record s {
          queue = (push e s.queue).0;
          counters = record s.counters { recorded = suc s.counters.recorded };
        })
    pushed-Inv e s h = ground (arith, push-counts e s.queue)

    enqueue-Inv :
        (check : EnvelopeCheck) (e : E) (fresh : Text) (s : Client E)
        → Inv config s
        → Inv config (enqueue config check e fresh s)
    unfolding enqueue
    enqueue-Inv valid e fresh s h = schedule_work-Inv fresh _ (pushed-Inv e s h)
    enqueue-Inv event_invalid e fresh s h = ground arith
    enqueue-Inv event_too_large e fresh s h = ground arith

    record_event-Inv :
        (check : E → EnvelopeCheck) (e : E) (fresh : Text) (s : Client E)
        → Inv config s
        → Inv config (record_event config check e fresh s)
    unfolding record_event
    record_event-Inv check e fresh s h = ground (arith, enqueue-Inv (check e) e fresh s)

    answer_at-Inv :
        (result : TransportResult) (fresh : Text) (s : Client E) (p : Pump E)
        → Inv config s
        → Balance (in_flight p) (carried p) s
        → IsTracked config s.pending_delivery_id p
        → Inv config (answer_at config result fresh s p)
    answer_at-Inv result fresh s idle h b t = h
    answer_at-Inv result fresh s (sending d) h b t = after_attempt-Inv result d fresh s b t
    answer_at-Inv result fresh s (waiting d) h b t = h

    resume_at-Inv :
        (fresh : Text) (s : Client E) (p : Pump E)
        → Inv config s
        → Balance (in_flight p) (carried p) s
        → IsTracked config s.pending_delivery_id p
        → Inv config (resume_at config fresh s p)
    resume_at-Inv fresh s idle h b t = h
    resume_at-Inv fresh s (sending d) h b t = h
    resume_at-Inv fresh s (waiting d) h b t = attempt_again-Inv d fresh s b t

    wake_at-Inv :
        (fresh : Text) (s : Client E) (p : Pump E)
        → Inv config s
        → Balance (in_flight p) (carried p) s
        → IsTracked config s.pending_delivery_id p
        → Inv config (wake_at config fresh s p)
    wake_at-Inv fresh s idle h b t = h
    wake_at-Inv fresh s (sending d) h b t = failed_attempt-Inv false d fresh s b t
    wake_at-Inv fresh s (waiting d) h b t = attempt_again-Inv d fresh s b t

    -- Every step keeps the balance.
    step-Inv :
        (check : E → EnvelopeCheck) (input : Input E) (s : Client E)
        → Inv config s
        → Inv config (step config check input s)
    unfolding step
    step-Inv check (recording e fresh) s h = record_event-Inv check e fresh s h
    step-Inv check record_throwing s h = ground arith
    step-Inv check (flushing fresh) s h = request_pump-Inv fresh s h
    step-Inv check (timer_firing fresh) s h =
        ground (arith, request_pump-Inv fresh (record s { flush_timer = false }))
    step-Inv check (answering result fresh) s h =
        answer_at-Inv result fresh s s.pump h h.balance h.tracked
    step-Inv check (waking fresh) s h = resume_at-Inv fresh s s.pump h h.balance h.tracked
    step-Inv check (shutting_down fresh) s h = ground (
      arith,
      request_pump-Inv fresh (record s { closed = true; draining = true; flush_timer = false }),
    )
    step-Inv check (deadline_passing fresh) s h =
        let abandoning = record s { abandoned = true; draining = false } in
        let same : Balance (in_flight s.pump) (carried s.pump) abandoning = ground arith in
        let still : Inv config abandoning = record { balance = same; tracked = h.tracked } in
        if_both (Inv config) s.draining (wake_at config fresh abandoning s.pump) s
          (wake_at-Inv fresh abandoning s.pump still same h.tracked) h
    step-Inv check drain_ending s h = ground arith

    run_from-Inv :
        (check : E → EnvelopeCheck) (inputs : List (Input E)) (s : Client E)
        → Inv config s
        → Inv config (run config check inputs s)
    unfolding run
    run_from-Inv check [] s h = h
    run_from-Inv check (input ∷ inputs) s h = run_from-Inv check inputs _ (step-Inv check input s h)

  new_client-Inv :
      (config : ClientConfig) (capacity : ℕ) (q : BoundedQueue E)
      → new_queue capacity ≡ some q
      → Inv config (new_client q)
  unfolding new_client
  new_client-Inv config capacity q made =
      let (earlier, e, n, same, small) = new_queue-IsNewest capacity q made in
      let empty : 0 ≡ length earlier + length q.items =
        ap length e ∙ length-append earlier q.items in
      ground (arith, n, same, small, empty)

  -- Whatever happens to a client, every event that it recorded is queued, dropped on overflow,
  -- in the batch under way, delivered or counted as undeliverable; it has reported at most the
  -- drops that there are; the queue is within its capacity; and a batch under way carries the
  -- pending delivery id and is at an attempt within the retry budget.
  pub run-Inv :
      (config : ClientConfig) (check : E → EnvelopeCheck) (capacity : ℕ) (q : BoundedQueue E)
      (inputs : List (Input E))
      → new_queue capacity ≡ some q
      → Inv config (run config check inputs (new_client q))
  run-Inv config check capacity q inputs made =
      run_from-Inv config check inputs (new_client q) (new_client-Inv config capacity q made)
