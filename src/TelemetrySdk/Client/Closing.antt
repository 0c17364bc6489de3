-- ===== src/TelemetrySdk/Client/Closing.antt =====
-- After `shutdown` nothing is recorded.
use lengentic.Base.{
  ℕ, ◌≡◌, refl, true, false, none, some, List, [], ◌∷◌, arith, if_both, Bool-cases, inl, inr,
}
use lengentic.Base.Text.{Text}
use lengentic.TelemetrySdk.Client.{
  ClientConfig, Delivery, Pump, idle, sending, waiting, Client, Input, EnvelopeCheck,
  TransportResult, delivered, retryable, permanent, start_delivery, pump_on, request_pump, give_up,
  attempt_again, failed_attempt, after_attempt, record_event, answer_at, resume_at, wake_at, step,
  run, recording, record_throwing, flushing, timer_firing, waking, shutting_down, deadline_passing,
  answering, drain_ending,
}

-- `shutdown` was called, and `n` events had been recorded.
abbrev pub IsClosedAt : {E : Type 0} → ℕ → Client E → Type 0
IsClosedAt n s = (s.closed ≡ true) × (s.counters.recorded ≡ n)

module _ {E : Type 0} (config : ClientConfig) where
  request_pump-IsClosedAt :
      (n : ℕ) (fresh : Text) (s : Client E)
      → IsClosedAt n s
      → IsClosedAt n (request_pump config fresh s)
  unfolding request_pump pump_on start_delivery
  request_pump-IsClosedAt n fresh s h = ground arith

  attempt_again-IsClosedAt :
      (n : ℕ) (d : Delivery E) (fresh : Text) (s : Client E)
      → IsClosedAt n s
      → IsClosedAt n (attempt_again config d fresh s)
  unfolding attempt_again give_up pump_on start_delivery
  attempt_again-IsClosedAt n d fresh s h = ground arith

  after_attempt-IsClosedAt :
      (n : ℕ) (result : TransportResult) (d : Delivery E) (fresh : Text) (s : Client E)
      → IsClosedAt n s
      → IsClosedAt n (after_attempt config result d fresh s)
  unfolding after_attempt failed_attempt give_up pump_on start_delivery
  after_attempt-IsClosedAt n (delivered none) d fresh s h = ground arith
  after_attempt-IsClosedAt n (delivered (some _)) d fresh s h = ground arith
  after_attempt-IsClosedAt n retryable d fresh s h = ground arith
  after_attempt-IsClosedAt n permanent d fresh s h = ground arith

  answer_at-IsClosedAt :
      (n : ℕ) (result : TransportResult) (fresh : Text) (s : Client E) (p : Pump E)
      → IsClosedAt n s
      → IsClosedAt n (answer_at config result fresh s p)
  answer_at-IsClosedAt n result fresh s idle h = h
  answer_at-IsClosedAt n result fresh s (sending d) h =
      after_attempt-IsClosedAt n result d fresh s h
  answer_at-IsClosedAt n result fresh s (waiting d) h = h

  resume_at-IsClosedAt :
      (n : ℕ) (fresh : Text) (s : Client E) (p : Pump E)
      → IsClosedAt n s
      → IsClosedAt n (resume_at config fresh s p)
  resume_at-IsClosedAt n fresh s idle h = h
  resume_at-IsClosedAt n fresh s (sending d) h = h
  resume_at-IsClosedAt n fresh s (waiting d) h = attempt_again-IsClosedAt n d fresh s h

  wake_at-IsClosedAt :
      (n : ℕ) (fresh : Text) (s : Client E) (p : Pump E)
      → IsClosedAt n s
      → IsClosedAt n (wake_at config fresh s p)
  unfolding after_attempt
  wake_at-IsClosedAt n fresh s idle h = h
  wake_at-IsClosedAt n fresh s (sending d) h = after_attempt-IsClosedAt n retryable d fresh s h
  wake_at-IsClosedAt n fresh s (waiting d) h = attempt_again-IsClosedAt n d fresh s h

  step-IsClosedAt :
      (n : ℕ) (check : E → EnvelopeCheck) (input : Input E) (s : Client E)
      → IsClosedAt n s
      → IsClosedAt n (step config check input s)
  unfolding step record_event
  step-IsClosedAt n check (recording e fresh) s h = ground arith
  step-IsClosedAt n check record_throwing s h = h
  step-IsClosedAt n check (flushing fresh) s h = request_pump-IsClosedAt n fresh s h
  step-IsClosedAt n check (timer_firing fresh) s h =
      if_both (IsClosedAt n) s.flush_timer _ _
        (request_pump-IsClosedAt n fresh (record s { flush_timer = false }) h) h
  step-IsClosedAt n check (answering result fresh) s h =
      answer_at-IsClosedAt n result fresh s s.pump h
  step-IsClosedAt n check (waking fresh) s h = resume_at-IsClosedAt n fresh s s.pump h
  step-IsClosedAt n check (shutting_down fresh) s h = ground arith
  step-IsClosedAt n check (deadline_passing fresh) s h =
      if_both (IsClosedAt n) s.draining _ _
        (wake_at-IsClosedAt n fresh (record s { abandoned = true; draining = false }) s.pump h) h
  step-IsClosedAt n check drain_ending s h = ground arith

  run_from-IsClosedAt :
      (n : ℕ) (check : E → EnvelopeCheck) (inputs : List (Input E)) (s : Client E)
      → IsClosedAt n s
      → IsClosedAt n (run config check inputs s)
  unfolding run
  run_from-IsClosedAt n check [] s h = h
  run_from-IsClosedAt n check (input ∷ inputs) s h =
      run_from-IsClosedAt n check inputs _ (step-IsClosedAt n check input s h)

  -- From a call of `shutdown` on, no event is recorded: the client stays closed, and the count of
  -- recorded events stays what it was.
  run-IsClosedAt :
      (check : E → EnvelopeCheck) (fresh : Text) (inputs : List (Input E)) (s : Client E)
      → IsClosedAt s.counters.recorded
          (run config check inputs (step config check (shutting_down fresh) s))
  unfolding step
  run-IsClosedAt check fresh inputs s =
      run_from-IsClosedAt s.counters.recorded check inputs _ (elim (Bool-cases s.closed) [
        | inl e ↦ rw (e, step) (refl, refl)
        | inr e ↦
            rw (e, step)
              (request_pump-IsClosedAt s.counters.recorded fresh
                (record s { closed = true; draining = true; flush_timer = false }) (refl, refl))
      ])
