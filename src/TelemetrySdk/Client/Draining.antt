-- ===== src/TelemetrySdk/Client/Draining.antt =====
-- A flush comes to an end, whatever the transport answers.
use lengentic.Base.{
  ℕ, zero, suc, ◌+◌, ◌-◌, ◌*◌, ◌≤◌, ◌<◌, ◌≡◌, refl, ◌⊎◌, Bool, true, false, List, [], ◌∷◌, length,
  arith,
}
use lengentic.Base.Text.{Text}
use lengentic.TelemetrySdk.BoundedQueue.{take, splice}
use lengentic.TelemetrySdk.Client.{
  ClientConfig, Delivery, Pump, idle, sending, waiting, Client, TransportResult, lose, settle,
  fail_once, delivered, retryable, permanent, start_delivery, pump_on, request_pump, give_up,
  attempt_again, failed_attempt, after_attempt,
}
use lengentic.TelemetrySdk.Client.Balance.{take-counts}

abbrev pub budget : ClientConfig → ℕ
budget config = 2 * suc config.max_retries

budget-step : (b m n : ℕ) → m < n → b * m + b ≤ b * n
budget-step b m n h = let e : n ≡ suc m + (n - suc m) = omega arith in rw e (omega arith)

module _ {E : Type 0} (config : ClientConfig) where
  -- The outside world does what the pump waits for: the transport answers, or the backoff ends.
  abbrev pub attend : TransportResult → Text → Client E → Pump E → Client E
  attend result fresh s idle = s
  attend result fresh s (sending d) = after_attempt config result d fresh s
  attend result fresh s (waiting d) = attempt_again config d fresh s

  unfoldable pub attend_all : List (TransportResult × Text) → Client E → Client E
  attend_all [] s = s
  attend_all ((result, fresh) ∷ answers) s = attend_all answers (attend result fresh s s.pump)

  -- How often the world has to act until the pump has stopped, at most.
  abbrev pub left_for : ℕ → Pump E → ℕ
  left_for queued idle = 0
  left_for queued (sending d) =
      budget config * queued + suc (2 * (suc config.max_retries - d.attempt))
  left_for queued (waiting d) = budget config * queued + 2 * (suc config.max_retries - d.attempt)

  abbrev pub work_left : Client E → ℕ
  work_left s = left_for (length s.queue.items) s.pump

  -- An idle pump has left nothing in the queue, unless the client was abandoned.
  abbrev pub IsDone : Client E → Pump E → Type 0
  IsDone s idle = (s.abandoned ≡ true) ⊎ (length s.queue.items ≡ 0)
  IsDone s _ = Unit

  abbrev pub IsWithin : Pump E → Type 0
  IsWithin idle = Unit
  IsWithin (sending d) = (1 ≤ d.attempt) × (d.attempt ≤ suc config.max_retries)
  IsWithin (waiting d) = (1 ≤ d.attempt) × (d.attempt ≤ config.max_retries)

  splice-pos : (n : ℕ) (xs : List E) → 1 ≤ n → 0 < length xs → 1 ≤ length (splice n xs).0
  unfolding splice
  splice-pos zero xs h k = absurd (omega arith)
  splice-pos (suc n) [] h k = absurd (omega arith)
  splice-pos (suc n) (x ∷ xs) h k = omega arith

  pump_on-left :
      (fresh : Text) (s : Client E)
      → 1 ≤ config.max_batch_size
      → let t = pump_on config fresh s in
        (work_left t ≤ budget config * length s.queue.items) × IsDone t t.pump × IsWithin t.pump
  unfolding pump_on start_delivery take
  pump_on-left fresh s pos = ground (
    arith,
    take-counts config.max_batch_size s.queue,
    splice-pos config.max_batch_size s.queue.items,
    budget-step (budget config) (length (take config.max_batch_size s.queue).0.items)
        (length s.queue.items),
  )

  -- What one step leaves: less work, and a pump within its budget.
  abbrev IsCloser : ℕ → Client E → Type 0
  IsCloser left t = (work_left t ≤ left - 1) × IsDone t t.pump × IsWithin t.pump

  give_up-IsCloser :
      (d : Delivery E) (fresh : Text) (s : Client E) (left : ℕ)
      → 1 ≤ config.max_batch_size
      → budget config * length s.queue.items < left
      → IsCloser left (give_up config d fresh s)
  unfolding give_up
  give_up-IsCloser d fresh s left pos less =
      let (closer, done, within) = pump_on-left fresh (lose d s) pos in
      (omega (arith, closer, less), done, within)

  attempt_again-IsCloser :
      (d : Delivery E) (fresh : Text) (s : Client E)
      → 1 ≤ config.max_batch_size
      → IsWithin (waiting d)
      → IsCloser (left_for (length s.queue.items) (waiting d)) (attempt_again config d fresh s)
  unfolding attempt_again
  attempt_again-IsCloser d fresh s pos within =
      ground (arith, give_up-IsCloser d fresh s (left_for (length s.queue.items) (waiting d)))

  failed_attempt-IsCloser :
      (p : Bool) (d : Delivery E) (fresh : Text) (s : Client E)
      → 1 ≤ config.max_batch_size
      → IsWithin (sending d)
      → IsCloser (left_for (length s.queue.items) (sending d)) (failed_attempt config p d fresh s)
  unfolding failed_attempt
  failed_attempt-IsCloser p d fresh s pos within =
      ground (
        arith,
        give_up-IsCloser d fresh (fail_once s) (left_for (length s.queue.items) (sending d)),
      )

  after_attempt-IsCloser :
      (result : TransportResult) (d : Delivery E) (fresh : Text) (s : Client E)
      → 1 ≤ config.max_batch_size
      → IsWithin (sending d)
      → IsCloser
          (left_for (length s.queue.items) (sending d))
          (after_attempt config result d fresh s)
  unfolding after_attempt
  after_attempt-IsCloser (delivered response) d fresh s pos within =
      let (closer, done, still) = pump_on-left fresh (settle response d s) pos in
      (omega (arith, closer), done, still)
  after_attempt-IsCloser retryable d fresh s pos within =
      failed_attempt-IsCloser false d fresh s pos within
  after_attempt-IsCloser permanent d fresh s pos within =
      failed_attempt-IsCloser true d fresh s pos within

  attend-IsCloser :
      (result : TransportResult) (fresh : Text) (s : Client E) (p : Pump E)
      → 1 ≤ config.max_batch_size
      → s.pump ≡ p
      → IsDone s p
      → IsWithin p
      → IsCloser (left_for (length s.queue.items) p) (attend result fresh s p)
  attend-IsCloser result fresh s idle pos e done within = rw e (omega arith, done, tt)
  attend-IsCloser result fresh s (sending d) pos e done within =
      after_attempt-IsCloser result d fresh s pos within
  attend-IsCloser result fresh s (waiting d) pos e done within =
      attempt_again-IsCloser d fresh s pos within

  -- A pump that has no work left has stopped.
  stopped :
      (s : Client E) (p : Pump E)
      → s.pump ≡ p
      → left_for (length s.queue.items) p ≤ 0
      → IsDone s p
      → IsWithin p
      → (s.pump ≡ idle) × ((s.abandoned ≡ true) ⊎ (length s.queue.items ≡ 0))
  stopped s idle e h done within = (e, done)
  stopped s (sending d) e h done within = absurd (omega arith)
  stopped s (waiting d) e h done within = absurd (omega (arith, within))

  attend_all-stops :
      (answers : List (TransportResult × Text)) (s : Client E)
      → 1 ≤ config.max_batch_size
      → IsDone s s.pump
      → IsWithin s.pump
      → work_left s ≤ length answers
      → let t = attend_all answers s in
        (t.pump ≡ idle) × ((t.abandoned ≡ true) ⊎ (length t.queue.items ≡ 0))
  unfolding attend_all
  attend_all-stops [] s pos done within enough = stopped s s.pump refl enough done within
  attend_all-stops ((result, fresh) ∷ answers) s pos done within enough =
      let (closer, done', within') = attend-IsCloser result fresh s s.pump pos refl done within in
      attend_all-stops answers _ pos done' within' (omega (arith, closer, enough))

  -- A flush of a client whose pump is idle ends: after at most `2 * (maxRetries + 1)` answers and
  -- backoffs for each queued event, whatever the answers are, the pump has stopped, and nothing
  -- is queued any more unless the client was abandoned.
  pub flush-ends :
      (fresh : Text) (s : Client E) (answers : List (TransportResult × Text))
      → 1 ≤ config.max_batch_size
      → s.pump ≡ idle
      → budget config * length s.queue.items ≤ length answers
      → let t = attend_all answers (request_pump config fresh s) in
        (t.pump ≡ idle) × ((t.abandoned ≡ true) ⊎ (length t.queue.items ≡ 0))
  unfolding request_pump pump_on
  flush-ends fresh s answers pos e enough =
      let (closer, done, within) = pump_on-left fresh s pos in
      rw (e, request_pump)
        (attend_all-stops answers (pump_on config fresh s) pos done within
          (omega (arith, closer, enough)))
