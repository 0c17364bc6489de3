-- ===== src/TelemetrySdk/Tests.antt =====
-- Runs of the buffer at concrete inputs.
use lengentic.TelemetrySdk.PayloadSafety.{
  object, field, boolean, no_entries, truncation_key, Sanitized, string, array, value, no_values,
  fits, kept_length, cap_field,
}
use lengentic.TelemetrySdk.PayloadSafety.Bounds.{
  IsLargest, IsCapped, kept_length-IsLargest, cap_field-IsCapped,
}
use lengentic.Base.{min, zero, suc, false, ℕ, ◌≡◌, refl, List, [], ◌∷◌}
use lengentic.TelemetrySdk.BoundedQueue.{BoundedQueue, new_queue, shift_while, push, splice, take}
use lengentic.TelemetrySdk.BoundedQueue.History.{
  Call, pushing, taking, after_calls, pushed, IsNewest, after_calls-IsNewest,
}
use lengentic.Base.{none, some, true, ◌⊎◌, length, arith, Option}
use lengentic.Base.Text.{Text, text, text_eq}
use lengentic.TelemetrySdk.Config.{
  TelemetryConfig, ResolvedTelemetryConfig, whole, resolve_config, positive_int, non_negative_int,
  bounded_int,
}
use lengentic.TelemetrySdk.Config.Resolved.{IsUsable, resolve_config-IsUsable}
use lengentic.TelemetrySdk.Client.{
  ClientConfig, EnvelopeCheck, valid, Client, Input, recording, answering, waking, delivered,
  retryable, TransportResult, idle, new_client, no_counts, step, run, shutting_down,
  deadline_passing, request_pump, start_delivery, pump_on, after_attempt, failed_attempt,
  attempt_again, give_up, record_event, enqueue, schedule_work,
}
use lengentic.TelemetrySdk.Client.Balance.{Inv}
use lengentic.TelemetrySdk.Client.Steps.{run-Inv}
use lengentic.TelemetrySdk.Client.DeliveryId.{run-keeps_id}
use lengentic.TelemetrySdk.Client.Silence.{IsSilent, run-IsSilent}
use lengentic.TelemetrySdk.Client.Draining.{attend_all, flush-ends}

abbrev fresh : BoundedQueue ℕ
fresh = record { capacity = 2; items = []; dropped_count = 0 }

abbrev calls : List (Call ℕ)
calls = pushing 1 ∷ pushing 2 ∷ pushing 3 ∷ taking 1 ∷ pushing 4 ∷ pushing 5 ∷ []

-- 1 and 3 were dropped, 2 was taken.
queue_left :
    after_calls calls (fresh, [])
    ≡ (record { capacity = 2; items = 4 ∷ 5 ∷ []; dropped_count = 2 }, 2 ∷ [])
unfolding after_calls push take shift_while splice
queue_left = refl

after_calls-IsNewest_example : IsNewest 2 (pushed calls) (after_calls calls (fresh, []))
unfolding new_queue
after_calls-IsNewest_example = after_calls-IsNewest 2 fresh calls refl

-- Batches of two, one retry.
abbrev config : ClientConfig
config = record { max_batch_size = 2; max_retries = 1 }

abbrev all_valid : ℕ → EnvelopeCheck
all_valid e = valid

abbrev id : Text
id = text "d1"

-- Two events fill a batch; its first attempt fails.
abbrev inputs : List (Input ℕ)
inputs = recording 7 id ∷ recording 8 id ∷ answering retryable (text "d2") ∷ []

abbrev opened : Client ℕ
opened = new_client fresh

run-Inv_example : Inv config (run config all_valid inputs opened)
unfolding new_queue
run-Inv_example = run-Inv config all_valid 2 fresh inputs refl

-- The second failure gives the batch up; the id stays pending.
run-keeps_id_example :
    (run config all_valid
      (waking id ∷ answering retryable id ∷ [])
      (run config all_valid inputs opened)).pending_delivery_id
    ≡ some id
unfolding run step record_event enqueue schedule_work request_pump pump_on start_delivery
    after_attempt failed_attempt attempt_again give_up new_client push take shift_while splice
    no_counts
run-keeps_id_example =
    run-keeps_id config all_valid (waking id ∷ answering retryable id ∷ []) id
      (run config all_valid inputs opened) (tt, (tt, tt)) refl

abbrev stopping : Client ℕ
stopping = step config all_valid (shutting_down id) (run config all_valid inputs opened)

run-IsSilent_example :
    IsSilent (run config all_valid inputs (step config all_valid (deadline_passing id) stopping))
unfolding run step record_event enqueue schedule_work request_pump pump_on start_delivery
    after_attempt failed_attempt attempt_again give_up new_client push take shift_while splice
    no_counts
run-IsSilent_example = run-IsSilent config all_valid id inputs stopping refl

abbrev three_queued : Client ℕ
three_queued = record opened {
  queue = record { capacity = 5; items = 1 ∷ 2 ∷ 3 ∷ []; dropped_count = 0 };
}

abbrev answers : List (TransportResult × Text)
answers =
    (retryable, id)
    ∷ (retryable, id)
    ∷ (retryable, id)
    ∷ (delivered none, id)
    ∷ (delivered none, id)
    ∷ (retryable, id)
    ∷ (retryable, id)
    ∷ (retryable, id)
    ∷ (retryable, id)
    ∷ (retryable, id)
    ∷ (retryable, id)
    ∷ (retryable, id)
    ∷ []

flush-ends_example :
    let t = attend_all config answers (request_pump config id three_queued) in
    (t.pump ≡ idle) × ((t.abandoned ≡ true) ⊎ (length t.queue.items ≡ 0))
unfolding new_client
flush-ends_example = flush-ends config id three_queued answers (omega arith) refl (omega arith)

abbrev settings : TelemetryConfig ℕ
settings = record {
  endpoint = some (text "https://api");
  api_key = none;
  flush_interval_ms = none;
  max_batch_size = some (whole 50);
  max_queue_size = none;
  max_retries = some (whole 0);
  initial_backoff_ms = none;
  max_backoff_ms = none;
  request_timeout_ms = none;
  shutdown_timeout_ms = none;
  max_field_bytes = none;
  capture_tool_io = none;
  transport = none;
}

abbrev https : Text → Option Text
https url = some (text "https:")

abbrev resolved : ResolvedTelemetryConfig ℕ
resolved = record {
  flush_interval_ms = 1000;
  max_batch_size = 50;
  max_queue_size = 10000;
  max_retries = 0;
  initial_backoff_ms = 200;
  max_backoff_ms = 5000;
  request_timeout_ms = 5000;
  shutdown_timeout_ms = 5000;
  max_field_bytes = 32768;
  capture_tool_io = true;
  transport = 0;
}

resolve_config-IsUsable_example : IsUsable resolved
unfolding resolve_config positive_int non_negative_int bounded_int text_eq
resolve_config-IsUsable_example =
    resolve_config-IsUsable https (λ endpoint key. 0) settings resolved refl

-- A list whose second item is too long for the cap.
abbrev letters : ℕ → Text
letters zero = []
letters (suc n) = 97 ∷ letters n

abbrev long_list : Sanitized
long_list = array (value (string (letters 3)) (value (string (letters 300)) no_values))

cap_field-IsCapped_example : IsCapped long_list 256 false (cap_field long_list 256 false)
cap_field-IsCapped_example = cap_field-IsCapped long_list 256 false (omega arith)

kept_length-IsLargest_example :
    IsLargest (fits (letters 20) 20) (min (length (letters 20)) 20) (kept_length (letters 20) 20)
kept_length-IsLargest_example = kept_length-IsLargest (letters 20) 20 (omega arith)

keeps_four : kept_length (letters 20) 20 ≡ 4
unfolding kept_length fits
keeps_four = refl

-- A long text below a key is given all the bytes that are left, then the key's own bytes and the
-- colon no longer fit, and the text is dropped.
abbrev log_field : Sanitized
log_field = object (field (text "log") (string (letters 300)) no_entries)

log_field_dropped :
    (cap_field log_field 256 false).value ≡ object (field truncation_key (boolean true) no_entries)
unfolding cap_field
log_field_dropped = refl

-- So is a long second item, for its comma.
long_list_dropped : (cap_field long_list 256 false).bytes ≡ 37
unfolding cap_field
long_list_dropped = refl
