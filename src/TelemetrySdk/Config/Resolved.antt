-- ===== src/TelemetrySdk/Config/Resolved.antt =====
-- What the settings of a client that starts are good for.
use lengentic.Base.{
  ℕ, ◌≤◌, ◌≡◌, refl, Bool, true, false, Option, ltb, ◌||◌, not, or_else, arith, subst, Bool-cases,
  inl, inr,
}
use lengentic.Base.Text.{Text}
use lengentic.TelemetrySdk.Config.{
  Number, whole, not_whole, TelemetryConfig, ResolvedTelemetryConfig, Result, ok, thrown, ◌>>=◌,
  ◌>>◌, guard, check_range, TelemetryConfigError, queue_below_batch, backoff_below_initial, Setting,
  batch_size, queue_size, initial_backoff, max_backoff, flush_interval, retries, request_timeout,
  shutdown_timeout, field_bytes, max_safe_integer, bounded_int, positive_int, non_negative_int,
  resolve_transport, resolve_config,
}

-- What holds of a result that is not an error.
data Ensures {A : Type 0} (P : A → Type 0) : Result A → Type 0 where
  met : {a : A} → P a → Ensures P (ok a)
  waived : {e : TelemetryConfigError} → Ensures P (thrown e)

ensured : {A : Type 0} {P : A → Type 0} {a : A} → Ensures P (ok a) → P a
ensured (met p) = p

Ensures-bind :
    {A B : Type 0} {P : A → Type 0} {Q : B → Type 0} {m : Result A} {f : A → Result B}
    → Ensures P m
    → ((a : A) → P a → Ensures Q (f a))
    → Ensures Q (m >>= f)
Ensures-bind (met p) k = k _ p
Ensures-bind waived k = waived

Ensures-guard :
    {B : Type 0} {Q : B → Type 0} {test : Bool} (e : TelemetryConfigError) {k : Result B}
    → (test ≡ true → Ensures Q k)
    → Ensures Q (guard test e >> k)
Ensures-guard {test = true} e h = h refl
Ensures-guard {test = false} e h = waived

abbrev IsBetween : ℕ → ℕ → ℕ → Type 0
IsBetween low high n = (low ≤ n) × (n ≤ high)

check_range-Ensures :
    (name : Setting) (value : Number) (low high : ℕ)
    → Ensures (IsBetween low high) (check_range name value low high)
check_range-Ensures name not_whole low high = waived
check_range-Ensures name (whole n) low high = elim (Bool-cases (ltb n low || ltb high n)) [
  | inl out ↦ rw (out, check_range) waived
  | inr within ↦ rw (within, check_range) (met (ground arith))
]

not-ltb : (a b : ℕ) → not (ltb a b) ≡ true → b ≤ a
not-ltb a b h = ground arith

-- Settings that a client can work with.
pub record IsUsable {T : Type 0} (r : ResolvedTelemetryConfig T) : Type 0 where
  pub batch : (1 ≤ r.max_batch_size) × (r.max_batch_size ≤ 500)
  pub queue : r.max_batch_size ≤ r.max_queue_size
  pub retries : r.max_retries ≤ 100
  pub backoff : (1 ≤ r.initial_backoff_ms) × (r.initial_backoff_ms ≤ r.max_backoff_ms)
  pub timers : (1 ≤ r.flush_interval_ms) × (1 ≤ r.request_timeout_ms) × (1 ≤ r.shutdown_timeout_ms)
  pub field : (256 ≤ r.max_field_bytes) × (r.max_field_bytes ≤ 65536)

module _ {T : Type 0} (parse_url : Text → Option Text) (create_http : Text → Option Text → T) where
  resolve_config-Ensures :
      (c : TelemetryConfig T) → Ensures IsUsable (resolve_config parse_url create_http c)
  unfolding resolve_config positive_int non_negative_int bounded_int
  resolve_config-Ensures c =
      Ensures-bind (check_range-Ensures batch_size (or_else c.max_batch_size (whole 100)) 1 500)
        λ batch b.
          Ensures-bind
            (check_range-Ensures queue_size (or_else c.max_queue_size (whole 10000)) 1
              max_safe_integer)
            λ queue q. Ensures-guard queue_below_batch λ fits.
              Ensures-bind
                (check_range-Ensures initial_backoff (or_else c.initial_backoff_ms (whole 200)) 1
                  max_safe_integer)
                λ first f.
                  Ensures-bind
                    (check_range-Ensures max_backoff (or_else c.max_backoff_ms (whole 5000)) 1
                      max_safe_integer)
                    λ last l. Ensures-guard backoff_below_initial λ below.
                      Ensures-bind
                        (check_range-Ensures flush_interval
                          (or_else c.flush_interval_ms (whole 1000)) 1 max_safe_integer)
                        λ interval i.
                          Ensures-bind
                            (check_range-Ensures retries (or_else c.max_retries (whole 3)) 0 100)
                            λ tries t.
                              Ensures-bind
                                (check_range-Ensures request_timeout
                                  (or_else c.request_timeout_ms (whole 5000)) 1 max_safe_integer)
                                λ request n.
                                  Ensures-bind
                                    (check_range-Ensures shutdown_timeout
                                      (or_else c.shutdown_timeout_ms (whole 5000)) 1
                                      max_safe_integer)
                                    λ stop s.
                                      Ensures-bind
                                        (check_range-Ensures field_bytes
                                          (or_else c.max_field_bytes (whole 32768)) 256 65536)
                                        λ bytes y.
                                          Ensures-bind {P = λ _. Unit}
                                            {m = resolve_transport parse_url create_http c.transport
                                              c.endpoint c.api_key}
                                            (any_transport _)
                                            λ transport _. met (record {
                                              batch = b;
                                              queue = not-ltb queue batch fits;
                                              retries = t.1;
                                              backoff = (f.0, not-ltb last first below);
                                              timers = (i.0, n.0, s.0);
                                              field = y;
                                            })
    where
      any_transport : (m : Result T) → Ensures (λ _. Unit) m
      any_transport (ok t) = met tt
      any_transport (thrown e) = waived

  -- Settings that `resolveConfig` lets through are in range: batches of 1 to 500 events that fit
  -- the queue, at most 100 retries, a backoff that does not exceed its ceiling, timers of at
  -- least a millisecond and fields of 256 to 65536 bytes.
  pub resolve_config-IsUsable :
      (c : TelemetryConfig T) (r : ResolvedTelemetryConfig T)
      → resolve_config parse_url create_http c ≡ ok r
      → IsUsable r
  resolve_config-IsUsable c r h = ensured (subst (Ensures IsUsable) h (resolve_config-Ensures c))
