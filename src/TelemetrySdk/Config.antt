-- ===== src/TelemetrySdk/Config.antt =====
-- platform/telemetry-sdk/src/config.ts: the settings with which a client starts. A number is a
-- whole number or something that `Number.isInteger` refuses; a negative one is refused by every
-- range alike and counts as the latter. `redact`, `clock`, `idGenerator`, `scheduler` and
-- `onDiagnostic` are passed on or take their defaults, and are left out. `parse_url` is `new URL`,
-- of which the protocol is read.
pub mod Resolved
use lengentic.Base.{ℕ, Bool, true, Option, none, some, ltb, ◌||◌, ◌&&◌, not, or_else, if◌then◌else◌}
use lengentic.Base.Text.{Text, text, text_eq}

pub data Number : Type 0 where
  whole : ℕ → Number
  not_whole : Number

pub record TelemetryConfig (T : Type 0) : Type 0 where
  pub endpoint : Option Text
  pub api_key : Option Text
  pub flush_interval_ms : Option Number
  pub max_batch_size : Option Number
  pub max_queue_size : Option Number
  pub max_retries : Option Number
  pub initial_backoff_ms : Option Number
  pub max_backoff_ms : Option Number
  pub request_timeout_ms : Option Number
  pub shutdown_timeout_ms : Option Number
  pub max_field_bytes : Option Number
  pub capture_tool_io : Option Bool
  pub transport : Option T

pub record ResolvedTelemetryConfig (T : Type 0) : Type 0 where
  pub flush_interval_ms : ℕ
  pub max_batch_size : ℕ
  pub max_queue_size : ℕ
  pub max_retries : ℕ
  pub initial_backoff_ms : ℕ
  pub max_backoff_ms : ℕ
  pub request_timeout_ms : ℕ
  pub shutdown_timeout_ms : ℕ
  pub max_field_bytes : ℕ
  pub capture_tool_io : Bool
  pub transport : T

-- `INGEST_LIMITS.maxEventsPerBatch`.
abbrev pub max_events_per_batch : ℕ
max_events_per_batch = 500

-- `Number.MAX_SAFE_INTEGER`.
abbrev pub max_safe_integer : ℕ
max_safe_integer = 9007199254740991

abbrev pub min_field_bytes : ℕ
min_field_bytes = 256

abbrev pub max_field_bytes_ceiling : ℕ
max_field_bytes_ceiling = 65536

abbrev pub default_max_field_bytes : ℕ
default_max_field_bytes = 32768

pub data Setting : Type 0 where
  batch_size queue_size initial_backoff max_backoff flush_interval retries request_timeout : Setting
  shutdown_timeout field_bytes : Setting

pub data TelemetryConfigError : Type 0 where
  not_between : Setting → ℕ → ℕ → TelemetryConfigError
  queue_below_batch backoff_below_initial endpoint_required : TelemetryConfigError
  not_absolute not_http : Text → TelemetryConfigError

pub data Result (A : Type 0) : Type 0 where
  ok : A → Result A
  thrown : TelemetryConfigError → Result A

infixl 5 ◌>>=◌ ◌>>◌
abbrev pub ◌>>=◌ : {A B : Type 0} → Result A → (A → Result B) → Result B
ok a >>= f = f a
thrown e >>= f = thrown e

abbrev pub ◌>>◌ : {B : Type 0} → Result (Unit {0}) → Result B → Result B
m >> k = m >>= λ _. k

abbrev pub guard : Bool → TelemetryConfigError → Result (Unit {0})
guard true e = ok tt
guard _ e = thrown e

-- The range test that the three functions below share.
abbrev pub check_range : Setting → Number → ℕ → ℕ → Result ℕ
check_range name not_whole low high = thrown (not_between name low high)
check_range name (whole n) low high =
    if ltb n low || ltb high n then thrown (not_between name low high) else ok n

unfoldable pub bounded_int : Setting → Option Number → ℕ → ℕ → ℕ → Result ℕ
bounded_int name value fallback low high =
    check_range name (or_else value (whole fallback)) low high

unfoldable pub positive_int : Setting → Option Number → ℕ → ℕ → Result ℕ
positive_int name value fallback high = check_range name (or_else value (whole fallback)) 1 high

unfoldable pub non_negative_int : Setting → Option Number → ℕ → ℕ → Result ℕ
non_negative_int name value fallback high = check_range name (or_else value (whole fallback)) 0 high

module _ {T : Type 0} (parse_url : Text → Option Text) (create_http : Text → Option Text → T) where
  abbrev pub with_protocol : Text → Option Text → Option Text → Result T
  with_protocol endpoint key none = thrown (not_absolute endpoint)
  with_protocol endpoint key (some protocol) =
      if text_eq protocol (text "http:") || text_eq protocol (text "https:")
      then ok (create_http endpoint key)
      else thrown (not_http protocol)

  abbrev pub transport_at : Option Text → Option Text → Result T
  transport_at none key = thrown endpoint_required
  transport_at (some endpoint) key =
      if text_eq endpoint (text "")
      then thrown endpoint_required
      else with_protocol endpoint key (parse_url endpoint)

  abbrev pub resolve_transport : Option T → Option Text → Option Text → Result T
  resolve_transport (some t) endpoint key = ok t
  resolve_transport none endpoint key = transport_at endpoint key

  unfoldable pub resolve_config : TelemetryConfig T → Result (ResolvedTelemetryConfig T)
  unfolding positive_int non_negative_int bounded_int
  resolve_config c = do
    batch ← positive_int batch_size c.max_batch_size 100 max_events_per_batch
    queue ← positive_int queue_size c.max_queue_size 10000 max_safe_integer
    guard (not (ltb queue batch)) queue_below_batch
    first ← positive_int initial_backoff c.initial_backoff_ms 200 max_safe_integer
    last ← positive_int max_backoff c.max_backoff_ms 5000 max_safe_integer
    guard (not (ltb last first)) backoff_below_initial
    interval ← positive_int flush_interval c.flush_interval_ms 1000 max_safe_integer
    tries ← non_negative_int retries c.max_retries 3 100
    request ← positive_int request_timeout c.request_timeout_ms 5000 max_safe_integer
    stop ← positive_int shutdown_timeout c.shutdown_timeout_ms 5000 max_safe_integer
    bytes ←
        bounded_int field_bytes c.max_field_bytes default_max_field_bytes min_field_bytes
          max_field_bytes_ceiling
    transport ← resolve_transport c.transport c.endpoint c.api_key
    ok (record {
      flush_interval_ms = interval;
      max_batch_size = batch;
      max_queue_size = queue;
      max_retries = tries;
      initial_backoff_ms = first;
      max_backoff_ms = last;
      request_timeout_ms = request;
      shutdown_timeout_ms = stop;
      max_field_bytes = bytes;
      capture_tool_io = or_else c.capture_tool_io true;
      transport = transport;
    })
