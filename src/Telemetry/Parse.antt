-- ===== src/Telemetry/Parse.antt =====
-- platform/shared/schema/parse.ts: the one place that says whether an event is valid, with the
-- versions of schema-version.ts and event-type.ts. What zod answers for the two schemas of an
-- event is a parameter: the first path segments of its issues, or the parsed data.
use lengentic.Base.{
  ℕ, Bool, ◌&&◌, ◌||◌, Option, none, some, List, [], any, leb, length, if◌then◌else◌,
}
use lengentic.Base.Text.{Text, text, text_eq}
use lengentic.Base.Assoc.{lookup, text_Eq}
use lengentic.Telemetry.Json.{Json, string, object, Members, entries}
use lengentic.Telemetry.WireSanitize.{
  TelemetryEventType, run_started, run_completed, step_started, step_completed,
}
use lengentic.Telemetry.Events.{TelemetryEvent}

pub data TelemetrySchemaVersion : Type 0 where
  version_1 version_2 : TelemetrySchemaVersion

abbrev pub version_order : TelemetrySchemaVersion → ℕ
version_order version_1 = 1
version_order version_2 = 2

abbrev pub schema_version_at_least : TelemetrySchemaVersion → TelemetrySchemaVersion → Bool
schema_version_at_least actual minimum = leb (version_order minimum) (version_order actual)

abbrev pub min_schema_version : TelemetryEventType → TelemetrySchemaVersion
min_schema_version run_started = version_1
min_schema_version run_completed = version_1
min_schema_version step_started = version_1
min_schema_version step_completed = version_1
min_schema_version _ = version_2

unfoldable pub event_type_available_at : TelemetryEventType → TelemetrySchemaVersion → Bool
event_type_available_at type version = schema_version_at_least version (min_schema_version type)

abbrev pub version_name : TelemetrySchemaVersion → Text
version_name version_1 = text "1"
version_name version_2 = text "2"

pub data IngestErrorCode : Type 0 where
  unsupported_schema_version unknown_event_type missing_required_field : IngestErrorCode
  invalid_payload event_too_large event_type_not_ingestible : IngestErrorCode

pub record TelemetryEventEnvelope : Type 0 where
  pub event_id : Text
  pub schema_version : TelemetrySchemaVersion
  pub type : TelemetryEventType
  pub entity_id : Text
  pub run_id : Text
  pub occurred_at : Text
  pub payload : Json

-- What `TelemetryEventEnvelopeSchema.safeParse` says.
pub data EnvelopeResult : Type 0 where
  issues : List Text → EnvelopeResult
  envelope : TelemetryEventEnvelope → EnvelopeResult

-- `IdSchema`: a string of 1 to 128 code units.
unfoldable pub read_event_id : Members → Text
read_event_id input = elim (lookup (text "eventId") (entries input)) [
  | some (string s) ↦ if leb 1 (length s) && leb (length s) 128 then s else []
  | _ ↦ []
]

abbrev pub is_required_field : Text → Bool
is_required_field path =
    (text_eq path (text "eventId") || text_eq path (text "entityId"))
    || (text_eq path (text "runId") || text_eq path (text "occurredAt"))

unfoldable pub classify_envelope_failure : List Text → IngestErrorCode
classify_envelope_failure paths =
    if any (text_eq (text "schemaVersion")) paths
    then unsupported_schema_version
    else if any (text_eq (text "type")) paths
    then unknown_event_type
    else if any is_required_field paths
    then missing_required_field
    else invalid_payload

pub data ParseResult : Type 0 where
  parsed : TelemetryEvent → ParseResult
  unparsed : Text → IngestErrorCode → ParseResult

abbrev pub build_event : TelemetryEventEnvelope → Text → Option Members → ParseResult
build_event e id none = unparsed id invalid_payload
build_event e id (some payload) = parsed (record {
  event_id = e.event_id;
  schema_version = version_name e.schema_version;
  type = e.type;
  entity_id = e.entity_id;
  run_id = e.run_id;
  occurred_at = e.occurred_at;
  payload = payload;
})

module _ (check_envelope : Members → EnvelopeResult)
    (check_payload : TelemetryEventType → Json → Option Members) where
  unfoldable pub parse_envelope : Text → EnvelopeResult → ParseResult
  unfolding classify_envelope_failure event_type_available_at
  parse_envelope id (issues paths) = unparsed id (classify_envelope_failure paths)
  parse_envelope id (envelope e) =
      if event_type_available_at e.type e.schema_version
      then build_event e id (check_payload e.type e.payload)
      else unparsed id unknown_event_type

  unfoldable pub parse_telemetry_event : Json → ParseResult
  unfolding read_event_id parse_envelope
  parse_telemetry_event (object input) = parse_envelope (read_event_id input) (check_envelope input)
  parse_telemetry_event _ = unparsed [] missing_required_field
