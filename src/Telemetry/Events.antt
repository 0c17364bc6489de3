-- ===== src/Telemetry/Events.antt =====
-- platform/api/src/telemetry/event-mapping.ts, with the envelope of the wire contract
-- (platform/shared/schema/envelope.ts). The schemas see to it that a completion's payload has a
-- terminal status; `status_of` reads it.
use lengentic.Base.{ℕ, Option, none, some, filter, not, if◌then◌else◌}
use lengentic.Base.Text.{Text, text, text_eq}
use lengentic.Base.Assoc.{lookup, text_Eq}
use lengentic.MergeRules.{MergeEvent, MergeTerminalStatus, completed, failed, start, completion}
use lengentic.Telemetry.Json.{Json, string, object, Members, no_members, member, entries}
use lengentic.Telemetry.WireSanitize.{
  TelemetryEventType, run_started, run_completed, step_started, step_completed, decision_recorded,
  decision_outcome_attested, model_call_recorded, tool_call_recorded, error_recorded,
}

pub record TelemetryEvent : Type 0 where
  pub event_id : Text
  pub schema_version : Text
  pub type : TelemetryEventType
  pub entity_id : Text
  pub run_id : Text
  pub occurred_at : Text
  pub payload : Members

pub data EntityKind : Type 0 where
  run step decision model_call tool_call error : EntityKind

abbrev pub entity_kind_of : TelemetryEventType → Option EntityKind
entity_kind_of run_started = some run
entity_kind_of run_completed = some run
entity_kind_of step_started = some step
entity_kind_of step_completed = some step
entity_kind_of decision_recorded = some decision
entity_kind_of decision_outcome_attested = some decision
entity_kind_of model_call_recorded = some model_call
entity_kind_of tool_call_recorded = some tool_call
entity_kind_of error_recorded = some error

-- `MergeableEntityKind`.
pub data MergeableKind : Type 0 where
  run_kind step_kind : MergeableKind

-- `isMergeableEvent` and `mergeEntityKindOf` in one.
abbrev pub mergeable_kind_of : Option EntityKind → Option MergeableKind
mergeable_kind_of (some run) = some run_kind
mergeable_kind_of (some step) = some step_kind
mergeable_kind_of _ = none

abbrev pub type_name : TelemetryEventType → Text
type_name run_started = text "run.started"
type_name run_completed = text "run.completed"
type_name step_started = text "step.started"
type_name step_completed = text "step.completed"
type_name decision_recorded = text "decision.recorded"
type_name decision_outcome_attested = text "decision.outcome_attested"
type_name model_call_recorded = text "model_call.recorded"
type_name tool_call_recorded = text "tool_call.recorded"
type_name error_recorded = text "error.recorded"

-- The event as the object that it is.
unfoldable pub wire_form : TelemetryEvent → Json
wire_form e = object (
    member (text "eventId") (string e.event_id) (
      member (text "schemaVersion") (string e.schema_version) (
        member (text "type") (string (type_name e.type)) (
          member (text "entityId") (string e.entity_id) (
            member (text "runId") (string e.run_id) (
              member (text "occurredAt") (string e.occurred_at)
                (member (text "payload") (object e.payload) no_members)))))))

abbrev pub terminal_status : Option Json → Option MergeTerminalStatus
terminal_status (some (string s)) =
    if text_eq s (text "COMPLETED")
    then some completed
    else if text_eq s (text "FAILED")
    then some failed
    else none
terminal_status _ = none

abbrev pub start_event : TelemetryEvent → ℕ → MergeEvent Json
start_event e received_at = record {
  event_id = e.event_id;
  entity_id = e.entity_id;
  occurred_at = e.occurred_at;
  received_at = received_at;
  kind = start;
  status = none;
  fields = entries e.payload;
}

-- `const { status, ...fields } = event.payload`.
abbrev pub completion_event : TelemetryEvent → ℕ → MergeEvent Json
completion_event e received_at = record {
  event_id = e.event_id;
  entity_id = e.entity_id;
  occurred_at = e.occurred_at;
  received_at = received_at;
  kind = completion;
  status = terminal_status (lookup (text "status") (entries e.payload));
  fields = filter (λ f. not (text_eq f.0 (text "status"))) (entries e.payload);
}

-- Called on mergeable events only; the other types have no case in the code.
abbrev pub merge_event_of : TelemetryEventType → TelemetryEvent → ℕ → MergeEvent Json
merge_event_of run_completed = completion_event
merge_event_of step_completed = completion_event
merge_event_of _ = start_event

abbrev pub to_merge_event : TelemetryEvent → ℕ → MergeEvent Json
to_merge_event e received_at = merge_event_of e.type e received_at
