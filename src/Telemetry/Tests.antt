-- ===== src/Telemetry/Tests.antt =====
-- Examples for the theorems on telemetry/: two events of one step, delivered twice.
use lengentic.Base.{
  ℕ, ◌≡◌, refl, ◌↔◌, Bool, true, false, Option, none, some, List, [], ◌∷◌, All, count, ltb, ◌==◌,
  ◌+◌, if◌then◌else◌, inr,
}
use lengentic.Base.Text.{Text, text, text_eq}
use lengentic.Base.Date.{date_parse}
use lengentic.Base.Assoc.{lookup, text_Eq}
use lengentic.MergeRules.{merge_event}
use lengentic.Telemetry.Json.{
  Json, null, string, array, object, no_items, item, no_members, member, entries,
}
use lengentic.Telemetry.WireSanitize.{
  exceeds_max_structural_depth, exceeds_within, has_nul_or_lone_surrogate, contains_unsafe_unicode,
  TelemetryEventType, run_started, step_started, error_recorded,
}
use lengentic.Telemetry.WireSanitize.Depth.{height, exceeds-height}
use lengentic.Telemetry.WireSanitize.Unicode.{IsEncoded, texts, contains_unsafe_unicode-IsEncoded}
use lengentic.Telemetry.Events.{TelemetryEvent, step_kind}
use lengentic.Telemetry.Repository.{Store, with_entity_lock, entity_key, save}
use lengentic.Telemetry.Repository.Redelivery.{all_duplicate, with_entity_lock-redelivered}
use lengentic.Telemetry.Parse.{EnvelopeResult, issues, envelope, version_2, parse_telemetry_event}
use lengentic.Telemetry.Failure.{
  Failure, an_error, HttpStatus, service_unavailable, is_known_dependency_unavailable,
}
use lengentic.Telemetry.Batch.{Tally}
use lengentic.Telemetry.Ingest.{Backend, Database, Stage, aborted, went_on, ingest}
use lengentic.Telemetry.Ingest.Answers.{ingest-answers_once}
use lengentic.Telemetry.Ingest.Drops.{ingest-aborted}

abbrev nested : Json
nested = array (item (object (member (text "k") (string (text "v")) no_members)) no_items)

exceeds-height_example : exceeds_max_structural_depth nested 1 ≡ ltb 1 (height nested)
exceeds-height_example = exceeds-height nested 1

contains_unsafe_unicode-IsEncoded_example :
    (contains_unsafe_unicode nested ≡ false) ↔ All IsEncoded (texts nested)
contains_unsafe_unicode-IsEncoded_example = contains_unsafe_unicode-IsEncoded nested

abbrev started_event : TelemetryEvent
started_event = record {
  event_id = text "e1";
  schema_version = text "2";
  type = step_started;
  entity_id = text "s";
  run_id = text "r";
  occurred_at = text "2026-01-01T00:00:00.000Z";
  payload = member (text "name") (string (text "plan")) no_members;
}

abbrev items : List (ℕ × TelemetryEvent)
items = (0, started_event) ∷ (1, started_event) ∷ []

abbrev empty : Store
empty = record { entities = []; ingested = []; dropped = []; deliveries = [] }

abbrev same : Text → Text
same t = t

abbrev committed :
    Option (Store × List (ℕ × TelemetryEvent × Bool)) → Store × List (ℕ × TelemetryEvent × Bool)
committed none = (empty, [])
committed (some c) = c

abbrev first : Store × List (ℕ × TelemetryEvent × Bool)
first = committed (with_entity_lock same step_kind (text "s") (text "r") items 5 empty)

with_entity_lock-redelivered_example :
    with_entity_lock same step_kind (text "s") (text "r") items 9 first.0
    ≡ some (
      save same step_kind
          (text "s")
          (lookup (entity_key step_kind (text "s")) first.0.entities)
          (lookup (entity_key step_kind (text "s")) first.0.entities)
          first.0,
      all_duplicate items,
    )
unfolding with_entity_lock merge_event text_eq
with_entity_lock-redelivered_example =
    with_entity_lock-redelivered same step_kind (text "s") (text "r") 5 9 items empty first.0
      first.0 first.1 refl (λ id known. known)

abbrev run_event : TelemetryEvent
run_event = record started_event {
  event_id = text "e0";
  type = run_started;
  entity_id = text "r";
  payload = no_members;
}

-- A raw event is its id and its type; a number among them is refused by the envelope's schema.
abbrev raw : Text → Text → Json
raw id type =
    object (member (text "eventId") (string id) (member (text "type") (string type) no_members))

abbrev type_of : Text → TelemetryEventType
type_of t =
    if text_eq t (text "run.started")
    then run_started
    else if text_eq t (text "step.started")
    then step_started
    else error_recorded

abbrev envelope_of : Option Json → Option Json → EnvelopeResult
envelope_of (some (string id)) (some (string type)) = envelope (record {
  event_id = id;
  schema_version = version_2;
  type = type_of type;
  entity_id = text "x";
  run_id = text "r";
  occurred_at = text "2026-01-01T00:00:00.000Z";
  payload = object no_members;
})
envelope_of _ _ = issues (text "type" ∷ [])

abbrev backend : Option Failure → Backend ℕ
backend failure = record {
  serialized_byte_length = λ raw. 10;
  check_envelope = λ input.
      envelope_of (lookup (text "eventId") (entries input)) (lookup (text "type") (entries input));
  check_payload = λ type payload. some no_members;
  normalize = same;
  transaction_failure = λ kind id. failure;
  write_entity_event = λ e written. inr (written + 1);
  drop_fold_fails = λ run_id. false;
}

abbrev raw_events : List Json
raw_events =
    raw (text "a") (text "run.started")
    ∷ null
    ∷ raw (text "b") (text "error.recorded")
    ∷ raw (text "a") (text "run.started")
    ∷ []

abbrev database : Database ℕ
database = record { store = empty; others = 0 }

abbrev tally_of : Stage ℕ → Tally
tally_of (went_on t db) = t
tally_of (aborted status db) = record { results = []; accepted = 0; duplicate = 0; rejected = 0 }

abbrev database_of : Stage ℕ → Database ℕ
database_of (went_on t db) = db
database_of (aborted status db) = db

abbrev went : Stage ℕ → Bool
went (went_on t db) = true
went (aborted status db) = false

recovered : (s : Stage ℕ) → went s ≡ true → s ≡ went_on (tally_of s) (database_of s)
recovered (went_on t db) h = refl
recovered (aborted status db) h = cc

abbrev status_of : Stage ℕ → Option HttpStatus
status_of (went_on t db) = none
status_of (aborted status db) = some status

recovered_status :
    (s : Stage ℕ) (status : HttpStatus)
    → status_of s ≡ some status
    → s ≡ aborted status (database_of s)
recovered_status (went_on t db) status h = cc
recovered_status (aborted now db) status h = cc

abbrev answer : Stage ℕ
answer = ingest (backend none) raw_events (some 4) (some (text "d")) 7 database

ingest-answers_once_example :
    ((i : ℕ) → count (λ r. r.0 == i) (tally_of answer).results ≡ (if ltb i 4 then 1 else 0))
    × ((tally_of answer).accepted + ((tally_of answer).duplicate + (tally_of answer).rejected) ≡ 4)
unfolding ingest parse_telemetry_event is_known_dependency_unavailable merge_event text_eq
    exceeds_within has_nul_or_lone_surrogate date_parse
ingest-answers_once_example =
    ingest-answers_once (backend none) raw_events (some 4) (some (text "d")) 7 database
      (database_of answer) (tally_of answer) (recovered answer refl)

abbrev unreachable : Failure
unreachable = an_error (text "PrismaClientInitializationError") none none

abbrev stopped : Stage ℕ
stopped = ingest (backend (some unreachable)) raw_events (some 4) (some (text "d")) 7 database

ingest-aborted_example :
    ((database_of stopped).store.dropped ≡ empty.dropped)
    × ((database_of stopped).store.deliveries ≡ empty.deliveries)
unfolding ingest parse_telemetry_event is_known_dependency_unavailable merge_event text_eq
    exceeds_within has_nul_or_lone_surrogate date_parse
ingest-aborted_example =
    ingest-aborted (backend (some unreachable)) raw_events (some 4) (some (text "d")) 7 database
      (database_of stopped) service_unavailable (recovered_status stopped service_unavailable refl)
