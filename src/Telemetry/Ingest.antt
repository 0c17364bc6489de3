-- ===== src/Telemetry/Ingest.antt =====
-- platform/api/src/telemetry/telemetry.service.ts: `classifyEvent` and `TelemetryService.ingest`.
-- What lies outside is a `Backend`: the serializer, zod, the transactions that fail, and the four services that write
-- the other kinds of entity.
pub mod Hits
pub mod Answers
pub mod Drops
use lengentic.Base.{
  ℕ, suc, ◌+◌, Bool, true, false, ◌&&◌, ◌||◌, Option, none, some, List, [], ◌∷◌, ◌++◌, any, ltb,
  ◌⊎◌, inl, inr, if◌then◌else◌,
}
use lengentic.Base.Text.{Text, text, text_eq}
use lengentic.Base.Assoc.{lookup, assign, text_Eq}
use lengentic.Telemetry.Json.{Json, object, Members}
use lengentic.Telemetry.WireSanitize.{
  TelemetryEventType, PayloadReason, exceeds_max_structural_depth, max_structural_depth,
  contains_unsafe_unicode, is_postgres_unrepresentable_timestamp, unrepresentable_payload_reason,
}
use lengentic.Telemetry.Events.{
  TelemetryEvent, EntityKind, MergeableKind, entity_kind_of, mergeable_kind_of, wire_form,
}
use lengentic.Telemetry.Parse.{
  IngestErrorCode, invalid_payload, event_too_large, event_type_not_ingestible, EnvelopeResult,
  ParseResult, parsed, unparsed, parse_telemetry_event, read_event_id,
}
use lengentic.Telemetry.Repository.{Store, with_entity_lock, increment_dropped_count, entity_key}
use lengentic.Telemetry.Batch.{
  EventClassification, refused, to_merge, to_write, EntityGroup, Results, Gathered, note, Tally,
  accept_item, tally_group, IngestStatus, IngestResult, accepted_event, duplicate_event,
  rejected_event,
}
use lengentic.Telemetry.Failure.{Failure, an_error, HttpStatus, classify_persistence_failure}

-- `W` is the state of the other services.
pub record Backend (W : Type 0) : Type 0 where
  pub serialized_byte_length : Json → ℕ
  pub check_envelope : Members → EnvelopeResult
  pub check_payload : TelemetryEventType → Json → Option Members
  pub normalize : Text → Text
  -- Why the transaction for an entity fails, where it does.
  pub transaction_failure : MergeableKind → Text → Option Failure
  pub write_entity_event : TelemetryEvent → W → Failure ⊎ W
  -- Whether the drop count of a run cannot be written.
  pub drop_fold_fails : Text → Bool

pub record Database (W : Type 0) : Type 0 where
  pub store : Store
  pub others : W

-- How a stage that writes ends: the response is aborted, or the tally goes on.
pub data Stage (W : Type 0) : Type 0 where
  aborted : HttpStatus → Database W → Stage W
  went_on : Tally → Database W → Stage W

abbrev pub thrown : Failure
thrown = an_error (text "Error") none none

-- An event that is refused after it was parsed.
abbrev pub refuse : TelemetryEvent → IngestErrorCode → EventClassification
refuse e code = refused e.event_id code (some e.run_id)

abbrev pub route : TelemetryEvent → Option EntityKind → EventClassification
route e none = refuse e event_type_not_ingestible
route e (some kind) = elim (mergeable_kind_of (some kind)) [
  | some merge_kind ↦ to_merge merge_kind e
  | none ↦ to_write e
]

abbrev pub check_columns : TelemetryEvent → Option PayloadReason → EventClassification
check_columns e none = route e (entity_kind_of e.type)
check_columns e (some reason) = refuse e invalid_payload

unfoldable pub classify_parsed : ParseResult → EventClassification
unfolding exceeds_max_structural_depth contains_unsafe_unicode is_postgres_unrepresentable_timestamp
    unrepresentable_payload_reason wire_form
classify_parsed (unparsed id code) = refused id code none
classify_parsed (parsed e) =
    if exceeds_max_structural_depth (object e.payload) max_structural_depth
    then refuse e invalid_payload
    else if contains_unsafe_unicode (wire_form e)
    then refuse e invalid_payload
    else if is_postgres_unrepresentable_timestamp e.occurred_at
    then refuse e invalid_payload
    else check_columns e (unrepresentable_payload_reason e.type e.payload)

abbrev pub read_event_id_best_effort : Json → Text
unfolding read_event_id
read_event_id_best_effort (object input) = read_event_id input
read_event_id_best_effort _ = []

abbrev pub start_gathered : Gathered
start_gathered = record {
  results = [];
  rejected = 0;
  groups = [];
  entity_writes = [];
  referenced_run_ids = [];
}

abbrev pub start_tally : Gathered → Tally
start_tally g = record { results = g.results; accepted = 0; duplicate = 0; rejected = g.rejected }

module _ {W : Type 0} (backend : Backend W) where
  unfoldable pub classify_event : Json → EventClassification
  unfolding parse_telemetry_event classify_parsed
  classify_event raw =
      if ltb 65536 (backend.serialized_byte_length raw)
      then refused (read_event_id_best_effort raw) event_too_large none
      else classify_parsed (parse_telemetry_event backend.check_envelope backend.check_payload raw)

  unfoldable pub gather : ℕ → List Json → Gathered → Gathered
  unfolding classify_event note
  gather index [] g = g
  gather index (raw ∷ raws) g = gather (index + 1) raws (note index (classify_event raw) g)

  unfoldable pub group_outcome :
      Option Failure
      → EntityGroup
      → ℕ
      → Store
      → Failure ⊎ (Store × List (ℕ × TelemetryEvent × Bool))
  unfolding with_entity_lock
  group_outcome (some failure) group received_at store = inl failure
  group_outcome none group received_at store =
      elim (with_entity_lock backend.normalize group.kind group.entity_id group.run_id group.items
        received_at store) [ none ↦ inl thrown | some committed ↦ inr committed ]

  -- The groups in the order of their first events; a group that fails ends the request.
  unfoldable pub persist_groups : ℕ → List (Text × EntityGroup) → Tally → Database W → Stage W
  unfolding tally_group group_outcome
  persist_groups received_at [] t db = went_on t db
  persist_groups received_at ((key, group) ∷ groups) t db =
      elim (group_outcome (backend.transaction_failure group.kind group.entity_id) group received_at
        db.store) [
          | inl failure ↦ aborted (classify_persistence_failure failure) db
          | inr committed ↦
              persist_groups received_at groups (tally_group committed.1 t)
                (record db { store = committed.0 })
        ]

  unfoldable pub persist_entity_writes : List (ℕ × TelemetryEvent) → Tally → Database W → Stage W
  persist_entity_writes [] t db = went_on t db
  persist_entity_writes ((index, e) ∷ items) t db = elim (backend.write_entity_event e db.others) [
    | inl failure ↦ aborted (classify_persistence_failure failure) db
    | inr others ↦
        persist_entity_writes items (accept_item index e t) (record db { others = others })
  ]

  -- One credit for each run that the batch names, where the fold for the run does not fail.
  unfoldable pub credit_drops : List Text → ℕ → Option Text → Store → Store
  unfolding increment_dropped_count
  credit_drops [] amount delivery_id store = store
  credit_drops (run_id ∷ run_ids) amount delivery_id store =
      credit_drops run_ids amount delivery_id (
        if backend.drop_fold_fails run_id
        then store
        else increment_dropped_count run_id amount delivery_id store)

  abbrev pub fold_drops : Option ℕ → Option Text → List Text → Database W → Database W
  unfolding credit_drops
  fold_drops none delivery_id run_ids db = db
  fold_drops (some amount) delivery_id run_ids db = record db {
    store = credit_drops run_ids amount delivery_id db.store;
  }

  abbrev pub finish : Option ℕ → Option Text → List Text → Stage W → Stage W
  finish dropped delivery_id run_ids (aborted status db) = aborted status db
  finish dropped delivery_id run_ids (went_on t db) =
      went_on t (fold_drops dropped delivery_id run_ids db)

  unfoldable pub after_groups :
      List (ℕ × TelemetryEvent) → List Text → Option ℕ → Option Text → Stage W → Stage W
  unfolding persist_entity_writes
  after_groups writes run_ids dropped delivery_id (aborted status db) = aborted status db
  after_groups writes run_ids dropped delivery_id (went_on t db) =
      finish dropped delivery_id run_ids (persist_entity_writes writes t db)

  -- `went_on` is the response, whose `batchId` is left out.
  unfoldable pub ingest : List Json → Option ℕ → Option Text → ℕ → Database W → Stage W
  unfolding gather persist_groups after_groups
  ingest raw_events dropped delivery_id received_at db =
      let g = gather 0 raw_events start_gathered in
      after_groups g.entity_writes g.referenced_run_ids dropped delivery_id
        (persist_groups received_at g.groups (start_tally g) db)
