-- ===== src/Telemetry/Batch.antt =====
-- platform/api/src/telemetry/telemetry.service.ts: what `ingest` builds up over a batch. The
-- response's `results` are the writes to the array, index by index.
use lengentic.Base.{
  ℕ, ◌+◌, Bool, true, false, Option, none, some, List, [], ◌∷◌, ◌++◌, any, if◌then◌else◌,
}
use lengentic.Base.Text.{Text, text_eq}
use lengentic.Base.Assoc.{lookup, assign, text_Eq}
use lengentic.Telemetry.Events.{TelemetryEvent, MergeableKind}
use lengentic.Telemetry.Parse.{IngestErrorCode}
use lengentic.Telemetry.Repository.{entity_key}

pub data IngestStatus : Type 0 where
  accepted_event duplicate_event : IngestStatus
  rejected_event : IngestErrorCode → IngestStatus

pub record IngestResult : Type 0 where
  pub event_id : Text
  pub status : IngestStatus

pub data EventClassification : Type 0 where
  refused : Text → IngestErrorCode → Option Text → EventClassification
  to_merge : MergeableKind → TelemetryEvent → EventClassification
  to_write : TelemetryEvent → EventClassification

pub record EntityGroup : Type 0 where
  pub kind : MergeableKind
  pub entity_id : Text
  pub run_id : Text
  pub items : List (ℕ × TelemetryEvent)

abbrev pub Results : Type 0
Results = List (ℕ × IngestResult)

-- What the loop over the raw events builds up.
pub record Gathered : Type 0 where
  pub results : Results
  pub rejected : ℕ
  pub groups : List (Text × EntityGroup)
  pub entity_writes : List (ℕ × TelemetryEvent)
  pub referenced_run_ids : List Text

-- `new Set().add`.
abbrev pub add_run : Text → List Text → List Text
add_run id ids = if any (text_eq id) ids then ids else ids ++ id ∷ []

abbrev pub add_some_run : Option Text → List Text → List Text
add_some_run none ids = ids
add_some_run (some id) ids = add_run id ids

abbrev pub grown : MergeableKind → ℕ → TelemetryEvent → Option EntityGroup → EntityGroup
grown kind index e none = record {
  kind = kind;
  entity_id = e.entity_id;
  run_id = e.run_id;
  items = (index, e) ∷ [];
}
grown kind index e (some g) = record g { items = g.items ++ (index, e) ∷ [] }

unfoldable pub push_item :
    MergeableKind → ℕ → TelemetryEvent → List (Text × EntityGroup) → List (Text × EntityGroup)
unfolding entity_key
push_item kind index e groups =
    assign (entity_key kind e.entity_id)
      (grown kind index e (lookup (entity_key kind e.entity_id) groups)) groups

unfoldable pub note : ℕ → EventClassification → Gathered → Gathered
unfolding push_item
note index (refused id code run_id) g = record g {
  results = g.results ++ (index, record { event_id = id; status = rejected_event code }) ∷ [];
  rejected = g.rejected + 1;
  referenced_run_ids = add_some_run run_id g.referenced_run_ids;
}
note index (to_merge kind e) g = record g {
  groups = push_item kind index e g.groups;
  referenced_run_ids = add_run e.run_id g.referenced_run_ids;
}
note index (to_write e) g = record g {
  entity_writes = g.entity_writes ++ (index, e) ∷ [];
  referenced_run_ids = add_run e.run_id g.referenced_run_ids;
}

pub record Tally : Type 0 where
  pub results : Results
  pub accepted : ℕ
  pub duplicate : ℕ
  pub rejected : ℕ

abbrev pub accept_item : ℕ → TelemetryEvent → Tally → Tally
accept_item index e t = record t {
  results = t.results ++ (index, record { event_id = e.event_id; status = accepted_event }) ∷ [];
  accepted = t.accepted + 1;
}

abbrev pub duplicate_item : ℕ → TelemetryEvent → Tally → Tally
duplicate_item index e t = record t {
  results = t.results ++ (index, record { event_id = e.event_id; status = duplicate_event }) ∷ [];
  duplicate = t.duplicate + 1;
}

-- The loop over `groupResults`.
unfoldable pub tally_group : List (ℕ × TelemetryEvent × Bool) → Tally → Tally
tally_group [] t = t
tally_group ((index, e, true) ∷ outs) t = tally_group outs (accept_item index e t)
tally_group ((index, e, false) ∷ outs) t = tally_group outs (duplicate_item index e t)
