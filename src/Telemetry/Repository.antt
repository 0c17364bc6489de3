-- ===== src/Telemetry/Repository.antt =====
-- platform/api/src/telemetry/telemetry.repository.ts: `withEntityLock` and `incrementDroppedCount`
-- on the tables as lists. A transaction that commits is one step; that another transaction
-- cannot come between is what the advisory lock is for. `normalize` is the way of an instant
-- through a timestamp column and `toISOString`.
pub mod Redelivery
use lengentic.Base.{
  ℕ, zero, suc, ◌+◌, Bool, true, false, ◌&&◌, ◌||◌, not, Option, none, some, List, [], ◌∷◌, ◌++◌,
  any, filter, map, ltb, ◌==◌, min, or_else, if◌then◌else◌, is_none,
}
use lengentic.Base.Text.{Text, text, text_eq}
use lengentic.Base.Assoc.{lookup, assign, text_Eq}
use lengentic.MergeRules.{EntityMergeState, merge_event, later_of}
use lengentic.Telemetry.Json.{Json, null}
use lengentic.Telemetry.Events.{TelemetryEvent, MergeableKind, run_kind, step_kind, to_merge_event}

pub record Store : Type 0 where
  -- The Run and Step rows, by kind and id.
  pub entities : List (Text × EntityMergeState Json)
  -- `IngestedEvent`: run and event.
  pub ingested : List (Text × Text)
  -- `Run.droppedTelemetryEventCount` where it is not NULL.
  pub dropped : List (Text × ℕ)
  -- `DropDelivery`: run and delivery.
  pub deliveries : List (Text × Text)

abbrev pub kind_name : MergeableKind → Text
kind_name run_kind = text "run"
kind_name step_kind = text "step"

unfoldable pub entity_key : MergeableKind → Text → Text
entity_key kind id = kind_name kind ++ (text ":" ++ id)

abbrev pub same_pair : Text × Text → Text × Text → Bool
same_pair a b = text_eq a.0 b.0 && text_eq a.1 b.1

-- A column that was written from a field: `fields?.x ?? null`.
abbrev pub column : Text → Option (List (Text × Json)) → Json
column name fields = or_else (lookup name (or_else fields [])) null

abbrev pub columns : List Text → Option (List (Text × Json)) → List (Text × Json)
columns names fields = map (λ n. (n, column n fields)) names

abbrev pub start_columns : MergeableKind → List Text
start_columns run_kind = text "workflowName" ∷ text "workflowVersion" ∷ []
start_columns step_kind = text "name" ∷ text "agentName" ∷ text "type" ∷ text "parentStepId" ∷ []

abbrev pub map_text : (Text → Text) → Option Text → Option Text
map_text f none = none
map_text f (some t) = some (f t)

abbrev pub when_some : Option Text → List (Text × Json) → Option (List (Text × Json))
when_some none fields = none
when_some (some _) fields = some fields

-- `Step` keeps the `receivedAt` of its creation, which is read back as `lastEventAt`.
abbrev pub last_column : MergeableKind → Option (EntityMergeState Json) → Option ℕ → Option ℕ
last_column step_kind (some old) last = old.last_event_at
last_column _ _ last = last

pub record Folded : Type 0 where
  pub state : Option (EntityMergeState Json)
  pub new_ids : List Text
  -- The verdict on each item: `true` for ACCEPTED, `false` for DUPLICATE.
  pub outcomes : List (ℕ × TelemetryEvent × Bool)

abbrev pub accept : ℕ → TelemetryEvent → Option Folded → Option Folded
accept index e none = none
accept index e (some f) =
    some (record f { new_ids = e.event_id ∷ f.new_ids; outcomes = (index, e, true) ∷ f.outcomes })

abbrev pub repeat : ℕ → TelemetryEvent → Option Folded → Option Folded
repeat index e none = none
repeat index e (some f) = some (record f { outcomes = (index, e, false) ∷ f.outcomes })

-- The fold that `ingest` passes to `withEntityLock` (telemetry.service.ts): `none` where
-- `mergeEvent` throws.
unfoldable pub fold_items :
    ℕ → List (ℕ × TelemetryEvent) → List Text → Option (EntityMergeState Json) → Option Folded
fold_items received_at [] seen state = some (record { state = state; new_ids = []; outcomes = [] })
fold_items received_at ((index, e) ∷ items) seen state =
    if any (text_eq e.event_id) seen
    then repeat index e (fold_items received_at items seen state)
    else elim (merge_event state (to_merge_event e received_at)) [
      | none ↦ none
      | some next ↦ accept index e (fold_items received_at items (e.event_id ∷ seen) (some next))
    ]

abbrev pub is_ingested : List (Text × Text) → Text → Text → Bool
is_ingested ledger run_id id = any (same_pair (run_id, id)) ledger

abbrev pub event_ids : List (ℕ × TelemetryEvent) → List Text
event_ids items = map (λ i. i.1.event_id) items

unfoldable pub load_ingested_event_ids : List (Text × Text) → Text → List Text → List Text
load_ingested_event_ids ledger run_id ids = filter (is_ingested ledger run_id) ids

abbrev pub credited : Option (EntityMergeState Json) → Text → ℕ → Store → Store
credited none run_id amount store = store
credited (some row) run_id amount store = record store {
  dropped =
      assign run_id (min (or_else (lookup run_id store.dropped) 0 + amount) 2147483647)
        store.dropped;
}

-- One more drop report on the run's row, where there is one.
unfoldable pub increment_dropped_count_raw : Text → ℕ → Store → Store
unfolding entity_key
increment_dropped_count_raw run_id amount store =
    credited (lookup (entity_key run_kind run_id) store.entities) run_id amount store

unfoldable pub increment_dropped_count : Text → ℕ → Option Text → Store → Store
unfolding increment_dropped_count_raw
increment_dropped_count run_id amount none store = increment_dropped_count_raw run_id amount store
increment_dropped_count run_id amount (some delivery_id) store =
    if amount == 0
    then increment_dropped_count_raw run_id amount store
    else if any (same_pair (run_id, delivery_id)) store.deliveries
    then store
    else increment_dropped_count_raw run_id amount
        (record store { deliveries = store.deliveries ++ (run_id, delivery_id) ∷ [] })

-- `UPDATE … WHERE id = run AND lastEventAt < receivedAt`.
abbrev pub touched : ℕ → EntityMergeState Json → EntityMergeState Json
touched received_at s = record s { last_event_at = some (later_of s.last_event_at received_at) }

abbrev pub touch_run_liveness : MergeableKind → Text → ℕ → Store → Store
touch_run_liveness run_kind run_id received_at store = store
touch_run_liveness step_kind run_id received_at store =
    elim (lookup (entity_key run_kind run_id) store.entities) [
      | none ↦ store
      | some s ↦ record store {
        entities = assign (entity_key run_kind run_id) (touched received_at s) store.entities;
      }
    ]

-- `recordIngestedEvents` and the touch, which are left out when nothing is new.
abbrev pub note_ids : MergeableKind → Text → ℕ → List Text → Store → Store
note_ids kind run_id received_at [] store = store
note_ids kind run_id received_at (id ∷ ids) store =
    let touched_store = touch_run_liveness kind run_id received_at store in
    record touched_store { ingested = touched_store.ingested ++ map (λ i. (run_id, i)) (id ∷ ids) }

module _ (normalize : Text → Text) where
  -- What is read back of a state that was saved: `saveRunWith` and `runRowToState`, and their
  -- counterparts for steps.
  unfoldable pub reload :
      MergeableKind → Option (EntityMergeState Json) → EntityMergeState Json → EntityMergeState Json
  reload kind old s =
      let owns = not (is_none (lookup (text "metadata") s.completion_field_origins)) in
      let metadata =
        if owns
        then column (text "metadata") s.completion_fields
        else column (text "metadata") s.start_fields in
      record {
        entity_id = s.entity_id;
        status = s.status;
        started_at = map_text normalize s.started_at;
        start_fields = when_some s.started_at (
            columns (start_columns kind) s.start_fields
            ++ (if owns then [] else (text "metadata", metadata) ∷ []));
        completed_at = map_text normalize s.completed_at;
        completion_fields =
            when_some s.completed_at (if owns then (text "metadata", metadata) ∷ [] else []);
        completion_event_id = s.completion_event_id;
        start_event_id = s.start_event_id;
        completion_field_origins = s.completion_field_origins;
        last_event_at = last_column kind old s.last_event_at;
      }

  abbrev pub save :
      MergeableKind
      → Text
      → Option (EntityMergeState Json)
      → Option (EntityMergeState Json)
      → Store
      → Store
  save kind id old none store = store
  save kind id old (some s) store = record store {
    entities = assign (entity_key kind id) (reload kind old s) store.entities;
  }

  abbrev pub commit :
      MergeableKind
      → Text
      → Text
      → ℕ
      → Option (EntityMergeState Json)
      → Store
      → Option Folded
      → Option (Store × List (ℕ × TelemetryEvent × Bool))
  commit kind entity_id run_id received_at existing store none = none
  commit kind entity_id run_id received_at existing store (some f) = some (
    note_ids kind run_id received_at f.new_ids (save kind entity_id existing f.state store),
    f.outcomes,
  )

  -- The transaction: `none` where the fold throws, and then nothing is written.
  unfoldable pub with_entity_lock :
      MergeableKind
      → Text
      → Text
      → List (ℕ × TelemetryEvent)
      → ℕ
      → Store
      → Option (Store × List (ℕ × TelemetryEvent × Bool))
  unfolding fold_items load_ingested_event_ids entity_key reload
  with_entity_lock kind entity_id run_id items received_at store =
      let existing = lookup (entity_key kind entity_id) store.entities in
      let seen = load_ingested_event_ids store.ingested run_id (event_ids items) in
      commit kind entity_id run_id received_at existing store
        (fold_items received_at items seen existing)
