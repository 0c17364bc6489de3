-- ===== src/MergeRules.antt =====
-- platform/api/src/telemetry/merge-rules.ts: the state of one Run or Step, folded from the
-- telemetry events that name it. The records, the comparisons of instants and `mergeEvent` are
-- here; the children hold the proofs. `undefined` and `null` are `none`; a thrown error is
-- `none` too, as the result of `merge_event`. A field bag (`Record<string, unknown>`) is an
-- association list over an arbitrary type of values, whose keys are not names of
-- `Object.prototype`; `structuredClone` and spreads copy, and values here are never shared.
pub mod Order
pub mod Views
pub mod Apply
pub mod Commute
pub mod Folds
pub mod Arrival
mod Tests
use lengentic.Base.{
  ℕ, Bool, true, false, Option, none, some, List, [], ◌∷◌, max, ltb, if◌then◌else◌, or_else,
}
use lengentic.Base.Text.{Text, text_lt}
use lengentic.Base.Assoc.{lookup, assign, text_Eq}
use lengentic.Base.Date.{date_parse}

pub data MergeEntityStatus : Type 0 where
  running completed failed : MergeEntityStatus

pub data MergeTerminalStatus : Type 0 where
  completed failed : MergeTerminalStatus

pub data MergeEventKind : Type 0 where
  start completion : MergeEventKind

abbrev pub Fields : Type 0 → Type 0
Fields V = List (Text × V)

pub record MergeEvent (V : Type 0) : Type 0 where
  pub event_id : Text
  pub entity_id : Text
  pub occurred_at : Text
  pub received_at : ℕ
  pub kind : MergeEventKind
  pub status : Option MergeTerminalStatus
  pub fields : Fields V

pub record CompletionFieldOrigin : Type 0 where
  pub occurred_at : Text
  pub event_id : Text

pub record EntityMergeState (V : Type 0) : Type 0 where
  pub entity_id : Text
  pub status : MergeEntityStatus
  pub started_at : Option Text
  pub start_fields : Option (Fields V)
  pub completed_at : Option Text
  pub completion_fields : Option (Fields V)
  pub completion_event_id : Option Text
  pub start_event_id : Option Text
  pub completion_field_origins : Fields CompletionFieldOrigin
  -- `none` is -Infinity.
  pub last_event_at : Option ℕ

-- A terminal status among the stored ones.
abbrev pub stored : MergeTerminalStatus → MergeEntityStatus
stored completed = completed
stored failed = failed

unfoldable pub resolve_terminal_status :
    MergeEntityStatus → MergeTerminalStatus → MergeTerminalStatus
resolve_terminal_status running incoming = incoming
resolve_terminal_status failed incoming = failed
resolve_terminal_status completed failed = failed
resolve_terminal_status completed completed = completed

-- What the code asks of a difference of two numbers: its sign, or that it is NaN.
pub data Difference : Type 0 where
  negative zero positive not_a_number : Difference

difference : Option ℕ → Option ℕ → Difference
difference (some a) (some b) = if ltb a b then negative else if ltb b a then positive else zero
difference _ _ = not_a_number

abbrev pub is_positive : Difference → Bool
is_positive positive = true
is_positive _ = false

abbrev is_negative : Difference → Bool
is_negative negative = true
is_negative _ = false

compare_occurred_at : Text → Text → Difference
unfolding difference
compare_occurred_at a b = difference (date_parse a) (date_parse b)

-- `a.eventId < b.eventId ? -1 : a.eventId > b.eventId ? 1 : 0`.
compare_event_id : Text → Text → Difference
compare_event_id a b = if text_lt a b then negative else if text_lt b a then positive else zero

unfoldable pub compare_completion_order : CompletionFieldOrigin → CompletionFieldOrigin → Difference
unfolding compare_occurred_at compare_event_id
compare_completion_order a b = elim (compare_occurred_at a.occurred_at b.occurred_at) [
  | zero ↦ compare_event_id a.event_id b.event_id
  | diff ↦ diff
]

-- The guard of `shouldReplaceCompletion` on the two nullable columns, then the comparison.
unfoldable pub should_replace : Option Text → Option Text → CompletionFieldOrigin → Bool
should_replace (some id) (some time) incoming =
    is_positive (compare_completion_order incoming (record { occurred_at = time; event_id = id }))
should_replace _ _ incoming = true

-- The same guard of `shouldReplaceStart`, then its mirrored comparison.
unfoldable pub should_replace_earlier : Option Text → Option Text → CompletionFieldOrigin → Bool
unfolding compare_occurred_at
should_replace_earlier (some id) (some time) incoming =
    elim (compare_occurred_at incoming.occurred_at time) [
      | zero ↦ text_lt incoming.event_id id
      | diff ↦ is_negative diff
    ]
should_replace_earlier _ _ incoming = true

-- `origin === undefined || compareCompletionOrder(incoming, origin) > 0`.
unfoldable pub outranks : CompletionFieldOrigin → Option CompletionFieldOrigin → Bool
outranks incoming none = true
outranks incoming (some origin) = is_positive (compare_completion_order incoming origin)

-- `Math.max(base.lastEventAt, event.receivedAt)`.
abbrev pub later_of : Option ℕ → ℕ → ℕ
later_of none b = b
later_of (some a) b = max a b

module _ {V : Type 0} where
  unfoldable pub origin_of : MergeEvent V → CompletionFieldOrigin
  origin_of e = record { occurred_at = e.occurred_at; event_id = e.event_id }

  unfoldable pub should_replace_completion : EntityMergeState V → MergeEvent V → Bool
  unfolding should_replace origin_of
  should_replace_completion current e =
      should_replace current.completion_event_id current.completed_at (origin_of e)

  unfoldable pub should_replace_start : EntityMergeState V → MergeEvent V → Bool
  unfolding should_replace_earlier origin_of
  should_replace_start current e =
      should_replace_earlier current.start_event_id current.started_at (origin_of e)

  unfoldable pub empty_state : Text → EntityMergeState V
  empty_state id = record {
    entity_id = id;
    status = running;
    started_at = none;
    start_fields = none;
    completed_at = none;
    completion_fields = none;
    completion_event_id = none;
    start_event_id = none;
    completion_field_origins = [];
    last_event_at = none;
  }

  -- The loop over `Object.entries(clonedFields)`, on `nextFields` and `nextOrigins`.
  unfoldable pub merge_fields :
      CompletionFieldOrigin
      → Fields V
      → Fields V × Fields CompletionFieldOrigin
      → Fields V × Fields CompletionFieldOrigin
  merge_fields incoming [] (fields, origins) = (fields, origins)
  merge_fields incoming ((key, value) ∷ entries) (fields, origins) = merge_fields incoming entries (
      if outranks incoming (lookup key origins)
      then (assign key value fields, assign key incoming origins)
      else (fields, origins))

  -- The `kind === 'start'` branch.
  unfoldable pub merge_start : EntityMergeState V → MergeEvent V → EntityMergeState V
  unfolding should_replace_start
  merge_start base e =
      let replace = should_replace_start base e in
      record base {
        started_at = if replace then some e.occurred_at else base.started_at;
        start_fields = if replace then some e.fields else base.start_fields;
        start_event_id = if replace then some e.event_id else base.start_event_id;
        last_event_at = some (later_of base.last_event_at e.received_at);
      }

  -- The completion branch, after its check that the event has a status.
  unfoldable pub merge_completion :
      EntityMergeState V → MergeEvent V → MergeTerminalStatus → EntityMergeState V
  unfolding should_replace_completion
  merge_completion base e incoming =
      let replace = should_replace_completion base e in
      let (fields, origins) =
        merge_fields (origin_of e) e.fields
          (or_else base.completion_fields [], base.completion_field_origins) in
      record base {
        status = stored (resolve_terminal_status base.status incoming);
        completed_at = if replace then some e.occurred_at else base.completed_at;
        completion_fields = some fields;
        completion_field_origins = origins;
        completion_event_id = if replace then some e.event_id else base.completion_event_id;
        last_event_at = some (later_of base.last_event_at e.received_at);
      }

  unfoldable pub merge_kind :
      MergeEventKind
      → Option MergeTerminalStatus
      → EntityMergeState V
      → MergeEvent V
      → Option (EntityMergeState V)
  merge_kind start status base e = some (merge_start base e)
  merge_kind completion none base e = none
  merge_kind completion (some status) base e = some (merge_completion base e status)

  unfoldable pub merge_event :
      Option (EntityMergeState V) → MergeEvent V → Option (EntityMergeState V)
  unfolding merge_kind empty_state merge_start merge_completion merge_fields outranks lookup assign
  merge_event current e = merge_kind e.kind e.status (or_else current (empty_state e.entity_id)) e

  -- The fold of one entity's events in the order in which they are handed in, as
  -- telemetry.service.ts runs it over a batch.
  unfoldable pub merge_events :
      Option (EntityMergeState V) → List (MergeEvent V) → Option (Option (EntityMergeState V))
  merge_events current [] = some current
  merge_events current (e ∷ es) = elim (merge_event current e) [
    | none ↦ none
    | some next ↦ merge_events (some next) es
  ]
