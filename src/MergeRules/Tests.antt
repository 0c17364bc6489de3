-- ===== src/MergeRules/Tests.antt =====
-- One run's start and two completions, in two orders of arrival.
use mathlib.Core.List.{Permᴰ}
use lengentic.Base.{All, ℕ, ◌≡◌, refl, Option, none, some, List, [], ◌∷◌, arith}
use lengentic.Base.Text.{text, text_eq}
use lengentic.Base.Date.{date_parse}
use lengentic.Base.Assoc.{text_Eq}
use lengentic.Base.Folds.{HasDistinct}
use lengentic.MergeRules.{
  MergeEvent, EntityMergeState, CompletionFieldOrigin, start, completion, completed, failed,
  merge_event, merge_events, resolve_terminal_status, compare_completion_order,
}
use lengentic.MergeRules.Arrival.{IsFor, SameResult, merge_events-perm}

abbrev started : MergeEvent ℕ
started = record {
  event_id = text "e1";
  entity_id = text "run";
  occurred_at = text "2026-08-19T12:00:00Z";
  received_at = 100;
  kind = start;
  status = none;
  fields = (text "name", 1) ∷ [];
}

abbrev succeeded : MergeEvent ℕ
succeeded = record {
  event_id = text "e2";
  entity_id = text "run";
  occurred_at = text "2026-08-19T12:00:05Z";
  received_at = 101;
  kind = completion;
  status = some completed;
  fields = (text "cost", 5) ∷ (text "note", 6) ∷ [];
}

abbrev crashed : MergeEvent ℕ
crashed = record {
  event_id = text "e3";
  entity_id = text "run";
  occurred_at = text "2026-08-19T13:00:04+01:00";
  received_at = 102;
  kind = completion;
  status = some failed;
  fields = (text "cost", 7) ∷ [];
}

abbrev in_order : List (MergeEvent ℕ)
in_order = started ∷ succeeded ∷ crashed ∷ []

abbrev reordered : List (MergeEvent ℕ)
reordered = succeeded ∷ crashed ∷ started ∷ []

reordering : Permᴰ in_order reordered
reordering = Permᴰ.trans (Permᴰ.swap refl refl) (Permᴰ.cons refl (Permᴰ.swap refl refl))

abbrev origin : CompletionFieldOrigin
origin = record { occurred_at = text "2026-08-19T12:00:05Z"; event_id = text "e2" }

-- The earlier crash decides the status; the later success keeps the fields that it wrote.
merged :
    merge_events none reordered
    ≡ some (
        some (record {
          entity_id = text "run";
          status = failed;
          started_at = some (text "2026-08-19T12:00:00Z");
          start_fields = some ((text "name", 1) ∷ []);
          completed_at = some (text "2026-08-19T12:00:05Z");
          completion_fields = some ((text "cost", 5) ∷ (text "note", 6) ∷ []);
          completion_event_id = some (text "e2");
          start_event_id = some (text "e1");
          completion_field_origins = (text "cost", origin) ∷ (text "note", origin) ∷ [];
          last_event_at = some 102;
        }))
unfolding merge_events merge_event date_parse resolve_terminal_status compare_completion_order
    text_eq
merged = refl

All-IsFor : All (IsFor (text "run")) in_order
unfolding date_parse
All-IsFor = ((refl, (tt, (_, refl))), ((refl, (tt, (_, refl))), ((refl, (tt, (_, refl))), tt)))

distinct : HasDistinct (λ (e : MergeEvent ℕ). e.event_id) in_order
distinct = ground arith

merge_events-perm_example :
    (r t : Option (EntityMergeState ℕ)) × (merge_events none in_order ≡ some r)
    × (merge_events none reordered ≡ some t)
    × SameResult r t
merge_events-perm_example =
    merge_events-perm (text "run") none in_order reordered tt reordering All-IsFor distinct
