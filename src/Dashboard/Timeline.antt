-- ===== src/Dashboard/Timeline.antt =====
-- platform/dashboard/src/lib/timeline.ts: the Execution Timeline of one Run. An epoch is a count of
-- milliseconds by `date_parse`; a percentage is kept as the three numbers it is made of, so that
-- a difference below 0 would show.
pub mod Axis
pub mod Totality
use lengentic.Base.{
  ℕ, ◌+◌, ◌-◌, Bool, true, false, ◌&&◌, not, Option, none, some, List, [], ◌∷◌, ◌++◌, filter, map,
  length, ltb, ◌==◌, min, max, is_none, if◌then◌else◌,
}
use lengentic.Base.Text.{Text, text_lt}
use lengentic.Base.Date.{date_parse}
use lengentic.Dashboard.Views.{StepView, RunDetailView}
use lengentic.Base.Sort.{sort}

pub data TimelineShape : Type 0 where
  closed opened end_only reversed : TimelineShape

pub record TimelineWindow : Type 0 where
  pub start_ms : ℕ
  pub end_ms : ℕ
  pub span_ms : ℕ
  pub started_at : Text
  pub ends_at : Text

-- `(later - earlier) / span * 100`.
pub record Percent : Type 0 where
  pub later : ℕ
  pub earlier : ℕ
  pub span : ℕ

pub record TimelineEntry : Type 0 where
  pub step : StepView
  pub shape : TimelineShape
  pub started_at : Option Text
  pub completed_at : Option Text
  pub duration_ms : Option ℕ
  pub offset_percent : Option Percent
  pub width_percent : Option Percent

pub record RunTimeline : Type 0 where
  pub window : Option TimelineWindow
  pub entries : List TimelineEntry
  -- The reason is always that there is no client clock.
  pub unplaced : List StepView
  pub run_duration_ms : Option ℕ

unfoldable pub epoch_of : Option Text → Option ℕ
epoch_of none = none
epoch_of (some iso) = date_parse iso

abbrev pub either : Option Text → Option Text → Option Text
either (some a) b = some a
either none b = b

abbrev pub anchor_of : StepView → Option Text
anchor_of step = either step.started_at step.completed_at

abbrev by_id : StepView → StepView → Bool
by_id left right = text_lt right.id left.id

abbrev by_epochs : Option ℕ → Option ℕ → StepView → StepView → Bool
by_epochs (some l) (some r) left right = if l == r then by_id left right else ltb r l
by_epochs _ _ left right = by_id left right

-- Whether the comparator is positive.
unfoldable pub by_client_clock_then_id : StepView → StepView → Bool
unfolding epoch_of
by_client_clock_then_id left right =
    by_epochs (epoch_of (anchor_of left)) (epoch_of (anchor_of right)) left right

-- Pushed when it is not null.
abbrev pub known : Option Text → List Text
known none = []
known (some iso) = iso ∷ []

abbrev pub step_instants : List StepView → List Text
step_instants [] = []
step_instants (step ∷ steps) =
    known step.started_at ++ (known step.completed_at ++ step_instants steps)

abbrev pub instants : RunDetailView → List Text
instants run = known run.started_at ++ (known run.completed_at ++ step_instants run.steps)

abbrev pub add_epoch : Option ℕ → List ℕ → List ℕ
add_epoch none ms = ms
add_epoch (some m) ms = m ∷ ms

abbrev pub epochs : List Text → List ℕ
unfolding epoch_of
epochs [] = []
epochs (iso ∷ isos) = add_epoch (epoch_of (some iso)) (epochs isos)

-- `Math.min(...)` and `Math.max(...)`.
abbrev pub least : ℕ → List ℕ → ℕ
least a [] = a
least a (b ∷ bs) = least (min a b) bs

abbrev pub greatest : ℕ → List ℕ → ℕ
greatest a [] = a
greatest a (b ∷ bs) = greatest (max a b) bs

abbrev pub closed_between : Option ℕ → Option ℕ → Option ℕ
closed_between (some start) (some end) = if ltb end start then none else some (end - start)
closed_between _ _ = none

unfoldable pub closed_duration : Option Text → Option Text → Option ℕ
unfolding epoch_of
closed_duration started_at completed_at =
    closed_between (epoch_of started_at) (epoch_of completed_at)

abbrev pub shape_between : Option ℕ → Option ℕ → TimelineShape
shape_between (some start) (some completed) = if ltb completed start then reversed else closed
shape_between _ _ = opened

abbrev pub shape_at : Option Text → Option Text → TimelineShape
unfolding epoch_of
shape_at none completed_at = end_only
shape_at (some started_at) none = opened
shape_at (some started_at) (some completed_at) =
    shape_between (epoch_of (some started_at)) (epoch_of (some completed_at))

unfoldable pub shape_of : StepView → TimelineShape
shape_of step = shape_at step.started_at step.completed_at

abbrev pub window_end : Option TimelineWindow → Option ℕ
window_end none = none
window_end (some w) = some w.end_ms

unfoldable pub bounded_end_ms : StepView → TimelineShape → Option TimelineWindow → Option ℕ
unfolding epoch_of
bounded_end_ms step closed window = epoch_of step.completed_at
bounded_end_ms step opened window = window_end window
bounded_end_ms step _ window = epoch_of (anchor_of step)

abbrev pub bar : TimelineWindow → ℕ → ℕ → Option Percent × Option Percent
bar w anchor end = (
  some (record { later = anchor; earlier = w.start_ms; span = w.span_ms }),
  some (record { later = end; earlier = anchor; span = w.span_ms }),
)

unfoldable pub positioned :
    Option TimelineWindow → Option ℕ → Option ℕ → Option Percent × Option Percent
positioned (some w) (some anchor) (some end) =
    if w.span_ms == 0 then (none, none) else bar w anchor end
positioned _ _ _ = (none, none)

abbrev pub duration_of : TimelineShape → StepView → Option ℕ
unfolding closed_duration
duration_of closed step = closed_duration step.started_at step.completed_at
duration_of _ step = none

unfoldable pub place : StepView → Option TimelineWindow → TimelineEntry
unfolding shape_of bounded_end_ms positioned epoch_of
place step window =
    let shape = shape_of step in
    let sides = positioned window (epoch_of (anchor_of step)) (bounded_end_ms step shape window) in
    record {
      step = step;
      shape = shape;
      started_at = step.started_at;
      completed_at = step.completed_at;
      duration_ms = duration_of shape step;
      offset_percent = sides.0;
      width_percent = sides.1;
    }

abbrev pub is_placeable : StepView → Bool
is_placeable step = not (is_none (anchor_of step))

module _ (to_iso_string : ℕ → Text) where
  abbrev pub window_over : List ℕ → Option TimelineWindow
  window_over [] = none
  window_over (m ∷ ms) = some (record {
    start_ms = least m ms;
    end_ms = greatest m ms;
    span_ms = greatest m ms - least m ms;
    started_at = to_iso_string (least m ms);
    ends_at = to_iso_string (greatest m ms);
  })

  unfoldable pub compute_window : RunDetailView → Option TimelineWindow
  compute_window run = window_over (epochs (instants run))

  unfoldable pub build_run_timeline : RunDetailView → RunTimeline
  unfolding compute_window place by_client_clock_then_id sort closed_duration
  build_run_timeline run =
      let window = compute_window run in
      record {
        window = window;
        entries =
            map (λ step. place step window)
              (sort by_client_clock_then_id (filter is_placeable run.steps));
        unplaced = filter (λ step. not (is_placeable step)) run.steps;
        run_duration_ms = closed_duration run.started_at run.completed_at;
      }

abbrev pub count_timeline_steps : RunTimeline → ℕ
count_timeline_steps timeline = length timeline.entries + length timeline.unplaced
