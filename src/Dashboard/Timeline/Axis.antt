-- ===== src/Dashboard/Timeline/Axis.antt =====
-- Where the bars of the timeline lie.
use lengentic.Base.{
  ℕ, ◌+◌, ◌-◌, ◌≤◌, ◌≡◌, refl, Bool, true, false, Option, none, some, List, [], ◌∷◌, ◌++◌, filter,
  map, ◌==◌, min, max, if_both, All, All-map, arith, Bool-cases, inl, inr,
}
use lengentic.Base.Text.{Text}
use lengentic.Base.Folds.{All-perm}
use mathlib.Core.List.Permᴰ
use lengentic.Base.Sort.{sort, sort-perm}
use lengentic.Dashboard.Views.{StepView, RunDetailView}
use lengentic.Dashboard.Timeline.{
  TimelineWindow, TimelineEntry, TimelineShape, closed, opened, end_only, reversed, Percent,
  epoch_of, either, anchor_of, known, step_instants, instants, add_epoch, epochs, least, greatest,
  shape_of, shape_at, shape_between, bounded_end_ms, positioned, place, is_placeable, window_over,
  compute_window, build_run_timeline, by_client_clock_then_id,
}

-- An instant that the window spans.
abbrev IsSpanned : ℕ → ℕ → ℕ → Type 0
IsSpanned from to ms = (from ≤ ms) × (ms ≤ to)

least_le : (a : ℕ) (ms : List ℕ) → (least a ms ≤ a) × All (λ m. least a ms ≤ m) ms
least_le a [] = (omega arith, tt)
least_le a (b ∷ bs) =
    let (le, rest) = least_le (min a b) bs in (omega (arith, le), (omega (arith, le), rest))

greatest_ge : (a : ℕ) (ms : List ℕ) → (a ≤ greatest a ms) × All (λ m. m ≤ greatest a ms) ms
greatest_ge a [] = (omega arith, tt)
greatest_ge a (b ∷ bs) =
    let (le, rest) = greatest_ge (max a b) bs in (omega (arith, le), (omega (arith, le), rest))

All-both :
    {A : Type 0} (P Q : A → Type 0) (xs : List A) → All P xs → All Q xs → All (λ x. P x × Q x) xs
All-both P Q [] h k = tt
All-both P Q (x ∷ xs) (h, hs) (k, ks) = ((h, k), All-both P Q xs hs ks)

extremes-All : (m : ℕ) (ms : List ℕ) → All (IsSpanned (least m ms) (greatest m ms)) (m ∷ ms)
extremes-All m ms =
    let (le, les) = least_le m ms in
    let (ge, ges) = greatest_ge m ms in
    ((le, ge), All-both (λ x. least m ms ≤ x) (λ x. x ≤ greatest m ms) ms les ges)

module _ (from to : ℕ) where
  -- What a clock says lies in the window, if it says anything.
  abbrev IsTimed : Option ℕ → Type 0
  IsTimed none = Unit
  IsTimed (some ms) = IsSpanned from to ms

  add_epoch-IsTimed :
      (o : Option ℕ) (ms : List ℕ)
      → All (IsSpanned from to) (add_epoch o ms)
      → IsTimed o × All (IsSpanned from to) ms
  add_epoch-IsTimed none ms h = (tt, h)
  add_epoch-IsTimed (some m) ms (h, hs) = (h, hs)

  known-IsTimed :
      (o : Option Text) (rest : List Text)
      → All (IsSpanned from to) (epochs (known o ++ rest))
      → IsTimed (epoch_of o) × All (IsSpanned from to) (epochs rest)
  unfolding epoch_of
  known-IsTimed none rest h = (tt, h)
  known-IsTimed (some iso) rest h = add_epoch-IsTimed (epoch_of (some iso)) (epochs rest) h

  abbrev pub IsStepTimed : StepView → Type 0
  IsStepTimed step = IsTimed (epoch_of step.started_at) × IsTimed (epoch_of step.completed_at)

  steps-IsStepTimed :
      (steps : List StepView)
      → All (IsSpanned from to) (epochs (step_instants steps))
      → All IsStepTimed steps
  steps-IsStepTimed [] h = tt
  steps-IsStepTimed (step ∷ steps) h =
      let (s, h2) = known-IsTimed step.started_at _ h in
      let (c, h3) = known-IsTimed step.completed_at (step_instants steps) h2 in
      ((s, c), steps-IsStepTimed steps h3)

  either-IsTimed :
      (a b : Option Text)
      → IsTimed (epoch_of a)
      → IsTimed (epoch_of b)
      → IsTimed (epoch_of (either a b))
  either-IsTimed none b h k = k
  either-IsTimed (some a) b h k = h

-- The bar of a step: it starts at the anchor, ends no earlier, and stays in the window.
abbrev EndsAfter : ℕ → Option ℕ → Option ℕ → Type 0
EndsAfter to (some anchor) (some end) = IsSpanned anchor to end
EndsAfter to _ _ = Unit

EndsAfter-self : (from to : ℕ) (o : Option ℕ) → IsTimed from to o → EndsAfter to o o
EndsAfter-self from to none h = tt
EndsAfter-self from to (some ms) (h, k) = (omega arith, k)

EndsAfter-last : (from to : ℕ) (o : Option ℕ) → IsTimed from to o → EndsAfter to o (some to)
EndsAfter-last from to none h = tt
EndsAfter-last from to (some ms) (h, k) = (k, omega arith)

between-EndsAfter :
    (from to : ℕ) (start completed : Option ℕ)
    → shape_between start completed ≡ closed
    → IsTimed from to completed
    → EndsAfter to start completed
between-EndsAfter from to none completed e c = tt
between-EndsAfter from to (some start) none e c = tt
between-EndsAfter from to (some start) (some completed) e (h, k) = ground arith

closed-EndsAfter :
    (from to : ℕ) (started_at completed_at : Option Text)
    → shape_at started_at completed_at ≡ closed
    → IsTimed from to (epoch_of started_at)
    → IsTimed from to (epoch_of completed_at)
    → EndsAfter to (epoch_of (either started_at completed_at)) (epoch_of completed_at)
unfolding epoch_of
closed-EndsAfter from to none completed_at e s c = cc
closed-EndsAfter from to (some started_at) none e s c = cc
closed-EndsAfter from to (some started_at) (some completed_at) e s c =
    between-EndsAfter from to (epoch_of (some started_at)) (epoch_of (some completed_at)) e c

bounded_end_ms-EndsAfter :
    (w : TimelineWindow) (step : StepView) (shape : TimelineShape)
    → shape_of step ≡ shape
    → IsStepTimed w.start_ms w.end_ms step
    → EndsAfter w.end_ms (epoch_of (anchor_of step)) (bounded_end_ms step shape (some w))
unfolding bounded_end_ms shape_of
bounded_end_ms-EndsAfter w step opened e (s, c) =
    EndsAfter-last w.start_ms w.end_ms (epoch_of (anchor_of step))
      (either-IsTimed w.start_ms w.end_ms step.started_at step.completed_at s c)
bounded_end_ms-EndsAfter w step end_only e (s, c) =
    EndsAfter-self w.start_ms w.end_ms (epoch_of (anchor_of step))
      (either-IsTimed w.start_ms w.end_ms step.started_at step.completed_at s c)
bounded_end_ms-EndsAfter w step reversed e (s, c) =
    EndsAfter-self w.start_ms w.end_ms (epoch_of (anchor_of step))
      (either-IsTimed w.start_ms w.end_ms step.started_at step.completed_at s c)
bounded_end_ms-EndsAfter w step closed e (s, c) =
    closed-EndsAfter w.start_ms w.end_ms step.started_at step.completed_at e s c

-- The two sides of a bar: both or neither, both at least 0 and together at most 100 percent of a
-- window that has a width.
abbrev pub InAxis : Option Percent × Option Percent → Type 0
InAxis (some o, some w) =
    (o.earlier ≤ o.later)
    × (w.earlier ≤ w.later)
    × ((o.later - o.earlier) + (w.later - w.earlier) ≤ o.span)
    × (w.span ≡ o.span)
    × (1 ≤ o.span)
InAxis (none, none) = Unit
InAxis _ = true ≡ false

positioned-InAxis :
    (w : TimelineWindow) (anchor end : Option ℕ)
    → w.span_ms ≡ w.end_ms - w.start_ms
    → IsTimed w.start_ms w.end_ms anchor
    → EndsAfter w.end_ms anchor end
    → InAxis (positioned (some w) anchor end)
unfolding positioned
positioned-InAxis w none end e t h = tt
positioned-InAxis w (some a) none e t h = tt
positioned-InAxis w (some a) (some b) e (t, u) (h, k) = elim (Bool-cases (w.span_ms == 0)) [
  | inl flat ↦ rw (InAxis, flat) tt
  | inr wide ↦ rw (InAxis, wide) (omega arith, h, omega arith, refl, ground arith)
]

abbrev pub IsOnAxis : TimelineEntry → Type 0
IsOnAxis e = InAxis (e.offset_percent, e.width_percent)

abbrev IsFramed : Option TimelineWindow → StepView → Type 0
IsFramed none step = Unit
IsFramed (some w) step = (w.span_ms ≡ w.end_ms - w.start_ms) × IsStepTimed w.start_ms w.end_ms step

place-IsOnAxis :
    (window : Option TimelineWindow) (step : StepView)
    → IsFramed window step
    → IsOnAxis (place step window)
unfolding place positioned
place-IsOnAxis none step h = tt
place-IsOnAxis (some w) step (e, (s, c)) =
    positioned-InAxis w (epoch_of (anchor_of step)) (bounded_end_ms step (shape_of step) (some w)) e
      (either-IsTimed w.start_ms w.end_ms step.started_at step.completed_at s c)
      (bounded_end_ms-EndsAfter w step (shape_of step) refl (s, c))

unframed : (steps : List StepView) → All (IsFramed none) steps
unframed [] = tt
unframed (step ∷ steps) = (tt, unframed steps)

All-filter :
    {A : Type 0} (P : A → Type 0) (p : A → Bool) (xs : List A) → All P xs → All P (filter p xs)
All-filter P p [] h = tt
All-filter P p (x ∷ xs) (h, hs) =
    if_both (All P) (p x) (x ∷ filter p xs) (filter p xs) (h, All-filter P p xs hs)
      (All-filter P p xs hs)

All-of_map :
    {A B : Type 0} (P : B → Type 0) (f : A → B) (xs : List A)
    → All (λ x. P (f x)) xs
    → All P (map f xs)
All-of_map P f [] h = tt
All-of_map P f (x ∷ xs) (h, hs) = (h, All-of_map P f xs hs)

module _ (to_iso_string : ℕ → Text) where
  window_over-IsFramed :
      (es : List ℕ) (steps : List StepView)
      → ((from to : ℕ) → All (IsSpanned from to) es → All (IsStepTimed from to) steps)
      → All (IsFramed (window_over to_iso_string es)) steps
  window_over-IsFramed [] steps h = unframed steps
  window_over-IsFramed (m ∷ ms) steps h =
      let from = least m ms in
      let to = greatest m ms in
      All-map (IsStepTimed from to) (λ step. (to - from ≡ to - from) × IsStepTimed from to step)
        (λ step timed. (refl, timed)) steps (h from to (extremes-All m ms))

  run-IsFramed : (run : RunDetailView) → All (IsFramed (compute_window to_iso_string run)) run.steps
  unfolding compute_window
  run-IsFramed run = window_over-IsFramed (epochs (instants run)) run.steps (λ from to h.
      steps-IsStepTimed from to run.steps
        (known-IsTimed from to run.completed_at (step_instants run.steps)
          (known-IsTimed from to run.started_at _ h).1).1)

  -- Each entry of a timeline has both sides of its bar or neither. A bar starts at or after the
  -- start of the window, has a width of at least 0 and ends at or before the end of the window,
  -- which has a width then.
  pub build_run_timeline-IsOnAxis :
      (run : RunDetailView) → All IsOnAxis (build_run_timeline to_iso_string run).entries
  unfolding build_run_timeline
  build_run_timeline-IsOnAxis run =
      let window = compute_window to_iso_string run in
      let placeable = filter is_placeable run.steps in
      let framed = All-filter (IsFramed window) is_placeable run.steps (run-IsFramed run) in
      All-of_map IsOnAxis (λ step. place step window) (sort by_client_clock_then_id placeable)
        (All-map (IsFramed window) (λ step. IsOnAxis (place step window)) (place-IsOnAxis window)
          (sort by_client_clock_then_id placeable)
          (All-perm (IsFramed window) (Permᴰ.symm (sort-perm by_client_clock_then_id placeable))
            framed))
