-- ===== src/Flow/Transition/Settled.antt =====
-- scripts/flow.ts, `transition`: when the delivery is complete.
use lengentic.Base.{◌≡◌, refl, ap, ◌∙◌, ◌⊎◌, inr, Bool, true, false, Option, List, [], ◌∷◌}
use lengentic.Base.Text.{Text}
use lengentic.Base.Arrays.{is_nil}
use lengentic.Lanes.Lifecycle.{Activation}
use lengentic.Flow.Transition.{
  Segment, FlowInputs, nodes_of, wave_covered, phase_gated, outstanding_of, uncovered_of,
  closed_by_history, proceed, with_segments, is_recovering, transition,
}

-- Every required node of the segment is done.
abbrev pub IsDelivered : FlowInputs → Segment → Type 0
IsDelivered inputs s = is_nil (outstanding_of (nodes_of inputs.by_id s)) ≡ true

-- The phase gate is on record, and a wave gate for every node that is done.
abbrev pub IsGated : FlowInputs → Segment → Type 0
IsGated inputs s =
    (phase_gated inputs.records s.id ≡ true)
    × (is_nil (uncovered_of (wave_covered inputs.records s.id) (nodes_of inputs.by_id s)) ≡ true)

-- Each segment is delivered, and gated unless history closed it: no gate of it is on record and
-- work of a later segment has started.
abbrev pub AreSettled : FlowInputs → List Segment → Type 0
AreSettled inputs [] = Unit
AreSettled inputs (s ∷ later) =
    (IsDelivered inputs s × (IsGated inputs s ⊎ (closed_by_history inputs s later ≡ true)))
    × AreSettled inputs later

module _ (agent_exists : Text → Bool) (activation : Activation) (inputs : FlowInputs) where
  entered :
      (segments : List Segment)
      → is_recovering inputs.step ≡ false
      → with_segments agent_exists activation inputs (inr segments)
        ≡ proceed agent_exists activation inputs segments
  unfolding with_segments
  entered segments r = rw r refl

  pub transition-proceed :
      (segments : List Segment)
      → inputs.segments ≡ inr segments
      → is_recovering inputs.step ≡ false
      → transition agent_exists activation inputs ≡ proceed agent_exists activation inputs segments
  unfolding transition
  transition-proceed segments e r =
      ap (with_segments agent_exists activation inputs) e ∙ entered segments r
