-- ===== src/Flow/Transition/Dispatch.antt =====
-- scripts/flow.ts, `transition`: what is dispatched, and when a phase gate is asked for.
use lengentic.Base.{
  ℕ, ◌≡◌, refl, sym, ap, ◌∙◌, ◌⊎◌, inl, inr, Bool, true, false, not, Option, none, some, List, [],
  ◌∷◌, if◌then◌else◌, Bool-cases, Option-cases, ◌>>=◌,
}
use mathlib.Core.Option.{some-injective, none-ne-some}
use lengentic.Base.Text.{Text, text_eq}
use lengentic.Base.Assoc.{text_Eq}
use lengentic.Base.Arrays.{includes, is_nil, sort_texts, sort_texts-perm}
use lengentic.Lanes.Units.{Mode, RepoState}
use lengentic.Lanes.Lifecycle.{Activation}
use lengentic.Lanes.Adapter.{Plan}
use lengentic.Lanes.Order.Completeness.{any-perm}
use lengentic.Oracle.Graph.{Resolved}
use lengentic.Oracle.Resolve.Keys.{IsKeyed}
use lengentic.Flow.Decide.{default_decide, default_decide-includes}
use lengentic.Flow.Transition.{
  Segment, FlowAction, repair, integrate, dispatch, phase_gate, advance_phase, complete, FlowInputs,
  nodes_of, wave_covered, phase_gated, outstanding_of, uncovered_of, find_current, lags, gate_step,
  act_in, proceed, with_segments, is_recovering, transition, ids, to_integrate_of, dispatchable_of,
}
use lengentic.Flow.Transition.Packets.{MayGo, nodes_of-IsOf, dispatchable_of-All, member_of}

bind-dispatch :
    {M : Type 0} (o : Option M) (k : M → FlowAction) (a : FlowAction) (P : M → Type 0)
    → ((m : M) → k m ≡ a → P m)
    → (o >>= λ m. some (k m)) ≡ some a
    → (m : M) × (o ≡ some m) × P m
bind-dispatch none k a P f h = absurd (none-ne-some a h)
bind-dispatch (some m) k a P f h = (m, refl, f m (some-injective (k m) a h))

complete_apart :
    (a : Text) (n : ℕ) (packets : List Text) (mode : Mode)
    → complete ≡ dispatch a n packets mode
    → ⊥
complete_apart a n packets mode h = cc

gate_apart :
    (a : Text) (n : ℕ) (packets : List Text) (mode : Mode) (b : Text) (m : ℕ) (agents : List Text)
    → phase_gate b m agents ≡ dispatch a n packets mode
    → ⊥
gate_apart a n packets mode b m agents h = cc

-- Of three steps, the one that can have led to the action.
second_of_three :
    (i d : Bool) (x y : Option FlowAction) (z a : FlowAction)
    → (x ≡ some a → ⊥)
    → (z ≡ a → ⊥)
    → (if i then x else if d then y else some z) ≡ some a
    → y ≡ some a
second_of_three true d x y z a f g h = absurd (f h)
second_of_three false true x y z a f g h = h
second_of_three false false x y z a f g h = absurd (g (some-injective z a h))

module _ (agent_exists : Text → Bool) (activation : Activation) (inputs : FlowInputs) where
  gate_step-dispatch :
      (s : Segment) (uncovered outstanding : List Resolved) (seg : Text) (ph : ℕ)
      (packets : List Text) (mode : Mode)
      → gate_step agent_exists activation inputs s uncovered outstanding
        ≡ dispatch seg ph packets mode
      → ⊥
  unfolding gate_step
  gate_step-dispatch s (n ∷ uncovered) outstanding seg ph packets mode h = cc
  gate_step-dispatch s [] (n ∷ outstanding) seg ph packets mode h = cc
  gate_step-dispatch s [] [] seg ph packets mode h =
      elim (Bool-cases (phase_gated inputs.records s.id)) [
        | inl g ↦ complete_apart seg ph packets mode (rw g at h)
        | inr g ↦ gate_apart seg ph packets mode _ _ _ (rw g at h)
      ]

  -- What is dispatched is what was decided of the segment's dispatchable nodes.
  act_in-dispatch :
      (s : Segment) (seg : Text) (ph : ℕ) (packets : List Text) (mode : Mode)
      → act_in agent_exists activation inputs s ≡ some (dispatch seg ph packets mode)
      → (s.id ≡ seg)
        × (s.phase ≡ ph)
        × (inputs.decide (
              sort_texts (
                ids (
                  dispatchable_of inputs.by_id
                    (uncovered_of (wave_covered inputs.records s.id) (nodes_of inputs.by_id s))
                    (outstanding_of (nodes_of inputs.by_id s)))))
            ≡ some (mode, packets))
  unfolding act_in
  act_in-dispatch s seg ph packets mode h =
      let nodes = nodes_of inputs.by_id s in
      let uncovered = uncovered_of (wave_covered inputs.records s.id) nodes in
      let merging = to_integrate_of inputs nodes in
      let going = dispatchable_of inputs.by_id uncovered (outstanding_of nodes) in
      named (
        bind-dispatch (inputs.decide (sort_texts (ids going))) (λ d. dispatch s.id s.phase d.1 d.0)
          (dispatch seg ph packets mode)
          (λ (d : Mode × List Text). (s.id ≡ seg) × (s.phase ≡ ph) × (d ≡ (mode, packets)))
          (λ d k. (cc, cc, cc))
          (second_of_three (not (is_nil merging)) (not (is_nil going)) _ _ _ _
            (λ k.
              (bind-dispatch (inputs.decide (sort_texts (ids merging)))
                (λ d. integrate s.id s.phase d.1) _ (λ d. ⊥) (λ d e. cc) k).2)
            (gate_step-dispatch s uncovered (outstanding_of nodes) seg ph packets mode) h))
    where
      named :
          {o : Option (Mode × List Text)}
          → (m : Mode × List Text) × (o ≡ some m)
            × ((s.id ≡ seg) × (s.phase ≡ ph) × (m ≡ (mode, packets)))
          → (s.id ≡ seg) × (s.phase ≡ ph) × (o ≡ some (mode, packets))
      named (m, e, (i, p, f)) = (i, p, e ∙ ap some f)

  -- A dispatch comes from the current segment.
  proceed-dispatch :
      (segments : List Segment) (seg : Text) (ph : ℕ) (packets : List Text) (mode : Mode)
      → proceed agent_exists activation inputs segments ≡ some (dispatch seg ph packets mode)
      → (s : Segment) × (find_current inputs segments ≡ some s)
        × (act_in agent_exists activation inputs s ≡ some (dispatch seg ph packets mode))
  unfolding proceed
  proceed-dispatch segments seg ph packets mode h =
      elim (Option-cases (find_current inputs segments)) [
        | inl e ↦
            absurd (complete_apart seg ph packets mode (some-injective _ _ (rw (e, proceed) at h)))
        | inr (s, e) ↦ elim (Option-cases (lags inputs segments s)) [
          | inl l ↦ (s, e, rw (e, proceed, l) at h)
          | inr (c, l) ↦ absurd (advance_apart c s.id (rw (e, proceed, l) at h))
        ]
      ]
    where
      advance_apart :
          (a b : Text) → some (advance_phase a b) ≡ some (dispatch seg ph packets mode) → ⊥
      advance_apart a b k = cc

  transition-proceeds :
      (seg : Text) (ph : ℕ) (packets : List Text) (mode : Mode)
      → (from : Text ⊎ List Segment)
      → with_segments agent_exists activation inputs from ≡ some (dispatch seg ph packets mode)
      → (segments : List Segment) × (from ≡ inr segments)
        × (proceed agent_exists activation inputs segments ≡ some (dispatch seg ph packets mode))
  unfolding with_segments
  transition-proceeds seg ph packets mode (inl reason) h = cc
  transition-proceeds seg ph packets mode (inr segments) h =
      elim (Bool-cases (is_recovering inputs.step)) [
        | inl e ↦ absurd (repair_apart (rw e at h))
        | inr e ↦ (segments, refl, rw e at h)
      ]
    where
      repair_apart : some repair ≡ some (dispatch seg ph packets mode) → ⊥
      repair_apart k = cc

  -- With the decision that is taken by default over a graph that keeps each node under its id, a
  -- dispatch names the id and the phase of the current segment, and each of its packets is a node
  -- of the graph that the segment lists and that is not optional, unfinished, READY or
  -- IN-PROGRESS, and that does not need, directly or through other nodes, any done node of the
  -- segment that no wave gate on record covers.
  pub transition-dispatch :
      (plan : Plan) (repo : RepoState) (seg : Text) (ph : ℕ) (packets : List Text) (mode : Mode)
      → IsKeyed inputs.by_id
      → inputs.decide ≡ default_decide agent_exists activation plan repo inputs.by_id
      → transition agent_exists activation inputs ≡ some (dispatch seg ph packets mode)
      → (segments : List Segment) × (inputs.segments ≡ inr segments)
        × ((s : Segment) × (find_current inputs segments ≡ some s)
            × (s.id ≡ seg)
            × (s.phase ≡ ph)
            × ((x : Text) → includes x packets ≡ true → MayGo inputs s x))
  unfolding transition
  transition-dispatch plan repo seg ph packets mode keyed default h =
      in_segments (transition-proceeds seg ph packets mode inputs.segments h)
    where
      in_segment :
          (segments : List Segment)
          → (s : Segment) × (find_current inputs segments ≡ some s)
            × (act_in agent_exists activation inputs s ≡ some (dispatch seg ph packets mode))
          → (s : Segment) × (find_current inputs segments ≡ some s)
            × (s.id ≡ seg)
            × (s.phase ≡ ph)
            × ((x : Text) → includes x packets ≡ true → MayGo inputs s x)
      in_segment segments (s, e, k) =
          let nodes = nodes_of inputs.by_id s in
          let uncovered = uncovered_of (wave_covered inputs.records s.id) nodes in
          let going = dispatchable_of inputs.by_id uncovered (outstanding_of nodes) in
          let (same, phase, decided) = act_in-dispatch s seg ph packets mode k in
          (
            s,
            e,
            same,
            phase,
            λ x i.
                member_of x going
                  (dispatchable_of-All _ inputs.by_id uncovered nodes
                    (nodes_of-IsOf inputs.by_id s keyed))
                  (sym (any-perm (text_eq x) (sort_texts-perm (ids going)))
                    ∙ default_decide-includes plan inputs.by_id keyed agent_exists activation repo
                        (sort_texts (ids going)) mode packets
                        (sym (ap (λ f. f (sort_texts (ids going))) default) ∙ decided) x i),
          )

      in_segments :
          (segments : List Segment) × (inputs.segments ≡ inr segments)
            × (proceed agent_exists activation inputs segments
                ≡ some (dispatch seg ph packets mode))
          → (segments : List Segment) × (inputs.segments ≡ inr segments)
            × ((s : Segment) × (find_current inputs segments ≡ some s)
                × (s.id ≡ seg)
                × (s.phase ≡ ph)
                × ((x : Text) → includes x packets ≡ true → MayGo inputs s x))
      in_segments (segments, e, k) =
          (segments, e, in_segment segments (proceed-dispatch segments seg ph packets mode k))
