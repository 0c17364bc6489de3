-- ===== src/Flow/Transition.antt =====
-- scripts/flow.ts, `transition`: the next action, from inputs that are gathered elsewhere. The
-- instructions that go with an action (`steps`, and the fixed sentences of `reason`) are left out.
-- `decide`, an input, may throw, which is `none`; whether an agent has a file is a parameter.
pub mod Settled
pub mod Packets
pub mod Dispatch
use lengentic.Base.{
  ℕ, zero, suc, Bool, true, false, not, ◌&&◌, ◌||◌, ◌⊎◌, inl, inr, Option, none, some, List, [],
  ◌∷◌, map, any, filter, if◌then◌else◌, ltb, ◌>>=◌,
}
use lengentic.Base.Text.{Text, text, text_eq}
use lengentic.Base.Assoc.{lookup, text_Eq}
use lengentic.Base.Arrays.{includes, is_nil, sort_texts, flat_map, add_all}
use lengentic.Lanes.Units.{Mode}
use lengentic.Lanes.Lifecycle.{Activation, ClassLifecycle, lifecycle_of, resolve_roles}
use lengentic.Oracle.Graph.{Readiness, ready, in_progress, Resolved, is_done, is_todo}
use lengentic.Oracle.Resolve.{ById}
use lengentic.Flow.Dependence.{depends_on}

pub record Segment : Type 0 where
  pub id : Text
  pub phase : ℕ
  pub node_ids : List Text

pub data Gate : Type 0 where
  wave phase : Gate

pub record GateRecord : Type 0 where
  pub gate : Gate
  pub segment : Text
  pub packets : List Text
  pub evidence : List Text
  pub head : Text
  pub recorded_at : Text

-- A segment, its phase and what the action is about.
pub data FlowAction : Type 0 where
  error : Text → FlowAction
  repair : FlowAction
  integrate : Text → ℕ → List Text → FlowAction
  wave_gate : Text → ℕ → List Text → List Text → FlowAction
  dispatch : Text → ℕ → List Text → Mode → FlowAction
  blocked : Text → ℕ → List (Text × List Text) → FlowAction
  phase_gate : Text → ℕ → List Text → FlowAction
  advance_phase : Text → Text → FlowAction
  complete : FlowAction

pub record FlowInputs : Type 0 where
  pub by_id : ById
  pub records : List GateRecord
  pub step : Option Text
  pub checkpoint_segment : Option Text
  pub integratable : List Text
  pub segments : Text ⊎ List Segment
  pub decide : List Text → Option (Mode × List Text)

abbrev pub is_wave : Gate → Bool
is_wave wave = true
is_wave phase = false

-- A node that is there and not optional.
abbrev pub node_of : ById → Text → List Resolved
unfolding lookup text_eq
node_of by_id id = elim (lookup id by_id) [
  | none ↦ []
  | some n ↦ if n.node.optional then [] else n ∷ []
]

unfoldable pub nodes_of : ById → Segment → List Resolved
unfolding lookup text_eq
nodes_of by_id s = flat_map (node_of by_id) s.node_ids

abbrev pub later_work_started : ById → List Segment → Bool
unfolding nodes_of
later_work_started by_id later =
    any (λ s. any (λ (n : Resolved). not (is_todo n.state)) (nodes_of by_id s)) later

unfoldable pub wave_covered : List GateRecord → Text → List Text
unfolding text_eq
wave_covered records segment =
    flat_map (λ (r : GateRecord). r.packets)
      (filter (λ (r : GateRecord). is_wave r.gate && text_eq r.segment segment) records)

unfoldable pub phase_gated : List GateRecord → Text → Bool
unfolding text_eq
phase_gated records segment =
    any (λ (r : GateRecord). not (is_wave r.gate) && text_eq r.segment segment) records

abbrev pub in_regime : List GateRecord → Text → Bool
unfolding text_eq
in_regime records segment = any (λ (r : GateRecord). text_eq r.segment segment) records

abbrev pub outstanding_of : List Resolved → List Resolved
outstanding_of nodes = filter (λ (n : Resolved). not (is_done n.state)) nodes

abbrev pub uncovered_of : List Text → List Resolved → List Resolved
uncovered_of covered nodes =
    filter (λ (n : Resolved). not (includes n.node.id covered))
      (filter (λ (n : Resolved). is_done n.state) nodes)

abbrev pub owes_gate : FlowInputs → Segment → Bool
unfolding nodes_of wave_covered phase_gated text_eq
owes_gate inputs s =
    not (phase_gated inputs.records s.id)
    || any
        (λ (n : Resolved).
          is_done n.state && not (includes n.node.id (wave_covered inputs.records s.id)))
        (nodes_of inputs.by_id s)

abbrev pub closed_by_history : FlowInputs → Segment → List Segment → Bool
unfolding nodes_of text_eq
closed_by_history inputs s later =
    not (in_regime inputs.records s.id) && later_work_started inputs.by_id later

abbrev pub is_current : FlowInputs → Segment → List Segment → Bool
unfolding nodes_of wave_covered phase_gated text_eq
is_current inputs s later =
    not (is_nil (outstanding_of (nodes_of inputs.by_id s)))
    || (owes_gate inputs s && not (closed_by_history inputs s later))

-- The first segment with work or a gate outstanding.
unfoldable pub find_current : FlowInputs → List Segment → Option Segment
unfolding nodes_of wave_covered phase_gated text_eq
find_current inputs [] = none
find_current inputs (s ∷ later) =
    if is_current inputs s later then some s else find_current inputs later

abbrev pub find_index : Text → List Segment → Option ℕ
unfolding text_eq
find_index id [] = none
find_index id (s ∷ segments) =
    if text_eq s.id id then some zero else (find_index id segments >>= λ i. some (suc i))

-- `currentIndex > checkpointIndex`, both found.
unfoldable pub is_ahead : List Segment → Text → Text → Bool
unfolding text_eq
is_ahead segments checkpoint current = elim (find_index checkpoint segments) [
  | none ↦ false
  | some i ↦ elim (find_index current segments) [ none ↦ false | some j ↦ ltb i j ]
]

abbrev pub ids : List Resolved → List Text
ids nodes = map (λ (n : Resolved). n.node.id) nodes

abbrev pub is_ready : Readiness → Bool
is_ready ready = true
is_ready in_progress = true
is_ready _ = false

-- What is ready and does not build on packets whose wave gate has not run.
unfoldable pub dispatchable_of : ById → List Resolved → List Resolved → List Resolved
unfolding depends_on
dispatchable_of by_id uncovered outstanding =
    filter (λ (n : Resolved). not (depends_on n.node.id (ids uncovered) by_id))
      (filter (λ (n : Resolved). is_ready n.readiness) outstanding)

-- The checkpoint lags behind the current segment.
abbrev pub lags : FlowInputs → List Segment → Segment → Option Text
unfolding is_ahead text_eq
lags inputs segments s = elim inputs.checkpoint_segment [
  | none ↦ none
  | some checkpoint ↦
      if not (text_eq checkpoint s.id) && is_ahead segments checkpoint s.id
      then some checkpoint
      else none
]

unfoldable pub is_recovering : Option Text → Bool
unfolding text_eq
is_recovering none = false
is_recovering (some step) = text_eq step (text "recovering")

-- The finished lanes that wait to be merged.
abbrev pub to_integrate_of : FlowInputs → List Resolved → List Resolved
unfolding text_eq
to_integrate_of inputs nodes =
    filter (λ (n : Resolved). includes n.node.id inputs.integratable) nodes

module _ (agent_exists : Text → Bool) (activation : Activation) where
  abbrev pub caps_of : (ClassLifecycle → List Text) → Option Text → List Text
  unfolding lifecycle_of
  caps_of side none = []
  caps_of side (some []) = []
  caps_of side (some (c ∷ name)) = elim (lifecycle_of (c ∷ name) activation) [
    | none ↦ []
    | some rule ↦ side rule
  ]

  unfoldable pub gate_agents : List Resolved → (ClassLifecycle → List Text) → List Text
  unfolding lifecycle_of sort_texts resolve_roles text_eq
  gate_agents nodes side =
      let caps = add_all (flat_map (λ (n : Resolved). caps_of side n.node.change_class) nodes) [] in
      resolve_roles agent_exists (sort_texts caps) activation

  -- What is left to do in the current segment when nothing is integrated or dispatched.
  unfoldable pub gate_step : FlowInputs → Segment → List Resolved → List Resolved → FlowAction
  unfolding nodes_of phase_gated gate_agents sort_texts
  gate_step inputs s (n ∷ uncovered) outstanding =
      wave_gate s.id s.phase (sort_texts (ids (n ∷ uncovered)))
        (gate_agents (n ∷ uncovered) (λ (r : ClassLifecycle). r.per_wave))
  gate_step inputs s [] (n ∷ outstanding) =
      blocked s.id s.phase (map (λ (m : Resolved). (m.node.id, m.blocked_by)) (n ∷ outstanding))
  gate_step inputs s [] [] =
      if phase_gated inputs.records s.id
      then complete
      else phase_gate s.id s.phase
          (gate_agents (nodes_of inputs.by_id s) (λ (r : ClassLifecycle). r.per_phase))

  unfoldable pub act_in : FlowInputs → Segment → Option FlowAction
  unfolding nodes_of wave_covered dispatchable_of gate_step sort_texts text_eq
  act_in inputs s =
      let nodes = nodes_of inputs.by_id s in
      let outstanding = outstanding_of nodes in
      let uncovered = uncovered_of (wave_covered inputs.records s.id) nodes in
      let to_integrate = to_integrate_of inputs nodes in
      let dispatchable = dispatchable_of inputs.by_id uncovered outstanding in
      if not (is_nil to_integrate)
      then (inputs.decide (sort_texts (ids to_integrate)) >>= λ (d : Mode × List Text).
          some (integrate s.id s.phase d.1))
      else if not (is_nil dispatchable)
      then (inputs.decide (sort_texts (ids dispatchable)) >>= λ (d : Mode × List Text).
          some (dispatch s.id s.phase d.1 d.0))
      else some (gate_step inputs s uncovered outstanding)

  unfoldable pub proceed : FlowInputs → List Segment → Option FlowAction
  unfolding find_current is_ahead act_in text_eq
  proceed inputs segments = elim (find_current inputs segments) [
    | none ↦ some complete
    | some s ↦ elim (lags inputs segments s) [
      | some checkpoint ↦ some (advance_phase checkpoint s.id)
      | none ↦ act_in inputs s
    ]
  ]

  abbrev pub with_segments : FlowInputs → Text ⊎ List Segment → Option FlowAction
  unfolding proceed is_recovering
  with_segments inputs (inl reason) = some (error reason)
  with_segments inputs (inr segments) =
      if is_recovering inputs.step then some repair else proceed inputs segments

  unfoldable pub transition : FlowInputs → Option FlowAction
  unfolding proceed is_recovering
  transition inputs = with_segments inputs inputs.segments
