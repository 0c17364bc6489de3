-- ===== src/Flow/Tests.antt =====
-- Examples for the theorems on scripts/oracle.ts and scripts/flow.ts: a phase of three nodes, of
-- which the first is done and gated, the second needs it, and the third needs the second.
use lengentic.Base.{ℕ, ◌≡◌, ◌≤◌, ◌↔◌, inr, refl, Bool, true, false, none, some, List, [], ◌∷◌, All}
use lengentic.Base.Text.{Text, text, text_eq}
use lengentic.Base.Sort.{sort}
use lengentic.Base.Assoc.{text_Eq}
use lengentic.Base.Arrays.{includes}
use lengentic.Base.Buckets.{HasDistinctKeys}
use lengentic.Lanes.Units.{sequential, RepoState}
use lengentic.Lanes.Lifecycle.{Activation}
use lengentic.Lanes.Adapter.{Plan}
use lengentic.Oracle.Graph.{Probe, path_probe, Node, Resolved}
use lengentic.Oracle.Resolve.{ById, waves_of, resolve_graph}
use lengentic.Oracle.Resolve.Keys.{resolve_graph-IsKeyed}
use lengentic.Oracle.Resolve.Needs.{Waits}
use lengentic.Oracle.Resolve.Placed.{IsSettled}
use lengentic.Oracle.Resolve.Waves.{IsOpened, before_wave, waves_of-IsOpened}
use lengentic.Flow.Dependence.{depends_on}
use lengentic.Flow.Dependence.Reach.{Reaches, depends_on_iff}
use lengentic.Flow.Decide.{default_decide}
use lengentic.Flow.Transition.{
  Segment, GateRecord, wave, dispatch, FlowInputs, find_current, transition,
}
use lengentic.Flow.Segments.{Named, segments_of}
use lengentic.Flow.Segments.Dropped.{segments_of-drops}
use lengentic.Flow.Transition.Packets.{MayGo}
use lengentic.Flow.Transition.Dispatch.{transition-dispatch}

abbrev node_of : Text → List Text → Node
node_of id needs = record {
  id = id;
  phase = 1;
  lane = id;
  title = id;
  owner = text "builder";
  needs = needs;
  probes = path_probe id ∷ [];
  optional = false;
  own = some (record { allowed = id ∷ []; forbidden = none });
  validate = some (text "pnpm test" ∷ []);
  risk = none;
  change_class = some (text "feature");
}

abbrev nodes : List Node
nodes =
    node_of (text "a") []
    ∷ node_of (text "b") (text "a" ∷ [])
    ∷ node_of (text "c") (text "b" ∷ [])
    ∷ []

abbrev found : Probe → Bool
unfolding text_eq
found (path_probe path) = text_eq path (text "a")
found _ = false

abbrev graph : ById
graph = resolve_graph found [] nodes

depends_on_iff_example :
    (depends_on (text "c") (text "a" ∷ []) graph ≡ true) ↔ Reaches graph (text "a" ∷ []) (text "c")
depends_on_iff_example = depends_on_iff (text "c") (text "a" ∷ []) graph

graph-HasDistinctKeys : HasDistinctKeys graph
unfolding resolve_graph
graph-HasDistinctKeys = ((refl, (refl, tt)), ((refl, tt), (tt, tt)))

waves_of-IsOpened_example :
    All
      (λ (e : Text × ℕ). (1 ≤ e.1) × IsOpened 1 graph (before_wave e.1 (waves_of 1 graph)) e.0)
      (waves_of 1 graph)
    × ((n : Resolved) → Waits 1 graph n → IsSettled 1 graph (waves_of 1 graph) n)
waves_of-IsOpened_example =
    waves_of-IsOpened 1 graph (resolve_graph-IsKeyed found [] nodes) graph-HasDistinctKeys

abbrev segments : List Segment
segments = record { id = text "1"; phase = 1; node_ids = text "a" ∷ text "b" ∷ text "c" ∷ [] } ∷ []

abbrev gate_of_a : GateRecord
gate_of_a = record {
  gate = wave;
  segment = text "1";
  packets = text "a" ∷ [];
  evidence = [];
  head = text "0";
  recorded_at = text "2026-01-01T00:00:00Z";
}

abbrev plan : Plan
plan = record {
  policy = record {
    max_concurrency = 3;
    min_units = 2;
    shared_write_surfaces = [];
    serialise_if_touches = [];
    always_forbidden = [];
  };
  questions = [];
  sections = [];
}

abbrev repo : RepoState
repo = record {
  is_git_repo = true;
  operation_in_progress = none;
  conflicted = [];
  dirty = [];
  head = none;
}

abbrev activation : Activation
activation = record {
  capabilities = [];
  classes =
      (
        text "feature",
        record { per_packet = none; per_wave = none; per_phase = none; conditional = none },
      )
      ∷ [];
}

abbrev no_agent : Text → Bool
no_agent a = false

abbrev inputs : FlowInputs
inputs = record {
  by_id = graph;
  records = gate_of_a ∷ [];
  step = none;
  checkpoint_segment = none;
  integratable = [];
  segments = inr segments;
  decide = default_decide no_agent activation plan repo graph;
}

dispatches_b :
    transition no_agent activation inputs ≡ some (dispatch (text "1") 1 (text "b" ∷ []) sequential)
unfolding transition resolve_graph default_decide sort
dispatches_b = refl

transition-dispatch_example :
    (segs : List Segment) × (inputs.segments ≡ inr segs)
    × ((s : Segment) × (find_current inputs segs ≡ some s)
        × (s.id ≡ text "1")
        × (s.phase ≡ 1)
        × ((x : Text) → includes x (text "b" ∷ []) ≡ true → MayGo inputs s x))
transition-dispatch_example =
    transition-dispatch no_agent activation inputs plan repo (text "1") 1 (text "b" ∷ []) sequential
      (resolve_graph-IsKeyed found [] nodes) refl dispatches_b

-- Two named segments, of which the order has one.
abbrev named : Named
named = (text "1a", text "a" ∷ text "b" ∷ []) ∷ (text "1b", text "c" ∷ []) ∷ []

abbrev only_first : List Segment
only_first = record { id = text "1a"; phase = 1; node_ids = text "a" ∷ text "b" ∷ [] } ∷ []

segments_of-drops_example : All (λ (s : Segment). includes (text "c") s.node_ids ≡ false) only_first
unfolding segments_of resolve_graph
segments_of-drops_example =
    segments_of-drops (text "1a" ∷ []) named ((text "1a", text "a" ∷ text "b" ∷ []) ∷ []) [] graph
      (text "1b") (text "c" ∷ []) (text "c") only_first refl refl refl refl
