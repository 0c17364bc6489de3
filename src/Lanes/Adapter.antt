-- ===== src/Lanes/Adapter.antt =====
-- scripts/lanes.ts: the work units of a batch, out of the delivery graph.
use lengentic.Base.{
  Bool, not, ◌&&◌, Option, none, some, List, [], ◌∷◌, ◌++◌, map, filter, or_else, is_none, ◌>>=◌,
}
use lengentic.Base.Text.{Text, text, text_eq}
use lengentic.Base.Assoc.{lookup, text_Eq}
use lengentic.Base.Arrays.{includes, is_nil}
use lengentic.Lanes.Units.{LaneUnit, Policy}
use lengentic.Oracle.Graph.{
  Probe, path_probe, absent_probe, script_probe, cmd_probe, manual_probe, grep_probe, Question,
  Ownership, Resolved, is_done,
}
use lengentic.Oracle.Resolve.{ById, has_state}

-- What the graph says apart from its nodes.
pub record Plan : Type 0 where
  pub policy : Policy
  pub questions : List Question
  pub sections : List (Text × List Text)

unfoldable pub describe_probe : Probe → Text
describe_probe (path_probe path) = text "`" ++ path ++ text "` exists"
describe_probe (absent_probe path) = text "`" ++ path ++ text "` is gone"
describe_probe (script_probe name) = text "root script `" ++ name ++ text "` exists"
describe_probe (grep_probe dir file pattern) =
    text "/" ++ pattern ++ text "/ appears under `" ++ or_else file dir ++ text "`"
describe_probe (cmd_probe run) = text "`" ++ run ++ text "` exits 0"
describe_probe (manual_probe evidence) = text "evidence file `" ++ evidence ++ text "` exists"

abbrev allowed_of : Option Ownership → List Text
allowed_of none = []
allowed_of (some own) = own.allowed

abbrev forbidden_of : Option Ownership → List Text
forbidden_of none = []
forbidden_of (some own) = or_else own.forbidden []

abbrev is_known : ById → Text → Bool
unfolding lookup text_eq
is_known by_id d = not (is_none (lookup d by_id))

unfoldable pub unit_from : Plan → Resolved → ById → List Text → LaneUnit
unfolding describe_probe lookup text_eq
unit_from plan n by_id batch = record {
  task_id = n.node.id;
  title = n.node.title;
  lane = n.node.lane;
  phase = n.node.phase;
  owner = n.node.owner;
  risk = n.node.risk;
  change_class = n.node.change_class;
  depends_on = n.node.needs;
  acceptance_criteria = map describe_probe n.node.probes;
  validation_commands = or_else n.node.validate [];
  allowed_paths = allowed_of n.node.own;
  forbidden_paths = forbidden_of n.node.own ++ plan.policy.always_forbidden;
  unknown_deps = filter (λ d. not (is_known by_id d)) n.node.needs;
  in_batch_deps = filter (λ d. includes d batch) n.node.needs;
  unresolved_deps =
      filter (λ d. is_known by_id d && (not (includes d batch) && not (has_state is_done d by_id)))
        n.node.needs;
  open_decisions =
      map (λ (q : Question). q.id)
        (filter (λ (q : Question). not q.answered && includes n.node.id q.blocks) plan.questions);
  has_packet_source = not (is_nil (or_else (lookup n.node.id plan.sections) []));
}

-- `ids.map(...)`, which throws at the first id that is not in the graph.
unfoldable pub units_from : Plan → ById → List Text → List Text → Option (List LaneUnit)
unfolding unit_from lookup text_eq
units_from plan by_id batch [] = some []
units_from plan by_id batch (id ∷ ids) = lookup id by_id >>= λ n.
    units_from plan by_id batch ids >>= λ units. some (unit_from plan n by_id batch ∷ units)

unfoldable pub units_for : Plan → ById → List Text → Option (List LaneUnit)
unfolding units_from
units_for plan by_id ids = units_from plan by_id ids ids
