-- ===== src/Lanes/Tests.antt =====
-- Examples for the theorems on scripts/lanes.ts: two units with surfaces of their own, and a third
-- that needs one of them.
use lengentic.Base.{
  ℕ, ◌≡◌, ◌↔◌, refl, Bool, true, false, Option, none, some, List, [], ◌∷◌, or_else, arith,
  if◌then◌else◌, is_none,
}
use mathlib.Core.List.{Permᴰ}
use lengentic.Base.Text.{Text, text, text_eq}
use lengentic.Lanes.Paths.{normalise, tokens, match_path}
use lengentic.Lanes.Paths.Language.{Denotes, match_path_iff}
use lengentic.Lanes.Units.{sequential, low, Policy, LaneUnit, RepoState, Decision}
use lengentic.Lanes.Lifecycle.{Activation}
use lengentic.Lanes.Ownership.{artifacts, check_ownership}
use lengentic.Lanes.Order.{ids_of, pending_of, dependency_order}
use lengentic.Lanes.Order.Completeness.{dependency_order-perm}
use lengentic.Lanes.Order.Founded.{DepsFirst}
use lengentic.Lanes.Order.Ranks.{dependency_order-DepsFirst}
use lengentic.Lanes.Evaluate.{evaluate}
use lengentic.Lanes.Evaluate.Disjoint.{evaluate-lanes_apart}

abbrev page : Text
page = text "src/a/page.ts"

match_path_iff_example :
    (match_path page (text "src/**/*.ts") ≡ true)
    ↔ Denotes (tokens (normalise (text "src/**/*.ts"))) (normalise page)
match_path_iff_example = match_path_iff page (text "src/**/*.ts")

abbrev unit_of : Text → List Text → List Text → LaneUnit
unit_of id needs allowed = record {
  task_id = id;
  title = id;
  lane = id;
  phase = 1;
  owner = text "builder";
  risk = some low;
  change_class = some (text "feature");
  depends_on = needs;
  acceptance_criteria = text "it works" ∷ [];
  validation_commands = text "pnpm test" ∷ [];
  allowed_paths = allowed;
  forbidden_paths = [];
  unresolved_deps = [];
  in_batch_deps = [];
  unknown_deps = [];
  open_decisions = [];
  has_packet_source = true;
}

abbrev api : LaneUnit
api = unit_of (text "api") [] (text "api/**" ∷ [])

abbrev web : LaneUnit
web = unit_of (text "web") [] (text "web/**" ∷ [])

abbrev checks : LaneUnit
checks = unit_of (text "checks") (text "web" ∷ text "old" ∷ []) (text "checks/**" ∷ [])

abbrev three : List LaneUnit
three = checks ∷ api ∷ web ∷ []

abbrev rank : Text → ℕ
unfolding text_eq
rank id = if text_eq id (text "checks") then 1 else 0

dependency_order-perm_example : Permᴰ (dependency_order three) (ids_of three)
dependency_order-perm_example = dependency_order-perm three (ground arith)

dependency_order-DepsFirst_example : DepsFirst (pending_of three) [] (dependency_order three)
unfolding text_eq
dependency_order-DepsFirst_example =
    dependency_order-DepsFirst rank three (ground arith)
      (((λ h. ground arith), ((λ h. ground arith), tt)), (tt, (tt, tt)))

abbrev policy : Policy
policy = record {
  max_concurrency = 3;
  min_units = 2;
  shared_write_surfaces = text "pnpm-lock.yaml" ∷ [];
  serialise_if_touches = text "shared/**" ∷ [];
  always_forbidden = [];
}

abbrev repo : RepoState
repo = record {
  is_git_repo = true;
  operation_in_progress = none;
  conflicted = [];
  dirty = [];
  head = none;
}

abbrev activation : Activation
activation = record {
  capabilities = [];
  classes =
      (
        text "feature",
        record {
          per_packet = some (text "validate" ∷ []);
          per_wave = some (text "review" ∷ []);
          per_phase = none;
          conditional = none;
        },
      )
      ∷ [];
}

abbrev no_agent : Text → Bool
no_agent a = false

abbrev refusal : Decision
refusal = record {
  mode = sequential;
  eligible = false;
  reasons = [];
  blockers = [];
  dependency_order = [];
  shared_contracts = [];
  review_cadence = record {
    per_node = [];
    wave = [];
    phase = [];
    none_of_them = [];
    wave_review_required = false;
    wave_gate_agents = [];
    phase_gate_agents = [];
  };
  lanes = [];
  max_concurrency = 1;
  requirements = [];
}

abbrev pair : List LaneUnit
pair = api ∷ web ∷ []

abbrev verdict : Decision
unfolding evaluate
verdict = or_else (evaluate no_agent activation pair policy repo) refusal

returned : (o : Option Decision) (d : Decision) → is_none o ≡ false → o ≡ some (or_else o d)
returned none d h = cc
returned (some e) d h = refl

abbrev handoff : Text
handoff = text ".artifacts/a.json"

evaluate-lanes_apart_example : match_path handoff artifacts ≡ true
unfolding evaluate check_ownership
evaluate-lanes_apart_example =
    evaluate-lanes_apart no_agent activation pair policy repo verdict (returned _ refusal refl) refl
      [] [] [] api web refl (handoff ∷ []) (text "web/a.ts" ∷ handoff ∷ []) [] [] handoff refl refl
