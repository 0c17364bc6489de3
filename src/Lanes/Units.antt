-- ===== src/Lanes/Units.antt =====
-- scripts/lanes.ts: what the eligibility gate reads and what it returns. The prose of a
-- requirement (`text` and `detail`, and the `reasons` and `blockers` that are built from it) is
-- left out, so a reason and a blocker are the ids of requirements.
use lengentic.Base.{ℕ, Bool, List, Option}
use lengentic.Base.Text.{Text}

pub data Mode : Type 0 where
  sequential parallel : Mode

pub data Risk : Type 0 where
  low medium high : Risk

pub record Policy : Type 0 where
  pub max_concurrency : ℕ
  pub min_units : ℕ
  pub shared_write_surfaces : List Text
  pub serialise_if_touches : List Text
  pub always_forbidden : List Text

pub record LaneUnit : Type 0 where
  pub task_id : Text
  pub title : Text
  pub lane : Text
  pub phase : ℕ
  pub owner : Text
  pub risk : Option Risk
  pub change_class : Option Text
  pub depends_on : List Text
  pub acceptance_criteria : List Text
  pub validation_commands : List Text
  pub allowed_paths : List Text
  pub forbidden_paths : List Text
  pub unresolved_deps : List Text
  pub in_batch_deps : List Text
  pub unknown_deps : List Text
  pub open_decisions : List Text
  pub has_packet_source : Bool

pub record RepoState : Type 0 where
  pub is_git_repo : Bool
  pub operation_in_progress : Option Text
  pub conflicted : List Text
  pub dirty : List Text
  pub head : Option Text

pub record Requirement : Type 0 where
  pub id : Text
  pub pass : Bool

pub data ReviewLifecycle : Type 0 where
  per_node wave_gate phase_gate no_review : ReviewLifecycle

pub record LaneEntry : Type 0 where
  pub task_id : Text
  pub lane : Text
  pub risk : Option Risk
  pub change_class : Text
  pub allowed_paths : List Text
  pub forbidden_paths : List Text
  pub validation : List Text
  pub required_agents : List Text
  pub optional_agents : List Text
  pub review_cadence : ReviewLifecycle
  pub halts_if_failed : List Text
  pub independent_of : List Text

pub record ReviewCadence : Type 0 where
  pub per_node : List Text
  pub wave : List Text
  pub phase : List Text
  pub none_of_them : List Text
  pub wave_review_required : Bool
  pub wave_gate_agents : List Text
  pub phase_gate_agents : List Text

pub record Decision : Type 0 where
  pub mode : Mode
  pub eligible : Bool
  pub reasons : List Text
  pub blockers : List Text
  pub dependency_order : List Text
  pub shared_contracts : List Text
  pub review_cadence : ReviewCadence
  pub lanes : List LaneEntry
  pub max_concurrency : ℕ
  pub requirements : List Requirement
