-- ===== src/Oracle/Graph.antt =====
-- scripts/oracle.ts: the graph as the file has it, and a node with what the probes say of it.
use lengentic.Base.{ℕ, Bool, true, false, Option, List}
use lengentic.Base.Text.{Text}
use lengentic.Lanes.Units.{Risk}

pub data Probe : Type 0 where
  path_probe absent_probe script_probe cmd_probe manual_probe : Text → Probe
  grep_probe : Text → Option Text → Text → Probe

-- `own`: the patterns allowed and those forbidden.
pub record Ownership : Type 0 where
  pub allowed : List Text
  pub forbidden : Option (List Text)

pub record Node : Type 0 where
  pub id : Text
  pub phase : ℕ
  pub lane : Text
  pub title : Text
  pub owner : Text
  pub needs : List Text
  pub probes : List Probe
  pub optional : Bool
  pub own : Option Ownership
  pub validate : Option (List Text)
  pub risk : Option Risk
  pub change_class : Option Text

-- A question of the plan and the nodes that wait for its answer.
pub record Question : Type 0 where
  pub id : Text
  pub answered : Bool
  pub blocks : List Text

pub data State : Type 0 where
  done partial todo : State

pub data Readiness : Type 0 where
  ready blocked finished in_progress : Readiness

pub record Resolved : Type 0 where
  pub node : Node
  pub state : State
  pub hits : ℕ
  pub blocked_by : List Text
  pub readiness : Readiness
  pub depth : ℕ
  pub wave : ℕ

abbrev pub is_done : State → Bool
is_done done = true
is_done _ = false

abbrev pub is_todo : State → Bool
is_todo todo = true
is_todo _ = false
