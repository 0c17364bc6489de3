-- ===== src/Autopilot/State.antt =====
-- scripts/autopilot/state.ts: the supervisor's state file and the failures that bear on a gate.
-- The file is absent, garbled or parsed; a call of `writeState` is one step. Times are
-- milliseconds. The journal, the stop flag and the names of repair buckets are left out.
pub mod Revisions
use lengentic.Base.{
  ℕ, suc, ◌+◌, Bool, true, false, not, ◌&&◌, Option, none, some, List, [], ◌==◌, filter, is_none,
  if◌then◌else◌,
}
use lengentic.Base.Text.{Text, text_eq}

abbrev pub state_schema_version : ℕ
state_schema_version = 1

pub data NodeStatus : Type 0 where
  ready running repair done blocked : NodeStatus

pub record NodeRecord : Type 0 where
  pub status : NodeStatus
  pub launches : ℕ
  pub last_worker_id : Option Text
  pub last_session_id : Option Text
  pub last_outcome : Option Text
  pub updated_at : ℕ

pub data FailureKind : Type 0 where
  gate worker invariant config no_progress : FailureKind

pub record BlockingFailure : Type 0 where
  pub id : Text
  pub kind : FailureKind
  pub segment : Option Text
  pub node : Option Text
  pub detail : Text
  pub evidence : List Text
  pub at_time : ℕ
  pub resolved_at : Option ℕ

pub record Escalation : Type 0 where
  pub trigger : ℕ
  pub segment : Option Text
  pub node : Option Text
  pub reason : Text
  pub options : List Text
  pub evidence : List Text
  pub at_time : ℕ
  pub resolved_at : Option ℕ
  pub resolution : Option Text

pub record SupervisorState : Type 0 where
  pub schema_version : ℕ
  pub revision : ℕ
  pub run_id : Text
  pub started_at : ℕ
  pub updated_at : ℕ
  pub next_action : Option Text
  pub segment : Option Text
  pub phase : Option ℕ
  pub nodes : List (Text × NodeRecord)
  pub repair_attempts : List (Text × ℕ)
  pub last_green_commit : Option Text
  pub blocking_failures : List BlockingFailure
  pub escalation : Option Escalation
  pub stop_requested : Bool
  pub repair_bound : Option ℕ
  pub repair_authority : Option Text
  pub permission_mode : Option Text
  pub permission_bypassed : Option Bool

pub data File : Type 0 where
  absent garbled : File
  parsed : SupervisorState → File

pub data Failure : Type 0 where
  not_json : Failure
  other_schema : ℕ → Failure
  stale_state : ℕ → ℕ → Failure

-- What a call returns or throws.
pub data Outcome {ℓ} (A : Type ℓ) : Type ℓ where
  returned : A → Outcome A
  thrown : Failure → Outcome A

unfoldable pub initial_state : ℕ → Text → SupervisorState
initial_state now run_id = record {
  schema_version = state_schema_version;
  revision = 0;
  run_id = run_id;
  started_at = now;
  updated_at = now;
  next_action = none;
  segment = none;
  phase = none;
  nodes = [];
  repair_attempts = [];
  last_green_commit = none;
  blocking_failures = [];
  escalation = none;
  stop_requested = false;
  repair_bound = none;
  repair_authority = none;
  permission_mode = none;
  permission_bypassed = none;
}

unfoldable pub read_state : File → Outcome (Option SupervisorState)
read_state absent = returned none
read_state garbled = thrown not_json
read_state (parsed s) =
    if s.schema_version == state_schema_version
    then returned (some s)
    else thrown (other_schema s.schema_version)

unfoldable pub load_or_init : File → ℕ → Text → File × Outcome SupervisorState
load_or_init file now run_id = elim (read_state file) [
  | thrown e ↦ (file, thrown e)
  | returned none ↦ (parsed (initial_state now run_id), returned (initial_state now run_id))
  | returned (some existing) ↦ (file, returned existing)
]

abbrev pub persisted_of : SupervisorState → ℕ → SupervisorState
persisted_of next now = record next { revision = suc next.revision; updated_at = now }

unfoldable pub write_state : File → SupervisorState → ℕ → File × Outcome SupervisorState
write_state file next now = elim (read_state file) [
  | thrown e ↦ (file, thrown e)
  | returned none ↦ (parsed (persisted_of next now), returned (persisted_of next now))
  | returned (some on_disk) ↦
      if on_disk.revision == next.revision
      then (parsed (persisted_of next now), returned (persisted_of next now))
      else (file, thrown (stale_state next.revision on_disk.revision))
]

unfoldable pub unresolved_failures : SupervisorState → List BlockingFailure
unresolved_failures s = filter (λ f. is_none f.resolved_at) s.blocking_failures

abbrev pub is_gate : FailureKind → Bool
is_gate gate = true
is_gate _ = false

abbrev pub same_segment : Option Text → Option Text → Bool
same_segment none none = true
same_segment (some a) (some b) = text_eq a b
same_segment _ _ = false

unfoldable pub failures_blocking_gate : SupervisorState → Option Text → List BlockingFailure
unfolding unresolved_failures
failures_blocking_gate s segment =
    filter (λ f. not (is_gate f.kind && same_segment f.segment segment)) (unresolved_failures s)
