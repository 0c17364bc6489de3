-- ===== src/Lanes/Ownership.antt =====
-- scripts/lanes.ts, `checkOwnership`: which of the files a lane changed it may commit.
use lengentic.Base.{Bool, Option, none, some, List, [], ◌∷◌, if◌then◌else◌}
use lengentic.Base.Text.{Text, text}
use lengentic.Base.Arrays.{is_nil}
use lengentic.Lanes.Paths.{normalise, match_path, find_match}

pub data Reason : Type 0 where
  forbidden_path no_allowed_paths outside_allowed_paths : Reason

-- `rule` is a pattern, `(none)`, or the allowed patterns, which the code joins.
pub record Violation : Type 0 where
  pub file : Text
  pub reason : Reason
  pub rule : List Text

pub record OwnershipVerdict : Type 0 where
  pub ok : Bool
  pub violations : List Violation
  pub accepted : List Text

abbrev pub artifacts : Text
artifacts = text ".artifacts/**"

-- The body of the loop: the violation, or nothing when the file is accepted.
unfoldable pub judge_file : Text → List Text → List Text → Option Violation
unfolding match_path
judge_file file allowed forbidden =
    if match_path file artifacts then none else elim (find_match file forbidden) [
      | some pattern ↦ some (record { file = file; reason = forbidden_path; rule = pattern ∷ [] })
      | none ↦
          if is_nil allowed
          then some (record { file = file; reason = no_allowed_paths; rule = text "(none)" ∷ [] })
          else elim (find_match file allowed) [
            | none ↦ some (record { file = file; reason = outside_allowed_paths; rule = allowed })
            | some pattern ↦ none
          ]
    ]

unfoldable pub violations_of : List Text → List Text → List Text → List Violation
unfolding judge_file
violations_of [] allowed forbidden = []
violations_of (raw ∷ changed) allowed forbidden =
    let rest = violations_of changed allowed forbidden in
    elim (judge_file (normalise raw) allowed forbidden) [
      | some violation ↦ violation ∷ rest
      | none ↦ rest
    ]

unfoldable pub accepted_of : List Text → List Text → List Text → List Text
unfolding judge_file
accepted_of [] allowed forbidden = []
accepted_of (raw ∷ changed) allowed forbidden =
    let rest = accepted_of changed allowed forbidden in
    elim (judge_file (normalise raw) allowed forbidden) [
      | some violation ↦ rest
      | none ↦ normalise raw ∷ rest
    ]

unfoldable pub check_ownership : List Text → List Text → List Text → OwnershipVerdict
unfolding violations_of accepted_of
check_ownership changed allowed forbidden =
    let violations = violations_of changed allowed forbidden in
    record {
      ok = is_nil violations;
      violations = violations;
      accepted = accepted_of changed allowed forbidden;
    }
