-- ===== src/Autopilot/Progression.antt =====
-- scripts/autopilot/progression.ts. `Sources` (a partial record) is a function into `Option`;
-- the prose of `why` is kept as its case with the `derivedFrom` that it quotes. `renderVerdict`
-- is console output.
pub mod Advance
use lengentic.Base.{
  Bool, true, false, Option, none, some, List, [], ◌∷◌, ◌++◌, any, is_none, if◌then◌else◌,
}
use lengentic.Base.Text.{Text, text_eq}

pub data SourceVerdict : Type 0 where
  green red unknown : SourceVerdict

pub record Source : Type 0 where
  pub verdict : SourceVerdict
  pub derived_from : Text
  pub evidence : List Text

pub data SourceName : Type 0 where
  nodes gates definition_of_done artifacts failure_evidence validation : SourceName

abbrev pub phase_sources : List SourceName
phase_sources = nodes ∷ gates ∷ definition_of_done ∷ artifacts ∷ failure_evidence ∷ []

abbrev pub wave_sources : List SourceName
wave_sources = nodes ∷ gates ∷ validation ∷ failure_evidence ∷ []

abbrev pub Sources : Type 0
Sources = SourceName → Option Source

pub data Why : Type 0 where
  never_measured : Why
  no_evidence red_per unknown_per : Text → Why

pub record Blocker : Type 0 where
  pub source : SourceName
  pub verdict : SourceVerdict
  pub why : Why

pub data Gate : Type 0 where
  wave phase : Gate

pub data Decision : Type 0 where
  advance_phase record_wave hold_phase hold_wave : Decision

pub record Verdict : Type 0 where
  pub verdict : Decision
  pub gate : Gate
  pub green : Bool
  pub blockers : List Blocker
  pub evidence : List Text

-- `[...new Set(xs)]`: each text once, where it stood first.
unfoldable pub distinct_from : List Text → List Text → List Text
distinct_from seen [] = []
distinct_from seen (x ∷ xs) =
    let rest = distinct_from (x ∷ seen) xs in
    let skip = distinct_from seen xs in if any (text_eq x) seen then skip else x ∷ rest

abbrev pub block : SourceName → SourceVerdict → Why → List Blocker
block name v w = record { source = name; verdict = v; why = w } ∷ []

-- The body of the loop after `source === undefined`: the blockers that the source adds.
abbrev pub blockers_by : SourceName → SourceVerdict → Text → List Text → List Blocker
blockers_by name green from [] = block name green (no_evidence from)
blockers_by name green from (_ ∷ _) = []
blockers_by name red from _ = block name red (red_per from)
blockers_by name unknown from _ = block name unknown (unknown_per from)

abbrev pub blockers_of : SourceName → Option Source → List Blocker
blockers_of name none = block name unknown never_measured
blockers_of name (some s) = blockers_by name s.verdict s.derived_from s.evidence

-- The evidence that it adds.
abbrev pub evidence_by : SourceVerdict → List Text → List Text
evidence_by green paths = paths
evidence_by _ paths = []

abbrev pub evidence_of : Option Source → List Text
evidence_of none = []
evidence_of (some s) = evidence_by s.verdict s.evidence

-- The loop of `judge`, on its two lists.
unfoldable pub judge_from :
    Sources → List SourceName → List Blocker × List Text → List Blocker × List Text
judge_from sources [] (blockers, evidence) = (blockers, evidence)
judge_from sources (name ∷ names) (blockers, evidence) =
    judge_from sources names
      (blockers ++ blockers_of name (sources name), evidence ++ evidence_of (sources name))

abbrev pub decision_of : Bool → Gate → Decision
decision_of true phase = advance_phase
decision_of true wave = record_wave
decision_of false phase = hold_phase
decision_of false wave = hold_wave

abbrev pub is_empty : List Blocker → Bool
is_empty [] = true
is_empty (_ ∷ _) = false

unfoldable pub judge : Gate → List SourceName → Sources → Verdict
judge gate required sources =
    let (blockers, evidence) = judge_from sources required ([], []) in
    let green = is_empty blockers in
    record {
      verdict = decision_of green gate;
      gate = gate;
      green = green;
      blockers = blockers;
      evidence = distinct_from [] evidence;
    }

unfoldable pub phase_verdict : Sources → Verdict
phase_verdict sources = judge phase phase_sources sources

unfoldable pub wave_verdict : Sources → Verdict
wave_verdict sources = judge wave wave_sources sources
