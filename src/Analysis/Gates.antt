-- ===== src/Analysis/Gates.antt =====
-- platform/analysis-engine/src/gates.ts and gate-contract.ts. The text of a comparison is
-- formatting; what it compares is `Comparison`. An error that is thrown is `none`.
pub mod Verdicts
use lengentic.Base.{
  ℕ, Bool, true, false, Option, none, some, List, [], ◌∷◌, map, filter, length, leb, ◌==◌,
  if◌then◌else◌,
}
use lengentic.Analysis.Types.{Ratio, ratio_ge, DecisionAggregate, AnalyzerConfig}

pub data GateId : Type 0 where
  g1_sample_count g2_context_diversity g3_dominance g4_outcome_success g5_outcome_coverage : GateId

pub data GateStatus : Type 0 where
  pass fail not_applicable : GateStatus

pub data Verdict : Type 0 where
  candidate suppressed : Verdict

pub data Comparison : Type 0 where
  counts : ℕ → ℕ → Comparison
  ratios : Ratio → Ratio → Comparison
  no_attested_outcomes : Ratio → Comparison

pub record GateResult : Type 0 where
  pub id : GateId
  pub status : GateStatus
  pub comparison : Comparison

pub record GateEvaluation : Type 0 where
  pub gates : List GateResult
  pub failed_gates : List GateId
  pub verdict : Verdict

abbrev pub gate_ids : List GateId
gate_ids =
    g1_sample_count ∷ g2_context_diversity ∷ g3_dominance ∷ g4_outcome_success ∷ g5_outcome_coverage
    ∷ []

unfoldable pub count_gate : GateId → ℕ → ℕ → GateResult
count_gate id actual threshold = record {
  id = id;
  status = if leb threshold actual then pass else fail;
  comparison = counts actual threshold;
}

unfoldable pub ratio_gate : GateId → Ratio → Ratio → GateResult
ratio_gate id actual threshold = record {
  id = id;
  status = if ratio_ge actual threshold then pass else fail;
  comparison = ratios actual threshold;
}

unfoldable pub sample_count_gate : DecisionAggregate → AnalyzerConfig → GateResult
unfolding count_gate
sample_count_gate a config = count_gate g1_sample_count a.sample_count config.min_sample_count

unfoldable pub context_diversity_gate : DecisionAggregate → AnalyzerConfig → GateResult
unfolding count_gate
context_diversity_gate a config =
    count_gate g2_context_diversity a.distinct_context_key_count config.min_distinct_contexts

unfoldable pub dominance_gate : DecisionAggregate → AnalyzerConfig → GateResult
unfolding ratio_gate
dominance_gate a config = ratio_gate g3_dominance a.dominance_percentage config.dominance_threshold

rate_gate : Option Ratio → Ratio → GateResult
unfolding ratio_gate
rate_gate none threshold = record {
  id = g4_outcome_success;
  status = not_applicable;
  comparison = no_attested_outcomes threshold;
}
rate_gate (some rate) threshold = ratio_gate g4_outcome_success rate threshold

unfoldable pub outcome_success_gate : DecisionAggregate → AnalyzerConfig → GateResult
unfolding rate_gate
outcome_success_gate a config =
    rate_gate a.dominant_option_attested_success_rate config.success_threshold

unfoldable pub outcome_coverage_gate : DecisionAggregate → AnalyzerConfig → GateResult
unfolding ratio_gate
outcome_coverage_gate a config =
    ratio_gate g5_outcome_coverage a.outcome_coverage config.coverage_threshold

abbrev pub gates_in_order : List (DecisionAggregate → AnalyzerConfig → GateResult)
gates_in_order =
    sample_count_gate ∷ context_diversity_gate ∷ dominance_gate ∷ outcome_success_gate
    ∷ outcome_coverage_gate ∷ []

abbrev pub same_gate : GateId → GateId → Bool
same_gate g1_sample_count g1_sample_count = true
same_gate g2_context_diversity g2_context_diversity = true
same_gate g3_dominance g3_dominance = true
same_gate g4_outcome_success g4_outcome_success = true
same_gate g5_outcome_coverage g5_outcome_coverage = true
same_gate _ _ = false

abbrev pub is_fail : GateStatus → Bool
is_fail fail = true
is_fail _ = false

-- `gates.find((g) => g.id === id)`.
abbrev pub find_gate : GateId → List GateResult → Option GateResult
find_gate id [] = none
find_gate id (g ∷ gs) = if same_gate g.id id then some g else find_gate id gs

-- `GATE_IDS.map((id) => gates.find(…) ?? assertNever(id))`.
abbrev pub in_report_order : List GateId → List GateResult → Option (List GateResult)
in_report_order [] gates = some []
in_report_order (id ∷ ids) gates = elim (find_gate id gates) [
  | none ↦ none
  | some g ↦ elim (in_report_order ids gates) [ none ↦ none | some gs ↦ some (g ∷ gs) ]
]

report : List GateResult → GateEvaluation
report ordered =
    let failed = map (λ g. g.id) (filter (λ g. is_fail g.status) ordered) in
    record {
      gates = ordered;
      failed_gates = failed;
      verdict = if length failed == 0 then candidate else suppressed;
    }

unfoldable pub evaluate_gates : DecisionAggregate → AnalyzerConfig → Option GateEvaluation
unfolding sample_count_gate context_diversity_gate dominance_gate outcome_success_gate
    outcome_coverage_gate report
evaluate_gates a config =
    elim (in_report_order gate_ids (map (λ gate. gate a config) gates_in_order)) [
      | none ↦ none
      | some ordered ↦ some (report ordered)
    ]
