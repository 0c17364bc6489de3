-- ===== src/Analysis/Gates/Verdicts.antt =====
-- When a group is a candidate.
use lengentic.Base.{
  ◌*◌, ◌≤◌, ◌≡◌, refl, ◌↔◌, true, Option, none, some, List, [], ◌∷◌, map, any, arith,
}
use lengentic.Analysis.Types.{Ratio, DecisionAggregate, AnalyzerConfig}
use lengentic.Analysis.Gates.{
  GateId, g1_sample_count, g2_context_diversity, g3_dominance, g4_outcome_success,
  g5_outcome_coverage, GateStatus, pass, not_applicable, candidate, GateEvaluation, gate_ids,
  same_gate, evaluate_gates, sample_count_gate, context_diversity_gate, dominance_gate,
  outcome_success_gate, outcome_coverage_gate, report,
}

-- `a >= b`, as an order of fractions.
abbrev pub AtLeast : Ratio → Ratio → Type 0
AtLeast a b = b.num * a.den ≤ a.num * b.den

-- The success rate clears its threshold, or there is none to judge.
abbrev pub Unfailed : Option Ratio → Ratio → Type 0
Unfailed none t = Unit
Unfailed (some r) t = AtLeast r t

-- The five tests of an aggregate against the thresholds.
pub record Clears (a : DecisionAggregate) (c : AnalyzerConfig) : Type 0 where
  pub samples : c.min_sample_count ≤ a.sample_count
  pub contexts : c.min_distinct_contexts ≤ a.distinct_context_key_count
  pub dominance : AtLeast a.dominance_percentage c.dominance_threshold
  pub success : Unfailed a.dominant_option_attested_success_rate c.success_threshold
  pub coverage : AtLeast a.outcome_coverage c.coverage_threshold

-- What the report says of each gate, in its order.
abbrev pub marks : GateEvaluation → List (GateId × GateStatus)
marks e = map (λ g. (g.id, g.status)) e.gates

-- The evaluation that the code returns, gate by gate.
evaluation : DecisionAggregate → AnalyzerConfig → GateEvaluation
evaluation a c = report (
    sample_count_gate a c
    ∷ context_diversity_gate a c
    ∷ dominance_gate a c
    ∷ outcome_success_gate a c
    ∷ outcome_coverage_gate a c
    ∷ [])

evaluation-ids :
    (a : DecisionAggregate) (c : AnalyzerConfig) → map (λ g. g.id) (evaluation a c).gates ≡ gate_ids
unfolding evaluate_gates evaluation
evaluation-ids a c = ground arith

evaluate_gates-evaluation :
    (a : DecisionAggregate) (c : AnalyzerConfig) → evaluate_gates a c ≡ some (evaluation a c)
unfolding evaluate_gates evaluation
evaluate_gates-evaluation a c = ground arith

candidate→Clears :
    (a : DecisionAggregate) (c : AnalyzerConfig) (r : Option Ratio)
    → a.dominant_option_attested_success_rate ≡ r
    → (evaluation a c).verdict ≡ candidate
    → Clears a c
unfolding evaluate_gates evaluation
candidate→Clears a c none e h = record {
  samples = ground arith;
  contexts = ground arith;
  dominance = ground arith;
  success = rw e tt;
  coverage = ground arith;
}
candidate→Clears a c (some r) e h = record {
  samples = ground arith;
  contexts = ground arith;
  dominance = ground arith;
  success = rw e (ground arith);
  coverage = ground arith;
}

Clears→candidate :
    (a : DecisionAggregate) (c : AnalyzerConfig) (r : Option Ratio)
    → a.dominant_option_attested_success_rate ≡ r
    → Clears a c
    → (evaluation a c).verdict ≡ candidate
unfolding evaluate_gates evaluation
Clears→candidate a c none e k = ground arith
Clears→candidate a c (some r) e k =
    let s : AtLeast r c.success_threshold = rw e at k.success in ground arith

-- The gates always give a verdict, and it is CANDIDATE exactly when the sample is large enough,
-- the contexts varied enough, the dominant option's share, its attested success rate where
-- there is one, and the coverage of outcomes each at or above the threshold.
pub evaluate_gates-candidate_iff :
    (a : DecisionAggregate) (c : AnalyzerConfig)
    → (e : GateEvaluation) × (evaluate_gates a c ≡ some e) × ((e.verdict ≡ candidate) ↔ Clears a c)
evaluate_gates-candidate_iff a c = (
  evaluation a c,
  evaluate_gates-evaluation a c,
  (
    candidate→Clears a c a.dominant_option_attested_success_rate refl,
    Clears→candidate a c a.dominant_option_attested_success_rate refl,
  ),
)

-- The test that each gate stands for, failed. Gate 4 cannot fail with nothing attested.
abbrev pub RateFails : Option Ratio → Ratio → Type 0
RateFails none t = ⊥
RateFails (some r) t = ¬ AtLeast r t

abbrev pub Fails : GateId → DecisionAggregate → AnalyzerConfig → Type 0
Fails g1_sample_count a c = ¬ (c.min_sample_count ≤ a.sample_count)
Fails g2_context_diversity a c = ¬ (c.min_distinct_contexts ≤ a.distinct_context_key_count)
Fails g3_dominance a c = ¬ AtLeast a.dominance_percentage c.dominance_threshold
Fails g4_outcome_success a c = RateFails a.dominant_option_attested_success_rate c.success_threshold
Fails g5_outcome_coverage a c = ¬ AtLeast a.outcome_coverage c.coverage_threshold

failed_iff :
    (a : DecisionAggregate) (c : AnalyzerConfig) (r : Option Ratio)
    → a.dominant_option_attested_success_rate ≡ r
    → (id : GateId) → (any (same_gate id) (evaluation a c).failed_gates ≡ true) ↔ Fails id a c
unfolding evaluate_gates evaluation
failed_iff a c r e g1_sample_count = ground arith
failed_iff a c r e g2_context_diversity = ground arith
failed_iff a c r e g3_dominance = ground arith
failed_iff a c none e g4_outcome_success = rw e (ground arith)
failed_iff a c (some r) e g4_outcome_success = rw e (ground arith)
failed_iff a c r e g5_outcome_coverage = ground arith

-- The report has one result for each gate in the fixed order, and lists as failed every gate
-- whose test fails and no other: never the first only, and never a gate that does not apply.
evaluate_gates-report :
    (a : DecisionAggregate) (c : AnalyzerConfig)
    → (e : GateEvaluation) × (evaluate_gates a c ≡ some e)
      × (map (λ g. g.id) e.gates ≡ gate_ids)
      × ((id : GateId) → (any (same_gate id) e.failed_gates ≡ true) ↔ Fails id a c)
evaluate_gates-report a c = (
  evaluation a c,
  evaluate_gates-evaluation a c,
  evaluation-ids a c,
  failed_iff a c a.dominant_option_attested_success_rate refl,
)

-- The contract in gate-contract.ts says CANDIDATE means that every status is PASS. A group
-- whose dominant option has no attested outcome, and that clears the other gates, is a
-- CANDIDATE: exactly gate 4, the outcome success, is NOT_APPLICABLE, and the other four PASS.
pub candidate_unattested :
    (a : DecisionAggregate) (c : AnalyzerConfig)
    → a.dominant_option_attested_success_rate ≡ none
    → c.min_sample_count ≤ a.sample_count
    → c.min_distinct_contexts ≤ a.distinct_context_key_count
    → AtLeast a.dominance_percentage c.dominance_threshold
    → AtLeast a.outcome_coverage c.coverage_threshold
    → (e : GateEvaluation) × (evaluate_gates a c ≡ some e)
      × (e.verdict ≡ candidate)
      × (marks e
          ≡ (g1_sample_count, pass)
            ∷ (g2_context_diversity, pass)
            ∷ (g3_dominance, pass)
            ∷ (g4_outcome_success, not_applicable)
            ∷ (g5_outcome_coverage, pass)
            ∷ [])
unfolding evaluation evaluate_gates
candidate_unattested a c unknown s k d v = (
  evaluation a c,
  evaluate_gates-evaluation a c,
  Clears→candidate a c none unknown
      (record { samples = s; contexts = k; dominance = d; success = rw unknown tt; coverage = v }),
  ground arith,
)
