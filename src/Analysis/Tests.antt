-- ===== src/Analysis/Tests.antt =====
-- Forty decisions of one group: the dominant option is chosen 36 times, over five contexts.
use lengentic.Base.{
  All, ℕ, suc, ◌≡◌, refl, ◌↔◌, true, false, none, some, List, [], ◌∷◌, ◌++◌, arith,
}
use lengentic.Base.Text.{Text, text, text_eq, text_lt}
use lengentic.Base.Assoc.{lookup, assign}
use lengentic.Base.Sort.{sort}
use lengentic.Base.Buckets.{group_by}
use lengentic.Base.Counts.{count_by}
use lengentic.Analysis.Types.{
  Outcome, success, failure, unknown, OutcomeAttestedBy, DecisionRecord, GroupKey, Ratio,
  DecisionAggregate, AnalyzerConfig, default_config,
}
use lengentic.Analysis.Aggregate.{
  is_eligible, aggregate_group, aggregate_all, distribution, serialize_group_key,
}
use lengentic.Analysis.Aggregate.Groups.{
  HasSamples, HasAggregate, aggregate_all-HasSamples, serialize-shift,
}
use lengentic.Analysis.Gates.{
  GateEvaluation, candidate, evaluate_gates, pass, not_applicable, g1_sample_count,
  g2_context_diversity, g3_dominance, g4_outcome_success, g5_outcome_coverage,
}
use lengentic.Analysis.Gates.Verdicts.{
  AtLeast, Clears, marks, evaluate_gates-candidate_iff, candidate_unattested,
}
use mathlib.Core.List.{Memᴰ}
use lengentic.Base.Members.{collect}
use lengentic.Analysis.RepeatedFailures.{
  ToolCallOutcome, success, failed, ToolCallRecord, RepeatedFailedAction, is_failed_attempt,
  flushed, streaks_from, streaks_in, detect_repeated_failed_actions,
}
use lengentic.Analysis.RepeatedFailures.Streaks.{Segment, Splits, EmitsEach, streaks_in-Splits}
use lengentic.Analysis.RepeatedFailures.Detection.{IsStreakAmong, detect_iff}
use lengentic.Analysis.Candidates.{candidate-IsAttested}

abbrev decision : ℕ → Text → Outcome → DecisionRecord
decision context option outcome = record {
  decision_id = text "d";
  run_id = text "r";
  run_is_stale = false;
  workflow_name = text "w";
  workflow_version = text "1";
  decision_type = text "t";
  context_key = some (context ∷ []);
  context_key_version = text "1";
  available_options = [];
  selected_option = option;
  outcome = outcome;
  outcome_attested_by = OutcomeAttestedBy.caller;
}

abbrev times : ℕ → DecisionRecord → List DecisionRecord
times ℕ.zero r = []
times (suc n) r = r ∷ times n r

abbrev group : List DecisionRecord
group =
    times 9 (decision 1 (text "yes") success)
    ++ (times 9 (decision 2 (text "yes") success)
        ++ (times 9 (decision 3 (text "yes") success)
            ++ (times 9 (decision 4 (text "yes") success)
                ++ times 4 (decision 5 (text "no") failure))))

abbrev group_key : GroupKey
group_key = record {
  workflow_name = text "w";
  workflow_version = text "1";
  decision_type = text "t";
  context_key_version = text "1";
}

abbrev stale_and_unkeyed : List DecisionRecord
stale_and_unkeyed =
    record (decision 1 (text "yes") success) { run_is_stale = true }
    ∷ record (decision 1 (text "no") unknown) { context_key = none }
    ∷ decision 2 (text "no") unknown
    ∷ decision 2 (text "yes") failure
    ∷ []

ties_by_name : (aggregate_group group_key stale_and_unkeyed).dominant_option ≡ some (text "no")
unfolding aggregate_group is_eligible distribution sort count_by lookup assign text_eq text_lt
ties_by_name = refl

aggregate_all-HasSamples_example :
    All (HasSamples stale_and_unkeyed) (aggregate_all stale_and_unkeyed)
    × All (HasAggregate (aggregate_all stale_and_unkeyed)) stale_and_unkeyed
aggregate_all-HasSamples_example = aggregate_all-HasSamples stale_and_unkeyed

serialize-shift_example :
    serialize_group_key
      (record group_key { workflow_name = text "a b"; workflow_version = text "c" })
    ≡ serialize_group_key
        (record group_key { workflow_name = text "a"; workflow_version = text "b c" })
serialize-shift_example = serialize-shift (text "a") (text "b") (text "c") (text "t") (text "1")

evaluate_gates-candidate_iff_example :
    (e : GateEvaluation) × (evaluate_gates (aggregate_group group_key group) default_config
      ≡ some e)
    × ((e.verdict ≡ candidate) ↔ Clears (aggregate_group group_key group) default_config)
evaluate_gates-candidate_iff_example =
    evaluate_gates-candidate_iff (aggregate_group group_key group) default_config

candidate-IsAttested_example :
    (r : Ratio) × ((aggregate_group group_key group).dominant_option_attested_success_rate ≡ some r)
    × AtLeast r (record { num = 9; den = 10 })
unfolding evaluate_gates aggregate_group is_eligible distribution sort count_by lookup assign
    text_eq text_lt
candidate-IsAttested_example = candidate-IsAttested group_key group _ refl refl

-- Every outcome unknown: nothing is attested for the dominant option.
abbrev unattested : DecisionAggregate
unattested = record (aggregate_group group_key []) {
  sample_count = 40;
  distinct_context_key_count = 5;
  dominance_percentage = record { num = 40; den = 40 };
  outcome_coverage = record { num = 0; den = 40 };
  dominant_option_attested_success_rate = none;
}

abbrev lenient : AnalyzerConfig
lenient = record default_config { coverage_threshold = record { num = 0; den = 1 } }

candidate_unattested_example :
    (e : GateEvaluation) × (evaluate_gates unattested lenient ≡ some e)
    × (e.verdict ≡ candidate)
    × (marks e
        ≡ (g1_sample_count, pass)
          ∷ (g2_context_diversity, pass)
          ∷ (g3_dominance, pass)
          ∷ (g4_outcome_success, not_applicable)
          ∷ (g5_outcome_coverage, pass)
          ∷ [])
candidate_unattested_example =
    candidate_unattested unattested lenient refl (omega arith) (omega arith) (omega arith)
      (omega arith)

abbrev call_at : Text → ToolCallOutcome → Text → ToolCallRecord
call_at id outcome at_time = record {
  tool_call_id = id;
  run_id = text "run";
  tool_name = text "fetch";
  input_fingerprint = text "f1";
  outcome = outcome;
  error_type = none;
  occurred_at = at_time;
}

-- Out of order, with a success before the three failures.
abbrev calls : List ToolCallRecord
calls =
    call_at (text "c4") failed (text "4")
    ∷ call_at (text "c2") failed (text "2")
    ∷ call_at (text "c1") success (text "1")
    ∷ call_at (text "c3") failed (text "3")
    ∷ []

abbrev emitted : RepeatedFailedAction
emitted = record {
  run_id = text "run";
  tool_name = text "fetch";
  input_fingerprint = text "f1";
  attempt_count = 3;
  tool_call_ids = text "c2" ∷ text "c3" ∷ text "c4" ∷ [];
}

detected : detect_repeated_failed_actions calls ≡ emitted ∷ []
unfolding detect_repeated_failed_actions streaks_in streaks_from flushed is_failed_attempt collect
    group_by lookup assign sort text_lt text_eq
detected = refl

-- Failures of other runs are not of the streak.
scattered :
    detect_repeated_failed_actions (
      record (call_at (text "c2") failed (text "2")) { run_id = text "other" }
      ∷ record (call_at (text "c3") failed (text "3")) { run_id = text "third" }
      ∷ calls)
    ≡ emitted ∷ []
unfolding detect_repeated_failed_actions streaks_in streaks_from flushed is_failed_attempt collect
    group_by lookup assign sort text_lt text_eq
scattered = refl

streaks_in-Splits_example :
    (first : List ToolCallRecord) × (segments : List Segment) × (Splits calls first segments
      × EmitsEach first segments (streaks_in calls))
streaks_in-Splits_example = streaks_in-Splits calls

detect_iff_example :
    Memᴰ emitted (detect_repeated_failed_actions calls) ↔ IsStreakAmong calls emitted
detect_iff_example = detect_iff calls emitted
