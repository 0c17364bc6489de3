-- ===== src/Analysis/Types.antt =====
-- platform/analysis-engine/src/types.ts and config.ts. A `number` between 0 and 1 is the exact
-- fraction that the code divides out (`Ratio`); thresholds are fractions too.
use lengentic.Base.{ℕ, ◌*◌, Bool, Option, List, leb}
use lengentic.Base.Text.{Text}

pub data Outcome : Type 0 where
  success failure unknown : Outcome

pub data OutcomeAttestedBy : Type 0 where
  caller unknown : OutcomeAttestedBy

pub record DecisionRecord : Type 0 where
  pub decision_id : Text
  pub run_id : Text
  pub run_is_stale : Bool
  pub workflow_name : Text
  pub workflow_version : Text
  pub decision_type : Text
  pub context_key : Option Text
  pub context_key_version : Text
  pub available_options : List Text
  pub selected_option : Text
  pub outcome : Outcome
  pub outcome_attested_by : OutcomeAttestedBy

pub record GroupKey : Type 0 where
  pub workflow_name : Text
  pub workflow_version : Text
  pub decision_type : Text
  pub context_key_version : Text

pub record ExclusionCounts : Type 0 where
  pub stale_run : ℕ
  pub missing_context_key : ℕ

-- `num / den`, with `den` above 0.
pub record Ratio : Type 0 where
  pub num : ℕ
  pub den : ℕ

-- `a >= b`.
abbrev pub ratio_ge : Ratio → Ratio → Bool
ratio_ge a b = leb (b.num * a.den) (a.num * b.den)

pub record OptionCount : Type 0 where
  pub option : Text
  pub count : ℕ
  pub share : Ratio

pub record Counterexample : Type 0 where
  pub decision_id : Text
  pub run_id : Text
  pub context_key : Option Text
  pub selected_option : Text
  pub outcome : Outcome

pub record ContextConcentration : Type 0 where
  pub context_key : Text
  pub count : ℕ
  pub share : Ratio

pub record DecisionAggregate : Type 0 where
  pub key : GroupKey
  pub sample_count : ℕ
  pub distinct_context_key_count : ℕ
  pub option_distribution : List OptionCount
  pub dominant_option : Option Text
  pub dominance_percentage : Ratio
  pub attested_count : ℕ
  pub outcome_coverage : Ratio
  pub dominant_option_attested_success_rate : Option Ratio
  pub counterexamples : List Counterexample
  pub minority_context_concentration : List ContextConcentration
  pub excluded : ExclusionCounts

pub record AnalyzerConfig : Type 0 where
  pub min_sample_count : ℕ
  pub min_distinct_contexts : ℕ
  pub dominance_threshold : Ratio
  pub success_threshold : Ratio
  pub coverage_threshold : Ratio

abbrev pub default_config : AnalyzerConfig
default_config = record {
  min_sample_count = 30;
  min_distinct_contexts = 5;
  dominance_threshold = record { num = 9; den = 10 };
  success_threshold = record { num = 9; den = 10 };
  coverage_threshold = record { num = 8; den = 10 };
}
