-- ===== src/Analysis/Aggregate.antt =====
-- platform/analysis-engine/src/aggregate.ts. A cast (`contextKey as string`) changes nothing
-- at run time; where the code compares or counts such a key it is read by `as_string`, which
-- meets only keys that are there, since eligibility has left out the others.
pub mod Distribution
pub mod Groups
use lengentic.Base.{
  ℕ, ◌+◌, Bool, true, false, not, ◌&&◌, ◌||◌, Option, none, some, List, [], ◌∷◌, ◌++◌, map, length,
  filter, ltb, ◌==◌, is_none, if◌then◌else◌,
}
use lengentic.Base.Text.{Text, text, text_eq, text_lt}
use lengentic.Base.Assoc.{Eq, text_Eq}
use lengentic.Base.Buckets.{group_by}
use lengentic.Base.Counts.{count_by}
use lengentic.Base.Sort.{sort}
use lengentic.Analysis.Types.{
  Outcome, success, failure, unknown, DecisionRecord, GroupKey, ExclusionCounts, Ratio, OptionCount,
  Counterexample, ContextConcentration, DecisionAggregate,
}

unfoldable pub group_key_of : DecisionRecord → GroupKey
group_key_of r = record {
  workflow_name = r.workflow_name;
  workflow_version = r.workflow_version;
  decision_type = r.decision_type;
  context_key_version = r.context_key_version;
}

-- `[a, b, c, d].join(' ')`.
unfoldable pub serialize_group_key : GroupKey → Text
serialize_group_key key =
    key.workflow_name
    ++ (b' '
        ∷ (key.workflow_version
            ++ (b' ' ∷ (key.decision_type ++ (b' ' ∷ key.context_key_version)))))

unfoldable pub is_eligible : DecisionRecord → Bool
is_eligible r = not r.run_is_stale && not (is_none r.context_key)

-- `outcome === 'SUCCESS'`, and so on.
abbrev pub is_success : Outcome → Bool
is_success success = true
is_success _ = false

abbrev pub is_failure : Outcome → Bool
is_failure failure = true
is_failure _ = false

abbrev pub is_unknown : Outcome → Bool
is_unknown unknown = true
is_unknown _ = false

abbrev pub as_string : Option Text → Text
as_string none = text "null"
as_string (some t) = t

-- `selectedOption === dominantOption`, where the right side may be null.
abbrev pub is_option : Option Text → DecisionRecord → Bool
is_option none r = false
is_option (some o) r = text_eq r.selected_option o

-- The loop of `countExclusions` on its two counters.
count_from : ExclusionCounts → List DecisionRecord → ExclusionCounts
count_from n [] = n
count_from n (r ∷ rs) =
    count_from
      (if r.run_is_stale
        then record n { stale_run = n.stale_run + 1 }
        else if is_none r.context_key
        then record n { missing_context_key = n.missing_context_key + 1 }
        else n)
      rs

unfoldable pub count_exclusions : List DecisionRecord → ExclusionCounts
unfolding count_from
count_exclusions rs = count_from (record { stale_run = 0; missing_context_key = 0 }) rs

-- `total === 0 ? 0 : count / total`.
abbrev pub share_of : ℕ → ℕ → Ratio
share_of count total =
    if total == 0 then record { num = 0; den = 1 } else record { num = count; den = total }

-- `b.count - a.count || (a.option < b.option ? -1 : 1)` is positive.
abbrev pub option_after : OptionCount → OptionCount → Bool
option_after a b = ltb a.count b.count || ((a.count == b.count) && not (text_lt a.option b.option))

unfoldable pub option_counts : ℕ → List (Text × ℕ) → List OptionCount
option_counts total = map λ p. record { option = p.0; count = p.1; share = share_of p.1 total }

unfoldable pub distribution : List DecisionRecord → ℕ → List OptionCount
unfolding option_counts
distribution eligible total =
    sort option_after (option_counts total (count_by (λ r. r.selected_option) eligible []))

unfoldable pub minority_selections : List DecisionRecord → Option Text → List DecisionRecord
minority_selections eligible none = []
minority_selections eligible (some d) = filter (λ r. not (is_option (some d) r)) eligible

abbrev pub counterexample_of : DecisionRecord → Counterexample
counterexample_of r = record {
  decision_id = r.decision_id;
  run_id = r.run_id;
  context_key = r.context_key;
  selected_option = r.selected_option;
  outcome = r.outcome;
}

-- The comparator of `extractCounterexamples` is positive.
abbrev pub counterexample_after : Counterexample → Counterexample → Bool
counterexample_after a b =
    if text_lt (as_string a.context_key) (as_string b.context_key)
    then false
    else if text_lt (as_string b.context_key) (as_string a.context_key)
    then true
    else not (text_lt a.decision_id b.decision_id)

abbrev pub is_dominant_failure : Text → DecisionRecord → Bool
is_dominant_failure d r = is_option (some d) r && is_failure r.outcome

abbrev pub is_minority_success : Text → DecisionRecord → Bool
is_minority_success d r = not (is_option (some d) r) && is_success r.outcome

unfoldable pub extract_counterexamples : List DecisionRecord → Option Text → List Counterexample
extract_counterexamples eligible none = []
extract_counterexamples eligible (some d) = sort counterexample_after (
    map counterexample_of
      (filter (is_dominant_failure d) eligible ++ filter (is_minority_success d) eligible))

-- `b.count - a.count || (a.contextKey < b.contextKey ? -1 : 1)` is positive.
abbrev pub context_after : ContextConcentration → ContextConcentration → Bool
context_after a b =
    ltb a.count b.count || ((a.count == b.count) && not (text_lt a.context_key b.context_key))

-- Its first line, which returns for no records, gives what the rest gives for them.
unfoldable pub concentration : List DecisionRecord → List ContextConcentration
concentration minority = sort context_after (
    map
      (λ p. record {
        context_key = p.0;
        count = p.1;
        share = record { num = p.1; den = length minority };
      })
      (count_by (λ r. as_string r.context_key) minority []))

-- `optionDistribution[0]?.option ?? null`, `optionDistribution[0]?.share ?? 0`.
abbrev pub head_option : List OptionCount → Option Text
head_option [] = none
head_option (o ∷ os) = some o.option

abbrev pub head_share : List OptionCount → Ratio
head_share [] = record { num = 0; den = 1 }
head_share (o ∷ os) = o.share

-- `new Set(eligible.map((r) => r.contextKey)).size`.
abbrev pub distinct_keys : List DecisionRecord → ℕ
distinct_keys eligible = length (count_by (λ r. as_string r.context_key) eligible [])

-- The attested decisions of the dominant option, and its success rate or null.
abbrev pub success_rate : List DecisionRecord → Option Ratio
success_rate dominant_attested =
    if length dominant_attested == 0
    then none
    else some (record {
      num = length (filter (λ r. is_success r.outcome) dominant_attested);
      den = length dominant_attested;
    })

unfoldable pub aggregate_group : GroupKey → List DecisionRecord → DecisionAggregate
unfolding count_exclusions extract_counterexamples minority_selections concentration
aggregate_group key records =
    let eligible = filter is_eligible records in
    let sample_count = length eligible in
    let options = distribution eligible sample_count in
    let dominant = head_option options in
    let attested = filter (λ r. not (is_unknown r.outcome)) eligible in
    let dominant_attested = filter (is_option dominant) attested in
    record {
      key = key;
      sample_count = sample_count;
      distinct_context_key_count = distinct_keys eligible;
      option_distribution = options;
      dominant_option = dominant;
      dominance_percentage = head_share options;
      attested_count = length attested;
      outcome_coverage = share_of (length attested) sample_count;
      dominant_option_attested_success_rate = success_rate dominant_attested;
      counterexamples = extract_counterexamples eligible dominant;
      minority_context_concentration = concentration (minority_selections eligible dominant);
      excluded = count_exclusions records;
    }

-- `[a] < [b] ? -1 : a > b ? 1 : 0` is positive.
abbrev pub entry_after : Text × List DecisionRecord → Text × List DecisionRecord → Bool
entry_after a b = text_lt b.0 a.0

-- A bucket keeps the group key of the record that opened it, its first; none is empty.
abbrev pub aggregate_bucket : Text × List DecisionRecord → DecisionAggregate
aggregate_bucket (serialized, []) =
    aggregate_group
      (record {
        workflow_name = serialized;
        workflow_version = [];
        decision_type = [];
        context_key_version = [];
      })
      []
aggregate_bucket (serialized, r ∷ rs) = aggregate_group (group_key_of r) (r ∷ rs)

unfoldable pub buckets_of : List DecisionRecord → List (Text × List DecisionRecord)
buckets_of records = group_by (λ r. serialize_group_key (group_key_of r)) records []

unfoldable pub aggregate_all : List DecisionRecord → List DecisionAggregate
unfolding buckets_of
aggregate_all records = map aggregate_bucket (sort entry_after (buckets_of records))
