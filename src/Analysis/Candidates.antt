-- ===== src/Analysis/Candidates.antt =====
-- The gates on what `aggregateGroup` measures.
use mathlib.Core.Option.{some-injective}
use lengentic.Base.{
  All, ℕ, ◌+◌, ◌*◌, ◌≤◌, ◌<◌, ◌≡◌, refl, sym, ap, ◌∙◌, subst, Bool, not, Option, none, some, List,
  [], ◌∷◌, arith, count, length, filter, length-filter, count-filter, count_overlap,
}
use lengentic.Base.Text.{Text}
use lengentic.Analysis.Types.{Ratio, DecisionRecord, GroupKey, OptionCount, default_config}
use lengentic.Analysis.Aggregate.{
  is_eligible, aggregate_group, distribution, head_option, head_share, share_of, success_rate,
  is_unknown, is_success, is_option,
}
use lengentic.Analysis.Aggregate.Distribution.{distribution-IsCounted, IsCounted, chosen}
use lengentic.Analysis.Gates.{GateEvaluation, candidate, evaluate_gates}
use lengentic.Analysis.Gates.Verdicts.{AtLeast, Clears, Unfailed, evaluate_gates-candidate_iff}

abbrev is_attested : DecisionRecord → Bool
is_attested r = not (is_unknown r.outcome)

-- A distribution whose head holds nine tenths of thirty or more records names a dominant option
-- that nine tenths of the records selected.
head_chosen :
    (eligible : List DecisionRecord) (n : ℕ) (os : List OptionCount)
    → 30 ≤ n
    → All (IsCounted eligible n) os
    → AtLeast (head_share os) (record { num = 9; den = 10 })
    → (d : Text) × (head_option os ≡ some d) × (9 * n ≤ 10 * chosen d eligible)
head_chosen eligible n [] big h k = absurd (omega arith)
head_chosen eligible n (o ∷ os) big (h, hs) k = (o.option, refl, ground (arith, h.0, h.1))

attested_dominant :
    (eligible : List DecisionRecord) (d : Text)
    → count is_attested eligible + chosen d eligible
      ≤ length (filter (is_option (some d)) (filter is_attested eligible)) + length eligible
attested_dominant eligible d = omega (
  arith,
  count_overlap is_attested (is_option (some d)) eligible,
  length-filter (is_option (some d)) (filter is_attested eligible),
  count-filter (is_option (some d)) is_attested eligible,
)

rate_known : (rs : List DecisionRecord) → 0 < length rs → (r : Ratio) × (success_rate rs ≡ some r)
rate_known rs h =
    (record { num = length (filter (λ r. is_success r.outcome) rs); den = length rs }, ground arith)

Unfailed-known : (o : Option Ratio) (t r : Ratio) → o ≡ some r → Unfailed o t → AtLeast r t
Unfailed-known none t r e h = cc
Unfailed-known (some q) t r e h = subst (λ x. AtLeast x t) (some-injective q r e) h

coverage_count :
    (a n : ℕ) → 30 ≤ n → AtLeast (share_of a n) (record { num = 8; den = 10 }) → 8 * n ≤ 10 * a
coverage_count a n big h = ground arith

module _ (key : GroupKey) (records : List DecisionRecord) where
  eligible : List DecisionRecord
  eligible = filter is_eligible records

  dominant_attested : List DecisionRecord
  dominant_attested =
      filter (is_option (head_option (distribution eligible (length eligible))))
        (filter is_attested eligible)

  Clears→attested :
      Clears (aggregate_group key records) default_config → 0 < length dominant_attested
  unfolding aggregate_group eligible dominant_attested
  Clears→attested c =
      let n = length (filter is_eligible records) in
      let (d, named, often) =
        head_chosen (filter is_eligible records) n _ c.samples
          (distribution-IsCounted (filter is_eligible records) n) c.dominance in
      rw named (
        omega (
          arith,
          often,
          c.samples,
          coverage_count _ n c.samples c.coverage,
          length-filter is_attested (filter is_eligible records),
          attested_dominant (filter is_eligible records) d,
        ))

-- With the default thresholds a group is a CANDIDATE only if the success rate of its dominant
-- option is known and at least nine tenths: gate 4 is never merely not applicable.
pub candidate-IsAttested :
    (key : GroupKey) (records : List DecisionRecord) (e : GateEvaluation)
    → evaluate_gates (aggregate_group key records) default_config ≡ some e
    → e.verdict ≡ candidate
    → (r : Ratio) × ((aggregate_group key records).dominant_option_attested_success_rate ≡ some r)
      × AtLeast r (record { num = 9; den = 10 })
unfolding aggregate_group eligible dominant_attested
candidate-IsAttested key records e q v =
    let (f, given, both) =
      evaluate_gates-candidate_iff (aggregate_group key records) default_config in
    let same : f ≡ e = some-injective f e (sym given ∙ q) in
    let clears = both.0 (ap (λ g. g.verdict) same ∙ v) in
    let (r, known) =
      rate_known (dominant_attested key records) (Clears→attested key records clears) in
    (r, known, Unfailed-known _ _ r known clears.success)
