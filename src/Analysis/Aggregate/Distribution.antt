-- ===== src/Analysis/Aggregate/Distribution.antt =====
-- The distribution of options, and the dominant one.
use mathlib.Core.Option.{some-injective}
use mathlib.Core.List.Permᴰ
use lengentic.Base.{
  All, ℕ, ◌+◌, ◌<◌, ◌≡◌, refl, sym, ap, subst, ◌∙◌, ◌⊎◌, inl, inr, true, false, some, List, [], ◌∷◌,
  arith, count, length, or_else, Option-cases,
}
use lengentic.Base.Text.{Text, text_eq, text_lt, text_lt_self, text_lt_trans, text_ge_trans}
use lengentic.Base.Assoc.{text_Eq, lookup}
use lengentic.Base.Folds.{All-perm}
use lengentic.Base.Sort.{sort-perm, sort-IsSorted, IsSorted}
use lengentic.Base.Buckets.{sum_by, sum_by-perm, All-entries, All-lookup}
use lengentic.Base.Counts.{
  count_by, lookup-count_by, count_by-HasDistinctKeys, sum_counts, sum_counts-count_by,
}
use lengentic.Analysis.Types.{DecisionRecord, OptionCount}
use lengentic.Analysis.Aggregate.{distribution, option_counts, option_after, share_of, head_option}

-- How many of the records selected the option.
abbrev pub chosen : Text → List DecisionRecord → ℕ
chosen o rs = count (λ r. text_eq r.selected_option o) rs

-- More frequent, or as frequent and not behind in the order of names.
abbrev pub Leads : OptionCount → OptionCount → Type 0
Leads a b = (b.count < a.count) ⊎ ((b.count ≡ a.count) × (text_lt b.option a.option ≡ false))

Leads-stays : (a b : OptionCount) → option_after a b ≡ false → Leads a b
Leads-stays a b h = ground (arith, text_lt_trans a.option b.option a.option, text_lt_self a.option)

Leads-passes : (a b : OptionCount) → option_after a b ≡ true → Leads b a
Leads-passes a b h = ground arith

Leads-trans : (a b c : OptionCount) → Leads a b → Leads b c → Leads a c
Leads-trans a b c h k = ground (arith, text_ge_trans a.option b.option c.option)

module _ (total : ℕ) where
  All-option_counts :
      (P : OptionCount → Type 0) (m : List (Text × ℕ))
      → All
          (λ (p : Text × ℕ). P (record { option = p.0; count = p.1; share = share_of p.1 total }))
          m
      → All P (option_counts total m)
  unfolding option_counts
  All-option_counts P [] h = tt
  All-option_counts P (p ∷ m) (q, h) = (q, All-option_counts P m h)

  All-option_counts-inv :
      (P : OptionCount → Type 0) (m : List (Text × ℕ))
      → All P (option_counts total m)
      → All
          (λ (p : Text × ℕ). P (record { option = p.0; count = p.1; share = share_of p.1 total }))
          m
  unfolding option_counts
  All-option_counts-inv P [] h = tt
  All-option_counts-inv P (p ∷ m) (q, h) = (q, All-option_counts-inv P m h)

module _ (eligible : List DecisionRecord) (total : ℕ) where
  pub distribution-IsSorted : IsSorted Leads (distribution eligible total)
  unfolding distribution
  distribution-IsSorted = sort-IsSorted option_after Leads Leads-stays Leads-passes Leads-trans _

  abbrev pub IsCounted : OptionCount → Type 0
  IsCounted c = (c.count ≡ chosen c.option eligible) × (c.share ≡ share_of c.count total)

  pub distribution-IsCounted : All IsCounted (distribution eligible total)
  unfolding distribution lookup
  distribution-IsCounted = All-perm IsCounted (Permᴰ.symm (sort-perm option_after _)) (
      All-option_counts total IsCounted _ (
        All-entries (λ k n. (n ≡ chosen k eligible) × (share_of n total ≡ share_of n total)) _
          (count_by-HasDistinctKeys (λ r. r.selected_option) eligible [] tt)
          (λ k n found. (
            sym (ap (λ o. or_else o 0) found)
                ∙ lookup-count_by (λ r. r.selected_option) k eligible []
                ∙ omega arith,
            refl,
          ))))

  -- The counts add up to the number of eligible records.
  sum_option_counts :
      (m : List (Text × ℕ)) → sum_by (λ c. c.count) (option_counts total m) ≡ sum_counts m
  unfolding option_counts
  sum_option_counts [] = refl
  sum_option_counts (p ∷ m) = omega (arith, sum_option_counts m)

  pub sum-distribution : sum_by (λ c. c.count) (distribution eligible total) ≡ length eligible
  unfolding distribution
  sum-distribution =
      sum_by-perm (λ c. c.count) (sort-perm option_after _)
      ∙ sum_option_counts _
      ∙ sum_counts-count_by (λ r. r.selected_option) eligible []
      ∙ omega arith

-- An option that somebody chose has its entry in the distribution.
chosen_entry :
    (eligible : List DecisionRecord) (total : ℕ) (P : OptionCount → Type 0) (o : Text)
    → All P (distribution eligible total)
    → 0 < chosen o eligible
    → P (record {
      option = o;
      count = chosen o eligible;
      share = share_of (chosen o eligible) total;
    })
unfolding distribution lookup
chosen_entry eligible total P o h pos = elim (Option-cases (lookup o entries)) [
  | inl missing ↦ absurd (omega (arith, ap (λ v. or_else v 0) missing, counted))
  | inr (n, found) ↦
      subst (λ (k : ℕ). P (record { option = o; count = k; share = share_of k total }))
        (sym (ap (λ v. or_else v 0) found) ∙ counted ∙ omega arith)
        (All-lookup (λ k n. P (record { option = k; count = n; share = share_of n total })) o n
          entries (All-option_counts-inv total P entries (All-perm P (sort-perm option_after _) h))
          found)
]
  where
    entries : List (Text × ℕ)
    entries = count_by (λ r. r.selected_option) eligible []

    counted : or_else (lookup o entries) 0 ≡ 0 + chosen o eligible
    counted = lookup-count_by (λ r. r.selected_option) o eligible []

module _ (eligible : List DecisionRecord) (d : Text) where
  -- Less frequent than `d`, or as frequent and not before it in the order of names.
  abbrev pub Trails : Text → ℕ → Type 0
  Trails o n = (n < chosen d eligible) ⊎ ((n ≡ chosen d eligible) × (text_lt o d ≡ false))

  All-Trails :
      (x : OptionCount) (os : List OptionCount)
      → x.option ≡ d
      → x.count ≡ chosen d eligible
      → All (Leads x) os
      → All (λ c. Trails c.option c.count) os
  All-Trails x [] e n h = tt
  All-Trails x (c ∷ os) e n (p, h) = (ground arith, All-Trails x os e n h)

  heads-Trail :
      (total : ℕ) (os : List OptionCount)
      → IsSorted Leads os
      → All (IsCounted eligible total) os
      → head_option os ≡ some d
      → All (λ c. Trails c.option c.count) os
  heads-Trail total [] s c e = tt
  heads-Trail total (x ∷ os) (first, s) (counted, c) e =
      let same : x.option ≡ d = some-injective x.option d e in
      let n : x.count ≡ chosen d eligible =
        subst (λ o. x.count ≡ chosen o eligible) same counted.0 in
      (inr (n, rw same (text_lt_self d)), All-Trails x os same n first)

-- The dominant option of a group is the one that most of its records selected; of options that
-- were selected equally often it is the first by name.
dominant-Trails :
    (eligible : List DecisionRecord) (total : ℕ) (d : Text)
    → head_option (distribution eligible total) ≡ some d
    → (o : Text) → 0 < chosen o eligible
    → Trails eligible d o (chosen o eligible)
dominant-Trails eligible total d e o pos =
    chosen_entry eligible total (λ c. Trails eligible d c.option c.count) o
      (heads-Trail eligible d total _ (distribution-IsSorted eligible total)
        (distribution-IsCounted eligible total) e)
      pos
