-- ===== src/Analysis/Aggregate/Groups.antt =====
-- What becomes of each record: counted, or excluded for a reason, in the group of its key.
use mathlib.Core.List.{head-eq_of_cons-eq, append_assoc, Permᴰ}
use mathlib.Core.List.Permᴰ
use lengentic.Base.{
  All, All-map, ◌+◌, ◌<◌, ◌≡◌, refl, sym, ap, ◌∙◌, subst, inl, inr, Bool, true, not, ◌&&◌, none,
  is_none, or_else, List, [], ◌∷◌, ◌++◌, map, arith, count, length, filter, length-filter,
  count-filter, Bool-cases, Option-cases, if◌then◌else◌,
}
use lengentic.Base.Text.{Text, text_eq, text_eq→eq, text_eq_self}
use lengentic.Base.Assoc.{lookup, text_Eq}
use lengentic.Base.Folds.{All-perm, count-perm}
use lengentic.Base.Sort.{sort, sort-perm}
use lengentic.Base.Buckets.Found.{count-found}
use lengentic.Base.Buckets.{
  group_by, group_by-HasDistinctKeys, lookup-group_by, bucket-eq-filter, group_by-IsOpened,
}
use lengentic.Analysis.Types.{DecisionRecord, GroupKey, ExclusionCounts, DecisionAggregate}
use lengentic.Analysis.Aggregate.{
  is_eligible, count_from, count_exclusions, aggregate_group, aggregate_bucket, aggregate_all,
  buckets_of, entry_after, group_key_of, serialize_group_key,
}

-- The four texts of a group, with a space between each two.
abbrev pub spaced : Text → Text → Text → Text → Text
spaced name version decision keyed = name ++ b' ' ∷ (version ++ b' ' ∷ (decision ++ b' ' ∷ keyed))

abbrev pub key_text : GroupKey → Text
key_text k = spaced k.workflow_name k.workflow_version k.decision_type k.context_key_version

abbrev pub record_text : DecisionRecord → Text
record_text r = spaced r.workflow_name r.workflow_version r.decision_type r.context_key_version

abbrev pub in_group : Text → DecisionRecord → Bool
in_group k r = text_eq (record_text r) k

-- Of the records whose four texts read as the aggregate's do: it samples those of a run that is not
-- stale that have a context key, and it excludes the stale ones, and the others without a key.
abbrev pub HasSamples : List DecisionRecord → DecisionAggregate → Type 0
HasSamples rs a =
    (a.sample_count
      ≡ count
          (λ r. in_group (key_text a.key) r && (not r.run_is_stale && not (is_none r.context_key)))
          rs)
    × (a.excluded.stale_run ≡ count (λ r. in_group (key_text a.key) r && r.run_is_stale) rs)
    × (a.excluded.missing_context_key
        ≡ count (λ r. in_group (key_text a.key) r && (not r.run_is_stale && is_none r.context_key))
            rs)

-- Of the record's group there is one aggregate.
abbrev pub HasAggregate : List DecisionAggregate → DecisionRecord → Type 0
HasAggregate all r = count (λ a. text_eq (key_text a.key) (record_text r)) all ≡ 1

count_from-counts :
    (n : ExclusionCounts) (rs : List DecisionRecord)
    → ((count_from n rs).stale_run ≡ n.stale_run + count (λ r. r.run_is_stale) rs)
      × ((count_from n rs).missing_context_key
          ≡ n.missing_context_key + count (λ r. not r.run_is_stale && is_none r.context_key) rs)
unfolding count_from
count_from-counts n [] = (omega arith, omega arith)
count_from-counts n (r ∷ rs) = ground (
  arith,
  count_from-counts n rs,
  count_from-counts (record n { stale_run = n.stale_run + 1 }) rs,
  count_from-counts (record n { missing_context_key = n.missing_context_key + 1 }) rs,
)

count_exclusions-counts :
    (rs : List DecisionRecord)
    → ((count_exclusions rs).stale_run ≡ count (λ r. r.run_is_stale) rs)
      × ((count_exclusions rs).missing_context_key
          ≡ count (λ r. not r.run_is_stale && is_none r.context_key) rs)
unfolding count_exclusions
count_exclusions-counts rs =
    let counts = count_from-counts (record { stale_run = 0; missing_context_key = 0 }) rs in
    (omega (arith, counts.0), omega (arith, counts.1))

head_in_group :
    (k : Text) (r : DecisionRecord) (b rs : List DecisionRecord)
    → r ∷ b ≡ filter (in_group k) rs
    → in_group k r ≡ true
head_in_group k r b [] e = absurd (omega (arith, ap length e))
head_in_group k r b (x ∷ rs) e = elim (Bool-cases (in_group k x)) [
  | inl p ↦ subst (λ y. in_group k y ≡ true) (sym (head-eq_of_cons-eq (rw p at e))) p
  | inr p ↦ head_in_group k r b rs (rw p at e)
]

bucket-key :
    (rs : List DecisionRecord) (p : Text × List DecisionRecord)
    → 0 < length p.1
    → p.1 ≡ filter (in_group p.0) rs
    → key_text (aggregate_bucket p).key ≡ p.0
unfolding aggregate_group group_key_of
bucket-key rs (k, []) n e = absurd (omega arith)
bucket-key rs (k, r ∷ b) n e = text_eq→eq _ k (head_in_group k r b rs e)

-- What a bucket has of a kind is what its group has of it.
bucket-count :
    (kind : DecisionRecord → Bool) (k j : Text) (b rs : List DecisionRecord)
    → b ≡ filter (in_group k) rs
    → j ≡ k
    → count kind b ≡ count (λ r. in_group j r && kind r) rs
bucket-count kind k j b rs e same =
    ap (count kind) e
    ∙ count-filter kind (in_group k) rs
    ∙ ap (λ i. count (λ r. in_group i r && kind r) rs) (sym same)

bucket-HasSamples :
    (rs : List DecisionRecord) (p : Text × List DecisionRecord)
    → 0 < length p.1
    → p.1 ≡ filter (in_group p.0) rs
    → HasSamples rs (aggregate_bucket p)
unfolding aggregate_group group_key_of is_eligible
bucket-HasSamples rs (k, []) n e = absurd (omega arith)
bucket-HasSamples rs (k, r ∷ b) n e =
    let same = bucket-key rs (k, r ∷ b) n e in
    let excluded = count_exclusions-counts (r ∷ b) in
    (
      length-filter is_eligible (r ∷ b) ∙ bucket-count is_eligible k _ (r ∷ b) rs e same,
      excluded.0 ∙ bucket-count (λ r. r.run_is_stale) k _ (r ∷ b) rs e same,
      excluded.1
          ∙ bucket-count (λ r. not r.run_is_stale && is_none r.context_key) k _ (r ∷ b) rs e same,
    )

All-aggregate_bucket :
    (rs : List DecisionRecord) (m : List (Text × List DecisionRecord))
    → All (λ (p : Text × List DecisionRecord). 0 < length p.1) m
    → All (λ (p : Text × List DecisionRecord). p.1 ≡ filter (in_group p.0) rs) m
    → All (HasSamples rs) (map aggregate_bucket m)
All-aggregate_bucket rs [] h k = tt
All-aggregate_bucket rs (p ∷ m) (n, h) (e, k) =
    (bucket-HasSamples rs p n e, All-aggregate_bucket rs m h k)

-- As many aggregates as buckets have a key.
count-aggregate_bucket :
    (j : Text) (rs : List DecisionRecord) (m : List (Text × List DecisionRecord))
    → All (λ (p : Text × List DecisionRecord). 0 < length p.1) m
    → All (λ (p : Text × List DecisionRecord). p.1 ≡ filter (in_group p.0) rs) m
    → count (λ a. text_eq (key_text a.key) j) (map aggregate_bucket m)
      ≡ count (λ (p : Text × List DecisionRecord). text_eq p.0 j) m
count-aggregate_bucket j rs [] h k = refl
count-aggregate_bucket j rs (p ∷ m) (n, h) (e, k) =
    ap
      (λ i.
        (if text_eq i j then 1 else 0)
        + count (λ a. text_eq (key_text a.key) j) (map aggregate_bucket m))
      (bucket-key rs p n e)
    ∙ ap (λ c. (if text_eq p.0 j then 1 else 0) + c) (count-aggregate_bucket j rs m h k)

abbrev group : DecisionRecord → Text
group r = serialize_group_key (group_key_of r)

-- A key of some record has a bucket.
count-buckets :
    (j : Text) (rs : List DecisionRecord)
    → 0 < count (in_group j) rs
    → count (λ (p : Text × List DecisionRecord). text_eq p.0 j) (buckets_of rs) ≡ 1
unfolding buckets_of serialize_group_key group_key_of lookup
count-buckets j rs h = elim (Option-cases (lookup j (group_by group rs []))) [
  | inl q ↦ absurd (omega (arith, ap length (missing q), length-filter (in_group j) rs))
  | inr (b, q) ↦ count-found j b _ (group_by-HasDistinctKeys group rs [] tt) q
]
  where
    missing : lookup j (group_by group rs []) ≡ none → [] ≡ filter (in_group j) rs
    missing q = sym (ap (λ o. or_else o []) q) ∙ lookup-group_by group j rs []

-- Every record is of its own group.
own_group : (rs : List DecisionRecord) → All (λ r. 0 < count (in_group (record_text r)) rs) rs
own_group [] = tt
own_group (r ∷ rs) = (
  ground (arith, text_eq_self (record_text r)),
  All-map _ _ (λ x (h : 0 < count (in_group (record_text x)) rs). omega (arith, h)) rs
      (own_group rs),
)

-- Every aggregate counts, of the records whose workflow name, version, decision type and context
-- key version read the same with spaces between them, those that are not stale and have a context
-- key as its samples, and the stale ones and the others without a key as excluded for that
-- reason; and every record has exactly one aggregate of its group.
pub aggregate_all-HasSamples :
    (rs : List DecisionRecord)
    → All (HasSamples rs) (aggregate_all rs) × All (HasAggregate (aggregate_all rs)) rs
unfolding aggregate_all buckets_of serialize_group_key group_key_of
aggregate_all-HasSamples rs = (
  All-aggregate_bucket rs entries opened filters,
  All-map _ _
      (λ r (h : 0 < count (in_group (record_text r)) rs).
        count-aggregate_bucket (record_text r) rs entries opened filters
        ∙ count-perm _ (sort-perm entry_after (buckets_of rs))
        ∙ count-buckets (record_text r) rs h)
      rs (own_group rs),
)
  where
    entries : List (Text × List DecisionRecord)
    entries = sort entry_after (buckets_of rs)

    sorted : Permᴰ (buckets_of rs) entries
    sorted = Permᴰ.symm (sort-perm entry_after (buckets_of rs))

    opened : All (λ (p : Text × List DecisionRecord). 0 < length p.1) entries
    opened = All-perm _ sorted (group_by-IsOpened group rs [] tt)

    filters : All (λ (p : Text × List DecisionRecord). p.1 ≡ filter (in_group p.0) rs) entries
    filters = All-perm _ sorted (bucket-eq-filter group rs)

-- A space in a workflow name and one in its version are not told apart: the name `a b` with the
-- version `c` and the name `a` with the version `b c` serialize alike, for all texts.
pub serialize-shift :
    (a b c d v : Text)
    → serialize_group_key (record {
      workflow_name = a ++ b' ' ∷ b;
      workflow_version = c;
      decision_type = d;
      context_key_version = v;
    })
      ≡ serialize_group_key (record {
        workflow_name = a;
        workflow_version = b ++ b' ' ∷ c;
        decision_type = d;
        context_key_version = v;
      })
unfolding serialize_group_key
serialize-shift a b c d v = simp append_assoc
