-- ===== src/Lanes/Evaluate/Disjoint.antt =====
-- scripts/lanes.ts, `evaluate` with `checkOwnership`: the lanes of a parallel batch write apart.
use lengentic.Base.{
  ℕ, zero, suc, ◌≡◌, refl, sym, subst, inl, inr, Bool, true, false, not, ◌&&◌, ◌||◌, Option, none,
  some, List, [], ◌∷◌, ◌++◌, arith, any, filter, if◌then◌else◌, Bool-cases, Option-cases, is_none,
  ◌>>=◌,
}
use mathlib.Core.Bool.{false≢true}
use mathlib.Core.Option.{some-injective, none-ne-some}
use lengentic.Base.Text.{Text, text_eq, text_eq→eq}
use lengentic.Base.Arrays.{includes, is_nil, flat_map}
use lengentic.Lanes.Paths.{normalise, match_path, patterns_overlap, find_match}
use lengentic.Lanes.Paths.Overlap.{patterns_overlap_complete}
use lengentic.Lanes.Units.{
  sequential, parallel, Policy, LaneUnit, RepoState, Requirement, LaneEntry, Decision,
}
use lengentic.Lanes.Lifecycle.{Activation}
use lengentic.Lanes.Ownership.{artifacts, judge_file, accepted_of, check_ownership}
use lengentic.Lanes.Evaluate.{
  Overlap, overlaps_with, path_overlaps, is_undeclared, requirements, lane_entries, evaluate,
}

nil-append {ℓ} : {A : Type ℓ} (xs ys : List A) → is_nil (xs ++ ys) ≡ (is_nil xs && is_nil ys)
nil-append [] ys = refl
nil-append (x ∷ xs) ys = refl

both_nil {ℓ} :
    {A : Type ℓ} (xs ys : List A)
    → is_nil (xs ++ ys) ≡ true
    → (is_nil xs ≡ true) × (is_nil ys ≡ true)
both_nil [] ys h = (refl, h)
both_nil (x ∷ xs) ys h = absurd (false≢true h)

find_match-any :
    (f : Text) (ps : List Text) → is_none (find_match f ps) ≡ not (any (match_path f) ps)
unfolding match_path
find_match-any f [] = refl
find_match-any f (p ∷ ps) = ground (arith, find_match-any f ps)

judge_file-matches :
    (f : Text) (allowed forbidden : List Text)
    → judge_file f allowed forbidden ≡ none
    → (match_path f artifacts || any (match_path f) allowed) ≡ true
unfolding judge_file accepted_of
judge_file-matches f [] forbidden h = ground arith
judge_file-matches f (p ∷ allowed) forbidden h = ground (arith, find_match-any f (p ∷ allowed))

accepted_of-matches :
    (f : Text) (changed allowed forbidden : List Text)
    → includes f (accepted_of changed allowed forbidden) ≡ true
    → (match_path f artifacts || any (match_path f) allowed) ≡ true
unfolding judge_file accepted_of
accepted_of-matches f [] allowed forbidden h = absurd (false≢true h)
accepted_of-matches f (raw ∷ changed) allowed forbidden h =
    elim (Option-cases (judge_file (normalise raw) allowed forbidden)) [
      | inr (v, e) ↦ accepted_of-matches f changed allowed forbidden (rw (e, accepted_of) at h)
      | inl e ↦ elim (Bool-cases (text_eq f (normalise raw))) [
        | inl q ↦
            subst (λ g. (match_path g artifacts || any (match_path g) allowed) ≡ true)
              (sym (text_eq→eq f (normalise raw) q))
              (judge_file-matches (normalise raw) allowed forbidden e)
        | inr q ↦ accepted_of-matches f changed allowed forbidden (rw (e, accepted_of, q) at h)
      ]
    ]

one_against :
    (f pa : Text) (g : Text → Overlap) (bs : List Text)
    → is_nil (flat_map (λ pb. if patterns_overlap pa pb then g pb ∷ [] else []) bs) ≡ true
    → match_path f pa ≡ true
    → any (match_path f) bs ≡ false
one_against f pa g [] h m = refl
one_against f pa g (pb ∷ bs) h m = elim (Bool-cases (patterns_overlap pa pb)) [
  | inl e ↦ absurd (false≢true (rw e at h))
  | inr e ↦ ground (arith, one_against f pa g bs (rw e at h) m, patterns_overlap_complete f pa pb m)
]

pairs-apart :
    (f : Text) (a b : LaneUnit) (as' bs : List Text)
    → is_nil (overlaps_with a b as' bs) ≡ true
    → any (match_path f) as' ≡ true
    → any (match_path f) bs ≡ false
unfolding patterns_overlap
pairs-apart f a b [] bs h m = absurd (false≢true m)
pairs-apart f a b (pa ∷ as') bs h m = elim (Bool-cases (match_path f pa)) [
  | inl e ↦ one_against f pa _ bs (both_nil _ _ h).0 e
  | inr e ↦ pairs-apart f a b as' bs (both_nil _ _ h).1 (rw e at m)
]

-- What a unit matches none of the units it is compared with does.
first-apart :
    (f : Text) (a b : LaneUnit) (middle back : List LaneUnit)
    → is_nil (
        flat_map
          (λ (c : LaneUnit). overlaps_with a c a.allowed_paths c.allowed_paths)
          (middle ++ b ∷ back))
      ≡ true
    → any (match_path f) a.allowed_paths ≡ true
    → any (match_path f) b.allowed_paths ≡ false
unfolding patterns_overlap
first-apart f a b [] back h m =
    pairs-apart f a b a.allowed_paths b.allowed_paths (both_nil _ _ h).0 m
first-apart f a b (c ∷ middle) back h m = first-apart f a b middle back (both_nil _ _ h).1 m

units-apart :
    (f : Text) (a b : LaneUnit) (front middle back : List LaneUnit)
    → is_nil (path_overlaps (front ++ a ∷ middle ++ b ∷ back)) ≡ true
    → any (match_path f) a.allowed_paths ≡ true
    → any (match_path f) b.allowed_paths ≡ false
unfolding path_overlaps
units-apart f a b [] middle back h m = first-apart f a b middle back (both_nil _ _ h).0 m
units-apart f a b (c ∷ front) middle back h m =
    units-apart f a b front middle back (both_nil _ _ h).1 m

-- The verdict at a place in the list.
abbrev pass_at : ℕ → List Requirement → Bool
pass_at n [] = true
pass_at zero (r ∷ rs) = r.pass
pass_at (suc n) (r ∷ rs) = pass_at n rs

all_pass :
    (n : ℕ) (rs : List Requirement)
    → is_nil (filter (λ (r : Requirement). not r.pass) rs) ≡ true
    → pass_at n rs ≡ true
all_pass n [] h = refl
all_pass zero (r ∷ rs) h = ground arith
all_pass (suc n) (r ∷ rs) h = all_pass n rs (ground arith)

second : (a b : Bool) → (a && b) ≡ true → b ≡ true
second true b h = h
second false b h = cc

-- A batch that passes has no overlapping paths.
requirements-no_overlap :
    (units : List LaneUnit) (policy : Policy) (repo : RepoState)
    → is_nil (filter (λ (r : Requirement). not r.pass) (requirements units policy repo)) ≡ true
    → is_nil (path_overlaps units) ≡ true
unfolding requirements
requirements-no_overlap units policy repo h =
    second (is_nil (filter is_undeclared units)) (is_nil (path_overlaps units))
      (all_pass 6 (requirements units policy repo) h)

-- The entries decide only whether there is a decision.
pub decided :
    (o : Option (List LaneEntry)) (k : List LaneEntry → Decision) (d : Decision)
    (P : Decision → Type 0)
    → ((entries : List LaneEntry) → P (k entries))
    → (o >>= λ entries. some (k entries)) ≡ some d
    → P d
decided none k d P f h = absurd (none-ne-some d h)
decided (some entries) k d P f h = subst P (some-injective (k entries) d h) (f entries)

mode_means : (b : Bool) → (if b then parallel else sequential) ≡ parallel → b ≡ true
mode_means true h = refl
mode_means false h = cc

-- When a batch is to run in parallel, a file that the ownership check accepts in two of its lanes
-- is one of the reports under `.artifacts/`, whatever the two lanes changed and whatever they are
-- forbidden.
pub evaluate-lanes_apart :
    (agent_exists : Text → Bool) (activation : Activation) (units : List LaneUnit) (policy : Policy)
    (repo : RepoState) (d : Decision)
    → evaluate agent_exists activation units policy repo ≡ some d
    → d.mode ≡ parallel
    → (front middle back : List LaneUnit) (a b : LaneUnit) → units ≡ front ++ a ∷ middle ++ b ∷ back
    → (changed_a changed_b forbidden_a forbidden_b : List Text) (file : Text)
    → includes file (check_ownership changed_a a.allowed_paths forbidden_a).accepted ≡ true
    → includes file (check_ownership changed_b b.allowed_paths forbidden_b).accepted ≡ true
    → match_path file artifacts ≡ true
unfolding evaluate check_ownership
evaluate-lanes_apart agent_exists activation units policy repo d done mode front middle back a b e
      changed_a changed_b forbidden_a forbidden_b file in_a in_b =
    ground (
      arith,
      accepted_of-matches file changed_a a.allowed_paths forbidden_a in_a,
      accepted_of-matches file changed_b b.allowed_paths forbidden_b in_b,
      units-apart file a b front middle back (
          subst (λ us. is_nil (path_overlaps us) ≡ true) e
            (requirements-no_overlap units policy repo (
              decided (lane_entries agent_exists activation units units) _ d
                (λ x.
                  x.mode ≡ parallel
                  → is_nil
                      (filter (λ (r : Requirement). not r.pass) (requirements units policy repo))
                    ≡ true)
                (λ entries. mode_means _) done mode))),
    )
