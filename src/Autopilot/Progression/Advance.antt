-- ===== src/Autopilot/Progression/Advance.antt =====
-- When a gate may be recorded.
use mathlib.Core.List.{append-nil, append_assoc}
use lengentic.Base.{
  All, ◌≡◌, refl, ap, ◌∙◌, ◌↔◌, inl, inr, Bool, true, false, Option, none, some, List, [], ◌∷◌,
  ◌++◌, arith, any, ◌||◌, ◌&&◌, not, Bool-cases,
}
use lengentic.Base.Text.{Text, text_eq, text_eq→eq, text_eq_self}
use lengentic.Autopilot.Progression.{
  SourceVerdict, green, red, unknown, Source, SourceName, Sources, phase_sources, wave_sources,
  Blocker, Gate, phase, wave, advance_phase, record_wave, blockers_of, blockers_by, evidence_of,
  judge_from, decision_of, is_empty, judge, phase_verdict, wave_verdict, distinct_from,
}

-- Measured, GREEN, and with a path to its proof.
abbrev pub IsGreen : SourceVerdict → List Text → Type 0
IsGreen green [] = ⊥
IsGreen green (_ ∷ _) = Unit
IsGreen _ _ = ⊥

abbrev pub IsProven : Option Source → Type 0
IsProven none = ⊥
IsProven (some s) = IsGreen s.verdict s.evidence

-- What the sources contribute one after another.
all_blockers : Sources → List SourceName → List Blocker
all_blockers sources [] = []
all_blockers sources (n ∷ ns) = blockers_of n (sources n) ++ all_blockers sources ns

all_evidence : Sources → List SourceName → List Text
all_evidence sources [] = []
all_evidence sources (n ∷ ns) = evidence_of (sources n) ++ all_evidence sources ns

judge_from-all :
    (sources : Sources) (ns : List SourceName) (bs : List Blocker) (es : List Text)
    → judge_from sources ns (bs, es)
      ≡ (bs ++ all_blockers sources ns, es ++ all_evidence sources ns)
unfolding judge_from all_blockers all_evidence
judge_from-all sources [] bs es = simp append-nil
judge_from-all sources (n ∷ ns) bs es = simp (judge_from-all sources ns, append_assoc)

by-IsGreen :
    (n : SourceName) (v : SourceVerdict) (from : Text) (paths : List Text)
    → (blockers_by n v from paths ≡ []) ↔ IsGreen v paths
by-IsGreen n green from [] = (λ e. cc, λ h. absurd h)
by-IsGreen n green from (p ∷ ps) = (λ e. tt, λ h. refl)
by-IsGreen n red from ps = (λ e. cc, λ h. absurd h)
by-IsGreen n unknown from ps = (λ e. cc, λ h. absurd h)

blockers_of-IsProven : (n : SourceName) (s : Option Source) → (blockers_of n s ≡ []) ↔ IsProven s
blockers_of-IsProven n none = (λ e. cc, λ h. absurd h)
blockers_of-IsProven n (some s) = by-IsGreen n s.verdict s.derived_from s.evidence

append-eq_nil {ℓ} : {A : Type ℓ} (xs ys : List A) → xs ++ ys ≡ [] → (xs ≡ []) × (ys ≡ [])
append-eq_nil [] ys e = (refl, e)
append-eq_nil (x ∷ xs) ys e = cc

all_blockers-IsProven :
    (sources : Sources) (ns : List SourceName)
    → (all_blockers sources ns ≡ []) ↔ All (λ n. IsProven (sources n)) ns
unfolding all_blockers
all_blockers-IsProven sources [] = (λ e. tt, λ h. refl)
all_blockers-IsProven sources (n ∷ ns) =
    let here = blockers_of-IsProven n (sources n) in
    let later = all_blockers-IsProven sources ns in
    (
      λ e. let (a, b) = append-eq_nil _ _ e in (here.0 a, later.0 b),
      λ h. rw (here.1 h.0) (later.1 h.1),
    )

is_empty_iff : (bs : List Blocker) → (is_empty bs ≡ true) ↔ (bs ≡ [])
is_empty_iff [] = (λ e. refl, λ e. refl)
is_empty_iff (b ∷ bs) = (λ e. cc, λ e. cc)

judge-all :
    (gate : Gate) (ns : List SourceName) (sources : Sources)
    → judge gate ns sources ≡ record {
      verdict = decision_of (is_empty (all_blockers sources ns)) gate;
      gate = gate;
      green = is_empty (all_blockers sources ns);
      blockers = all_blockers sources ns;
      evidence = distinct_from [] (all_evidence sources ns);
    }
unfolding judge
judge-all gate ns sources = rw (judge_from-all sources ns [] [])

is_empty-IsProven :
    (sources : Sources) (ns : List SourceName)
    → (is_empty (all_blockers sources ns) ≡ true) ↔ All (λ n. IsProven (sources n)) ns
is_empty-IsProven sources ns =
    let empty = is_empty_iff (all_blockers sources ns) in
    let proven = all_blockers-IsProven sources ns in
    (λ e. proven.0 (empty.0 e), λ h. empty.1 (proven.1 h))

advance_iff : (b : Bool) → (decision_of b phase ≡ advance_phase) ↔ (b ≡ true)
advance_iff true = (λ e. refl, λ e. refl)
advance_iff false = (λ e. cc, λ e. cc)

record_iff : (b : Bool) → (decision_of b wave ≡ record_wave) ↔ (b ≡ true)
record_iff true = (λ e. refl, λ e. refl)
record_iff false = (λ e. cc, λ e. cc)

-- A phase advances exactly when each of its five sources was measured, is GREEN and cites
-- evidence; a wave is recorded exactly when each of its four does.
pub verdict_iff :
    (sources : Sources)
    → (((phase_verdict sources).verdict ≡ advance_phase)
        ↔ All (λ n. IsProven (sources n)) phase_sources)
      × (((wave_verdict sources).verdict ≡ record_wave)
          ↔ All (λ n. IsProven (sources n)) wave_sources)
unfolding phase_verdict wave_verdict
verdict_iff sources =
    let p = is_empty-IsProven sources phase_sources in
    let w = is_empty-IsProven sources wave_sources in
    let a = advance_iff (is_empty (all_blockers sources phase_sources)) in
    let r = record_iff (is_empty (all_blockers sources wave_sources)) in
    (
      rw (judge-all phase phase_sources sources) (λ e. p.0 (a.0 e), λ h. a.1 (p.1 h)),
      rw (judge-all wave wave_sources sources) (λ e. w.0 (r.0 e), λ h. r.1 (w.1 h)),
    )

abbrev pub cites : Text → List Text → Bool
cites t ts = any (text_eq t) ts

cites-append : (t : Text) (xs ys : List Text) → cites t (xs ++ ys) ≡ (cites t xs || cites t ys)
cites-append t [] ys = refl
cites-append t (x ∷ xs) ys = ground (arith, cites-append t xs ys)

cites-distinct_from :
    (t : Text) (seen xs : List Text)
    → cites t (distinct_from seen xs) ≡ (cites t xs && not (cites t seen))
unfolding distinct_from
cites-distinct_from t seen [] = refl
cites-distinct_from t seen (x ∷ xs) = elim (Bool-cases (text_eq t x)) [
  | inl same ↦ rw (text_eq→eq t x same) (
      ground
        (arith, text_eq_self x, cites-distinct_from x (x ∷ seen) xs, cites-distinct_from x seen xs))
  | inr other ↦ ground (arith, cites-distinct_from t (x ∷ seen) xs, cites-distinct_from t seen xs)
]

cites-all_evidence :
    (t : Text) (sources : Sources) (ns : List SourceName)
    → cites t (all_evidence sources ns) ≡ any (λ n. cites t (evidence_of (sources n))) ns
unfolding all_evidence
cites-all_evidence t sources [] = refl
cites-all_evidence t sources (n ∷ ns) =
    cites-append t (evidence_of (sources n)) (all_evidence sources ns)
    ∙ ap (λ b. cites t (evidence_of (sources n)) || b) (cites-all_evidence t sources ns)

-- A path stands in a verdict's evidence exactly when a required GREEN source cites it.
judge-evidence :
    (gate : Gate) (ns : List SourceName) (sources : Sources) (t : Text)
    → cites t (judge gate ns sources).evidence ≡ any (λ n. cites t (evidence_of (sources n))) ns
judge-evidence gate ns sources t = rw (judge-all gate ns sources) (
    cites-distinct_from t [] (all_evidence sources ns)
    ∙ ground (arith, cites-all_evidence t sources ns))
