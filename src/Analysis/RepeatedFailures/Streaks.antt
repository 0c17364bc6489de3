-- ===== src/Analysis/RepeatedFailures/Streaks.antt =====
-- The streaks that one key's calls fall into, and what `streaksIn` emits of each.
use mathlib.Core.Logic.{◌≢◌}
use mathlib.Core.Bool.{false≢true}
use mathlib.Core.Option.{none-ne-some}
use lengentic.Base.Text.{Text}
use mathlib.Core.List.{append_assoc, append-nil}
use lengentic.Base.{
  ◌≡◌, ◌≤◌, ◌<◌, ◌⊎◌, refl, sym, ap, subst, ◌∙◌, Option, not, ◌||◌, is_none, true, false, none,
  some, List, [], ◌∷◌, ◌++◌, map, All, Bool-cases, inl, inr, leb, length, arith,
}
use lengentic.Analysis.RepeatedFailures.{
  ToolCallOutcome, is_failed, success, failed, ToolCallRecord, RepeatedFailedAction,
  is_failed_attempt, action_of, flushed, streaks_from, streaks_in,
}

-- The call failed, or records an error.
abbrev pub HasFailed : ToolCallRecord → Type 0
HasFailed c = (c.outcome ≡ failed) ⊎ (c.error_type ≢ none)

abbrev pub HasSucceeded : ToolCallRecord → Type 0
HasSucceeded c = (c.outcome ≡ success) × (c.error_type ≡ none)

pub HasFailed-attempt : (c : ToolCallRecord) → HasFailed c → is_failed_attempt c ≡ true
unfolding is_failed_attempt
HasFailed-attempt c = by_fields c.outcome c.error_type
  where
    by_fields :
        (o : ToolCallOutcome) (e : Option Text)
        → (o ≡ failed) ⊎ (e ≢ none)
        → (is_failed o || not (is_none e)) ≡ true
    by_fields failed e h = refl
    by_fields success (some t) h = refl
    by_fields success none (inl q) = cc
    by_fields success none (inr q) = absurd (q refl)

attempt-HasFailed : (c : ToolCallRecord) → is_failed_attempt c ≡ true → HasFailed c
unfolding is_failed_attempt
attempt-HasFailed c = by_fields c.outcome c.error_type
  where
    by_fields :
        (o : ToolCallOutcome) (e : Option Text)
        → (is_failed o || not (is_none e)) ≡ true
        → (o ≡ failed) ⊎ (e ≢ none)
    by_fields failed e h = inl refl
    by_fields success (some t) h = inr (λ q. none-ne-some t (sym q))
    by_fields success none h = absurd (false≢true h)

pub HasSucceeded-attempt : (c : ToolCallRecord) → HasSucceeded c → is_failed_attempt c ≡ false
unfolding is_failed_attempt
HasSucceeded-attempt c (o, e) = rw (o, e) refl

attempt-HasSucceeded : (c : ToolCallRecord) → is_failed_attempt c ≡ false → HasSucceeded c
unfolding is_failed_attempt
attempt-HasSucceeded c = by_fields c.outcome c.error_type
  where
    by_fields :
        (o : ToolCallOutcome) (e : Option Text)
        → (is_failed o || not (is_none e)) ≡ false
        → (o ≡ success) × (e ≡ none)
    by_fields failed e h = absurd (false≢true (sym h))
    by_fields success (some t) h = absurd (false≢true (sym h))
    by_fields success none h = (refl, refl)

-- The action names the run, the tool and the fingerprint of the first call, and all the calls.
abbrev pub IsFindingOf : List ToolCallRecord → RepeatedFailedAction → Type 0
IsFindingOf [] action = ⊥
IsFindingOf (first ∷ later) action =
    (action.run_id ≡ first.run_id)
    × (action.tool_name ≡ first.tool_name)
    × (action.input_fingerprint ≡ first.input_fingerprint)
    × (action.attempt_count ≡ length (first ∷ later))
    × (action.tool_call_ids ≡ map (λ (c : ToolCallRecord). c.tool_call_id) (first ∷ later))

-- One action for at least three calls, and none for fewer.
abbrev pub Emits : List ToolCallRecord → List RepeatedFailedAction → Type 0
Emits streak found =
    ((3 ≤ length streak)
      × ((action : RepeatedFailedAction) × (found ≡ action ∷ []) × IsFindingOf streak action))
    ⊎ ((length streak < 3) × (found ≡ []))

flushed-Emits : (streak : List ToolCallRecord) → Emits streak (flushed streak)
unfolding flushed
flushed-Emits [] = inr (omega arith, refl)
flushed-Emits (first ∷ later) = elim (Bool-cases (leb 3 (length (first ∷ later)))) [
  | inl e ↦
      rw e (
        inl (ground arith, (action_of first (first ∷ later), refl, (refl, refl, refl, refl, refl))))
  | inr e ↦ rw e (inr (ground arith, refl))
]

-- A successful attempt and the failed ones after it, up to the next success.
abbrev pub Segment : Type 0
Segment = ToolCallRecord × List ToolCallRecord

abbrev pub IsSegment : Segment → Type 0
IsSegment s = HasSucceeded s.0 × All HasFailed s.1

abbrev pub joined : List Segment → List ToolCallRecord
joined [] = []
joined ((good, streak) ∷ segments) = good ∷ (streak ++ joined segments)

abbrev pub findings : List Segment → List RepeatedFailedAction
findings [] = []
findings ((good, streak) ∷ segments) = flushed streak ++ findings segments

-- What is emitted of the first stretch, then of each later one.
abbrev pub EmitsEach : List ToolCallRecord → List Segment → List RepeatedFailedAction → Type 0
EmitsEach first [] found = Emits first found
EmitsEach first ((good, streak) ∷ segments) found =
    (mine : List RepeatedFailedAction) × (rest : List RepeatedFailedAction) × (found ≡ mine ++ rest)
    × Emits first mine
    × EmitsEach streak segments rest

findings-EmitsEach :
    (first : List ToolCallRecord) (segments : List Segment)
    → EmitsEach first segments (flushed first ++ findings segments)
findings-EmitsEach first [] = subst (Emits first) (sym (append-nil _)) (flushed-Emits first)
findings-EmitsEach first ((good, streak) ∷ segments) =
    (flushed first, _, refl, flushed-Emits first, findings-EmitsEach streak segments)

pub streaks_from-failed :
    (more calls streak : List ToolCallRecord) (found : List RepeatedFailedAction)
    → All HasFailed more
    → streaks_from (more ++ calls) streak found ≡ streaks_from calls (streak ++ more) found
unfolding streaks_from
streaks_from-failed [] calls streak found h =
    ap (λ s. streaks_from calls s found) (sym (append-nil streak))
streaks_from-failed (c ∷ more) calls streak found (bad, h) = rw (HasFailed-attempt c bad) (
    streaks_from-failed more calls (streak ++ c ∷ []) found h
    ∙ ap (λ s. streaks_from calls s found) (append_assoc streak (c ∷ []) more))

streaks_from-joined :
    (segments : List Segment) (streak : List ToolCallRecord) (found : List RepeatedFailedAction)
    → All IsSegment segments
    → streaks_from (joined segments) streak found ≡ found ++ (flushed streak ++ findings segments)
unfolding streaks_from
streaks_from-joined [] streak found h = simp append-nil
streaks_from-joined ((good, later) ∷ segments) streak found ((succeeded, bad), h) =
    rw (HasSucceeded-attempt good succeeded) (
      streaks_from-failed later (joined segments) [] (found ++ flushed streak) bad
      ∙ streaks_from-joined segments later (found ++ flushed streak) h
      ∙ append_assoc found (flushed streak) (flushed later ++ findings segments))

-- Every list of calls falls into failed ones, and then successes with failed ones after each.
abbrev pub Splits : List ToolCallRecord → List ToolCallRecord → List Segment → Type 0
Splits calls first segments =
    (calls ≡ first ++ joined segments) × (All HasFailed first × All IsSegment segments)

split :
    (calls : List ToolCallRecord)
    → (first : List ToolCallRecord) × (segments : List Segment) × Splits calls first segments
split [] = ([], [], (refl, (tt, tt)))
split (c ∷ calls) =
    let (first, segments, (e, (bads, h))) = split calls in
    elim (Bool-cases (is_failed_attempt c)) [
      | inl bad ↦ (c ∷ first, segments, (ap (λ cs. c ∷ cs) e, ((attempt-HasFailed c bad, bads), h)))
      | inr good ↦
          let succeeded = attempt-HasSucceeded c good in
          ([], (c, first) ∷ segments, (ap (λ cs. c ∷ cs) e, (tt, ((succeeded, bads), h))))
    ]

-- The same, with what the loop returns.
pub streaks_in-findings :
    (calls : List ToolCallRecord)
    → (first : List ToolCallRecord) × (segments : List Segment) × (Splits calls first segments
        × (streaks_in calls ≡ flushed first ++ findings segments))
unfolding streaks_in
streaks_in-findings calls =
    let (first, segments, (e, (bads, h))) = split calls in
    let emitted : streaks_from (first ++ joined segments) [] []
        ≡ flushed first ++ findings segments =
      streaks_from-failed first (joined segments) [] [] bads
      ∙ streaks_from-joined segments first [] h in
    (first, segments, ((e, (bads, h)), ap (λ cs. streaks_from cs [] []) e ∙ emitted))

-- The calls of one key, in order, split at their successful attempts (outcome SUCCESS and no
-- error) into stretches of calls that failed or record an error. In the order of the stretches,
-- `streaksIn` emits for each of at least three calls exactly one action, with the run, the tool
-- and the fingerprint of its first call, its length and the ids of all its calls, and for each
-- shorter one nothing.
pub streaks_in-Splits :
    (calls : List ToolCallRecord)
    → (first : List ToolCallRecord) × (segments : List Segment) × (Splits calls first segments
        × EmitsEach first segments (streaks_in calls))
streaks_in-Splits calls =
    let (first, segments, (s, e)) = streaks_in-findings calls in
    (
      first,
      segments,
      (s, subst (EmitsEach first segments) (sym e) (findings-EmitsEach first segments)),
    )
