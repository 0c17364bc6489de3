-- ===== src/Analysis/RepeatedFailures/Stretches.antt =====
-- A streak as a stretch of one key's calls, and the streaks that `streaksIn` finds.
use mathlib.Core.List.{Memᴰ, append_assoc}
use mathlib.Core.List.Memᴰ
use lengentic.Base.{
  ◌≡◌, ◌≤◌, ◌↔◌, refl, sym, ap, subst, true, List, [], ◌∷◌, ◌++◌, All, Bool-cases, inl, inr, leb,
  length, arith,
}
use lengentic.Analysis.RepeatedFailures.{
  ToolCallRecord, RepeatedFailedAction, is_failed_attempt, action_of, flushed, streaks_from,
  streaks_in,
}
use lengentic.Analysis.RepeatedFailures.Streaks.{
  HasFailed, HasSucceeded, HasSucceeded-attempt, IsFindingOf, Segment, IsSegment, joined, findings,
  streaks_from-failed, streaks_in-findings,
}

-- There are no calls, or the last one succeeded.
abbrev pub EndsInSuccess : List ToolCallRecord → Type 0
EndsInSuccess [] = Unit
EndsInSuccess (c ∷ []) = HasSucceeded c
EndsInSuccess (c ∷ d ∷ calls) = EndsInSuccess (d ∷ calls)

-- There are no calls, or the first one succeeded.
abbrev pub StartsInSuccess : List ToolCallRecord → Type 0
StartsInSuccess [] = Unit
StartsInSuccess (c ∷ calls) = HasSucceeded c

-- The action is the finding of a maximal stretch of at least three failed calls.
abbrev pub IsStreakOf : List ToolCallRecord → RepeatedFailedAction → Type 0
IsStreakOf calls action =
    (before : List ToolCallRecord) × (streak : List ToolCallRecord) × (after : List ToolCallRecord)
    × (calls ≡ before ++ (streak ++ after))
    × (EndsInSuccess before × All HasFailed streak × StartsInSuccess after)
    × ((3 ≤ length streak) × IsFindingOf streak action)

flushed-Memᴰ :
    (action : RepeatedFailedAction) (streak : List ToolCallRecord)
    → 3 ≤ length streak
    → IsFindingOf streak action
    → Memᴰ action (flushed streak)
unfolding flushed
flushed-Memᴰ action [] b i = absurd i
flushed-Memᴰ action (first ∷ later) b i =
    let full : leb 3 (length (first ∷ later)) ≡ true = ground arith in
    let same : action ≡ action_of first (first ∷ later) = cc in rw full (Memᴰ.head same)

Memᴰ-flushed :
    (action : RepeatedFailedAction) (streak : List ToolCallRecord)
    → Memᴰ action (flushed streak)
    → (3 ≤ length streak) × IsFindingOf streak action
unfolding flushed
Memᴰ-flushed action [] m = absurd (Memᴰ.not-nil m)
Memᴰ-flushed action (first ∷ later) m = elim (Bool-cases (leb 3 (length (first ∷ later)))) [
  | inl e ↦ (ground arith, found (rw e at m))
  | inr e ↦ absurd (Memᴰ.not-nil (rw e at m))
]
  where
    found : Memᴰ action (action_of first (first ∷ later) ∷ []) → IsFindingOf (first ∷ later) action
    found k = elim (Memᴰ.cases_cons k) [
      | inl e ↦ (
        ap (λ x. x.run_id) e,
        ap (λ x. x.tool_name) e,
        ap (λ x. x.input_fingerprint) e,
        ap (λ x. x.attempt_count) e,
        ap (λ x. x.tool_call_ids) e,
      )
      | inr t ↦ absurd (Memᴰ.not-nil t)
    ]

-- What is found stays found.
streaks_from-keeps :
    (action : RepeatedFailedAction) (calls streak : List ToolCallRecord)
    (found : List RepeatedFailedAction)
    → Memᴰ action found
    → Memᴰ action (streaks_from calls streak found)
unfolding streaks_from
streaks_from-keeps action [] streak found m = Memᴰ.append_left (flushed streak) m
streaks_from-keeps action (c ∷ calls) streak found m = elim (Bool-cases (is_failed_attempt c)) [
  | inl e ↦ rw e (streaks_from-keeps action calls (streak ++ c ∷ []) found m)
  | inr e ↦ rw e (
      streaks_from-keeps action calls [] (found ++ flushed streak)
        (Memᴰ.append_left (flushed streak) m))
]

-- After a success the loop has no streak.
streaks_from-passed :
    (c : ToolCallRecord) (before rest streak : List ToolCallRecord)
    (found : List RepeatedFailedAction)
    → EndsInSuccess (c ∷ before)
    → (more : List RepeatedFailedAction) × (streaks_from (c ∷ before ++ rest) streak found
        ≡ streaks_from rest [] more)
unfolding streaks_from
streaks_from-passed c [] rest streak found h =
    rw (HasSucceeded-attempt c h) (found ++ flushed streak, refl)
streaks_from-passed c (d ∷ before) rest streak found h = elim (Bool-cases (is_failed_attempt c)) [
  | inl e ↦ rw e (streaks_from-passed d before rest (streak ++ c ∷ []) found h)
  | inr e ↦ rw e (streaks_from-passed d before rest [] (found ++ flushed streak) h)
]

streaks_from-closed :
    (action : RepeatedFailedAction) (after streak : List ToolCallRecord)
    (found : List RepeatedFailedAction)
    → StartsInSuccess after
    → Memᴰ action (flushed streak)
    → Memᴰ action (streaks_from after streak found)
unfolding streaks_from
streaks_from-closed action [] streak found h m = Memᴰ.append_right found m
streaks_from-closed action (c ∷ after) streak found h m =
    rw (HasSucceeded-attempt c h)
      (streaks_from-keeps action after [] (found ++ flushed streak) (Memᴰ.append_right found m))

-- From the start of a stretch, with no streak, the loop finds it.
streaks_from-stretch :
    (action : RepeatedFailedAction) (streak after : List ToolCallRecord)
    (found : List RepeatedFailedAction)
    → All HasFailed streak
    → StartsInSuccess after
    → Memᴰ action (flushed streak)
    → Memᴰ action (streaks_from (streak ++ after) [] found)
streaks_from-stretch action streak after found h s m =
    subst (Memᴰ action) (sym (streaks_from-failed streak after [] found h))
      (streaks_from-closed action after streak found s m)

IsStreakOf-emitted :
    (action : RepeatedFailedAction) (calls : List ToolCallRecord)
    → IsStreakOf calls action
    → Memᴰ action (streaks_in calls)
unfolding streaks_in
IsStreakOf-emitted action calls ([], streak, after, e, (b, h, a), (n, i)) =
    subst (λ cs. Memᴰ action (streaks_from cs [] [])) (sym e)
      (streaks_from-stretch action streak after [] h a (flushed-Memᴰ action streak n i))
IsStreakOf-emitted action calls (c ∷ before, streak, after, e, (b, h, a), (n, i)) =
    let (more, passed) = streaks_from-passed c before (streak ++ after) [] [] b in
    subst (λ cs. Memᴰ action (streaks_from cs [] [])) (sym e)
      (subst (Memᴰ action) (sym passed)
        (streaks_from-stretch action streak after more h a (flushed-Memᴰ action streak n i)))

EndsInSuccess-append :
    (before : List ToolCallRecord) (c : ToolCallRecord)
    → HasSucceeded c
    → EndsInSuccess (before ++ c ∷ [])
EndsInSuccess-append [] c h = h
EndsInSuccess-append (d ∷ []) c h = h
EndsInSuccess-append (d ∷ x ∷ before) c h = EndsInSuccess-append (x ∷ before) c h

joined-StartsInSuccess :
    (segments : List Segment) → All IsSegment segments → StartsInSuccess (joined segments)
joined-StartsInSuccess [] h = tt
joined-StartsInSuccess (s ∷ segments) (p, h) = p.0

-- What is found of the segments is a streak of the calls, whatever ends in the first success.
findings-IsStreakOf :
    (action : RepeatedFailedAction) (before : List ToolCallRecord) (segments : List Segment)
    → All IsSegment segments
    → Memᴰ action (findings segments)
    → IsStreakOf (before ++ joined segments) action
findings-IsStreakOf action before [] h m = absurd (Memᴰ.not-nil m)
findings-IsStreakOf action before ((good, streak) ∷ segments) ((succeeded, bad), h) m =
    elim (Memᴰ.append_cases (flushed streak) m) [
      | inl k ↦ (
        before ++ good ∷ [],
        streak,
        joined segments,
        sym (append_assoc before (good ∷ []) (streak ++ joined segments)),
        (EndsInSuccess-append before good succeeded, bad, joined-StartsInSuccess segments h),
        Memᴰ-flushed action streak k,
      )
      | inr k ↦
          subst (λ cs. IsStreakOf cs action) (append_assoc before (good ∷ streak) (joined segments))
            (findings-IsStreakOf action (before ++ good ∷ streak) segments h k)
    ]

emitted-IsStreakOf :
    (action : RepeatedFailedAction) (calls : List ToolCallRecord)
    → Memᴰ action (streaks_in calls)
    → IsStreakOf calls action
emitted-IsStreakOf action calls m =
    let (first, segments, ((e, (bad, h)), found)) = streaks_in-findings calls in
    subst (λ cs. IsStreakOf cs action) (sym e)
      (elim (Memᴰ.append_cases (flushed first) (subst (Memᴰ action) found m)) [
        | inl k ↦ (
          [],
          first,
          joined segments,
          refl,
          (tt, bad, joined-StartsInSuccess segments h),
          Memᴰ-flushed action first k,
        )
        | inr k ↦ findings-IsStreakOf action first segments h k
      ])

-- The actions of one key's ordered calls are the findings of the maximal stretches.
pub streaks_in_iff :
    (action : RepeatedFailedAction) (calls : List ToolCallRecord)
    → Memᴰ action (streaks_in calls) ↔ IsStreakOf calls action
streaks_in_iff action calls = (emitted-IsStreakOf action calls, IsStreakOf-emitted action calls)
