-- ===== src/Analysis/RepeatedFailures/Detection.antt =====
-- What is detected over all the calls, key by key.
use mathlib.Core.List.{Memᴰ}
use mathlib.Core.List.Memᴰ
use lengentic.Base.{
  ◌&&◌, ◌≡◌, sym, ap, subst, ◌∙◌, ◌↔◌, none, some, List, [], filter, Option-cases, or_else, inl,
  inr,
}
use lengentic.Base.Assoc.{lookup}
use lengentic.Base.Sort.{sort}
use lengentic.Base.Text.{Text, text_eq, text_lt}
use lengentic.Analysis.RepeatedFailures.Stretches.{IsStreakOf, streaks_in_iff}
use lengentic.Base.Buckets.{group_by, group_by-HasDistinctKeys, lookup-group_by, All-entries}
use lengentic.Base.Members.{Memᴰ-collect, collect-Memᴰ}
use lengentic.Analysis.RepeatedFailures.{
  ToolCallRecord, RepeatedFailedAction, StreakKey, key_eq, streak_key, streak_key_Eq, call_after,
  streaks_in, streaks_from, flushed, detect_repeated_failed_actions,
}

-- The calls of one run, tool and fingerprint, in order of `occurredAt`.
abbrev pub ordered_calls : Text → Text → Text → List ToolCallRecord → List ToolCallRecord
ordered_calls run tool print calls =
    sort (λ a b. text_lt b.occurred_at a.occurred_at)
      (filter
        (λ c.
          text_eq c.run_id run && (text_eq c.tool_name tool && text_eq c.input_fingerprint print))
        calls)

-- The same by its key, as the code computes it.
subsequence : StreakKey → List ToolCallRecord → List ToolCallRecord
subsequence k calls = sort call_after (filter (λ c. key_eq (streak_key c) k) calls)

abbrev streaks_of : List ToolCallRecord → List RepeatedFailedAction
streaks_of bucket = streaks_in (sort call_after bucket)

bucket-filter :
    (calls : List ToolCallRecord) (k : StreakKey) (b : List ToolCallRecord)
    → lookup k (group_by streak_key calls []) ≡ some b
    → b ≡ filter (λ c. key_eq (streak_key c) k) calls
unfolding lookup
bucket-filter calls k b found =
    sym (ap (λ o. or_else o []) found) ∙ lookup-group_by streak_key k calls []

module _ (calls : List ToolCallRecord) (action : RepeatedFailedAction) where
  emitted-subsequence :
      Memᴰ action (detect_repeated_failed_actions calls)
      → (k : StreakKey) × Memᴰ action (streaks_in (subsequence k calls))
  unfolding detect_repeated_failed_actions subsequence
  emitted-subsequence h =
      let buckets = group_by streak_key calls [] in
      let are_filters =
        All-entries (λ k b. b ≡ filter (λ c. key_eq (streak_key c) k) calls) buckets
          (group_by-HasDistinctKeys streak_key calls [] tt) (bucket-filter calls) in
      let (k, b, e, i) = collect-Memᴰ streaks_of _ action buckets are_filters h in
      (k, subst (λ bucket. Memᴰ action (streaks_of bucket)) e i)

  -- A key that has a streak has a bucket.
  streak-bucket :
      (k : StreakKey)
      → Memᴰ action (streaks_in (subsequence k calls))
      → lookup k (group_by streak_key calls []) ≡ none
      → ⊥
  unfolding streaks_in streaks_from flushed sort lookup subsequence
  streak-bucket k h missing =
      let empty : [] ≡ filter (λ c. key_eq (streak_key c) k) calls =
        sym (ap (λ o. or_else o []) missing) ∙ lookup-group_by streak_key k calls [] in
      Memᴰ.not-nil (subst (λ bucket. Memᴰ action (streaks_of bucket)) (sym empty) h)

  subsequence-emitted :
      (k : StreakKey)
      → Memᴰ action (streaks_in (subsequence k calls))
      → Memᴰ action (detect_repeated_failed_actions calls)
  unfolding detect_repeated_failed_actions subsequence
  subsequence-emitted k h = elim (Option-cases (lookup k (group_by streak_key calls []))) [
    | inl missing ↦ absurd (streak-bucket k h missing)
    | inr (b, found) ↦
        Memᴰ-collect streaks_of action k b (group_by streak_key calls []) found (
          subst (λ bucket. Memᴰ action (streaks_of bucket)) (sym (bucket-filter calls k b found)) h)
  ]

-- The run, the tool and the fingerprint of a streak.
abbrev pub IsStreakAmong : List ToolCallRecord → RepeatedFailedAction → Type 0
IsStreakAmong calls action =
    (run : Text) × (tool : Text) × (print : Text) × IsStreakOf (ordered_calls run tool print calls)
      action

-- An action is emitted exactly when, for some run, tool and fingerprint, the calls with these
-- three, in order of `occurredAt` and whatever other calls fall between them, have a stretch of at
-- least three calls, each of which failed or records an error, with a success or no call before it
-- and after it, and the action has the run, the tool and the fingerprint of the stretch, its
-- length, and the ids of all its calls in order.
pub detect_iff :
    (calls : List ToolCallRecord) (action : RepeatedFailedAction)
    → Memᴰ action (detect_repeated_failed_actions calls) ↔ IsStreakAmong calls action
unfolding subsequence
detect_iff calls action = (
  λ m.
      let (k, found) = emitted-subsequence calls action m in
      (
        k.run_id,
        k.tool_name,
        k.input_fingerprint,
        (streaks_in_iff action (subsequence k calls)).0 found,
      ),
  λ (run, tool, print, h).
      let k : StreakKey = record { run_id = run; tool_name = tool; input_fingerprint = print } in
      subsequence-emitted calls action k ((streaks_in_iff action (subsequence k calls)).1 h),
)
