-- ===== src/Analysis/RepeatedFailures.antt =====
-- platform/analysis-engine/src/repeated-failed-action.ts and tool-call.ts. A streak key is the
-- triple of texts whose JSON array the code compares; `JSON.stringify` tells the arrays of three
-- strings apart. `occurredAt` is compared as the text that it is.
pub mod Streaks
pub mod Stretches
pub mod Detection
use lengentic.Base.{
  ℕ, ◌≡◌, ◌↔◌, refl, ap, sym, ◌∙◌, Bool, true, false, not, ◌&&◌, ◌||◌, Option, none, some, List, [],
  ◌∷◌, ◌++◌, map, leb, length, if◌then◌else◌, is_none, arith,
}
use lengentic.Base.Text.{Text, text_eq, text_eq_self, text_eq→eq, text_lt}
use lengentic.Base.Assoc.{Eq, text_eq_iff}
use lengentic.Base.Sort.{sort}
use lengentic.Base.Buckets.{group_by}
use lengentic.Base.Members.{collect}

pub data ToolCallOutcome : Type 0 where
  success failed : ToolCallOutcome

pub record ToolCallRecord : Type 0 where
  pub tool_call_id : Text
  pub run_id : Text
  pub tool_name : Text
  pub input_fingerprint : Text
  pub outcome : ToolCallOutcome
  pub error_type : Option Text
  pub occurred_at : Text

pub record RepeatedFailedAction : Type 0 where
  pub run_id : Text
  pub tool_name : Text
  pub input_fingerprint : Text
  pub attempt_count : ℕ
  pub tool_call_ids : List Text

abbrev pub min_consecutive_failures : ℕ
min_consecutive_failures = 3

abbrev pub is_failed : ToolCallOutcome → Bool
is_failed failed = true
is_failed success = false

unfoldable pub is_failed_attempt : ToolCallRecord → Bool
is_failed_attempt call = is_failed call.outcome || not (is_none call.error_type)

pub record StreakKey : Type 0 where
  pub run_id : Text
  pub tool_name : Text
  pub input_fingerprint : Text

abbrev pub streak_key : ToolCallRecord → StreakKey
streak_key call = record {
  run_id = call.run_id;
  tool_name = call.tool_name;
  input_fingerprint = call.input_fingerprint;
}

abbrev pub key_eq : StreakKey → StreakKey → Bool
key_eq a b =
    text_eq a.run_id b.run_id
    && (text_eq a.tool_name b.tool_name && text_eq a.input_fingerprint b.input_fingerprint)

pub key_eq_iff : (a b : StreakKey) → (key_eq a b ≡ true) ↔ (a ≡ b)
key_eq_iff a b = (
  λ e.
      let run : a.run_id ≡ b.run_id = text_eq→eq a.run_id b.run_id (ground arith) in
      let tool : a.tool_name ≡ b.tool_name = text_eq→eq a.tool_name b.tool_name (ground arith) in
      let print : a.input_fingerprint ≡ b.input_fingerprint =
        text_eq→eq a.input_fingerprint b.input_fingerprint (ground arith) in
      cc,
  λ e.
      ap (key_eq a) (sym e)
      ∙ ground (
        arith,
        text_eq_self a.run_id,
        text_eq_self a.tool_name,
        text_eq_self a.input_fingerprint,
      ),
)

instance abbrev pub streak_key_Eq : Eq StreakKey
streak_key_Eq = record { beq = key_eq; beq_iff = key_eq_iff }

abbrev pub action_of : ToolCallRecord → List ToolCallRecord → RepeatedFailedAction
action_of first streak = record {
  run_id = first.run_id;
  tool_name = first.tool_name;
  input_fingerprint = first.input_fingerprint;
  attempt_count = length streak;
  tool_call_ids = map (λ c. c.tool_call_id) streak;
}

-- What `flush` pushes.
unfoldable pub flushed : List ToolCallRecord → List RepeatedFailedAction
flushed [] = []
flushed (first ∷ later) =
    if leb min_consecutive_failures (length (first ∷ later))
    then action_of first (first ∷ later) ∷ []
    else []

-- The loop of `streaksIn` and its last `flush`, on the streak and the actions found so far.
unfoldable pub streaks_from :
    List ToolCallRecord
    → List ToolCallRecord
    → List RepeatedFailedAction
    → List RepeatedFailedAction
streaks_from [] streak found = found ++ flushed streak
streaks_from (call ∷ calls) streak found =
    let longer = streaks_from calls (streak ++ call ∷ []) found in
    let ended = streaks_from calls [] (found ++ flushed streak) in
    if is_failed_attempt call then longer else ended

unfoldable pub streaks_in : List ToolCallRecord → List RepeatedFailedAction
streaks_in ordered = streaks_from ordered [] []

-- The comparator of the sort answers "positive".
abbrev pub call_after : ToolCallRecord → ToolCallRecord → Bool
call_after a b = text_lt b.occurred_at a.occurred_at

unfoldable pub detect_repeated_failed_actions : List ToolCallRecord → List RepeatedFailedAction
detect_repeated_failed_actions calls =
    collect (λ bucket. streaks_in (sort call_after bucket)) (group_by streak_key calls [])
