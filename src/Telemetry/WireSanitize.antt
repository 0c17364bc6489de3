-- ===== src/Telemetry/WireSanitize.antt =====
-- platform/api/src/telemetry/wire-sanitize.ts: the screens for what Postgres cannot store and for
-- what a recursive walk could not survive. The field tables are those of the source; the
-- breadth-first loop counts down from the allowed depth where the code counts up to it.
pub mod Depth
pub mod Unicode
use lengentic.Base.{
  ℕ, zero, suc, ◌+◌, ◌*◌, Bool, true, false, ◌&&◌, ◌||◌, Option, none, some, List, [], ◌∷◌, ◌++◌,
  ltb, leb, ◌==◌, if◌then◌else◌,
}
use lengentic.Base.Text.{Text, text}
use lengentic.Base.Assoc.{lookup, text_Eq}
use lengentic.Base.Date.{date_parse}
use lengentic.Telemetry.Json.{
  Number, Json, null, boolean, number, string, array, object, Items, no_items, item, Members,
  no_members, member, items, entries, values,
}

abbrev pub is_high : ℕ → Bool
is_high c = leb 55296 c && leb c 56319

abbrev pub is_low : ℕ → Bool
is_low c = leb 56320 c && leb c 57343

-- At the end of the text `charCodeAt` gives NaN, which is no low surrogate.
unfoldable pub has_nul_or_lone_surrogate : Text → Bool
has_nul_or_lone_surrogate [] = false
has_nul_or_lone_surrogate (c ∷ []) = (c == 0) || (is_high c || is_low c)
has_nul_or_lone_surrogate (c ∷ d ∷ rest) =
    let after_pair = has_nul_or_lone_surrogate rest in
    let after_one = has_nul_or_lone_surrogate (d ∷ rest) in
    if c == 0
    then true
    else if is_high c
    then (if is_low d then after_pair else true)
    else if is_low c
    then true
    else after_one

unfoldable mutual
  pub contains_unsafe_unicode : Json → Bool
  contains_unsafe_unicode (string s) = has_nul_or_lone_surrogate s
  contains_unsafe_unicode (array vs) = some_unsafe_item vs
  contains_unsafe_unicode (object ms) = some_unsafe_member ms
  contains_unsafe_unicode null = false
  contains_unsafe_unicode (boolean _) = false
  contains_unsafe_unicode (number _) = false

  pub some_unsafe_item : Items → Bool
  some_unsafe_item no_items = false
  some_unsafe_item (item v vs) = contains_unsafe_unicode v || some_unsafe_item vs

  pub some_unsafe_member : Members → Bool
  some_unsafe_member no_members = false
  some_unsafe_member (member k v ms) =
      (has_nul_or_lone_surrogate k || contains_unsafe_unicode v) || some_unsafe_member ms

-- The year of an instant of `date_parse` is at most 0: it lies before 0001-01-01.
abbrev pub before_year_one : Option ℕ → Bool
before_year_one none = false
before_year_one (some ms) = ltb ms (172800000 + 366 * 86400000)

unfoldable pub is_postgres_unrepresentable_timestamp : Text → Bool
is_postgres_unrepresentable_timestamp occurred_at = before_year_one (date_parse occurred_at)

abbrev pub max_structural_depth : ℕ
max_structural_depth = 64

-- What the body of the inner loop pushes for one value.
abbrev pub children : Json → List Json
children (array vs) = items vs
children (object ms) = values ms
children _ = []

abbrev pub next_frontier : List Json → List Json
next_frontier [] = []
next_frontier (v ∷ vs) = children v ++ next_frontier vs

-- The outer loop, with `maxDepth + 1 - depth` rounds left.
unfoldable pub exceeds_within : ℕ → List Json → Bool
exceeds_within rounds [] = false
exceeds_within zero (v ∷ vs) = true
exceeds_within (suc rounds) (v ∷ vs) = exceeds_within rounds (next_frontier (v ∷ vs))

unfoldable pub exceeds_max_structural_depth : Json → ℕ → Bool
exceeds_max_structural_depth value max_depth = exceeds_within (suc max_depth) (value ∷ [])

abbrev pub postgres_int4_max : ℕ
postgres_int4_max = 2147483647

unfoldable pub exceeds_postgres_int4 : Number → Bool
exceeds_postgres_int4 n =
    if n.negative
    then ltb (suc postgres_int4_max * suc n.den) n.num
    else ltb (postgres_int4_max * suc n.den) n.num

pub data TelemetryEventType : Type 0 where
  run_started run_completed step_started step_completed decision_recorded : TelemetryEventType
  decision_outcome_attested model_call_recorded tool_call_recorded error_recorded :
      TelemetryEventType

abbrev pub persisted_payload_timestamp_fields : TelemetryEventType → List Text
persisted_payload_timestamp_fields decision_outcome_attested = text "observedAt" ∷ []
persisted_payload_timestamp_fields tool_call_recorded = text "startedAt" ∷ text "completedAt" ∷ []
persisted_payload_timestamp_fields _ = []

abbrev pub persisted_payload_int4_fields : TelemetryEventType → List Text
persisted_payload_int4_fields model_call_recorded =
    text "latencyMs" ∷ text "inputTokens" ∷ text "outputTokens" ∷ []
persisted_payload_int4_fields tool_call_recorded =
    text "inputBytes" ∷ text "outputBytes" ∷ text "durationMs" ∷ []
persisted_payload_int4_fields _ = []

pub data PayloadReason : Type 0 where
  year_zero beyond_int4 : Text → PayloadReason

abbrev pub is_bad_timestamp : Option Json → Bool
is_bad_timestamp (some (string s)) = is_postgres_unrepresentable_timestamp s
is_bad_timestamp _ = false

abbrev pub is_bad_number : Option Json → Bool
is_bad_number (some (number n)) = exceeds_postgres_int4 n
is_bad_number _ = false

-- The loop over one table.
abbrev pub first_bad :
    (Option Json → Bool)
    → (Text → PayloadReason)
    → List (Text × Json)
    → List Text
    → Option PayloadReason
first_bad is_bad reason fields [] = none
first_bad is_bad reason fields (f ∷ fs) =
    if is_bad (lookup f fields) then some (reason f) else first_bad is_bad reason fields fs

unfoldable pub unrepresentable_payload_reason : TelemetryEventType → Members → Option PayloadReason
unrepresentable_payload_reason type payload =
    let fields = entries payload in
    elim (first_bad is_bad_timestamp year_zero fields (persisted_payload_timestamp_fields type)) [
      | some reason ↦ some reason
      | none ↦ first_bad is_bad_number beyond_int4 fields (persisted_payload_int4_fields type)
    ]
