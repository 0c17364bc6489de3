-- ===== src/TelemetrySdk/PayloadSafety.antt =====
-- platform/telemetry-sdk/src/payload-safety.ts: how a field that is too large is cut. The values are
-- those that sanitizing leaves, `undefined` apart; a finite number stands as the text that
-- `JSON.stringify` writes for it.
pub mod Bounds
use lengentic.Base.{
  ℕ, zero, suc, ◌+◌, ◌-◌, ◌*◌, ◌/◌, ◌%◌, Bool, true, false, ◌&&◌, ◌||◌, List, [], ◌∷◌, ◌++◌, length,
  if◌then◌else◌, ltb, leb, ◌==◌, min,
}
use lengentic.Base.Text.{Text, text, text_eq}

mutual
  pub data Sanitized : Type 0 where
    null : Sanitized
    boolean : Bool → Sanitized
    number : Text → Sanitized
    string : Text → Sanitized
    array : Values → Sanitized
    object : Entries → Sanitized

  pub data Values : Type 0 where
    no_values : Values
    value : Sanitized → Values → Values

  pub data Entries : Type 0 where
    no_entries : Entries
    field : Text → Sanitized → Entries → Entries

abbrev pub is_high_surrogate : ℕ → Bool
is_high_surrogate c = leb 55296 c && leb c 56319

abbrev pub is_low_surrogate : ℕ → Bool
is_low_surrogate c = leb 56320 c && leb c 57343

abbrev hex_digit : ℕ → ℕ
hex_digit d = if ltb d 10 then 48 + d else 87 + d

abbrev unicode_escape : ℕ → Text
unicode_escape c =
    92
    ∷ 117
    ∷ hex_digit (c / 4096)
    ∷ hex_digit (c / 256 % 16)
    ∷ hex_digit (c / 16 % 16)
    ∷ hex_digit (c % 16)
    ∷ []

-- A unit that is no half of a pair, in a JSON string.
abbrev escape_unit : ℕ → Text
escape_unit c =
    if c == 34
    then 92 ∷ 34 ∷ []
    else if c == 92
    then 92 ∷ 92 ∷ []
    else if c == 8
    then 92 ∷ 98 ∷ []
    else if c == 9
    then 92 ∷ 116 ∷ []
    else if c == 10
    then 92 ∷ 110 ∷ []
    else if c == 12
    then 92 ∷ 102 ∷ []
    else if c == 13
    then 92 ∷ 114 ∷ []
    else if ltb c 32 || (is_high_surrogate c || is_low_surrogate c)
    then unicode_escape c
    else c ∷ []

unfoldable pub escape : Text → Text
escape [] = []
escape (c ∷ []) = escape_unit c
escape (c ∷ d ∷ rest) =
    let after_pair = escape rest in
    let after_one = escape (d ∷ rest) in
    if is_high_surrogate c && is_low_surrogate d
    then c ∷ d ∷ after_pair
    else escape_unit c ++ after_one

abbrev pub string_json : Text → Text
unfolding escape
string_json t = 34 ∷ escape t ++ 34 ∷ []

unfoldable mutual
  unfolding escape

  -- `JSON.stringify`.
  pub stringify : Sanitized → Text
  stringify null = text "null"
  stringify (boolean true) = text "true"
  stringify (boolean false) = text "false"
  stringify (number t) = t
  stringify (string t) = string_json t
  stringify (array vs) = text "[" ++ stringify_values vs ++ text "]"
  stringify (object fs) = text "{" ++ stringify_fields fs ++ text "}"

  pub stringify_values : Values → Text
  stringify_values no_values = []
  stringify_values (value v no_values) = stringify v
  stringify_values (value v (value w vs)) = stringify v ++ text "," ++ stringify_values (value w vs)

  pub stringify_fields : Entries → Text
  stringify_fields no_entries = []
  stringify_fields (field k v no_entries) = string_json k ++ text ":" ++ stringify v
  stringify_fields (field k v (field l w fs)) =
      string_json k ++ text ":" ++ stringify v ++ text "," ++ stringify_fields (field l w fs)

-- The UTF-8 bytes of a unit that is no half of a pair.
abbrev unit_bytes : ℕ → ℕ
unit_bytes c = if ltb c 128 then 1 else if ltb c 2048 then 2 else 3

-- `TextEncoder.encode(t).length`.
unfoldable pub utf8_length : Text → ℕ
utf8_length [] = 0
utf8_length (c ∷ []) = unit_bytes c
utf8_length (c ∷ d ∷ rest) =
    let after_pair = utf8_length rest in
    let after_one = utf8_length (d ∷ rest) in
    if is_high_surrogate c && is_low_surrogate d then 4 + after_pair else unit_bytes c + after_one

unfoldable pub json_bytes : Sanitized → ℕ
unfolding utf8_length stringify
json_bytes v = utf8_length (stringify v)

abbrev pub truncation_suffix : Text
truncation_suffix = 8230 ∷ text "[truncated]"

abbrev pub truncation_key : Text
truncation_key = text "__lengenticTruncated"

abbrev pub first_units : ℕ → Text → Text
first_units zero t = []
first_units (suc n) [] = []
first_units (suc n) (c ∷ t) = c ∷ first_units n t

-- A text without the half of a pair at its end.
unfoldable pub whole_pairs : Text → Text
whole_pairs [] = []
whole_pairs (c ∷ []) = if is_high_surrogate c then [] else c ∷ []
whole_pairs (c ∷ d ∷ t) = c ∷ whole_pairs (d ∷ t)

unfoldable pub prefix_of : Text → ℕ → Text
unfolding whole_pairs
prefix_of t n = whole_pairs (first_units n t)

abbrev pub marked : Text → ℕ → Text
unfolding prefix_of
marked t n = prefix_of t n ++ truncation_suffix

unfoldable pub fits : Text → ℕ → ℕ → Bool
unfolding prefix_of json_bytes
fits t budget n = leb (json_bytes (string (marked t n))) budget

-- The loop `while (low < high)`, of at most so many rounds.
unfoldable pub search : (ℕ → Bool) → ℕ → ℕ → ℕ → ℕ
search ok zero low high = low
search ok (suc n) low high =
    let mid = (low + high + 1) / 2 in
    let above = search ok n mid high in
    let below = search ok n low (mid - 1) in
    if ltb low high then (if ok mid then above else below) else low

unfoldable pub kept_length : Text → ℕ → ℕ
unfolding search fits
kept_length t budget = let high = min (length t) budget in search (fits t budget) high 0 high

unfoldable pub truncate_string : Text → ℕ → Text
unfolding kept_length prefix_of
truncate_string t budget = marked t (kept_length t budget)

abbrev digits : ℕ → ℕ → Text → Text
digits zero n rest = rest
digits (suc k) n rest =
    let more = digits k (n / 10) ((48 + n % 10) ∷ rest) in
    if ltb n 10 then (48 + n) ∷ rest else more

unfoldable pub more_mark : ℕ → Text → Text
more_mark count noun =
    text "[truncated: " ++ digits (suc count) count [] ++ text " more " ++ noun ++ text "(s)]"

abbrev set_field : Text → Sanitized → Entries → Entries
unfolding text_eq
set_field k v no_entries = field k v no_entries
set_field k v (field l w fs) = if text_eq l k then field l v fs else field l w (set_field k v fs)

abbrev count_values : Values → ℕ
count_values no_values = 0
count_values (value v vs) = suc (count_values vs)

abbrev mark_values : ℕ → Values
unfolding more_mark
mark_values n = value (string (more_mark n (text "item"))) no_values

unfoldable mutual
  unfolding json_bytes truncate_string more_mark text_eq

  pub shrink : Sanitized → ℕ → Sanitized
  shrink null budget =
      if leb (json_bytes null) budget
      then null
      else string (truncate_string (stringify null) budget)
  shrink (boolean b) budget =
      if leb (json_bytes (boolean b)) budget
      then boolean b
      else string (truncate_string (stringify (boolean b)) budget)
  shrink (number t) budget =
      if leb (json_bytes (number t)) budget
      then number t
      else string (truncate_string (stringify (number t)) budget)
  shrink (string t) budget =
      if leb (json_bytes (string t)) budget then string t else string (truncate_string t budget)
  shrink (array vs) budget =
      let total = count_values vs in
      let reserve = json_bytes (string (more_mark total (text "item"))) + 1 in
      if leb (json_bytes (array vs)) budget
      then array vs
      else array (shrink_list vs budget reserve total 2 0)
  shrink (object fs) budget =
      let reserve = json_bytes (string truncation_key) + 6 in
      if leb (json_bytes (object fs)) budget
      then object fs
      else object (shrink_record fs budget reserve 2 0 no_entries)

  -- The loop over the items, then the mark: `used` bytes and `count` items so far.
  pub shrink_list : Values → ℕ → ℕ → ℕ → ℕ → ℕ → Values
  shrink_list no_values budget reserve total used count = mark_values (total - count)
  shrink_list (value v vs) budget reserve total used count =
      let piece = shrink v (budget - used - reserve) in
      let cost = json_bytes piece + (if ltb 0 count then 1 else 0) in
      let rest = shrink_list vs budget reserve total (used + cost) (suc count) in
      if ltb budget (used + cost + reserve) then mark_values (total - count) else value piece rest

  -- The loop over the entries, then the key that marks the cut.
  pub shrink_record : Entries → ℕ → ℕ → ℕ → ℕ → Entries → Entries
  shrink_record no_entries budget reserve used count out =
      set_field truncation_key (boolean true) out
  shrink_record (field k v fs) budget reserve used count out =
      let piece = shrink v (budget - used - reserve) in
      let cost = json_bytes (string k) + 1 + json_bytes piece + (if ltb 0 count then 1 else 0) in
      let rest =
        shrink_record fs budget reserve (used + cost) (suc count) (set_field k piece out) in
      if ltb budget (used + cost + reserve)
      then set_field truncation_key (boolean true) out
      else rest

unfoldable pub hard_preview : Sanitized → ℕ → Sanitized
unfolding stringify truncate_string
hard_preview (object fs) max_bytes = object (field truncation_key (boolean true) no_entries)
hard_preview v max_bytes = string (truncate_string (stringify v) max_bytes)

pub record CappedField : Type 0 where
  pub value : Sanitized
  pub truncated : Bool
  pub bytes : ℕ
  pub original_bytes : ℕ

unfoldable pub cap_field : Sanitized → ℕ → Bool → CappedField
unfolding json_bytes shrink hard_preview
cap_field v max_bytes elided =
    let original = json_bytes v in
    let shrunk = shrink v max_bytes in
    let preview = hard_preview v max_bytes in
    if leb original max_bytes
    then record { value = v; truncated = elided; bytes = original; original_bytes = original }
    else if ltb max_bytes (json_bytes shrunk)
    then record {
      value = preview;
      truncated = true;
      bytes = json_bytes preview;
      original_bytes = original;
    }
    else record {
      value = shrunk;
      truncated = true;
      bytes = json_bytes shrunk;
      original_bytes = original;
    }
