-- ===== src/Base/Date.antt =====
-- `Date.parse` on the timestamps that the wire schema admits (platform/shared/schema/primitives.ts,
-- `z.iso.datetime({ offset: true })`): `YYYY-MM-DDThh:mm`, seconds and a fraction that may be
-- left out, then `Z` or `±hh:mm`. `none` is NaN, also for the other spellings that
-- JavaScript leaves to the implementation. Milliseconds are counted from two days before
-- 0000-01-01T00:00Z, so that no result is negative; the program uses differences only.
use Prim.Native.Nat.{ℕ, ◌+◌, ◌-◌, ◌*◌, ◌/◌, ◌%◌}
use mathlib.Core.Path.{◌≡◌, refl}
use mathlib.Core.Bool.{Bool, ◌&&◌, ◌||◌}
use mathlib.Core.Option.{Option, none, some}
use mathlib.Core.List.{[], ◌∷◌}
use lengentic.Base.Tests.{◌>>=◌, leb, ◌==◌, if◌then◌else◌}
use lengentic.Base.Text.{Text, text}

-- A value read from the front of a text, with the rest.
abbrev Reads : Type 0
Reads = Option (ℕ × Text)

digit : Text → Reads
digit [] = none
digit (c ∷ s) = if leb b'0' c && leb c b'9' then some (c - b'0', s) else none

two : Text → Reads
unfolding digit
two s = do (a, s) ← digit s; (b, s) ← digit s; some (10 * a + b, s)

within : ℕ → ℕ → Reads → Reads
within lo hi r = do (n, s) ← r; if leb lo n && leb n hi then some (n, s) else none

expect : ℕ → Text → Option Text
expect c [] = none
expect c (d ∷ s) = if d == c then some s else none

-- The digits of a fraction beyond the third are dropped.
skip_digits : Text → Text
skip_digits [] = []
skip_digits (c ∷ s) = let rest = skip_digits s in if leb b'0' c && leb c b'9' then rest else c ∷ s

fraction_from : ℕ → ℕ → Text → ℕ × Text
fraction_from acc weight [] = (acc, [])
fraction_from acc weight (c ∷ s) =
    let rest = fraction_from (acc + (c - b'0') * weight) (weight / 10) s in
    if leb b'0' c && leb c b'9' && leb 1 weight then rest else (acc, skip_digits (c ∷ s))

fraction : Text → Reads
unfolding fraction_from skip_digits digit
fraction [] = some (0, [])
fraction (c ∷ s) =
    if c == b'.' then (do (_, _) ← digit s; some (fraction_from 0 100 s)) else some (0, c ∷ s)

seconds : Text → Reads
unfolding two within fraction
seconds [] = some (0, [])
seconds (c ∷ s) =
    if c == b':'
    then (do (n, s) ← within 0 59 (two s); (f, s) ← fraction s; some (1000 * n + f, s))
    else some (0, c ∷ s)

-- A value that stands at the end of the text.
at_end : Text → ℕ → Option ℕ
at_end [] n = some n
at_end (_ ∷ _) n = none

-- The zone, as the milliseconds to add to the local time: two days less its distance from UTC.
offset : ℕ → ℕ → Option ℕ
offset c minutes =
    if c == b'+'
    then some (172800000 - 60000 * minutes)
    else if c == b'-'
    then some (172800000 + 60000 * minutes)
    else none

zone : Text → Option ℕ
unfolding two within expect at_end offset
zone [] = none
zone (c ∷ s) = if c == b'Z' then at_end s 172800000 else do
  (h, s) ← within 0 23 (two s)
  s ← expect b':' s
  (m, s) ← within 0 59 (two s)
  z ← offset c (60 * h + m)
  at_end s z

is_leap : ℕ → Bool
is_leap y = (y % 4 == 0) && (leb 1 (y % 100) || (y % 400 == 0))

-- The days of a common year before each month.
days_before_month : ℕ → ℕ
days_before_month m = (367 * m - 362) / 12 - (if leb 3 m then 2 else 0)

days_before_year : ℕ → ℕ
days_before_year y = 365 * y + (y + 3) / 4 - (y + 99) / 100 + (y + 399) / 400

days_of : ℕ → ℕ → ℕ → ℕ
unfolding days_before_year days_before_month is_leap
days_of y m d =
    days_before_year y + days_before_month m + (if is_leap y && leb 3 m then 1 else 0) + (d - 1)

unfoldable pub date_parse : Text → Option ℕ
unfolding two within expect seconds zone days_of
date_parse s = do
  (c, s) ← two s
  (y, s) ← two s
  s ← expect b'-' s
  (mo, s) ← within 1 12 (two s)
  s ← expect b'-' s
  (d, s) ← within 1 31 (two s)
  s ← expect b'T' s
  (h, s) ← within 0 23 (two s)
  s ← expect b':' s
  (mi, s) ← within 0 59 (two s)
  (ms, s) ← seconds s
  z ← zone s
  some (86400000 * days_of (100 * c + y) mo d + 60000 * (60 * h + mi) + ms + z)

-- The epoch, which is 719528 days after the year 0 began.
date_parse_epoch : date_parse (text "1970-01-01T00:00:00Z") ≡ some (86400000 * (719528 + 2))
unfolding date_parse
date_parse_epoch = refl

date_parse_offset :
    date_parse (text "2026-03-01T00:30:00.25+01:00") ≡ date_parse (text "2026-02-28T23:30:00.2509Z")
unfolding date_parse
date_parse_offset = refl

date_parse_leap : date_parse (text "2024-02-29T23:59Z") ≡ date_parse (text "2024-03-01T00:59+01:00")
unfolding date_parse
date_parse_leap = refl

date_parse_2026 :
    date_parse (text "2026-08-19T12:00:00.000Z") ≡ some (1787140800000 + 86400000 * (719528 + 2))
unfolding date_parse
date_parse_2026 = refl
