-- ===== src/Lanes/Paths.antt =====
-- scripts/lanes.ts: paths, glob patterns and the overlap of two patterns. `matchPath` compiles a
-- pattern into a regular expression; its parts are the tokens here, and `reads` is the search of
-- the regular expression, in which `.` stops at a line terminator.
pub mod Language
pub mod Overlap
use lengentic.Base.{
  ℕ, Bool, true, false, ◌&&◌, ◌||◌, not, Option, none, some, List, [], ◌∷◌, ◌++◌, map, any, ◌==◌,
  if◌then◌else◌,
}
use lengentic.Base.Text.{Text, text}

abbrev pub slash : ℕ
slash = 47

abbrev pub is_slash : ℕ → Bool
is_slash c = c == slash

abbrev pub forward : ℕ → ℕ
forward c = if c == 92 then slash else c

abbrev pub strip_dot : Text → Text
strip_dot (a ∷ b ∷ rest) = if (a == 46) && is_slash b then rest else a ∷ b ∷ rest
strip_dot p = p

unfoldable pub normalise : Text → Text
normalise p = strip_dot (map forward p)

pub data Token : Type 0 where
  literal : ℕ → Token
  one star deep deep_dir : Token

abbrev pub single : ℕ → Token
single c = if c == b'*' then star else if c == b'?' then one else literal c

-- `split(/(\*\*\/|\*\*|\*|\?)/)`, with the literal parts cut into characters.
unfoldable pub tokens : Text → List Token
tokens [] = []
tokens (a ∷ []) = single a ∷ []
tokens (a ∷ b ∷ []) = if (a == b'*') && (b == b'*') then deep ∷ [] else single a ∷ single b ∷ []
tokens (a ∷ b ∷ c ∷ rest) =
    let after_three = tokens rest in
    let after_two = tokens (c ∷ rest) in
    let after_one = tokens (b ∷ c ∷ rest) in
    if (a == b'*') && (b == b'*')
    then (if is_slash c then deep_dir ∷ after_three else deep ∷ after_two)
    else single a ∷ after_one

-- What `.` reads.
abbrev pub is_dot : ℕ → Bool
is_dot c = not (((c == 10) || (c == 13)) || ((c == 8232) || (c == 8233)))

abbrev pub not_slash : ℕ → Bool
not_slash c = not (is_slash c)

-- Some characters that pass the test, and then what `k` reads.
unfoldable pub after_run : (ℕ → Bool) → (Text → Bool) → Text → Bool
after_run ok k [] = k []
after_run ok k (c ∷ p) = k (c ∷ p) || (ok c && after_run ok k p)

abbrev pub then_slash : (Text → Bool) → Text → Bool
then_slash k [] = false
then_slash k (c ∷ p) = is_slash c && k p

unfoldable pub reads : List Token → Text → Bool
unfolding after_run
reads [] [] = true
reads [] (c ∷ p) = false
reads (literal x ∷ ts) [] = false
reads (literal x ∷ ts) (c ∷ p) = (c == x) && reads ts p
reads (one ∷ ts) [] = false
reads (one ∷ ts) (c ∷ p) = not_slash c && reads ts p
reads (star ∷ ts) p = after_run not_slash (reads ts) p
reads (deep ∷ ts) p = after_run is_dot (reads ts) p
reads (deep_dir ∷ ts) p = reads ts p || after_run is_dot (then_slash (reads ts)) p

unfoldable pub match_path : Text → Text → Bool
unfolding reads tokens normalise
match_path path pattern = reads (tokens (normalise pattern)) (normalise path)

abbrev pub is_glob : ℕ → Bool
is_glob c = ((c == b'*') || (c == b'?')) || ((c == b'[') || (c == b']'))

-- The part before the first glob character.
abbrev pub before_glob : Text → Text
before_glob [] = []
before_glob (c ∷ p) = if is_glob c then [] else c ∷ before_glob p

-- Up to the last slash, the slash included.
abbrev pub to_last_slash : Text → Text
to_last_slash [] = []
to_last_slash (c ∷ p) = if any is_slash (c ∷ p) then c ∷ to_last_slash p else []

abbrev pub literal_part : Text → Text
literal_part p = if any is_glob p then to_last_slash (before_glob p) else p

unfoldable pub literal_prefix : Text → Text
unfolding normalise
literal_prefix pattern = literal_part (normalise pattern)

abbrev pub ends_with_slash : Text → Bool
ends_with_slash [] = false
ends_with_slash (c ∷ []) = is_slash c
ends_with_slash (c ∷ d ∷ p) = ends_with_slash (d ∷ p)

abbrev pub is_empty : Text → Bool
is_empty [] = true
is_empty (c ∷ p) = false

unfoldable pub with_slash : Text → Text
with_slash p = if is_empty p || ends_with_slash p then p else p ++ slash ∷ []

unfoldable pub starts_with : Text → Text → Bool
starts_with t [] = true
starts_with [] (c ∷ p) = false
starts_with (d ∷ t) (c ∷ p) = (d == c) && starts_with t p

unfoldable pub patterns_overlap : Text → Text → Bool
unfolding literal_prefix with_slash starts_with
patterns_overlap a b =
    let left = with_slash (literal_prefix a) in
    let right = with_slash (literal_prefix b) in starts_with left right || starts_with right left

-- `patterns.find(...)`.
abbrev pub find_match : Text → List Text → Option Text
unfolding match_path
find_match path [] = none
find_match path (pattern ∷ patterns) =
    if match_path path pattern then some pattern else find_match path patterns
