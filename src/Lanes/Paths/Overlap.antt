-- ===== src/Lanes/Paths/Overlap.antt =====
-- scripts/lanes.ts, `patternsOverlap`: that it misses no path.
use lengentic.Base.{
  ◌≡◌, refl, inl, inr, true, false, ◌||◌, [], ◌∷◌, ◌++◌, arith, any, Bool-cases, if_both,
}
use lengentic.Base.Text.{Text}
use lengentic.Lanes.Paths.{
  slash, normalise, tokens, reads, match_path, is_glob, before_glob, to_last_slash, literal_prefix,
  is_empty, ends_with_slash, with_slash, starts_with, patterns_overlap,
}

-- Of two beginnings of one text one begins the other.
starts_with-total :
    (t a b : Text)
    → starts_with t a ≡ true
    → starts_with t b ≡ true
    → (starts_with a b || starts_with b a) ≡ true
unfolding starts_with
starts_with-total t [] [] h k = refl
starts_with-total t [] (c ∷ b) h k = refl
starts_with-total t (c ∷ a) [] h k = refl
starts_with-total [] (c ∷ a) (d ∷ b) h k = ground arith
starts_with-total (e ∷ t) (c ∷ a) (d ∷ b) h k = ground (arith, starts_with-total t a b)

starts_with_self : (t : Text) → starts_with t t ≡ true
unfolding starts_with
starts_with_self [] = refl
starts_with_self (c ∷ t) = ground (arith, starts_with_self t)

starts_with-append : (t a b : Text) → starts_with t a ≡ true → starts_with (t ++ b) a ≡ true
unfolding starts_with
starts_with-append t [] b h = refl
starts_with-append [] (c ∷ a) b h = ground arith
starts_with-append (d ∷ t) (c ∷ a) b h = ground (arith, starts_with-append t a b)

-- What comes before the first glob character is read as it stands.
before_glob-reads :
    (pattern path : Text)
    → reads (tokens pattern) path ≡ true
    → starts_with path (before_glob pattern) ≡ true
unfolding tokens reads starts_with
before_glob-reads [] path h = refl
before_glob-reads (a ∷ []) [] h = ground arith
before_glob-reads (a ∷ []) (x ∷ path) h = ground arith
before_glob-reads (a ∷ b ∷ []) [] h = ground arith
before_glob-reads (a ∷ b ∷ []) (x ∷ path) h = ground (arith, before_glob-reads (b ∷ []) path)
before_glob-reads (a ∷ b ∷ c ∷ rest) [] h = ground arith
before_glob-reads (a ∷ b ∷ c ∷ rest) (x ∷ path) h =
    ground (arith, before_glob-reads (b ∷ c ∷ rest) path)

-- A pattern without glob characters reads itself only.
plain-reads :
    (pattern path : Text)
    → any is_glob pattern ≡ false
    → reads (tokens pattern) path ≡ true
    → path ≡ pattern
unfolding tokens reads
plain-reads [] [] g h = refl
plain-reads [] (x ∷ path) g h = ground arith
plain-reads (a ∷ []) [] g h = ground arith
plain-reads (a ∷ []) (x ∷ []) g h = ground arith
plain-reads (a ∷ []) (x ∷ y ∷ path) g h = ground arith
plain-reads (a ∷ b ∷ []) [] g h = ground arith
plain-reads (a ∷ b ∷ []) (x ∷ path) g h = ground (arith, plain-reads (b ∷ []) path)
plain-reads (a ∷ b ∷ c ∷ rest) [] g h = ground arith
plain-reads (a ∷ b ∷ c ∷ rest) (x ∷ path) g h = ground (arith, plain-reads (b ∷ c ∷ rest) path)

to_last_slash-starts_with :
    (t p : Text) → starts_with t p ≡ true → starts_with t (to_last_slash p) ≡ true
unfolding starts_with
to_last_slash-starts_with t [] h = refl
to_last_slash-starts_with [] (c ∷ p) h = ground arith
to_last_slash-starts_with (d ∷ t) (c ∷ p) h = ground (arith, to_last_slash-starts_with t p)

to_last_slash-with_slash : (p : Text) → with_slash (to_last_slash p) ≡ to_last_slash p
unfolding with_slash
to_last_slash-with_slash [] = refl
to_last_slash-with_slash (c ∷ []) = ground arith
to_last_slash-with_slash (c ∷ d ∷ p) = ground (arith, to_last_slash-with_slash (d ∷ p))

with_slash-starts_with : (t p : Text) → starts_with t p ≡ true → starts_with (with_slash t) p ≡ true
unfolding with_slash
with_slash-starts_with t p h =
    if_both (λ (u : Text). starts_with u p ≡ true) (is_empty t || ends_with_slash t) t
      (t ++ slash ∷ []) h (starts_with-append t p (slash ∷ []) h)

-- A path that a pattern matches lies below the pattern's literal prefix.
pub match_path-literal_prefix :
    (path pattern : Text)
    → match_path path pattern ≡ true
    → starts_with (with_slash (normalise path)) (with_slash (literal_prefix pattern)) ≡ true
unfolding match_path literal_prefix
match_path-literal_prefix path pattern h = elim (Bool-cases (any is_glob (normalise pattern))) [
  | inl g ↦
      rw (g, to_last_slash-with_slash (before_glob (normalise pattern)))
        (with_slash-starts_with (normalise path) (to_last_slash (before_glob (normalise pattern))) (
          to_last_slash-starts_with (normalise path) (before_glob (normalise pattern))
            (before_glob-reads (normalise pattern) (normalise path) h)))
  | inr g ↦
      rw (g, plain-reads (normalise pattern) (normalise path) g h)
        (starts_with_self (with_slash (normalise pattern)))
]

-- Two patterns that match one path overlap: the test on literal prefixes misses nothing.
pub patterns_overlap_complete :
    (path a b : Text)
    → match_path path a ≡ true
    → match_path path b ≡ true
    → patterns_overlap a b ≡ true
unfolding patterns_overlap
patterns_overlap_complete path a b h k =
    starts_with-total (with_slash (normalise path)) (with_slash (literal_prefix a))
      (with_slash (literal_prefix b)) (match_path-literal_prefix path a h)
      (match_path-literal_prefix path b k)
