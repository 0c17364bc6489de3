-- ===== src/Lanes/Paths/Language.antt =====
-- scripts/lanes.ts, `matchPath`: the language of a pattern, and that the search finds it.
use lengentic.Base.{
  ℕ, ◌≡◌, refl, sym, ap, subst, ◌∙◌, ◌↔◌, inl, inr, Bool, true, ◌||◌, List, [], ◌∷◌, ◌++◌, arith,
  Bool-cases,
}
use lengentic.Base.Text.{Text}
use lengentic.Lanes.Paths.{
  slash, Token, literal, one, star, deep, deep_dir, tokens, normalise, is_slash, is_dot, not_slash,
  after_run, then_slash, reads, match_path,
}

-- Every character of the run passes the test.
abbrev pub IsRun : (ℕ → Bool) → Text → Type 0
IsRun ok [] = Unit
IsRun ok (c ∷ p) = (ok c ≡ true) × IsRun ok p

-- The paths that a list of tokens describes.
pub data Denotes : List Token → Text → Type 0 where
  nothing : Denotes [] []
  same : {c : ℕ} {ts : List Token} {p : Text} → Denotes ts p → Denotes (literal c ∷ ts) (c ∷ p)
  any_one :
      {c : ℕ} {ts : List Token} {p : Text}
      → not_slash c ≡ true
      → Denotes ts p
      → Denotes (one ∷ ts) (c ∷ p)
  within :
      {ts : List Token} {p : Text} (run : Text)
      → IsRun not_slash run
      → Denotes ts p
      → Denotes (star ∷ ts) (run ++ p)
  across :
      {ts : List Token} {p : Text} (run : Text)
      → IsRun is_dot run
      → Denotes ts p
      → Denotes (deep ∷ ts) (run ++ p)
  here : {ts : List Token} {p : Text} → Denotes ts p → Denotes (deep_dir ∷ ts) p
  below :
      {ts : List Token} {p : Text} (run : Text)
      → IsRun is_dot run
      → Denotes ts p
      → Denotes (deep_dir ∷ ts) (run ++ (slash ∷ p))

abbrev Splits : (ℕ → Bool) → (Text → Bool) → Text → Type 0
Splits ok k p = (run : Text) × (rest : Text) × IsRun ok run × (k rest ≡ true) × (p ≡ run ++ rest)

extended :
    (ok : ℕ → Bool) (k : Text → Bool) (c : ℕ) (p : Text)
    → ok c ≡ true
    → Splits ok k p
    → Splits ok k (c ∷ p)
extended ok k c p o (run, rest, r, h, e) = (c ∷ run, rest, (o, r), h, ap (λ q. c ∷ q) e)

-- The search over a run succeeds when it splits the text.
after_run_sound :
    (ok : ℕ → Bool) (k : Text → Bool) (p : Text) → after_run ok k p ≡ true → Splits ok k p
unfolding after_run
after_run_sound ok k [] h = ([], [], tt, h, refl)
after_run_sound ok k (c ∷ p) h = elim (Bool-cases (k (c ∷ p))) [
  | inl e ↦ ([], c ∷ p, tt, e, refl)
  | inr e ↦ extended ok k c p (ground arith) (after_run_sound ok k p (ground arith))
]

after_run_complete :
    (ok : ℕ → Bool) (k : Text → Bool) (run p : Text)
    → IsRun ok run
    → k p ≡ true
    → after_run ok k (run ++ p) ≡ true
unfolding after_run
after_run_complete ok k [] [] r h = h
after_run_complete ok k [] (c ∷ p) r h = ground arith
after_run_complete ok k (c ∷ run) p (o, r) h = ground (arith, after_run_complete ok k run p r h)

or_right : (a b : Bool) → b ≡ true → (a || b) ≡ true
or_right a b h = ground arith

reads_complete : {ts : List Token} {p : Text} → Denotes ts p → reads ts p ≡ true
unfolding reads
reads_complete nothing = refl
reads_complete (same d) = ground (arith, reads_complete d)
reads_complete (any_one e d) = ground (arith, reads_complete d)
reads_complete (within {ts} {p} run r d) =
    after_run_complete not_slash (reads ts) run p r (reads_complete d)
reads_complete (across {ts} {p} run r d) =
    after_run_complete is_dot (reads ts) run p r (reads_complete d)
reads_complete (here d) = ground (arith, reads_complete d)
reads_complete (below {ts} {p} run r d) =
    or_right (reads ts (run ++ slash ∷ p))
      (after_run is_dot (then_slash (reads ts)) (run ++ slash ∷ p))
      (after_run_complete is_dot (then_slash (reads ts)) run (slash ∷ p) r (reads_complete d))

literally :
    (x c : ℕ) (ts : List Token) (p : Text) → x ≡ c → Denotes ts p → Denotes (literal x ∷ ts) (c ∷ p)
literally x c ts p e d = subst (λ y. Denotes (literal x ∷ ts) (y ∷ p)) e (same d)

within_split :
    (ts : List Token) (p : Text)
    → ((q : Text) → reads ts q ≡ true → Denotes ts q)
    → Splits not_slash (reads ts) p
    → Denotes (star ∷ ts) p
within_split ts p f (run, rest, r, h, e) =
    subst (Denotes (star ∷ ts)) (sym e) (within run r (f rest h))

across_split :
    (ts : List Token) (p : Text)
    → ((q : Text) → reads ts q ≡ true → Denotes ts q)
    → Splits is_dot (reads ts) p
    → Denotes (deep ∷ ts) p
across_split ts p f (run, rest, r, h, e) =
    subst (Denotes (deep ∷ ts)) (sym e) (across run r (f rest h))

slash_is : (c : ℕ) → is_slash c ≡ true → c ≡ slash
slash_is c h = ground arith

below_split :
    (ts : List Token) (p : Text)
    → ((q : Text) → reads ts q ≡ true → Denotes ts q)
    → Splits is_dot (then_slash (reads ts)) p
    → Denotes (deep_dir ∷ ts) p
below_split ts p f (run, [], r, h, e) = cc
below_split ts p f (run, c ∷ rest, r, h, e) =
    subst (Denotes (deep_dir ∷ ts))
      (sym (e ∙ ap (λ x. run ++ x ∷ rest) (slash_is c (ground arith))))
      (below run r (f rest (ground arith)))

reads_sound : (ts : List Token) (p : Text) → reads ts p ≡ true → Denotes ts p
unfolding reads
reads_sound [] [] h = nothing
reads_sound [] (c ∷ p) h = cc
reads_sound (literal x ∷ ts) [] h = cc
reads_sound (literal x ∷ ts) (c ∷ p) h =
    literally x c ts p (ground arith) (reads_sound ts p (ground arith))
reads_sound (one ∷ ts) [] h = cc
reads_sound (one ∷ ts) (c ∷ p) h = any_one (ground arith) (reads_sound ts p (ground arith))
reads_sound (star ∷ ts) p h =
    within_split ts p (reads_sound ts) (after_run_sound not_slash (reads ts) p h)
reads_sound (deep ∷ ts) p h =
    across_split ts p (reads_sound ts) (after_run_sound is_dot (reads ts) p h)
reads_sound (deep_dir ∷ ts) p h = elim (Bool-cases (reads ts p)) [
  | inl e ↦ here (reads_sound ts p e)
  | inr e ↦
      below_split ts p (reads_sound ts)
        (after_run_sound is_dot (then_slash (reads ts)) p (ground arith))
]

-- A path matches a pattern exactly when the pattern's tokens describe it: `**` any text of one
-- line, `**/` nothing or a text that ends in a slash, `*` a text without a slash, `?` one
-- character that is not a slash, and any other character itself.
pub match_path_iff :
    (path pattern : Text)
    → (match_path path pattern ≡ true) ↔ Denotes (tokens (normalise pattern)) (normalise path)
unfolding match_path
match_path_iff path pattern =
    (reads_sound (tokens (normalise pattern)) (normalise path), reads_complete)
