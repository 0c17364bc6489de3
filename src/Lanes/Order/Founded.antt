-- ===== src/Lanes/Order/Founded.antt =====
-- scripts/lanes.ts, `dependencyOrder`: what a round does to entries that have no cycle.
use lengentic.Base.{
  ℕ, zero, suc, ◌<◌, ◌≡◌, refl, sym, subst, ap, inl, inr, Bool, true, false, ◌||◌, some, List, [],
  ◌∷◌, ◌++◌, arith, any-append, filter, Bool-cases, All, if_both, or_else,
}
use mathlib.Core.Bool.{false≢true}
use mathlib.Core.List.{append_assoc, append-nil}
use lengentic.Base.Text.{Text, text_eq, text_eq→eq, text_eq_self}
use lengentic.Base.Assoc.{lookup, text_Eq}
use lengentic.Base.Buckets.{HasDistinctKeys}
use lengentic.Base.Arrays.{includes, every, is_nil, sort_texts}
use lengentic.Lanes.Order.{Pending, keys, free_ids, delete_all}
use lengentic.Lanes.Order.Completeness.{All-both, any-perm, round-perm}

-- Every dependency of an entry is ordered already or waits, and has a lower rank.
abbrev pub IsFounded : (Text → ℕ) → List Text → List Text → Text × List Text → Type 0
IsFounded rank out waiting e =
    (d : Text)
    → includes d e.1 ≡ true
    → ((includes d out || includes d waiting) ≡ true) × (rank d < rank e.0)

missing :
    (out deps : List Text)
    → every (λ d. includes d out) deps ≡ false
    → (d : Text) × (includes d deps ≡ true) × (includes d out ≡ false)
missing out [] h = cc
missing out (d ∷ deps) h = elim (Bool-cases (includes d out)) [
  | inr e ↦ (d, rw (text_eq_self d) refl, e)
  | inl e ↦ later_one d (missing out deps (rw e at h))
]
  where
    later_one :
        (c : Text)
        → (d : Text) × (includes d deps ≡ true) × (includes d out ≡ false)
        → (d : Text) × (includes d (c ∷ deps) ≡ true) × (includes d out ≡ false)
    later_one c (d, i, n) = (d, ground (arith, i), n)

-- The entry of a key that is among the keys.
entry_of {ℓ} :
    (P : Text × List Text → Type ℓ) (k : Text) (m : Pending)
    → All P m
    → includes k (keys m) ≡ true
    → (e : Text × List Text) × (e.0 ≡ k) × P e
entry_of P k [] h i = absurd (false≢true i)
entry_of P k (e ∷ m) (p, h) i = elim (Bool-cases (text_eq k e.0)) [
  | inl q ↦ (e, sym (text_eq→eq k e.0 q), p)
  | inr q ↦ entry_of P k m h (rw q at i)
]

pub nothing_free :
    (q : Text × List Text → Bool) (m : Pending)
    → is_nil (keys (filter q m)) ≡ true
    → All (λ e. q e ≡ false) m
nothing_free q [] h = tt
nothing_free q (e ∷ m) h = elim (Bool-cases (q e)) [
  | inl p ↦ absurd (false≢true (rw p at h))
  | inr p ↦ (p, nothing_free q m (rw p at h))
]

-- An entry that is stuck has a dependency of lower rank among the waiting keys.
lower_one :
    (rank : Text → ℕ) (out waiting : List Text) (n : ℕ) (k : Text)
    → rank k < suc n
    → ((d : Text) → rank d < n → includes d waiting ≡ false)
    → (e : Text × List Text) × (e.0 ≡ k)
      × (IsFounded rank out waiting e × (every (λ d. includes d out) e.1 ≡ false))
    → includes k waiting ≡ false
lower_one rank out waiting n k b lower (e, q, (p, w)) = refuted (missing out e.1 w)
  where
    refuted :
        (d : Text) × (includes d e.1 ≡ true) × (includes d out ≡ false) → includes k waiting ≡ false
    refuted (d, i, o) = ground (arith, p d i, lower d (omega (arith, (p d i).1, ap rank q, b)), o)

-- Where nothing is free, no key can wait.
pub descent :
    (rank : Text → ℕ) (out : List Text) (m : Pending)
    → All (IsFounded rank out (keys m)) m
    → All (λ e. every (λ d. includes d out) e.1 ≡ false) m
    → (n : ℕ) (k : Text) → rank k < n
    → includes k (keys m) ≡ false
descent rank out m f s zero k b = absurd (ground arith)
descent rank out m f s (suc n) k b = elim (Bool-cases (includes k (keys m))) [
  | inr e ↦ e
  | inl i ↦ lower_one rank out (keys m) n k b (descent rank out m f s n) (
      entry_of (λ e. IsFounded rank out (keys m) e × (every (λ d. includes d out) e.1 ≡ false)) k m
        (All-both _ _ _ (λ e p q. (p, q)) m f s) i)
]

-- Each id stands behind its dependencies: those of the ids before it, or in `seen`.
abbrev pub DepsFirst : Pending → List Text → List Text → Type 0
DepsFirst all seen [] = Unit
DepsFirst all seen (x ∷ xs) =
    (every (λ d. includes d seen) (or_else (lookup x all) []) ≡ true)
    × DepsFirst all (seen ++ x ∷ []) xs

pub DepsFirst-append :
    (all : Pending) (seen xs ys : List Text)
    → DepsFirst all seen xs
    → DepsFirst all (seen ++ xs) ys
    → DepsFirst all seen (xs ++ ys)
DepsFirst-append all seen [] ys h k = subst (λ l. DepsFirst all l ys) (append-nil seen) k
DepsFirst-append all seen (x ∷ xs) ys (p, h) k = (
  p,
  DepsFirst-append all (seen ++ x ∷ []) xs ys h
      (subst (λ l. DepsFirst all l ys) (sym (append_assoc seen (x ∷ []) xs)) k),
)

every-append :
    (out more deps : List Text)
    → every (λ d. includes d out) deps ≡ true
    → every (λ d. includes d (out ++ more)) deps ≡ true
every-append out more [] h = refl
every-append out more (d ∷ deps) h =
    ground (arith, any-append (text_eq d) out more, every-append out more deps)

pub batch-DepsFirst :
    (all : Pending) (out more xs : List Text)
    → All (λ x. every (λ d. includes d out) (or_else (lookup x all) []) ≡ true) xs
    → DepsFirst all (out ++ more) xs
batch-DepsFirst all out more [] h = tt
batch-DepsFirst all out more (x ∷ xs) (p, h) = (
  every-append out more (or_else (lookup x all) []) p,
  subst (λ l. DepsFirst all l xs) (sym (append_assoc out more (x ∷ [])))
      (batch-DepsFirst all out (more ++ x ∷ []) xs h),
)

pub free-ready :
    (all : Pending) (out : List Text) (m : Pending)
    → All (λ e. lookup e.0 all ≡ some e.1) m
    → All (λ x. every (λ d. includes d out) (or_else (lookup x all) []) ≡ true) (free_ids m out)
unfolding free_ids
free-ready all out [] h = tt
free-ready all out (e ∷ m) (p, h) = elim (Bool-cases (every (λ d. includes d out) e.1)) [
  | inl q ↦ rw q (rw p q, free-ready all out m h)
  | inr q ↦ rw q (free-ready all out m h)
]

pub All-filter {ℓ} :
    {A : Type 0} (P : A → Type ℓ) (q : A → Bool) (xs : List A) → All P xs → All P (filter q xs)
All-filter P q [] h = tt
All-filter P q (x ∷ xs) (p, h) =
    if_both (All P) (q x) (x ∷ filter q xs) (filter q xs) (p, All-filter P q xs h)
      (All-filter P q xs h)

-- A round keeps the waiting entries founded.
pub round-IsFounded :
    (rank : Text → ℕ) (out : List Text) (m : Pending)
    → HasDistinctKeys m
    → (e : Text × List Text) → IsFounded rank out (keys m) e
    → IsFounded rank
        (out ++ sort_texts (free_ids m out))
        (keys (delete_all (sort_texts (free_ids m out)) m))
        e
round-IsFounded rank out m u e f d i =
    let free = sort_texts (free_ids m out) in
    (
      ground (
        arith,
        f d i,
        any-append (text_eq d) out free,
        any-append (text_eq d) free (keys (delete_all free m)),
        any-perm (text_eq d) (round-perm out m u),
      ),
      (f d i).1,
    )
