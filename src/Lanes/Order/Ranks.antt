-- ===== src/Lanes/Order/Ranks.antt =====
-- scripts/lanes.ts, `dependencyOrder`: that dependencies come first, where they have no cycle.
use lengentic.Base.{
  ℕ, zero, suc, ◌<◌, ◌≡◌, refl, sym, subst, ap, ◌∙◌, inl, inr, Bool, true, false, ◌&&◌, some, List,
  [], ◌∷◌, ◌++◌, arith, filter, Bool-cases, All, All-map,
}
use mathlib.Core.Bool.{false≢true}
use mathlib.Core.List.{Permᴰ, append-nil}
use mathlib.Core.List.Permᴰ
use lengentic.Base.Text.{Text, text_eq, text_eq→eq, text_eq_self}
use lengentic.Base.Assoc.{lookup, assign, text_Eq}
use lengentic.Base.Buckets.{HasDistinctKeys, All-entries}
use lengentic.Base.Folds.{HasDistinct, All-perm}
use lengentic.Base.Arrays.{includes, every, is_nil, sort_texts, sort_texts-perm}
use lengentic.Lanes.Units.{LaneUnit}
use lengentic.Lanes.Order.{
  Pending, ids_of, pending_onto, pending_of, keys, free_ids, delete_all, order_rounds,
  dependency_order,
}
use lengentic.Lanes.Order.Completeness.{
  delete_all-HasDistinctKeys, pending_onto-HasDistinctKeys, pending_of-keys,
}
use lengentic.Lanes.Order.Founded.{
  IsFounded, DepsFirst, descent, DepsFirst-append, batch-DepsFirst, free-ready, All-filter,
  round-IsFounded, nothing_free,
}

All-deleted :
    (P : Text × List Text → Type 0) (ids : List Text) (m : Pending)
    → All P m
    → All P (delete_all ids m)
unfolding delete_all
All-deleted P ids m h = All-filter P _ m h

nil-perm : {xs ys : List Text} → Permᴰ xs ys → is_nil xs ≡ is_nil ys
nil-perm Permᴰ.nil = refl
nil-perm (Permᴰ.cons e d) = refl
nil-perm (Permᴰ.swap e₁ e₂) = refl
nil-perm (Permᴰ.trans d₁ d₂) = nil-perm d₁ ∙ nil-perm d₂

stuck :
    (out : List Text) (m : Pending)
    → is_nil (sort_texts (free_ids m out)) ≡ true
    → All (λ e. every (λ d. includes d out) e.1 ≡ false) m
unfolding free_ids
stuck out m h = nothing_free _ m (sym (nil-perm (sort_texts-perm (free_ids m out))) ∙ h)

module _ (rank : Text → ℕ) (all : Pending) where
  rounds-DepsFirst :
      (n : ℕ) (m : Pending) (out : List Text)
      → HasDistinctKeys m
      → All (λ e. lookup e.0 all ≡ some e.1) m
      → All (IsFounded rank out (keys m)) m
      → DepsFirst all [] out
      → DepsFirst all [] (order_rounds n m out)
  unfolding order_rounds
  rounds-DepsFirst zero m out u l f h = h
  rounds-DepsFirst (suc n) [] out u l f h = h
  rounds-DepsFirst (suc n) (e ∷ m) out u l f h =
      let free = sort_texts (free_ids (e ∷ m) out) in
      elim (Bool-cases (is_nil free)) [
        | inl none_free ↦ absurd (
            false≢true (
              sym (
                descent rank out (e ∷ m) f (stuck out (e ∷ m) none_free) (suc (rank e.0)) e.0
                  (omega arith))
              ∙ rw (text_eq_self e.0) refl))
        | inr some_free ↦ rw some_free (
            rounds-DepsFirst n (delete_all free (e ∷ m)) (out ++ free)
              (delete_all-HasDistinctKeys free (e ∷ m) u) (All-deleted _ free (e ∷ m) l)
              (All-deleted _ free (e ∷ m)
                (All-map _ _ (round-IsFounded rank out (e ∷ m) u) (e ∷ m) f))
              (DepsFirst-append all [] out free h (
                subst (λ s. DepsFirst all s free) (append-nil out)
                  (batch-DepsFirst all out [] free (
                    All-perm _ (Permᴰ.symm (sort_texts-perm (free_ids (e ∷ m) out)))
                      (free-ready all out (e ∷ m) l))))))
      ]

-- The dependencies of a unit that are in the batch have lower rank.
abbrev pub IsRanked : (Text → ℕ) → List Text → LaneUnit → Type 0
IsRanked rank ids u = All (λ d. includes d ids ≡ true → rank d < rank u.task_id) u.depends_on

All-includes {ℓ} :
    (P : Text → Type ℓ) (xs : List Text) (x : Text) → All P xs → includes x xs ≡ true → P x
All-includes P [] x h i = absurd (false≢true i)
All-includes P (y ∷ xs) x (p, h) i = elim (Bool-cases (text_eq x y)) [
  | inl q ↦ subst P (sym (text_eq→eq x y q)) p
  | inr q ↦ All-includes P xs x h (rw q at i)
]

includes-filter :
    (q : Text → Bool) (d : Text) (xs : List Text)
    → includes d (filter q xs) ≡ true
    → (includes d xs && q d) ≡ true
includes-filter q d [] h = absurd (false≢true h)
includes-filter q d (x ∷ xs) h = elim (Bool-cases (q x)) [
  | inr k ↦ ground (arith, includes-filter q d xs (rw k at h))
  | inl k ↦ elim (Bool-cases (text_eq d x)) [
    | inl e ↦ rw e (ap q (text_eq→eq d x e) ∙ k)
    | inr e ↦ rw e (includes-filter q d xs (rw (k, e) at h))
  ]
]

-- What an entry is from the start on.
abbrev IsStarted : (Text → ℕ) → List Text → Text × List Text → Type 0
IsStarted rank ids e =
    (d : Text) → includes d e.1 ≡ true → (includes d ids ≡ true) × (rank d < rank e.0)

assign-All :
    (P : Text × List Text → Type 0) (k : Text) (a : List Text) (m : Pending)
    → P (k, a)
    → All P m
    → All P (assign k a m)
unfolding assign
assign-All P k a [] p h = (p, tt)
assign-All P k a (e ∷ m) p (q, h) = elim (Bool-cases (text_eq e.0 k)) [
  | inl s ↦ rw s (subst (λ j. P (j, a)) (sym (text_eq→eq e.0 k s)) p, h)
  | inr s ↦ rw s (q, assign-All P k a m p h)
]

pending_onto-IsStarted :
    (rank : Text → ℕ) (ids : List Text) (units : List LaneUnit) (m : Pending)
    → All (IsRanked rank ids) units
    → All (IsStarted rank ids) m
    → All (IsStarted rank ids) (pending_onto ids units m)
unfolding pending_onto
pending_onto-IsStarted rank ids [] m r h = h
pending_onto-IsStarted rank ids (u ∷ units) m (p, r) h = pending_onto-IsStarted rank ids units _ r (
    assign-All _ u.task_id _ m
      (λ d i. (
        ground (arith, includes-filter (λ c. includes c ids) d u.depends_on i),
        All-includes _ u.depends_on d p
            (ground (arith, includes-filter (λ c. includes c ids) d u.depends_on i))
            (ground (arith, includes-filter (λ c. includes c ids) d u.depends_on i)),
      ))
      h)

-- When the dependencies inside the batch have no cycle (some rank falls along each of them), every
-- id stands behind all of its dependencies in the batch.
pub dependency_order-DepsFirst :
    (rank : Text → ℕ) (units : List LaneUnit)
    → HasDistinct (λ (u : LaneUnit). u.task_id) units
    → All (IsRanked rank (ids_of units)) units
    → DepsFirst (pending_of units) [] (dependency_order units)
unfolding dependency_order pending_of
dependency_order-DepsFirst rank units d r =
    let ids = ids_of units in
    let all = pending_of units in
    let distinct = pending_onto-HasDistinctKeys ids units [] tt in
    rounds-DepsFirst rank all _ all [] distinct
      (All-entries (λ k a. lookup k all ≡ some a) all distinct (λ k a e. e))
      (All-map (IsStarted rank ids) (IsFounded rank [] (keys all))
        (λ e f c i. (ap (includes c) (pending_of-keys units d) ∙ (f c i).0, (f c i).1)) all
        (pending_onto-IsStarted rank ids units [] r tt))
      tt
