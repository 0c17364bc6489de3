-- ===== src/Base/Buckets.antt =====
-- The loops that group a list by a key into an insertion-ordered map.
pub mod Found
use Prim.Native.Nat.{ℕ, ◌+◌, ◌<◌}
use mathlib.Core.Path.{◌≡◌, refl, sym, ap, subst, ◌∙◌}
use mathlib.Core.Logic.{inl, inr}
use mathlib.Core.Bool.{false}
use mathlib.Core.Option.{none, some, none-ne-some, some-injective}
use mathlib.Core.List.{List, [], ◌∷◌, ◌++◌, Permᴰ, append_assoc, append-nil}
use native.Mathlib.Omega.{arith}
use lengentic.Base.Tests.{Bool-cases, or_else}
use lengentic.Base.Lists.{length, filter, All, length-append}
use lengentic.Base.Assoc.{Eq, lookup, assign, lookup-assign}

beq_sym {ℓ} : {K : Type ℓ} ⦃e : Eq K⦄ (a b : K) → e.beq a b ≡ false → e.beq b a ≡ false
beq_sym ⦃e⦄ a b h = ground (arith, e.beq_iff a b, e.beq_iff b a)

module _ {ℓ κ} {K : Type ℓ} {A : Type κ} ⦃e : Eq K⦄ where
  abbrev pub IsFresh : K → List (K × A) → Type 0
  IsFresh k m = All (λ (p : K × A). e.beq p.0 k ≡ false) m

  -- No key stands twice.
  abbrev pub HasDistinctKeys : List (K × A) → Type 0
  HasDistinctKeys [] = Unit
  HasDistinctKeys (p ∷ m) = IsFresh p.0 m × HasDistinctKeys m

  assign-IsFresh :
      (k j : K) (a : A) (m : List (K × A))
      → e.beq j k ≡ false
      → IsFresh k m
      → IsFresh k (assign j a m)
  unfolding assign
  assign-IsFresh k j a [] h f = (h, tt)
  assign-IsFresh k j a ((i, b) ∷ m) h (p, f) = elim (Bool-cases (e.beq i j)) [
    | inl q ↦ rw q (p, f)
    | inr q ↦ rw q (p, assign-IsFresh k j a m h f)
  ]

  pub assign-HasDistinctKeys :
      (k : K) (a : A) (m : List (K × A)) → HasDistinctKeys m → HasDistinctKeys (assign k a m)
  unfolding assign
  assign-HasDistinctKeys k a [] d = (tt, tt)
  assign-HasDistinctKeys k a ((i, b) ∷ m) (f, d) = elim (Bool-cases (e.beq i k)) [
    | inl q ↦ rw q (f, d)
    | inr q ↦ rw q (assign-IsFresh i k a m (beq_sym i k q) f, assign-HasDistinctKeys k a m d)
  ]

  pub lookup_fresh : (k : K) (m : List (K × A)) → IsFresh k m → lookup k m ≡ none
  unfolding lookup
  lookup_fresh k [] f = refl
  lookup_fresh k ((i, b) ∷ m) (p, f) = rw p (lookup_fresh k m f)

  -- What holds of each key with the value that is looked up holds of every entry.
  pub All-entries {μ} :
      (P : K → A → Type μ) (m : List (K × A))
      → HasDistinctKeys m
      → ((k : K) (a : A) → lookup k m ≡ some a → P k a)
      → All (λ (p : K × A). P p.0 p.1) m
  unfolding lookup
  All-entries P [] d h = tt
  All-entries P ((k, a) ∷ m) (f, d) h =
      (h k a (rw ((e.beq_iff k k).1 refl)), All-entries P m d (λ j b q. h j b (later_entry j b q)))
    where
      later_entry : (j : K) (b : A) → lookup j m ≡ some b → lookup j ((k, a) ∷ m) ≡ some b
      later_entry j b q = elim (Bool-cases (e.beq k j)) [
        | inl same ↦ absurd (
            none-ne-some b
              (sym (lookup_fresh j m (subst (λ i. IsFresh i m) ((e.beq_iff k j).0 same) f)) ∙ q))
        | inr other ↦ rw other q
      ]

-- Grouping: `bucket = m.get(key) ?? []`, then the item is pushed and the bucket set.
module _ {ℓ κ} {K : Type ℓ} {A : Type κ} ⦃e : Eq K⦄ (key : A → K) where
  unfoldable pub group_by : List A → List (K × List A) → List (K × List A)
  group_by [] m = m
  group_by (x ∷ xs) m = group_by xs (assign (key x) (or_else (lookup (key x) m) [] ++ x ∷ []) m)

  pub group_by-HasDistinctKeys :
      (xs : List A) (m : List (K × List A)) → HasDistinctKeys m → HasDistinctKeys (group_by xs m)
  unfolding group_by
  group_by-HasDistinctKeys [] m d = d
  group_by-HasDistinctKeys (x ∷ xs) m d =
      group_by-HasDistinctKeys xs _ (assign-HasDistinctKeys (key x) _ m d)

  -- Under each key stand the items with that key, in their order.
  pub lookup-group_by :
      (k : K) (xs : List A) (m : List (K × List A))
      → or_else (lookup k (group_by xs m)) []
        ≡ or_else (lookup k m) [] ++ filter (λ x. e.beq (key x) k) xs
  unfolding group_by
  lookup-group_by k [] m = sym (append-nil _)
  lookup-group_by k (x ∷ xs) m =
      lookup-group_by k xs _
      ∙ rw (lookup-assign (key x) k (or_else (lookup (key x) m) [] ++ x ∷ []) m)
          (elim (Bool-cases (e.beq (key x) k)) [
            | inl same ↦
                rw (same, (e.beq_iff (key x) k).0 same)
                  (append_assoc (or_else (lookup k m) []) (x ∷ [])
                    (filter (λ y. e.beq (key y) k) xs))
            | inr other ↦ rw other
          ])

-- The items of a list, weighed and added up; and those of all buckets.
module _ {ℓ} {A : Type ℓ} (weight : A → ℕ) where
  abbrev pub sum_by : List A → ℕ
  sum_by [] = 0
  sum_by (x ∷ xs) = weight x + sum_by xs

  sum_by-append : (xs ys : List A) → sum_by (xs ++ ys) ≡ sum_by xs + sum_by ys
  sum_by-append [] ys = omega arith
  sum_by-append (x ∷ xs) ys = omega (arith, sum_by-append xs ys)

  pub sum_by-perm : {xs ys : List A} → Permᴰ xs ys → sum_by xs ≡ sum_by ys
  sum_by-perm Permᴰ.nil = refl
  sum_by-perm (Permᴰ.cons e d) = omega (arith, ap weight e, sum_by-perm d)
  sum_by-perm (Permᴰ.swap e₁ e₂) = omega (arith, ap weight e₁, ap weight e₂)
  sum_by-perm (Permᴰ.trans d₁ d₂) = sum_by-perm d₁ ∙ sum_by-perm d₂

  module _ {κ} {K : Type κ} where
    abbrev pub total : List (K × List A) → ℕ
    total [] = 0
    total ((k, b) ∷ m) = sum_by b + total m

module _ {ℓ κ} {K : Type ℓ} {A : Type κ} ⦃e : Eq K⦄ (key : A → K) (weight : A → ℕ) where
  total-assign :
      (k : K) (b : List A) (m : List (K × List A))
      → total weight (assign k b m) + sum_by weight (or_else (lookup k m) [])
        ≡ total weight m + sum_by weight b
  unfolding assign lookup
  total-assign k b [] = omega arith
  total-assign k b ((i, c) ∷ m) = elim (Bool-cases (e.beq i k)) [
    | inl same ↦ rw same (omega arith)
    | inr other ↦ rw other (omega (arith, total-assign k b m))
  ]

  -- Grouping loses no item and doubles none.
  pub total-group_by :
      (xs : List A) (m : List (K × List A))
      → total weight (group_by key xs m) ≡ total weight m + sum_by weight xs
  unfolding group_by
  total-group_by [] m = omega arith
  total-group_by (x ∷ xs) m = omega (
    arith,
    total-group_by xs (assign (key x) (or_else (lookup (key x) m) [] ++ x ∷ []) m),
    total-assign (key x) (or_else (lookup (key x) m) [] ++ x ∷ []) m,
    sum_by-append weight (or_else (lookup (key x) m) []) (x ∷ []),
  )

-- An entry that is found is one of the entries.
pub All-lookup {ℓ κ μ} :
    {K : Type ℓ} {A : Type κ} ⦃e : Eq K⦄ (P : K → A → Type μ) (k : K) (a : A) (m : List (K × A))
    → All (λ (p : K × A). P p.0 p.1) m
    → lookup k m ≡ some a
    → P k a
unfolding lookup
All-lookup P k a [] h q = absurd (none-ne-some a q)
All-lookup ⦃e⦄ P k a ((i, b) ∷ m) (p, h) q = elim (Bool-cases (e.beq i k)) [
  | inl same ↦
      subst (λ j. P j a) ((e.beq_iff i k).0 same)
        (subst (P i) (some-injective b a (rw same at q)) p)
  | inr other ↦ All-lookup P k a m h (rw other at q)
]

-- No bucket is empty.
abbrev pub IsOpened {ℓ κ} : {K : Type ℓ} {A : Type κ} → K × List A → Type 0
IsOpened p = 0 < length p.1

module _ {ℓ κ} {K : Type ℓ} {A : Type κ} ⦃e : Eq K⦄ (key : A → K) where
  assign-IsOpened :
      (k : K) (b : List A) (m : List (K × List A))
      → 0 < length b
      → All IsOpened m
      → All IsOpened (assign k b m)
  unfolding assign
  assign-IsOpened k b [] n h = (n, tt)
  assign-IsOpened k b ((i, c) ∷ m) n (p, h) = elim (Bool-cases (e.beq i k)) [
    | inl same ↦ rw same (n, h)
    | inr other ↦ rw other (p, assign-IsOpened k b m n h)
  ]

  pub group_by-IsOpened :
      (xs : List A) (m : List (K × List A)) → All IsOpened m → All IsOpened (group_by key xs m)
  unfolding group_by
  group_by-IsOpened [] m h = h
  group_by-IsOpened (x ∷ xs) m h = group_by-IsOpened xs _ (
      assign-IsOpened (key x) _ m
        (omega (arith, length-append (or_else (lookup (key x) m) []) (x ∷ []))) h)

  -- Each bucket of a grouping from nothing is the items with its key, in their order.
  pub bucket-eq-filter :
      (xs : List A)
      → All (λ (p : K × List A). p.1 ≡ filter (λ x. e.beq (key x) p.0) xs) (group_by key xs [])
  unfolding lookup
  bucket-eq-filter xs =
      All-entries (λ k b. b ≡ filter (λ x. e.beq (key x) k) xs) _
        (group_by-HasDistinctKeys key xs [] tt)
        (λ k b found. sym (ap (λ o. or_else o []) found) ∙ lookup-group_by key k xs [])
