-- ===== src/Base/Counts.antt =====
-- Counting a list by a key, in an insertion-ordered map.
use Prim.Native.Nat.{ℕ, ◌+◌}
use mathlib.Core.Path.{◌≡◌}
use mathlib.Core.Logic.{inl, inr}
use mathlib.Core.List.{List, [], ◌∷◌}
use native.Mathlib.Omega.{arith}
use lengentic.Base.Tests.{Bool-cases, or_else}
use lengentic.Base.Lists.{length, count}
use lengentic.Base.Assoc.{Eq, lookup, assign, lookup-assign}
use lengentic.Base.Buckets.{HasDistinctKeys, assign-HasDistinctKeys}

-- Counting: `m.set(key, (m.get(key) ?? 0) + 1)`.
module _ {ℓ κ} {K : Type ℓ} {A : Type κ} ⦃e : Eq K⦄ (key : A → K) where
  unfoldable pub count_by : List A → List (K × ℕ) → List (K × ℕ)
  count_by [] m = m
  count_by (x ∷ xs) m = count_by xs (assign (key x) (or_else (lookup (key x) m) 0 + 1) m)

  pub count_by-HasDistinctKeys :
      (xs : List A) (m : List (K × ℕ)) → HasDistinctKeys m → HasDistinctKeys (count_by xs m)
  unfolding count_by
  count_by-HasDistinctKeys [] m d = d
  count_by-HasDistinctKeys (x ∷ xs) m d =
      count_by-HasDistinctKeys xs _ (assign-HasDistinctKeys (key x) _ m d)

  pub lookup-count_by :
      (k : K) (xs : List A) (m : List (K × ℕ))
      → or_else (lookup k (count_by xs m)) 0
        ≡ or_else (lookup k m) 0 + count (λ x. e.beq (key x) k) xs
  unfolding count_by
  lookup-count_by k [] m = omega arith
  lookup-count_by k (x ∷ xs) m = ground (
    arith,
    lookup-count_by k xs (assign (key x) (or_else (lookup (key x) m) 0 + 1) m),
    lookup-assign (key x) k (or_else (lookup (key x) m) 0 + 1) m,
    e.beq_iff (key x) k,
  )

module _ {ℓ} {K : Type ℓ} where
  abbrev pub sum_counts : List (K × ℕ) → ℕ
  sum_counts [] = 0
  sum_counts ((k, n) ∷ m) = n + sum_counts m

module _ {ℓ κ} {K : Type ℓ} {A : Type κ} ⦃e : Eq K⦄ (key : A → K) where
  sum_counts-assign :
      (k : K) (v : ℕ) (m : List (K × ℕ))
      → sum_counts (assign k v m) + or_else (lookup k m) 0 ≡ sum_counts m + v
  unfolding assign lookup
  sum_counts-assign k v [] = omega arith
  sum_counts-assign k v ((i, n) ∷ m) = elim (Bool-cases (e.beq i k)) [
    | inl same ↦ rw same (omega arith)
    | inr other ↦ rw other (omega (arith, sum_counts-assign k v m))
  ]

  pub sum_counts-count_by :
      (xs : List A) (m : List (K × ℕ)) → sum_counts (count_by key xs m) ≡ sum_counts m + length xs
  unfolding count_by
  sum_counts-count_by [] m = omega arith
  sum_counts-count_by (x ∷ xs) m = omega (
    arith,
    sum_counts-count_by xs (assign (key x) (or_else (lookup (key x) m) 0 + 1) m),
    sum_counts-assign (key x) (or_else (lookup (key x) m) 0 + 1) m,
  )
