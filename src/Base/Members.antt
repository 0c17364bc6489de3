-- ===== src/Base/Members.antt =====
-- Membership in what a loop collects over the entries of a map.
use mathlib.Core.Path.{◌≡◌, sym, subst}
use mathlib.Core.Logic.{inl, inr}
use mathlib.Core.Option.{some, some-injective}
use mathlib.Core.List.{List, [], ◌∷◌, ◌++◌, Memᴰ}
use mathlib.Core.List.Memᴰ
use lengentic.Base.Tests.{Bool-cases}
use lengentic.Base.Lists.{All}
use lengentic.Base.Assoc.{Eq, lookup}

-- `result.push(...f(a))` over the values of a map.
unfoldable pub collect {ℓ κ μ} :
    {K : Type ℓ} {A : Type κ} {B : Type μ} → (A → List B) → List (K × A) → List B
collect f [] = []
collect f ((k, a) ∷ m) = f a ++ collect f m

module _ {ℓ κ μ} {K : Type ℓ} {A : Type κ} {B : Type μ} ⦃e : Eq K⦄ (f : A → List B) where
  pub Memᴰ-collect :
      (b : B) (k : K) (a : A) (m : List (K × A))
      → lookup k m ≡ some a
      → Memᴰ b (f a)
      → Memᴰ b (collect f m)
  unfolding collect lookup
  Memᴰ-collect b k a [] found h = cc
  Memᴰ-collect b k a ((j, c) ∷ m) found h = elim (Bool-cases (e.beq j k)) [
    | inl same ↦
        Memᴰ.append_left (collect f m)
          (subst (λ x. Memᴰ b (f x)) (sym (some-injective c a (rw same at found))) h)
    | inr other ↦ Memᴰ.append_right (f c) (Memᴰ-collect b k a m (rw other at found) h)
  ]

module _ {ℓ κ μ} {K : Type ℓ} {A : Type κ} {B : Type μ} (f : A → List B) where
  pub collect-Memᴰ {ν} :
      (P : K → A → Type ν) (b : B) (m : List (K × A))
      → All (λ (p : K × A). P p.0 p.1) m
      → Memᴰ b (collect f m)
      → (k : K) × (a : A) × P k a × Memᴰ b (f a)
  unfolding collect
  collect-Memᴰ P b [] h i = absurd (Memᴰ.not-nil i)
  collect-Memᴰ P b ((k, a) ∷ m) (p, h) i = elim (Memᴰ.append_cases (f a) i) [
    | inl j ↦ (k, a, p, j)
    | inr j ↦ collect-Memᴰ P b m h j
  ]
