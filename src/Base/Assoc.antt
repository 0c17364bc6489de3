-- ===== src/Base/Assoc.antt =====
-- Insertion-ordered maps (`Map`, and objects as bags of own keys) as association lists, over
-- keys that have a Boolean equality. `Map.groupBy`-like loops are `bucket`.
use mathlib.Core.Path.{◌≡◌, refl, sym, ap, ◌∙◌}
use mathlib.Core.Logic.{◌↔◌}
use mathlib.Core.Bool.{Bool, true}
use mathlib.Core.Option.{Option, none, some}
use mathlib.Core.List.{List, [], ◌∷◌}
use native.Mathlib.Omega.{arith}
use lengentic.Base.Tests.{if◌then◌else◌}
use lengentic.Base.Text.{Text, text_eq, text_eq→eq, text_eq_self}

pub record Eq {ℓ} (K : Type ℓ) : Type ℓ where
  pub beq : K → K → Bool
  pub beq_iff : (a b : K) → (beq a b ≡ true) ↔ (a ≡ b)

pub text_eq_iff : (a b : Text) → (text_eq a b ≡ true) ↔ (a ≡ b)
text_eq_iff a b = (text_eq→eq a b, λ e. ap (text_eq a) (sym e) ∙ text_eq_self a)

instance abbrev pub text_Eq : Eq Text
text_Eq = record { beq = text_eq; beq_iff = text_eq_iff }

module _ {ℓ κ} {K : Type ℓ} {A : Type κ} ⦃e : Eq K⦄ where
  -- `m.get(key)`.
  unfoldable pub lookup : K → List (K × A) → Option A
  lookup key [] = none
  lookup key ((k, a) ∷ m) = if e.beq k key then some a else lookup key m

  -- `m.set(key, a)`: in place, or at the end.
  unfoldable pub assign : K → A → List (K × A) → List (K × A)
  assign key a [] = (key, a) ∷ []
  assign key a ((k, b) ∷ m) = if e.beq k key then (k, a) ∷ m else (k, b) ∷ assign key a m

  pub lookup-assign :
      (k j : K) (a : A) (m : List (K × A))
      → lookup j (assign k a m) ≡ (if e.beq k j then some a else lookup j m)
  unfolding lookup assign
  lookup-assign k j a [] = refl
  lookup-assign k j a ((i, b) ∷ m) = ground (
    arith,
    lookup-assign k j a m,
    e.beq_iff i k,
    e.beq_iff i j,
    e.beq_iff k j,
    e.beq_iff k k,
    e.beq_iff i i,
  )
