-- ===== src/Base/Buckets/Found.antt =====
-- How often a key stands in a map.
use mathlib.Core.Path.{◌≡◌, refl, subst}
use mathlib.Core.Logic.{inl, inr}
use mathlib.Core.Option.{some}
use mathlib.Core.List.{List, [], ◌∷◌}
use native.Mathlib.Omega.{arith}
use lengentic.Base.Tests.{Bool-cases}
use lengentic.Base.Lists.{count}
use lengentic.Base.Text.{Text, text_eq, text_eq→eq}
use lengentic.Base.Assoc.{lookup, text_Eq}
use lengentic.Base.Buckets.{IsFresh, HasDistinctKeys}

-- A key that is found stands once among distinct keys.
pub count-found {ℓ} :
    {A : Type ℓ} (j : Text) (a : A) (m : List (Text × A))
    → HasDistinctKeys m
    → lookup j m ≡ some a
    → count (λ (p : Text × A). text_eq p.0 j) m ≡ 1
unfolding lookup
count-found j a [] d found = cc
count-found {A = A} j a ((k, b) ∷ m) (f, d) found = elim (Bool-cases (text_eq k j)) [
  | inl e ↦ rw e (omega (arith, none_left m (subst (λ i. IsFresh i m) (text_eq→eq k j e) f)))
  | inr e ↦ rw e (omega (arith, count-found j a m d (rw e at found)))
]
  where
    none_left : (l : List (Text × A)) → IsFresh j l → count (λ (p : Text × A). text_eq p.0 j) l ≡ 0
    none_left [] h = refl
    none_left (p ∷ l) (q, h) = rw q (omega (arith, none_left l h))
