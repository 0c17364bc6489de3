-- ===== src/Base/Folds.antt =====
-- Permutations of lists that are measured by native numbers.
-- A fold does not depend on the order of its list when the step commutes on elements with
-- different ids.
use mathlib.Core.Path.{◌≡◌, refl, ap, sym, subst, subst₂, ◌∙◌}
use mathlib.Core.Logic.{◌≢◌}
use mathlib.Core.List.{List, [], ◌∷◌, ◌++◌, Permᴰ}
use mathlib.Core.List.Permᴰ.{nil, cons, swap, trans}
use native.Mathlib.Omega.{arith}
use lengentic.Base.Lists.{All, count, length, filter}
use lengentic.Base.Tests.{Bool-cases}
use mathlib.Core.Bool.{Bool, true}
use mathlib.Core.Logic.{inl, inr}

pub count-perm {ℓ} :
    {A : Type ℓ} (p : A → Bool) {xs ys : List A} → Permᴰ xs ys → count p xs ≡ count p ys
count-perm p Permᴰ.nil = refl
count-perm p (Permᴰ.cons e d) = ground (arith, ap p e, count-perm p d)
count-perm p (Permᴰ.swap e₁ e₂) = ground (arith, ap p e₁, ap p e₂)
count-perm p (Permᴰ.trans d₁ d₂) = count-perm p d₁ ∙ count-perm p d₂

pub All-append {ℓ κ} :
    {A : Type ℓ} (P : A → Type κ) (xs ys : List A) → All P xs → All P ys → All P (xs ++ ys)
All-append P [] ys h k = k
All-append P (x ∷ xs) ys (p, h) k = (p, All-append P xs ys h k)

pub All-kept {ℓ κ μ} :
    {A : Type ℓ} {P : A → Type κ} {Q : A → Type μ} (p : A → Bool)
    → ((x : A) → p x ≡ true → P x → Q x)
    → (xs : List A) → All P xs
    → All Q (filter p xs)
All-kept p f [] h = tt
All-kept p f (x ∷ xs) (q, h) = elim (Bool-cases (p x)) [
  | inl e ↦ rw e (f x e q, All-kept p f xs h)
  | inr e ↦ rw e (All-kept p f xs h)
]

pub All-perm {ℓ κ} :
    {A : Type ℓ} (P : A → Type κ) {xs ys : List A} → Permᴰ xs ys → All P xs → All P ys
All-perm P nil h = tt
All-perm P (cons e d) (p, h) = (subst P e p, All-perm P d h)
All-perm P (swap e₁ e₂) (p, (q, h)) = (subst P e₂ q, (subst P e₁ p, h))
All-perm P (trans d₁ d₂) h = All-perm P d₂ (All-perm P d₁ h)

pub length-perm {ℓ} : {A : Type ℓ} {xs ys : List A} → Permᴰ xs ys → length xs ≡ length ys
length-perm nil = refl
length-perm (cons e d) = omega (arith, length-perm d)
length-perm (swap e₁ e₂) = refl
length-perm (trans d₁ d₂) = length-perm d₁ ∙ length-perm d₂

-- Different ids throughout, by recursion on the list.
abbrev pub HasDistinct {ℓ κ} : {E : Type ℓ} {I : Type κ} → (E → I) → List E → Type κ
HasDistinct id [] = Unit
HasDistinct id (x ∷ xs) = All (λ y. id x ≢ id y) xs × HasDistinct id xs

HasDistinct-perm {ℓ κ} :
    {E : Type ℓ} {I : Type κ} (id : E → I) {xs ys : List E}
    → Permᴰ xs ys
    → HasDistinct id xs
    → HasDistinct id ys
HasDistinct-perm id nil d = tt
HasDistinct-perm id (cons {b = b} {l₂ = ys} e p) (h, d) =
    (subst (λ z. All (λ y. id z ≢ id y) ys) e (All-perm _ p h), HasDistinct-perm id p d)
HasDistinct-perm id (swap {l = l} e₁ e₂) ((ab, al), (bl, d)) = (
  (
    subst₂ (λ x y. id y ≢ id x) e₁ e₂ (λ q. ab (sym q)),
    subst (λ z. All (λ y. id z ≢ id y) l) e₂ bl,
  ),
  (subst (λ z. All (λ y. id z ≢ id y) l) e₁ al, d),
)
HasDistinct-perm id (trans p₁ p₂) d = HasDistinct-perm id p₂ (HasDistinct-perm id p₁ d)

unfoldable pub fold {ℓ κ} : {E : Type ℓ} {C : Type κ} → (C → E → C) → C → List E → C
fold f c [] = c
fold f c (x ∷ xs) = fold f (f c x) xs

module _ {ℓ κ μ} {E : Type ℓ} {C : Type κ} {I : Type μ} (id : E → I) (f : C → E → C)
    (Ok : E → Type 0) (Inv : C → Type 0) (keep : (c : C) (e : E) → Inv c → Ok e → Inv (f c e))
    (commute : (c : C) (a b : E)
      → Inv c
      → Ok a
      → Ok b
      → id a ≢ id b
      → f (f c a) b ≡ f (f c b) a) where
  pub fold-Inv : (c : C) (es : List E) → Inv c → All Ok es → Inv (fold f c es)
  unfolding fold
  fold-Inv c [] i h = i
  fold-Inv c (e ∷ es) i (p, h) = fold-Inv (f c e) es (keep c e i p) h

  pub fold-perm :
      {xs ys : List E}
      → Permᴰ xs ys
      → (c : C) → Inv c
      → All Ok xs
      → HasDistinct id xs
      → fold f c xs ≡ fold f c ys
  unfolding fold
  fold-perm nil c i h d = refl
  fold-perm (cons {a = a} {b = b} {l₁ = xs} {l₂ = ys} e p) c i (q, h) d =
      subst (λ y. fold f (f c a) xs ≡ fold f (f c y) ys) e
        (fold-perm p (f c a) (keep c a i q) h d.1)
  fold-perm (swap {a = a} {b = b} {a' = a'} {b' = b'} {l = l} e₁ e₂) c i (p, (q, h)) d =
      ap (λ s. fold f s l) (commute c a b i p q d.0.0)
      ∙ ap (λ s. fold f s l) (ap (λ s. f (f c s) a) e₂ ∙ ap (λ s. f (f c a') s) e₁)
  fold-perm (trans {l₂ = m} p₁ p₂) c i h d =
      fold-perm p₁ c i h d ∙ fold-perm p₂ c i (All-perm Ok p₁ h) (HasDistinct-perm id p₁ d)
