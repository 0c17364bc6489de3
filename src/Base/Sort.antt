-- ===== src/Base/Sort.antt =====
-- `Array.prototype.sort`, which is stable: insertion by a comparator, of which only "positive"
-- (`after x y`: x goes behind y) matters.
use mathlib.Core.Path.{◌≡◌, refl}
use mathlib.Core.Bool.{Bool, true, false}
use mathlib.Core.Logic.{inl, inr}
use mathlib.Core.List.{List, [], ◌∷◌, Permᴰ}
use mathlib.Core.List.Permᴰ
use lengentic.Base.Tests.{if◌then◌else◌, Bool-cases}
use lengentic.Base.Lists.{All, All-map}
use lengentic.Base.Folds.{All-perm}

module _ {ℓ} {A : Type ℓ} (after : A → A → Bool) where
  unfoldable pub insert : A → List A → List A
  insert x [] = x ∷ []
  insert x (y ∷ ys) = if after x y then y ∷ insert x ys else x ∷ y ∷ ys

  unfoldable pub sort : List A → List A
  unfolding insert
  sort [] = []
  sort (x ∷ xs) = insert x (sort xs)

  insert-perm : (x : A) (ys : List A) → Permᴰ (insert x ys) (x ∷ ys)
  unfolding insert
  insert-perm x [] = Permᴰ.refl (x ∷ [])
  insert-perm x (y ∷ ys) = elim (Bool-cases (after x y)) [
    | inl h ↦ rw h (Permᴰ.trans (Permᴰ.cons refl (insert-perm x ys)) (Permᴰ.swap refl refl))
    | inr h ↦ rw h (Permᴰ.refl (x ∷ y ∷ ys))
  ]

  -- Sorting only reorders.
  pub sort-perm : (xs : List A) → Permᴰ (sort xs) xs
  unfolding sort
  sort-perm [] = Permᴰ.nil
  sort-perm (x ∷ xs) = Permᴰ.trans (insert-perm x (sort xs)) (Permᴰ.cons refl (sort-perm xs))

-- Each element stands in the relation to all that follow it.
abbrev pub IsSorted {ℓ κ} : {A : Type ℓ} → (A → A → Type κ) → List A → Type κ
IsSorted R [] = Unit
IsSorted R (x ∷ xs) = All (R x) xs × IsSorted R xs

module _ {ℓ κ} {A : Type ℓ} (after : A → A → Bool) (R : A → A → Type κ)
    (stays : (x y : A) → after x y ≡ false → R x y) (passes : (x y : A) → after x y ≡ true → R y x)
    (R_trans : (x y z : A) → R x y → R y z → R x z) where
  insert-IsSorted : (x : A) (ys : List A) → IsSorted R ys → IsSorted R (insert after x ys)
  unfolding insert
  insert-IsSorted x [] h = (tt, tt)
  insert-IsSorted x (y ∷ ys) (first, h) = elim (Bool-cases (after x y)) [
    | inl p ↦ rw p (
      All-perm (R y) (Permᴰ.symm (insert-perm after x ys)) (passes x y p, first),
      insert-IsSorted x ys h,
    )
    | inr p ↦
        rw p (
          (stays x y p, All-map (R y) (R x) (λ z. R_trans x y z (stays x y p)) ys first),
          (first, h),
        )
  ]

  -- Under a total preorder that agrees with the comparator the result is sorted.
  pub sort-IsSorted : (xs : List A) → IsSorted R (sort after xs)
  unfolding sort
  sort-IsSorted [] = tt
  sort-IsSorted (x ∷ xs) = insert-IsSorted x (sort after xs) (sort-IsSorted xs)
