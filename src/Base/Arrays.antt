-- ===== src/Base/Arrays.antt =====
-- Arrays and sets of texts: `every`, `flatMap`, `includes`, `Set.add` and the default `sort`.
use mathlib.Core.Bool.{Bool, true, false, ◌&&◌}
use mathlib.Core.List.{List, [], ◌∷◌, ◌++◌, Permᴰ}
use lengentic.Base.Tests.{if◌then◌else◌}
use lengentic.Base.Lists.{any}
use lengentic.Base.Text.{Text, text_eq, text_lt}
use lengentic.Base.Sort.{sort, sort-perm}

module _ {ℓ} {A : Type ℓ} where
  -- `Array.prototype.every`.
  abbrev pub every : (A → Bool) → List A → Bool
  every p [] = true
  every p (x ∷ xs) = p x && every p xs

  -- `xs.length === 0`.
  abbrev pub is_nil : List A → Bool
  is_nil [] = true
  is_nil (x ∷ xs) = false

  -- `Array.prototype.flatMap`.
  abbrev pub flat_map {κ} : {B : Type κ} → (A → List B) → List A → List B
  flat_map f [] = []
  flat_map f (x ∷ xs) = f x ++ flat_map f xs

abbrev pub includes : Text → List Text → Bool
includes x xs = any (text_eq x) xs

-- `set.add(x)`, a set being the list of its members in the order they came.
abbrev pub add_once : Text → List Text → List Text
add_once x xs = if includes x xs then xs else xs ++ x ∷ []

abbrev pub add_all : List Text → List Text → List Text
add_all [] set = set
add_all (x ∷ xs) set = add_all xs (add_once x set)

-- `xs.sort()`.
unfoldable pub sort_texts : List Text → List Text
sort_texts xs = sort (λ a b. text_lt b a) xs

pub sort_texts-perm : (xs : List Text) → Permᴰ (sort_texts xs) xs
unfolding sort_texts
sort_texts-perm xs = sort-perm (λ a b. text_lt b a) xs
