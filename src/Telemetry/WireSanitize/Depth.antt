-- ===== src/Telemetry/WireSanitize/Depth.antt =====
-- The breadth-first test of depth against the height of the value.
use lengentic.Base.{ℕ, zero, suc, ◌-◌, ◌≡◌, refl, ap, ◌∙◌, List, [], ◌∷◌, ◌++◌, ltb, arith, max}
use lengentic.Telemetry.Json.{
  Json, null, boolean, number, string, array, object, Items, no_items, item, Members, no_members,
  member, items, values,
}
use lengentic.Telemetry.WireSanitize.{
  children, next_frontier, exceeds_within, exceeds_max_structural_depth,
}

-- How many containers stand around the deepest value that is not the whole.
unfoldable mutual
  pub height : Json → ℕ
  height (array vs) = items_height vs
  height (object ms) = members_height ms
  height null = 0
  height (boolean _) = 0
  height (number _) = 0
  height (string _) = 0

  pub items_height : Items → ℕ
  items_height no_items = 0
  items_height (item v vs) = max (suc (height v)) (items_height vs)

  pub members_height : Members → ℕ
  members_height no_members = 0
  members_height (member k v ms) = max (suc (height v)) (members_height ms)

abbrev tallest : List Json → ℕ
tallest [] = 0
tallest (v ∷ vs) = max (suc (height v)) (tallest vs)

tallest-append : (vs ws : List Json) → tallest (vs ++ ws) ≡ max (tallest vs) (tallest ws)
tallest-append [] ws = omega arith
tallest-append (v ∷ vs) ws = omega (arith, tallest-append vs ws)

tallest-items : (vs : Items) → tallest (items vs) ≡ items_height vs
unfolding items_height
tallest-items no_items = refl
tallest-items (item v vs) = ap (max (suc (height v))) (tallest-items vs)

tallest-values : (ms : Members) → tallest (values ms) ≡ members_height ms
unfolding members_height
tallest-values no_members = refl
tallest-values (member k v ms) = ap (max (suc (height v))) (tallest-values ms)

tallest-children : (v : Json) → tallest (children v) ≡ height v
unfolding height
tallest-children (array vs) = tallest-items vs
tallest-children (object ms) = tallest-values ms
tallest-children null = refl
tallest-children (boolean _) = refl
tallest-children (number _) = refl
tallest-children (string _) = refl

-- A round takes one level off.
tallest-next : (vs : List Json) → tallest (next_frontier vs) ≡ tallest vs - 1
tallest-next [] = refl
tallest-next (v ∷ vs) =
    tallest-append (children v) (next_frontier vs)
    ∙ omega (arith, tallest-children v, tallest-next vs)

exceeds_within-tallest :
    (rounds : ℕ) (vs : List Json) → exceeds_within rounds vs ≡ ltb rounds (tallest vs)
unfolding exceeds_within
exceeds_within-tallest rounds [] = ground arith
exceeds_within-tallest zero (v ∷ vs) = ground arith
exceeds_within-tallest (suc rounds) (v ∷ vs) =
    ground (arith, exceeds_within-tallest rounds (next_frontier (v ∷ vs)), tallest-next (v ∷ vs))

-- The loop over frontiers, which needs no recursion into the value, says whether the value nests
-- deeper than the limit.
pub exceeds-height :
    (value : Json) (max_depth : ℕ)
    → exceeds_max_structural_depth value max_depth ≡ ltb max_depth (height value)
unfolding exceeds_max_structural_depth
exceeds-height value max_depth = exceeds_within-tallest (suc max_depth) (value ∷ []) ∙ ground arith
