-- ===== src/Dashboard/StepTree/Genealogy.antt =====
-- What the placement of a node says of its step.
use mathlib.Core.Path.{subst₂}
use lengentic.Base.{
  ℕ, zero, suc, ◌≤◌, ◌≡◌, refl, sym, true, not, Option, none, some, List, [], ◌∷◌, map, filter,
  or_else, ◌>>=◌, ◌⊎◌, inl, inr, All, All-map, Bool-cases, arith,
}
use lengentic.Base.Text.{Text, text_eq}
use lengentic.Base.Assoc.{lookup, text_Eq}
use lengentic.Dashboard.Views.{StepView}
use lengentic.Dashboard.StepTree.Walks.{
  node_count, IsListed, unplaced, Fits, Grown, Walked, unplaced-le,
}
use lengentic.Dashboard.StepTree.Descent.{IsChild, IsFamily, descend-Descends}
use lengentic.Dashboard.StepTree.{
  StepPlacement, nested, cycle, StepNode, node, StepNodes, no_nodes, more, append_nodes, has, add,
  descend_each, descend, nested_children, place_stranded,
}

abbrev pub IsUnder : Text → StepView → StepPlacement → Type 0
IsUnder parent s placement = (placement ≡ nested) × (s.parent_step_id ≡ some parent)

-- `T` holds of the nodes of a list, and everything below a node names its parent.
abbrev pub AreAt : (StepView → StepPlacement → Type 0) → StepNodes → Type 0
AreAt T no_nodes = Unit
AreAt T (more (node s placement children) ns) =
    T s placement × AreAt (IsUnder s.id) children × AreAt T ns

abbrev pub IsOf : StepView → StepPlacement → StepNode → Type 0
IsOf s placement (node t q children) = (t ≡ s) × (q ≡ placement) × AreAt (IsUnder t.id) children

abbrev pub Returns : {N : Type 0} → (N → Type 0) → Option (N × List Text) → Type 0
Returns Q none = Unit
Returns Q (some (n, after)) = Q n

pub AreAt-append :
    (T : StepView → StepPlacement → Type 0) (ms ns : StepNodes)
    → AreAt T ms
    → AreAt T ns
    → AreAt T (append_nodes ms ns)
AreAt-append T no_nodes ns h k = k
AreAt-append T (more (node s placement children) ms) ns (t, below, h) k =
    (t, below, AreAt-append T ms ns h k)

more-Returns :
    (T : StepView → StepPlacement → Type 0) (s : StepView) (placement : StepPlacement)
    (n : StepNode) (r : Option (StepNodes × List Text))
    → T s placement
    → IsOf s placement n
    → Returns (AreAt T) r
    → Returns (AreAt T) (r >>= λ (others, last). some (more n others, last))
more-Returns T s placement n none t h k = tt
more-Returns T s placement (node u q children) (some (others, last)) t (e, f, below) k =
    (subst₂ T (sym e) (sym f) t, below, k)

walked-Returns :
    (T : StepView → StepPlacement → Type 0) (s : StepView) (placement : StepPlacement)
    (first : Option (StepNode × List Text)) (rest : List Text → Option (StepNodes × List Text))
    → T s placement
    → Returns (IsOf s placement) first
    → ((after : List Text) → Returns (AreAt T) (rest after))
    → Returns
        (AreAt T)
        (first >>= λ (n, after). rest after >>= λ (others, last). some (more n others, last))
walked-Returns T s placement none rest t h k = tt
walked-Returns T s placement (some (n, after)) rest t h k =
    more-Returns T s placement n (rest after) t h (k after)

pub descend_each-AreAt :
    (T : StepView → StepPlacement → Type 0)
    (go : StepView → StepPlacement → List Text → Option (StepNode × List Text))
    → ((s : StepView) (placement : StepPlacement) (placed : List Text)
        → Returns (IsOf s placement) (go s placement placed))
    → (items : List (StepView × StepPlacement)) (placed : List Text)
    → All (λ (i : StepView × StepPlacement). T i.0 i.1) items
    → Returns (AreAt T) (descend_each go items placed)
unfolding descend_each
descend_each-AreAt T go h [] placed ts = tt
descend_each-AreAt T go h ((s, placement) ∷ items) placed (t, ts) =
    walked-Returns T s placement (go s placement placed) (descend_each go items) t
      (h s placement placed) (λ after. descend_each-AreAt T go h items after ts)

kids-IsUnder :
    (k : Text) (placed : List Text) (cs : List StepView)
    → All (λ (c : StepView). c.parent_step_id ≡ some k) cs
    → All
        (λ (i : StepView × StepPlacement). IsUnder k i.0 i.1)
        (map (λ c. (c, nested)) (filter (λ c. not (has c.id placed)) cs))
kids-IsUnder k placed [] h = tt
kids-IsUnder k placed (c ∷ cs) (h, hs) = elim (Bool-cases (has c.id placed)) [
  | inl old ↦ rw old (kids-IsUnder k placed cs hs)
  | inr new ↦ rw new ((refl, h), kids-IsUnder k placed cs hs)
]

node-Returns :
    (s : StepView) (placement : StepPlacement) (r : Option (StepNodes × List Text))
    → Returns (AreAt (IsUnder s.id)) r
    → Returns
        (IsOf s placement)
        (r >>= λ (children, after). some (node s placement children, after))
node-Returns s placement none h = tt
node-Returns s placement (some (children, after)) h = (refl, refl, h)

module _ (m : List (Text × List StepView))
    (family : (k : Text)
      → All (λ (c : StepView). c.parent_step_id ≡ some k) (or_else (lookup k m) [])) where
  pub descend-IsOf :
      (fuel : ℕ) (s : StepView) (placement : StepPlacement) (placed : List Text)
      → Returns (IsOf s placement) (descend fuel m s placement placed)
  unfolding descend
  descend-IsOf zero s placement placed = tt
  descend-IsOf (suc fuel) s placement placed =
      node-Returns s placement
        (descend_each (descend fuel m) (nested_children m s.id (add s.id placed)) (add s.id placed))
        (descend_each-AreAt (IsUnder s.id) (descend fuel m) (descend-IsOf fuel)
          (nested_children m s.id (add s.id placed)) (add s.id placed)
          (kids-IsUnder s.id (add s.id placed) (or_else (lookup s.id m) []) (family s.id)))

module _ (steps : List StepView) where
  pub parents_of_family :
      (m : List (Text × List StepView))
      → IsFamily steps m
      → (k : Text) → All (λ (c : StepView). c.parent_step_id ≡ some k) (or_else (lookup k m) [])
  parents_of_family m family = λ k.
      All-map (IsChild steps k) (λ (c : StepView). c.parent_step_id ≡ some k) (λ c child. child.1)
        (or_else (lookup k m) []) (family k).0

  stranded-Returns :
      (T : StepView → StepPlacement → Type 0) (s : StepView) (placed : List Text)
      (first : Option (StepNode × List Text)) (rest : List Text → Option (StepNodes × List Text))
      → T s cycle
      → Returns (IsOf s cycle) first
      → Walked steps node_count (text_eq s.id) placed first
      → ((after : List Text)
          → Fits steps after
          → Grown steps (text_eq s.id) placed after
          → Returns (AreAt T) (rest after))
      → Returns
          (AreAt T)
          (first >>= λ (n, after). rest after >>= λ (others, last). some (more n others, last))
  stranded-Returns T s placed none rest t h w k = tt
  stranded-Returns T s placed (some (n, after)) rest t h (fits, g, counts) k =
      more-Returns T s cycle n (rest after) t h (k after fits g)

  -- A step is stranded only if it was not placed before the loop.
  pub place_stranded-AreAt :
      (m : List (Text × List StepView)) (fuel : ℕ) (T : StepView → StepPlacement → Type 0)
      (l : List StepView) (start placed : List Text)
      → IsFamily steps m
      → Fits steps placed
      → All (IsListed steps) l
      → unplaced steps placed ≤ fuel
      → ((x : Text) → has x start ≡ true → has x placed ≡ true)
      → All (λ (s : StepView). (has s.id start ≡ true) ⊎ T s cycle) l
      → Returns (AreAt T) (place_stranded fuel m l placed)
  unfolding place_stranded
  place_stranded-AreAt m fuel T [] start placed family fits listed le keeps h = tt
  place_stranded-AreAt m fuel T (s ∷ l) start placed family fits (here, listed) le keeps (h, hs) =
      elim (Bool-cases (has s.id placed)) [
        | inl old ↦
            rw (Returns, old)
              (place_stranded-AreAt m fuel T l start placed family fits listed le keeps hs)
        | inr new ↦ elim h [
          | inl early ↦ ground (arith, keeps s.id early)
          | inr t ↦
              rw (Returns, new)
                (stranded-Returns T s placed (descend fuel m s cycle placed)
                  (place_stranded fuel m l) t
                  (descend-IsOf m (parents_of_family m family) fuel s cycle placed)
                  (descend-Descends steps m family fuel s cycle placed fits here new le)
                  (λ after fits2 g.
                    place_stranded-AreAt m fuel T l start after family fits2 listed
                      (omega (arith, le, unplaced-le steps (text_eq s.id) placed after g))
                      (λ x old. g.keeps x (keeps x old)) hs))
        ]
      ]
