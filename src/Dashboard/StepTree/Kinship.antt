-- ===== src/Dashboard/StepTree/Kinship.antt =====
-- The placements of the whole tree.
use mathlib.Core.Path.{subst}
use mathlib.Core.Option.{some-injective}
use lengentic.Base.{
  ◌≡◌, refl, sym, Bool, true, false, not, Option, none, some, List, [], ◌∷◌, ◌++◌, any, any-append,
  length, count-le-length, ◌>>=◌, ◌⊎◌, inl, inr, All, All-map, Bool-cases, arith,
}
use lengentic.Base.Folds.{HasDistinct}
use lengentic.Base.Text.{Text, text_eq, text_eq_self}
use lengentic.Dashboard.Views.{StepView}
use lengentic.Dashboard.StepTree.{
  StepPlacement, root, nested, orphaned, cycle, StepNodes, append_nodes, has, sort_steps, step_ids,
  start_sorted, descend, descend_each, place_stranded, build_step_tree,
}
use lengentic.Dashboard.StepTree.Walks.{nodes_count, Fits, Grown, Walked, own_all}
use lengentic.Dashboard.StepTree.Siblings.{descend_each-Walked}
use lengentic.Dashboard.StepTree.Descent.{descend-Descends}
use lengentic.Dashboard.StepTree.Families.{
  top_of, tops, sort_steps-top, sorted-IsFamily, tops-IsReady, tops-HasDistinct,
}
use lengentic.Dashboard.StepTree.Placement.{All-IsListed}
use lengentic.Dashboard.StepTree.Genealogy.{
  parents_of_family, AreAt, AreAt-append, Returns, descend_each-AreAt, descend-IsOf,
  place_stranded-AreAt,
}

-- What the placement of a node at the top level says of its step.
abbrev pub IsAtTop : List Text → StepView → StepPlacement → Type 0
IsAtTop ids s root = s.parent_step_id ≡ none
IsAtTop ids s orphaned = (p : Text) × (s.parent_step_id ≡ some p) × (has p ids ≡ false)
IsAtTop ids s cycle = (p : Text) × (s.parent_step_id ≡ some p) × (has p ids ≡ true)
IsAtTop ids s nested = true ≡ false

abbrev AreTops : List Text → List (StepView × StepPlacement) → Type 0
AreTops ids items = All (λ (i : StepView × StepPlacement). IsAtTop ids i.0 i.1) items

top_of-AreTops :
    (ids : List Text) (s : StepView) (parent : Option Text) (rest : List (StepView × StepPlacement))
    → s.parent_step_id ≡ parent
    → AreTops ids rest
    → AreTops ids (top_of ids s parent ++ rest)
top_of-AreTops ids s none rest e h = (e, h)
top_of-AreTops ids s (some p) rest e h = elim (Bool-cases (has p ids)) [
  | inl there ↦ rw there h
  | inr missing ↦ rw missing ((p, e, missing), h)
]

tops-AreTops : (ids : List Text) (l : List StepView) → AreTops ids (tops ids l)
tops-AreTops ids [] = tt
tops-AreTops ids (s ∷ l) =
    top_of-AreTops ids s s.parent_step_id (tops ids l) refl (tops-AreTops ids l)

-- A step that is not at the top level names a parent among the steps.
abbrev IsPlaceable : List Text → List (StepView × StepPlacement) → StepView → Type 0
IsPlaceable ids items s = (any (λ i. text_eq i.0.id s.id) items ≡ true) ⊎ IsAtTop ids s cycle

top_of-IsPlaceable :
    (ids : List Text) (s : StepView) (parent : Option Text) (rest : List (StepView × StepPlacement))
    → s.parent_step_id ≡ parent
    → IsPlaceable ids (top_of ids s parent ++ rest) s
top_of-IsPlaceable ids s none rest e = inl (ground (arith, text_eq_self s.id))
top_of-IsPlaceable ids s (some p) rest e = elim (Bool-cases (has p ids)) [
  | inl there ↦ inr (p, e, there)
  | inr missing ↦ inl (rw missing (ground (arith, text_eq_self s.id)))
]

later-IsPlaceable :
    (ids : List Text) (first rest : List (StepView × StepPlacement)) (s : StepView)
    → IsPlaceable ids rest s
    → IsPlaceable ids (first ++ rest) s
later-IsPlaceable ids first rest s (inr h) = inr h
later-IsPlaceable ids first rest s (inl h) =
    inl (ground (arith, any-append (λ i. text_eq i.0.id s.id) first rest))

tops-IsPlaceable : (ids : List Text) (l : List StepView) → All (IsPlaceable ids (tops ids l)) l
tops-IsPlaceable ids [] = tt
tops-IsPlaceable ids (s ∷ l) = (
  top_of-IsPlaceable ids s s.parent_step_id (tops ids l) refl,
  All-map (IsPlaceable ids (tops ids l)) (IsPlaceable ids (tops ids (s ∷ l)))
      (later-IsPlaceable ids (top_of ids s s.parent_step_id) (tops ids l)) l
      (tops-IsPlaceable ids l),
)

joined-AreAt :
    (T : StepView → StepPlacement → Type 0) (nodes tree : StepNodes)
    (r : Option (StepNodes × List Text))
    → AreAt T nodes
    → Returns (AreAt T) r
    → (r >>= λ (stranded, last). some (append_nodes nodes stranded)) ≡ some tree
    → AreAt T tree
joined-AreAt T nodes tree none h k e = cc
joined-AreAt T nodes tree (some (stranded, last)) h k e =
    subst (AreAt T) (some-injective _ tree e) (AreAt-append T nodes stranded h k)

rooted-AreAt :
    (steps : List StepView) (T : StepView → StepPlacement → Type 0) (own : Text → Bool)
    (tree : StepNodes) (r : Option (StepNodes × List Text))
    (rest : List Text → Option (StepNodes × List Text))
    → Walked steps nodes_count own [] r
    → Returns (AreAt T) r
    → ((placed : List Text)
        → Fits steps placed
        → Grown steps own [] placed
        → Returns (AreAt T) (rest placed))
    → (r >>= λ (nodes, placed).
        rest placed >>= λ (stranded, last). some (append_nodes nodes stranded))
      ≡ some tree
    → AreAt T tree
rooted-AreAt steps T own tree none rest w h k e = cc
rooted-AreAt steps T own tree (some (nodes, placed)) rest (fits, g, counts) h k e =
    joined-AreAt T nodes tree (rest placed) h (k placed fits g) e

-- In the tree of steps with distinct ids each node below another is marked as nested and names
-- that other as its parent; at the top level a root names no parent, an orphan one that is not
-- among the steps, and a step marked as in a cycle one that is.
pub build_step_tree-AreAt :
    (steps : List StepView) (tree : StepNodes)
    → HasDistinct (λ (s : StepView). s.id) steps
    → build_step_tree steps ≡ some tree
    → AreAt (IsAtTop (step_ids steps)) tree
unfolding build_step_tree
build_step_tree-AreAt steps tree distinct built =
    let ids = step_ids steps in
    let sorted = sort_steps ids steps start_sorted in
    let m = sorted.children_by_parent in
    let listed = All-IsListed steps distinct in
    let family = sorted-IsFamily steps ids listed distinct in
    let own = own_all steps (tops ids steps) in
    let top_walk = λ (items : List (StepView × StepPlacement)).
      descend_each (descend (length steps) m) items [] in
    let same = sym (sort_steps-top ids steps start_sorted) in
    rooted-AreAt steps (IsAtTop ids) own tree (top_walk sorted.top_level)
      (place_stranded (length steps) m steps)
      (subst (λ items. Walked steps nodes_count own [] (top_walk items)) same
        (descend_each-Walked steps (descend (length steps) m) (length steps) (tops ids steps) []
          (descend-Descends steps m family (length steps))
          (record { once = λ x. omega arith; listed = λ x h. cc }) (tops-IsReady steps steps listed)
          (tops-HasDistinct ids steps distinct) (count-le-length (λ s. not (has s.id [])) steps)))
      (subst (λ items. Returns (AreAt (IsAtTop ids)) (top_walk items)) same
        (descend_each-AreAt (IsAtTop ids) (descend (length steps) m)
          (descend-IsOf m (parents_of_family steps m family) (length steps)) (tops ids steps) []
          (tops-AreTops ids steps)))
      (λ placed fits g.
        place_stranded-AreAt steps m (length steps) (IsAtTop ids) steps placed placed family fits
          listed (count-le-length (λ s. not (has s.id placed)) steps) (λ x h. h)
          (All-map (IsPlaceable ids (tops ids steps))
            (λ s. (has s.id placed ≡ true) ⊎ IsAtTop ids s cycle)
            (λ s h. elim h [ inl top ↦ inl (g.reaches s.id top) | inr t ↦ inr t ]) steps
            (tops-IsPlaceable ids steps)))
      built
