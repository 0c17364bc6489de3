-- ===== src/Dashboard/StepTree.antt =====
-- platform/dashboard/src/lib/step-tree.ts: the flat steps of a Run as a tree. `descend` runs on fuel:
-- `none` where there is too little; `build_step_tree` gives as much as there are steps. The set
-- `placed` is a list of ids.
pub mod Walks
pub mod Siblings
pub mod Descent
pub mod Families
pub mod Stranded
pub mod Placement
pub mod Genealogy
pub mod Kinship
use lengentic.Base.{
  ℕ, zero, suc, ◌+◌, Bool, true, false, not, Option, none, some, List, [], ◌∷◌, ◌++◌, map, filter,
  any, length, or_else, ◌>>=◌, if◌then◌else◌,
}
use lengentic.Base.Text.{Text, text_eq}
use lengentic.Base.Assoc.{lookup, assign, text_Eq}
use lengentic.Dashboard.Views.{StepView}

pub data StepPlacement : Type 0 where
  root nested orphaned cycle : StepPlacement

mutual
  pub data StepNode : Type 0 where
    node : StepView → StepPlacement → StepNodes → StepNode

  pub data StepNodes : Type 0 where
    no_nodes : StepNodes
    more : StepNode → StepNodes → StepNodes

abbrev pub has : Text → List Text → Bool
has x placed = any (text_eq x) placed

abbrev pub add : Text → List Text → List Text
add x placed = if has x placed then placed else x ∷ placed

pub record Sorted : Type 0 where
  pub children_by_parent : List (Text × List StepView)
  pub top_level : List (StepView × StepPlacement)

abbrev pub push_child : Text → StepView → List (Text × List StepView) → List (Text × List StepView)
push_child parent step m = assign parent (or_else (lookup parent m) [] ++ step ∷ []) m

-- One round of the first loop.
abbrev pub sort_step : List Text → StepView → Option Text → Sorted → Sorted
sort_step ids step none s = record s { top_level = s.top_level ++ (step, root) ∷ [] }
sort_step ids step (some parent) s =
    if has parent ids
    then record s { children_by_parent = push_child parent step s.children_by_parent }
    else record s { top_level = s.top_level ++ (step, orphaned) ∷ [] }

unfoldable pub sort_steps : List Text → List StepView → Sorted → Sorted
sort_steps ids [] s = s
sort_steps ids (step ∷ steps) s = sort_steps ids steps (sort_step ids step step.parent_step_id s)

abbrev pub nested_children :
    List (Text × List StepView) → Text → List Text → List (StepView × StepPlacement)
nested_children m id placed =
    map (λ c. (c, nested)) (filter (λ c. not (has c.id placed)) (or_else (lookup id m) []))

-- A list of steps, each of them descended by `go`.
unfoldable pub descend_each :
    (StepView → StepPlacement → List Text → Option (StepNode × List Text))
    → List (StepView × StepPlacement)
    → List Text
    → Option (StepNodes × List Text)
descend_each go [] placed = some (no_nodes, placed)
descend_each go ((step, placement) ∷ rest) placed = do
  (first, after) ← go step placement placed
  (others, last) ← descend_each go rest after
  some (more first others, last)

unfoldable pub descend :
    ℕ
    → List (Text × List StepView)
    → StepView
    → StepPlacement
    → List Text
    → Option (StepNode × List Text)
unfolding descend_each
descend zero m step placement placed = none
descend (suc fuel) m step placement placed = do
  (children, after) ←
      descend_each (descend fuel m) (nested_children m step.id (add step.id placed))
        (add step.id placed)
  some (node step placement children, after)

abbrev pub append_nodes : StepNodes → StepNodes → StepNodes
append_nodes no_nodes ns = ns
append_nodes (more n ms) ns = more n (append_nodes ms ns)

-- The loop over what no root reaches.
unfoldable pub place_stranded :
    ℕ → List (Text × List StepView) → List StepView → List Text → Option (StepNodes × List Text)
unfolding descend
place_stranded fuel m [] placed = some (no_nodes, placed)
place_stranded fuel m (step ∷ steps) placed = elim (has step.id placed) [
  | true ↦ place_stranded fuel m steps placed
  | false ↦ do
    (first, after) ← descend fuel m step cycle placed
    (others, last) ← place_stranded fuel m steps after
    some (more first others, last)
]

abbrev pub start_sorted : Sorted
start_sorted = record { children_by_parent = []; top_level = [] }

abbrev pub step_ids : List StepView → List Text
step_ids steps = map (λ s. s.id) steps

unfoldable pub build_step_tree : List StepView → Option StepNodes
unfolding sort_steps descend descend_each place_stranded
build_step_tree steps = do
  let s = sort_steps (step_ids steps) steps start_sorted
  (nodes, placed) ← descend_each (descend (length steps) s.children_by_parent) s.top_level []
  (stranded, last) ← place_stranded (length steps) s.children_by_parent steps placed
  some (append_nodes nodes stranded)
