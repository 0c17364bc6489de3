-- ===== src/Dashboard/Tests.antt =====
-- Examples for the theorems on the dashboard's lib/: a run with a closed, a reversed and an unplaced
-- step, and a tree with an orphan and a cycle.
use lengentic.Base.{arith, refl, List, ℕ, ◌≡◌, Option, none, some, [], ◌∷◌, All, count}
use lengentic.Base.Folds.{HasDistinct}
use lengentic.Base.Assoc.{lookup, assign}
use lengentic.Base.Text.{Text, text, text_eq}
use lengentic.Dashboard.Views.{StepView, RunDetailView}
use lengentic.Dashboard.StepTree.{StepNodes, no_nodes, step_ids, build_step_tree}
use lengentic.Dashboard.StepTree.Walks.{nodes_count}
use lengentic.Dashboard.StepTree.Genealogy.{AreAt}
use lengentic.Dashboard.StepTree.Kinship.{IsAtTop, build_step_tree-AreAt}
use lengentic.Dashboard.StepTree.Placement.{build_step_tree-places_all}
use lengentic.Dashboard.Timeline.{build_run_timeline}
use lengentic.Dashboard.Timeline.Axis.{IsOnAxis, build_run_timeline-IsOnAxis}

abbrev early : Option Text
early = some (text "2026-01-01T00:00:01Z")

abbrev late : Option Text
late = some (text "2026-01-01T00:00:04Z")

abbrev run : RunDetailView
run = record {
  started_at = some (text "2026-01-01T00:00:00Z");
  completed_at = none;
  steps =
      record { id = text "a"; parent_step_id = none; started_at = early; completed_at = late }
      ∷ record { id = text "b"; parent_step_id = none; started_at = late; completed_at = early }
      ∷ record { id = text "c"; parent_step_id = none; started_at = none; completed_at = none }
      ∷ [];
}

abbrev to_iso : ℕ → Text
to_iso ms = ms ∷ []

build_run_timeline-IsOnAxis_example : All IsOnAxis (build_run_timeline to_iso run).entries
build_run_timeline-IsOnAxis_example = build_run_timeline-IsOnAxis to_iso run

-- A root with a child, a step whose parent was never delivered, and a cycle of two.
abbrev step_under : Text → Option Text → StepView
step_under id parent = record {
  id = id;
  parent_step_id = parent;
  started_at = early;
  completed_at = none;
}

abbrev steps : List StepView
steps =
    step_under (text "b") (some (text "a"))
    ∷ step_under (text "a") none
    ∷ step_under (text "c") (some (text "z"))
    ∷ step_under (text "d") (some (text "e"))
    ∷ step_under (text "e") (some (text "d"))
    ∷ []

steps-HasDistinct : HasDistinct (λ (s : StepView). s.id) steps
steps-HasDistinct = ground arith

build_step_tree-places_all_example :
    (nodes : StepNodes) × (build_step_tree steps ≡ some nodes)
    × ((x : Text) → nodes_count (text_eq x) nodes ≡ count (λ s. text_eq x s.id) steps)
build_step_tree-places_all_example = build_step_tree-places_all steps steps-HasDistinct

abbrev tree_of : Option StepNodes → StepNodes
tree_of none = no_nodes
tree_of (some nodes) = nodes

build_step_tree-AreAt_example : AreAt (IsAtTop (step_ids steps)) (tree_of (build_step_tree steps))
unfolding build_step_tree text_eq lookup assign
build_step_tree-AreAt_example =
    build_step_tree-AreAt steps (tree_of (build_step_tree steps)) steps-HasDistinct refl
