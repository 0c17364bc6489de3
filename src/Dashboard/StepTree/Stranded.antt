-- ===== src/Dashboard/StepTree/Stranded.antt =====
-- The loop over the steps that no root reaches.
use lengentic.Base.{
  ℕ, ◌+◌, ◌≤◌, ◌≡◌, Bool, true, false, Option, none, some, List, [], ◌∷◌, count, ◌>>=◌, inl, inr,
  All, Bool-cases, arith,
}
use lengentic.Base.Text.{Text, text_eq, text_eq_self}
use lengentic.Base.Assoc.{text_Eq}
use lengentic.Dashboard.Views.{StepView}
use lengentic.Dashboard.StepTree.{cycle, StepNode, StepNodes, more, has, descend, place_stranded}
use lengentic.Dashboard.StepTree.Walks.{
  node_count, nodes_count, IsListed, unplaced, Fits, Grown, Walked, unplaced-le,
}
use lengentic.Dashboard.StepTree.Siblings.{Descends}

module _ (steps : List StepView) where
  -- What the loop over the stranded steps leaves.
  abbrev pub Placed : List StepView → List Text → Option (StepNodes × List Text) → Type 0
  Placed l before none = true ≡ false
  Placed l before (some (ns, after)) =
      Fits steps after
      × All (λ (s : StepView). has s.id after ≡ true) l
      × ((x : Text) → has x before ≡ true → has x after ≡ true)
      × ((p : Text → Bool) → count p after ≡ nodes_count p ns + count p before)

  abbrev then_more : StepNode → Option (StepNodes × List Text) → Option (StepNodes × List Text)
  then_more first rest = rest >>= λ (others, last). some (more first others, last)

  after_skip :
      (s : StepView) (l : List StepView) (before : List Text) (r : Option (StepNodes × List Text))
      → has s.id before ≡ true
      → Placed l before r
      → Placed (s ∷ l) before r
  after_skip s l before none there h = h
  after_skip s l before (some (ns, after)) there (fits, all, keeps, counts) =
      (fits, (keeps s.id there, all), keeps, counts)

  after_first :
      (s : StepView) (l : List StepView) (before after : List Text) (first : StepNode)
      (r : Option (StepNodes × List Text))
      → has s.id after ≡ true
      → Grown steps (text_eq s.id) before after
      → ((p : Text → Bool) → count p after ≡ node_count p first + count p before)
      → Placed l after r
      → Placed (s ∷ l) before (then_more first r)
  after_first s l before after first none there g c h = h
  after_first s l before after first (some (ns, last)) there g c (fits, all, keeps, counts) = (
    fits,
    (keeps s.id there, all),
    λ x old. keeps x (g.keeps x old),
    λ p. omega (arith, c p, counts p),
  )

  after_walk :
      (s : StepView) (l : List StepView) (before : List Text)
      (first : Option (StepNode × List Text)) (rest : List Text → Option (StepNodes × List Text))
      → Walked steps node_count (text_eq s.id) before first
      → ((after : List Text)
          → Fits steps after
          → Grown steps (text_eq s.id) before after
          → Placed l after (rest after))
      → Placed (s ∷ l) before (first >>= λ (n, after). then_more n (rest after))
  after_walk s l before none rest h k = h
  after_walk s l before (some (n, after)) rest (fits, g, counts) k =
      after_first s l before after n (rest after) (g.reaches s.id (text_eq_self s.id)) g counts
        (k after fits g)

  pub place_stranded-Placed :
      (fuel : ℕ) (m : List (Text × List StepView)) (l : List StepView) (before : List Text)
      → Descends steps (descend fuel m) fuel
      → Fits steps before
      → All (IsListed steps) l
      → unplaced steps before ≤ fuel
      → Placed l before (place_stranded fuel m l before)
  unfolding place_stranded
  place_stranded-Placed fuel m [] before d fits listed le = (fits, tt, λ x h. h, λ p. omega arith)
  place_stranded-Placed fuel m (s ∷ l) before d fits (h, hs) le =
      elim (Bool-cases (has s.id before)) [
        | inl old ↦
            rw (Placed, old)
              (after_skip s l before (place_stranded fuel m l before) old
                (place_stranded-Placed fuel m l before d fits hs le))
        | inr new ↦
            rw (Placed, new)
              (after_walk s l before (descend fuel m s cycle before) (place_stranded fuel m l)
                (d s cycle before fits h new le)
                (λ after fits2 g.
                  place_stranded-Placed fuel m l after d fits2 hs
                    (omega (arith, le, unplaced-le steps (text_eq s.id) before after g))))
      ]
