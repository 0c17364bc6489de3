-- ===== src/Dashboard/StepTree/Siblings.antt =====
-- Steps that are walked one after the other.
use mathlib.Core.Logic.{◌≢◌}
use lengentic.Base.{
  ℕ, ◌+◌, ◌≤◌, ◌≡◌, Bool, true, false, Option, none, some, List, [], ◌∷◌, count, ◌>>=◌, ◌⊎◌, inl,
  inr, All, All-map, Bool-cases, arith,
}
use lengentic.Base.Folds.{HasDistinct}
use lengentic.Base.Text.{Text, text_eq}
use lengentic.Base.Assoc.{text_Eq}
use lengentic.Dashboard.Views.{StepView}
use lengentic.Dashboard.StepTree.Walks.{
  node_count, nodes_count, IsListed, unplaced, Fits, Grown, Walked, IsReady, own_all, later_IsReady,
  chained, Grown-self, unplaced-le,
}
use lengentic.Dashboard.StepTree.{StepPlacement, StepNode, StepNodes, more, has, descend_each}

module _ (steps : List StepView) where
  -- A walk from one step, on enough fuel.
  abbrev pub Descends :
      (StepView → StepPlacement → List Text → Option (StepNode × List Text)) → ℕ → Type 0
  Descends go fuel =
      (s : StepView) (placement : StepPlacement) (placed : List Text)
      → Fits steps placed
      → IsListed steps s
      → has s.id placed ≡ false
      → unplaced steps placed ≤ fuel
      → Walked steps node_count (text_eq s.id) placed (go s placement placed)

  appended :
      (s : StepView) (own own_rest : Text → Bool) (before after : List Text) (first : StepNode)
      (rest : Option (StepNodes × List Text))
      → ((x : Text) → text_eq s.id x ≡ true → own x ≡ true)
      → ((x : Text) → own_rest x ≡ true → own x ≡ true)
      → ((x : Text) → own x ≡ true → (text_eq s.id x ≡ true) ⊎ (own_rest x ≡ true))
      → Grown steps (text_eq s.id) before after
      → ((p : Text → Bool) → count p after ≡ node_count p first + count p before)
      → Walked steps nodes_count own_rest after rest
      → Walked steps nodes_count own before
          (rest >>= λ (others, last). some (more first others, last))
  appended s own own_rest before after first none sub sub2 split g c h = h
  appended s own own_rest before after first (some (others, last)) sub sub2 split g c
        (fits, grown, counts) =
      (
        fits,
        chained steps own (text_eq s.id) own_rest before after last sub sub2 split g grown,
        λ p. omega (arith, c p, counts p),
      )

  headed :
      (s : StepView) (own : Text → Bool) (before : List Text)
      (first : Option (StepNode × List Text)) (rest : List Text → Option (StepNodes × List Text))
      → Walked steps node_count (text_eq s.id) before first
      → ((after : List Text) (n : StepNode)
          → Fits steps after
          → Grown steps (text_eq s.id) before after
          → ((p : Text → Bool) → count p after ≡ node_count p n + count p before)
          → Walked steps nodes_count own before
              (rest after >>= λ (others, last). some (more n others, last)))
      → Walked steps nodes_count own before
          (first >>= λ (n, after). rest after >>= λ (others, last). some (more n others, last))
  headed s own before none rest h k = h
  headed s own before (some (n, after)) rest (fits, grown, counts) k = k after n fits grown counts

  IsReady-and_apart :
      (placed : List Text) (s : StepView) (items : List (StepView × StepPlacement))
      → All (IsReady steps placed) items
      → All (λ i. s.id ≢ i.0.id) items
      → All (λ i. IsReady steps placed i × (s.id ≢ i.0.id)) items
  IsReady-and_apart placed s [] h k = tt
  IsReady-and_apart placed s (i ∷ items) (h, hs) (k, ks) =
      ((h, k), IsReady-and_apart placed s items hs ks)

  pub descend_each-Walked :
      (go : StepView → StepPlacement → List Text → Option (StepNode × List Text)) (fuel : ℕ)
      (items : List (StepView × StepPlacement)) (placed : List Text)
      → Descends go fuel
      → Fits steps placed
      → All (IsReady steps placed) items
      → HasDistinct (λ i. i.0.id) items
      → unplaced steps placed ≤ fuel
      → Walked steps nodes_count (own_all steps items) placed (descend_each go items placed)
  unfolding descend_each
  descend_each-Walked go fuel [] placed d fits ready distinct le =
      (fits, Grown-self steps placed, λ p. omega arith)
  descend_each-Walked go fuel ((s, placement) ∷ items) placed d fits (r, ready) (apart, distinct)
        le =
      headed s (own_all steps ((s, placement) ∷ items)) placed (go s placement placed)
        (descend_each go items) (d s placement placed fits r.listed r.fresh le)
        (λ after n fits2 grown counts.
          appended s (own_all steps ((s, placement) ∷ items)) (own_all steps items) placed after n
            (descend_each go items after) (λ x h. ground arith) (λ x h. ground arith)
            (λ x h. elim (Bool-cases (text_eq s.id x)) [
              | inl same ↦ inl same
              | inr other ↦ inr (rw other at h)
            ])
            grown counts
            (descend_each-Walked go fuel items after d fits2
              (All-map (λ i. IsReady steps placed i × (s.id ≢ i.0.id)) (IsReady steps after)
                (λ i. later_IsReady steps s placed after i fits2 grown) items
                (IsReady-and_apart placed s items ready apart))
              distinct (omega (arith, le, unplaced-le steps (text_eq s.id) placed after grown))))
