-- ===== src/Dashboard/StepTree/Descent.antt =====
-- `descend` places the step that it is called on, and each id at most once.
use mathlib.Core.Logic.{◌≢◌}
use mathlib.Core.Option.{some-injective}
use lengentic.Base.{
  ℕ, zero, suc, ◌≤◌, ◌≡◌, refl, sym, ap, ◌∙◌, Bool, true, false, not, Option, none, some, List, [],
  ◌∷◌, map, filter, count, or_else, ◌>>=◌, inl, inr, All, Bool-cases, arith, subst,
}
use lengentic.Base.Folds.{HasDistinct}
use lengentic.Base.Text.{Text, text_eq, text_eq→eq, text_eq_self}
use lengentic.Base.Assoc.{lookup, text_Eq}
use lengentic.Dashboard.Views.{StepView}
use lengentic.Dashboard.StepTree.Walks.{
  node_count, nodes_count, parent_of, IsListed, unplaced, Fits, Grown, Walked, IsReady, own_all,
  earlier, count-le,
}
use lengentic.Dashboard.StepTree.Siblings.{Descends, descend_each-Walked}
use lengentic.Dashboard.StepTree.{
  StepPlacement, nested, node, StepNodes, has, descend, nested_children,
}

-- Placing an id that the list has leaves one less.
taken :
    (x : Text) (placed : List Text) (l : List StepView) (q : Option Text)
    → parent_of l x ≡ some q
    → has x placed ≡ false
    → suc (unplaced l (x ∷ placed)) ≤ unplaced l placed
unfolding lookup
taken x placed [] q h new = cc
taken x placed (s ∷ l) q h new = elim (Bool-cases (text_eq s.id x)) [
  | inl same ↦
      let kept =
        count-le (λ s. not (has s.id (x ∷ placed))) (λ s. not (has s.id placed))
          (λ a fresh. ground arith) l in
      let free : has s.id placed ≡ false = ap (λ z. has z placed) (text_eq→eq s.id x same) ∙ new in
      rw (same, free) (omega (arith, kept))
  | inr other ↦ rw other (omega (arith, taken x placed l q (rw other at h) new))
]

module _ (steps : List StepView) where
  -- What the map of children is known to hold.
  abbrev pub IsChild : Text → StepView → Type 0
  IsChild parent c = IsListed steps c × (c.parent_step_id ≡ some parent)

  abbrev pub IsFamily : List (Text × List StepView) → Type 0
  IsFamily m =
      (k : Text)
      → All (IsChild k) (or_else (lookup k m) [])
        × HasDistinct (λ c. c.id) (or_else (lookup k m) [])

  parent_of_child : (k : Text) (c : StepView) → IsChild k c → parent_of steps c.id ≡ some (some k)
  parent_of_child k c (listed, named) = listed ∙ ap some named

  kids-IsReady :
      (k : Text) (placed : List Text) (cs : List StepView)
      → has k placed ≡ true
      → All (IsChild k) cs
      → All (IsReady steps placed) (map (λ c. (c, nested)) (filter (λ c. not (has c.id placed)) cs))
  kids-IsReady k placed [] there h = tt
  kids-IsReady k placed (c ∷ cs) there (child, h) = elim (Bool-cases (has c.id placed)) [
    | inl old ↦ rw old (kids-IsReady k placed cs there h)
    | inr new ↦ rw new (
      record {
        listed = child.0;
        fresh = new;
        safe = λ y named. inl (
            subst (λ z. has z placed ≡ true)
              (some-injective k y (some-injective _ _ (sym (parent_of_child k c child) ∙ named)))
              there);
      },
      kids-IsReady k placed cs there h,
    )
  ]

  kids-apart :
      (placed : List Text) (id : Text) (cs : List StepView)
      → All (λ c. id ≢ c.id) cs
      → All
          (λ (i : StepView × StepPlacement). id ≢ i.0.id)
          (map (λ c. (c, nested)) (filter (λ c. not (has c.id placed)) cs))
  kids-apart placed id [] h = tt
  kids-apart placed id (c ∷ cs) (h, hs) = elim (Bool-cases (has c.id placed)) [
    | inl old ↦ rw old (kids-apart placed id cs hs)
    | inr new ↦ rw new (h, kids-apart placed id cs hs)
  ]

  kids-HasDistinct :
      (placed : List Text) (cs : List StepView)
      → HasDistinct (λ c. c.id) cs
      → HasDistinct
          (λ (i : StepView × StepPlacement). i.0.id)
          (map (λ c. (c, nested)) (filter (λ c. not (has c.id placed)) cs))
  kids-HasDistinct placed [] h = tt
  kids-HasDistinct placed (c ∷ cs) (h, hs) = elim (Bool-cases (has c.id placed)) [
    | inl old ↦ rw old (kids-HasDistinct placed cs hs)
    | inr new ↦ rw new (kids-apart placed c.id cs h, kids-HasDistinct placed cs hs)
  ]

  own-kids :
      (k : Text) (placed : List Text) (cs : List StepView) (x : Text)
      → All (IsChild k) cs
      → own_all steps (map (λ c. (c, nested)) (filter (λ c. not (has c.id placed)) cs)) x ≡ true
      → parent_of steps x ≡ some (some k)
  own-kids k placed [] x h e = cc
  own-kids k placed (c ∷ cs) x (child, h) e = elim (Bool-cases (has c.id placed)) [
    | inl old ↦ own-kids k placed cs x h (rw old at e)
    | inr new ↦ elim (Bool-cases (text_eq c.id x)) [
      | inl same ↦
          subst (λ z. parent_of steps z ≡ some (some k)) (text_eq→eq c.id x same)
            (parent_of_child k c child)
      | inr other ↦ own-kids k placed cs x h (rw (new, other) at e)
    ]
  ]

  -- Placing one step.
  count-fresh :
      (x : Text) (placed : List Text) → has x placed ≡ false → count (text_eq x) placed ≡ 0
  count-fresh x [] h = refl
  count-fresh x (y ∷ ys) h = ground (arith, count-fresh x ys)

  placed-Fits :
      (s : StepView) (placed : List Text)
      → Fits steps placed
      → IsListed steps s
      → has s.id placed ≡ false
      → Fits steps (s.id ∷ placed)
  placed-Fits s placed fits listed new = record {
    once = λ x. elim (Bool-cases (text_eq x s.id)) [
      | inl same ↦ rw same (
          omega
            (arith, count-fresh x placed (ap (λ z. has z placed) (text_eq→eq x s.id same) ∙ new)))
      | inr other ↦ rw other (omega (arith, fits.once x))
    ];
    listed = λ x h. elim (Bool-cases (text_eq x s.id)) [
      | inl same ↦ (s.parent_step_id, ap (parent_of steps) (text_eq→eq x s.id same) ∙ listed)
      | inr other ↦ fits.listed x (rw other at h)
    ];
  }

  placed-Grown :
      (s : StepView) (placed : List Text) → Grown steps (text_eq s.id) placed (s.id ∷ placed)
  placed-Grown s placed = record {
    keeps = λ x h. ground arith;
    reaches = λ x h. ground (arith, ap (text_eq x) (text_eq→eq s.id x h), text_eq_self x);
    origin = λ x h. elim (Bool-cases (text_eq x s.id)) [
      | inl same ↦ inr (inl (ap (text_eq s.id) (text_eq→eq x s.id same) ∙ text_eq_self s.id))
      | inr other ↦ inl (rw other at h)
    ];
  }

  -- From the placed step to its descendants.
  below :
      (s : StepView) (own : Text → Bool) (placed after : List Text)
      → has s.id placed ≡ false
      → ((x : Text) → own x ≡ true → parent_of steps x ≡ some (some s.id))
      → Grown steps own (s.id ∷ placed) after
      → Grown steps (text_eq s.id) placed after
  below s own placed after new parented g = record {
    keeps = λ x h. g.keeps x (ground arith);
    reaches = λ x h. g.keeps x ((placed-Grown s placed).reaches x h);
    origin = λ x h. elim (g.origin x h) [
      | inl old ↦ elim ((placed-Grown s placed).origin x old) [
        | inl before ↦ inl before
        | inr (inl mine) ↦ inr (inl mine)
        | inr (inr (y, named, there, unseen)) ↦ inr (inr (y, named, g.keeps y there, unseen))
      ]
      | inr (inl mine) ↦
          inr (inr (s.id, parented x mine, g.keeps s.id (ground (arith, text_eq_self s.id)), new))
      | inr (inr (y, named, there, unseen)) ↦
          inr (inr (y, named, there, earlier steps (placed-Grown s placed) y unseen))
    ];
  }

  finished :
      (s : StepView) (placement : StepPlacement) (own : Text → Bool) (placed : List Text)
      (r : Option (StepNodes × List Text))
      → has s.id placed ≡ false
      → ((x : Text) → own x ≡ true → parent_of steps x ≡ some (some s.id))
      → Walked steps nodes_count own (s.id ∷ placed) r
      → Walked steps node_count
          (text_eq s.id)
          placed
          (r >>= λ (children, after). some (node s placement children, after))
  finished s placement own placed none new parented h = h
  finished s placement own placed (some (children, after)) new parented (fits, g, counts) =
      (fits, below s own placed after new parented g, λ p. omega (arith, counts p))

  one_less :
      (s : StepView) (placed : List Text)
      → IsListed steps s
      → has s.id placed ≡ false
      → suc (unplaced steps (s.id ∷ placed)) ≤ unplaced steps placed
  one_less s placed listed new = taken s.id placed steps s.parent_step_id listed new

  pub descend-Descends :
      (m : List (Text × List StepView))
      → IsFamily m
      → (fuel : ℕ) → Descends steps (descend fuel m) fuel
  unfolding descend
  descend-Descends m family zero s placement placed fits listed new le =
      absurd (omega (arith, le, one_less s placed listed new))
  descend-Descends m family (suc fuel) s placement placed fits listed new le = rw (new) (
      finished s placement (own_all steps (nested_children m s.id (s.id ∷ placed))) placed _ new
        (λ x. own-kids s.id (s.id ∷ placed) (or_else (lookup s.id m) []) x (family s.id).0)
        (descend_each-Walked steps (descend fuel m) fuel (nested_children m s.id (s.id ∷ placed))
          (s.id ∷ placed) (descend-Descends m family fuel) (placed-Fits s placed fits listed new)
          (kids-IsReady s.id (s.id ∷ placed) (or_else (lookup s.id m) [])
            (ground (arith, text_eq_self s.id)) (family s.id).0)
          (kids-HasDistinct (s.id ∷ placed) (or_else (lookup s.id m) []) (family s.id).1)
          (omega (arith, le, one_less s placed listed new))))
