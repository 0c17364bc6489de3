-- ===== src/Dashboard/StepTree/Walks.antt =====
-- What `descend` does to the set of placed ids.
use mathlib.Core.Logic.{◌≢◌}
use mathlib.Core.Option.{none-ne-some}
use lengentic.Base.{
  ℕ, ◌+◌, ◌≤◌, ◌≡◌, refl, sym, ◌∙◌, Bool, true, false, not, Option, none, some, List, [], ◌∷◌, map,
  any, count, if◌then◌else◌, ◌⊎◌, inl, inr, Bool-cases, arith,
}
use lengentic.Base.Text.{Text, text_eq, text_eq→eq}
use lengentic.Base.Assoc.{lookup, text_Eq}
use lengentic.Dashboard.Views.{StepView}
use lengentic.Dashboard.StepTree.{StepPlacement, StepNode, node, StepNodes, no_nodes, more, has}

abbrev mutual
  pub node_count : (Text → Bool) → StepNode → ℕ
  node_count p (node s placement children) = (if p s.id then 1 else 0) + nodes_count p children

  pub nodes_count : (Text → Bool) → StepNodes → ℕ
  nodes_count p no_nodes = 0
  nodes_count p (more n ns) = node_count p n + nodes_count p ns

pub count-le :
    {A : Type 0} (p q : A → Bool)
    → ((a : A) → p a ≡ true → q a ≡ true)
    → (xs : List A) → count p xs ≤ count q xs
count-le p q h [] = omega arith
count-le p q h (x ∷ xs) = elim (Bool-cases (p x)) [
  | inl held ↦ rw (held, h x held) (omega (arith, count-le p q h xs))
  | inr failed ↦ rw failed (omega (arith, count-le p q h xs))
]

module _ (steps : List StepView) where
  -- The parent that a step with this id names.
  abbrev pub parent_of : Text → Option (Option Text)
  parent_of x = lookup x (map (λ s. (s.id, s.parent_step_id)) steps)

  abbrev pub IsListed : StepView → Type 0
  IsListed s = parent_of s.id ≡ some s.parent_step_id

  abbrev pub unplaced : List Text → ℕ
  unplaced placed = count (λ s. not (has s.id placed)) steps

  -- Each placed id was placed once, and is one of the run's.
  pub record Fits (placed : List Text) : Type 0 where
    pub once : (x : Text) → count (text_eq x) placed ≤ 1
    pub listed : (x : Text) → has x placed ≡ true → (q : Option Text) × (parent_of x ≡ some q)

  -- Where a placed id comes from: it was placed before, it is one that the walk was asked for, or
  -- its parent was placed on the way.
  abbrev pub IsFrom : (Text → Bool) → List Text → List Text → Text → Type 0
  IsFrom own before after x =
      (has x before ≡ true)
      ⊎ ((own x ≡ true)
          ⊎ ((y : Text) × (parent_of x ≡ some (some y))
              × (has y after ≡ true)
              × (has y before ≡ false)))

  pub record Grown (own : Text → Bool) (before after : List Text) : Type 0 where
    pub keeps : (x : Text) → has x before ≡ true → has x after ≡ true
    pub reaches : (x : Text) → own x ≡ true → has x after ≡ true
    pub origin : (x : Text) → has x after ≡ true → IsFrom own before after x

  -- A walk ends, and the nodes it returns are the ids it placed.
  abbrev pub Walked :
      {N : Type 0}
      → ((Text → Bool) → N → ℕ)
      → (Text → Bool)
      → List Text
      → Option (N × List Text)
      → Type 0
  Walked size own before none = true ≡ false
  Walked size own before (some (n, after)) =
      Fits after
      × Grown own before after
      × ((p : Text → Bool) → count p after ≡ size p n + count p before)

  -- The parent of a step that is about to be placed is placed or unknown.
  abbrev pub IsSafe : List Text → StepView → Type 0
  IsSafe placed s =
      (y : Text) → parent_of s.id ≡ some (some y) → (has y placed ≡ true) ⊎ (parent_of y ≡ none)

  pub record IsReady (placed : List Text) (item : StepView × StepPlacement) : Type 0 where
    pub listed : IsListed item.0
    pub fresh : has item.0.id placed ≡ false
    pub safe : IsSafe placed item.0

  abbrev pub own_all : List (StepView × StepPlacement) → Text → Bool
  own_all items x = any (λ i. text_eq i.0.id x) items

  -- One walk does not place the step of another.
  still_fresh :
      (s : StepView) (before after : List Text) (item : StepView × StepPlacement)
      → Fits after
      → Grown (text_eq s.id) before after
      → IsReady before item
      → s.id ≢ item.0.id
      → has item.0.id after ≡ false
  still_fresh s before after item fits grown ready apart = elim (Bool-cases (has item.0.id after)) [
    | inr out ↦ out
    | inl placed ↦ elim (grown.origin item.0.id placed) [
      | inl old ↦ ground (arith, ready.fresh)
      | inr (inl own) ↦ absurd (apart (text_eq→eq s.id item.0.id own))
      | inr (inr (y, named, there, new)) ↦ elim (ready.safe y named) [
        | inl old ↦ ground arith
        | inr unknown ↦
            let (q, known) = fits.listed y there in absurd (none-ne-some q (sym unknown ∙ known))
      ]
    ]
  ]

  pub later_IsReady :
      (s : StepView) (before after : List Text) (item : StepView × StepPlacement)
      → Fits after
      → Grown (text_eq s.id) before after
      → IsReady before item × (s.id ≢ item.0.id)
      → IsReady after item
  later_IsReady s before after item fits grown (ready, apart) = record {
    listed = ready.listed;
    fresh = still_fresh s before after item fits grown ready apart;
    safe = λ y named. elim (ready.safe y named) [
      | inl old ↦ inl (grown.keeps y old)
      | inr unknown ↦ inr unknown
    ];
  }

  pub earlier :
      {own : Text → Bool} {a b : List Text} (g : Grown own a b) (y : Text)
      → has y b ≡ false
      → has y a ≡ false
  earlier {a = a} g y new = elim (Bool-cases (has y a)) [
    | inr out ↦ out
    | inl old ↦ ground (arith, g.keeps y old)
  ]

  pub chained :
      (own own1 own2 : Text → Bool) (a b c : List Text)
      → ((x : Text) → own1 x ≡ true → own x ≡ true)
      → ((x : Text) → own2 x ≡ true → own x ≡ true)
      → ((x : Text) → own x ≡ true → (own1 x ≡ true) ⊎ (own2 x ≡ true))
      → Grown own1 a b
      → Grown own2 b c
      → Grown own a c
  chained own own1 own2 a b c sub1 sub2 split g h = record {
    keeps = λ x old. h.keeps x (g.keeps x old);
    reaches = λ x mine. elim (split x mine) [
      | inl first ↦ h.keeps x (g.reaches x first)
      | inr second ↦ h.reaches x second
    ];
    origin = λ x there. elim (h.origin x there) [
      | inr (inl mine) ↦ inr (inl (sub2 x mine))
      | inr (inr (y, named, placed, new)) ↦ inr (inr (y, named, placed, earlier g y new))
      | inl before ↦ elim (g.origin x before) [
        | inl old ↦ inl old
        | inr (inl mine) ↦ inr (inl (sub1 x mine))
        | inr (inr (y, named, placed, new)) ↦ inr (inr (y, named, h.keeps y placed, new))
      ]
    ];
  }

  pub Grown-self : (a : List Text) → Grown (own_all []) a a
  Grown-self a = record { keeps = λ x h. h; reaches = λ x h. ground arith; origin = λ x h. inl h }

  pub unplaced-le : (own : Text → Bool) (a b : List Text) → Grown own a b → unplaced b ≤ unplaced a
  unplaced-le own a b g =
      count-le (λ s. not (has s.id b)) (λ s. not (has s.id a))
        (λ s out. elim (Bool-cases (has s.id a)) [
          | inr new ↦ rw new refl
          | inl old ↦ ground (arith, g.keeps s.id old)
        ])
        steps
