-- ===== src/Dashboard/StepTree/Families.antt =====
-- What the first loop of `build_step_tree` leaves: the children of each step, and the top level.
use mathlib.Core.Logic.{◌≢◌}
use mathlib.Core.List.{append_assoc, append-nil}
use mathlib.Core.Option.{some-injective, none-ne-some}
use lengentic.Base.{
  ◌≡◌, refl, sym, ap, ◌∙◌, Bool, true, false, ◌&&◌, Option, none, some, List, [], ◌∷◌, ◌++◌, filter,
  or_else, if◌then◌else◌, inl, inr, if_both, All, Bool-cases, arith, subst,
}
use lengentic.Base.Folds.{All-append, HasDistinct}
use lengentic.Base.Text.{Text, text_eq, text_eq→eq, text_eq_self}
use lengentic.Base.Assoc.{lookup, lookup-assign, text_Eq}
use lengentic.Dashboard.Views.{StepView}
use lengentic.Dashboard.StepTree.{
  StepPlacement, root, orphaned, Sorted, has, push_child, sort_step, sort_steps, step_ids,
  start_sorted,
}
use lengentic.Dashboard.StepTree.Walks.{parent_of, IsListed, IsReady}
use lengentic.Dashboard.StepTree.Descent.{IsChild, IsFamily}

abbrev names_parent : List Text → Text → Option Text → Bool
names_parent ids k none = false
names_parent ids k (some p) = has p ids && text_eq p k

abbrev is_child : List Text → Text → StepView → Bool
is_child ids k s = names_parent ids k s.parent_step_id

abbrev pub top_of : List Text → StepView → Option Text → List (StepView × StepPlacement)
top_of ids s none = (s, root) ∷ []
top_of ids s (some p) = if has p ids then [] else (s, orphaned) ∷ []

abbrev pub tops : List Text → List StepView → List (StepView × StepPlacement)
tops ids [] = []
tops ids (s ∷ rest) = top_of ids s s.parent_step_id ++ tops ids rest

abbrev kids_in : Text → Sorted → List StepView
kids_in k s = or_else (lookup k s.children_by_parent) []

push_child-kids :
    (p k : Text) (step : StepView) (m : List (Text × List StepView))
    → or_else (lookup k (push_child p step m)) []
      ≡ (if text_eq p k then or_else (lookup k m) [] ++ step ∷ [] else or_else (lookup k m) [])
push_child-kids p k step m = elim (Bool-cases (text_eq p k)) [
  | inl same ↦
      rw (lookup-assign p k (or_else (lookup p m) [] ++ step ∷ []) m, same, text_eq→eq p k same)
        refl
  | inr other ↦ rw (lookup-assign p k (or_else (lookup p m) [] ++ step ∷ []) m, other) refl
]

sort_step-kids :
    (ids : List Text) (k : Text) (step : StepView) (parent : Option Text) (s : Sorted)
    → kids_in k (sort_step ids step parent s)
      ≡ (if names_parent ids k parent then kids_in k s ++ step ∷ [] else kids_in k s)
sort_step-kids ids k step none s = refl
sort_step-kids ids k step (some p) s = elim (Bool-cases (has p ids)) [
  | inl there ↦ rw there (push_child-kids p k step s.children_by_parent)
  | inr missing ↦ rw missing refl
]

sort_step-top :
    (ids : List Text) (step : StepView) (parent : Option Text) (s : Sorted)
    → (sort_step ids step parent s).top_level ≡ s.top_level ++ top_of ids step parent
sort_step-top ids step none s = refl
sort_step-top ids step (some p) s = elim (Bool-cases (has p ids)) [
  | inl there ↦ rw there (sym (append-nil s.top_level))
  | inr missing ↦ rw missing refl
]

sort_steps-kids :
    (ids : List Text) (k : Text) (steps : List StepView) (s : Sorted)
    → kids_in k (sort_steps ids steps s) ≡ kids_in k s ++ filter (is_child ids k) steps
unfolding sort_steps
sort_steps-kids ids k [] s = sym (append-nil (kids_in k s))
sort_steps-kids ids k (step ∷ steps) s =
    let next = sort_steps-kids ids k steps (sort_step ids step step.parent_step_id s) in
    let here = sort_step-kids ids k step step.parent_step_id s in
    elim (Bool-cases (is_child ids k step)) [
      | inl child ↦
          next
          ∙ rw child (
              ap (λ l. l ++ filter (is_child ids k) steps) (rw child at here)
              ∙ append_assoc (kids_in k s) (step ∷ []) (filter (is_child ids k) steps))
      | inr other ↦
          next ∙ rw other (ap (λ l. l ++ filter (is_child ids k) steps) (rw other at here))
    ]

pub sort_steps-top :
    (ids : List Text) (steps : List StepView) (s : Sorted)
    → (sort_steps ids steps s).top_level ≡ s.top_level ++ tops ids steps
unfolding sort_steps
sort_steps-top ids [] s = sym (append-nil s.top_level)
sort_steps-top ids (step ∷ steps) s =
    sort_steps-top ids steps (sort_step ids step step.parent_step_id s)
    ∙ ap (λ l. l ++ tops ids steps) (sort_step-top ids step step.parent_step_id s)
    ∙ append_assoc s.top_level (top_of ids step step.parent_step_id) (tops ids steps)

missing_parent : (l : List StepView) (p : Text) → has p (step_ids l) ≡ false → parent_of l p ≡ none
unfolding lookup
missing_parent [] p h = refl
missing_parent (s ∷ l) p h = elim (Bool-cases (text_eq s.id p)) [
  | inl same ↦ ground (arith, text_eq→eq s.id p same, text_eq_self p)
  | inr other ↦ rw other (missing_parent l p (ground arith))
]

top_of-apart :
    (ids : List Text) (id : Text) (s : StepView) (parent : Option Text)
    → id ≢ s.id
    → All (λ (i : StepView × StepPlacement). id ≢ i.0.id) (top_of ids s parent)
top_of-apart ids id s none h = (h, tt)
top_of-apart ids id s (some p) h =
    if_both (All (λ (i : StepView × StepPlacement). id ≢ i.0.id)) (has p ids) [] _ tt (h, tt)

top_of-HasDistinct :
    (ids : List Text) (s : StepView) (parent : Option Text) (rest : List (StepView × StepPlacement))
    → All (λ (i : StepView × StepPlacement). s.id ≢ i.0.id) rest
    → HasDistinct (λ (i : StepView × StepPlacement). i.0.id) rest
    → HasDistinct (λ (i : StepView × StepPlacement). i.0.id) (top_of ids s parent ++ rest)
top_of-HasDistinct ids s none rest h k = (h, k)
top_of-HasDistinct ids s (some p) rest h k = elim (Bool-cases (has p ids)) [
  | inl there ↦ rw there k
  | inr missing ↦ rw missing (h, k)
]

tops-apart :
    (ids : List Text) (id : Text) (l : List StepView)
    → All (λ (s : StepView). id ≢ s.id) l
    → All (λ (i : StepView × StepPlacement). id ≢ i.0.id) (tops ids l)
tops-apart ids id [] h = tt
tops-apart ids id (s ∷ l) (h, hs) =
    All-append (λ (i : StepView × StepPlacement). id ≢ i.0.id) (top_of ids s s.parent_step_id)
      (tops ids l) (top_of-apart ids id s s.parent_step_id h) (tops-apart ids id l hs)

pub tops-HasDistinct :
    (ids : List Text) (l : List StepView)
    → HasDistinct (λ (s : StepView). s.id) l
    → HasDistinct (λ (i : StepView × StepPlacement). i.0.id) (tops ids l)
tops-HasDistinct ids [] h = tt
tops-HasDistinct ids (s ∷ l) (h, hs) =
    top_of-HasDistinct ids s s.parent_step_id (tops ids l) (tops-apart ids s.id l h)
      (tops-HasDistinct ids l hs)

filter-apart :
    (p : StepView → Bool) (id : Text) (l : List StepView)
    → All (λ (s : StepView). id ≢ s.id) l
    → All (λ (s : StepView). id ≢ s.id) (filter p l)
filter-apart p id [] h = tt
filter-apart p id (s ∷ l) (h, hs) = elim (Bool-cases (p s)) [
  | inl keep ↦ rw keep (h, filter-apart p id l hs)
  | inr skip ↦ rw skip (filter-apart p id l hs)
]

filter-HasDistinct :
    (p : StepView → Bool) (l : List StepView)
    → HasDistinct (λ (s : StepView). s.id) l
    → HasDistinct (λ (s : StepView). s.id) (filter p l)
filter-HasDistinct p [] h = tt
filter-HasDistinct p (s ∷ l) (h, hs) = elim (Bool-cases (p s)) [
  | inl keep ↦ rw keep (filter-apart p s.id l h, filter-HasDistinct p l hs)
  | inr skip ↦ rw skip (filter-HasDistinct p l hs)
]

module _ (steps : List StepView) where
  child_named :
      (ids : List Text) (k : Text) (parent : Option Text)
      → names_parent ids k parent ≡ true
      → parent ≡ some k
  child_named ids k none h = cc
  child_named ids k (some p) h = ap some (text_eq→eq p k (ground arith))

  filter-IsChild :
      (ids : List Text) (k : Text) (l : List StepView)
      → All (IsListed steps) l
      → All (IsChild steps k) (filter (is_child ids k) l)
  filter-IsChild ids k [] h = tt
  filter-IsChild ids k (s ∷ l) (h, hs) = elim (Bool-cases (is_child ids k s)) [
    | inl keep ↦ rw keep ((h, child_named ids k s.parent_step_id keep), filter-IsChild ids k l hs)
    | inr skip ↦ rw skip (filter-IsChild ids k l hs)
  ]

  pub sorted-IsFamily :
      (ids : List Text)
      → All (IsListed steps) steps
      → HasDistinct (λ (s : StepView). s.id) steps
      → IsFamily steps (sort_steps ids steps start_sorted).children_by_parent
  unfolding lookup
  sorted-IsFamily ids listed distinct = λ k.
      subst (λ l. All (IsChild steps k) l × HasDistinct (λ (s : StepView). s.id) l)
        (sym (sort_steps-kids ids k steps start_sorted))
        (filter-IsChild ids k steps listed, filter-HasDistinct (is_child ids k) steps distinct)

  -- The top level: steps without a parent, or whose parent is not among the steps.
  top_of-IsReady :
      (s : StepView) (parent : Option Text)
      → IsListed steps s
      → s.parent_step_id ≡ parent
      → All (IsReady steps []) (top_of (step_ids steps) s parent)
  top_of-IsReady s none listed e = (
    record {
      listed = listed;
      fresh = refl;
      safe = λ y named. absurd (none-ne-some y (sym e ∙ some-injective _ _ (sym listed ∙ named)));
    },
    tt,
  )
  top_of-IsReady s (some p) listed e = elim (Bool-cases (has p (step_ids steps))) [
    | inl there ↦ rw there tt
    | inr missing ↦ rw missing (
      record {
        listed = listed;
        fresh = refl;
        safe = λ y named. inr (
            subst (λ z. parent_of steps z ≡ none)
              (some-injective p y (sym e ∙ some-injective _ _ (sym listed ∙ named)))
              (missing_parent steps p missing));
      },
      tt,
    )
  ]

  pub tops-IsReady :
      (l : List StepView)
      → All (IsListed steps) l
      → All (IsReady steps []) (tops (step_ids steps) l)
  tops-IsReady [] h = tt
  tops-IsReady (s ∷ l) (h, hs) =
      All-append (IsReady steps []) (top_of (step_ids steps) s s.parent_step_id)
        (tops (step_ids steps) l) (top_of-IsReady s s.parent_step_id h refl) (tops-IsReady l hs)
