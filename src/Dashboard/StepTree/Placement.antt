-- ===== src/Dashboard/StepTree/Placement.antt =====
-- The tree has a node for each step.
use mathlib.Core.Logic.{◌≢◌}
use mathlib.Core.Option.{none-ne-some}
use lengentic.Base.{
  ℕ, ◌+◌, ◌≤◌, ◌≡◌, refl, sym, ap, ◌∙◌, Bool, true, false, not, Option, none, some, List, [], ◌∷◌,
  count, length, count-le-length, ◌>>=◌, inl, inr, All, Bool-cases, arith, subst,
}
use lengentic.Base.Folds.{HasDistinct}
use lengentic.Base.Text.{Text, text_eq, text_eq→eq, text_eq_self}
use lengentic.Base.Assoc.{lookup, text_Eq}
use lengentic.Dashboard.Views.{StepView}
use lengentic.Dashboard.StepTree.{
  StepNodes, no_nodes, more, append_nodes, has, sort_steps, step_ids, start_sorted, descend,
  descend_each, place_stranded, build_step_tree,
}
use lengentic.Dashboard.StepTree.Walks.{nodes_count, parent_of, IsListed, Fits, Walked, own_all}
use lengentic.Dashboard.StepTree.Siblings.{descend_each-Walked}
use lengentic.Dashboard.StepTree.Descent.{descend-Descends}
use lengentic.Dashboard.StepTree.Stranded.{Placed, place_stranded-Placed}
use lengentic.Dashboard.StepTree.Families.{
  tops, sort_steps-top, sorted-IsFamily, tops-IsReady, tops-HasDistinct,
}

nodes_count-append :
    (p : Text → Bool) (ms ns : StepNodes)
    → nodes_count p (append_nodes ms ns) ≡ nodes_count p ms + nodes_count p ns
nodes_count-append p no_nodes ns = omega arith
nodes_count-append p (more m ms) ns = omega (arith, nodes_count-append p ms ns)

-- With distinct ids each step is found by its id.
IsListed-after :
    (s : StepView) (l all : List StepView)
    → All (IsListed all) l
    → All (λ (t : StepView). s.id ≢ t.id) l
    → All (IsListed (s ∷ all)) l
unfolding lookup
IsListed-after s [] all h k = tt
IsListed-after s (t ∷ l) all (h, hs) (k, ks) = elim (Bool-cases (text_eq s.id t.id)) [
  | inl same ↦ absurd (k (text_eq→eq s.id t.id same))
  | inr other ↦ (rw other h, IsListed-after s l all hs ks)
]

pub All-IsListed : (l : List StepView) → HasDistinct (λ (s : StepView). s.id) l → All (IsListed l) l
unfolding lookup
All-IsListed [] h = tt
All-IsListed (s ∷ l) (h, hs) =
    (rw (text_eq_self s.id) refl, IsListed-after s l l (All-IsListed l hs) h)

occurrences : Text → List StepView → ℕ
occurrences x l = count (λ s. text_eq x s.id) l

-- Counting an id among the placed ids and among the steps.
count-absent : (x : Text) (placed : List Text) → has x placed ≡ false → count (text_eq x) placed ≡ 0
count-absent x [] h = refl
count-absent x (y ∷ ys) h = ground (arith, count-absent x ys)

count-present : (x : Text) (placed : List Text) → has x placed ≡ true → 1 ≤ count (text_eq x) placed
count-present x [] h = cc
count-present x (y ∷ ys) h = ground (arith, count-present x ys)

occurrences-absent :
    (x : Text) (placed : List Text) (l : List StepView)
    → All (λ (s : StepView). has s.id placed ≡ true) l
    → has x placed ≡ false
    → occurrences x l ≡ 0
unfolding occurrences
occurrences-absent x placed [] h out = refl
occurrences-absent x placed (s ∷ l) (h, hs) out = elim (Bool-cases (text_eq x s.id)) [
  | inl same ↦ ground (arith, ap (λ z. has z placed) (text_eq→eq x s.id same))
  | inr other ↦ rw other (omega (arith, occurrences-absent x placed l hs out))
]

occurrences-apart :
    (x : Text) (l : List StepView) → All (λ (t : StepView). x ≢ t.id) l → occurrences x l ≡ 0
unfolding occurrences
occurrences-apart x [] h = refl
occurrences-apart x (s ∷ l) (h, hs) = elim (Bool-cases (text_eq x s.id)) [
  | inl same ↦ absurd (h (text_eq→eq x s.id same))
  | inr other ↦ rw other (omega (arith, occurrences-apart x l hs))
]

occurrences-listed :
    (x : Text) (l : List StepView) (q : Option Text)
    → HasDistinct (λ (s : StepView). s.id) l
    → parent_of l x ≡ some q
    → occurrences x l ≡ 1
unfolding occurrences lookup
occurrences-listed x [] q d h = absurd (none-ne-some q h)
occurrences-listed x (s ∷ l) q (apart, d) h = elim (Bool-cases (text_eq s.id x)) [
  | inl same ↦
      let here : text_eq x s.id ≡ true = ap (text_eq x) (text_eq→eq s.id x same) ∙ text_eq_self x in
      rw here (
        omega (
          arith,
          occurrences-apart x l
              (subst (λ z. All (λ (t : StepView). z ≢ t.id) l) (text_eq→eq s.id x same) apart),
        ))
  | inr other ↦ elim (Bool-cases (text_eq x s.id)) [
    | inl same ↦ ground (arith, ap (text_eq s.id) (text_eq→eq x s.id same), text_eq_self s.id)
    | inr apart2 ↦ rw apart2 (omega (arith, occurrences-listed x l q d (rw other at h)))
  ]
]

module _ (steps : List StepView) (distinct : HasDistinct (λ (s : StepView). s.id) steps) where
  count-placed :
      (placed : List Text) (x : Text)
      → Fits steps placed
      → All (λ (s : StepView). has s.id placed ≡ true) steps
      → count (text_eq x) placed ≡ occurrences x steps
  count-placed placed x fits all = elim (Bool-cases (has x placed)) [
    | inr out ↦ count-absent x placed out ∙ sym (occurrences-absent x placed steps all out)
    | inl there ↦
        let (q, known) = fits.listed x there in
        omega (
          arith,
          fits.once x,
          count-present x placed there,
          occurrences-listed x steps q distinct known,
        )
  ]

  -- A tree with one node for each step.
  abbrev IsTree : Option StepNodes → Type 0
  IsTree tree =
      (nodes : StepNodes) × (tree ≡ some nodes)
      × ((x : Text) → nodes_count (text_eq x) nodes ≡ occurrences x steps)

  joined :
      (nodes : StepNodes) (placed : List Text) (r : Option (StepNodes × List Text))
      → ((p : Text → Bool) → count p placed ≡ nodes_count p nodes + count p [])
      → Placed steps steps placed r
      → IsTree (r >>= λ (stranded, last). some (append_nodes nodes stranded))
  joined nodes placed none c h = cc
  joined nodes placed (some (stranded, last)) c (fits, all, keeps, counts) = (
    append_nodes nodes stranded,
    refl,
    λ x. omega (
      arith,
      nodes_count-append (text_eq x) nodes stranded,
      c (text_eq x),
      counts (text_eq x),
      count-placed last x fits all,
    ),
  )

  rooted :
      (own : Text → Bool) (r : Option (StepNodes × List Text))
      (rest : List Text → Option (StepNodes × List Text))
      → Walked steps nodes_count own [] r
      → ((placed : List Text) → Fits steps placed → Placed steps steps placed (rest placed))
      → IsTree (
          r >>= λ (nodes, placed).
          rest placed >>= λ (stranded, last). some (append_nodes nodes stranded))
  rooted own none rest h k = cc
  rooted own (some (nodes, placed)) rest (fits, g, counts) k =
      joined nodes placed (rest placed) counts (k placed fits)

  -- For steps with distinct ids the tree is built, within the fuel of as many steps as there are,
  -- and each id occurs in it as often as among the steps, wherever the parents that the steps
  -- name lead: to a step, to none, or round in a cycle.
  pub build_step_tree-places_all :
      (nodes : StepNodes) × (build_step_tree steps ≡ some nodes)
      × ((x : Text) → nodes_count (text_eq x) nodes ≡ count (λ s. text_eq x s.id) steps)
  unfolding build_step_tree occurrences
  build_step_tree-places_all =
      let ids = step_ids steps in
      let sorted = sort_steps ids steps start_sorted in
      let m = sorted.children_by_parent in
      let listed = All-IsListed steps distinct in
      let d = descend-Descends steps m (sorted-IsFamily steps ids listed distinct) (length steps) in
      let enough = λ (placed : List Text). count-le-length (λ s. not (has s.id placed)) steps in
      let walked =
        descend_each-Walked steps (descend (length steps) m) (length steps) (tops ids steps) [] d
          (record { once = λ x. omega arith; listed = λ x h. cc }) (tops-IsReady steps steps listed)
          (tops-HasDistinct ids steps distinct) (enough []) in
      rooted (own_all steps (tops ids steps))
        (descend_each (descend (length steps) m) sorted.top_level [])
        (place_stranded (length steps) m steps)
        (subst
          (λ top.
            Walked steps nodes_count (own_all steps (tops ids steps)) []
              (descend_each (descend (length steps) m) top []))
          (sym (sort_steps-top ids steps start_sorted)) walked)
        (λ placed fits.
          place_stranded-Placed steps (length steps) m steps placed d fits listed (enough placed))
