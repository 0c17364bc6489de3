-- ===== src/Flow/Transition/Packets.antt =====
-- scripts/flow.ts, `transition`: the nodes of a segment that may be dispatched.
use lengentic.Base.{
  ◌≡◌, refl, sym, subst, ◌∙◌, inl, inr, Bool, true, false, not, some, List, [], ◌∷◌, arith,
  if◌then◌else◌, Bool-cases, Option-cases, All,
}
use mathlib.Core.Bool.{false≢true}
use lengentic.Base.Text.{Text, text_eq, text_eq→eq, text_eq_self}
use lengentic.Base.Assoc.{lookup, text_Eq}
use lengentic.Base.Folds.{All-append, All-kept}
use lengentic.Base.Buckets.{All-lookup}
use lengentic.Base.Arrays.{includes, flat_map}
use lengentic.Oracle.Graph.{Resolved, is_done}
use lengentic.Oracle.Resolve.{ById}
use lengentic.Flow.Dependence.Reach.{Reaches, depends_on_iff}
use lengentic.Oracle.Resolve.Keys.{IsKeyed}
use lengentic.Flow.Transition.{
  Segment, FlowInputs, node_of, nodes_of, wave_covered, outstanding_of, uncovered_of, ids, is_ready,
  dispatchable_of,
}

-- The done nodes of a segment that no wave gate on record covers.
abbrev pub ungated : FlowInputs → Segment → List Text
ungated inputs s = ids (uncovered_of (wave_covered inputs.records s.id) (nodes_of inputs.by_id s))

-- A node that may be dispatched: unfinished, ready or in progress, and built on nothing ungated.
abbrev pub IsDispatchable : ById → List Text → Resolved → Type 0
IsDispatchable by_id waiting n =
    (is_done n.state ≡ false) × (is_ready n.readiness ≡ true) × ¬ Reaches by_id waiting n.node.id

-- The graph has the node under an id that the segment lists, and it is not optional.
abbrev pub IsOf : ById → List Text → Resolved → Type 0
IsOf by_id listed n =
    (lookup n.node.id by_id ≡ some n)
    × (includes n.node.id listed ≡ true)
    × (n.node.optional ≡ false)

-- The id is that of a node of the segment that may be dispatched.
abbrev pub MayGo : FlowInputs → Segment → Text → Type 0
MayGo inputs s id =
    (n : Resolved) × (n.node.id ≡ id)
    × (IsOf inputs.by_id s.node_ids n × IsDispatchable inputs.by_id (ungated inputs s) n)

unless-All :
    (P : Resolved → Type 0) (b : Bool) (n : Resolved)
    → (b ≡ false → P n)
    → All P (if b then [] else n ∷ [])
unless-All P true n f = tt
unless-All P false n f = (f refl, tt)

node_of-IsOf :
    (by_id : ById) (listed : List Text)
    → IsKeyed by_id
    → (id : Text) → includes id listed ≡ true
    → All (IsOf by_id listed) (node_of by_id id)
unfolding node_of
node_of-IsOf by_id listed keyed id i = elim (Option-cases (lookup id by_id)) [
  | inl q ↦ rw (q, node_of) tt
  | inr (n, q) ↦
      let same : n.node.id ≡ id =
        All-lookup (λ k (m : Resolved). m.node.id ≡ k) id n by_id keyed q in
      rw (q, node_of)
        (unless-All (IsOf by_id listed) n.node.optional n (λ o. (
          subst (λ k. lookup k by_id ≡ some n) (sym same) q,
          subst (λ k. includes k listed ≡ true) (sym same) i,
          o,
        )))
]

listed-IsOf :
    (by_id : ById) (listed : List Text)
    → IsKeyed by_id
    → (ids : List Text) → ((x : Text) → includes x ids ≡ true → includes x listed ≡ true)
    → All (IsOf by_id listed) (flat_map (node_of by_id) ids)
listed-IsOf by_id listed keyed [] f = tt
listed-IsOf by_id listed keyed (id ∷ ids) f =
    All-append _ (node_of by_id id) (flat_map (node_of by_id) ids)
      (node_of-IsOf by_id listed keyed id (f id (ground (arith, text_eq_self id))))
      (listed-IsOf by_id listed keyed ids (λ x i. f x (ground (arith, i))))

pub nodes_of-IsOf :
    (by_id : ById) (s : Segment) → IsKeyed by_id → All (IsOf by_id s.node_ids) (nodes_of by_id s)
unfolding nodes_of
nodes_of-IsOf by_id s keyed = listed-IsOf by_id s.node_ids keyed s.node_ids (λ x i. i)

-- The dispatchable nodes are such nodes, and keep what holds of all the nodes.
pub dispatchable_of-All :
    (P : Resolved → Type 0) (by_id : ById) (uncovered nodes : List Resolved)
    → All P nodes
    → All
        (λ n. P n × IsDispatchable by_id (ids uncovered) n)
        (dispatchable_of by_id uncovered (outstanding_of nodes))
unfolding dispatchable_of
dispatchable_of-All P by_id uncovered nodes k =
    All-kept _
      (λ n h (p : P n × (is_done n.state ≡ false) × (is_ready n.readiness ≡ true)). (
        p.0,
        (
          p.1,
          p.2,
          λ r.
              false≢true
                (sym (ground (arith, h)) ∙ (depends_on_iff n.node.id (ids uncovered) by_id).1 r),
        ),
      ))
      _
      (All-kept _ (λ n h (p : P n × (is_done n.state ≡ false)). (p.0, p.1, h)) _
        (All-kept _ (λ n h (p : P n). (p, not_true (is_done n.state) h)) nodes k))
  where
    not_true : (b : Bool) → not b ≡ true → b ≡ false
    not_true b e = ground (arith, e)

pub member_of :
    {P : Resolved → Type 0} (x : Text) (nodes : List Resolved)
    → All P nodes
    → includes x (ids nodes) ≡ true
    → (n : Resolved) × (n.node.id ≡ x) × P n
member_of x [] h i = absurd (false≢true i)
member_of x (n ∷ nodes) (p, h) i = elim (Bool-cases (text_eq x n.node.id)) [
  | inl e ↦ (n, sym (text_eq→eq x n.node.id e), p)
  | inr e ↦ member_of x nodes h (rw e at i)
]
