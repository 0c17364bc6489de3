-- ===== src/Flow/Segments.antt =====
-- scripts/flow.ts, `segmentsOf`: the segments of the delivery, out of `executionOrder` and the named
-- segments of the graph. A segment that is not named is a phase number in decimal digits; what else
-- `Number` reads (signs, exponents, spaces) is taken for no phase.
pub mod Dropped
use lengentic.Base.{
  ℕ, zero, suc, ◌+◌, ◌-◌, ◌*◌, Bool, true, false, not, ◌&&◌, ◌||◌, ◌⊎◌, inl, inr, Option, none,
  some, List, [], ◌∷◌, ◌++◌, map, any, filter, if◌then◌else◌, is_none, ◌==◌, leb,
}
use lengentic.Base.Text.{Text, text, text_eq}
use lengentic.Base.Assoc.{lookup, assign, text_Eq}
use lengentic.Base.Arrays.{includes, is_nil, sort_texts}
use lengentic.Oracle.Graph.{Resolved}
use lengentic.Oracle.Resolve.{ById}
use lengentic.Flow.Transition.{Segment, ids}

-- Which named segment owns an id.
abbrev pub Claimed : Type 0
Claimed = List (Text × Text)

abbrev pub Named : Type 0
Named = List (Text × List Text)

abbrev quoted : Text → Text
quoted t = 34 ∷ t ++ 34 ∷ []

abbrev pub and_then {ℓ} : {A B : Type ℓ} → Text ⊎ A → (A → Text ⊎ B) → Text ⊎ B
and_then (inl e) k = inl e
and_then (inr a) k = k a

unfoldable pub claim_ids : Text → List Text → ById → Claimed → Text ⊎ Claimed
unfolding lookup assign text_eq
claim_ids seg [] by_id claimed = inr claimed
claim_ids seg (id ∷ rest) by_id claimed =
    let others = claim_ids seg rest by_id (assign id seg claimed) in
    if is_none (lookup id by_id)
    then inl (text "segment " ++ quoted seg ++ text " names unknown node " ++ quoted id)
    else if is_none (lookup id claimed)
    then others
    else inl (text "node " ++ quoted id ++ text " appears in two segments")

unfoldable pub claim_all : Named → ById → Claimed → Text ⊎ Claimed
unfolding claim_ids
claim_all [] by_id claimed = inr claimed
claim_all ((seg, members) ∷ named) by_id claimed =
    and_then (claim_ids seg members by_id claimed) (λ (c : Claimed). claim_all named by_id c)

abbrev read_digits : Text → ℕ → Option ℕ
read_digits [] n = some n
read_digits (c ∷ t) n = if leb 48 c && leb c 57 then read_digits t (n * 10 + (c - 48)) else none

-- `Number(seg)`, where that is an integer.
abbrev pub phase_number : Text → Option ℕ
phase_number t = read_digits t 0

abbrev pub head_or_empty : List Text → Text
head_or_empty [] = []
head_or_empty (id ∷ rest) = id

-- The nodes of a phase that no named segment owns.
unfoldable pub unclaimed_ids : ℕ → Claimed → List Resolved → List Text
unfolding lookup text_eq
unclaimed_ids phase claimed nodes =
    ids (
      filter (λ (n : Resolved). (n.node.phase == phase) && is_none (lookup n.node.id claimed))
        nodes)

abbrev pub nodes_in : ById → List Resolved
nodes_in by_id = map (λ (e : Text × Resolved). e.1) by_id

abbrev pub named_from : Text → List Text → Option Resolved → Text ⊎ Segment
named_from seg members none = inl (text "segment " ++ quoted seg ++ text " is empty")
named_from seg members (some n) =
    inr (record { id = seg; phase = n.node.phase; node_ids = members })

unfoldable pub named_segment : Text → List Text → ById → Text ⊎ Segment
unfolding lookup text_eq
named_segment seg members by_id = named_from seg members (lookup (head_or_empty members) by_id)

abbrev pub phase_from : Text → Claimed → ById → Option ℕ → Text ⊎ Segment
unfolding unclaimed_ids sort_texts
phase_from seg claimed by_id none =
    inl (text "segment " ++ quoted seg ++ text " is neither a phase number nor in graph.segments")
phase_from seg claimed by_id (some phase) =
    let members = sort_texts (unclaimed_ids phase claimed (nodes_in by_id)) in
    if is_nil members
    then inl (text "segment " ++ quoted seg ++ text " owns no nodes")
    else inr (record { id = seg; phase = phase; node_ids = members })

unfoldable pub phase_segment : Text → Claimed → ById → Text ⊎ Segment
unfolding unclaimed_ids sort_texts
phase_segment seg claimed by_id = phase_from seg claimed by_id (phase_number seg)

unfoldable pub segment_of : Text → Named → Claimed → ById → Text ⊎ Segment
unfolding named_segment phase_segment lookup text_eq
segment_of seg named claimed by_id = elim (lookup seg named) [
  | some members ↦ named_segment seg members by_id
  | none ↦ phase_segment seg claimed by_id
]

unfoldable pub segments_in : List Text → Named → Claimed → ById → Text ⊎ List Segment
unfolding segment_of
segments_in [] named claimed by_id = inr []
segments_in (seg ∷ order) named claimed by_id =
    and_then (segment_of seg named claimed by_id) (λ (s : Segment).
      and_then (segments_in order named claimed by_id) (λ (rest : List Segment). inr (s ∷ rest)))

-- A node of a split phase that is in no segment.
unfoldable pub find_unplaced : Named → Claimed → List Segment → List Resolved → Option Text
unfolding lookup text_eq
find_unplaced named claimed segments [] = none
find_unplaced named claimed segments (n ∷ nodes) =
    if any (λ (s : Segment). not (is_none (lookup s.id named)) && (s.phase == n.node.phase))
        segments
      && is_none (lookup n.node.id claimed)
    then some n.node.id
    else find_unplaced named claimed segments nodes

unfoldable pub checked : Option Text → List Segment → Text ⊎ List Segment
checked (some id) segments =
    inl (text "node " ++ quoted id ++ text " is in no segment of its split phase")
checked none segments = inr segments

unfoldable pub segments_of : List Text → Named → ById → Text ⊎ List Segment
unfolding claim_all segments_in find_unplaced checked
segments_of [] named by_id = inl (text "graph.executionOrder is missing or empty")
segments_of (seg ∷ order) named by_id = and_then (claim_all named by_id []) (λ (claimed : Claimed).
    and_then (segments_in (seg ∷ order) named claimed by_id) (λ (segments : List Segment).
      checked (find_unplaced named claimed segments (nodes_in by_id)) segments))
