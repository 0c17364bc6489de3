-- ===== src/Oracle/Resolve.antt =====
-- scripts/oracle.ts, `resolveGraph`: state, blockers, readiness, depth and wave of every node. What
-- a probe finds is a parameter (`run_probe`), since a probe reads files and runs commands.
pub mod Keys
pub mod Needs
pub mod Placed
pub mod Waves
use lengentic.Base.{
  ℕ, zero, suc, ◌+◌, Bool, true, false, not, ◌&&◌, ◌||◌, Option, none, some, List, [], ◌∷◌, ◌++◌,
  map, filter, length, if◌then◌else◌, ◌==◌, ltb, max, or_else,
}
use lengentic.Base.Text.{Text, text_eq}
use lengentic.Base.Assoc.{lookup, assign, text_Eq}
use lengentic.Base.Arrays.{includes, every, is_nil, flat_map}
use lengentic.Oracle.Graph.{
  Probe, Node, Question, State, done, partial, todo, Readiness, ready, blocked, finished,
  in_progress, Resolved, is_done,
}

abbrev pub ById : Type 0
ById = List (Text × Resolved)

-- The targets that wait, each with the unanswered question.
abbrev pub unanswered_blocks : List Question → List (Text × Text)
unanswered_blocks questions =
    flat_map (λ (q : Question). if q.answered then [] else map (λ t. (t, q.id)) q.blocks) questions

abbrev pub blocking : Text → List Question → List Text
unfolding text_eq
blocking id questions =
    map (λ (b : Text × Text). b.1) (filter (λ b. text_eq b.0 id) (unanswered_blocks questions))

abbrev pub state_of : ℕ → ℕ → State
state_of hits probes = if hits == probes then done else if ltb 0 hits then partial else todo

abbrev pub has_state : (State → Bool) → Text → ById → Bool
unfolding lookup text_eq
has_state p id by_id = elim (lookup id by_id) [ none ↦ false | some n ↦ p n.state ]

abbrev pub missing_deps : List Text → ById → List Text
unfolding lookup text_eq
missing_deps needs by_id = filter (λ d. not (has_state is_done d by_id)) needs

abbrev pub readiness_of : State → List Text → Readiness
readiness_of done blocked_by = finished
readiness_of partial blocked_by = in_progress
readiness_of todo blocked_by = if is_nil blocked_by then ready else blocked

abbrev pub deepest : (Text → ℕ) → List Text → ℕ
deepest depth [] = zero
deepest depth (d ∷ needs) = max (depth d) (deepest depth needs)

-- A chain of needs has no node twice, so there are as many steps as nodes, and one.
unfoldable pub depth_of : ℕ → Text → List Text → ById → ℕ
unfolding lookup text_eq
depth_of zero id seen by_id = zero
depth_of (suc n) id seen by_id =
    let deeper = λ (d : Text). depth_of n d (id ∷ seen) by_id in
    elim (lookup id by_id) [
      | none ↦ zero
      | some r ↦
          if includes id seen || is_nil r.node.needs then zero else 1 + deepest deeper r.node.needs
    ]

module _ (run_probe : Probe → Bool) where
  unfoldable pub probed : Node → Resolved
  probed n =
      let hits = length (filter run_probe n.probes) in
      record {
        node = n;
        state = state_of hits (length n.probes);
        hits = hits;
        blocked_by = [];
        readiness = blocked;
        depth = 0;
        wave = 0;
      }

  unfoldable pub probe_all : List Node → ById → ById
  unfolding assign text_eq probed
  probe_all [] by_id = by_id
  probe_all (n ∷ nodes) by_id = probe_all nodes (assign n.id (probed n) by_id)

unfoldable pub with_blockers : List Question → ById → Resolved → Resolved
unfolding lookup text_eq depth_of
with_blockers questions by_id n =
    let blocked_by = missing_deps n.node.needs by_id ++ blocking n.node.id questions in
    record n {
      depth = depth_of (suc (length by_id)) n.node.id [] by_id;
      blocked_by = blocked_by;
      readiness = readiness_of n.state blocked_by;
    }

-- Whether a need lets its node into the next wave of the phase.
abbrev pub is_placed : ℕ → ById → List Text → Text → Bool
unfolding lookup text_eq
is_placed phase by_id placed d = elim (lookup d by_id) [
  | none ↦ true
  | some dep ↦ is_done dep.state || (includes d placed || not (dep.node.phase == phase))
]

abbrev pub next_batch : ℕ → ById → List Text → List Resolved → List Text
unfolding lookup text_eq
next_batch phase by_id placed remaining =
    map (λ (n : Resolved). n.node.id)
      (filter (λ (n : Resolved). every (is_placed phase by_id placed) n.node.needs) remaining)

-- The loop over the waves of a phase, of at most so many rounds: the nodes placed, with their waves.
unfoldable pub place_waves : ℕ → ℕ → ℕ → ById → List Text → List Resolved → List (Text × ℕ)
unfolding lookup text_eq
place_waves zero wave phase by_id placed remaining = []
place_waves (suc k) wave phase by_id placed remaining =
    let batch = next_batch phase by_id placed remaining in
    let rest =
      place_waves k (suc wave) phase by_id (batch ++ placed)
        (filter (λ (n : Resolved). not (includes n.node.id (batch ++ placed))) remaining) in
    if is_nil batch then [] else map (λ id. (id, wave)) batch ++ rest

abbrev pub unfinished : ℕ → ById → List Resolved
unfinished phase by_id =
    filter (λ (n : Resolved). not (is_done n.state))
      (filter (λ (n : Resolved). n.node.phase == phase) (map (λ (e : Text × Resolved). e.1) by_id))

-- The waves 1 to 19 of a phase.
unfoldable pub waves_of : ℕ → ById → List (Text × ℕ)
unfolding place_waves
waves_of phase by_id = place_waves 19 1 phase by_id [] (unfinished phase by_id)

abbrev pub map_nodes : (Resolved → Resolved) → ById → ById
map_nodes f by_id = map (λ (e : Text × Resolved). (e.0, f e.1)) by_id

unfoldable pub resolve_graph : (Probe → Bool) → List Question → List Node → ById
unfolding probe_all with_blockers waves_of lookup text_eq
resolve_graph run_probe questions nodes =
    let found = probe_all run_probe nodes [] in
    let known = map_nodes (with_blockers questions found) found in
    map_nodes
      (λ (n : Resolved). record n {
        wave = or_else (lookup n.node.id (waves_of n.node.phase known)) 0;
      })
      known
