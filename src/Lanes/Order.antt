-- ===== src/Lanes/Order.antt =====
-- scripts/lanes.ts: the integration order of a batch, and which lanes stop with a lane.
pub mod Completeness
pub mod Founded
pub mod Ranks
use lengentic.Base.{
  ℕ, zero, suc, ◌+◌, Bool, true, false, not, ◌&&◌, ◌||◌, Option, none, some, List, [], ◌∷◌, ◌++◌,
  map, any, filter, length, if◌then◌else◌, or_else, leb,
}
use lengentic.Base.Text.{Text, text_eq}
use lengentic.Base.Assoc.{lookup, assign, text_Eq}
use lengentic.Base.Counts.{count_by}
use lengentic.Base.Arrays.{includes, every, is_nil, sort_texts, flat_map}
use lengentic.Lanes.Units.{LaneUnit}

-- A unit's id with those of its dependencies that are in the batch.
abbrev pub Pending : Type 0
Pending = List (Text × List Text)

abbrev pub ids_of : List LaneUnit → List Text
ids_of units = map (λ (u : LaneUnit). u.task_id) units

-- `new Map(units.map(...))`.
unfoldable pub pending_onto : List Text → List LaneUnit → Pending → Pending
unfolding text_eq assign
pending_onto ids [] pending = pending
pending_onto ids (u ∷ units) pending =
    pending_onto ids units (assign u.task_id (filter (λ d. includes d ids) u.depends_on) pending)

unfoldable pub pending_of : List LaneUnit → Pending
unfolding pending_onto
pending_of units = pending_onto (ids_of units) units []

abbrev pub keys : Pending → List Text
keys pending = map (λ (e : Text × List Text). e.0) pending

-- The ids with every dependency in `out`.
unfoldable pub free_ids : Pending → List Text → List Text
unfolding text_eq
free_ids pending out = keys (filter (λ e. every (λ d. includes d out) e.1) pending)

-- `pending.delete(id)` for each of the ids.
unfoldable pub delete_all : List Text → Pending → Pending
unfolding text_eq
delete_all ids pending = filter (λ e. not (includes e.0 ids)) pending

-- The loop `while (pending.size > 0)`, of at most so many rounds.
unfoldable pub order_rounds : ℕ → Pending → List Text → List Text
unfolding sort_texts free_ids delete_all
order_rounds zero pending out = out
order_rounds (suc n) [] out = out
order_rounds (suc n) (e ∷ pending) out =
    let free = sort_texts (free_ids (e ∷ pending) out) in
    let rest = order_rounds n (delete_all free (e ∷ pending)) (out ++ free) in
    if is_nil free then out ++ sort_texts (keys (e ∷ pending)) else rest

unfoldable pub dependency_order : List LaneUnit → List Text
unfolding pending_of order_rounds
dependency_order units = let pending = pending_of units in order_rounds (length pending) pending []

-- Everything two or more units build against but none of them is.
unfoldable pub shared_contracts : List LaneUnit → List Text → List Text
unfolding text_eq count_by sort_texts
shared_contracts units batch =
    let outside =
      filter (λ d. not (includes d batch)) (flat_map (λ (u : LaneUnit). u.depends_on) units) in
    sort_texts
      (map (λ (e : Text × ℕ). e.0) (filter (λ e. leb 2 e.1) (count_by (λ d. d) outside [])))

-- A unit that joins the dependents in this pass.
abbrev pub joins : Text → List Text → LaneUnit → Bool
unfolding text_eq
joins id out u =
    not (text_eq u.task_id id || includes u.task_id out)
    && any (λ d. text_eq d id || includes d out) u.depends_on

-- One pass of `while (grew)`.
abbrev pub dependents_pass : Text → List LaneUnit → List Text → List Text
unfolding text_eq
dependents_pass id [] out = out
dependents_pass id (u ∷ units) out =
    dependents_pass id units (if joins id out u then out ++ u.task_id ∷ [] else out)

abbrev pub dependents_rounds : ℕ → Text → List LaneUnit → List Text → List Text
unfolding text_eq
dependents_rounds zero id units out = out
dependents_rounds (suc n) id units out =
    let next = dependents_pass id units out in
    let rest = dependents_rounds n id units next in
    if leb (length next) (length out) then out else rest

-- Each pass but the last adds a unit, so as many passes as there are units, and one, are enough.
unfoldable pub dependents : LaneUnit → List LaneUnit → List Text
unfolding text_eq sort_texts
dependents unit units = sort_texts (dependents_rounds (suc (length units)) unit.task_id units [])
