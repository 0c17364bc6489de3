-- ===== src/Flow/Dependence.antt =====
-- scripts/flow.ts, `dependsOn`: the search through the needs of a node, which keeps the set of ids
-- it has seen.
pub mod Reach
use lengentic.Base.{
  ℕ, zero, suc, Bool, true, false, Option, none, some, List, [], ◌∷◌, length, if◌then◌else◌,
}
use lengentic.Base.Text.{Text, text_eq}
use lengentic.Base.Assoc.{lookup, text_Eq}
use lengentic.Base.Arrays.{includes}
use lengentic.Oracle.Graph.{Resolved}
use lengentic.Oracle.Resolve.{ById}

-- Whether a target was found, and what has been seen.
abbrev pub Search : Type 0
Search = Bool × List Text

-- The loop over the needs of one node.
unfoldable pub search_needs :
    (Text → List Text → Search) → List Text → List Text → List Text → Search
unfolding text_eq
search_needs search targets [] seen = (false, seen)
search_needs search targets (d ∷ needs) seen =
    let below = search d seen in
    let rest = search_needs search targets needs below.1 in
    if includes d targets then (true, seen) else if below.0 then (true, below.1) else rest

-- Each nested call adds an id of the graph to `seen`, so as many calls as nodes, and one, are enough.
unfoldable pub search_from : ℕ → ById → List Text → Text → List Text → Search
unfolding lookup text_eq search_needs
search_from zero by_id targets id seen = (false, seen)
search_from (suc n) by_id targets id seen =
    let found = λ (needs : List Text).
      search_needs (λ d s. search_from n by_id targets d s) targets needs (id ∷ seen) in
    if includes id seen
    then (false, seen)
    else elim (lookup id by_id) [ none ↦ (false, id ∷ seen) | some r ↦ found r.node.needs ]

unfoldable pub depends_on : Text → List Text → ById → Bool
unfolding search_from
depends_on id targets by_id = (search_from (suc (length by_id)) by_id targets id []).0
