-- ===== src/Oracle/Resolve/Keys.antt =====
-- scripts/oracle.ts, `resolveGraph`: the keys of the map it returns.
use lengentic.Base.{◌≡◌, refl, sym, ◌∙◌, inl, inr, Bool, List, [], ◌∷◌, All, Bool-cases}
use lengentic.Base.Text.{Text, text_eq, text_eq→eq}
use lengentic.Base.Assoc.{assign, text_Eq}
use lengentic.Oracle.Graph.{Probe, Node, Question, Resolved}
use lengentic.Oracle.Resolve.{ById, map_nodes, probed, probe_all, with_blockers, resolve_graph}

-- Each node is kept under its own id.
abbrev pub IsKeyed : ById → Type 0
IsKeyed by_id = All (λ (e : Text × Resolved). e.1.node.id ≡ e.0) by_id

map_nodes-IsKeyed :
    (f : Resolved → Resolved)
    → ((n : Resolved) → (f n).node.id ≡ n.node.id)
    → (by_id : ById) → IsKeyed by_id
    → IsKeyed (map_nodes f by_id)
map_nodes-IsKeyed f same [] h = tt
map_nodes-IsKeyed f same (e ∷ by_id) (p, h) = (same e.1 ∙ p, map_nodes-IsKeyed f same by_id h)

assign-IsKeyed : (n : Resolved) (by_id : ById) → IsKeyed by_id → IsKeyed (assign n.node.id n by_id)
unfolding assign
assign-IsKeyed n [] h = (refl, tt)
assign-IsKeyed n (e ∷ by_id) (p, h) = elim (Bool-cases (text_eq e.0 n.node.id)) [
  | inl q ↦ rw q (sym (text_eq→eq e.0 n.node.id q), h)
  | inr q ↦ rw q (p, assign-IsKeyed n by_id h)
]

probe_all-IsKeyed :
    (run_probe : Probe → Bool) (nodes : List Node) (by_id : ById)
    → IsKeyed by_id
    → IsKeyed (probe_all run_probe nodes by_id)
unfolding probe_all probed
probe_all-IsKeyed run_probe [] by_id h = h
probe_all-IsKeyed run_probe (n ∷ nodes) by_id h =
    probe_all-IsKeyed run_probe nodes _ (assign-IsKeyed (probed run_probe n) by_id h)

-- The resolved graph keeps each node under its own id.
pub resolve_graph-IsKeyed :
    (run_probe : Probe → Bool) (questions : List Question) (nodes : List Node)
    → IsKeyed (resolve_graph run_probe questions nodes)
unfolding resolve_graph with_blockers
resolve_graph-IsKeyed run_probe questions nodes =
    map_nodes-IsKeyed _ (λ n. refl) _
      (map_nodes-IsKeyed _ (λ n. refl) _ (probe_all-IsKeyed run_probe nodes [] tt))
