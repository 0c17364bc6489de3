-- ===== src/Oracle/Resolve/Waves.antt =====
-- scripts/oracle.ts, `resolveGraph`: the nodes of a wave do not need each other.
use lengentic.Base.{
  ℕ, zero, suc, ◌≡◌, sym, some, ◌≤◌, ◌<◌, refl, subst, ap, ◌∙◌, inl, inr, Bool, true, not, List, [],
  ◌∷◌, ◌++◌, map, arith, any-append, filter, filter-append, All, All-map, Bool-cases, if_both, ltb,
}
use mathlib.Core.List.{append-nil}
use lengentic.Base.Text.{Text, text_eq, text_eq→eq}
use mathlib.Core.Bool.{false≢true}
use lengentic.Base.Assoc.{lookup, text_Eq}
use lengentic.Base.Buckets.{HasDistinctKeys, All-entries}
use lengentic.Base.Folds.{All-append, All-kept}
use lengentic.Oracle.Resolve.Keys.{IsKeyed}
use lengentic.Oracle.Resolve.Needs.{IsMet, Waits, is_placed-IsMet}
use lengentic.Oracle.Resolve.Placed.{IsSettled, waves_of-IsSettled}
use lengentic.Base.Arrays.{includes, every, is_nil}
use lengentic.Oracle.Graph.{Resolved}
use lengentic.Oracle.Resolve.{ById, is_placed, next_batch, place_waves, unfinished, waves_of}

-- The ids with a wave before the given one.
abbrev pub before_wave : ℕ → List (Text × ℕ) → List Text
before_wave w placed = map (λ (e : Text × ℕ). e.0) (filter (λ e. ltb e.1 w) placed)

-- The id of such a node, of which no need is an obstacle, given what was placed.
abbrev pub IsOpened : ℕ → ById → List Text → Text → Type 0
IsOpened phase by_id placed id =
    (n : Resolved) × (n.node.id ≡ id)
    × Waits phase by_id n
    × ((d : Text) → includes d n.node.needs ≡ true → IsMet phase by_id placed d)

-- What holds of every item of a list holds of each text that the list includes.
every-includes :
    (p : Text → Bool) (ds : List Text)
    → every p ds ≡ true
    → (d : Text) → includes d ds ≡ true
    → p d ≡ true
every-includes p [] h d i = absurd (false≢true i)
every-includes p (x ∷ ds) h d i = elim (Bool-cases (text_eq d x)) [
  | inl e ↦ subst (λ y. p y ≡ true) (sym (text_eq→eq d x e)) (ground (arith, h))
  | inr e ↦ every-includes p ds (ground (arith, h)) d (rw e at i)
]

IsOpened-mono :
    (phase : ℕ) (by_id : ById) (a b : List Text) (id : Text)
    → ((x : Text) → includes x a ≡ true → includes x b ≡ true)
    → IsOpened phase by_id a id
    → IsOpened phase by_id b id
IsOpened-mono phase by_id a b id f (n, e, w, h) =
    (n, e, w, λ d i dep q same waits. f d (h d i dep q same waits))

next_batch-IsOpened :
    (phase : ℕ) (by_id : ById) (placed : List Text) (remaining : List Resolved)
    → All (Waits phase by_id) remaining
    → All (IsOpened phase by_id placed) (next_batch phase by_id placed remaining)
unfolding next_batch
next_batch-IsOpened phase by_id placed [] h = tt
next_batch-IsOpened phase by_id placed (n ∷ remaining) (w, h) =
    elim (Bool-cases (every (is_placed phase by_id placed) n.node.needs)) [
      | inl q ↦ rw q (
        (
          n,
          refl,
          w,
          λ d i. is_placed-IsMet phase by_id placed d (every-includes _ n.node.needs q d i),
        ),
        next_batch-IsOpened phase by_id placed remaining h,
      )
      | inr q ↦ rw q (next_batch-IsOpened phase by_id placed remaining h)
    ]

-- Of one batch, all is before a later wave and nothing before its own.
before_wave-batch :
    (w v : ℕ) (batch : List Text) → w < v → before_wave v (map (λ id. (id, w)) batch) ≡ batch
before_wave-batch w v [] b = refl
before_wave-batch w v (id ∷ batch) b =
    rw (ltb_of w v b) (ap (λ l. id ∷ l) (before_wave-batch w v batch b))
  where
    ltb_of : (a c : ℕ) → a < c → ltb a c ≡ true
    ltb_of a c h = ground arith

map-append :
    (xs ys : List (Text × ℕ))
    → map (λ (e : Text × ℕ). e.0) (xs ++ ys) ≡ map (λ e. e.0) xs ++ map (λ e. e.0) ys
map-append [] ys = refl
map-append (e ∷ xs) ys = ap (λ l. e.0 ∷ l) (map-append xs ys)

before_wave-append :
    (v : ℕ) (xs ys : List (Text × ℕ))
    → before_wave v (xs ++ ys) ≡ before_wave v xs ++ before_wave v ys
before_wave-append v xs ys =
    ap (map (λ e. e.0)) (filter-append (λ e. ltb e.1 v) xs ys) ∙ map-append _ _

abbrev AreOpened : ℕ → ById → ℕ → List Text → List (Text × ℕ) → List (Text × ℕ) → Type 0
AreOpened phase by_id w placed all =
    All (λ (e : Text × ℕ). (w ≤ e.1) × IsOpened phase by_id (before_wave e.1 all ++ placed) e.0)

batch-AreOpened :
    (phase : ℕ) (by_id : ById) (w : ℕ) (placed : List Text) (all : List (Text × ℕ))
    (batch : List Text)
    → All (IsOpened phase by_id placed) batch
    → AreOpened phase by_id w placed all (map (λ id. (id, w)) batch)
batch-AreOpened phase by_id w placed all [] h = tt
batch-AreOpened phase by_id w placed all (id ∷ batch) (p, h) = (
  (
    omega arith,
    IsOpened-mono phase by_id placed (before_wave w all ++ placed) id
        (λ x i. any-append (text_eq x) (before_wave w all) placed ∙ ground (arith, i)) p,
  ),
  batch-AreOpened phase by_id w placed all batch h,
)

reordered :
    (x : Text) (a b c : List Text)
    → includes x (b ++ (a ++ c)) ≡ true
    → includes x ((a ++ b) ++ c) ≡ true
reordered x a b c h = ground (
  arith,
  any-append (text_eq x) b (a ++ c),
  any-append (text_eq x) a c,
  any-append (text_eq x) (a ++ b) c,
  any-append (text_eq x) a b,
)

later-AreOpened :
    (phase : ℕ) (by_id : ById) (w : ℕ) (placed batch : List Text) (rest : List (Text × ℕ))
    (e : Text × ℕ)
    → (suc w ≤ e.1) × IsOpened phase by_id (before_wave e.1 rest ++ (batch ++ placed)) e.0
    → (w ≤ e.1)
      × IsOpened phase by_id (before_wave e.1 (map (λ id. (id, w)) batch ++ rest) ++ placed) e.0
later-AreOpened phase by_id w placed batch rest e (b, o) = (
  omega (arith, b),
  IsOpened-mono phase by_id _ _ e.0
      (λ x i.
        rw
          (before_wave-append e.1 (map (λ id. (id, w)) batch) rest, before_wave-batch w e.1 batch b)
          (reordered x batch (before_wave e.1 rest) placed i))
      o,
)

place_waves-AreOpened :
    (k w phase : ℕ) (by_id : ById) (placed : List Text) (remaining : List Resolved)
    → All (Waits phase by_id) remaining
    → AreOpened phase by_id w placed
        (place_waves k w phase by_id placed remaining)
        (place_waves k w phase by_id placed remaining)
unfolding place_waves
place_waves-AreOpened zero w phase by_id placed remaining h = tt
place_waves-AreOpened (suc k) w phase by_id placed remaining h =
    let batch = next_batch phase by_id placed remaining in
    let left = filter (λ (n : Resolved). not (includes n.node.id (batch ++ placed))) remaining in
    let rest = place_waves k (suc w) phase by_id (batch ++ placed) left in
    let all = map (λ (id : Text). (id, w)) batch ++ rest in
    if_both (λ (l : List (Text × ℕ)). AreOpened phase by_id w placed l l) (is_nil batch) [] all tt
      (All-append _ (map (λ id. (id, w)) batch) rest
        (batch-AreOpened phase by_id w placed all batch
          (next_batch-IsOpened phase by_id placed remaining h))
        (All-map _ _ (later-AreOpened phase by_id w placed batch rest) rest (
          place_waves-AreOpened k (suc w) phase by_id (batch ++ placed) left
            (All-kept _ (λ n e q. q) remaining h))))

-- The nodes of a graph, under keys that are their ids.
nodes-found :
    (by_id m : ById)
    → IsKeyed m
    → All (λ (e : Text × Resolved). lookup e.0 by_id ≡ some e.1) m
    → All (λ n. lookup n.node.id by_id ≡ some n) (map (λ (e : Text × Resolved). e.1) m)
nodes-found by_id [] keyed h = tt
nodes-found by_id (e ∷ m) (p, keyed) (q, h) =
    (subst (λ k. lookup k by_id ≡ some e.1) (sym p) q, nodes-found by_id m keyed h)

unfinished-Waits :
    (phase : ℕ) (by_id : ById)
    → IsKeyed by_id
    → HasDistinctKeys by_id
    → All (Waits phase by_id) (unfinished phase by_id)
unfinished-Waits phase by_id keyed distinct =
    All-kept _
      (λ n h (q : (lookup n.node.id by_id ≡ some n) × (n.node.phase ≡ phase)).
        (q.0, q.1, ground (arith, h)))
      _
      (All-kept _ (λ n h (q : lookup n.node.id by_id ≡ some n). (q, ground (arith, h))) _
        (nodes-found by_id by_id keyed
          (All-entries (λ k n. lookup k by_id ≡ some n) by_id distinct (λ k n q. q))))

-- Over a graph that keeps each node under its id, and none twice: each id that is given a wave of a
-- phase is that of an unfinished node of the graph in that phase, and every need of that node that
-- is itself an unfinished node of the phase is placed in an earlier wave. Waves count from 1. And
-- each unfinished node of the graph in the phase has a wave, or has a need that is itself an
-- unfinished node of the phase without a wave, or some node has wave 19 or later.
pub waves_of-IsOpened :
    (phase : ℕ) (by_id : ById)
    → IsKeyed by_id
    → HasDistinctKeys by_id
    → All
        (λ (e : Text × ℕ).
          (1 ≤ e.1) × IsOpened phase by_id (before_wave e.1 (waves_of phase by_id)) e.0)
        (waves_of phase by_id)
      × ((n : Resolved) → Waits phase by_id n → IsSettled phase by_id (waves_of phase by_id) n)
unfolding waves_of
waves_of-IsOpened phase by_id keyed distinct = (
  All-map _ _
      (λ e
          (p : (1 ≤ e.1) × IsOpened phase by_id (before_wave e.1 (waves_of phase by_id) ++ []) e.0).
        (p.0, subst (λ l. IsOpened phase by_id l e.0) (append-nil _) p.1))
      (waves_of phase by_id)
      (place_waves-AreOpened 19 1 phase by_id [] (unfinished phase by_id)
        (unfinished-Waits phase by_id keyed distinct)),
  waves_of-IsSettled phase by_id,
)
