-- ===== src/Oracle/Resolve/Needs.antt =====
-- scripts/oracle.ts, `resolveGraph`: when a need lets its node into the next wave of a phase.
use mathlib.Core.Bool.{false≢true}
use mathlib.Core.List.{Memᴰ}
use mathlib.Core.List.Memᴰ
use mathlib.Core.Option.{some-injective}
use lengentic.Base.{
  ℕ, ◌≡◌, refl, sym, subst, inl, inr, Bool, true, false, some, List, [], ◌∷◌, map, arith, filter,
  Bool-cases, Option-cases, ◌⊎◌, ◌||◌, not, ◌==◌,
}
use lengentic.Base.Text.{Text, text_eq, text_eq_self, text_eq→eq}
use lengentic.Base.Assoc.{lookup, text_Eq}
use lengentic.Base.Arrays.{includes, every}
use lengentic.Oracle.Graph.{Resolved, is_done}
use lengentic.Oracle.Resolve.{ById, is_placed}

-- A need is no obstacle: if it is an unfinished node of the phase, it was placed.
abbrev pub IsMet : ℕ → ById → List Text → Text → Type 0
IsMet phase by_id placed d =
    (dep : Resolved)
    → lookup d by_id ≡ some dep
    → dep.node.phase ≡ phase
    → is_done dep.state ≡ false
    → includes d placed ≡ true

-- A need is an unfinished node of the phase that was not placed.
abbrev pub IsUnmet : ℕ → ById → List Text → Text → Type 0
IsUnmet phase by_id placed d =
    (dep : Resolved) × (lookup d by_id ≡ some dep)
    × (dep.node.phase ≡ phase)
    × (is_done dep.state ≡ false)
    × (includes d placed ≡ false)

-- An unfinished node of the phase, as the graph has it under its id.
abbrev pub Waits : ℕ → ById → Resolved → Type 0
Waits phase by_id n =
    (lookup n.node.id by_id ≡ some n) × (n.node.phase ≡ phase) × (is_done n.state ≡ false)

abbrev pub placed_ids : List (Text × ℕ) → List Text
placed_ids placed = map (λ (e : Text × ℕ). e.0) placed

pub is_placed-IsMet :
    (phase : ℕ) (by_id : ById) (placed : List Text) (d : Text)
    → is_placed phase by_id placed d ≡ true
    → IsMet phase by_id placed d
unfolding is_placed
is_placed-IsMet phase by_id placed d h dep e same waits = ground (arith, rw (e, is_placed) at h)

pub IsMet-placed :
    (phase : ℕ) (by_id : ById) (placed : List Text) (d : Text)
    → IsMet phase by_id placed d
    → is_placed phase by_id placed d ≡ true
unfolding is_placed
IsMet-placed phase by_id placed d h = elim (Option-cases (lookup d by_id)) [
  | inl q ↦ rw (q, is_placed) refl
  | inr (dep, q) ↦ rw (q, is_placed) (ground (arith, h dep q))
]

pub every-all :
    (p : Text → Bool) (ds : List Text)
    → ((d : Text) → includes d ds ≡ true → p d ≡ true)
    → every p ds ≡ true
every-all p [] f = refl
every-all p (x ∷ ds) f =
    rw (f x (ground (arith, text_eq_self x))) (every-all p ds (λ d i. f d (ground (arith, i))))

pub Memᴰ-filter :
    (p : Resolved → Bool) (n : Resolved) (ns : List Resolved)
    → Memᴰ n ns
    → p n ≡ true
    → Memᴰ n (filter p ns)
Memᴰ-filter p n [] m h = absurd (Memᴰ.not-nil m)
Memᴰ-filter p n (x ∷ ns) m h = elim (Memᴰ.cases_cons m) [
  | inl e ↦ rw (subst (λ y. p y ≡ true) e h) (Memᴰ.head e)
  | inr t ↦ elim (Bool-cases (p x)) [
    | inl q ↦ rw q (Memᴰ.tail (Memᴰ-filter p n ns t h))
    | inr q ↦ rw q (Memᴰ-filter p n ns t h)
  ]
]

pub Memᴰ-includes :
    (n : Resolved) (ns : List Resolved)
    → Memᴰ n ns
    → includes n.node.id (map (λ (x : Resolved). x.node.id) ns) ≡ true
Memᴰ-includes n [] m = absurd (Memᴰ.not-nil m)
Memᴰ-includes n (x ∷ ns) m = elim (Memᴰ.cases_cons m) [
  | inl e ↦ ground (
    arith,
    subst (λ (y : Resolved). text_eq n.node.id y.node.id ≡ true) e (text_eq_self n.node.id),
  )
  | inr t ↦ ground (arith, Memᴰ-includes n ns t)
]

pub lookup-Memᴰ :
    (id : Text) (n : Resolved) (m : ById)
    → lookup id m ≡ some n
    → Memᴰ n (map (λ (e : Text × Resolved). e.1) m)
unfolding lookup
lookup-Memᴰ id n [] h = cc
lookup-Memᴰ id n ((k, x) ∷ m) h = elim (Bool-cases (text_eq k id)) [
  | inl e ↦ Memᴰ.head (sym (some-injective x n (rw e at h)))
  | inr e ↦ Memᴰ.tail (lookup-Memᴰ id n m (rw e at h))
]

pub every-cases :
    (p : Text → Bool) (ds : List Text)
    → ((d : Text) → includes d ds ≡ true → p d ≡ true)
      ⊎ ((d : Text) × (includes d ds ≡ true) × (p d ≡ false))
every-cases p [] = inl (λ d i. absurd (false≢true i))
every-cases p (x ∷ ds) = elim (Bool-cases (p x)) [
  | inr q ↦ inr (x, ground (arith, text_eq_self x), q)
  | inl q ↦ elim (every-cases p ds) [
    | inr (d, i, h) ↦ inr (d, ground (arith, i), h)
    | inl f ↦ inl (λ d i. elim (Bool-cases (text_eq d x)) [
      | inl e ↦ subst (λ y. p y ≡ true) (sym (text_eq→eq d x e)) q
      | inr e ↦ f d (rw e at i)
    ])
  ]
]

pub is_placed-IsUnmet :
    (phase : ℕ) (by_id : ById) (placed : List Text) (d : Text)
    → is_placed phase by_id placed d ≡ false
    → IsUnmet phase by_id placed d
unfolding is_placed
is_placed-IsUnmet phase by_id placed d h = elim (Option-cases (lookup d by_id)) [
  | inl q ↦ absurd (false≢true (sym (rw (q, is_placed) at h)))
  | inr (dep, q) ↦
      let k : (is_done dep.state || (includes d placed || not (dep.node.phase == phase))) ≡ false =
        rw (q, is_placed) at h in
      (dep, q, ground (arith, k), ground (arith, k), ground (arith, k))
]
