-- ===== src/Flow/Decide.antt =====
-- scripts/flow.ts, `transition`: the decision it takes by default, which is that of lanes.ts.
use lengentic.Base.{
  ◌≡◌, refl, inl, inr, sym, subst, ap, ◌∙◌, Bool, true, ◌||◌, Option, none, some, List, [], ◌∷◌,
  arith, Bool-cases, Option-cases, ◌>>=◌, filter,
}
use mathlib.Core.Option.{some-injective, none-ne-some}
use lengentic.Base.Text.{Text, text_eq}
use lengentic.Base.Assoc.{lookup, assign, text_Eq}
use lengentic.Base.Arrays.{includes}
use lengentic.Lanes.Units.{Mode, LaneUnit, RepoState, Decision}
use lengentic.Lanes.Lifecycle.{Activation}
use lengentic.Lanes.Order.{Pending, ids_of, keys, pending_onto, pending_of, dependency_order}
use lengentic.Lanes.Evaluate.{evaluate, lane_entries}
use lengentic.Lanes.Evaluate.Disjoint.{decided}
use lengentic.Lanes.Adapter.{Plan, unit_from, units_from, units_for}
use lengentic.Oracle.Graph.{Resolved}
use lengentic.Oracle.Resolve.{ById}
use lengentic.Oracle.Resolve.Keys.{IsKeyed}
use lengentic.Base.Buckets.{All-lookup}
use lengentic.Lanes.Order.Completeness.{any-perm, dependency_order-perm_keys}

-- What is read of a decision.
abbrev outcome : Decision → Mode × List Text
outcome d = (d.mode, d.dependency_order)

module _ (agent_exists : Text → Bool) (activation : Activation) (plan : Plan)
    (repo : RepoState) where
  -- `evaluate(unitsFor(ids), policy(), repoState())`.
  unfoldable pub default_decide : ById → List Text → Option (Mode × List Text)
  unfolding units_for evaluate
  default_decide by_id ids = units_for plan by_id ids >>= λ units.
      evaluate agent_exists activation units plan.policy repo >>= λ (d : Decision). some (outcome d)

keys-assign :
    (x k : Text) (a : List Text) (m : Pending)
    → includes x (keys (assign k a m)) ≡ true
    → (includes x (keys m) || text_eq x k) ≡ true
unfolding assign
keys-assign x k a [] h = ground arith
keys-assign x k a (e ∷ m) h = elim (Bool-cases (text_eq e.0 k)) [
  | inl q ↦ ground (arith, rw q at h)
  | inr q ↦ ground (arith, rw q at h, keys-assign x k a m)
]

keys-pending_onto :
    (x : Text) (ids : List Text) (units : List LaneUnit) (m : Pending)
    → includes x (keys (pending_onto ids units m)) ≡ true
    → (includes x (keys m) || includes x (ids_of units)) ≡ true
unfolding pending_onto
keys-pending_onto x ids [] m h = ground arith
keys-pending_onto x ids (u ∷ units) m h = ground (
  arith,
  keys-pending_onto x ids units (assign u.task_id (filter (λ d. includes d ids) u.depends_on) m) h,
  keys-assign x u.task_id (filter (λ d. includes d ids) u.depends_on) m,
)

-- An order names units only.
dependency_order-includes :
    (x : Text) (units : List LaneUnit)
    → includes x (dependency_order units) ≡ true
    → includes x (ids_of units) ≡ true
unfolding pending_of
dependency_order-includes x units h =
    keys-pending_onto x (ids_of units) units []
      (sym (any-perm (text_eq x) (dependency_order-perm_keys units)) ∙ h)

cons_eq : {a b : Text} {as' bs : List Text} → a ≡ b → as' ≡ bs → a ∷ as' ≡ b ∷ bs
cons_eq e f = cc

module _ (plan : Plan) (by_id : ById) (keyed : IsKeyed by_id) where
  lookup-id : (id : Text) (n : Resolved) → lookup id by_id ≡ some n → n.node.id ≡ id
  lookup-id id n h = All-lookup (λ k (m : Resolved). m.node.id ≡ k) id n by_id keyed h

  -- The units of a batch have its ids.
  units_from-ids :
      (batch ids : List Text) (units : List LaneUnit)
      → units_from plan by_id batch ids ≡ some units
      → ids_of units ≡ ids
  unfolding units_from unit_from
  units_from-ids batch [] units h = ap ids_of (sym (some-injective [] units h))
  units_from-ids batch (id ∷ ids) units h = elim (Option-cases (lookup id by_id)) [
    | inl q ↦ absurd (none-ne-some units (rw (q, units_from) at h))
    | inr (n, q) ↦ elim (Option-cases (units_from plan by_id batch ids)) [
      | inl k ↦ absurd (none-ne-some units (rw (q, units_from, k) at h))
      | inr (us, k) ↦
          ap ids_of (sym (some-injective _ units (rw (q, units_from, k) at h)))
          ∙ cons_eq (lookup-id id n q) (units_from-ids batch ids us k)
    ]
  ]

  decide_done :
      (o : Option Decision) (mode : Mode) (order : List Text) (P : List Text → Type 0)
      → ((d : Decision) → o ≡ some d → P d.dependency_order)
      → (o >>= λ (d : Decision). some (outcome d)) ≡ some (mode, order)
      → P order
  decide_done none mode order P f h = absurd (none-ne-some (mode, order) h)
  decide_done (some d) mode order P f h =
      subst P (ap (λ (p : Mode × List Text). p.1) (some-injective (outcome d) (mode, order) h))
        (f d refl)

  evaluated :
      (agent_exists : Text → Bool) (activation : Activation) (repo : RepoState)
      (units : List LaneUnit) (d : Decision)
      → evaluate agent_exists activation units plan.policy repo ≡ some d
      → d.dependency_order ≡ dependency_order units
  unfolding evaluate
  evaluated agent_exists activation repo units d h =
      decided (lane_entries agent_exists activation units units) _ d
        (λ x. x.dependency_order ≡ dependency_order units) (λ entries. refl) h

  -- The default decision orders nothing but the ids it is asked about.
  pub default_decide-includes :
      (agent_exists : Text → Bool) (activation : Activation) (repo : RepoState) (ids : List Text)
      (mode : Mode) (order : List Text)
      → default_decide agent_exists activation plan repo by_id ids ≡ some (mode, order)
      → (x : Text) → includes x order ≡ true
      → includes x ids ≡ true
  unfolding default_decide units_for
  default_decide-includes agent_exists activation repo ids mode order h x i =
      elim (Option-cases (units_from plan by_id ids ids)) [
        | inl q ↦ absurd (none-ne-some (mode, order) (rw q at h))
        | inr (units, q) ↦
            decide_done (evaluate agent_exists activation units plan.policy repo) mode order
              (λ l. includes x l ≡ true → includes x ids ≡ true)
              (λ d e k.
                subst (λ l. includes x l ≡ true) (units_from-ids ids ids units q)
                  (dependency_order-includes x units (
                    subst (λ l. includes x l ≡ true)
                      (evaluated agent_exists activation repo units d e) k)))
              (rw q at h) i
      ]
