-- ===== src/Flow/Dependence/Reach.antt =====
-- scripts/flow.ts, `dependsOn`: that the search finds a target exactly when one is needed, directly
-- or through other nodes.
use lengentic.Base.{
  ℕ, zero, suc, ◌≤◌, ◌<◌, ◌≡◌, refl, sym, subst, ap, ◌∙◌, ◌↔◌, ◌⊎◌, inl, inr, Bool, true, false,
  not, ◌||◌, none, some, List, [], ◌∷◌, arith, count, count-le-length, length, Bool-cases,
  Option-cases,
}
use mathlib.Core.Bool.{false≢true}
use mathlib.Core.Option.{some-injective, none-ne-some}
use lengentic.Base.Text.{Text, text_eq, text_eq→eq, text_eq_self}
use lengentic.Base.Assoc.{lookup, text_Eq}
use lengentic.Base.Arrays.{includes}
use lengentic.Oracle.Graph.{Resolved}
use lengentic.Oracle.Resolve.{ById}
use lengentic.Flow.Dependence.{Search, search_needs, search_from, depends_on}

count_mono {ℓ} :
    {A : Type ℓ} (p q : A → Bool)
    → ((a : A) → p a ≡ true → q a ≡ true)
    → (xs : List A) → count p xs ≤ count q xs
count_mono p q f [] = omega arith
count_mono p q f (x ∷ xs) = ground (arith, f x, count_mono p q f xs)

not_mono : (a b : Bool) → (a ≡ true → b ≡ true) → not b ≡ true → not a ≡ true
not_mono a b f h = ground (arith, f)

or_second : (a : Bool) {b : Bool} → b ≡ true → (a || b) ≡ true
or_second a h = ground (arith, h)

counted :
    (id : Text) (r : Resolved) (seen : List Text)
    → includes id seen ≡ false
    → (m : ById) → lookup id m ≡ some r
    → count (λ (e : Text × Resolved). not (includes e.0 (id ∷ seen))) m
      < count (λ (e : Text × Resolved). not (includes e.0 seen)) m
unfolding lookup
counted id r seen e [] q = absurd (none-ne-some r q)
counted id r seen e (c ∷ m) q = elim (Bool-cases (text_eq c.0 id)) [
  | inr k ↦ ground (arith, counted id r seen e m (rw k at q))
  | inl k ↦ ground (
    arith,
    ap (λ x. includes x seen) (text_eq→eq c.0 id k),
    count_mono _ _
        (λ (d : Text × Resolved) h.
          not_mono (includes d.0 seen) (includes d.0 (id ∷ seen))
            (λ i. or_second (text_eq d.0 id) i) h)
        m,
  )
]

module _ (by_id : ById) (targets : List Text) where
  -- A node needs a target, or a node that does.
  pub data Reaches : Text → Type 0 where
    at_target :
        {id : Text} {r : Resolved} (d : Text)
        → lookup id by_id ≡ some r
        → includes d r.node.needs ≡ true
        → includes d targets ≡ true
        → Reaches id
    through :
        {id : Text} {r : Resolved} (d : Text)
        → lookup id by_id ≡ some r
        → includes d r.node.needs ≡ true
        → Reaches d
        → Reaches id

  -- Needs that are no targets and have been seen.
  abbrev IsSettled : List Text → Text → Type 0
  IsSettled seen id =
      (r : Resolved)
      → lookup id by_id ≡ some r
      → (d : Text) → includes d r.node.needs ≡ true
      → (includes d targets ≡ false) × (includes d seen ≡ true)

  -- What a search that finds nothing leaves: more has been seen, the id among it, and what is new
  -- is settled.
  abbrev IsSearched : List Text → List Text → Type 0
  IsSearched before after =
      ((x : Text) → includes x before ≡ true → includes x after ≡ true)
      × ((x : Text) → includes x after ≡ true → (includes x before ≡ true) ⊎ IsSettled after x)

  -- Where everything that has been seen is settled, nothing seen reaches a target.
  settled-apart :
      (seen : List Text)
      → ((x : Text) → includes x seen ≡ true → IsSettled seen x)
      → (id : Text) → Reaches id
      → includes id seen ≡ false
  settled-apart seen s id (at_target {r} d found i t) = elim (Bool-cases (includes id seen)) [
    | inr e ↦ e
    | inl e ↦ absurd (false≢true (sym (s id e r found d i).0 ∙ t))
  ]
  settled-apart seen s id (through {r} d found i h) = elim (Bool-cases (includes id seen)) [
    | inr e ↦ e
    | inl e ↦ absurd (false≢true (sym (settled-apart seen s d h) ∙ (s id e r found d i).1))
  ]

  -- A need that is a target, or reaches one.
  abbrev Leads : List Text → Type 0
  Leads needs = (d : Text) × (includes d needs ≡ true) × ((includes d targets ≡ true) ⊎ Reaches d)

  later_need : (d : Text) (needs : List Text) → Leads needs → Leads (d ∷ needs)
  later_need d needs (c, i, h) = (c, ground (arith, i), h)

  search_needs_sound :
      (search : Text → List Text → Search)
      → ((d : Text) (seen : List Text) → (search d seen).0 ≡ true → Reaches d)
      → (needs seen : List Text) → (search_needs search targets needs seen).0 ≡ true
      → Leads needs
  unfolding search_needs
  search_needs_sound search f [] seen h = absurd (false≢true h)
  search_needs_sound search f (d ∷ needs) seen h = elim (Bool-cases (includes d targets)) [
    | inl t ↦ (d, rw (text_eq_self d) refl, inl t)
    | inr t ↦ elim (Bool-cases (search d seen).0) [
      | inl b ↦ (d, rw (text_eq_self d) refl, inr (f d seen b))
      | inr b ↦
          later_need d needs (search_needs_sound search f needs (search d seen).1 (rw (t, b) at h))
    ]
  ]

  led : (id : Text) (r : Resolved) → lookup id by_id ≡ some r → Leads r.node.needs → Reaches id
  led id r found (d, i, inl t) = at_target d found i t
  led id r found (d, i, inr h) = through d found i h

  search_from_sound :
      (n : ℕ) (id : Text) (seen : List Text)
      → (search_from n by_id targets id seen).0 ≡ true
      → Reaches id
  unfolding search_from
  search_from_sound zero id seen h = absurd (false≢true h)
  search_from_sound (suc n) id seen h = elim (Bool-cases (includes id seen)) [
    | inl e ↦ absurd (false≢true (rw e at h))
    | inr e ↦ elim (Option-cases (lookup id by_id)) [
      | inl q ↦ absurd (false≢true (rw (e, q) at h))
      | inr (r, q) ↦ led id r q (
          search_needs_sound (λ d s. search_from n by_id targets d s)
            (λ d s k. search_from_sound n d s k) r.node.needs (id ∷ seen) (rw (e, q) at h))
    ]
  ]

  abbrev unseen : List Text → ℕ
  unseen seen = count (λ (e : Text × Resolved). not (includes e.0 seen)) by_id

  IsSettled-mono :
      (before after : List Text) (x : Text)
      → ((y : Text) → includes y before ≡ true → includes y after ≡ true)
      → IsSettled before x
      → IsSettled after x
  IsSettled-mono before after x f s r found d i = ((s r found d i).0, f d (s r found d i).1)

  IsSearched-trans : (a b c : List Text) → IsSearched a b → IsSearched b c → IsSearched a c
  IsSearched-trans a b c (f, g) (h, k) = (λ x i. h x (f x i), λ x i. split_one x (k x i))
    where
      split_one :
          (x : Text) → (includes x b ≡ true) ⊎ IsSettled c x → (includes x a ≡ true) ⊎ IsSettled c x
      split_one x (inr s) = inr s
      split_one x (inl i) = elim (g x i) [ inl j ↦ inl j | inr s ↦ inr (IsSettled-mono b c x h s) ]

  unseen_mono :
      (before after : List Text)
      → ((y : Text) → includes y before ≡ true → includes y after ≡ true)
      → unseen after ≤ unseen before
  unseen_mono before after f = count_mono _ _ (λ e h. not_mono _ _ (f e.0) h) by_id

  -- What a call on an id achieves when it finds nothing.
  abbrev IsExplored : List Text → Text → List Text → Type 0
  IsExplored before id after = IsSearched before after × (includes id after ≡ true)

  -- The needs of a node, explored.
  abbrev AreExplored : List Text → List Text → List Text → Type 0
  AreExplored before needs after =
      IsSearched before after
      × ((d : Text)
          → includes d needs ≡ true
          → (includes d targets ≡ false) × (includes d after ≡ true))

  add_need :
      (d : Text) (needs before between after : List Text)
      → includes d targets ≡ false
      → IsExplored before d between
      → AreExplored between needs after
      → AreExplored before (d ∷ needs) after
  add_need d needs before between after t (s, i) (k, h) = (
    IsSearched-trans before between after s k,
    λ c j. elim (Bool-cases (text_eq c d)) [
      | inl e ↦ rw (text_eq→eq c d e) (t, k.0 d i)
      | inr e ↦ h c (rw e at j)
    ],
  )

  search_needs_complete :
      (search : Text → List Text → Search) (n : ℕ)
      → ((d : Text) (seen : List Text)
          → unseen seen < n
          → (search d seen).0 ≡ false
          → IsExplored seen d (search d seen).1)
      → (needs seen : List Text) → unseen seen < n
      → (search_needs search targets needs seen).0 ≡ false
      → AreExplored seen needs (search_needs search targets needs seen).1
  unfolding search_needs
  search_needs_complete search n f [] seen b h =
      ((λ x i. i, λ x i. inl i), λ d i. absurd (false≢true i))
  search_needs_complete search n f (d ∷ needs) seen b h = elim (Bool-cases (includes d targets)) [
    | inl t ↦ absurd (false≢true (sym (rw t at h)))
    | inr t ↦ elim (Bool-cases (search d seen).0) [
      | inl k ↦ absurd (false≢true (sym (rw (t, k) at h)))
      | inr k ↦
          let first = f d seen b k in
          rw (t, k)
            (add_need d needs seen (search d seen).1 _ t first (
              search_needs_complete search n f needs (search d seen).1
                (omega (arith, b, unseen_mono seen (search d seen).1 first.0.0)) (rw (t, k) at h)))
    ]
  ]

  -- Once the needs are explored, so is the node.
  node-IsExplored :
      (id : Text) (r : Resolved) (seen after : List Text)
      → lookup id by_id ≡ some r
      → AreExplored (id ∷ seen) r.node.needs after
      → IsExplored seen id after
  node-IsExplored id r seen after found ((f, g), h) = (
    (λ x i. f x (ground (arith, i)), λ x i. split_one x (g x i)),
    f id (rw (text_eq_self id) refl),
  )
    where
      split_one :
          (x : Text)
          → (includes x (id ∷ seen) ≡ true) ⊎ IsSettled after x
          → (includes x seen ≡ true) ⊎ IsSettled after x
      split_one x (inr s) = inr s
      split_one x (inl i) = elim (Bool-cases (text_eq x id)) [
        | inr e ↦ inl (rw e at i)
        | inl e ↦ inr (
            subst (IsSettled after) (sym (text_eq→eq x id e)) (λ q k d j. h d (
              subst (λ (y : Resolved). includes d y.node.needs ≡ true)
                (sym (some-injective r q (sym found ∙ k))) j)))
      ]

  -- An id that is not in the graph has no needs.
  unknown : (id : Text) (seen : List Text) → lookup id by_id ≡ none → IsExplored seen id (id ∷ seen)
  unknown id seen q = ((λ x i. ground (arith, i), λ x i. split_one x i), rw (text_eq_self id) refl)
    where
      split_one :
          (x : Text)
          → includes x (id ∷ seen) ≡ true
          → (includes x seen ≡ true) ⊎ IsSettled (id ∷ seen) x
      split_one x i = elim (Bool-cases (text_eq x id)) [
        | inr e ↦ inl (rw e at i)
        | inl e ↦ inr (λ r k d j.
            absurd
              (none-ne-some r (sym q ∙ ap (λ y. lookup y by_id) (sym (text_eq→eq x id e)) ∙ k)))
      ]

  -- An id of the graph that is seen for the first time leaves less to see.
  unseen-lt :
      (id : Text) (r : Resolved) (seen : List Text)
      → lookup id by_id ≡ some r
      → includes id seen ≡ false
      → unseen (id ∷ seen) < unseen seen
  unseen-lt id r seen found e = counted id r seen e by_id found

  search_from_complete :
      (n : ℕ) (id : Text) (seen : List Text)
      → unseen seen < n
      → (search_from n by_id targets id seen).0 ≡ false
      → IsExplored seen id (search_from n by_id targets id seen).1
  unfolding search_from
  search_from_complete zero id seen b h = absurd (ground arith)
  search_from_complete (suc n) id seen b h = elim (Bool-cases (includes id seen)) [
    | inl e ↦ rw e (((λ x i. i), (λ x i. inl i)), e)
    | inr e ↦ elim (Option-cases (lookup id by_id)) [
      | inl q ↦ rw (e, q) (unknown id seen q)
      | inr (r, q) ↦
          rw (e, q)
            (node-IsExplored id r seen _ q (
              search_needs_complete (λ d s. search_from n by_id targets d s) n
                (λ d s k m. search_from_complete n d s k m) r.node.needs (id ∷ seen)
                (omega (arith, b, unseen-lt id r seen q e)) (rw (e, q) at h)))
    ]
  ]

  -- What the search on an unseen id leaves is settled throughout.
  explored-apart : (id : Text) (after : List Text) → IsExplored [] id after → ¬ Reaches id
  explored-apart id after ((f, g), i) h = false≢true (
      sym (
        settled-apart after (λ x j. elim (g x j) [ inl k ↦ absurd (false≢true k) | inr s ↦ s ]) id
          h)
      ∙ i)

-- The search says yes exactly when the node needs one of the targets, directly or through other
-- nodes of the graph, which may have cycles.
pub depends_on_iff :
    (id : Text) (targets : List Text) (by_id : ById)
    → (depends_on id targets by_id ≡ true) ↔ Reaches by_id targets id
unfolding depends_on
depends_on_iff id targets by_id = (
  λ h. search_from_sound by_id targets (suc (length by_id)) id [] h,
  λ h. elim (Bool-cases (search_from (suc (length by_id)) by_id targets id []).0) [
    | inl e ↦ e
    | inr e ↦ absurd (
        explored-apart by_id targets id _
          (search_from_complete by_id targets (suc (length by_id)) id []
            (omega (arith, count-le-length (λ (e : Text × Resolved). not (includes e.0 [])) by_id))
            e)
          h)
  ],
)
