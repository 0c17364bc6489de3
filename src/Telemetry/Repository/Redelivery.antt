-- ===== src/Telemetry/Repository/Redelivery.antt =====
-- A batch that is delivered again.
use mathlib.Core.List.{append-nil}
use mathlib.Core.Option.{some-injective, none-ne-some}
use lengentic.Base.{
  ℕ, ◌≡◌, refl, sym, ap, ◌∙◌, Bool, true, false, ◌&&◌, ◌||◌, Option, none, some, List, [], ◌∷◌,
  ◌++◌, map, any, filter, All, All-map, any-append, arith, Bool-cases, Option-cases, subst, inl,
  inr,
}
use lengentic.Base.Text.{Text, text_eq, text_eq_self, text_eq→eq}
use lengentic.Base.Assoc.{lookup, text_Eq}
use lengentic.MergeRules.{EntityMergeState, merge_event}
use lengentic.Telemetry.Json.{Json}
use lengentic.Telemetry.Events.{TelemetryEvent, MergeableKind, run_kind, step_kind, to_merge_event}
use lengentic.Telemetry.Repository.{
  Store, same_pair, Folded, accept, repeat, fold_items, is_ingested, event_ids,
  load_ingested_event_ids, with_entity_lock, commit, note_ids, save, entity_key,
}

abbrev pub Items : Type 0
Items = List (ℕ × TelemetryEvent)

abbrev IsIn : List Text → ℕ × TelemetryEvent → Type 0
IsIn ids i = any (text_eq i.1.event_id) ids ≡ true

abbrev pub all_duplicate : Items → List (ℕ × TelemetryEvent × Bool)
all_duplicate items = map (λ i. (i.0, i.1, false)) items

-- Nothing is merged where every id has been seen.
fold_items-seen :
    (received_at : ℕ) (items : Items) (seen : List Text) (state : Option (EntityMergeState Json))
    → All (IsIn seen) items
    → fold_items received_at items seen state
      ≡ some (record { state = state; new_ids = []; outcomes = all_duplicate items })
unfolding fold_items
fold_items-seen received_at [] seen state h = refl
fold_items-seen received_at ((i, e) ∷ items) seen state (here, later) =
    rw (here, fold_items-seen received_at items seen state later) refl

-- Each item's id was seen before or is new.
abbrev IsCovered : List Text → List Text → ℕ × TelemetryEvent → Type 0
IsCovered seen ids i = (any (text_eq i.1.event_id) seen || any (text_eq i.1.event_id) ids) ≡ true

repeat-some :
    (index : ℕ) (e : TelemetryEvent) (m : Option Folded) (f : Folded)
    → repeat index e m ≡ some f
    → (g : Folded) × (m ≡ some g) × (f.new_ids ≡ g.new_ids)
repeat-some index e none f h = cc
repeat-some index e (some g) f h = (g, refl, sym (ap (λ r. r.new_ids) (some-injective _ f h)))

accept-some :
    (index : ℕ) (e : TelemetryEvent) (m : Option Folded) (f : Folded)
    → accept index e m ≡ some f
    → (g : Folded) × (m ≡ some g) × (f.new_ids ≡ e.event_id ∷ g.new_ids)
accept-some index e none f h = cc
accept-some index e (some g) f h = (g, refl, sym (ap (λ r. r.new_ids) (some-injective _ f h)))

shift-IsCovered :
    (id : Text) (seen ids : List Text) (i : ℕ × TelemetryEvent)
    → IsCovered (id ∷ seen) ids i
    → IsCovered seen (id ∷ ids) i
shift-IsCovered id seen ids i h = ground arith

fold_items-IsCovered :
    (received_at : ℕ) (items : Items) (seen : List Text) (state : Option (EntityMergeState Json))
    (f : Folded)
    → fold_items received_at items seen state ≡ some f
    → All (IsCovered seen f.new_ids) items
unfolding fold_items
fold_items-IsCovered received_at [] seen state f h = tt
fold_items-IsCovered received_at ((i, e) ∷ items) seen state f h =
    elim (Bool-cases (any (text_eq e.event_id) seen)) [
      | inl old ↦
          let (g, rest, same) =
            repeat-some i e (fold_items received_at items seen state) f (rw old at h) in
          (
            ground arith,
            subst (λ ids. All (IsCovered seen ids) items) (sym same)
                (fold_items-IsCovered received_at items seen state g rest),
          )
      | inr new ↦ elim (Option-cases (merge_event state (to_merge_event e received_at))) [
        | inl throws ↦ absurd (none-ne-some f (rw (new, throws) at h))
        | inr (next, merged) ↦
            let (g, rest, grown) =
              accept-some i e (fold_items received_at items (e.event_id ∷ seen) (some next)) f
                (rw (new, merged) at h) in
            subst (λ ids. All (IsCovered seen ids) ((i, e) ∷ items)) (sym grown)
              (
                ground (arith, text_eq_self e.event_id),
                All-map (IsCovered (e.event_id ∷ seen) g.new_ids)
                    (IsCovered seen (e.event_id ∷ g.new_ids))
                    (shift-IsCovered e.event_id seen g.new_ids) items
                    (fold_items-IsCovered received_at items (e.event_id ∷ seen) (some next) g rest),
              )
      ]
    ]

any-filter :
    (p : Text → Bool) (id : Text) (ids : List Text)
    → any (text_eq id) (filter p ids) ≡ (p id && any (text_eq id) ids)
any-filter p id [] = ground arith
any-filter p id (x ∷ xs) = elim (Bool-cases (text_eq id x)) [
  | inl same ↦ rw (text_eq→eq id x same) (ground (arith, any-filter p x xs, text_eq_self x))
  | inr other ↦ ground (arith, any-filter p id xs)
]

any-same_pair :
    (run_id id : Text) (ids : List Text)
    → any (same_pair (run_id, id)) (map (λ i. (run_id, i)) ids) ≡ any (text_eq id) ids
any-same_pair run_id id [] = refl
any-same_pair run_id id (x ∷ xs) = ground (arith, any-same_pair run_id id xs, text_eq_self run_id)

is_ingested-append :
    (ledger : List (Text × Text)) (run_id id : Text) (ids : List Text)
    → is_ingested (ledger ++ map (λ i. (run_id, i)) ids) run_id id
      ≡ (is_ingested ledger run_id id || any (text_eq id) ids)
is_ingested-append ledger run_id id ids =
    any-append (same_pair (run_id, id)) ledger _
    ∙ ap (λ b. is_ingested ledger run_id id || b) (any-same_pair run_id id ids)

-- The ids in the ledger once the batch has been committed.
note_ids-ledger :
    (kind : MergeableKind) (run_id : Text) (received_at : ℕ) (ids : List Text) (store : Store)
    → (note_ids kind run_id received_at ids store).ingested
      ≡ store.ingested ++ map (λ i. (run_id, i)) ids
note_ids-ledger kind run_id received_at [] store = sym (append-nil store.ingested)
note_ids-ledger run_kind run_id received_at (id ∷ ids) store = refl
note_ids-ledger step_kind run_id received_at (id ∷ ids) store =
    elim (Option-cases (lookup (entity_key run_kind run_id) store.entities)) [
      | inl missing ↦ ground arith
      | inr (s, there) ↦ ground arith
    ]

event_ids-IsMember :
    (items : Items) → All (λ i. any (text_eq i.1.event_id) (event_ids items) ≡ true) items
event_ids-IsMember [] = tt
event_ids-IsMember ((n, e) ∷ items) = (
  ground (arith, text_eq_self e.event_id),
  All-map (λ i. any (text_eq i.1.event_id) (event_ids items) ≡ true)
      (λ i. any (text_eq i.1.event_id) (e.event_id ∷ event_ids items) ≡ true) (λ i h. ground arith)
      items (event_ids-IsMember items),
)

-- What the ledger knows of a batch is what is loaded of it.
load-IsIn :
    (ledger : List (Text × Text)) (run_id : Text) (ids : List Text) (items : Items)
    → All (λ i. is_ingested ledger run_id i.1.event_id ≡ true) items
    → All (λ i. any (text_eq i.1.event_id) ids ≡ true) items
    → All (IsIn (load_ingested_event_ids ledger run_id ids)) items
unfolding load_ingested_event_ids
load-IsIn ledger run_id ids [] known asked = tt
load-IsIn ledger run_id ids ((n, e) ∷ items) (k, known) (a, asked) = (
  ground (arith, any-filter (is_ingested ledger run_id) e.event_id ids),
  load-IsIn ledger run_id ids items known asked,
)

module _ (normalize : Text → Text) (kind : MergeableKind) (entity_id run_id : Text) where
  save-ledger :
      (old next : Option (EntityMergeState Json)) (store : Store)
      → (save normalize kind entity_id old next store).ingested ≡ store.ingested
  save-ledger old none store = refl
  save-ledger old (some s) store = refl

  -- Once an item has been committed, the ledger knows it.
  abbrev IsKnown : Store → ℕ × TelemetryEvent → Type 0
  IsKnown store i = is_ingested store.ingested run_id i.1.event_id ≡ true

  covered-IsKnown :
      (store : Store) (ids new_ids : List Text) (after : List (Text × Text))
      (i : ℕ × TelemetryEvent)
      → after ≡ store.ingested ++ map (λ n. (run_id, n)) new_ids
      → IsCovered (load_ingested_event_ids store.ingested run_id ids) new_ids i
      → is_ingested after run_id i.1.event_id ≡ true
  unfolding load_ingested_event_ids
  covered-IsKnown store ids new_ids after i e h =
      ap (λ ledger. is_ingested ledger run_id i.1.event_id) e
      ∙ ground (
        arith,
        is_ingested-append store.ingested run_id i.1.event_id new_ids,
        any-filter (is_ingested store.ingested run_id) i.1.event_id ids,
      )

  commit-some :
      (received_at : ℕ) (old : Option (EntityMergeState Json)) (store : Store) (m : Option Folded)
      (after : Store) (outs : List (ℕ × TelemetryEvent × Bool))
      → commit normalize kind entity_id run_id received_at old store m ≡ some (after, outs)
      → (f : Folded) × (m ≡ some f)
        × (after.ingested ≡ store.ingested ++ map (λ n. (run_id, n)) f.new_ids)
  commit-some received_at old store none after outs h = absurd (none-ne-some (after, outs) h)
  commit-some received_at old store (some f) after outs h = (
    f,
    refl,
    sym (ap (λ r. r.0.ingested) (some-injective _ (after, outs) h))
        ∙ note_ids-ledger kind run_id received_at f.new_ids
            (save normalize kind entity_id old f.state store)
        ∙ ap (λ ledger. ledger ++ map (λ n. (run_id, n)) f.new_ids) (save-ledger old f.state store),
  )

  -- What a committed batch leaves in the ledger.
  committed-IsKnown :
      (received_at : ℕ) (items : Items) (store after : Store)
      (outs : List (ℕ × TelemetryEvent × Bool))
      → with_entity_lock normalize kind entity_id run_id items received_at store
        ≡ some (after, outs)
      → All (IsKnown after) items
  unfolding with_entity_lock
  committed-IsKnown received_at items store after outs h =
      let existing = lookup (entity_key kind entity_id) store.entities in
      let seen = load_ingested_event_ids store.ingested run_id (event_ids items) in
      let (f, folded, ledger) =
        commit-some received_at existing store (fold_items received_at items seen existing) after
          outs h in
      All-map (IsCovered seen f.new_ids) (IsKnown after)
        (λ i. covered-IsKnown store (event_ids items) f.new_ids after.ingested i ledger) items
        (fold_items-IsCovered received_at items seen existing f folded)

  -- A batch whose ids the ledger knows is answered with duplicates alone, and the ledger, the
  -- counters and the liveness of the run stay; the row is written back as it is read.
  known_lem :
      (received_at : ℕ) (items : Items) (t : Store)
      → All (IsKnown t) items
      → with_entity_lock normalize kind entity_id run_id items received_at t
        ≡ some (
          save normalize kind entity_id
              (lookup (entity_key kind entity_id) t.entities)
              (lookup (entity_key kind entity_id) t.entities)
              t,
          all_duplicate items,
        )
  unfolding with_entity_lock
  known_lem received_at items t known =
      let existing = lookup (entity_key kind entity_id) t.entities in
      let seen = load_ingested_event_ids t.ingested run_id (event_ids items) in
      ap (commit normalize kind entity_id run_id received_at existing t) (
        fold_items-seen received_at items seen existing
          (load-IsIn t.ingested run_id (event_ids items) items known (event_ids-IsMember items)))

  -- Where a batch for an entity was committed and the ledger of a later state has still every id
  -- that it had after the commit, then the same batch, delivered at any later time, is answered
  -- with DUPLICATE on each of its events: the commit changes nothing but that the entity's row
  -- is written back as it is read.
  pub with_entity_lock-redelivered :
      (received_at later : ℕ) (items : Items) (store after t : Store)
      (outs : List (ℕ × TelemetryEvent × Bool))
      → with_entity_lock normalize kind entity_id run_id items received_at store
        ≡ some (after, outs)
      → ((id : Text)
          → is_ingested after.ingested run_id id ≡ true
          → is_ingested t.ingested run_id id ≡ true)
      → with_entity_lock normalize kind entity_id run_id items later t
        ≡ some (
          save normalize kind entity_id
              (lookup (entity_key kind entity_id) t.entities)
              (lookup (entity_key kind entity_id) t.entities)
              t,
          all_duplicate items,
        )
  with_entity_lock-redelivered received_at later items store after t outs h keeps =
      known_lem later items t (
        All-map (IsKnown after) (IsKnown t) (λ i. keeps i.1.event_id) items
          (committed-IsKnown received_at items store after outs h))
