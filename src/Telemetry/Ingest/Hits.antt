-- ===== src/Telemetry/Ingest/Hits.antt =====
-- The indices that the parts of `ingest` keep, counted by a test.
use lengentic.Base.{
  ℕ, suc, ◌+◌, ◌≡◌, refl, sym, Bool, true, false, Option, none, some, List, [], ◌∷◌, length, count,
  count-append, length-append, arith, if◌then◌else◌, any, inl, inr, zero, if_both, subst,
  Bool-cases, Option-cases,
}
use lengentic.Base.Text.{Text, text_eq}
use lengentic.Base.Assoc.{lookup, assign, text_Eq}
use lengentic.Telemetry.Json.{Json}
use lengentic.Telemetry.Events.{TelemetryEvent, MergeableKind, to_merge_event}
use lengentic.MergeRules.{EntityMergeState, merge_event}
use lengentic.Telemetry.Repository.{Folded, repeat, accept, fold_items, entity_key}
use lengentic.Telemetry.Batch.{
  EventClassification, refused, to_merge, to_write, EntityGroup, Gathered, note, Tally, tally_group,
  accept_item, duplicate_item, IngestResult, accepted_event, duplicate_event, push_item, grown,
}

-- How many entries have an index that passes the test.
abbrev pub hits {ℓ} : {A : Type ℓ} → (ℕ → Bool) → List (ℕ × A) → ℕ
hits p xs = count (λ x. p x.0) xs

abbrev pub outcome_hits : (ℕ → Bool) → List (ℕ × TelemetryEvent × Bool) → ℕ
outcome_hits p outs = count (λ x. p x.0) outs

abbrev pub one : Bool → ℕ
one b = if b then 1 else 0

-- How many of the `n` indices from `from` on pass the test.
abbrev pub hits_from : (ℕ → Bool) → ℕ → ℕ → ℕ
hits_from p from zero = 0
hits_from p from (suc n) = one (p from) + hits_from p (from + 1) n

abbrev pub group_hits : (ℕ → Bool) → List (Text × EntityGroup) → ℕ
group_hits p [] = 0
group_hits p ((key, g) ∷ groups) = hits p g.items + group_hits p groups

abbrev pub gathered_hits : (ℕ → Bool) → Gathered → ℕ
gathered_hits p g = hits p g.results + (group_hits p g.groups + hits p g.entity_writes)

abbrev pub found_hits : (ℕ → Bool) → Option EntityGroup → ℕ
found_hits p none = 0
found_hits p (some g) = hits p g.items

assign-hits :
    (p : ℕ → Bool) (key : Text) (v : EntityGroup) (groups : List (Text × EntityGroup))
    → group_hits p (assign key v groups) + found_hits p (lookup key groups)
      ≡ group_hits p groups + hits p v.items
unfolding assign lookup
assign-hits p key v [] = omega arith
assign-hits p key v ((k, g) ∷ groups) = elim (Bool-cases (text_eq k key)) [
  | inl same ↦ rw same (omega arith)
  | inr other ↦ rw other (omega (arith, assign-hits p key v groups))
]

grown-hits :
    (p : ℕ → Bool) (kind : MergeableKind) (index : ℕ) (e : TelemetryEvent)
    (old : Option EntityGroup)
    → hits p (grown kind index e old).items ≡ one (p index) + found_hits p old
grown-hits p kind index e none = omega arith
grown-hits p kind index e (some g) =
    omega (arith, count-append (λ x. p x.0) g.items ((index, e) ∷ []))

push_item-hits :
    (p : ℕ → Bool) (kind : MergeableKind) (index : ℕ) (e : TelemetryEvent)
    (groups : List (Text × EntityGroup))
    → group_hits p (push_item kind index e groups) ≡ one (p index) + group_hits p groups
unfolding push_item
push_item-hits p kind index e groups =
    let key = entity_key kind e.entity_id in
    omega (
      arith,
      assign-hits p key (grown kind index e (lookup key groups)) groups,
      grown-hits p kind index e (lookup key groups),
    )

pub note-hits :
    (p : ℕ → Bool) (index : ℕ) (c : EventClassification) (g : Gathered)
    → gathered_hits p (note index c g) ≡ one (p index) + gathered_hits p g
unfolding note
note-hits p index (refused id code run_id) g =
    omega (arith, count-append (λ x. p x.0) g.results (_ ∷ []))
note-hits p index (to_merge kind e) g = omega (arith, push_item-hits p kind index e g.groups)
note-hits p index (to_write e) g =
    omega (arith, count-append (λ x. p x.0) g.entity_writes ((index, e) ∷ []))

-- Of the fold's outcomes, each item has one.
abbrev pub FoldedHits : (ℕ → Bool) → Option Folded → ℕ → Type 0
FoldedHits p none n = Unit
FoldedHits p (some f) n = outcome_hits p f.outcomes ≡ n

repeat-hits :
    (p : ℕ → Bool) (index : ℕ) (e : TelemetryEvent) (n : ℕ) (m : Option Folded)
    → FoldedHits p m n
    → FoldedHits p (repeat index e m) (one (p index) + n)
repeat-hits p index e n none h = tt
repeat-hits p index e n (some f) h = omega arith

accept-hits :
    (p : ℕ → Bool) (index : ℕ) (e : TelemetryEvent) (n : ℕ) (m : Option Folded)
    → FoldedHits p m n
    → FoldedHits p (accept index e m) (one (p index) + n)
accept-hits p index e n none h = tt
accept-hits p index e n (some f) h = omega arith

pub fold_items-hits :
    (p : ℕ → Bool) (received_at : ℕ) (items : List (ℕ × TelemetryEvent)) (seen : List Text)
    (state : Option (EntityMergeState Json))
    → FoldedHits p (fold_items received_at items seen state) (hits p items)
unfolding fold_items
fold_items-hits p received_at [] seen state = refl
fold_items-hits p received_at ((i, e) ∷ items) seen state =
    if_both (λ m. FoldedHits p m (one (p i) + hits p items)) (any (text_eq e.event_id) seen) _ _
      (repeat-hits p i e (hits p items) (fold_items received_at items seen state)
        (fold_items-hits p received_at items seen state))
      (elim (Option-cases (merge_event state (to_merge_event e received_at))) [
        | inl throws ↦
            subst
              (λ m.
                FoldedHits p
                  (elim m [
                    | none ↦ none
                    | some next ↦
                        accept i e (fold_items received_at items (e.event_id ∷ seen) (some next))
                  ])
                  (one (p i) + hits p items))
              (sym throws) tt
        | inr (next, merged) ↦
            subst
              (λ m.
                FoldedHits p
                  (elim m [
                    | none ↦ none
                    | some next ↦
                        accept i e (fold_items received_at items (e.event_id ∷ seen) (some next))
                  ])
                  (one (p i) + hits p items))
              (sym merged)
              (accept-hits p i e (hits p items)
                (fold_items received_at items (e.event_id ∷ seen) (some next))
                (fold_items-hits p received_at items (e.event_id ∷ seen) (some next)))
      ])

pub tally_group-hits :
    (p : ℕ → Bool) (outs : List (ℕ × TelemetryEvent × Bool)) (t : Tally)
    → hits p (tally_group outs t).results ≡ hits p t.results + outcome_hits p outs
unfolding tally_group
tally_group-hits p [] t = omega arith
tally_group-hits p ((i, e, true) ∷ outs) t = omega (
  arith,
  tally_group-hits p outs (accept_item i e t),
  count-append (λ x. p x.0) t.results (_ ∷ []),
)
tally_group-hits p ((i, e, false) ∷ outs) t = omega (
  arith,
  tally_group-hits p outs (duplicate_item i e t),
  count-append (λ x. p x.0) t.results (_ ∷ []),
)

-- The counters add up to the results that were written.
abbrev pub IsTallied : Tally → Type 0
IsTallied t = t.accepted + (t.duplicate + t.rejected) ≡ length t.results

abbrev pub accepted_result : TelemetryEvent → IngestResult
accepted_result e = record { event_id = e.event_id; status = accepted_event }

pub accept_item-IsTallied :
    (index : ℕ) (e : TelemetryEvent) (t : Tally) → IsTallied t → IsTallied (accept_item index e t)
accept_item-IsTallied index e t h =
    omega (arith, length-append t.results ((index, accepted_result e) ∷ []))

pub tally_group-IsTallied :
    (outs : List (ℕ × TelemetryEvent × Bool)) (t : Tally)
    → IsTallied t
    → IsTallied (tally_group outs t)
unfolding tally_group
tally_group-IsTallied [] t h = h
tally_group-IsTallied ((i, e, true) ∷ outs) t h =
    tally_group-IsTallied outs (accept_item i e t) (accept_item-IsTallied i e t h)
tally_group-IsTallied ((i, e, false) ∷ outs) t h =
    tally_group-IsTallied outs (duplicate_item i e t) (
      omega (
        arith,
        length-append t.results
            ((i, record { event_id = e.event_id; status = duplicate_event }) ∷ []),
      ))

pub note-IsTallied :
    (index : ℕ) (c : EventClassification) (g : Gathered)
    → g.rejected ≡ length g.results
    → (note index c g).rejected ≡ length (note index c g).results
unfolding note
note-IsTallied index (refused id code run_id) g h = omega (arith, length-append g.results (_ ∷ []))
note-IsTallied index (to_merge kind e) g h = h
note-IsTallied index (to_write e) g h = h
