-- ===== src/Telemetry/Ingest/Drops.antt =====
-- The drop reports of clients: what an aborted batch leaves, and a delivery that is repeated.
use lengentic.Base.{
  ℕ, ◌≡◌, refl, ap, ◌∙◌, Bool, true, false, Option, none, some, List, [], ◌∷◌, ◌++◌, ◌==◌, any,
  any-append, arith, ◌⊎◌, inl, inr, Bool-cases, Sum-cases, Option-cases, subst,
}
use lengentic.Base.Text.{Text, text_eq_self}
use lengentic.Base.Assoc.{lookup, text_Eq}
use lengentic.MergeRules.{EntityMergeState}
use lengentic.Telemetry.Json.{Json}
use lengentic.Telemetry.Events.{TelemetryEvent, MergeableKind, run_kind, step_kind}
use lengentic.Telemetry.Failure.{Failure, HttpStatus}
use lengentic.Telemetry.Batch.{EntityGroup, Tally, tally_group, accept_item}
use lengentic.Telemetry.Ingest.{
  Backend, Database, Stage, aborted, went_on, gather, group_outcome, persist_groups,
  persist_entity_writes, finish, after_groups, start_gathered, start_tally, ingest, thrown,
}
use lengentic.Telemetry.Repository.{
  Store, Folded, same_pair, credited, increment_dropped_count, increment_dropped_count_raw, save,
  note_ids, commit, with_entity_lock, entity_key,
}

credited-deliveries :
    (old : Option (EntityMergeState Json)) (run_id : Text) (amount : ℕ) (store : Store)
    → (credited old run_id amount store).deliveries ≡ store.deliveries
credited-deliveries none run_id amount store = refl
credited-deliveries (some row) run_id amount store = refl

-- A drop report that carries a delivery id and is not empty is credited to a run once: the same
-- report, in any later amount that is not 0, changes nothing.
increment_dropped_count-repeated :
    (run_id delivery_id : Text) (amount again : ℕ) (store : Store)
    → (amount == 0) ≡ false
    → (again == 0) ≡ false
    → increment_dropped_count run_id again
        (some delivery_id)
        (increment_dropped_count run_id amount (some delivery_id) store)
      ≡ increment_dropped_count run_id amount (some delivery_id) store
unfolding increment_dropped_count increment_dropped_count_raw
increment_dropped_count-repeated run_id delivery_id amount again store a b =
    elim (Bool-cases (any (same_pair (run_id, delivery_id)) store.deliveries)) [
      | inl known ↦ rw (a, b, known, known) refl
      | inr new ↦
          let noted = record store {
            deliveries = store.deliveries ++ (run_id, delivery_id) ∷ [];
          } in
          let old = lookup (entity_key run_kind run_id) store.entities in
          let knows : any (same_pair (run_id, delivery_id))
                (credited old run_id amount noted).deliveries
              ≡ true =
            ap (any (same_pair (run_id, delivery_id))) (credited-deliveries old run_id amount noted)
            ∙ any-append (same_pair (run_id, delivery_id)) store.deliveries _
            ∙ ground (arith, text_eq_self run_id, text_eq_self delivery_id) in
          rw (a, b, new, knows) refl
    ]

-- No run has been credited since.
abbrev SameDrops : Store → Store → Type 0
SameDrops before after = (after.dropped ≡ before.dropped) × (after.deliveries ≡ before.deliveries)

note_ids-SameDrops :
    (kind : MergeableKind) (run_id : Text) (received_at : ℕ) (ids : List Text) (store : Store)
    → SameDrops store (note_ids kind run_id received_at ids store)
note_ids-SameDrops kind run_id received_at [] store = (refl, refl)
note_ids-SameDrops run_kind run_id received_at (id ∷ ids) store = (refl, refl)
note_ids-SameDrops step_kind run_id received_at (id ∷ ids) store =
    elim (Option-cases (lookup (entity_key run_kind run_id) store.entities)) [
      | inl missing ↦ ground arith
      | inr (s, there) ↦ ground arith
    ]

module _ {W : Type 0} (backend : Backend W) where
  save-SameDrops :
      (kind : MergeableKind) (id : Text) (old next : Option (EntityMergeState Json)) (store : Store)
      → SameDrops store (save backend.normalize kind id old next store)
  save-SameDrops kind id old none store = (refl, refl)
  save-SameDrops kind id old (some s) store = (refl, refl)

  abbrev CommittedSame : Store → Option (Store × List (ℕ × TelemetryEvent × Bool)) → Type 0
  CommittedSame store none = Unit
  CommittedSame store (some committed) = SameDrops store committed.0

  commit-SameDrops :
      (kind : MergeableKind) (entity_id run_id : Text) (received_at : ℕ)
      (old : Option (EntityMergeState Json)) (store : Store) (m : Option Folded)
      → CommittedSame store (commit backend.normalize kind entity_id run_id received_at old store m)
  commit-SameDrops kind entity_id run_id received_at old store none = tt
  commit-SameDrops kind entity_id run_id received_at old store (some f) =
      let saved = save backend.normalize kind entity_id old f.state store in
      let (d, e) = save-SameDrops kind entity_id old f.state store in
      let (d2, e2) = note_ids-SameDrops kind run_id received_at f.new_ids saved in (d2 ∙ d, e2 ∙ e)

  abbrev OutcomeSame : Store → Failure ⊎ (Store × List (ℕ × TelemetryEvent × Bool)) → Type 0
  OutcomeSame store (inl failure) = Unit
  OutcomeSame store (inr committed) = SameDrops store committed.0

  answered-SameDrops :
      (store : Store) (m : Option (Store × List (ℕ × TelemetryEvent × Bool)))
      → CommittedSame store m
      → OutcomeSame store (elim m [ none ↦ inl thrown | some committed ↦ inr committed ])
  answered-SameDrops store none h = tt
  answered-SameDrops store (some committed) h = h

  group_outcome-SameDrops :
      (failure : Option Failure) (g : EntityGroup) (received_at : ℕ) (store : Store)
      → OutcomeSame store (group_outcome backend failure g received_at store)
  unfolding group_outcome with_entity_lock
  group_outcome-SameDrops (some failure) g received_at store = tt
  group_outcome-SameDrops none g received_at store =
      answered-SameDrops store
        (with_entity_lock backend.normalize g.kind g.entity_id g.run_id g.items received_at store)
        (commit-SameDrops g.kind g.entity_id g.run_id received_at _ store _)

  abbrev StageSame : Store → Stage W → Type 0
  StageSame store (aborted status db) = SameDrops store db.store
  StageSame store (went_on t db) = SameDrops store db.store

  persist_groups-SameDrops :
      (before : Store) (received_at : ℕ) (groups : List (Text × EntityGroup)) (t : Tally)
      (db : Database W)
      → SameDrops before db.store
      → StageSame before (persist_groups backend received_at groups t db)
  unfolding persist_groups
  persist_groups-SameDrops before received_at [] t db h = h
  persist_groups-SameDrops before received_at ((key, g) ∷ groups) t db h =
      let failure = backend.transaction_failure g.kind g.entity_id in
      elim (Sum-cases (group_outcome backend failure g received_at db.store)) [
        | inl (f, failed) ↦ rw (StageSame, failed) h
        | inr (committed, e) ↦
            let (d, r) =
              subst (OutcomeSame db.store) e
                (group_outcome-SameDrops failure g received_at db.store) in
            rw (StageSame, e)
              (persist_groups-SameDrops before received_at groups (tally_group committed.1 t)
                (record db { store = committed.0 }) (d ∙ h.0, r ∙ h.1))
      ]

  persist_entity_writes-SameDrops :
      (before : Store) (items : List (ℕ × TelemetryEvent)) (t : Tally) (db : Database W)
      → SameDrops before db.store
      → StageSame before (persist_entity_writes backend items t db)
  unfolding persist_entity_writes
  persist_entity_writes-SameDrops before [] t db h = h
  persist_entity_writes-SameDrops before ((index, e) ∷ items) t db h =
      elim (Sum-cases (backend.write_entity_event e db.others)) [
        | inl (f, failed) ↦ rw (StageSame, failed) h
        | inr (others, written) ↦
            rw (StageSame, written)
              (persist_entity_writes-SameDrops before items (accept_item index e t)
                (record db { others = others }) h)
      ]

  -- Only an aborted stage is claimed to have credited nothing: the last one credits.
  abbrev AbortedSame : Store → Stage W → Type 0
  AbortedSame store (aborted status db) = SameDrops store db.store
  AbortedSame store (went_on t db) = Unit

  finish-SameDrops :
      (before : Store) (dropped : Option ℕ) (delivery_id : Option Text) (run_ids : List Text)
      (s : Stage W)
      → StageSame before s
      → AbortedSame before (finish backend dropped delivery_id run_ids s)
  finish-SameDrops before dropped delivery_id run_ids (aborted status db) h = h
  finish-SameDrops before dropped delivery_id run_ids (went_on t db) h = tt

  after_groups-SameDrops :
      (before : Store) (writes : List (ℕ × TelemetryEvent)) (run_ids : List Text)
      (dropped : Option ℕ) (delivery_id : Option Text) (s : Stage W)
      → StageSame before s
      → AbortedSame before (after_groups backend writes run_ids dropped delivery_id s)
  unfolding after_groups
  after_groups-SameDrops before writes run_ids dropped delivery_id (aborted status db) h = h
  after_groups-SameDrops before writes run_ids dropped delivery_id (went_on t db) h =
      finish-SameDrops before dropped delivery_id run_ids
        (persist_entity_writes backend writes t db)
        (persist_entity_writes-SameDrops before writes t db h)

  -- A batch that is aborted has credited no run with its drop report and has left no mark of its
  -- delivery.
  pub ingest-aborted :
      (raws : List Json) (dropped : Option ℕ) (delivery_id : Option Text) (received_at : ℕ)
      (db after : Database W) (status : HttpStatus)
      → ingest backend raws dropped delivery_id received_at db ≡ aborted status after
      → (after.store.dropped ≡ db.store.dropped) × (after.store.deliveries ≡ db.store.deliveries)
  unfolding ingest
  ingest-aborted raws dropped delivery_id received_at db after status h =
      let g = gather backend 0 raws start_gathered in
      subst (AbortedSame db.store) h (
        after_groups-SameDrops db.store g.entity_writes g.referenced_run_ids dropped delivery_id
          (persist_groups backend received_at g.groups (start_tally g) db)
          (persist_groups-SameDrops db.store received_at g.groups (start_tally g) db (refl, refl)))
