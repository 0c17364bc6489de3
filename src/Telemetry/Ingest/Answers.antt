-- ===== src/Telemetry/Ingest/Answers.antt =====
-- Each raw event of a batch is answered once.
use lengentic.Base.{
  ℕ, suc, ◌+◌, ◌≡◌, refl, sym, ◌∙◌, Bool, true, ◌&&◌, Option, none, some, List, [], ◌∷◌, ltb, leb,
  ◌==◌, length, count, count-append, arith, if◌then◌else◌, ◌⊎◌, inl, inr, zero, Sum-cases, subst,
}
use lengentic.Base.Text.{Text}
use lengentic.Base.Assoc.{lookup, text_Eq}
use lengentic.Telemetry.Json.{Json}
use lengentic.Telemetry.Events.{TelemetryEvent, MergeableKind}
use lengentic.MergeRules.{EntityMergeState}
use lengentic.Telemetry.Repository.{
  Store, commit, load_ingested_event_ids, event_ids, Folded, fold_items, entity_key,
  with_entity_lock,
}
use lengentic.Telemetry.Batch.{EntityGroup, Gathered, note, Tally, tally_group, accept_item}
use lengentic.Telemetry.Failure.{Failure}
use lengentic.Telemetry.Ingest.Hits.{
  hits, outcome_hits, hits_from, gathered_hits, group_hits, FoldedHits, fold_items-hits, note-hits,
  tally_group-hits, tally_group-IsTallied, accept_item-IsTallied, accepted_result, note-IsTallied,
  IsTallied,
}
use lengentic.Telemetry.Ingest.{
  Backend, Database, Stage, aborted, went_on, classify_event, gather, group_outcome, persist_groups,
  persist_entity_writes, after_groups, finish, start_gathered, start_tally, ingest, thrown,
}

-- The tally that a stage goes on with.
abbrev IsStaged : {W : Type 0} → (ℕ → Bool) → ℕ → Stage W → Type 0
IsStaged p n (aborted status db) = Unit
IsStaged p n (went_on t db) = (hits p t.results ≡ n) × IsTallied t

count-all : {A : Type 0} (xs : List A) → count (λ x. true) xs ≡ length xs
count-all [] = refl
count-all (x ∷ xs) = omega (arith, count-all xs)

hits_from-all : (from n : ℕ) → hits_from (λ j. true) from n ≡ n
hits_from-all from zero = refl
hits_from-all from (suc n) = omega (arith, hits_from-all (from + 1) n)

hits_from-index :
    (i from n : ℕ)
    → hits_from (λ j. j == i) from n ≡ (if leb from i && ltb i (from + n) then 1 else 0)
hits_from-index i from zero = ground arith
hits_from-index i from (suc n) = ground (arith, hits_from-index i (from + 1) n)

first_index : (i n : ℕ) → hits_from (λ j. j == i) 0 n ≡ (if ltb i n then 1 else 0)
first_index i n = ground (arith, hits_from-index i 0 n)

module _ {W : Type 0} (backend : Backend W) where
  gather-hits :
      (p : ℕ → Bool) (index : ℕ) (raws : List Json) (g : Gathered)
      → gathered_hits p (gather backend index raws g)
        ≡ hits_from p index (length raws) + gathered_hits p g
  unfolding gather
  gather-hits p index [] g = omega arith
  gather-hits p index (raw ∷ raws) g = omega (
    arith,
    gather-hits p (index + 1) raws (note index (classify_event backend raw) g),
    note-hits p index (classify_event backend raw) g,
  )

  gather-IsTallied :
      (index : ℕ) (raws : List Json) (g : Gathered)
      → g.rejected ≡ length g.results
      → (gather backend index raws g).rejected ≡ length (gather backend index raws g).results
  unfolding gather
  gather-IsTallied index [] g h = h
  gather-IsTallied index (raw ∷ raws) g h =
      gather-IsTallied (index + 1) raws (note index (classify_event backend raw) g)
        (note-IsTallied index (classify_event backend raw) g h)

  abbrev OutcomeHits :
      (ℕ → Bool) → ℕ → Failure ⊎ (Store × List (ℕ × TelemetryEvent × Bool)) → Type 0
  OutcomeHits p n (inl failure) = Unit
  OutcomeHits p n (inr committed) = outcome_hits p committed.1 ≡ n

  abbrev CommittedHits : (ℕ → Bool) → ℕ → Option (Store × List (ℕ × TelemetryEvent × Bool)) → Type 0
  CommittedHits p n none = Unit
  CommittedHits p n (some committed) = outcome_hits p committed.1 ≡ n

  commit-hits :
      (p : ℕ → Bool) (n : ℕ) (kind : MergeableKind) (entity_id run_id : Text) (received_at : ℕ)
      (old : Option (EntityMergeState Json)) (store : Store) (m : Option Folded)
      → FoldedHits p m n
      → CommittedHits p n (commit backend.normalize kind entity_id run_id received_at old store m)
  commit-hits p n kind entity_id run_id received_at old store none h = tt
  commit-hits p n kind entity_id run_id received_at old store (some f) h = h

  with_entity_lock-hits :
      (p : ℕ → Bool) (kind : MergeableKind) (entity_id run_id : Text)
      (items : List (ℕ × TelemetryEvent)) (received_at : ℕ) (store : Store)
      → CommittedHits p
          (hits p items)
          (with_entity_lock backend.normalize kind entity_id run_id items received_at store)
  unfolding with_entity_lock
  with_entity_lock-hits p kind entity_id run_id items received_at store =
      let existing = lookup (entity_key kind entity_id) store.entities in
      let seen = load_ingested_event_ids store.ingested run_id (event_ids items) in
      commit-hits p (hits p items) kind entity_id run_id received_at existing store
        (fold_items received_at items seen existing)
        (fold_items-hits p received_at items seen existing)

  answered-hits :
      (p : ℕ → Bool) (n : ℕ) (m : Option (Store × List (ℕ × TelemetryEvent × Bool)))
      → CommittedHits p n m
      → OutcomeHits p n (elim m [ none ↦ inl thrown | some committed ↦ inr committed ])
  answered-hits p n none h = tt
  answered-hits p n (some committed) h = h

  group_outcome-hits :
      (p : ℕ → Bool) (failure : Option Failure) (g : EntityGroup) (received_at : ℕ) (store : Store)
      → OutcomeHits p (hits p g.items) (group_outcome backend failure g received_at store)
  unfolding group_outcome
  group_outcome-hits p (some failure) g received_at store = tt
  group_outcome-hits p none g received_at store =
      answered-hits p (hits p g.items)
        (with_entity_lock backend.normalize g.kind g.entity_id g.run_id g.items received_at store)
        (with_entity_lock-hits p g.kind g.entity_id g.run_id g.items received_at store)

  persist_groups-hits :
      (p : ℕ → Bool) (n received_at : ℕ) (groups : List (Text × EntityGroup)) (t : Tally)
      (db : Database W)
      → hits p t.results + group_hits p groups ≡ n
      → IsTallied t
      → IsStaged p n (persist_groups backend received_at groups t db)
  unfolding persist_groups
  persist_groups-hits p n received_at [] t db h tallied = (omega arith, tallied)
  persist_groups-hits p n received_at ((key, g) ∷ groups) t db h tallied =
      let failure = backend.transaction_failure g.kind g.entity_id in
      let o = group_outcome backend failure g received_at db.store in
      elim (Sum-cases o) [
        | inl (f, failed) ↦ rw (IsStaged, failed) tt
        | inr (committed, e) ↦
            rw (IsStaged, e)
              (persist_groups-hits p n received_at groups (tally_group committed.1 t)
                (record db { store = committed.0 })
                (omega (
                  arith,
                  tally_group-hits p committed.1 t,
                  subst (OutcomeHits p (hits p g.items)) e
                      (group_outcome-hits p failure g received_at db.store),
                ))
                (tally_group-IsTallied committed.1 t tallied))
      ]

  persist_entity_writes-hits :
      (p : ℕ → Bool) (n : ℕ) (items : List (ℕ × TelemetryEvent)) (t : Tally) (db : Database W)
      → hits p t.results + hits p items ≡ n
      → IsTallied t
      → IsStaged p n (persist_entity_writes backend items t db)
  unfolding persist_entity_writes
  persist_entity_writes-hits p n [] t db h tallied = (omega arith, tallied)
  persist_entity_writes-hits p n ((index, e) ∷ items) t db h tallied =
      elim (Sum-cases (backend.write_entity_event e db.others)) [
        | inl (f, failed) ↦ rw (IsStaged, failed) tt
        | inr (others, written) ↦
            rw (IsStaged, written)
              (persist_entity_writes-hits p n items (accept_item index e t)
                (record db { others = others })
                (omega
                  (arith, count-append (λ x. p x.0) t.results ((index, accepted_result e) ∷ [])))
                (accept_item-IsTallied index e t tallied))
      ]

  finished-hits :
      (p : ℕ → Bool) (n : ℕ) (dropped : Option ℕ) (delivery_id : Option Text) (run_ids : List Text)
      (s : Stage W)
      → IsStaged p n s
      → IsStaged p n (finish backend dropped delivery_id run_ids s)
  finished-hits p n dropped delivery_id run_ids (aborted status db) h = tt
  finished-hits p n dropped delivery_id run_ids (went_on t db) h = h

  after_groups-hits :
      (p : ℕ → Bool) (m n : ℕ) (writes : List (ℕ × TelemetryEvent)) (run_ids : List Text)
      (dropped : Option ℕ) (delivery_id : Option Text) (s : Stage W)
      → IsStaged p m s
      → m + hits p writes ≡ n
      → IsStaged p n (after_groups backend writes run_ids dropped delivery_id s)
  unfolding after_groups
  after_groups-hits p m n writes run_ids dropped delivery_id (aborted status db) h e = tt
  after_groups-hits p m n writes run_ids dropped delivery_id (went_on t db) (h, tallied) e =
      finished-hits p n dropped delivery_id run_ids (persist_entity_writes backend writes t db)
        (persist_entity_writes-hits p n writes t db (omega arith) tallied)

  ingest-hits :
      (p : ℕ → Bool) (raws : List Json) (dropped : Option ℕ) (delivery_id : Option Text)
      (received_at : ℕ) (db : Database W)
      → IsStaged p
          (hits_from p 0 (length raws))
          (ingest backend raws dropped delivery_id received_at db)
  unfolding ingest
  ingest-hits p raws dropped delivery_id received_at db =
      let g = gather backend 0 raws start_gathered in
      after_groups-hits p (hits p g.results + group_hits p g.groups) (hits_from p 0 (length raws))
        g.entity_writes g.referenced_run_ids dropped delivery_id
        (persist_groups backend received_at g.groups (start_tally g) db)
        (persist_groups-hits p (hits p g.results + group_hits p g.groups) received_at g.groups
          (start_tally g) db refl (omega (arith, gather-IsTallied 0 raws start_gathered refl)))
        (omega (arith, gather-hits p 0 raws start_gathered))

  went_on-hits :
      (p : ℕ → Bool) (raws : List Json) (dropped : Option ℕ) (delivery_id : Option Text)
      (received_at : ℕ) (db after : Database W) (t : Tally)
      → ingest backend raws dropped delivery_id received_at db ≡ went_on t after
      → (hits p t.results ≡ hits_from p 0 (length raws)) × IsTallied t
  went_on-hits p raws dropped delivery_id received_at db after t h =
      subst (IsStaged p (hits_from p 0 (length raws))) h
        (ingest-hits p raws dropped delivery_id received_at db)

  -- Where `ingest` does not abort, each index of the batch has one result and no other index has
  -- any, and the counters of the accepted, the duplicate and the rejected events add up to the
  -- number of raw events.
  pub ingest-answers_once :
      (raws : List Json) (dropped : Option ℕ) (delivery_id : Option Text) (received_at : ℕ)
      (db after : Database W) (t : Tally)
      → ingest backend raws dropped delivery_id received_at db ≡ went_on t after
      → ((i : ℕ) → count (λ r. r.0 == i) t.results ≡ (if ltb i (length raws) then 1 else 0))
        × (t.accepted + (t.duplicate + t.rejected) ≡ length raws)
  ingest-answers_once raws dropped delivery_id received_at db after t h =
      let (found, tallied) =
        went_on-hits (λ j. true) raws dropped delivery_id received_at db after t h in
      (
        λ i.
            (went_on-hits (λ j. j == i) raws dropped delivery_id received_at db after t h).0
            ∙ first_index i (length raws),
        tallied ∙ sym (count-all t.results) ∙ found ∙ hits_from-all 0 (length raws),
      )
