-- ===== src/Autopilot/State/Revisions.antt =====
-- A state that has been written over cannot be written again.
use lengentic.Base.{
  ℕ, suc, ◌≤◌, ◌<◌, ◌≡◌, sym, ap, ◌∙◌, inl, inr, Bool, false, not, ◌&&◌, Option, none, List, [],
  ◌∷◌, ◌++◌, ◌==◌, arith, All, Bool-cases, filter, filter-append, is_none, if◌then◌else◌,
}
use lengentic.Base.Text.{Text}
use lengentic.Autopilot.State.{
  SupervisorState, BlockingFailure, gate, File, parsed, absent, garbled, returned, thrown, Failure,
  other_schema, stale_state, state_schema_version, read_state, write_state, persisted_of,
  unresolved_failures, is_gate, same_segment, failures_blocking_gate,
}

-- The file after one call after another, by whichever supervisor.
unfoldable pub after_writes : File → List (SupervisorState × ℕ) → File
after_writes file [] = file
after_writes file ((next, now) ∷ writes) = after_writes (write_state file next now).0 writes

-- A state of this program's schema at or past a revision.
abbrev pub IsPast : ℕ → File → Type 0
IsPast r absent = ⊥
IsPast r garbled = ⊥
IsPast r (parsed s) = (s.schema_version ≡ state_schema_version) × (r ≤ s.revision)

abbrev pub IsCurrent : SupervisorState × ℕ → Type 0
IsCurrent w = w.0.schema_version ≡ state_schema_version

write_state-matching :
    (on_disk next : SupervisorState) (now : ℕ)
    → on_disk.schema_version ≡ state_schema_version
    → on_disk.revision ≡ next.revision
    → write_state (parsed on_disk) next now
      ≡ (parsed (persisted_of next now), returned (persisted_of next now))
unfolding write_state read_state
write_state-matching on_disk next now schema same = ground arith

write_state-stale :
    (on_disk next : SupervisorState) (now : ℕ)
    → on_disk.schema_version ≡ state_schema_version
    → (on_disk.revision == next.revision) ≡ false
    → write_state (parsed on_disk) next now
      ≡ (parsed on_disk, thrown (stale_state next.revision on_disk.revision))
unfolding write_state read_state
write_state-stale on_disk next now schema other = ground arith

write_state-other_schema :
    (on_disk next : SupervisorState) (now : ℕ)
    → (on_disk.schema_version == state_schema_version) ≡ false
    → write_state (parsed on_disk) next now
      ≡ (parsed on_disk, thrown (other_schema on_disk.schema_version))
unfolding write_state read_state
write_state-other_schema on_disk next now other = ground arith

thrown-ne-returned {ℓ} : {A : Type ℓ} (e : Failure) (a : A) → thrown e ≡ returned a → ⊥
thrown-ne-returned e a p = cc

-- A call on a file that can be read is refused, or moves the revision on.
write_state-IsPast :
    (r : ℕ) (file : File) (next : SupervisorState) (now : ℕ)
    → next.schema_version ≡ state_schema_version
    → IsPast r file
    → IsPast r (write_state file next now).0
write_state-IsPast r absent next now s h = elim h [ ]
write_state-IsPast r garbled next now s h = elim h [ ]
write_state-IsPast r (parsed on_disk) next now s (schema, past) =
    elim (Bool-cases (on_disk.revision == next.revision)) [
      | inl same ↦
          rw (write_state-matching on_disk next now schema (ground arith)) (s, ground arith)
      | inr stale ↦ rw (write_state-stale on_disk next now schema stale) (schema, past)
    ]

after_writes-IsPast :
    (r : ℕ) (writes : List (SupervisorState × ℕ)) (file : File)
    → All IsCurrent writes
    → IsPast r file
    → IsPast r (after_writes file writes)
unfolding after_writes
after_writes-IsPast r [] file c h = h
after_writes-IsPast r ((next, now) ∷ writes) file (s, c) h =
    after_writes-IsPast r writes _ c (write_state-IsPast r file next now s h)

refused_past :
    (r : ℕ) (file : File) (next : SupervisorState) (now : ℕ)
    → next.revision < r
    → IsPast r file
    → (found : ℕ) × (write_state file next now ≡ (file, thrown (stale_state next.revision found)))
refused_past r absent next now old h = elim h [ ]
refused_past r garbled next now old h = elim h [ ]
refused_past r (parsed on_disk) next now old (schema, past) =
    (on_disk.revision, write_state-stale on_disk next now schema (ground arith))

written-IsPast :
    (file : File) (next persisted : SupervisorState) (now : ℕ)
    → next.schema_version ≡ state_schema_version
    → (write_state file next now).1 ≡ returned persisted
    → IsPast (suc next.revision) (write_state file next now).0
unfolding write_state read_state
written-IsPast absent next persisted now s wrote = (s, omega arith)
written-IsPast garbled next persisted now s wrote = cc
written-IsPast (parsed on_disk) next persisted now s wrote =
    elim (Bool-cases (on_disk.schema_version == state_schema_version)) [
      | inr other ↦ absurd (
          thrown-ne-returned _ persisted
            (sym (ap (λ r. r.1) (write_state-other_schema on_disk next now other)) ∙ wrote))
      | inl schema ↦ elim (Bool-cases (on_disk.revision == next.revision)) [
        | inl same ↦
            rw (write_state-matching on_disk next now (ground arith) (ground arith))
              (s, omega arith)
        | inr stale ↦ absurd (
            thrown-ne-returned _ persisted (
              sym (ap (λ r. r.1) (write_state-stale on_disk next now (ground arith) stale))
              ∙ wrote))
      ]
    ]

-- Once a write from some revision has succeeded, whatever writes follow it, another write from
-- that revision or an earlier one is refused as stale and leaves the file as it is.
pub write_state-once :
    (file : File) (next persisted : SupervisorState) (now : ℕ) (writes : List (SupervisorState × ℕ))
    (late : SupervisorState) (later : ℕ)
    → next.schema_version ≡ state_schema_version
    → All IsCurrent writes
    → (write_state file next now).1 ≡ returned persisted
    → late.revision ≤ next.revision
    → let disk = after_writes (write_state file next now).0 writes in
      (found : ℕ) × (write_state disk late later ≡ (disk, thrown (stale_state late.revision found)))
write_state-once file next persisted now writes late later s c wrote old =
    let past = written-IsPast file next persisted now s wrote in
    refused_past (suc next.revision) _ late later (omega arith)
      (after_writes-IsPast (suc next.revision) writes _ c past)

-- A hold that a gate has recorded for a segment does not block the gate of that segment, and
-- still blocks every other.
failures_blocking_gate-hold :
    (s : SupervisorState) (hold : BlockingFailure) (segment : Option Text)
    → hold.kind ≡ gate
    → hold.resolved_at ≡ none
    → let held = record s { blocking_failures = s.blocking_failures ++ hold ∷ [] } in
      failures_blocking_gate held segment
      ≡ failures_blocking_gate s segment
        ++ (if same_segment hold.segment segment then [] else hold ∷ [])
unfolding failures_blocking_gate unresolved_failures
failures_blocking_gate-hold s hold segment kind open_still =
    let unresolved : BlockingFailure → Bool = λ f. is_none f.resolved_at in
    let blocking : BlockingFailure → Bool =
      λ f. not (is_gate f.kind && same_segment f.segment segment) in
    let last : filter blocking (filter unresolved (hold ∷ []))
        ≡ (if same_segment hold.segment segment then [] else hold ∷ []) =
      rw (open_still, kind) (ground arith) in
    ap (filter blocking) (filter-append unresolved s.blocking_failures (hold ∷ []))
    ∙ filter-append blocking (filter unresolved s.blocking_failures) (filter unresolved (hold ∷ []))
    ∙ ap (λ fs. filter blocking (filter unresolved s.blocking_failures) ++ fs) last
