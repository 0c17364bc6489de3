-- ===== src/Autopilot/Tests.antt =====
-- Runs of scripts/autopilot at concrete inputs.
use lengentic.Base.{
  ℕ, ◌≡◌, refl, ◌↔◌, inr, Bool, true, false, Option, none, some, [], ◌∷◌, All, arith, ◌+◌, ◌==◌,
}
use lengentic.Base.Text.{Text, text, text_eq}
use lengentic.Autopilot.Progression.{
  green, red, gates, validation, Sources, phase_sources, wave_sources, advance_phase, record_wave,
  phase_verdict, wave_verdict,
}
use lengentic.Autopilot.Progression.Advance.{IsProven, verdict_iff}
use lengentic.Autopilot.RepairPolicy.{
  RepairPolicy, whole, charter_override, resolve_repair_policy, IsAuthorised,
  resolve_repair_policy-IsAuthorised,
}
use lengentic.Autopilot.Lease.{Lease, Directory, readable, acquire_lease, verdict_on}
use lengentic.Autopilot.Lease.Exclusion.{Decided, file_of, acquire_lease-Decided}
use lengentic.Autopilot.Lease.Race.{earlier, run, opening, owns}
use lengentic.Autopilot.State.{
  SupervisorState, absent, initial_state, thrown, stale_state, read_state, write_state,
  persisted_of,
}
use lengentic.Autopilot.State.Revisions.{after_writes, write_state-once}
use lengentic.Autopilot.Lease.Race.Owners.{
  half_written, crossed, free_two_owners, abandoned_two_owners, run-keeps_held,
}

abbrev log_path : Text
log_path = text "out/gates.log"

-- The gates are red; everything else cites a log.
abbrev sources : Sources
sources gates =
    some (record { verdict = red; derived_from = text "pnpm gates"; evidence = log_path ∷ [] })
sources validation = none
sources _ = some (record { verdict = green; derived_from = text "probe"; evidence = log_path ∷ [] })

verdict_iff_example :
    (((phase_verdict sources).verdict ≡ advance_phase)
      ↔ All (λ n. IsProven (sources n)) phase_sources)
    × (((wave_verdict sources).verdict ≡ record_wave)
        ↔ All (λ n. IsProven (sources n)) wave_sources)
verdict_iff_example = verdict_iff sources

abbrev record_path : Text
record_path = text "docs/decisions/0007.md"

abbrev on_disk : Text → Bool
on_disk path = text_eq path record_path

abbrev widened : RepairPolicy
widened = record {
  bound = 5;
  authority = charter_override record_path;
  charter = some record_path;
  overridden = true;
}

resolve_repair_policy-IsAuthorised_example : IsAuthorised on_disk widened
unfolding text_eq resolve_repair_policy
resolve_repair_policy-IsAuthorised_example =
    resolve_repair_policy-IsAuthorised
      (record { bound = some (whole 5); charter = some record_path; file_exists = on_disk }) widened
      refl

abbrev only_seven : Option ℕ → Bool
only_seven (some pid) = pid == 7
only_seven none = false

abbrev lease_of : ℕ → ℕ → Lease
lease_of pid acquired_at = record {
  node = text "p3.scaffold";
  worker_id = text "worker";
  run_id = text "run";
  pid = some pid;
  host = text "host";
  acquired_at = acquired_at;
  expires_at = acquired_at + 1800000;
}

abbrev held_by_seven : Directory
held_by_seven = (text "p3.scaffold", readable (lease_of 7 0)) ∷ []

acquire_lease-Decided_example :
    Decided only_seven 1900000 held_by_seven
      (lease_of 8 1900000)
      (file_of held_by_seven (text "p3.scaffold"))
      (acquire_lease only_seven 1900000 held_by_seven (lease_of 8 1900000))
acquire_lease-Decided_example =
    acquire_lease-Decided only_seven 1900000 held_by_seven (lease_of 8 1900000) refl

free_two_owners_example :
    let s = run only_seven 5 (lease_of 7 5) (lease_of 8 5) half_written (opening none) in
    (owns s.first ≡ true) × (owns s.second ≡ true)
free_two_owners_example = free_two_owners only_seven 5 (lease_of 7 5) (lease_of 8 5) refl

abandoned_two_owners_example :
    let s =
      run only_seven 1900000
        (lease_of 7 1900000)
        (lease_of 8 1900000)
        crossed
        (opening (some (earlier, readable (lease_of 6 0)))) in
    (owns s.first ≡ true) × (owns s.second ≡ true)
unfolding verdict_on
abandoned_two_owners_example =
    abandoned_two_owners only_seven 1900000 (lease_of 7 1900000) (lease_of 8 1900000) (lease_of 6 0)
      refl

run-keeps_held_example :
    let s =
      run only_seven 1900000
        (lease_of 8 1900000)
        (lease_of 9 1900000)
        crossed
        (opening (some (earlier, readable (lease_of 7 0)))) in
    (s.file ≡ some (earlier, readable (lease_of 7 0)))
    × ((owns s.first ≡ false) × (owns s.second ≡ false))
run-keeps_held_example =
    run-keeps_held only_seven 1900000 (lease_of 8 1900000) (lease_of 9 1900000) (lease_of 7 0)
      crossed (inr refl)

abbrev start : SupervisorState
start = initial_state 0 (text "run")

-- The file is created, written once more, and then `start` is written again.
write_state-once_example :
    let disk = after_writes (write_state absent start 1).0 ((persisted_of start 1, 2) ∷ []) in
    (found : ℕ) × (write_state disk start 3 ≡ (disk, thrown (stale_state 0 found)))
unfolding write_state read_state initial_state
write_state-once_example =
    write_state-once absent start (persisted_of start 1) 1 ((persisted_of start 1, 2) ∷ []) start 3
      refl (refl, tt) refl (omega arith)
