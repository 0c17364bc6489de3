-- ===== src/Autopilot/Lease/Race/Owners.antt =====
-- How many supervisors own a node after their calls have interleaved.
use lengentic.Base.{
  ℕ, ◌<◌, ◌≡◌, refl, ◌⊎◌, inl, inr, Bool, true, false, Option, none, some, List, [], ◌∷◌, arith,
  ltb, Bool-cases,
}
use lengentic.Autopilot.Lease.{
  Lease, readable, Refusal, acquired, refused, verdict_on, held_until, still_running,
}
use lengentic.Autopilot.Lease.Race.{
  Maker, earlier, first_one, second_one, Stage, starting, looking, reading, retrying, clearing,
  recreating, writing, returned, judged, step, System, turn, run, opening, owns,
}

-- The second supervisor finds the file of the first while it is still empty.
abbrev pub half_written : List Bool
half_written = true ∷ false ∷ false ∷ false ∷ false ∷ false ∷ false ∷ true ∷ []

-- Both find the abandoned lease before either has removed it.
abbrev pub crossed : List Bool
crossed =
    true ∷ true ∷ true ∷ false ∷ false ∷ false ∷ true ∷ true ∷ true ∷ false ∷ false ∷ false ∷ []

-- On a node that nobody holds, two calls of `acquireLease` can both report that they own it:
-- one reads the other's file between its creation and its writing, takes it for an abandoned
-- lease and removes it.
pub free_two_owners :
    (is_alive : Option ℕ → Bool) (now : ℕ) (a b : Lease)
    → is_alive none ≡ false
    → let s = run is_alive now a b half_written (opening none) in
      (owns s.first ≡ true) × (owns s.second ≡ true)
unfolding run turn step verdict_on
free_two_owners is_alive now a b dead = (ground arith, ground arith)

-- From any abandoned lease (run out, its process gone) two calls can both report that they own
-- the node: the second removes the lease that the first has just written.
pub abandoned_two_owners :
    (is_alive : Option ℕ → Bool) (now : ℕ) (a b held : Lease)
    → verdict_on is_alive now held ≡ none
    → let s = run is_alive now a b crossed (opening (some (earlier, readable held))) in
      (owns s.first ≡ true) × (owns s.second ≡ true)
unfolding run turn step
abandoned_two_owners is_alive now a b held gone = (ground arith, ground arith)

-- A call that has not got past a lease in its way.
abbrev pub IsBehind : Stage → Type 0
IsBehind starting = Unit
IsBehind looking = Unit
IsBehind reading = Unit
IsBehind (returned (refused _ _)) = Unit
IsBehind _ = ⊥

abbrev pub IsKept : Lease → System → Type 0
IsKept held s = (s.file ≡ some (earlier, readable held)) × (IsBehind s.first × IsBehind s.second)

IsBehind-owns : (stage : Stage) → IsBehind stage → owns stage ≡ false
IsBehind-owns starting h = refl
IsBehind-owns looking h = refl
IsBehind-owns reading h = refl
IsBehind-owns (returned (refused _ _)) h = refl
IsBehind-owns retrying h = elim h [ ]
IsBehind-owns (clearing _) h = elim h [ ]
IsBehind-owns (recreating _) h = elim h [ ]
IsBehind-owns (writing _) h = elim h [ ]
IsBehind-owns (returned (acquired _ _)) h = elim h [ ]

module _ (is_alive : Option ℕ → Bool) (now : ℕ) (held : Lease) where
  verdict-live :
      (now < held.expires_at) ⊎ (is_alive held.pid ≡ true)
      → (reason : Refusal) × (verdict_on is_alive now held ≡ some reason)
  unfolding verdict_on
  verdict-live live = elim (Bool-cases (ltb now held.expires_at)) [
    | inl current ↦ (held_until held.worker_id held.expires_at, rw current)
    | inr over ↦ (still_running held.expires_at held.pid, ground arith)
  ]

  -- One call leaves the file as it was, and its caller behind it.
  step-IsBehind :
      (me : Maker) (lease : Lease) (stage : Stage)
      → (now < held.expires_at) ⊎ (is_alive held.pid ≡ true)
      → IsBehind stage
      → let r = step is_alive now me lease stage (some (earlier, readable held)) in
        IsBehind r.0 × (r.1 ≡ some (earlier, readable held))
  unfolding step
  step-IsBehind me lease starting live h = (tt, refl)
  step-IsBehind me lease looking live h = (tt, refl)
  step-IsBehind me lease reading live h =
      let (reason, v) = verdict-live live in rw (judged, v) (tt, refl)
  step-IsBehind me lease (returned (refused _ _)) live h = (tt, refl)
  step-IsBehind me lease retrying live h = elim h [ ]
  step-IsBehind me lease (clearing _) live h = elim h [ ]
  step-IsBehind me lease (recreating _) live h = elim h [ ]
  step-IsBehind me lease (writing _) live h = elim h [ ]
  step-IsBehind me lease (returned (acquired _ _)) live h = elim h [ ]

  turn-IsKept :
      (a b : Lease) (t : Bool) (s : System)
      → (now < held.expires_at) ⊎ (is_alive held.pid ≡ true)
      → IsKept held s
      → IsKept held (turn is_alive now a b t s)
  unfolding turn
  turn-IsKept a b true s live (kept, (h, h')) =
      let (behind, same) = step-IsBehind first_one a s.first live h in rw kept (same, (behind, h'))
  turn-IsKept a b false s live (kept, (h, h')) =
      let (behind, same) = step-IsBehind second_one b s.second live h' in
      rw kept (same, (h, behind))

  run-IsKept :
      (a b : Lease) (schedule : List Bool) (s : System)
      → (now < held.expires_at) ⊎ (is_alive held.pid ≡ true)
      → IsKept held s
      → IsKept held (run is_alive now a b schedule s)
  unfolding run turn
  run-IsKept a b [] s live h = h
  run-IsKept a b (t ∷ ts) s live h =
      run-IsKept a b ts (turn is_alive now a b t s) live (turn-IsKept a b t s live h)

-- Whatever the order of their system calls, two calls of `acquireLease` on a node whose lease
-- has not run out, or whose process lives, leave that lease in the file, and neither owns the node.
pub run-keeps_held :
    (is_alive : Option ℕ → Bool) (now : ℕ) (a b held : Lease) (schedule : List Bool)
    → (now < held.expires_at) ⊎ (is_alive held.pid ≡ true)
    → let s = run is_alive now a b schedule (opening (some (earlier, readable held))) in
      (s.file ≡ some (earlier, readable held)) × ((owns s.first ≡ false) × (owns s.second ≡ false))
run-keeps_held is_alive now a b held schedule live =
    let start = opening (some (earlier, readable held)) in
    let (kept, (behind, behind')) =
      run-IsKept is_alive now held a b schedule start live (refl, (tt, tt)) in
    let s = run is_alive now a b schedule start in
    (kept, (IsBehind-owns s.first behind, IsBehind-owns s.second behind'))
