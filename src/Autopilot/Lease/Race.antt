-- ===== src/Autopilot/Lease/Race.antt =====
-- `acquireLease` as the system calls that it makes, so that two supervisors can interleave on
-- one node's file. Each call is one step; the code between two calls touches nothing shared.
-- The file is created empty and written by a later call, to the file that was created, even if
-- its name has been removed since. Its `maker` tells the two files of that name apart. The read
-- that only words the last refusal is one step.
pub mod Owners
use lengentic.Base.{
  ℕ, ◌<◌, ◌≡◌, refl, ◌⊎◌, inl, inr, Bool, true, false, Option, none, some, List, [], ◌∷◌, arith,
  ltb, if◌then◌else◌, Bool-cases, ◌&&◌,
}
use lengentic.Base.Text.{Text, text}
use lengentic.Autopilot.Lease.{
  Lease, Contents, readable, garbled, Refusal, AcquireResult, acquired, refused, vanished,
  reclaimed, parse_contents, unreadable_lease, verdict_on, held_until, still_running,
}

pub data Maker : Type 0 where
  earlier first_one second_one : Maker

-- Where a call stands: before its first create, its `existsSync`, its read, its second create,
-- the removal of an abandoned lease, the create after that, the write into the file that it has
-- created; or it has returned.
pub data Stage : Type 0 where
  starting looking reading retrying : Stage
  clearing recreating : Lease → Stage
  writing : Option Lease → Stage
  returned : AcquireResult → Stage

abbrev pub File : Type 0
File = Option (Maker × Contents)

abbrev pub contents : File → Option Contents
contents none = none
contents (some (m, c)) = some c

abbrev pub or_held : Option Lease → Lease → Lease
or_held none held = held
or_held (some now2) held = now2

abbrev pub judged : Option Refusal → Lease → Stage
judged none held = clearing held
judged (some reason) held = returned (refused held reason)

abbrev pub same_maker : Maker → Maker → Bool
same_maker earlier earlier = true
same_maker first_one first_one = true
same_maker second_one second_one = true
same_maker _ _ = false

-- What a write by `m` leaves under the name.
abbrev pub written : Maker → Lease → File → File
written m lease none = none
written m lease (some (m', c)) = if same_maker m m' then some (m', readable lease) else some (m', c)

module _ (is_alive : Option ℕ → Bool) (now : ℕ) (me : Maker) (lease : Lease) where
  -- A file that went away between `existsSync` and the read throws, and counts as unreadable.
  abbrev pub after_read : Option Lease → Stage
  after_read none =
      judged (verdict_on is_alive now (unreadable_lease lease.node)) (unreadable_lease lease.node)
  after_read (some held) = judged (verdict_on is_alive now held) held

  -- One system call of one supervisor.
  unfoldable pub step : Stage → File → Stage × File
  step starting none = (writing none, some (me, garbled))
  step starting (some f) = (looking, some f)
  step looking none = (retrying, none)
  step looking (some f) = (reading, some f)
  step reading file = (after_read (parse_contents lease.node (contents file)), file)
  step retrying none = (writing none, some (me, garbled))
  step retrying (some f) =
      (returned (refused (record lease { worker_id = text "unknown" }) vanished), some f)
  step (clearing held) file = (recreating held, none)
  step (recreating held) none = (writing (some held), some (me, garbled))
  step (recreating held) (some (m, c)) = (
    returned (refused (or_held (parse_contents lease.node (some c)) held) reclaimed),
    some (m, c),
  )
  step (writing stole) file = (returned (acquired lease stole), written me lease file)
  step (returned r) file = (returned r, file)

pub record System : Type 0 where
  pub file : File
  pub first : Stage
  pub second : Stage

module _ (is_alive : Option ℕ → Bool) (now : ℕ) (a b : Lease) where
  -- `true` lets the first supervisor make its next call, `false` the second.
  unfoldable pub turn : Bool → System → System
  turn true s =
      let (stage, file) = step is_alive now first_one a s.first s.file in
      record s { first = stage; file = file }
  turn false s =
      let (stage, file) = step is_alive now second_one b s.second s.file in
      record s { second = stage; file = file }

  unfoldable pub run : List Bool → System → System
  run [] s = s
  run (t ∷ ts) s = run ts (turn t s)

abbrev pub opening : File → System
opening file = record { file = file; first = starting; second = starting }

abbrev pub owns : Stage → Bool
owns (returned (acquired _ _)) = true
owns _ = false
