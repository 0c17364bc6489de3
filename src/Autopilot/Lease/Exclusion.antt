-- ===== src/Autopilot/Lease/Exclusion.antt =====
-- Who holds a node after one call.
use lengentic.Base.{
  ℕ, ◌<◌, ◌≡◌, refl, ◌∙◌, ◌⊎◌, inl, inr, Bool, true, false, Option, none, some, [], ◌∷◌, arith,
  Bool-cases, if◌then◌else◌, ltb,
}
use lengentic.Base.Text.{Text, text_eq, text_eq_self, text_eq→eq}
use lengentic.Base.Assoc.{lookup, assign, lookup-assign, text_Eq}
use lengentic.Autopilot.Lease.{
  Lease, Contents, readable, garbled, Directory, Refusal, held_until, still_running, AcquireResult,
  acquired, refused, lease_path, parse_contents, read_lease, unreadable_lease, create, remove,
  verdict_on, take_over, on_held, acquire_lease,
}

lookup-remove :
    (p q : Text) (dir : Directory)
    → lookup q (remove p dir) ≡ (if text_eq p q then none else lookup q dir)
unfolding lookup remove
lookup-remove p q [] = ground arith
lookup-remove p q ((r, c) ∷ dir) = ground (
  arith,
  lookup-remove p q dir,
  text_eq→eq r p,
  text_eq→eq r q,
  text_eq→eq p q,
  text_eq_self p,
  text_eq_self r,
)

-- A lease that stands in the way: it parses, and it has not run out or its process lives.
abbrev pub Blocks : (Option ℕ → Bool) → ℕ → Option Contents → Type 0
Blocks is_alive now none = ⊥
Blocks is_alive now (some garbled) = ⊥
Blocks is_alive now (some (readable held)) = (now < held.expires_at) ⊎ (is_alive held.pid ≡ true)

abbrev pub file_of : Directory → Text → Option Contents
file_of dir node = lookup (lease_path node) dir

-- The outcome of a call: the caller's lease is in the file; or nothing has changed.
abbrev pub Takes : Lease → Directory → Directory × AcquireResult → Type 0
Takes lease dir r =
    (stole : Option Lease) × (r.1 ≡ acquired lease stole)
    × ((node : Text)
        → lookup node r.0 ≡ (
            if text_eq (lease_path lease.node) node
            then some (readable lease)
            else lookup node dir))

abbrev pub Leaves : Lease → Directory → Directory × AcquireResult → Type 0
Leaves lease dir r = (held : Lease) × (reason : Refusal) × (r.1 ≡ refused held reason) × (r.0 ≡ dir)

create_free :
    (dir : Directory) (lease : Lease)
    → file_of dir lease.node ≡ none
    → create dir lease ≡ some (assign (lease_path lease.node) (readable lease) dir)
unfolding create
create_free dir lease e = rw e

create_taken :
    (dir : Directory) (lease : Lease) (c : Contents)
    → file_of dir lease.node ≡ some c
    → create dir lease ≡ none
unfolding create
create_taken dir lease c e = rw e

take_over-Takes :
    (dir : Directory) (lease held : Lease) → Takes lease dir (take_over dir lease held)
unfolding take_over
take_over-Takes dir lease held =
    let path = lease_path lease.node in
    let cleared = remove path dir in
    let free : file_of cleared lease.node ≡ none =
      lookup-remove path path dir ∙ rw (text_eq_self path) in
    rw (create_free cleared lease free, take_over)
      (
        some held,
        refl,
        λ node.
            ground (
              arith,
              lookup-assign path node (readable lease) cleared,
              lookup-remove path node dir,
            ),
      )

-- Refused with nothing changed where a lease blocks; taken where none does.
abbrev pub Decided :
    (Option ℕ → Bool) → ℕ → Directory → Lease → Option Contents → Directory × AcquireResult → Type 0
Decided is_alive now dir lease c r =
    (Blocks is_alive now c × Leaves lease dir r) ⊎ ((¬ Blocks is_alive now c) × Takes lease dir r)

module _ (is_alive : Option ℕ → Bool) (now : ℕ) (dir : Directory) (lease : Lease) where
  -- The call goes on with what it reads, once its create has failed.
  acquire_lease-held :
      (c : Contents)
      → file_of dir lease.node ≡ some c
      → acquire_lease is_alive now dir lease
        ≡ on_held is_alive now dir lease (parse_contents lease.node (some c))
  unfolding acquire_lease read_lease
  acquire_lease-held c e = rw (create_taken dir lease c e, acquire_lease, e)

  verdict-Blocks :
      (held : Lease)
      → (Blocks is_alive now (some (readable held))
          × ((reason : Refusal) × (verdict_on is_alive now held ≡ some reason)))
        ⊎ ((¬ Blocks is_alive now (some (readable held))) × (verdict_on is_alive now held ≡ none))
  unfolding verdict_on
  verdict-Blocks held = elim (Bool-cases (ltb now held.expires_at)) [
    | inl current ↦
        inl (inl (ground arith), (held_until held.worker_id held.expires_at, rw current))
    | inr over ↦ elim (Bool-cases (is_alive held.pid)) [
      | inl lives ↦ inl (inr lives, (still_running held.expires_at held.pid, rw (over, lives)))
      | inr gone ↦ inr (λ b. ground arith, rw (over, gone))
    ]
  ]

  verdict-unreadable :
      (node : Text) → is_alive none ≡ false → verdict_on is_alive now (unreadable_lease node) ≡ none
  unfolding verdict_on
  verdict-unreadable node dead = ground arith

  decided :
      is_alive none ≡ false
      → (c : Option Contents) → file_of dir lease.node ≡ c
      → Decided is_alive now dir lease c (acquire_lease is_alive now dir lease)
  unfolding acquire_lease
  decided dead none e =
      rw (create_free dir lease e, acquire_lease)
        (inr (
          λ b. b,
          (none, refl, λ node. lookup-assign (lease_path lease.node) node (readable lease) dir),
        ))
  decided dead (some garbled) e = rw (acquire_lease-held garbled e) (
      inr (
        λ b. b,
        rw (on_held, verdict-unreadable lease.node dead)
            (take_over-Takes dir lease (unreadable_lease lease.node)),
      ))
  decided dead (some (readable held)) e =
      rw (acquire_lease-held (readable held) e) (elim (verdict-Blocks held) [
        | inl (b, (reason, v)) ↦ inl (b, rw (v, on_held) (held, reason, refl, refl))
        | inr (b, v) ↦ inr (b, rw (v, on_held) (take_over-Takes dir lease held))
      ])

-- A call to `acquireLease` that nobody interrupts: the caller is refused exactly when the file
-- holds a readable lease that has not run out or whose process lives, and then nothing changes;
-- otherwise its own lease is in the node's file afterwards, and no other file has changed.
pub acquire_lease-Decided :
    (is_alive : Option ℕ → Bool) (now : ℕ) (dir : Directory) (lease : Lease)
    → is_alive none ≡ false
    → Decided is_alive now dir lease (file_of dir lease.node) (acquire_lease is_alive now dir lease)
acquire_lease-Decided is_alive now dir lease dead =
    decided is_alive now dir lease dead (file_of dir lease.node) refl
