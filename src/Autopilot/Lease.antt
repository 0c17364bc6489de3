-- ===== src/Autopilot/Lease.antt =====
-- scripts/autopilot/lease.ts. The lease directory is a list of files by name. Times are
-- milliseconds; the ISO texts that the code writes and parses back stand for them. A file that
-- does not parse is `garbled`. `pid` is a process number, or `none` for the -1 that stands in
-- for an unreadable lease. Whether a process is alive is a parameter (`opts.isAlive`).
-- File-system errors other than EEXIST are left out; `mkdirSync` changes nothing here.
pub mod Exclusion
pub mod Race
use lengentic.Base.{
  ℕ, suc, zero, ◌+◌, Bool, true, false, not, ◌&&◌, ◌||◌, Option, none, some, List, [], ◌∷◌, map,
  leb, ltb, ◌==◌, if◌then◌else◌,
}
use lengentic.Base.Text.{Text, text, text_eq}
use lengentic.Base.Assoc.{lookup, assign, text_Eq}

abbrev pub default_lease_ttl_ms : ℕ
default_lease_ttl_ms = 1800000

pub record Lease : Type 0 where
  pub node : Text
  pub worker_id : Text
  pub run_id : Text
  pub pid : Option ℕ
  pub host : Text
  pub acquired_at : ℕ
  pub expires_at : ℕ

pub record LeaseHolder : Type 0 where
  pub worker_id : Text
  pub run_id : Text
  pub pid : ℕ

pub data Contents : Type 0 where
  readable : Lease → Contents
  garbled : Contents

abbrev pub Directory : Type 0
Directory = List (Text × Contents)

pub data Refusal : Type 0 where
  held_until : Text → ℕ → Refusal
  still_running : ℕ → Option ℕ → Refusal
  vanished reclaimed : Refusal

pub data AcquireResult : Type 0 where
  acquired : Lease → Option Lease → AcquireResult
  refused : Lease → Refusal → AcquireResult

-- `[A-Za-z0-9._-]`.
is_name_unit : ℕ → Bool
is_name_unit c =
    (leb b'A' c && leb c b'Z')
    || (leb b'a' c && leb c b'z')
    || (leb b'0' c && leb c b'9')
    || (c == b'.')
    || (c == b'_')
    || (c == b'-')

-- The file's name, without its extension.
unfoldable pub lease_path : Text → Text
unfolding is_name_unit
lease_path node = map (λ c. if is_name_unit c then c else b'_') node

abbrev pub unreadable_lease : Text → Lease
unreadable_lease node = record {
  node = node;
  worker_id = text "unreadable";
  run_id = text "unknown";
  pid = none;
  host = text "unknown";
  acquired_at = 0;
  expires_at = 0;
}

abbrev pub parse_contents : Text → Option Contents → Option Lease
parse_contents node none = none
parse_contents node (some (readable lease)) = some lease
parse_contents node (some garbled) = some (unreadable_lease node)

unfoldable pub read_lease : Directory → Text → Option Lease
read_lease dir node = parse_contents node (lookup (lease_path node) dir)

-- What `process.kill(pid, 0)` answers.
pub data Signal : Type 0 where
  delivered not_permitted no_such_process : Signal

-- `isProcessAlive`, over the system's answer.
unfoldable pub is_process_alive : (ℕ → Signal) → Option ℕ → Bool
is_process_alive kill none = false
is_process_alive kill (some zero) = false
is_process_alive kill (some (suc n)) = elim (kill (suc n)) [
  | delivered ↦ true
  | not_permitted ↦ true
  | no_such_process ↦ false
]

-- `openSync(path, 'wx')` and the write: refused where the file is there.
abbrev pub create_at : Option Contents → Text → Lease → Directory → Option Directory
create_at none path lease dir = some (assign path (readable lease) dir)
create_at (some _) path lease dir = none

unfoldable pub create : Directory → Lease → Option Directory
create dir lease = create_at (lookup (lease_path lease.node) dir) (lease_path lease.node) lease dir

-- `rmSync(path, { force: true })`.
unfoldable pub remove : Text → Directory → Directory
remove path [] = []
remove path ((p, c) ∷ dir) = if text_eq p path then remove path dir else (p, c) ∷ remove path dir

abbrev pub new_lease : Text → LeaseHolder → Text → ℕ → ℕ → Lease
new_lease node holder host ttl now = record {
  node = node;
  worker_id = holder.worker_id;
  run_id = holder.run_id;
  pid = some holder.pid;
  host = host;
  acquired_at = now;
  expires_at = now + ttl;
}

-- What `acquireLease` decides about a lease that it found: to refuse, or to take it over.
unfoldable pub verdict_on : (Option ℕ → Bool) → ℕ → Lease → Option Refusal
verdict_on is_alive now held =
    if ltb now held.expires_at
    then some (held_until held.worker_id held.expires_at)
    else if is_alive held.pid
    then some (still_running held.expires_at held.pid)
    else none

-- The last part of `acquireLease`: remove the abandoned lease, and create one's own.
unfoldable pub take_over : Directory → Lease → Lease → Directory × AcquireResult
take_over dir lease held =
    let cleared = remove (lease_path lease.node) dir in
    elim (create cleared lease) [
      | some dir' ↦ (dir', acquired lease (some held))
      | none ↦ (cleared, refused held reclaimed)
    ]

abbrev pub on_held :
    (Option ℕ → Bool) → ℕ → Directory → Lease → Option Lease → Directory × AcquireResult
on_held is_alive now dir lease none = elim (create dir lease) [
  | some dir' ↦ (dir', acquired lease none)
  | none ↦ (dir, refused (record lease { worker_id = text "unknown" }) vanished)
]
on_held is_alive now dir lease (some held) = elim (verdict_on is_alive now held) [
  | some reason ↦ (dir, refused held reason)
  | none ↦ take_over dir lease held
]

-- `acquireLease` from start to end with nobody else in the directory.
unfoldable pub acquire_lease : (Option ℕ → Bool) → ℕ → Directory → Lease → Directory × AcquireResult
acquire_lease is_alive now dir lease = elim (create dir lease) [
  | some dir' ↦ (dir', acquired lease none)
  | none ↦ on_held is_alive now dir lease (read_lease dir lease.node)
]

abbrev pub release_held : Directory → Text → Text → Option Lease → Directory × Bool
release_held dir node worker_id none = (dir, false)
release_held dir node worker_id (some held) =
    if text_eq held.worker_id worker_id then (remove (lease_path node) dir, true) else (dir, false)

unfoldable pub release_lease : Directory → Text → Text → Directory × Bool
release_lease dir node worker_id = release_held dir node worker_id (read_lease dir node)

abbrev pub renew_held : Directory → Text → Text → ℕ → ℕ → Option Lease → Directory × Option Lease
renew_held dir node worker_id ttl now none = (dir, none)
renew_held dir node worker_id ttl now (some held) =
    let renewed = record held { expires_at = now + ttl } in
    if text_eq held.worker_id worker_id
    then (assign (lease_path node) (readable renewed) dir, some renewed)
    else (dir, none)

unfoldable pub renew_lease : Directory → Text → Text → ℕ → ℕ → Directory × Option Lease
renew_lease dir node worker_id ttl now = renew_held dir node worker_id ttl now (read_lease dir node)

unfoldable pub list_leases : Directory → List Lease
list_leases [] = []
list_leases ((p, readable lease) ∷ dir) = lease ∷ list_leases dir
list_leases ((p, garbled) ∷ dir) = list_leases dir

-- The loop of `reapExpired` over the leases that it listed.
unfoldable pub reap_from : (Option ℕ → Bool) → ℕ → List Lease → Directory → Directory × List Lease
reap_from is_alive now [] dir = (dir, [])
reap_from is_alive now (lease ∷ leases) dir =
    let kept = reap_from is_alive now leases dir in
    let (dir', reaped) = reap_from is_alive now leases (remove (lease_path lease.node) dir) in
    if ltb now lease.expires_at
    then kept
    else if is_alive lease.pid
    then kept
    else (dir', lease ∷ reaped)

unfoldable pub reap_expired : (Option ℕ → Bool) → ℕ → Directory → Directory × List Lease
reap_expired is_alive now dir = reap_from is_alive now (list_leases dir) dir
