-- ===== src/Autopilot/RepairPolicy.antt =====
-- scripts/autopilot/repair-policy.ts. `bound` is a JavaScript number: a whole number of any
-- sign, or something else (`NaN` and fractions), which the first check refuses alike. The prose
-- of authorities and errors is kept as its case with the values that it quotes.
use lengentic.Base.{
  ℕ, ◌≤◌, ◌<◌, ◌≡◌, refl, ◌⊎◌, inl, inr, Bool, true, false, Option, none, some, arith, ltb, ◌==◌,
  if◌then◌else◌, Bool-cases, subst, zero, suc,
}
use lengentic.Base.Text.{Text}

abbrev pub standing_repair_bound : ℕ
standing_repair_bound = 2

pub data Authority : Type 0 where
  standing : Authority
  tightened : ℕ → Authority
  charter_override : Text → Authority

pub record RepairPolicy : Type 0 where
  pub bound : ℕ
  pub authority : Authority
  pub charter : Option Text
  pub overridden : Bool

pub data Requested : Type 0 where
  whole : ℕ → Requested
  not_whole : Requested

pub record RepairPolicyInput : Type 0 where
  pub bound : Option Requested
  pub charter : Option Text
  pub file_exists : Text → Bool

pub data Refusal : Type 0 where
  charter_alone not_a_count no_charter : Refusal
  charter_missing : Text → Refusal

pub data Resolution : Type 0 where
  policy : RepairPolicy → Resolution
  refused : Refusal → Resolution

pub standing_policy : RepairPolicy
standing_policy = record {
  bound = standing_repair_bound;
  authority = standing;
  charter = none;
  overridden = false;
}

-- The last two checks, on a bound above the standing one.
widen : ℕ → Option Text → (Text → Bool) → Resolution
widen bound none file_exists = refused no_charter
widen bound (some charter) file_exists =
    if file_exists charter
    then policy (record {
      bound = bound;
      authority = charter_override charter;
      charter = some charter;
      overridden = true;
    })
    else refused (charter_missing charter)

-- `bound` given.
resolve_bound : Requested → Option Text → (Text → Bool) → Resolution
unfolding widen standing_policy
resolve_bound not_whole charter file_exists = refused not_a_count
resolve_bound (whole bound) charter file_exists =
    if ltb bound 1
    then refused not_a_count
    else if ltb bound standing_repair_bound
    then policy (record {
      bound = bound;
      authority = tightened bound;
      charter = charter;
      overridden = true;
    })
    else if bound == standing_repair_bound
    then policy standing_policy
    else widen bound charter file_exists

resolve : Option Requested → Option Text → (Text → Bool) → Resolution
unfolding resolve_bound standing_policy
resolve none none file_exists = policy standing_policy
resolve none (some charter) file_exists = refused charter_alone
resolve (some bound) charter file_exists = resolve_bound bound charter file_exists

unfoldable pub resolve_repair_policy : RepairPolicyInput → Resolution
unfolding resolve
resolve_repair_policy input = resolve input.bound input.charter input.file_exists

-- A policy that may be used: at most the standing bound, or above it with a named record that
-- exists; and marked as overridden exactly when its bound is not the standing one.
abbrev pub IsAuthorised : (Text → Bool) → RepairPolicy → Type 0
IsAuthorised file_exists p =
    (1 ≤ p.bound)
    × ((p.bound ≤ standing_repair_bound)
        ⊎ ((path : Text) × (p.charter ≡ some path) × (file_exists path ≡ true)))
    × (p.overridden ≡ (if p.bound == standing_repair_bound then false else true))

policy-injective : (p q : RepairPolicy) → policy p ≡ policy q → p ≡ q
policy-injective p q e = cc

refused-ne-policy : (r : Refusal) (p : RepairPolicy) → refused r ≡ policy p → ⊥
refused-ne-policy r p e = cc

widen-IsAuthorised :
    (bound : ℕ) (charter : Option Text) (file_exists : Text → Bool) (p : RepairPolicy)
    → standing_repair_bound < bound
    → widen bound charter file_exists ≡ policy p
    → IsAuthorised file_exists p
unfolding widen
widen-IsAuthorised bound none f p h e = cc
widen-IsAuthorised bound (some path) f p h e = elim (Bool-cases (f path)) [
  | inl found ↦
      subst (IsAuthorised f)
        (policy-injective
          (record {
            bound = bound;
            authority = charter_override path;
            charter = some path;
            overridden = true;
          })
          p (rw (found, widen) at e))
        (omega arith, inr (path, refl, found), ground arith)
  | inr missing ↦ absurd (refused-ne-policy (charter_missing path) p (rw (missing, widen) at e))
]

standing_or :
    (f : Text → Bool) (p : RepairPolicy) → policy standing_policy ≡ policy p → IsAuthorised f p
unfolding standing_policy
standing_or f p e =
    subst (IsAuthorised f) (policy-injective standing_policy p e)
      (omega arith, inl (omega arith), ground arith)

resolve-IsAuthorised :
    (b : Option Requested) (charter : Option Text) (f : Text → Bool) (p : RepairPolicy)
    → resolve b charter f ≡ policy p
    → IsAuthorised f p
unfolding resolve
resolve-IsAuthorised none none f p e = standing_or f p e
resolve-IsAuthorised none (some path) f p e = cc
resolve-IsAuthorised (some not_whole) charter f p e = cc
resolve-IsAuthorised (some (whole zero)) charter f p e = absurd (refused-ne-policy not_a_count p e)
resolve-IsAuthorised (some (whole (suc zero))) charter f p e =
    subst (IsAuthorised f)
      (policy-injective
        (record { bound = 1; authority = tightened 1; charter = charter; overridden = true }) p e)
      (omega arith, inl (omega arith), ground arith)
resolve-IsAuthorised (some (whole (suc (suc zero)))) charter f p e = standing_or f p e
resolve-IsAuthorised (some (whole (suc (suc (suc n))))) charter f p e =
    widen-IsAuthorised (suc (suc (suc n))) charter f p (omega arith) (ground arith)

-- What may be asked for: up to the standing bound freely, more with a record that exists.
abbrev pub MayAsk : ℕ → Option Text → (Text → Bool) → Type 0
MayAsk n charter f =
    (n ≤ standing_repair_bound) ⊎ ((path : Text) × (charter ≡ some path) × (f path ≡ true))

-- A count of at least one that may be asked for is granted as it was asked.
resolve_repair_policy-grants :
    (n : ℕ) (charter : Option Text) (f : Text → Bool)
    → 1 ≤ n
    → MayAsk n charter f
    → (p : RepairPolicy) × (resolve_repair_policy
          (record { bound = some (whole n); charter = charter; file_exists = f })
        ≡ policy p)
      × (p.bound ≡ n)
unfolding resolve_repair_policy
resolve_repair_policy-grants zero charter f pos may = absurd (omega arith)
resolve_repair_policy-grants (suc zero) charter f pos may = (_, refl, refl)
resolve_repair_policy-grants (suc (suc zero)) charter f pos may = (_, refl, refl)
resolve_repair_policy-grants (suc (suc (suc n))) charter f pos (inl small) = absurd (omega arith)
resolve_repair_policy-grants (suc (suc (suc n))) charter f pos (inr (path, named, found)) = (
  record {
    bound = suc (suc (suc n));
    authority = charter_override path;
    charter = some path;
    overridden = true;
  },
  ground arith,
  refl,
)

-- Whatever was asked for on the command line, a policy that comes back allows at least one
-- attempt, exceeds the standing bound only under a decision record that exists, and is marked
-- as overridden exactly when its bound is not the standing one.
pub resolve_repair_policy-IsAuthorised :
    (input : RepairPolicyInput) (p : RepairPolicy)
    → resolve_repair_policy input ≡ policy p
    → IsAuthorised input.file_exists p
unfolding resolve_repair_policy
resolve_repair_policy-IsAuthorised input p e =
    resolve-IsAuthorised input.bound input.charter input.file_exists p e
