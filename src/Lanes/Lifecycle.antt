-- ===== src/Lanes/Lifecycle.antt =====
-- scripts/oracle.ts: the class lifecycles of the activation rules. Whether an agent has a file is
-- a parameter (`agent_exists`).
use lengentic.Base.{
  ℕ, Bool, not, ◌&&◌, Option, none, some, List, [], ◌∷◌, ◌++◌, if◌then◌else◌, or_else, ltb,
}
use lengentic.Base.Text.{Text, text, text_eq}
use lengentic.Base.Assoc.{lookup, text_Eq}
use lengentic.Base.Arrays.{includes, add_once}
use lengentic.Lanes.Units.{ReviewLifecycle, per_node, wave_gate, phase_gate, no_review}

-- An entry of `classes` as the file has it: any bucket may be missing.
pub record ClassRule : Type 0 where
  pub per_packet : Option (List Text)
  pub per_wave : Option (List Text)
  pub per_phase : Option (List Text)
  pub conditional : Option (List Text)

pub record ClassLifecycle : Type 0 where
  pub per_packet : List Text
  pub per_wave : List Text
  pub per_phase : List Text
  pub conditional : List Text

pub record Activation : Type 0 where
  pub capabilities : List (Text × List Text)
  pub classes : List (Text × ClassRule)

unfoldable pub lifecycle_of : Text → Activation → Option ClassLifecycle
unfolding lookup
lifecycle_of change_class activation = elim (lookup change_class activation.classes) [
  | none ↦ none
  | some rule ↦ some (record {
    per_packet = or_else rule.per_packet [];
    per_wave = or_else rule.per_wave [];
    per_phase = or_else rule.per_phase [];
    conditional = or_else rule.conditional [];
  })
]

abbrev pub review : Text
review = text "review"

abbrev pub architecture : Text
architecture = text "architecture"

unfoldable pub review_lifecycle : Text → Activation → ReviewLifecycle
unfolding lifecycle_of text_eq
review_lifecycle change_class activation = elim (lifecycle_of change_class activation) [
  | none ↦ no_review
  | some rule ↦
      if includes review rule.per_packet
      then per_node
      else if includes review rule.per_wave
      then wave_gate
      else if includes review rule.per_phase
      then phase_gate
      else no_review
]

-- The architect joins a contract chain only when an undecided question gates the unit.
unfoldable pub per_packet_caps : Text → ℕ → Activation → List Text
unfolding lifecycle_of text_eq
per_packet_caps change_class undecided activation = elim (lifecycle_of change_class activation) [
  | none ↦ []
  | some rule ↦
      if text_eq change_class (text "contract")
        && (ltb 0 undecided
            && (includes architecture rule.conditional
                && not (includes architecture rule.per_packet)))
      then architecture ∷ rule.per_packet
      else rule.per_packet
]

module _ (agent_exists : Text → Bool) where
  -- `candidates.find(...)`.
  abbrev pub find_agent : List Text → Option Text
  find_agent [] = none
  find_agent (a ∷ candidates) = if agent_exists a then some a else find_agent candidates

  abbrev pub role_of : Text → Activation → Text
  unfolding lookup
  role_of cap activation =
      or_else (find_agent (or_else (lookup cap activation.capabilities) (cap ∷ [])))
        (cap ++ text " (NO AGENT FILE)")

  abbrev pub resolve_onto : List Text → Activation → List Text → List Text
  unfolding text_eq lookup
  resolve_onto [] activation out = out
  resolve_onto (cap ∷ capabilities) activation out =
      resolve_onto capabilities activation (add_once (role_of cap activation) out)

  -- `seen` holds what `out` holds.
  unfoldable pub resolve_roles : List Text → Activation → List Text
  unfolding text_eq lookup
  resolve_roles capabilities activation = resolve_onto capabilities activation []
