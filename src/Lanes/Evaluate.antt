-- ===== src/Lanes/Evaluate.antt =====
-- scripts/lanes.ts, `evaluate`: the fifteen requirements a batch must pass to run in parallel.
-- An agent's file is a parameter (`agent_exists`), and so are the activation rules, which the code
-- reads from a file. `laneEntry` throws for a unit without a usable class, which is `none`.
pub mod Disjoint
use lengentic.Base.{
  ℕ, ◌<◌, Bool, true, false, not, ◌&&◌, ◌||◌, Option, none, some, List, [], ◌∷◌, ◌++◌, map, any,
  filter, length, if◌then◌else◌, is_none, leb, min, max, ◌==◌, ltb, ◌>>=◌, or_else,
}
use lengentic.Base.Text.{Text, text, text_eq}
use lengentic.Base.Assoc.{text_Eq}
use lengentic.Base.Buckets.{group_by}
use lengentic.Base.Arrays.{includes, every, is_nil, sort_texts, flat_map, add_all}
use lengentic.Lanes.Paths.{normalise, match_path, patterns_overlap, find_match}
use lengentic.Lanes.Units.{
  Mode, sequential, parallel, Risk, low, medium, high, Policy, LaneUnit, RepoState, Requirement,
  ReviewLifecycle, per_node, wave_gate, phase_gate, no_review, LaneEntry, ReviewCadence, Decision,
}
use lengentic.Lanes.Lifecycle.{
  Activation, ClassLifecycle, lifecycle_of, review, review_lifecycle, per_packet_caps,
  resolve_roles,
}
use lengentic.Lanes.Order.{ids_of, dependency_order, shared_contracts, dependents}

pub record Overlap : Type 0 where
  pub a : Text
  pub b : Text
  pub pattern_a : Text
  pub pattern_b : Text

-- The two inner loops, for one pair of units.
abbrev pub overlaps_with : LaneUnit → LaneUnit → List Text → List Text → List Overlap
unfolding patterns_overlap
overlaps_with a b as' bs =
    flat_map
      (λ pa.
        flat_map
          (λ pb.
            if patterns_overlap pa pb
            then record { a = a.task_id; b = b.task_id; pattern_a = pa; pattern_b = pb } ∷ []
            else [])
          bs)
      as'

unfoldable pub path_overlaps : List LaneUnit → List Overlap
unfolding patterns_overlap
path_overlaps [] = []
path_overlaps (a ∷ units) =
    flat_map (λ (b : LaneUnit). overlaps_with a b a.allowed_paths b.allowed_paths) units
    ++ path_overlaps units

-- The allowed patterns of all units, each with its owner.
abbrev pub declarations : List LaneUnit → List (Text × Text)
unfolding normalise
declarations units =
    flat_map (λ (u : LaneUnit). map (λ p. (normalise p, u.task_id)) u.allowed_paths) units

-- The patterns with more than one owner, and the owners.
unfoldable pub exact_collisions : List LaneUnit → List (Text × List (Text × Text))
unfolding normalise text_eq group_by
exact_collisions units =
    filter (λ e. ltb 1 (length e.1)) (group_by (λ (d : Text × Text). d.0) (declarations units) [])

abbrev pub lacks_criteria : LaneUnit → Bool
lacks_criteria u = is_nil u.acceptance_criteria

abbrev pub lacks_commands : LaneUnit → Bool
lacks_commands u = is_nil u.validation_commands

abbrev pub is_undeclared : LaneUnit → Bool
is_undeclared u = is_nil u.allowed_paths

abbrev pub touches : List Text → Text → Bool
unfolding patterns_overlap
touches surfaces p = any (patterns_overlap p) surfaces

-- The shared write surfaces the units claim.
abbrev pub shared_claims : List LaneUnit → Policy → List Text
unfolding patterns_overlap
shared_claims units policy =
    flat_map (λ (u : LaneUnit). filter (touches policy.shared_write_surfaces) u.allowed_paths) units

abbrev pub is_high : Option Risk → Bool
is_high (some high) = true
is_high _ = false

abbrev pub dirty_in_lane : List LaneUnit → RepoState → List Text
unfolding match_path
dirty_in_lane units repo =
    filter (λ f. any (λ (u : LaneUnit). not (is_none (find_match f u.allowed_paths))) units)
      repo.dirty

abbrev pub is_repo_safe : List LaneUnit → RepoState → Bool
unfolding match_path
is_repo_safe units repo =
    repo.is_git_repo
    && (is_none repo.operation_in_progress
        && (is_nil repo.conflicted && is_nil (dirty_in_lane units repo)))

abbrev pub is_self_contained : LaneUnit → Bool
is_self_contained u = not (lacks_commands u) && not (lacks_criteria u)

abbrev pub has_enough : List LaneUnit → Policy → Bool
has_enough units policy = leb (max 2 policy.min_units) (length units)

abbrev pub check : Text → Bool → Requirement
check id pass = record { id = id; pass = pass }

unfoldable pub requirements : List LaneUnit → Policy → RepoState → List Requirement
unfolding patterns_overlap path_overlaps exact_collisions match_path
requirements units policy repo =
    let no_undeclared = is_nil (filter is_undeclared units) in
    let no_overlap = is_nil (path_overlaps units) in
    let no_shared = is_nil (shared_claims units policy) in
    check (text "R1") (has_enough units policy)
    ∷ check (text "R2") (is_nil (filter lacks_criteria units))
    ∷ check (text "R3") (is_nil (filter lacks_commands units))
    ∷ check (text "R4") (is_nil (flat_map (λ (u : LaneUnit). u.unknown_deps) units))
    ∷ check (text "R5") (is_nil (filter (λ (u : LaneUnit). not (is_nil u.in_batch_deps)) units))
    ∷ check (text "R6") (
        is_nil (filter (λ (u : LaneUnit). not (is_nil u.open_decisions)) units)
        && is_nil (filter (λ (u : LaneUnit). not (is_nil u.unresolved_deps)) units))
    ∷ check (text "R7") (no_undeclared && no_overlap)
    ∷ check (text "R8") (is_nil (exact_collisions units))
    ∷ check (text "R9") no_shared
    ∷ check (text "R10") (is_nil (filter (λ u. lacks_commands u || is_undeclared u) units))
    ∷ check (text "R11") (no_shared && (no_overlap && no_undeclared))
    ∷ check (text "R12")
        (has_enough units policy && (length (filter is_self_contained units) == length units))
    ∷ check (text "R13") (is_repo_safe units repo)
    ∷ check (text "R14") (is_nil (filter (λ (u : LaneUnit). not u.has_packet_source) units))
    ∷ check (text "R15") (
        is_nil (filter (λ (u : LaneUnit). is_high u.risk) units)
        && is_nil (
            filter (λ (u : LaneUnit). any (touches policy.serialise_if_touches) u.allowed_paths)
              units))
    ∷ []

abbrev pub is_cadence : ReviewLifecycle → ReviewLifecycle → Bool
is_cadence per_node per_node = true
is_cadence wave_gate wave_gate = true
is_cadence phase_gate phase_gate = true
is_cadence no_review no_review = true
is_cadence _ _ = false

module _ (agent_exists : Text → Bool) (activation : Activation) where
  -- A missing class is the class with no name.
  abbrev pub cadence_of : LaneUnit → ReviewLifecycle
  unfolding review_lifecycle
  cadence_of u = review_lifecycle (or_else u.change_class []) activation

  abbrev pub bucket : ReviewLifecycle → List LaneUnit → List Text
  unfolding review_lifecycle sort_texts
  bucket cadence units = sort_texts (ids_of (filter (λ u. is_cadence cadence (cadence_of u)) units))

  -- The lifecycle of a class that is there and not empty.
  abbrev pub rule_of : LaneUnit → Option (Text × ClassLifecycle)
  unfolding lifecycle_of
  rule_of u = elim u.change_class [
    | none ↦ none
    | some [] ↦ none
    | some (c ∷ name) ↦ elim (lifecycle_of (c ∷ name) activation) [
      | none ↦ none
      | some rule ↦ some (c ∷ name, rule)
    ]
  ]

  abbrev pub gate_caps : (ClassLifecycle → List Text) → List LaneUnit → List Text → List Text
  unfolding lifecycle_of text_eq
  gate_caps side [] caps = caps
  gate_caps side (u ∷ units) caps =
      gate_caps side units (elim (rule_of u) [ none ↦ caps | some r ↦ add_all (side r.1) caps ])

  unfoldable pub review_cadence_for : List LaneUnit → ReviewCadence
  unfolding lifecycle_of review_lifecycle sort_texts resolve_roles text_eq
  review_cadence_for units =
      let wave_caps = gate_caps (λ (r : ClassLifecycle). r.per_wave) units [] in
      let phase_caps = gate_caps (λ (r : ClassLifecycle). r.per_phase) units [] in
      record {
        per_node = bucket per_node units;
        wave = bucket wave_gate units;
        phase = bucket phase_gate units;
        none_of_them = bucket no_review units;
        wave_review_required = includes review wave_caps;
        wave_gate_agents = resolve_roles agent_exists (sort_texts wave_caps) activation;
        phase_gate_agents = resolve_roles agent_exists (sort_texts phase_caps) activation;
      }

  unfoldable pub lane_entry : LaneUnit → List LaneUnit → Option LaneEntry
  unfolding lifecycle_of review_lifecycle per_packet_caps resolve_roles dependents sort_texts
      text_eq
  lane_entry u units = elim (rule_of u) [
    | none ↦ none
    | some (change_class, rule) ↦
        let required = per_packet_caps change_class (length u.open_decisions) activation in
        let optional = filter (λ c. not (includes c required)) rule.conditional in
        let halts = dependents u units in
        some (record {
          task_id = u.task_id;
          lane = u.lane;
          risk = u.risk;
          change_class = change_class;
          allowed_paths = u.allowed_paths;
          forbidden_paths = u.forbidden_paths;
          validation = u.validation_commands;
          required_agents = resolve_roles agent_exists required activation;
          optional_agents = resolve_roles agent_exists optional activation;
          review_cadence = review_lifecycle change_class activation;
          halts_if_failed = halts;
          independent_of =
              sort_texts (
                filter (λ id. not (text_eq id u.task_id) && not (includes id halts))
                  (ids_of units));
        })
  ]

  -- `units.map((u) => laneEntry(u, units))`, which stops at the first throw.
  abbrev pub lane_entries : List LaneUnit → List LaneUnit → Option (List LaneEntry)
  unfolding lane_entry
  lane_entries [] units = some []
  lane_entries (u ∷ rest) units =
      lane_entry u units >>= λ entry. lane_entries rest units >>= λ entries. some (entry ∷ entries)

  abbrev pub requirement_ids : List Requirement → List Text
  requirement_ids req = map (λ (r : Requirement). r.id) req

  unfoldable pub evaluate : List LaneUnit → Policy → RepoState → Option Decision
  unfolding requirements dependency_order shared_contracts review_cadence_for lane_entry
  evaluate units policy repo =
      let req = requirements units policy repo in
      let failed = filter (λ (r : Requirement). not r.pass) req in
      let eligible = is_nil failed in
      lane_entries units units >>= λ entries. some (record {
        mode = if eligible then parallel else sequential;
        eligible = eligible;
        reasons = requirement_ids (filter (λ (r : Requirement). r.pass) req);
        blockers = requirement_ids failed;
        dependency_order = dependency_order units;
        shared_contracts = shared_contracts units (ids_of units);
        review_cadence = review_cadence_for units;
        lanes = entries;
        max_concurrency = if eligible then min policy.max_concurrency (length units) else 1;
        requirements = req;
      })
