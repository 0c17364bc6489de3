-- ===== src/Lib.antt =====
-- LenGentic: agent observability and decision intelligence. Agents send telemetry events through
-- the SDK; the API merges them into Runs and Steps; the analysis engine measures the decisions,
-- judges by gates which of them are candidates for a deterministic default, and finds actions
-- that fail again and again. The autopilot scripts run the repository's own plan.
--
-- Parts, with the file that models each (paths from the repository's root):
--   MergeRules (platform/api/src/telemetry/merge-rules.ts): `mergeEvent` and what it calls. The
--     state of an entity is `EntityMergeState`; Order, Apply, Commute and Folds hold the lemmas,
--     Arrival the theorem on orders of arrival.
--   Analysis (platform/analysis-engine/src): Types (types.ts, config.ts), Aggregate
--     (aggregate.ts), Gates (gates.ts, gate-contract.ts) and RepeatedFailures
--     (repeated-failed-action.ts, tool-call.ts). Candidates joins aggregation and gates.
--   Autopilot (scripts/autopilot): Progression (progression.ts), RepairPolicy
--     (repair-policy.ts), State (state.ts), Lease (lease.ts). Lease/Race breaks `acquireLease`
--     into its system calls, which two supervisors interleave by an explicit schedule.
--   TelemetrySdk (platform/telemetry-sdk/src): BoundedQueue (bounded-queue.ts), ClientState and
--     Client (the class Client of client.ts, as a step function on what may happen to it), Config
--     (config.ts), PayloadSafety (the size cap of payload-safety.ts).
--   Telemetry (platform/api/src/telemetry): WireSanitize (wire-sanitize.ts), Events
--     (event-mapping.ts), Repository (telemetry.repository.ts), Batch, Ingest and Failure
--     (telemetry.service.ts), and Parse (platform/shared/schema/parse.ts). `ingest` classifies
--     the events of a batch, hands each group to `with_entity_lock`, which folds it by MergeRules'
--     `merge_event`, and then credits the drop report that the SDK's client sends along.
--   Dashboard (platform/dashboard/src/lib): Timeline (timeline.ts; the text of an instant,
--     `toISOString`, is a parameter), StepTree (step-tree.ts). Views has the fields they read.
--   Lanes (scripts/lanes.ts): Paths (patterns), Units (the records), Evaluate (`evaluate`, the
--     fifteen requirements), Order (`dependencyOrder`, `dependents`), Ownership
--     (`checkOwnership`), Adapter (`unitsFor`) and Lifecycle (the class lifecycles of
--     scripts/oracle.ts). Oracle (scripts/oracle.ts): Graph, Resolve (`resolveGraph`). Flow
--     (scripts/flow.ts): Dependence (`dependsOn`), Segments (`segmentsOf`), Transition
--     (`transition`), Decide (its default decision). `resolve_graph` gives the nodes, `units_for` makes units of them, `evaluate`
--     decides on a batch, and `transition` dispatches what was decided.
--   Base: JavaScript strings, `Map`, `sort`, `Date.parse`, and lemmas on lists and folds.
--
-- A camelCase name of the code is the same name in snake_case here. Choices that all parts share:
--   A string is the list of its UTF-16 units, compared as the code compares strings.
--   A `Map`, or an object used as a bag of own keys, is an association list in insertion order;
--     keys are not names of Object.prototype.
--   A ratio is the exact fraction that the code divides out. A double can round two fractions
--     together; for the counts and thresholds in use (below 2 ^ 49) it keeps their order.
--   `Array.prototype.sort` is stable insertion by the comparator.
--   A time is a count of milliseconds; `Date.parse` is modelled on the ISO texts the code writes.
--   The prose of a reason is kept as its case with the values that it quotes; the requirements of a
--     batch and the actions of the flow come without their sentences.
-- Loops are structural recursion, but for `descend` of StepTree: it runs on fuel, of which there
-- is as much as there are steps; each call places a step that was not placed before. So do the
-- rounds of `dependencyOrder` (as many as units), of `dependents` (one more), the nested calls of
-- `dependsOn` and of `depthOf` (one more than nodes), and the 19 waves of a phase, which is the
-- code's own bound. The search of `truncateString` has as many rounds as its range is wide.
--
-- Parameters: whether a process is alive, and whether a decision record exists on disk; for the
-- SDK's client the answers of the transport, the ids and the envelope check; for `ingest` the
-- record `Backend`: the serializer, zod, the transactions that fail, the round trip of an instant
-- through a column, and the writers of the other entities; for the oracle what a probe finds, for
-- the lanes and the flow whether an agent has a file, and the activation rules. A transaction is
-- one step. Files are a list of names and contents; file-system errors other than "exists
-- already" are left out, and a lease file that parses is taken to hold a lease with a valid
-- expiry.
--
-- Not modelled: HTTP, the database itself, the read side of the API, the dashboard's pages, the
-- SDK's handles and the sanitizing of payloads, the playground, the remaining scripts, and files
-- that only declare schemas or settings.
pub mod Base
pub mod MergeRules
pub mod Telemetry
pub mod Analysis
pub mod Autopilot
pub mod TelemetrySdk
pub mod Dashboard
pub mod Lanes
pub mod Oracle
pub mod Flow
