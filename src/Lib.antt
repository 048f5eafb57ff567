-- ===== src/Lib.antt =====
-- A model of the runtime kernel of the realtime speech pipeline: the contracts that its parts exchange
-- (decision outcomes, control signals, event records, turn transitions), the decisions before and in a
-- turn, flow control, the cancellation fence with the egress behind it, the invocation of providers, the
-- order and the run of execution plans, the execution pool, and the recorder of what was done.
--
-- Files and what they model:
-- - ControlPlane/Outcome.antt and ControlPlane/Turn.antt: api/controlplane/types.go, the decision
--   outcomes and turn transitions with their Validate methods (`validate`).
-- - ControlPlane/EdgePolicy.antt and ControlPlane/TurnPlan.antt: the rest of that file, the resolved turn
--   plan with its policies and their Validate methods.
-- - EventAbi/Types.antt, SchemaVersion.antt, Signal.antt and Record.antt: api/eventabi/types.go, the
--   control signals and event records with their Validate methods. The schema version's regular
--   expression is an automaton.
-- - EventAbi/Signal/Contract.antt and ControlPlane/Outcome/Rules.antt: the tables of
--   docs/ContractArtifacts.schema.json for these two artifacts, which the validations are compared with.
-- - EventAbi/Gateway.antt: internal/runtime/eventabi/gateway.go, the normalization of batches.
-- - Flow.antt: internal/runtime/flowcontrol/controller.go.
-- - Buffering.antt, Buffering/SyncLoss.antt and Buffering/Merge.antt: pressure.go, drop_notice.go and
--   merge.go in internal/runtime/buffering.
-- - Cancellation.antt: internal/runtime/cancellation/fence.go; the map of cancelled turns is the list of
--   its keys.
-- - Egress.antt: internal/runtime/transport/fence.go and signals.go; the fence is passed as a state.
-- - LocalAdmission.antt: internal/runtime/localadmission/localadmission.go.
-- - Guard.antt and Guard/Migration.antt: guard.go, enrichment.go and migration.go in
--   internal/runtime/guard.
-- - Budget.antt and NodeHost.antt: internal/runtime/budget/manager.go and
--   internal/runtime/nodehost/failure.go.
-- - Provider/Contracts.antt, Catalog.antt, and Requests.antt with Invocation.antt: contracts.go,
--   registry.go and controller.go below internal/runtime/provider. What the adapters answer depends on a
--   `World` that the calls are threaded through; an adapter is a parameter.
-- - Executor/Specs.antt and Executor/Topology.antt: internal/runtime/executor/plan.go, the validation of
--   execution plans and the order of their nodes. The maps of degrees are functions, and the list of
--   nodes stands for the map of them.
-- - Executor/Scheduler.antt and Executor/Dispatch.antt: internal/runtime/executor/scheduler.go, the evidence
--   of attempts and the scheduling points; Executor/Runs.antt: ExecutePlan in plan.go. What a scheduler is
--   wired to are calls that thread a `World`, each of them there or nil (`Services`).
-- - Lanes.antt: internal/runtime/lanes/router.go.
-- - Timeline.antt, Timeline/Baseline.antt, Timeline/Outcomes.antt and Timeline/Recorder.antt:
--   internal/observability/timeline/recorder.go, the evidence, the outcomes made up from attempts, and the
--   recorder; the map of downgraded turns is the list of its keys, and the counter of drops is not bounded.
-- - SecurityPolicy.antt: internal/security/policy/policy.go and internal/observability/timeline/redaction.go.
-- - PlanResolver.antt: internal/runtime/planresolver/resolver.go and internal/runtime/determinism/service.go.
--   The SHA-256 digest is a parameter, which answers 32 bytes (`Digests`).
-- - TurnArbiter.antt, TurnArbiter/Opening.antt, Drafts.antt, Normal.antt, Evidence.antt and Active.antt:
--   internal/runtime/turnarbiter/arbiter.go, with the bundle of controlplane_bundle.go. The interface
--   TurnStartBundleResolver is a parameter, a function; the recorder is passed as a state, or is nil.
-- - ExecutionPool.antt: internal/runtime/executionpool/pool.go, whose goroutines run interleaved: a step is
--   one operation on the channel or on an atomic. The counters are not bounded.
-- - Examples.antt and the files below it: the theorems at concrete inputs.
--
-- How the parts interact: the turn arbiter opens a turn by the local admission, the guard, the start
-- bundle and the plan resolver, and ends it by signals, transitions and baseline evidence in the
-- recorder, whose redactions the security policy decides; a run of a plan asks, for each node, the
-- router, the scheduling point (over the local admission and a provider invocation) and the node host,
-- and passes its signals through the gateway; flow control, edge buffering, the node host, the egress,
-- the guard and the provider controller build control signals and validate them (EventAbi/Signal);
-- edge buffering asks flow control and the local admission; flow control, the node host and the egress
-- pass them through the gateway; the node host asks the budget manager; the guard and the local
-- admission give decision outcomes (ControlPlane/Outcome).
--
-- Conventions: a string type with constants is a data type whose constructor `other` holds any other
-- string; an error is `err` with the format of its text, without its arguments; int64 is an integer
-- with the wrap-around written out where the source adds (`add64`); a record of Go's zero values is
-- `blank`. Mutexes are not modelled: a sequence of calls is the order in which they take effect.
-- A limit of attempts or providers is a natural number: the source replaces every limit below one.
-- The loop of topologicalOrder runs on as much fuel as there are nodes, and is shown to need no more.
-- The loops over attempts and over providers recurse on the attempts and on the providers left, so no
-- fuel bounds them.
--
-- Not modelled: telemetry and logging, which return nothing to the code modelled here; the HTTP
-- adapters and the provider bootstrap; the command line programs; the control-plane services
-- and the default bundle resolver over them; the listings of recorder entries and the completeness report;
-- replay and tooling; the snapshots of invocations; the identity service and the prelude; scripts and
-- documents.
pub mod Base
pub mod Budget
pub mod Buffering
pub mod Cancellation
pub mod ControlPlane
pub mod Egress
pub mod EventAbi
pub mod Examples
pub mod ExecutionPool
pub mod Executor
pub mod Flow
pub mod Guard
pub mod Lanes
pub mod LocalAdmission
pub mod NodeHost
pub mod PlanResolver
pub mod Provider
pub mod SecurityPolicy
pub mod Timeline
pub mod TurnArbiter
