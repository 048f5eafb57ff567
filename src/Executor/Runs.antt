-- ===== src/Executor/Runs.antt =====
-- internal/runtime/executor/plan.go, ExecutePlan: the run of a plan, node after node.
pub mod Order
pub mod Waits
pub mod Completes
use text.Mathlib.Text.{◌==◌}
use realtime_speech_pipeline.Base.{
  ℕ, suc, String, Bool, true, false, not, ◌||◌, Option, none, some, List, [], ◌∷◌, ◌++◌, Result, ok,
  err, if◌then◌else◌,
}
use realtime_speech_pipeline.Base.Effects.{Effect, pure, lift, ◌>>=◌, ◌>>◌}
use realtime_speech_pipeline.Base.Int.{ℤ, pos, non_negative, add64}
use realtime_speech_pipeline.Base.Text.{is_empty, fallback, concat}
use realtime_speech_pipeline.EventAbi.Gateway.{validate_and_normalize_control_signals}
use realtime_speech_pipeline.EventAbi.Signal.{ControlSignal}
use realtime_speech_pipeline.EventAbi.Types.{Lane}
use realtime_speech_pipeline.Lanes.{DispatchTarget}
use realtime_speech_pipeline.NodeHost.{NodeFailureInput, NodeFailureResult, handle_failure}
use realtime_speech_pipeline.Provider.Contracts.{OutcomeClass, is_success}
use realtime_speech_pipeline.Executor.Specs.{NodeSpec, ExecutionPlan, validate}
use realtime_speech_pipeline.Executor.Topology.{topological_order}
use realtime_speech_pipeline.Executor.Scheduler.{
  SchedulingInput, SchedulingDecision, ProviderDecision, Services, default_pipeline_version,
}
use realtime_speech_pipeline.Executor.Dispatch.{node_dispatch}

pub record NodeExecutionResult : Type 0 where
  pub node_id : String
  pub dispatch_target : DispatchTarget
  pub decision : SchedulingDecision
  pub failure : Option NodeFailureResult

pub record ExecutionTrace : Type 0 where
  pub node_order : List String
  pub nodes : List NodeExecutionResult
  pub control_signals : List ControlSignal
  pub completed : Bool
  pub terminal_reason : String

abbrev no_node : NodeSpec
no_node = record {
  node_id = "";
  node_type = "";
  lane = Lane.other "";
  provider = none;
  shed = false;
  reason = "";
  allow_degrade = false;
  allow_fallback = false;
}

-- `nodeByID[nodeID]`
unfoldable pub node_of : List NodeSpec → String → NodeSpec
node_of [] id = no_node
node_of (n ∷ ns) id = if n.node_id == id then n else node_of ns id

unfoldable pub node_input :
    SchedulingInput → (base_event_id : String) → NodeSpec → (index : ℕ) → SchedulingInput
node_input req base_event_id node index = record req {
  event_id = concat base_event_id (concat "-" node.node_id);
  shed = node.shed;
  reason = node.reason;
  transport_sequence = add64 (non_negative req.transport_sequence) (pos index);
  runtime_sequence = add64 (non_negative req.runtime_sequence) (pos index);
  authority_epoch = non_negative req.authority_epoch;
  runtime_timestamp_ms = add64 (non_negative req.runtime_timestamp_ms) (pos index);
  wall_clock_timestamp_ms = add64 (non_negative req.wall_clock_timestamp_ms) (pos index);
  provider_invocation = node.provider;
}

abbrev pub is_cancelled : OutcomeClass → Bool
is_cancelled OutcomeClass.cancelled = true
is_cancelled _ = false

unfoldable pub should_shape : Option ProviderDecision → Bool
should_shape none = false
should_shape (some d) = not (is_success d.outcome_class || is_cancelled d.outcome_class)

unfoldable pub should_shape_node_failure : SchedulingDecision → Bool
should_shape_node_failure decision = should_shape decision.provider

-- The budgets of the failure are left unset.
unfoldable pub failure_input : SchedulingInput → NodeSpec → NodeFailureInput
failure_input req node = record {
  session_id = req.session_id;
  turn_id = req.turn_id;
  pipeline_version = default_pipeline_version req.pipeline_version;
  event_id = concat req.event_id "-node-failure";
  transport_sequence = req.transport_sequence;
  runtime_sequence = req.runtime_sequence;
  authority_epoch = req.authority_epoch;
  runtime_timestamp_ms = req.runtime_timestamp_ms;
  wall_clock_timestamp_ms = req.wall_clock_timestamp_ms;
  node_budget_warning_ms = pos 0;
  node_budget_exhaust_ms = pos 0;
  observed_runtime_ms = pos 0;
  allow_degrade = node.allow_degrade;
  allow_fallback = node.allow_fallback;
}

-- The failure that the node host shapes, if it has to.
unfoldable pub failure_of : Bool → SchedulingInput → NodeSpec → Result (Option NodeFailureResult)
failure_of false req node = ok none
failure_of true req node = shaped (handle_failure (failure_input req node))
  where
    shaped : Result NodeFailureResult → Result (Option NodeFailureResult)
    shaped (ok result) = ok (some result)
    shaped (err message) = err message

abbrev pub signal_of : Option ControlSignal → List ControlSignal
signal_of none = []
signal_of (some c) = c ∷ []

abbrev pub provider_signals : Option ProviderDecision → List ControlSignal
provider_signals none = []
provider_signals (some d) = d.signals

abbrev pub failure_signals : Option NodeFailureResult → List ControlSignal
failure_signals none = []
failure_signals (some f) = f.signals

-- `allowContinue`
unfoldable pub goes_on : (allowed : Bool) → Option NodeFailureResult → Bool
goes_on allowed none = allowed
goes_on allowed (some f) = not f.terminal

abbrev pub continues : NodeExecutionResult → Bool
continues r = goes_on r.decision.allowed r.failure

unfoldable pub reason_of : String → Option NodeFailureResult → String
reason_of reason none = reason
reason_of reason (some f) = if f.terminal then fallback reason f.terminal_reason else reason

-- One node's entry in the trace, with its signals in their order.
unfoldable pub noted : ExecutionTrace → NodeExecutionResult → ExecutionTrace
noted trace r = record trace {
  nodes = trace.nodes ++ r ∷ [];
  control_signals =
      trace.control_signals
      ++ (signal_of r.decision.control_signal
          ++ (provider_signals r.decision.provider ++ failure_signals r.failure));
  terminal_reason = reason_of trace.terminal_reason r.failure;
}

-- The trace when the loop breaks.
unfoldable pub denied : ExecutionTrace → ExecutionTrace
denied trace = record trace {
  completed = false;
  terminal_reason = fallback trace.terminal_reason "execution_plan_denied";
}

abbrev pub started : List String → ExecutionTrace
started order = record {
  node_order = order;
  nodes = [];
  control_signals = [];
  completed = true;
  terminal_reason = "";
}

module _ {World : Type 0} (s : Services World) (router : String → Lane → Result DispatchTarget)
    (submit : Option (String → Effect World (Unit {0}))) where
  -- dispatchNode: with a pool the node runs once the pool has taken it.
  unfoldable pub submitted :
      Option (String → Effect World (Unit {0})) → String → Effect World (Unit {0})
  submitted none id = pure tt
  submitted (some enqueue) id = enqueue id

  unfoldable pub dispatch_node : String → SchedulingInput → Effect World SchedulingDecision
  dispatch_node id req = do submitted submit id; node_dispatch s req

  -- One node: its decision, and its failure if the node host shapes one.
  unfoldable pub run_node : NodeSpec → SchedulingInput → Effect World NodeExecutionResult
  run_node node req = do
    target ← lift (router node.node_type node.lane)
    decision ← dispatch_node node.node_id req
    failure ← lift (failure_of (should_shape_node_failure decision) req node)
    pure (record {
      node_id = node.node_id;
      dispatch_target = target;
      decision = decision;
      failure = failure;
    })

  unfoldable pub after_node :
      (on : Bool)
      → ExecutionTrace
      → (ExecutionTrace → Effect World ExecutionTrace)
      → Effect World ExecutionTrace
  after_node true trace next = next trace
  after_node false trace next = pure (denied trace)

  -- The loop over the order, from its node at `index` on.
  unfoldable pub run_nodes :
      (node_by_id : List NodeSpec)
      → SchedulingInput
      → (base_event_id : String) → (index : ℕ) → List String
      → ExecutionTrace
      → Effect World ExecutionTrace
  run_nodes node_by_id req base index [] trace = pure trace
  run_nodes node_by_id req base index (id ∷ rest) trace = do
    result ← run_node (node_of node_by_id id) (node_input req base (node_of node_by_id id) index)
    after_node (continues result) (noted trace result)
        (run_nodes node_by_id req base (suc index) rest)

  unfoldable pub execute_plan : SchedulingInput → ExecutionPlan → Effect World ExecutionTrace
  execute_plan req plan = do
    node_by_id ← lift (validate plan)
    order ← lift (topological_order plan node_by_id)
    trace ←
        run_nodes node_by_id req (fallback req.event_id "evt-execution-plan") 0 order
          (started order)
    signals ← lift (validate_and_normalize_control_signals trace.control_signals)
    pure (record trace { control_signals = signals })
