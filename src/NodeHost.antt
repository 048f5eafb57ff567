-- ===== src/NodeHost.antt =====
-- internal/runtime/nodehost/failure.go: what a failed or timed-out node is shaped into.
pub mod Limits
pub mod Failures
use realtime_speech_pipeline.Base.{
  String, Bool, true, false, ◌||◌, some, List, [], ◌∷◌, ◌++◌, Result, ok, err, ◌>>=◌, ◌>>◌,
  refuse_if, if◌then◌else◌,
}
use realtime_speech_pipeline.Base.Int.{ℤ, pos, ltℤ, non_negative}
use realtime_speech_pipeline.Base.Text.{is_empty}
use realtime_speech_pipeline.EventAbi.Types.{Lane, PayloadClass, SignalName, Emitter}
use realtime_speech_pipeline.EventAbi.Signal
use realtime_speech_pipeline.EventAbi.Signal.{ControlSignal, blank, scope_for, scope_text_for}
use realtime_speech_pipeline.EventAbi.Gateway.{validate_and_normalize_control_signals}
use realtime_speech_pipeline.Budget
use realtime_speech_pipeline.Budget.{Action, BudgetSpec, Decision}

pub record NodeFailureInput : Type 0 where
  pub session_id : String
  pub turn_id : String
  pub pipeline_version : String
  pub event_id : String
  pub transport_sequence : ℤ
  pub runtime_sequence : ℤ
  pub authority_epoch : ℤ
  pub runtime_timestamp_ms : ℤ
  pub wall_clock_timestamp_ms : ℤ
  pub node_budget_warning_ms : ℤ
  pub node_budget_exhaust_ms : ℤ
  pub observed_runtime_ms : ℤ
  pub allow_degrade : Bool
  pub allow_fallback : Bool

pub record NodeFailureResult : Type 0 where
  pub signals : List ControlSignal
  pub terminal : Bool
  pub terminal_reason : String

-- The literal of buildSignal; the emitter is always RK-17.
unfoldable pub node_signal : NodeFailureInput → SignalName → String → ControlSignal
node_signal req name reason = record blank {
  schema_version = "v1.0";
  event_scope = scope_for req.turn_id;
  session_id = req.session_id;
  turn_id = req.turn_id;
  pipeline_version = req.pipeline_version;
  event_id = req.event_id;
  lane = Lane.control_lane;
  transport_sequence = some (non_negative req.transport_sequence);
  runtime_sequence = non_negative req.runtime_sequence;
  authority_epoch = non_negative req.authority_epoch;
  runtime_timestamp_ms = non_negative req.runtime_timestamp_ms;
  wall_clock_ms = non_negative req.wall_clock_timestamp_ms;
  payload_class = PayloadClass.metadata;
  signal = name;
  emitted_by = Emitter.rk17;
  reason = reason;
  scope = scope_text_for req.turn_id;
}

unfoldable pub build_signal : NodeFailureInput → SignalName → String → Result ControlSignal
build_signal req name reason = do
  Signal.validate (node_signal req name reason)
  ok (node_signal req name reason)

-- `if v < low { v = default }`
abbrev pub at_least_or : ℤ → ℤ → ℤ → ℤ
at_least_or low default v = if ltℤ v low then default else v

abbrev pub warn_at : NodeFailureInput → ℤ
warn_at req = at_least_or (pos 1) (pos 1200) req.node_budget_warning_ms

abbrev pub exhaust_at : NodeFailureInput → ℤ
exhaust_at req = at_least_or (warn_at req) (pos 1500) req.node_budget_exhaust_ms

abbrev pub observed : NodeFailureInput → ℤ
observed req = at_least_or (pos 1) (exhaust_at req) req.observed_runtime_ms

abbrev pub node_budget : NodeFailureInput → BudgetSpec
node_budget req = record {
  warn_at_ms = warn_at req;
  exhaust_at_ms = exhaust_at req;
  allow_degrade = req.allow_degrade;
  allow_fallback = req.allow_fallback;
}

unfoldable pub normalize_result_signals : NodeFailureResult → Result NodeFailureResult
normalize_result_signals result = do
  normalized ← validate_and_normalize_control_signals result.signals
  ok (record result { signals = normalized })

abbrev pub shaped : List ControlSignal → NodeFailureResult
shaped signals = record { signals = signals; terminal = false; terminal_reason = "" }

-- From the action of the budget manager on; `signals` are the two budget signals.
unfoldable pub shape : Action → NodeFailureInput → List ControlSignal → Result NodeFailureResult
shape Action.degrade req signals = do
  degrade ← build_signal req SignalName.degrade "node_timeout_or_failure"
  normalize_result_signals (shaped (signals ++ degrade ∷ []))
shape Action.fallback req signals = do
  fallback ← build_signal req SignalName.fallback "node_timeout_or_failure"
  normalize_result_signals (shaped (signals ++ fallback ∷ []))
shape _ req signals =
    normalize_result_signals
      (record { signals = signals; terminal = true; terminal_reason = "node_timeout_or_failure" })

unfoldable pub handle_failure : NodeFailureInput → Result NodeFailureResult
handle_failure req = do
  refuse_if (is_empty req.session_id || is_empty req.pipeline_version || is_empty req.event_id)
      "session_id, pipeline_version, and event_id are required"
  warning ← build_signal req SignalName.budget_warning "node_budget_threshold_exceeded"
  exhausted ← build_signal req SignalName.budget_exhausted "node_timeout_or_failure"
  decision ← Budget.evaluate (node_budget req) (record { elapsed_ms = observed req })
  shape decision.action req (warning ∷ exhausted ∷ [])
