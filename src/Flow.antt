-- ===== src/Flow.antt =====
-- internal/runtime/flowcontrol/controller.go: the flow-control signals of an edge.
pub mod Plan
use realtime_speech_pipeline.Base.{
  String, Bool, true, false, not, ◌&&◌, ◌||◌, Option, none, some, List, [], ◌∷◌, ◌++◌, Result, ok,
  err, ◌>>=◌, ◌>>◌, refuse_if, if◌then◌else◌,
}
use realtime_speech_pipeline.Base.Int.{ℤ, pos, ltℤ, non_negative}
use realtime_speech_pipeline.Base.Text.{is_empty}
use realtime_speech_pipeline.EventAbi.Types.{Lane, PayloadClass, SignalName, Emitter, no_lane}
use realtime_speech_pipeline.EventAbi.Signal
use realtime_speech_pipeline.EventAbi.Signal.{ControlSignal, blank, scope_for, scope_text_for}
use realtime_speech_pipeline.EventAbi.Gateway.{validate_and_normalize_control_signals}

pub data Mode : Type 0 where
  signal credit : Mode
  other : String → Mode

pub record Input : Type 0 where
  pub session_id : String
  pub turn_id : String
  pub pipeline_version : String
  pub edge_id : String
  pub event_id : String
  pub target_lane : Lane
  pub transport_sequence : ℤ
  pub runtime_sequence : ℤ
  pub authority_epoch : ℤ
  pub runtime_timestamp_ms : ℤ
  pub wall_clock_timestamp_ms : ℤ
  pub high_watermark : Bool
  pub emit_recovery : Bool
  pub mode : Mode
  pub credit_amount : ℤ

-- The control signal before it is validated.
unfoldable pub edge_signal : Input → SignalName → String → Option ℤ → ControlSignal
edge_signal req name reason amount = record blank {
  schema_version = "v1.0";
  event_scope = scope_for req.turn_id;
  session_id = req.session_id;
  turn_id = req.turn_id;
  pipeline_version = req.pipeline_version;
  edge_id = req.edge_id;
  event_id = req.event_id;
  lane = Lane.control_lane;
  target_lane = req.target_lane;
  transport_sequence = some (non_negative req.transport_sequence);
  runtime_sequence = non_negative req.runtime_sequence;
  authority_epoch = non_negative req.authority_epoch;
  runtime_timestamp_ms = non_negative req.runtime_timestamp_ms;
  wall_clock_ms = non_negative req.wall_clock_timestamp_ms;
  payload_class = PayloadClass.metadata;
  signal = name;
  emitted_by = Emitter.rk14;
  reason = reason;
  scope = scope_text_for req.turn_id;
  amount = amount;
}

unfoldable pub build_signal : Input → SignalName → String → Option ℤ → Result ControlSignal
build_signal req name reason amount = do
  Signal.validate (edge_signal req name reason amount)
  ok (edge_signal req name reason amount)

-- `if in.Mode == "" { in.Mode = ModeSignal }`
abbrev pub default_mode : Mode → Mode
default_mode (Mode.other s) = if is_empty s then Mode.signal else Mode.other s
default_mode m = m

abbrev pub is_mode : Mode → Bool
is_mode (Mode.other _) = false
is_mode _ = true

-- `if amount < 1 { amount = 1 }`
abbrev pub at_least_one : ℤ → ℤ
at_least_one n = if ltℤ n (pos 1) then pos 1 else n

unfoldable pub pressure_signals : Input → Result (List ControlSignal)
pressure_signals req =
    if req.high_watermark
    then (do
      xoff ← build_signal req SignalName.flow_xoff "backpressure_asserted" none
      ok (xoff ∷ []))
    else ok []

unfoldable pub recovery_signal : Mode → Input → Result ControlSignal
recovery_signal Mode.credit req =
    build_signal req SignalName.credit_grant "" (some (at_least_one req.credit_amount))
recovery_signal _ req = build_signal req SignalName.flow_xon "" none

unfoldable pub recovery_signals : Mode → Input → Result (List ControlSignal)
recovery_signals mode req =
    if req.emit_recovery then (do sig ← recovery_signal mode req; ok (sig ∷ [])) else ok []

unfoldable pub evaluate : Input → Result (List ControlSignal)
evaluate req = do
  refuse_if
      (is_empty req.session_id
        || is_empty req.pipeline_version
        || is_empty req.edge_id
        || is_empty req.event_id)
      "session_id, pipeline_version, edge_id, and event_id are required"
  refuse_if (no_lane req.target_lane) "target_lane is required"
  let mode = default_mode req.mode
  refuse_if (not (is_mode mode)) "unsupported flow control mode: %q"
  first ← pressure_signals req
  second ← recovery_signals mode req
  -- An empty batch passes the gateway as an empty batch, as the early `return nil, nil` does.
  validate_and_normalize_control_signals (first ++ second)
