-- ===== src/Egress.antt =====
-- internal/runtime/transport/signals.go and fence.go: connection signals, and the fence that keeps the
-- output of a cancelled turn from leaving. Telemetry is not modelled: it returns nothing.
pub mod Outputs
use realtime_speech_pipeline.Base.{
  String, Bool, true, false, not, ◌||◌, Option, none, some, List, [], ◌∷◌, Result, ok, err, ◌>>=◌,
  ◌>>◌, refuse_if, if◌then◌else◌,
}
use realtime_speech_pipeline.Base.Int.{ℤ, non_negative}
use realtime_speech_pipeline.Base.Text.{is_empty}
use realtime_speech_pipeline.EventAbi.Types.{
  Lane, EventScope, PayloadClass, SignalName, Emitter, no_signal,
}
use realtime_speech_pipeline.EventAbi.Signal
use realtime_speech_pipeline.EventAbi.Signal.{ControlSignal, blank, scope_for, scope_text_for}
use realtime_speech_pipeline.EventAbi.Gateway.{validate_and_normalize_control_signals}
use realtime_speech_pipeline.Cancellation.{Fence, accept, is_fenced}

pub record ConnectionSignalInput : Type 0 where
  pub session_id : String
  pub turn_id : String
  pub pipeline_version : String
  pub event_id : String
  pub signal : SignalName
  pub transport_sequence : ℤ
  pub runtime_sequence : ℤ
  pub authority_epoch : ℤ
  pub runtime_timestamp_ms : ℤ
  pub wall_clock_timestamp_ms : ℤ
  pub reason : String

-- The literal of BuildConnectionSignal.
unfoldable pub connection_signal : ConnectionSignalInput → ControlSignal
connection_signal req = record blank {
  schema_version = "v1.0";
  event_scope = scope_for req.turn_id;
  session_id = req.session_id;
  turn_id = req.turn_id;
  pipeline_version = req.pipeline_version;
  event_id = req.event_id;
  lane = Lane.control_lane;
  transport_sequence = some (non_negative req.transport_sequence);
  runtime_sequence = non_negative req.runtime_sequence;
  authority_epoch = non_negative req.authority_epoch;
  runtime_timestamp_ms = non_negative req.runtime_timestamp_ms;
  wall_clock_ms = non_negative req.wall_clock_timestamp_ms;
  payload_class = PayloadClass.metadata;
  signal = req.signal;
  emitted_by = Emitter.rk23;
  reason = req.reason;
  scope = scope_text_for req.turn_id;
}

unfoldable pub build_connection_signal : ConnectionSignalInput → Result ControlSignal
build_connection_signal req = do
  refuse_if
      (is_empty req.session_id
        || is_empty req.pipeline_version
        || is_empty req.event_id
        || no_signal req.signal)
      "session_id, pipeline_version, event_id, and signal are required"
  Signal.validate (connection_signal req)
  ok (connection_signal req)

pub record OutputAttempt : Type 0 where
  pub session_id : String
  pub turn_id : String
  pub pipeline_version : String
  pub event_id : String
  pub transport_sequence : ℤ
  pub runtime_sequence : ℤ
  pub authority_epoch : ℤ
  pub runtime_timestamp_ms : ℤ
  pub wall_clock_timestamp_ms : ℤ
  pub cancel_accepted : Bool

pub record OutputDecision : Type 0 where
  pub accepted : Bool
  pub signal : ControlSignal

-- The marker of an output: accepted, or cancelled.
unfoldable pub output_signal : OutputAttempt → (canceled : Bool) → ControlSignal
output_signal req canceled = record blank {
  schema_version = "v1.0";
  event_scope = EventScope.turn;
  session_id = req.session_id;
  turn_id = req.turn_id;
  pipeline_version = req.pipeline_version;
  event_id = req.event_id;
  lane = Lane.control_lane;
  transport_sequence = some (non_negative req.transport_sequence);
  runtime_sequence = non_negative req.runtime_sequence;
  authority_epoch = non_negative req.authority_epoch;
  runtime_timestamp_ms = non_negative req.runtime_timestamp_ms;
  wall_clock_ms = non_negative req.wall_clock_timestamp_ms;
  payload_class = PayloadClass.metadata;
  signal = if canceled then SignalName.playback_cancelled else SignalName.output_accepted;
  emitted_by = Emitter.rk22;
  reason = if canceled then "cancel_fence_applied" else "output_accepted";
  scope = "turn";
}

abbrev first_signal : List ControlSignal → ControlSignal
first_signal [] = blank
first_signal (c ∷ cs) = c

-- From the answer of the fence on.
unfoldable pub decide : OutputAttempt → (canceled : Bool) → Result OutputDecision
decide req canceled = do
  Signal.validate (output_signal req canceled)
  normalized ← validate_and_normalize_control_signals (output_signal req canceled ∷ [])
  ok (record { accepted = not canceled; signal = first_signal normalized })

-- `if in.CancelAccepted { f.turnFence.Accept(…) }`
unfoldable pub accept_cancel : Bool → OutputAttempt → Fence → Fence × Result (Unit {0})
accept_cancel true req f = accept f req.session_id req.turn_id
accept_cancel false req f = (f, ok tt)

unfoldable pub evaluate_accepted :
    OutputAttempt → Fence × Result (Unit {0}) → Fence × Result OutputDecision
evaluate_accepted req (f, ok _) = (f, decide req (is_fenced f req.session_id req.turn_id))
evaluate_accepted req (f, err e) = (f, err e)

abbrev pub lacks_id : OutputAttempt → Bool
lacks_id req =
    is_empty req.session_id
    || is_empty req.turn_id
    || is_empty req.pipeline_version
    || is_empty req.event_id

-- The fence afterwards, and the decision.
unfoldable pub evaluate_output : Fence → OutputAttempt → Fence × Result OutputDecision
evaluate_output f req =
    if lacks_id req
    then (f, err "session_id, turn_id, pipeline_version, and event_id are required")
    else evaluate_accepted req (accept_cancel req.cancel_accepted req f)
